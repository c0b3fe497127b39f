-- ===== src/Ib/Close.antt =====
-- The end of a comm in src/unet/unet_ib.cc: ncclIbCloseSend and ncclIbCloseRecv.
pub mod Users
mod Tests
use nccl_exts.Prelude.{
  ℕ, zero, suc, Bool, not, List, [], ◌∷◌, Option, none, some, if◌then◌else◌, get_or, set,
}
use nccl_exts.Prelude.Nccl.{
  NcclResult, Result, system_error, Action, ◌>>=◌, ◌>>◌, pure, fail_if, gets, modify, nccl_check,
}
use nccl_exts.Ib.Comm.{Qp, ib_qp_count, stat_dec}
use nccl_exts.Ib.Pd.{DevPd, DevBase, destroy_base}
use nccl_exts.Ib.Connect.{Conn, blank_pd}

-- What the verbs library answers while a comm is closed, by the queue pair, the key of a region, or
-- the IB device; `socket` is ncclSocketClose's result.
pub record CloseHost : Type 0 where
  pub socket : NcclResult
  pub destroy_qp : ℕ → Bool
  pub destroy_flush : ℕ → Bool
  pub dereg_mr : ℕ → Bool
  pub destroy_cq : ℕ → Bool
  pub dealloc_pd : ℕ → Bool

-- A queue pair less.
unfoldable pub count_down : Conn → Conn
count_down s = record s { stat = stat_dec ib_qp_count s.stat }

-- What ncclIbDestroyBase on IB device n leaves.
unfoldable pub take_destroyed : ℕ → Result (Unit {0}) × DevPd → Action Conn (Unit {0})
take_destroyed n (r, d) s = (r, record s { pds = set s.pds n d; stat = d.stat })

module _ (host : CloseHost) where
  -- The loop over the queue pairs that the comm has.
  unfoldable pub destroy_qps : List Qp → Action Conn (Unit {0})
  destroy_qps [] = pure tt
  destroy_qps (q ∷ qps) = fail_if (not (host.destroy_qp q.qp)) system_error >>= λ done.
      modify count_down >> destroy_qps qps

  -- wrap_ibv_dereg_mr on a region that is there.
  unfoldable pub dereg : Option ℕ → Action Conn (Unit {0})
  dereg none = pure tt
  dereg (some key) = fail_if (not (host.dereg_mr key)) system_error

  unfoldable pub destroy_dev : DevBase → Action Conn (Unit {0})
  destroy_dev b s =
      take_destroyed b.ib_dev_n
        (destroy_base (host.destroy_cq b.ib_dev_n) (host.dealloc_pd b.ib_dev_n)
          (record (get_or s.pds b.ib_dev_n blank_pd) { stat = s.stat }))
        s

  -- The i-th of a list, `none` behind its end.
  abbrev pub nth : List ℕ → ℕ → Option ℕ
  nth [] i = none
  nth (x ∷ xs) zero = some x
  nth (x ∷ xs) (suc i) = nth xs i

  -- The loop over the devices of a send comm from the i-th on: fifoMr, the mr of the sizes, the base.
  unfoldable pub close_send_devs : List DevBase → ℕ → Action Conn (Unit {0})
  close_send_devs [] i = pure tt
  close_send_devs (b ∷ bases) i = gets (λ (s : Conn). nth s.fifo_keys i) >>= λ fifo.
      dereg fifo >>= λ _. gets (λ (s : Conn). nth s.sizes_keys i) >>= λ sizes.
      dereg sizes >>= λ _. destroy_dev b >>= λ _. close_send_devs bases (suc i)

  -- ncclIbCloseSend on a comm.
  unfoldable pub close_send : Action Conn (Unit {0})
  close_send s =
      (nccl_check host.socket >>= λ _.
      destroy_qps s.base.qps >>= λ _. close_send_devs s.dev_bases 0)
        s

  -- The flush queue pair and buffer of device i of a receive comm.
  unfoldable pub close_flush : ℕ → Action Conn (Unit {0})
  close_flush i = fail_if (not (host.destroy_flush i)) system_error >>= λ _.
      modify count_down >>= λ _. gets (λ (s : Conn). nth s.flush_keys i) >>= λ key. dereg key

  unfoldable pub close_recv_devs : List DevBase → ℕ → Action Conn (Unit {0})
  close_recv_devs [] i = pure tt
  close_recv_devs (b ∷ bases) i = gets (λ (s : Conn). s.flush_enabled) >>= λ enabled.
      (if enabled then close_flush i else pure tt) >>= λ _.
      gets (λ (s : Conn). nth s.fifo_keys i) >>= λ fifo. dereg fifo >>= λ _.
      gets (λ (s : Conn). nth s.sizes_keys i) >>= λ sizes.
      dereg sizes >>= λ _. destroy_dev b >>= λ _. close_recv_devs bases (suc i)

  -- ncclIbCloseRecv on a comm.
  unfoldable pub close_recv : Action Conn (Unit {0})
  close_recv s =
      (nccl_check host.socket >>= λ _.
      destroy_qps s.base.qps >>= λ _. close_recv_devs s.dev_bases 0)
        s
