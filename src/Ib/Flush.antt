-- ===== src/Ib/Flush.antt =====
-- ncclIbIflush of src/unet/unet_ib.cc: a read of the last received byte on every device, so that the
-- data has reached the GPU.
use nccl_exts.Prelude.{
  ℕ, zero, suc, Bool, true, false, List, [], ◌∷◌, Option, none, some, ◌==◌, if◌then◌else◌, get_or,
}
use nccl_exts.Prelude.Int.{ℤ, pos, negsuc}
use nccl_exts.Prelude.Nccl.{NcclResult, Action, ◌>>=◌, ◌>>◌, pure, gets, modify, nccl_check}
use nccl_exts.Ib.Verbs.{Post, rdma_read}
use nccl_exts.Ib.Request.{flush, add_event}
use nccl_exts.Ib.Comm.{update_request}
use nccl_exts.Ib.Recv.{RecvComm, Buffer, update_base, blank_mr, take_request}

abbrev is_zero : ℤ → Bool
is_zero (pos n) = n == 0
is_zero (negsuc n) = false

-- The last buffer with a size other than 0.
unfoldable pub last_nonempty : List Buffer → Option Buffer
last_nonempty [] = none
last_nonempty (b ∷ bs) = elim (last_nonempty bs) [
  | some l ↦ some l
  | none ↦ if is_zero b.size then none else some b
]

module _ (post_send : List Post → Post → NcclResult) where
  -- The loop of ncclIbIflush over the devices, `left` of them from `i` on.
  unfoldable pub flush_devices : ℕ → ℕ → ℕ → Buffer → Action RecvComm (Unit {0})
  flush_devices zero i req l = pure tt
  flush_devices (suc left) i req l = do
    c ← gets (λ (c : RecvComm). c)
    let post : Post = record {
      qp = get_or c.flush_qps i 0;
      wrs =
          record {
            wr_id = req;
            opcode = rdma_read;
            remote_addr = l.addr;
            rkey = (get_or l.mrs i blank_mr).rkey;
            sge = some (get_or c.flush_sges i (record { addr = 0; length = 0; lkey = 0 }));
            imm_data = 0;
            signaled = true;
            inlined = false;
          }
          ∷ [];
    }
    nccl_check (post_send c.posted post)
    modify (
        update_base (λ b. update_request req (add_event i) (record b { posted = post ∷ b.posted })))
    flush_devices left (suc i) req l

  -- `none`: nothing to flush, and `*request` is left as the caller had it.
  unfoldable pub iflush : List Buffer → Action RecvComm (Option ℕ)
  iflush bufs = do
    c ← gets (λ (c : RecvComm). c)
    elim (if c.flush_enabled then last_nonempty bufs else none) [
      | none ↦ pure none
      | some l ↦ do
        req ← take_request
        modify (update_base (update_request req (λ r. record r { type = flush })))
        flush_devices c.ndevs 0 req l
        pure (some req)
    ]
