-- ===== src/Ib/Accept.antt =====
-- The set-up of a receive comm in ncclIbAccept of src/unet/unet_ib.cc, from the sender's metadata to
-- the answer. What it has in common with ncclIbConnect is in Ib.Connect.
pub mod Frame
pub mod Joining
pub mod Stages
mod Tests
use nccl_exts.Prelude.{
  ℕ, zero, suc, ◌+◌, ◌*◌, ◌%◌, Bool, true, false, not, ◌&&◌, ◌||◌, List, [], ◌∷◌, ◌++◌, Option,
  none, some, ◌==◌, if◌then◌else◌, length, get_or, take, min,
}
use nccl_exts.Prelude.Int.{ℤ}
use nccl_exts.Prelude.Nccl.{
  Result, ok, err, system_error, Action, ◌>>=◌, ◌>>◌, pure, fail_if, gets, modify, answered,
}
use nccl_exts.Ib.Comm.{Base, ib_qp_count, stat_add}
use nccl_exts.Ib.Device.{Dev, Merged, dev_at}
use nccl_exts.Ib.Meta.{
  QpInfo, DevInfo, blank_dev_info, Metadata, ConnParams, QpState, init, rtr, to_rts, rtr_attr,
}
use nccl_exts.Ib.Connect.{
  ConnHost, GidInfo, Conn, dev_base_at, push_fifo, push_sizes, push_gid, set_rem_dev, init_dev,
  create_qp, qp_info, local_gid, dev_info, reg_fifo, set_counts, ready_qp, peer_qp, peer_dev,
}

-- The verbs library's answers for the flush queue pair of a device of the comm, by its position.
pub record FlushHost : Type 0 where
  pub reg_mr : ℕ → Option ℕ
  pub create_qp : ℕ → Option ℕ
  pub modify_init : ℕ → Bool
  pub modify_rtr : ℕ → Bool
  pub modify_rts : ℕ → Bool

-- What is kept of the sender's metadata.
unfoldable pub set_sender : Metadata → Conn → Conn
set_sender meta s = record s { rem_devs = take meta.ndevs meta.devs }

unfoldable pub set_flush : Bool → Conn → Conn
set_flush enabled s = record s { flush_enabled = enabled }

unfoldable pub push_flush_key : ℕ → Conn → Conn
push_flush_key key s = record s { flush_keys = s.flush_keys ++ (key ∷ []) }

-- A flush queue pair is counted.
unfoldable pub count_qp : Conn → Conn
count_qp s = record s { stat = stat_add ib_qp_count 1 s.stat }

unfoldable pub push_flush_state : QpState → Conn → Conn
push_flush_state state s = record s { flush_states = s.flush_states ++ (state ∷ []) }

-- remFifo.addr and, with IB_USE_INLINE, the flag.
unfoldable pub set_fifo : ℕ → Bool → Conn → Conn
set_fifo addr use_inline s = record s { rem_addr = addr; fifo_inline = use_inline || s.fifo_inline }

module _ (p : ConnParams) (devs : List Dev) (host : ConnHost) where
  -- The loop over a merged device's devices: the domain, the queue and the GID.
  unfoldable pub init_recv_devs : List ℕ → Action Conn (Unit {0})
  init_recv_devs [] = pure tt
  init_recv_devs (n ∷ ns) = init_dev p devs host n >> local_gid p devs host n >>= λ g.
      modify (push_gid (some g)) >> init_recv_devs ns

  -- What is answered on the sender's extended connection establishment; nothing where it asked for
  -- none, where the source leaves the answer unset.
  unfoldable pub answer_ece : ℕ → QpInfo → Action Conn (ℕ × Bool)
  answer_ece q info =
      if info.ece_supported
      then (answered (host.set_ece q) >>= λ reduced.
          if reduced then answered (host.query_ece q) else pure (0, false))
      else pure (0, false)

  -- Queue pair q on device `dev_index` is made and connected to the sender's.
  unfoldable pub accept_qp : Metadata → ℕ → ℕ → Action Conn QpInfo
  accept_qp meta q dev_index = create_qp p devs host q dev_index >>= λ qpn.
      modify (set_rem_dev q (peer_qp p devs host meta q).dev_index)
      >> answer_ece q (peer_qp p devs host meta q)
      >>= λ ece.
          ready_qp p devs host (q == 0) q (peer_qp p devs host meta q) (peer_dev p devs host meta q)
          >> pure (qp_info p devs host qpn dev_index ece)

  -- The loop that makes `left` queue pairs from number q on. The source writes them to arrays of 128
  -- without a check; here they are lists that grow.
  unfoldable pub accept_qps : Metadata → ℕ → ℕ → ℕ → Action Conn (List QpInfo)
  accept_qps meta zero q dev_index = pure []
  accept_qps meta (suc left) q dev_index = accept_qp meta q dev_index >>= λ info.
      gets (λ (s : Conn). (dev_index + 1) % s.base.ndevs) >>= λ next.
      accept_qps meta left (suc q) next >>= λ infos. pure (info ∷ infos)

  module _ (flush : FlushHost) where
    -- The state that the flush queue pair `qpn` of device i is brought to: it is connected to itself.
    abbrev pub flush_state : ℕ → DevInfo → GidInfo → QpState
    flush_state qpn info g = to_rts p (rtr (rtr_attr p g.index qpn info false))

    -- The flush buffer and queue pair of device i, whose own data are `info` and `g`.
    unfoldable pub make_flush : ℕ → DevInfo → GidInfo → Action Conn (Unit {0})
    make_flush i info g = answered (flush.reg_mr i) >>= λ key.
        modify (push_flush_key key) >> answered (flush.create_qp i) >>= λ qpn.
        modify count_qp
        >> fail_if (not (flush.modify_init i)) system_error
        >> fail_if (not (flush.modify_rtr i)) system_error
        >> fail_if (not (flush.modify_rts i)) system_error
        >> modify (push_flush_state (flush_state qpn info g))

    -- `if (rComm->flushEnabled) ...`.
    unfoldable pub flush_if : ℕ → DevInfo → GidInfo → Action Conn (Unit {0})
    flush_if i info g = gets (λ (s : Conn). s.flush_enabled) >>= λ enabled.
        if enabled then make_flush i info g else pure tt

    abbrev pub blank_gid_info : GidInfo
    blank_gid_info = record {
      index = 0;
      gid = record { word0 = 0; word1 = 0; word2 = 0; word3 = 0 };
    }

    -- The GID found for device i.
    abbrev pub gid_at : Conn → ℕ → GidInfo
    gid_at s i = elim (get_or s.gids i none) [ none ↦ blank_gid_info | some g ↦ g ]

    -- What the sender is told of device i: its own data with the lesser of the two MTUs and the key
    -- of the sizes.
    abbrev pub answer_dev : Metadata → ℕ → DevInfo → ℕ → DevInfo
    answer_dev meta i info key = record info {
      mtu = min (get_or meta.devs i blank_dev_info).mtu info.mtu;
      fifo_rkey = key;
    }

    -- Device i of the loop that registers the memory and fills meta.devs.
    unfoldable pub publish_recv_dev : Metadata → ℕ → Action Conn DevInfo
    publish_recv_dev meta i = reg_fifo p devs host i >>= λ lkey.
        modify (set_fifo meta.fifo_addr p.use_inline)
        >> gets (λ (s : Conn). (dev_base_at s i).ib_dev_n)
        >>= λ n. gets (λ (s : Conn). gid_at s i) >>= λ g.
            flush_if i (dev_info p devs host n 0 (some g)) g
            >> answered (host.reg_sizes i)
            >>= λ key.
                modify (push_sizes key)
                >> pure (answer_dev meta i (dev_info p devs host n 0 (some g)) key)

    unfoldable pub publish_recv_devs : Metadata → ℕ → ℕ → Action Conn (List DevInfo)
    publish_recv_devs meta zero i = pure []
    publish_recv_devs meta (suc left) i = publish_recv_dev meta i >>= λ info.
        publish_recv_devs meta left (suc i) >>= λ infos. pure (info ∷ infos)

    -- ncclIbAccept from the sender's metadata to the answer: `supported` says whether ncclIbGdrSupport
    -- or ncclIbDmaBufSupport succeeds, `rank` is rank_ and `fifo_addr` the address of rComm->sizesFifo.
    unfoldable pub accept_setup : Merged → Bool → ℤ → ℕ → Metadata → Action Conn Metadata
    accept_setup m supported rank fifo_addr meta =
        modify (λ s. record (set_counts p devs host m s) { ar = s.ar; peer_rank = meta.rank })
        >> init_recv_devs m.devs
        >> modify (set_sender meta)
        >> accept_qps meta (p.qps_per_connection * length m.devs) 0 0
        >>= λ qp_infos.
            modify (set_flush (supported && not p.flush_disable))
            >> publish_recv_devs meta (length m.devs) 0
            >>= λ infos. pure (record {
              qp_info = qp_infos;
              devs = infos;
              dev_name = m.dev_name;
              fifo_addr = fifo_addr;
              ndevs = length m.devs;
              rank = rank;
            })
