-- ===== src/Ib/Accept/Frame.antt =====
-- The steps of ncclIbAccept of src/unet/unet_ib.cc that leave the queue pairs as they are.
use nccl_exts.Prelude.{ℕ, zero, suc, refl, Bool, List, [], ◌∷◌}
use nccl_exts.Prelude.Nccl.{modify}
use nccl_exts.Ib.Device.{Dev}
use nccl_exts.Ib.Meta.{DevInfo, Metadata, ConnParams, QpState}
use nccl_exts.Ib.Connect.{ConnHost, GidInfo}
use nccl_exts.Ib.Connect.Frame.{
  Leaves, Leaves-chain, pure-Leaves, answered-Leaves, fail_if-Leaves, if-Leaves, gets-Leaves,
  push_gid-Leaves, push_sizes-Leaves, init_dev-Leaves, local_gid-Leaves, reg_fifo-Leaves,
}
use nccl_exts.Ib.Accept.{
  FlushHost, set_sender, set_flush, push_flush_key, count_qp, push_flush_state, set_fifo,
  init_recv_devs, make_flush, flush_if, publish_recv_dev, publish_recv_devs,
}

module _ (p : ConnParams) (devs : List Dev) (host : ConnHost) where
  pub set_sender-Leaves : (meta : Metadata) → Leaves p devs host (modify (set_sender meta))
  unfolding set_sender
  set_sender-Leaves meta s = (refl, refl)

  pub set_flush-Leaves : (b : Bool) → Leaves p devs host (modify (set_flush b))
  unfolding set_flush
  set_flush-Leaves b s = (refl, refl)

  push_flush_key-Leaves : (key : ℕ) → Leaves p devs host (modify (push_flush_key key))
  unfolding push_flush_key
  push_flush_key-Leaves key s = (refl, refl)

  count_qp-Leaves : Leaves p devs host (modify count_qp)
  unfolding count_qp
  count_qp-Leaves s = (refl, refl)

  push_flush_state-Leaves : (q : QpState) → Leaves p devs host (modify (push_flush_state q))
  unfolding push_flush_state
  push_flush_state-Leaves q s = (refl, refl)

  set_fifo-Leaves : (addr : ℕ) (b : Bool) → Leaves p devs host (modify (set_fifo addr b))
  unfolding set_fifo
  set_fifo-Leaves addr b s = (refl, refl)

  pub init_recv_devs-Leaves : (ns : List ℕ) → Leaves p devs host (init_recv_devs p devs host ns)
  unfolding init_recv_devs
  init_recv_devs-Leaves [] = pure-Leaves p devs host tt
  init_recv_devs-Leaves (n ∷ ns) =
      search
        (Leaves-chain, init_dev-Leaves, local_gid-Leaves, push_gid-Leaves, init_recv_devs-Leaves ns)

  make_flush-Leaves :
      (flush : FlushHost) (i : ℕ) (info : DevInfo) (g : GidInfo)
      → Leaves p devs host (make_flush p devs host flush i info g)
  unfolding make_flush
  make_flush-Leaves flush i info g =
      search
        (
          Leaves-chain, answered-Leaves, push_flush_key-Leaves, count_qp-Leaves, fail_if-Leaves,
          push_flush_state-Leaves,
        )
        depth 12

  flush_if-Leaves :
      (flush : FlushHost) (i : ℕ) (info : DevInfo) (g : GidInfo)
      → Leaves p devs host (flush_if p devs host flush i info g)
  unfolding flush_if
  flush_if-Leaves flush i info g =
      search (Leaves-chain, gets-Leaves, if-Leaves, make_flush-Leaves flush, pure-Leaves)

  publish_recv_dev-Leaves :
      (flush : FlushHost) (meta : Metadata) (i : ℕ)
      → Leaves p devs host (publish_recv_dev p devs host flush meta i)
  unfolding publish_recv_dev
  publish_recv_dev-Leaves flush meta i =
      search
        (
          Leaves-chain,
          reg_fifo-Leaves,
          set_fifo-Leaves,
          gets-Leaves,
          flush_if-Leaves flush,
          answered-Leaves,
          push_sizes-Leaves,
        )
        depth 12

  pub publish_recv_devs-Leaves :
      (flush : FlushHost) (meta : Metadata) (left i : ℕ)
      → Leaves p devs host (publish_recv_devs p devs host flush meta left i)
  unfolding publish_recv_devs
  publish_recv_devs-Leaves flush meta zero i = pure-Leaves p devs host {A = List DevInfo} []
  publish_recv_devs-Leaves flush meta (suc left) i = search (
    Leaves-chain,
    publish_recv_dev-Leaves flush meta,
    publish_recv_devs-Leaves flush meta left,
    pure-Leaves,
  )
