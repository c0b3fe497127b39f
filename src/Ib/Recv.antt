-- ===== src/Ib/Recv.antt =====
-- ncclIbPostFifo and ncclIbIrecv of src/unet/unet_ib.cc: the receiver's half of the data path.
use nccl_exts.Prelude.{
  ℕ, zero, suc, ◌+◌, ◌*◌, ◌%◌, ◌^◌, Bool, List, [], ◌∷◌, Option, none, some, ltb, ◌==◌,
  if◌then◌else◌, get_or, set, length,
}
use nccl_exts.Prelude.Int.{ℤ}
use nccl_exts.Prelude.Nccl.{
  NcclResult, ok, err, internal_error, system_error, Action, ◌>>=◌, ◌>>◌, pure, fail_if, gets,
  modify, nccl_check,
}
use nccl_exts.Prelude.Words.{add64}
use nccl_exts.Ib.Verbs.{Sge, Wr, Post, Mr, rdma_write}
use nccl_exts.Ib.Request.{recv, max_recvs, max_requests, get_request, add_event}
use nccl_exts.Ib.Comm.{
  Qp, SendFifo, blank_fifo, Base, IbStat, ib_fifo_post_count, stat_add, Params, is_fatal, qps_used,
  qp_at, update_request,
}

-- struct ncclIbRecvComm: `rem_fifo` to `fifo_inline` are remFifo, `rem_rkeys` the peer's fifoRkey by
-- device, `fifo_lkeys` and the flush fields those of the comm's devices.
pub record RecvComm : Type 0 where
  pub base : Base
  pub open base use *
  pub rem_fifo : List (List SendFifo)
  pub rem_fifo_addr : ℕ
  pub elems_addr : ℕ
  pub fifo_tail : ℕ
  pub fifo_inline : Bool
  pub rem_rkeys : List ℕ
  pub fifo_lkeys : List ℕ
  pub sizes_fifo : List (List ℕ)
  pub flush_enabled : Bool
  pub flush_qps : List ℕ
  pub flush_sges : List Sge
  pub stat : IbStat

-- One of the `n` buffers of a call: data[i], sizes[i], tags[i] and mhandles[i].
pub record Buffer : Type 0 where
  pub addr : ℕ
  pub size : ℤ
  pub tag : ℕ
  pub mrs : List Mr

abbrev pub update_base : (Base → Base) → RecvComm → RecvComm
update_base f c = record c { base = f c.base }

abbrev pub blank_mr : Mr
blank_mr = record { lkey = 0; rkey = 0 }

-- `for (j < ndevs) rkeys[j] = mrs[j]->rkey`.
unfoldable pub store_rkeys : ℕ → ℕ → List Mr → List ℕ → List ℕ
store_rkeys zero j mrs keys = keys
store_rkeys (suc left) j mrs keys =
    store_rkeys left (suc j) mrs (set keys j (get_or mrs j blank_mr).rkey)

-- The loop that fills localElem, from element `i` on; `n` is the number of buffers of the call.
unfoldable pub fill_elems : ℕ → ℕ → ℕ → ℕ → List Buffer → List SendFifo → List SendFifo
fill_elems ndevs n idx i [] row = row
fill_elems ndevs n idx i (b ∷ bs) row = fill_elems ndevs n idx (suc i) bs (
    set row i (record {
      addr = b.addr;
      size = b.size;
      rkeys = store_rkeys ndevs 0 b.mrs (get_or row i blank_fifo).rkeys;
      nreqs = n;
      tag = b.tag % 2 ^ 32;
      idx = idx;
    }))

-- `for (i < n) req->recv.sizes[i] = 0`.
unfoldable pub clear_sizes : ℕ → ℕ → List ℕ → List ℕ
clear_sizes zero i row = row
clear_sizes (suc left) i row = clear_sizes left (suc i) (set row i 0)

-- sizeof(struct ncclIbSendFifo).
abbrev pub sizeof_send_fifo : ℕ
sizeof_send_fifo = 64

-- The work request of ncclIbPostFifo for `n` elements of row `slot`, on queue pair `q`.
unfoldable pub fifo_wr : RecvComm → ℕ → ℕ → ℕ → Qp → Wr
fifo_wr c req slot n q =
    let signal = slot == q.dev_index in
    record {
      wr_id = if signal then req else 0;
      opcode = rdma_write;
      remote_addr = add64 c.rem_fifo_addr (slot * (max_recvs * sizeof_send_fifo));
      rkey = get_or c.rem_rkeys q.rem_dev_idx 0;
      sge = some (record {
        addr = add64 c.elems_addr (slot * (max_recvs * sizeof_send_fifo));
        length = n * sizeof_send_fifo;
        lkey = get_or c.fifo_lkeys q.dev_index 0;
      });
      imm_data = 0;
      signaled = signal;
      inlined = c.fifo_inline;
    }

-- ncclIbPostFifo up to the post: the row, the sizes, the next device, and the event of a signalled
-- post.
unfoldable pub prepare_fifo : ℕ → ℕ → List Buffer → RecvComm → RecvComm
prepare_fifo req slot bufs c = record c {
  base =
      update_request req
        (λ r.
          let r' = record r { recv_slot = slot } in
          if slot == q.dev_index then add_event q.dev_index r' else r')
        (record c.base { dev_index = (c.dev_index + 1) % c.ndevs });
  rem_fifo =
      set c.rem_fifo slot
        (fill_elems c.ndevs (length bufs) (add64 c.fifo_tail 1) 0 bufs (get_or c.rem_fifo slot []));
  sizes_fifo = set c.sizes_fifo slot (clear_sizes (length bufs) 0 (get_or c.sizes_fifo slot []));
}
  where
    q : Qp
    q = qp_at c.base c.dev_index

unfoldable pub take_request : Action RecvComm ℕ
take_request c = elim (get_request c.reqs) [
  | none ↦ (err internal_error, c)
  | some (i, reqs) ↦ (ok i, update_base (λ b. record b { reqs = reqs }) c)
]

-- `for (i < ndevs) req->devBases[i] = &comm->devs[i].base`.
unfoldable pub all_bases : ℕ → ℕ → List (Option ℕ) → List (Option ℕ)
all_bases zero i bases = bases
all_bases (suc left) i bases = all_bases left (suc i) (set bases i (some i))

-- What ibv_post_send and ibv_post_recv answer, after what was posted before.
module _ (post_send : List Post → Post → NcclResult) (post_recv : List (ℕ × ℕ) → ℕ × ℕ → NcclResult)
    (p : Params) where
  unfoldable pub post_fifo : List Buffer → ℕ → Action RecvComm (Unit {0})
  post_fifo bufs req = do
    slot ← gets (λ (c : RecvComm). c.fifo_tail % max_requests)
    q ← gets (λ (c : RecvComm). qp_at c.base c.dev_index)
    modify (prepare_fifo req slot bufs)
    c ← gets (λ (c : RecvComm). c)
    let post : Post = record { qp = q.qp; wrs = fifo_wr c req slot (length bufs) q ∷ [] }
    nccl_check (post_send c.posted post)
    modify (λ (c : RecvComm). record c {
      base = record c.base { posted = post ∷ c.posted };
      fifo_tail = add64 c.fifo_tail 1;
      stat = stat_add ib_fifo_post_count 1 c.stat;
    })

  unfoldable pub post_recvs : ℕ → ℕ → Action RecvComm (Unit {0})
  post_recvs zero req = pure tt
  post_recvs (suc left) req = do
    q ← gets (λ (c : RecvComm). qp_at c.base c.qp_index)
    modify (update_base (update_request req (add_event q.dev_index)))
    before ← gets (λ (c : RecvComm). c.recvs)
    nccl_check (post_recv before (q.qp, req))
    modify (
        update_base
          (λ b. record b { recvs = (q.qp, req) ∷ b.recvs; qp_index = (b.qp_index + 1) % b.nqps }))
    post_recvs left req

  unfoldable pub irecv : List Buffer → Action RecvComm ℕ
  irecv bufs = do
    ready ← gets (λ (c : RecvComm). c.ready)
    fail_if (ready == 0) internal_error
    fail_if (ltb max_recvs (length bufs)) internal_error
    fatal ← gets (λ (c : RecvComm). c.fatal_errors)
    fail_if (is_fatal p fatal) system_error
    req ← take_request
    modify (λ c.
        update_base
          (update_request req (λ r. record r {
            type = recv;
            nreqs = length bufs;
            dev_bases = all_bases c.ndevs 0 r.dev_bases;
          }))
          c)
    nq ← gets (λ (c : RecvComm). qps_used p c.base)
    post_recvs nq req
    post_fifo bufs req
    pure req
