-- ===== src/Ib/Send.antt =====
-- ncclIbMultiSend and ncclIbIsend of src/unet/unet_ib.cc: the sender's half of the data path.
pub mod WrId
pub mod Plan
pub mod Refine
pub mod Delivery
use nccl_exts.Prelude.{
  ℕ, zero, suc, ◌+◌, ◌-◌, ◌*◌, ◌%◌, ◌^◌, Bool, true, false, ◌&&◌, ◌||◌, List, [], ◌∷◌, ◌++◌, map,
  Option, none, some, ltb, ◌==◌, if◌then◌else◌, get_or, set, length, replicate,
}
use nccl_exts.Prelude.Int.{ℤ, pos, negsuc, ltb_ℤ}
use nccl_exts.Prelude.Nccl.{
  NcclResult, Result, ok, err, internal_error, Action, ◌>>=◌, ◌>>◌, pure, fail_if, gets, modify,
  nccl_check,
}
use nccl_exts.Prelude.Words.{add64}
use nccl_exts.Ib.Verbs.{Sge, Wr, rdma_write, rdma_write_with_imm, Post, Mr}
use nccl_exts.Ib.Request.{Request, send, max_recvs, max_requests, get_request, add_event}
use nccl_exts.Ib.Comm.{
  Qp, SendFifo, blank_fifo, Base, IbStat, ib_fifo_recv_count, ib_tx_bytes, stat_add, Params,
  qps_used, qp_at, request_at, update_request,
}
use nccl_exts.Ib.Chunk.{chunk_size, piece_length}

-- struct ncclIbSendComm. The scratch arrays `sges` and `wrs` are not kept: ncclIbMultiSend fills
-- them anew. `sizes_addr` is the address of remSizesFifo.elems.
pub record SendComm : Type 0 where
  pub base : Base
  pub open base use *
  pub fifo : List (List SendFifo)
  pub fifo_reqs : List (List (Option ℕ))
  pub sizes : List (List ℕ)
  pub sizes_addr : ℕ
  pub sizes_lkeys : List ℕ
  pub rem_sizes_addr : ℕ
  pub rem_sizes_rkeys : List ℕ
  pub fifo_head : ℕ
  pub ar : Bool
  pub peer_rank : ℤ
  pub stat : IbStat

abbrev pub update_base : (Base → Base) → SendComm → SendComm
update_base f c = record c { base = f c.base }

-- `comm->fifo[slot]` and `comm->fifoReqs[slot]`.
abbrev pub fifo_row : SendComm → ℕ → List SendFifo
fifo_row c slot = get_or c.fifo slot []

abbrev pub reqs_row : SendComm → ℕ → List (Option ℕ)
reqs_row c slot = get_or c.fifo_reqs slot []

-- The loop that adds `(reqs[r] - comm->base.reqs) << (r*8)` to wr_id, from `r` on.
unfoldable pub pack_ids : ℕ → List ℕ → ℕ
pack_ids r [] = 0
pack_ids r (i ∷ ids) = add64 (i * 2 ^ (r * 8)) (pack_ids (suc r) ids)

-- Entry r of `sges` and `wrs` between two posts: reqs[r], sges[r].addr and
-- wrs[r].wr.rdma.remote_addr, with slots[r].rkeys.
pub record Cursor : Type 0 where
  pub req : ℕ
  pub addr : ℕ
  pub remote_addr : ℕ
  pub rkeys : List ℕ

unfoldable pub cursors : Base → List ℕ → List SendFifo → ℕ → List Cursor
cursors b [] slots r = []
cursors b (i ∷ ids) slots r =
    let slot = get_or slots r blank_fifo in
    record {
      req = i;
      addr = (request_at b i).send_data;
      remote_addr = slot.addr;
      rkeys = slot.rkeys;
    }
    ∷ cursors b ids slots (suc r)

-- The length of the next piece of request `i`, over `nq` queue pairs.
abbrev pub next_length : ℕ → Request → ℕ
next_length nq r = piece_length r.send_size r.send_offset (chunk_size r.send_size nq)

-- wrs[r] as it is posted on `q`.
unfoldable pub data_wr : ℕ → Qp → Base → Cursor → Wr
data_wr nq q b cur =
    let r = request_at b cur.req in
    let len = next_length nq r in
    record {
      wr_id = 0;
      opcode = rdma_write;
      remote_addr = cur.remote_addr;
      rkey = get_or cur.rkeys q.rem_dev_idx 0;
      sge =
          if len == 0
          then none
          else some
              (record { addr = cur.addr; length = len; lkey = get_or r.send_lkeys q.dev_index 0 });
      imm_data = 0;
      signaled = false;
      inlined = false;
    }

-- `lastWr`: the signalled write with immediate data. It is a work request of its own when `extra`,
-- and otherwise the last of the data writes.
pub record LastWr : Type 0 where
  pub extra : Bool
  pub wr_id : ℕ
  pub imm_data : ℕ
  pub sizes_row : Option (ℕ × ℕ × ℕ)

unfoldable pub mark_last : LastWr → List Wr → List Wr
mark_last l [] = []
mark_last l (w ∷ []) =
    record w {
      wr_id = l.wr_id;
      opcode = rdma_write_with_imm;
      imm_data = l.imm_data;
      signaled = true;
    }
    ∷ []
mark_last l (w ∷ x ∷ ws) = w ∷ mark_last l (x ∷ ws)

-- The extra work request on device `dev`: `sizes_row` is the remote and the local address of the row
-- of sizes and its length in bytes, for a multi-receive.
unfoldable pub extra_wr : SendComm → LastWr → ℕ → Wr
extra_wr c l dev = record {
  wr_id = l.wr_id;
  opcode = rdma_write_with_imm;
  remote_addr = elim l.sizes_row [ none ↦ 0 | some (remote, local, len) ↦ remote ];
  rkey = elim l.sizes_row [ none ↦ 0 | some row ↦ get_or c.rem_sizes_rkeys dev 0 ];
  sge = elim l.sizes_row [
    | none ↦ none
    | some (remote, local, len) ↦
        some (record { addr = local; length = len; lkey = get_or c.sizes_lkeys dev 0 })
  ];
  imm_data = l.imm_data;
  signaled = true;
  inlined = false;
}

unfoldable pub chain : SendComm → LastWr → ℕ → List Wr → List Wr
chain c l dev ws = if l.extra then ws ++ (extra_wr c l dev ∷ []) else mark_last l ws

abbrev pub bump_offset : ℕ → Request → Request
bump_offset nq r = record r { send_offset = r.send_offset + chunk_size r.send_size nq }

-- The loop over `r` behind ibv_post_send.
unfoldable pub advance : ℕ → List Cursor → Base → Base
advance nq [] b = b
advance nq (cur ∷ cs) b = advance nq cs (update_request cur.req (bump_offset nq) b)

unfoldable pub advance_cursor : ℕ → Base → Cursor → Cursor
advance_cursor nq b cur =
    let chunk = chunk_size (request_at b cur.req).send_size nq in
    record cur { addr = add64 cur.addr chunk; remote_addr = add64 cur.remote_addr chunk }

abbrev pub total_bytes : ℕ → Base → List Cursor → ℕ
total_bytes nq b [] = 0
total_bytes nq b (cur ∷ cs) = next_length nq (request_at b cur.req) + total_bytes nq b cs

-- `comm->base.qpIndex = (comm->base.qpIndex+1) % comm->base.nqps`.
abbrev pub next_qp : Base → Base
next_qp b = record b { qp_index = (b.qp_index + 1) % b.nqps }

abbrev pub log_post : Post → Base → Base
log_post post b = record b { posted = post ∷ b.posted }

-- What one round hands to ibv_post_send.
unfoldable pub round_post : ℕ → LastWr → List Cursor → SendComm → Post
round_post nq l cs c =
    let q = qp_at c.base c.qp_index in
    record { qp = q.qp; wrs = chain c l q.dev_index (map (data_wr nq q c.base) cs) }

-- `sizes[r] = values[r]` for every value.
abbrev pub put_all : List ℕ → List ℕ → List ℕ
put_all [] row = row
put_all (v ∷ vs) [] = []
put_all (v ∷ vs) (x ∷ row) = v ∷ put_all vs row

-- `wr_id`, the immediate data and the sizes row of the last work request, for requests `ids`.
unfoldable pub last_wr : Params → ℕ → List ℕ → SendComm → LastWr
last_wr p slot ids c =
    let size = (request_at c.base (get_or ids 0 0)).send_size in
    let multi = ltb 1 (length ids) in
    record {
      extra = multi || (c.ar && ltb_ℤ p.ar_threshold (pos size));
      wr_id = pack_ids 0 ids;
      imm_data = if multi then 0 else size;
      sizes_row =
          if multi
          then some (
            add64 c.rem_sizes_addr (slot * (max_recvs * 4)),
            add64 c.sizes_addr (slot * (max_recvs * 4)),
            length ids * 4,
          )
          else none;
    }

-- The sizes of a multi-receive go to remSizesFifo.elems[slot].
unfoldable pub write_sizes : ℕ → List ℕ → SendComm → SendComm
write_sizes slot ids c = record c {
  sizes =
      if ltb 1 (length ids)
      then set c.sizes slot
          (put_all (map (λ i. (request_at c.base i).send_size) ids) (get_or c.sizes slot []))
      else c.sizes;
}

-- What ibv_post_send answers to a chain, after what was posted before.
module _ (post_send : List Post → Post → NcclResult) where
  -- One round of the loop over the queue pairs.
  unfoldable pub send_round : ℕ → LastWr → List Cursor → Action SendComm (List Cursor × ℕ)
  send_round nq l cs = do
    c ← gets (λ (c : SendComm). c)
    nccl_check (post_send c.posted (round_post nq l cs c))
    modify (update_base (λ b. next_qp (advance nq cs (log_post (round_post nq l cs c) b))))
    pure (map (advance_cursor nq c.base) cs, total_bytes nq c.base cs)

  -- The loop over the queue pairs; the result is `totalSize`.
  unfoldable pub send_rounds : ℕ → ℕ → LastWr → List Cursor → ℕ → Action SendComm ℕ
  send_rounds zero nq l cs total = pure total
  send_rounds (suc left) nq l cs total =
      send_round nq l cs >>= λ (cs', bytes). send_rounds left nq l cs' (total + bytes)

  -- ncclIbMultiSend for the requests `ids` of row `slot`, none of which is null.
  unfoldable pub multi_send : Params → ℕ → List ℕ → Action SendComm (Unit {0})
  multi_send p slot ids = do
    slots ← gets (λ (c : SendComm). fifo_row c slot)
    fail_if (ltb max_recvs (get_or slots 0 blank_fifo).nreqs) internal_error
    b ← gets (λ (c : SendComm). c.base)
    l ← gets (last_wr p slot ids)
    modify (write_sizes slot ids)
    let nq = qps_used p b
    total ← send_rounds nq nq l (cursors b ids slots 0) 0
    modify (λ c. record c { stat = stat_add ib_tx_bytes total c.stat })
