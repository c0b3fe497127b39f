-- ===== src/Ib/Send/Delivery.antt =====
-- What one call of ncclIbMultiSend of src/unet/unet_ib.cc does as a whole.
use nccl_exts.Prelude.{
  ℕ, ◌+◌, ◌*◌, ◌%◌, ◌^◌, ◌≤◌, ◌<◌, ◌≡◌, refl, sym, ap, ◌∙◌, false, ltb, List, [], ◌∷◌, map, arith,
  All, All-map, get_or,
}
use nccl_exts.Prelude.Nccl.{NcclResult, success, Ends, Ends-bind, Action, modify}
use nccl_exts.Prelude.Words.{add64}
use nccl_exts.Ib.Verbs.{Post}
use nccl_exts.Ib.Request.{max_recvs, max_requests}
use nccl_exts.Ib.Comm.{
  Base, blank_fifo, Params, qps_used, request_at, stat_add, ib_tx_bytes, IsConnected,
}
use nccl_exts.Ib.Chunk.Cover.{total_length-exact}
use nccl_exts.Ib.Send.{
  SendComm, Cursor, cursors, fifo_row, last_wr, write_sizes, send_rounds, multi_send,
}
use nccl_exts.Ib.Send.Plan.{chunk_of, moved, planned_posts, IsApart, IsAt}
use nccl_exts.Ib.Send.Refine.{planned_bytes, IsRound, send_rounds-planned}

-- Request `cur` has not been sent from yet, and its two addresses are 64-bit.
pub record IsFresh (b : Base) (cur : Cursor) : Type 0 where
  pub offset : (request_at b cur.req).send_offset ≡ 0
  pub addr_fits : cur.addr < 2 ^ 64
  pub remote_fits : cur.remote_addr < 2 ^ 64

abbrev pub sum_sizes : Base → List Cursor → ℕ
sum_sizes b [] = 0
sum_sizes b (cur ∷ cs) = (request_at b cur.req).send_size + sum_sizes b cs

moved-zero :
    (nq : ℕ) (b : Base) (cs : List Cursor) → All (IsFresh b) cs → map (moved 0 nq b) cs ≡ cs
moved-zero nq b [] h = refl
moved-zero nq b (cur ∷ cs) h = λ i.
    record cur {
      addr = stays cur.addr (chunk_of nq b cur) h.0.addr_fits i;
      remote_addr = stays cur.remote_addr (chunk_of nq b cur) h.0.remote_fits i;
    }
    ∷ moved-zero nq b cs h.1 i
  where
    stays : (a chunk : ℕ) → a < 2 ^ 64 → add64 a (0 * chunk) ≡ a
    stays a chunk h = omega arith

IsAt-zero : (nq : ℕ) (b : Base) (cur : Cursor) → IsFresh b cur → IsAt 0 nq b b cur
IsAt-zero nq b cur h =
    let start : (request_at b cur.req).send_offset ≡ 0 * chunk_of nq b cur =
      omega (arith, h.offset) in
    ap (λ (o : ℕ). record (request_at b cur.req) { send_offset = o }) start

planned_bytes-sum :
    (nq : ℕ) (b : Base) (cs : List Cursor) → 0 < nq → planned_bytes nq 0 nq b cs ≡ sum_sizes b cs
planned_bytes-sum nq b [] h = refl
planned_bytes-sum nq b (cur ∷ cs) h =
    let none_yet : 0 * chunk_of nq b cur ≡ 0 = omega arith in
    rw (none_yet, total_length-exact (request_at b cur.req).send_size nq h)
      (omega (arith, planned_bytes-sum nq b cs h))

zero_add : (n : ℕ) → 0 + n ≡ n
zero_add n = omega arith

same_index : (i n : ℕ) → i < n → i ≡ (i + 0) % n
same_index i n h = grind arith

qps_used-pos : (p : Params) (b : Base) → IsConnected b → 0 < qps_used p b
qps_used-pos p b h = ground (arith, h.has_devices, h.has_qps)

module _ (post_send : List Post → Post → NcclResult)
    (accepts : (before : List Post) (post : Post) → post_send before post ≡ success) (p : Params)
    (slot : ℕ) (ids : List ℕ) (c : SendComm) where
  abbrev pub row_cursors : List Cursor
  row_cursors = cursors c.base ids (fifo_row c slot) 0

  -- The comm `u` after a call that has sent the row.
  pub record IsDelivered (u : SendComm) : Type 0 where
    pub posts :
        u.posted
        ≡ planned_posts
            (qps_used p c.base)
            0
            (qps_used p c.base)
            (write_sizes slot ids c)
            (last_wr p slot ids c)
            row_cursors
            c.posted
    pub offsets : All (IsAt (qps_used p c.base) (qps_used p c.base) c.base u.base) row_cursors
    pub index : u.qp_index ≡ (c.qp_index + qps_used p c.base) % c.nqps
    pub bytes : u.stat ≡ stat_add ib_tx_bytes (sum_sizes c.base row_cursors) c.stat

  -- A call of ncclIbMultiSend for a row of at most 8 requests, which lie apart, none of them sent
  -- from yet, on a connected comm whose posts are accepted, succeeds: it posts the planned chunk
  -- of every request on each queue pair in turn, the chunks of a request add up to its size in the
  -- counter of sent bytes, and the next call goes on with the queue pair after the last one.
  pub multi_send-IsDelivered :
      IsConnected c.base
      → IsApart max_requests row_cursors
      → All (IsFresh c.base) row_cursors
      → (get_or (fifo_row c slot) 0 blank_fifo).nreqs ≤ 8
      → Ends (λ _. IsDelivered) (λ _ _. ⊥) (multi_send post_send p slot ids c)
  unfolding multi_send write_sizes
  multi_send-IsDelivered conn apart fresh few =
      let small : ltb max_recvs (get_or (fifo_row c slot) 0 blank_fifo).nreqs ≡ false =
        ground arith in
      let nq = qps_used p c.base in
      let written = write_sizes slot ids c in
      let count : ℕ → Action SendComm (Unit {0}) =
        λ total. modify (λ (s : SendComm). record s { stat = stat_add ib_tx_bytes total s.stat }) in
      let start : IsRound nq max_requests written 0 row_cursors c.base = record {
        same_qps = refl;
        same_nqps = refl;
        at_qp = same_index c.qp_index c.nqps conn.in_range;
        table = conn.reqs_length;
        at_chunk = All-map (λ cur. IsAt-zero nq c.base cur) row_cursors fresh;
      } in
      let rounds =
        send_rounds-planned nq max_requests written (last_wr p slot ids c) row_cursors apart
          post_send accepts nq 0 0 c.base start in
      let run =
        ap (λ (cs : List Cursor). send_rounds post_send nq nq (last_wr p slot ids c) cs 0 written)
          (sym (moved-zero nq c.base row_cursors fresh))
        ∙ rounds.1 in
      let last = rw (zero_add nq) at rounds.2 in
      rw small (
        Ends-bind (λ _. IsDelivered) (λ _ _. ⊥)
          (send_rounds post_send nq nq (last_wr p slot ids c) row_cursors 0) count written
          (record written { base = rounds.0 }) (0 + planned_bytes nq 0 nq c.base row_cursors) run
          (record {
            posts = rounds.3;
            offsets = last.at_chunk;
            index = last.at_qp;
            bytes =
                ap (λ (n : ℕ). stat_add ib_tx_bytes n c.stat)
                  (zero_add _
                    ∙ planned_bytes-sum nq c.base row_cursors (qps_used-pos p c.base conn));
          }))
