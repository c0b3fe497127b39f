-- ===== src/Ib/Isend.antt =====
-- ncclIbIsend of src/unet/unet_ib.cc. `size` is the length that NCCL passes, never negative.
pub mod Events
use nccl_exts.Prelude.{
  ℕ, zero, suc, ◌+◌, ◌-◌, ◌%◌, ◌^◌, Bool, true, false, not, ◌&&◌, ◌||◌, List, [], ◌∷◌, Option, none,
  some, ltb, ◌==◌, if◌then◌else◌, get_or, set, replicate, min,
}
use nccl_exts.Prelude.Int.{ℤ, pos, negsuc, pos_part, neg_part, ltb_ℤ}
use nccl_exts.Prelude.Nccl.{
  NcclResult, Result, ok, err, internal_error, Action, ◌>>=◌, ◌>>◌, pure, fail, fail_if, gets,
  modify,
}
use nccl_exts.Prelude.Words.{add64}
use nccl_exts.Ib.Verbs.{Post, Mr}
use nccl_exts.Ib.Request.{Request, send, max_recvs, max_requests, get_request, add_event}
use nccl_exts.Ib.Comm.{
  SendFifo, blank_fifo, Base, ib_fifo_recv_count, stat_add, Params, qps_used, qp_at, update_request,
}
use nccl_exts.Ib.Send.{SendComm, update_base, fifo_row, reqs_row, multi_send}

-- `spins` is the loop that waits for the other elements of a multi-receive to arrive: the call does
-- not return with the memory as it is.
pub data Isend : Type 0 where
  spins : Isend
  returns : Result (Option ℕ) × SendComm → Isend

-- `for (r = 1; r < nreqs; r++) while (slots[r].idx != idx);` passes.
unfoldable pub all_arrived : ℕ → ℕ → ℕ → List SendFifo → Bool
all_arrived zero r idx slots = true
all_arrived (suc left) r idx slots =
    ((get_or slots r blank_fifo).idx == idx) && all_arrived left (suc r) idx slots

abbrev pub is_none {ℓ} : {A : Type ℓ} → Option A → Bool
is_none none = true
is_none (some a) = false

-- The first `r` with `reqs[r] == NULL` and `slots[r].tag == tag`, from `r` on.
unfoldable pub match_tag : ℕ → ℕ → ℕ → List (Option ℕ) → List SendFifo → Option ℕ
match_tag zero r tag reqs slots = none
match_tag (suc left) r tag reqs slots =
    if is_none (get_or reqs r none) && ((get_or slots r blank_fifo).tag == tag)
    then some r
    else match_tag left (suc r) tag reqs slots

-- The requests of a row when none of the first `left` from `r` on is null.
unfoldable pub matched : ℕ → ℕ → List (Option ℕ) → Option (List ℕ)
matched zero r reqs = some []
matched (suc left) r reqs = elim (get_or reqs r none) [
  | none ↦ none
  | some i ↦ elim (matched left (suc r) reqs) [ none ↦ none | some ids ↦ some (i ∷ ids) ]
]

-- `if (size > slots[r].size) size = slots[r].size;` for a `slots[r].size` that is not negative.
abbrev pub clip : ℕ → ℤ → ℕ
clip size (pos n) = min size n
clip size (negsuc n) = 0

-- The sanity check on what the receiver has posted.
abbrev pub is_incorrect : SendFifo → Bool
is_incorrect s = ltb_ℤ s.size (pos 0) || s.addr == 0 || get_or s.rkeys 0 0 == 0

-- The "count down" loop: one event, and the key of the device, for each queue pair that
-- ncclIbMultiSend will use.
unfoldable pub count_events : ℕ → ℕ → Base → List Mr → Request → Request
count_events zero qp_index b mrs r = r
count_events (suc left) qp_index b mrs r =
    let dev = (qp_at b qp_index).dev_index in
    let r' = add_event dev r in
    count_events left ((qp_index + 1) % b.nqps) b mrs (record r' {
      send_lkeys = set r'.send_lkeys dev (get_or mrs dev (record { lkey = 0; rkey = 0 })).lkey;
    })

-- `for (i < ndevs) req->send.lkeys[i] = mhandleWrapper->mrs[i]->lkey`.
unfoldable pub store_lkeys : ℕ → ℕ → List Mr → List ℕ → List ℕ
store_lkeys zero i mrs keys = keys
store_lkeys (suc left) i mrs keys =
    store_lkeys left (suc i) mrs (set keys i (get_or mrs i (record { lkey = 0; rkey = 0 })).lkey)

-- The request as it is filled in before it goes to the row.
unfoldable pub fill_send : Params → SendComm → ℕ → ℕ → ℕ → List Mr → Request → Request
fill_send p c nreqs size addr mrs r =
    let counted = count_events (qps_used p c.base) c.qp_index c.base mrs (record r {
      type = send;
      nreqs = nreqs;
      send_size = size;
      send_data = addr;
      send_offset = 0;
      peer_rank = c.peer_rank;
    }) in
    record counted { send_lkeys = store_lkeys c.ndevs 0 mrs counted.send_lkeys }

-- `NCCLCHECK(ncclIbGetRequest(&comm->base, &req))`.
unfoldable pub take_request : Action SendComm ℕ
take_request c = elim (get_request c.reqs) [
  | none ↦ (err internal_error, c)
  | some (i, reqs) ↦ (ok i, update_base (λ b. record b { reqs = reqs }) c)
]

module _ (post_send : List Post → Post → NcclResult) (p : Params) where
  -- The row is complete: send, then clear the row and go to the next one.
  unfoldable pub flush_row : ℕ → List ℕ → Action SendComm (Unit {0})
  flush_row slot ids =
      multi_send post_send p slot ids
      >> modify (λ (c : SendComm). record c {
        fifo = set c.fifo slot (set (fifo_row c slot) 0 blank_fifo);
        fifo_reqs = set c.fifo_reqs slot (replicate max_recvs none);
        fifo_head = add64 c.fifo_head 1;
      })

  -- Row `slot` has an element for `tag` at `r`.
  unfoldable pub send_matched : ℕ → ℕ → ℕ → ℕ → ℕ → List Mr → Action SendComm (Option ℕ)
  send_matched slot nreqs r addr size mrs = do
    s ← gets (λ (c : SendComm). get_or (fifo_row c slot) r blank_fifo)
    fail_if (is_incorrect s) internal_error
    i ← take_request
    modify (λ c. update_base (update_request i (fill_send p c nreqs (clip size s.size) addr mrs)) c)
    modify (λ c. record c { fifo_reqs = set c.fifo_reqs slot (set (reqs_row c slot) r (some i)) })
    row ← gets (λ (c : SendComm). matched nreqs 0 (reqs_row c slot))
    elim row [ none ↦ pure (some i) | some ids ↦ flush_row slot ids >> pure (some i) ]

  -- The `for (r < nreqs)` loop, after the elements have arrived.
  unfoldable pub send_in_row : ℕ → ℕ → ℕ → ℕ → ℕ → List Mr → Action SendComm (Option ℕ)
  send_in_row slot nreqs addr size tag mrs = do
    modify (λ (c : SendComm). record c { stat = stat_add ib_fifo_recv_count 1 c.stat })
    found ←
        gets
          (λ (c : SendComm). match_tag nreqs 0 (tag % 2 ^ 32) (reqs_row c slot) (fifo_row c slot))
    elim found [ none ↦ pure none | some r ↦ send_matched slot nreqs r addr size mrs ]

  unfoldable pub isend : ℕ → ℕ → ℕ → List Mr → SendComm → Isend
  isend addr size tag mrs c =
      if c.ready == 0
      then returns (err internal_error, c)
      else let slot = c.fifo_head % max_requests in
        let slots = fifo_row c slot in
        let first = get_or slots 0 blank_fifo in
        let idx = add64 c.fifo_head 1 in
        if not (first.idx == idx)
        then returns (ok none, c)
        else if not (all_arrived (first.nreqs - 1) 1 idx slots)
        then spins
        else returns (send_in_row slot first.nreqs addr size tag mrs c)
