-- ===== src/Ib/Completion.antt =====
-- ncclIbTest of src/unet/unet_ib.cc: it polls the completion queues of a request's devices, and
-- hands each completion to the requests that it stands for.
pub mod Termination
pub mod Accounting
use nccl_exts.Prelude.{
  ℕ, zero, suc, ◌+◌, ◌≤◌, ◌≡◌, Bool, true, false, not, ◌&&◌, List, [], ◌∷◌, Option, none, some,
  ◌==◌, if◌then◌else◌, get_or, set, take, length,
}
use nccl_exts.Prelude.Int.{ℤ}
use nccl_exts.Prelude.Nccl.{
  NcclResult, Result, ok, err, internal_error, system_error, remote_error, Action, ◌>>=◌, ◌>>◌,
  pure, fail, fail_if, gets, modify,
}
use nccl_exts.Prelude.Words.{dec32, is_pos32}
use nccl_exts.Ib.Verbs.{Wc, WcOpcode, recv_rdma_with_imm, other_opcode}
use nccl_exts.Ib.Request.{
  Request, ReqType, unused, send, recv, flush, free_request, id_at, max_devs_per_nic,
}
use nccl_exts.Ib.Comm.{
  Base, IbStat, ib_cpl_count, ib_cpl_err_count, stat_add, Params, is_fatal, request_at,
  update_request,
}

-- The completion queues of a comm's devices, which are the verbs library's: `poll` is ibv_poll_cq
-- for at most 4 entries, and `none` its failure.
pub record CompletionQueues (Q : Type 0) : Type 0 where
  pub poll : ℕ → Q → Option (List Wc) × Q
  pub pending : Q → ℕ
  pub poll_takes :
      (dev : ℕ) (q : Q) {wcs : List Wc} {q' : Q}
      → poll dev q ≡ (some wcs, q')
      → pending q' + length wcs ≤ pending q

-- What ncclIbTest reads and writes: the comm, sizesFifo of a receive comm, the queues, the
-- fatal-error counts of the devices, the counters, and the bytes sent by rank (`bw_stat_`).
pub record Polled (Q : Type 0) : Type 0 where
  pub base : Base
  pub sizes_fifo : List (List ℕ)
  pub queues : Q
  pub dev_fatal : List ℕ
  pub stat : IbStat
  pub sent_to : List (ℤ × ℕ)

abbrev pub is_send : ReqType → Bool
is_send send = true
is_send _ = false

abbrev pub is_recv : ReqType → Bool
is_recv recv = true
is_recv _ = false

abbrev pub is_recv_imm : WcOpcode → Bool
is_recv_imm recv_rdma_with_imm = true
is_recv_imm other_opcode = false

-- `events[dev]--`.
unfoldable pub drop_event : ℕ → Request → Request
drop_event dev r = record r { events = set r.events dev (dec32 (get_or r.events dev 0)) }

-- Both counters of the request are 0.
abbrev pub is_done : Request → Bool
is_done r = get_or r.events 0 0 == 0 && get_or r.events 1 0 == 0

module _ {Q : Type 0} where
  abbrev pub edit_base : (Base → Base) → Polled Q → Polled Q
  edit_base f s = record s { base = f s.base }

  abbrev pub count_stat : ℕ → Polled Q → Polled Q
  count_stat i s = record s { stat = stat_add i 1 s.stat }

  -- The loop over the requests of a send completion, `left` of them from the j-th on.
  unfoldable pub complete_sends : ℕ → ℕ → ℕ → ℕ → Action (Polled Q) (Unit {0})
  complete_sends zero j dev wr_id = pure tt
  complete_sends (suc left) j dev wr_id = do
    r ← gets (λ (s : Polled Q). request_at s.base (id_at wr_id j))
    fail_if (not (is_pos32 (get_or r.events dev 0))) internal_error
    modify (edit_base (update_request (id_at wr_id j) (drop_event dev)))
    complete_sends left (suc j) dev wr_id

  -- `req->recv.sizes[0] = wc->imm_data`.
  abbrev pub store_size : ℕ → ℕ → Polled Q → Polled Q
  store_size row size s = record s {
    sizes_fifo = set s.sizes_fifo row (set (get_or s.sizes_fifo row []) 0 size);
  }

  -- A completion of a receive, of a fifo post or of a flush.
  unfoldable pub complete_other : ℕ → Wc → Action (Polled Q) (Unit {0})
  complete_other dev wc = do
    let i = id_at wc.wr_id 0
    r ← gets (λ (s : Polled Q). request_at s.base i)
    fail_if (is_recv_imm wc.opcode && not (is_recv r.type)) internal_error
    modify (
        if is_recv_imm wc.opcode && r.nreqs == 1 then store_size r.recv_slot wc.imm_data else λ s.
        s)
    modify (edit_base (update_request i (drop_event dev)))

  unfoldable pub complete_send : ℕ → Wc → Action (Polled Q) (Unit {0})
  complete_send dev wc = do
    r ← gets (λ (s : Polled Q). request_at s.base (id_at wc.wr_id 0))
    complete_sends r.nreqs 0 dev wc.wr_id
    modify (λ (s : Polled Q). record s { sent_to = (r.peer_rank, r.send_size) ∷ s.sent_to })

  unfoldable pub dispatch_wc : ℕ → Wc → Action (Polled Q) (Unit {0})
  dispatch_wc dev wc s =
      if is_send (request_at s.base (id_at wc.wr_id 0)).type
      then complete_send dev wc s
      else complete_other dev wc s

  -- One work completion of device `dev`.
  unfoldable pub handle_wc : ℕ → Wc → Action (Polled Q) (Unit {0})
  handle_wc dev wc s =
      if not wc.is_success
      then (err remote_error, count_stat ib_cpl_err_count s)
      else dispatch_wc dev wc (count_stat ib_cpl_count s)

  unfoldable pub handle_wcs : ℕ → List Wc → Action (Polled Q) (Unit {0})
  handle_wcs dev [] = pure tt
  handle_wcs dev (wc ∷ wcs) = handle_wc dev wc >> handle_wcs dev wcs

  -- What the caller's `sizes` gets.
  abbrev pub report : ReqType → Request → Polled Q → List ℕ
  report recv r s = take r.nreqs (get_or s.sizes_fifo r.recv_slot [])
  report send r s = r.send_size ∷ []
  report _ r s = []

  -- NCCLCHECK of the poll.
  abbrev pub answer_poll : Option (List Wc) × Q → Action (Polled Q) (List Wc)
  answer_poll (none, q) s = (err system_error, record s { queues = q })
  answer_poll (some wcs, q) s = (ok wcs, record s { queues = q })

  module _ (cq : CompletionQueues Q) (p : Params) where
    unfoldable pub poll_queue : ℕ → Action (Polled Q) (List Wc)
    poll_queue dev s = answer_poll (cq.poll dev s.queues) s

    -- What follows the poll of device `dev`: the number of completions found.
    unfoldable pub handle_polled : ℕ → List Wc → Action (Polled Q) ℕ
    handle_polled dev [] = pure 0
    handle_polled dev (wc ∷ wcs) = do
      handle_wcs dev (wc ∷ wcs)
      fatal ← gets (λ (s : Polled Q). get_or s.dev_fatal dev 0)
      fail_if (is_fatal p fatal) system_error
      pure (length (wc ∷ wcs))

    -- The body of the loop over the devices for device `dev`, if the request expects something of it.
    unfoldable pub poll_device : ℕ → ℕ → Action (Polled Q) ℕ
    poll_device i dev s =
        if get_or (request_at s.base i).events dev 0 == 0
        then (ok 0, s)
        else (poll_queue dev >>= handle_polled dev) s

    -- Both devices.
    unfoldable pub poll_round : ℕ → Action (Polled Q) ℕ
    poll_round i = do n ← poll_device i 0; m ← poll_device i 1; pure (n + m)

    -- `*done` and the sizes; `none` is `*done = 0`.
    unfoldable pub finish : ℕ → Action (Polled Q) (Option (List ℕ))
    finish i = do
      r ← gets (λ (s : Polled Q). request_at s.base i)
      sizes ← gets (report r.type r)
      modify (edit_base (update_request i free_request))
      pure (some sizes)

    -- The `while (1)` loop on request `i`. `none` as a whole is a loop out of fuel.
    unfoldable pub test_loop : ℕ → ℕ → Polled Q → Option (Result (Option (List ℕ)) × Polled Q)
    test_loop zero i s = none
    test_loop (suc fuel) i s =
        let r = request_at s.base i in
        let (round, s') = poll_round i s in
        let rest = test_loop fuel i s' in
        if is_fatal p s.base.fatal_errors
        then some (err system_error, s)
        else if is_done r
        then some (finish i s)
        else elim round [
          | err e ↦ some (err e, s')
          | ok found ↦ if found == 0 then some (ok none, s') else rest
        ]

    -- As many rounds as there are completions, and one more to find none.
    unfoldable pub test : ℕ → Polled Q → Option (Result (Option (List ℕ)) × Polled Q)
    test i s = test_loop (suc (cq.pending s.queues)) i s
