-- ===== src/Ib/Completion/Termination.antt =====
-- The loop of ncclIbTest comes to an end: each round that finds something takes it off a queue.
use nccl_exts.Prelude.{
  ℕ, zero, suc, ◌+◌, ◌≤◌, ◌<◌, ◌≡◌, ◌≢◌, refl, inl, inr, Bool-cases, List, [], ◌∷◌, Option, none,
  some, arith, length, get_or, ◌==◌,
}
use nccl_exts.Prelude.Nccl.{Result, ok, err, ◌>>=◌}
use nccl_exts.Ib.Verbs.{Wc}
use nccl_exts.Ib.Comm.{Params, update_request, request_at, ib_cpl_count}
use nccl_exts.Ib.Request.{id_at}
use nccl_exts.Ib.Completion.{
  CompletionQueues, Polled, answer_poll, poll_queue, complete_sends, complete_send, complete_other,
  handle_wc, handle_wcs, handle_polled, dispatch_wc, drop_event, edit_base, count_stat, poll_device,
  poll_round, test_loop, test,
}

module _ {Q : Type 0} where
  complete_sends-queues :
      (left j dev wr_id : ℕ) (s : Polled Q)
      → (complete_sends left j dev wr_id s).1.queues ≡ s.queues
  unfolding complete_sends
  complete_sends-queues zero j dev wr_id s = refl
  complete_sends-queues (suc left) j dev wr_id s = ground (
    arith,
    complete_sends-queues left (suc j) dev wr_id
        (edit_base (update_request (id_at wr_id j) (drop_event dev)) s),
  )

  complete_other-queues :
      (dev : ℕ) (wc : Wc) (s : Polled Q) → (complete_other dev wc s).1.queues ≡ s.queues
  unfolding complete_other
  complete_other-queues dev wc s = ground arith

  complete_send-queues :
      (dev : ℕ) (wc : Wc) (s : Polled Q) → (complete_send dev wc s).1.queues ≡ s.queues
  unfolding complete_send
  complete_send-queues dev wc s =
      ground
        (arith, complete_sends-queues (request_at s.base (id_at wc.wr_id 0)).nreqs 0 dev wc.wr_id s)

  handle_wc-queues : (dev : ℕ) (wc : Wc) (s : Polled Q) → (handle_wc dev wc s).1.queues ≡ s.queues
  unfolding handle_wc dispatch_wc
  handle_wc-queues dev wc s = ground (
    arith,
    complete_send-queues dev wc (count_stat ib_cpl_count s),
    complete_other-queues dev wc (count_stat ib_cpl_count s),
  )

  handle_wcs-queues :
      (dev : ℕ) (wcs : List Wc) (s : Polled Q) → (handle_wcs dev wcs s).1.queues ≡ s.queues
  unfolding handle_wcs
  handle_wcs-queues dev [] s = refl
  handle_wcs-queues dev (wc ∷ wcs) s =
      ground (arith, handle_wc-queues dev wc s, handle_wcs-queues dev wcs (handle_wc dev wc s).1)

  module _ (cq : CompletionQueues Q) (p : Params) where
    handle_polled-queues :
        (dev : ℕ) (wcs : List Wc) (s : Polled Q)
        → (handle_polled cq p dev wcs s).1.queues ≡ s.queues
    unfolding handle_polled
    handle_polled-queues dev [] s = refl
    handle_polled-queues dev (wc ∷ wcs) s = ground (arith, handle_wcs-queues dev (wc ∷ wcs) s)

    handle_polled-count :
        (dev : ℕ) (wcs : List Wc) (s : Polled Q) (n : ℕ)
        → (handle_polled cq p dev wcs s).0 ≡ ok n
        → n ≡ length wcs
    unfolding handle_polled
    handle_polled-count dev [] s n h = cc
    handle_polled-count dev (wc ∷ wcs) s n h = ground arith

    -- As many completions as are counted have left the queues, which held `before`.
    abbrev Takes : ℕ → Result ℕ × Polled Q → Type 0
    Takes before (ok n, s) = cq.pending s.queues + n ≤ before
    Takes before (err e, s) = Unit

    handle_polled-Takes :
        (dev before : ℕ) (wcs : List Wc) (s : Polled Q)
        → cq.pending s.queues + length wcs ≤ before
        → Takes before (handle_polled cq p dev wcs s)
    handle_polled-Takes dev before wcs s h =
        go (handle_polled cq p dev wcs s) (handle_polled-queues dev wcs s)
          (handle_polled-count dev wcs s)
      where
        go :
            (out : Result ℕ × Polled Q)
            → out.1.queues ≡ s.queues
            → ((n : ℕ) → out.0 ≡ ok n → n ≡ length wcs)
            → Takes before out
        go (ok n, t) e k = rw (e, k n refl) h
        go (err x, t) e k = tt

    polled-Takes :
        (dev : ℕ) (s : Polled Q) (r : Option (List Wc) × Q)
        → cq.poll dev s.queues ≡ r
        → Takes (cq.pending s.queues) ((answer_poll r >>= handle_polled cq p dev) s)
    polled-Takes dev s (none, q) e = tt
    polled-Takes dev s (some wcs, q) e =
        handle_polled-Takes dev (cq.pending s.queues) wcs (record s { queues = q })
          (cq.poll_takes dev s.queues e)

    poll_device-Takes :
        (i dev : ℕ) (s : Polled Q) → Takes (cq.pending s.queues) (poll_device cq p i dev s)
    unfolding poll_device poll_queue
    poll_device-Takes i dev s = elim (Bool-cases (get_or (request_at s.base i).events dev 0 == 0)) [
      | inl idle ↦ rw idle (omega arith)
      | inr busy ↦ rw busy (polled-Takes dev s (cq.poll dev s.queues) refl)
    ]

    poll_round-Takes : (i : ℕ) (s : Polled Q) → Takes (cq.pending s.queues) (poll_round cq p i s)
    unfolding poll_round
    poll_round-Takes i s =
        ground (arith, poll_device-Takes i 0 s, poll_device-Takes i 1 (poll_device cq p i 0 s).1)

    test_loop-ne-none :
        (fuel i : ℕ) (s : Polled Q) → cq.pending s.queues < fuel → test_loop cq p fuel i s ≢ none
    unfolding test_loop
    test_loop-ne-none zero i s h = absurd (omega arith)
    test_loop-ne-none (suc fuel) i s h =
        ground (arith, poll_round-Takes i s, test_loop-ne-none fuel i (poll_round cq p i s).1)

    -- The loop of ncclIbTest ends in each state and for each request: one round more than there
    -- are completions is enough.
    pub test-ne-none : (i : ℕ) (s : Polled Q) → test cq p i s ≢ none
    unfolding test
    test-ne-none i s = test_loop-ne-none (suc (cq.pending s.queues)) i s (omega arith)
