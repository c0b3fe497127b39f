-- ===== src/Socket/Retries.antt =====
-- The retries of a connection of src/unet/socket.cc.
use nccl_exts.Prelude.{
  ℕ, suc, ◌+◌, ◌-◌, ◌<◌, ◌≡◌, ◌≢◌, inl, inr, refl, Bool-cases, ◌==◌, Option, none, some, arith, ◌⊎◌,
  Bool, true, false,
}
use nccl_exts.Prelude.Nccl.{NcclResult, success}
use nccl_exts.Socket.{
  State, connected, connect_polling, connecting, Errno, eintr, ewouldblock, eagain, einprogress,
  econnrefused, etimedout, other, Polled, idle, poll_failed, no_pollout, pollout, Socket, System,
  refused, timed_out, started, checked, start_connect, after_poll, poll_connect,
}

-- The failures that a socket may still count before it gives up.
abbrev pub budget : Socket → ℕ
budget s = (20000 - s.refused_retries) + (3 - s.timed_out_retries)

-- The socket has not used up either count.
abbrev pub HasRetries : Socket → Type 0
HasRetries s = (s.refused_retries < 20000) × (s.timed_out_retries < 3)

-- What a step of a connection comes to. Without a failure that is counted, it has failed for good, or it
-- is under way or done with the counts as they were. When the other side has refused or not answered in
-- time, it gives up for good at the last retry, or one failure more is counted and it is to be tried again.
pub data Tried (s : Socket) : Bool → NcclResult × Socket → Type 0 where
  failed : {r : NcclResult} {s' : Socket} → r ≢ success → Tried s false (r, s')
  went_on :
      {s' : Socket}
      → (s'.state ≡ connected) ⊎ (s'.state ≡ connect_polling)
      → budget s' ≡ budget s
      → HasRetries s'
      → Tried s false (success, s')
  gave_up :
      {r : NcclResult} {s' : Socket}
      → r ≢ success
      → (suc s.refused_retries ≡ 20000) ⊎ (suc s.timed_out_retries ≡ 3)
      → Tried s true (r, s')
  again :
      {s' : Socket}
      → s'.state ≡ connecting
      → suc (budget s') ≡ budget s
      → HasRetries s'
      → Tried s true (success, s')

-- The other side has refused, or has not answered in time.
abbrev pub is_counted : Option Errno → Bool
is_counted (some econnrefused) = true
is_counted (some etimedout) = true
is_counted _ = false

abbrev is_counted_so : Option (Option Errno) → Bool
is_counted_so none = false
is_counted_so (some e) = is_counted e

refused-Tried :
    (next : State) (s : Socket) → next ≡ connecting → HasRetries s → Tried s true (refused next s)
unfolding refused
refused-Tried next s c h = elim (Bool-cases (s.refused_retries + 1 == 20000)) [
  | inl e ↦ rw (refused, e) (gave_up (ground arith) (inl (ground (arith, e))))
  | inr e ↦ rw (refused, e) (again c (omega (arith, h.0)) (ground (arith, h.0), h.1))
]

timed_out-Tried :
    (next : State) (s : Socket) → next ≡ connecting → HasRetries s → Tried s true (timed_out next s)
unfolding timed_out
timed_out-Tried next s c h = elim (Bool-cases (s.timed_out_retries + 1 == 3)) [
  | inl e ↦ rw (timed_out, e) (gave_up (ground arith) (inr (ground (arith, e))))
  | inr e ↦ rw (timed_out, e) (again c (omega (arith, h.1)) (h.0, ground (arith, h.1)))
]

started-Tried :
    (answer : Option Errno) (s : Socket)
    → s.state ≡ connecting
    → HasRetries s
    → Tried s (is_counted answer) (started answer s)
unfolding started
started-Tried none s c h = went_on (inl refl) refl h
started-Tried (some einprogress) s c h = went_on (inr refl) refl h
started-Tried (some econnrefused) s c h = refused-Tried s.state s c h
started-Tried (some etimedout) s c h = timed_out-Tried s.state s c h
started-Tried (some eintr) s c h = failed (ground arith)
started-Tried (some ewouldblock) s c h = failed (ground arith)
started-Tried (some eagain) s c h = failed (ground arith)
started-Tried (some other) s c h = failed (ground arith)

checked-Tried :
    (answer : Option (Option Errno)) (s : Socket)
    → s.state ≡ connect_polling
    → HasRetries s
    → Tried s (is_counted_so answer) (checked answer s)
unfolding checked
checked-Tried none s c h = failed (ground arith)
checked-Tried (some none) s c h = went_on (inl refl) refl h
checked-Tried (some (some einprogress)) s c h = went_on (inr c) refl h
checked-Tried (some (some econnrefused)) s c h = refused-Tried connecting s refl h
checked-Tried (some (some etimedout)) s c h = timed_out-Tried connecting s refl h
checked-Tried (some (some eintr)) s c h = failed (ground arith)
checked-Tried (some (some ewouldblock)) s c h = failed (ground arith)
checked-Tried (some (some eagain)) s c h = failed (ground arith)
checked-Tried (some (some other)) s c h = failed (ground arith)

module _ {W : Type 0} (sys : System W) where
  -- On a connecting socket that has used up neither count of retries, socketStartConnect goes by
  -- the answer of connect. When the other side has refused or has not answered in time, it fails,
  -- and then this was the last try of the 20000 or of the 3, or it succeeds with the socket still
  -- connecting and one try less left in all. On any other answer it fails, or succeeds with the
  -- socket connected or polling and as many tries left as before.
  pub start_connect-Tried :
      (s : Socket) (w : W)
      → s.state ≡ connecting
      → HasRetries s
      → Tried s (is_counted (sys.connect w).0) (start_connect sys s w).0
  unfolding start_connect
  start_connect-Tried s w c h = started-Tried (sys.connect w).0 s c h

  -- Whether a poll has shown a failure that is counted.
  abbrev is_counted_poll : Polled × W → Bool
  is_counted_poll (pollout, w) = is_counted_so (sys.so_error w).0
  is_counted_poll _ = false

  after_poll-Tried :
      (s : Socket) (r : Polled × W)
      → s.state ≡ connect_polling
      → HasRetries s
      → Tried s (is_counted_poll r) (after_poll sys s r).0
  unfolding after_poll
  after_poll-Tried s (idle, w) c h = went_on (inr c) refl h
  after_poll-Tried s (poll_failed, w) c h = failed (ground arith)
  after_poll-Tried s (no_pollout, w) c h = failed (ground arith)
  after_poll-Tried s (pollout, w) c h = checked-Tried (sys.so_error w).0 s c h

  -- socketPollConnect on a polling socket that has used up neither count of retries comes to the same
  -- ends, by what getsockopt has answered.
  poll_connect-Tried :
      (s : Socket) (w : W)
      → s.state ≡ connect_polling
      → HasRetries s
      → Tried s (is_counted_poll (sys.poll w)) (poll_connect sys s w).0
  unfolding poll_connect
  poll_connect-Tried s w c h = after_poll-Tried s (sys.poll w) c h
