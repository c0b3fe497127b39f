-- ===== src/Socket/Handshake.antt =====
-- The handshake of a connection, and the state machine of a socket in src/unet/socket.cc: the wait
-- loop, socketTryAccept, socketFinalizeAccept, socketFinalizeConnect, socketProgressState,
-- ncclSocketReady, ncclSocketConnect and ncclSocketAccept. A wait spins while no bytes arrive; it is
-- given fuel, and `none` says that the call is still waiting when that is used up.
pub mod Bytes
pub mod Magic
use nccl_exts.Prelude.{
  ℕ, zero, suc, ◌-◌, Bool, true, false, not, ◌&&◌, ◌||◌, Option, none, some, ltb, ◌==◌,
  if◌then◌else◌,
}
use nccl_exts.Prelude.Int.{ℤ, pos, negsuc}
use nccl_exts.Prelude.Nccl.{
  NcclResult, Result, ok, err, success, in_progress, system_error, internal_error, invalid_argument,
  remote_error,
}
use nccl_exts.Interfaces.{same_int}
use nccl_exts.Socket.{
  Socket, State, none_yet, initialized, accepting, accepted, connecting, connect_polling, connected,
  ready, closed, error, System, Op, send, recv, Family, Progress, progress, progress_opt,
  start_connect, poll_connect,
}

-- What accept answers: a descriptor with the peer's address, EAGAIN or EWOULDBLOCK, or a failure.
pub data Accepted : Type 0 where
  client : ℕ → Option (Family × ℕ) → Accepted
  no_client : Accepted
  accept_failed : Accepted

-- What the state machine needs beside System: setsockopt of TCP_NODELAY, accept, and what the bytes of
-- a `magic` and of a `type` that were received last say.
pub record Peer (W : Type 0) : Type 0 where
  pub no_delay : W → Bool × W
  pub accept : W → Accepted × W
  pub magic : W → ℕ
  pub type : W → ℕ

-- The numbers of enum ncclSocketState.
abbrev pub code : State → ℕ
code none_yet = 0
code initialized = 1
code accepting = 2
code accepted = 3
code connecting = 4
code connect_polling = 5
code connected = 6
code ready = 7
code closed = 8
code error = 9

abbrev pub is_in : State → Socket → Bool
is_in st s = code s.state == code st

-- An action on a socket in a world that may still be waiting.
abbrev pub Run : Type 0 → Type 0 → Type 0
Run W A = Socket × W → Option (Result A × (Socket × W))

abbrev pub after_run :
    {W A B : Type 0}
    → (A → Run W B)
    → Option (Result A × (Socket × W))
    → Option (Result B × (Socket × W))
after_run f none = none
after_run f (some (err e, x)) = some (err e, x)
after_run f (some (ok a, x)) = f a x

infixl 5 ◌>=>◌
abbrev pub ◌>=>◌ : {W A B : Type 0} → Run W A → (A → Run W B) → Run W B
(m >=> f) x = after_run f (m x)

abbrev pub set_state : State → Socket → Socket
set_state st s = record s { state = st }

abbrev pub drop_fd : Socket → Socket
drop_fd s = record s { fd = negsuc 0 }

module _ {W : Type 0} where
  abbrev pub finish : {A : Type 0} → A → Run W A
  finish a x = some (ok a, x)

  abbrev pub stop : {A : Type 0} → NcclResult → Run W A
  stop e x = some (err e, x)

  abbrev pub update : (Socket → Socket) → Run W (Unit {0})
  update f (s, w) = some (ok tt, (f s, w))

  -- NCCLCHECK on a result.
  abbrev pub checked_result : NcclResult → Run W (Unit {0})
  checked_result success = finish tt
  checked_result in_progress = finish tt
  checked_result e = stop e

module _ {W : Type 0} (sys : System W) (peer : Peer W) where
  abbrev pub from_progress : Socket → Option (NcclResult × ℕ × W) → Option (Result ℕ × (Socket × W))
  from_progress s none = none
  from_progress s (some (success, o, w)) = some (ok o, (s, w))
  from_progress s (some (in_progress, o, w)) = some (ok o, (s, w))
  from_progress s (some (e, o, w)) = some (err e, (s, w))

  -- socketProgress under NCCLCHECK: the new offset.
  unfoldable pub run_progress : Op → ℕ → ℕ → Run W ℕ
  run_progress op size offset (s, w) = from_progress s (progress sys op s size offset w)

  -- socketWait.
  unfoldable pub wait : ℕ → Op → ℕ → ℕ → Run W (Unit {0})
  wait zero op size offset x = if ltb offset size then none else some (ok tt, x)
  wait (suc fuel) op size offset x =
      let more = (run_progress op size offset >=> wait fuel op size) x in
      if ltb offset size then more else some (ok tt, x)

  -- socketTryAccept, by accept's answer.
  unfoldable pub try_accept : Accepted × W → Socket → Option (Result (Unit {0}) × (Socket × W))
  try_accept (client fd addr, w) s =
      some (ok tt, (record s { fd = pos fd; addr = addr; state = accepted }, w))
  try_accept (no_client, w) s = some (ok tt, (drop_fd s, w))
  try_accept (accept_failed, w) s = some (err system_error, (drop_fd s, w))

  -- The descriptor's TCP_NODELAY.
  unfoldable pub set_no_delay : Run W (Unit {0})
  set_no_delay (s, w) =
      let (done, w') = peer.no_delay w in
      if done then some (ok tt, (s, w')) else some (err system_error, (s, w'))

  -- The type of the socket was received: the end of the handshake.
  unfoldable pub check_type : Run W (Unit {0})
  check_type (s, w) =
      if peer.type w == s.type
      then some (ok tt, (set_state ready s, w))
      else some (err internal_error, (drop_fd (set_state error s), w))

  -- The magic was received. A spurious connection is dropped, and the socket accepts again.
  unfoldable pub check_magic : ℕ → Run W (Unit {0})
  check_magic fuel (s, w) =
      let rest = (wait fuel recv 4 0 >=> λ _. check_type) (s, w) in
      if peer.magic w == s.magic then rest else some (ok tt, (drop_fd (set_state accepting s), w))

  -- socketFinalizeAccept; a magic has 8 bytes and a type 4.
  unfoldable pub finalize_accept : ℕ → Run W (Unit {0})
  finalize_accept fuel = set_no_delay >=> λ _. run_progress recv 8 0 >=> λ received.
      if received == 0 then finish tt else (wait fuel recv 8 received >=> λ _. check_magic fuel)

  -- socketFinalizeConnect.
  unfoldable pub finalize_connect : ℕ → Run W (Unit {0})
  finalize_connect fuel = run_progress send 8 0 >=> λ sent.
      if sent == 0
      then finish tt
      else (wait fuel send 8 sent >=> λ _. wait fuel send 4 0 >=> λ _. update (set_state ready))

  abbrev pub from_step : (NcclResult × Socket) × W → Option (Result (Unit {0}) × (Socket × W))
  from_step ((r, s), w) = checked_result r (s, w)

  -- A step of socketProgressState, taken in one state.
  unfoldable pub step_in : State → Run W (Unit {0}) → Run W (Unit {0})
  step_in st m (s, w) = let moved = m (s, w) in if is_in st s then moved else some (ok tt, (s, w))

  unfoldable pub progress_state : ℕ → Run W (Unit {0})
  progress_state fuel = step_in accepting (λ (s, w). try_accept (peer.accept w) s) >=> λ _.
      step_in accepted (finalize_accept fuel) >=> λ _.
      step_in connecting (λ (s, w). from_step (start_connect sys s w)) >=> λ _.
      step_in connect_polling (λ (s, w). from_step (poll_connect sys s w)) >=> λ _.
      step_in connected (finalize_connect fuel)

  -- ncclSocketReady: `*running`.
  unfoldable pub ready_now : ℕ → Run W Bool
  ready_now fuel (s, w) =
      let moved = (progress_state fuel >=> λ _ (t, v). some (ok (is_in ready t), (t, v))) (s, w) in
      if is_in error s || is_in closed s
      then some (err remote_error, (s, w))
      else if is_in ready s
      then some (ok true, (s, w))
      else moved

  -- The condition of the loops of ncclSocketConnect and ncclSocketAccept behind a round, where
  -- `goes_on` asks about the state and `again` are the rounds that follow. With asyncFlag set there is
  -- one round.
  unfoldable pub next_round : (Socket → Bool) → Run W (Unit {0}) → Run W (Unit {0})
  next_round goes_on again (s, w) =
      let (aborted, w') = sys.is_aborted w in
      let seen = if s.abort_flag && not s.async_flag then w' else w in
      let more = again (s, seen) in
      if not s.async_flag && (not (s.abort_flag && aborted) && goes_on s)
      then more
      else some (ok tt, (s, seen))

  unfoldable pub progress_rounds : ℕ → (Socket → Bool) → Run W (Unit {0})
  progress_rounds zero goes_on = λ x. none
  progress_rounds (suc n) goes_on =
      progress_state n >=> λ _. next_round goes_on (progress_rounds n goes_on)

  -- What the two answer behind their loops: the abort flag, then the state.
  unfoldable pub conclude : (Socket → Bool) → Run W (Unit {0})
  conclude goes_on (s, w) =
      let (aborted, w') = sys.is_aborted w in
      let seen = if s.abort_flag then w' else w in
      if s.abort_flag && aborted
      then some (err internal_error, (s, seen))
      else if goes_on s || is_in ready s
      then some (ok tt, (s, seen))
      else if is_in error s
      then some (err system_error, (s, seen))
      else some (err internal_error, (s, seen))

  abbrev pub is_connecting : Socket → Bool
  is_connecting s = is_in connecting s || (is_in connect_polling s || is_in connected s)

  abbrev pub is_accepting : Socket → Bool
  is_accepting s = is_in accepting s || is_in accepted s

  abbrev pub has_fd : ℤ → Bool
  has_fd fd = not (same_int fd (negsuc 0))

  -- ncclSocketConnect on a socket; a null pointer is ncclInvalidArgument.
  unfoldable pub connect : ℕ → Run W (Unit {0})
  connect fuel (s, w) =
      let run =
        (set_no_delay >=> λ _. update (set_state connecting) >=> λ _.
        progress_rounds fuel is_connecting >=> λ _. conclude is_connecting)
          (s, w) in
      if not (has_fd s.fd)
      then some (err invalid_argument, (s, w))
      else if is_in initialized s
      then run
      else if is_in error s
      then some (err remote_error, (s, w))
      else some (err internal_error, (s, w))

  -- The copy of the listening socket that a socket without acceptFd becomes.
  unfoldable pub adopt : Socket → Socket → Socket
  adopt listen s =
      if has_fd s.accept_fd then s else record listen { accept_fd = listen.fd; state = accepting }

  -- ncclSocketAccept.
  unfoldable pub accept : ℕ → Socket → Run W (Unit {0})
  accept fuel listen (s, w) =
      let run =
        (progress_rounds fuel is_accepting >=> λ _. conclude is_accepting) (adopt listen s, w) in
      if is_in ready listen
      then run
      else if is_in error listen
      then some (err system_error, (s, w))
      else some (err internal_error, (s, w))

  -- ncclSocketSend and ncclSocketRecv of `size` bytes.
  unfoldable pub transfer_all : ℕ → Op → ℕ → Run W (Unit {0})
  transfer_all fuel op size (s, w) =
      let run = wait fuel op size 0 (s, w) in
      if is_in ready s then run else some (err internal_error, (s, w))
