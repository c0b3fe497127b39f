-- ===== src/Socket.antt =====
-- The sockets of src/unet/socket.cc, with struct ncclSocket of src/include/nccl/socket.h: the
-- transfer of bytes and the steps of a connection. The system calls are an interface.
pub mod Transfer
pub mod Retries
pub mod Handshake
pub mod Find
pub mod Opening
mod Tests
use nccl_exts.Prelude.{
  ℕ, zero, suc, ◌+◌, ◌-◌, ◌≤◌, ◌≡◌, Bool, true, false, not, ◌&&◌, ◌||◌, Option, none, some, ltb,
  ◌==◌, if◌then◌else◌,
}
use nccl_exts.Prelude.Int.{ℤ, pos, negsuc}
use nccl_exts.Prelude.Nccl.{
  NcclResult, Result, ok, err, success, system_error, internal_error, invalid_argument,
  remote_error, Action,
}

-- enum ncclSocketState.
pub data State : Type 0 where
  none_yet initialized accepting accepted connecting connect_polling connected ready closed error :
      State

-- errno, as far as the code tells its values apart.
pub data Errno : Type 0 where
  eintr ewouldblock eagain einprogress econnrefused etimedout other : Errno

-- The family of an address.
pub data Family : Type 0 where
  inet inet6 unspecified : Family

-- struct ncclSocket: an address is a number whose family the system knows, `abort_flag` says whether
-- the pointer is set, and a descriptor is an `int`.
pub record Socket : Type 0 where
  pub fd : ℤ
  pub accept_fd : ℤ
  pub timed_out_retries : ℕ
  pub refused_retries : ℕ
  pub addr : Option (Family × ℕ)
  pub abort_flag : Bool
  pub async_flag : Bool
  pub state : State
  pub magic : ℕ
  pub type : ℕ

-- NCCL_SOCKET_SEND and NCCL_SOCKET_RECV.
pub data Op : Type 0 where
  send recv : Op

-- What send or recv answers: a number of bytes, or -1 with errno.
pub data Bytes : Type 0 where
  moved : ℕ → Bytes
  failed : Errno → Bytes

-- What poll answers for one descriptor: no event yet or EINTR, another failure, an event that is not
-- POLLOUT, or POLLOUT.
pub data Polled : Type 0 where
  idle poll_failed no_pollout pollout : Polled

-- The state of the connection after a transfer of at most `len` bytes; `stream` counts the bytes that
-- have gone through it.
abbrev pub Transfers : {W : Type 0} → (W → ℕ) → ℕ → W → Bytes × W → Type 0
Transfers stream len w (moved n, w') = (n ≤ len) × (stream w' ≡ stream w + n)
Transfers stream len w (failed e, w') = stream w' ≡ stream w

-- The system calls on a world `W`: send and recv on the socket, connect, poll, getsockopt of
-- SO_ERROR, and a look at the abort flag, which another thread sets.
pub record System (W : Type 0) : Type 0 where
  pub transfer : Op → ℕ → W → Bytes × W
  pub connect : W → Option Errno × W
  pub poll : W → Polled × W
  pub so_error : W → Option (Option Errno) × W
  pub is_aborted : W → Bool × W
  pub stream : W → ℕ
  pub transfer_law : (op : Op) (len : ℕ) (w : W) → Transfers stream len w (transfer op len w)
  pub abort_law : (w : W) → stream (is_aborted w).1 ≡ stream w

-- errno is EINTR, EWOULDBLOCK or EAGAIN.
abbrev pub is_transient : Errno → Bool
is_transient eintr = true
is_transient ewouldblock = true
is_transient eagain = true
is_transient _ = false

-- RETRY_REFUSED_TIMES and RETRY_TIMEDOUT_TIMES.
abbrev pub retry_refused_times : ℕ
retry_refused_times = 20000

abbrev pub retry_timedout_times : ℕ
retry_timedout_times = 3

-- `++sock->refusedRetries == RETRY_REFUSED_TIMES`, else back to `next`.
unfoldable pub refused : State → Socket → NcclResult × Socket
refused next s =
    let s' = record s { refused_retries = s.refused_retries + 1 } in
    if s'.refused_retries == retry_refused_times
    then (remote_error, record s' { state = error })
    else (success, record s' { state = next })

unfoldable pub timed_out : State → Socket → NcclResult × Socket
timed_out next s =
    let s' = record s { timed_out_retries = s.timed_out_retries + 1 } in
    if s'.timed_out_retries == retry_timedout_times
    then (remote_error, record s' { state = error })
    else (success, record s' { state = next })

-- What socketStartConnect does, by what connect has answered.
unfoldable pub started : Option Errno → Socket → NcclResult × Socket
started none s = (success, record s { state = connected })
started (some einprogress) s = (success, record s { state = connect_polling })
started (some econnrefused) s = refused s.state s
started (some etimedout) s = timed_out s.state s
started (some e) s = (system_error, record s { state = error })

-- What socketPollConnect does behind getsockopt, whose own failure is `none`.
unfoldable pub checked : Option (Option Errno) → Socket → NcclResult × Socket
checked none s = (system_error, s)
checked (some none) s = (success, record s { state = connected })
checked (some (some econnrefused)) s = refused connecting s
checked (some (some etimedout)) s = timed_out connecting s
checked (some (some einprogress)) s = (success, s)
checked (some (some e)) s = (system_error, record s { state = error })

module _ {W : Type 0} (sys : System W) where
  -- What socketProgressOpt hands back: its result with `*closed`, and `*offset`.
  abbrev pub Progress : Type 0
  Progress = Result Bool × ℕ × W

  -- The end of an iteration that has moved `n` bytes, the abort flag having been looked at: `more` is
  -- what the next iteration comes to.
  unfoldable pub end_round : Bool → ℕ → ℕ → ℕ → W → Option Progress → Option Progress
  end_round aborted n size offset w more =
      if aborted
      then some (err internal_error, offset, w)
      else if ltb 0 n && ltb offset size
      then more
      else some (ok false, offset, w)

  -- `sock->abortFlag && *sock->abortFlag`.
  unfoldable pub check_abort : Socket → W → Bool × W
  check_abort s w = if s.abort_flag then sys.is_aborted w else (false, w)

  -- recv has answered 0 bytes.
  abbrev pub is_closed : Op → ℕ → Bool
  is_closed recv n = n == 0
  is_closed send n = false

  -- An iteration of the do loop of socketProgressOpt behind recv or send; `next` is the loop from a
  -- later offset on.
  unfoldable pub after_transfer :
      Op → Socket → ℕ → ℕ → (ℕ → W → Option Progress) → Bytes × W → Option Progress
  after_transfer op s size offset next (failed e, w) =
      let (aborted, w') = check_abort s w in
      if is_transient e
      then end_round aborted 0 size offset w' none
      else some (err remote_error, offset, w)
  after_transfer op s size offset next (moved n, w) =
      let (aborted, w') = check_abort s w in
      let more = next (offset + n) w' in
      if is_closed op n
      then some (ok true, offset, w)
      else end_round aborted n size (offset + n) w' more

  -- The do loop. `none` as a whole is a loop out of fuel.
  unfoldable pub progress_loop : ℕ → Op → Socket → ℕ → ℕ → W → Option Progress
  progress_loop zero op s size offset w = none
  progress_loop (suc fuel) op s size offset w =
      after_transfer op s size offset (progress_loop fuel op s size)
        (sys.transfer op (size - offset) w)

  -- socketProgressOpt: an iteration that goes on has moved a byte.
  unfoldable pub progress_opt : Op → Socket → ℕ → ℕ → W → Option Progress
  progress_opt op s size offset w = progress_loop (suc (size - offset)) op s size offset w

  -- socketProgress.
  unfoldable pub progress : Op → Socket → ℕ → ℕ → W → Option (NcclResult × ℕ × W)
  progress op s size offset w = elim (progress_opt op s size offset w) [
    | none ↦ none
    | some (err e, offset', w') ↦ some (e, offset', w')
    | some (ok true, offset', w') ↦ some (remote_error, offset', w')
    | some (ok false, offset', w') ↦ some (success, offset', w')
  ]

  -- socketStartConnect and socketPollConnect.
  unfoldable pub start_connect : Socket → W → (NcclResult × Socket) × W
  start_connect s w = let (answer, w') = sys.connect w in (started answer s, w')

  unfoldable pub after_poll : Socket → Polled × W → (NcclResult × Socket) × W
  after_poll s (idle, w) = ((success, s), w)
  after_poll s (poll_failed, w) = ((remote_error, s), w)
  after_poll s (no_pollout, w) = ((system_error, s), w)
  after_poll s (pollout, w) = let (so, w') = sys.so_error w in (checked so s, w')

  unfoldable pub poll_connect : Socket → W → (NcclResult × Socket) × W
  poll_connect s w = after_poll s (sys.poll w)

-- ncclSocketGetAddr: the result and the address.
unfoldable pub get_addr : Option Socket → Result (Option (Family × ℕ))
get_addr none = err invalid_argument
get_addr (some s) = elim s.state [ ready ↦ ok s.addr | _ ↦ err internal_error ]

-- ncclSocketGetFd and ncclSocketSetFd.
unfoldable pub get_fd : Option Socket → Result ℤ
get_fd none = err invalid_argument
get_fd (some s) = ok s.fd

unfoldable pub set_fd : ℤ → Option Socket → NcclResult × Option Socket
set_fd fd none = (invalid_argument, none)
set_fd fd (some s) = (success, some (record s { fd = fd }))

-- ncclSocketClose: the descriptor that is shut down and closed, if there is one, and the socket.
unfoldable pub close : Option Socket → Option ℤ × Option Socket
close none = (none, none)
close (some s) = (
  elim s.fd [ pos n ↦ some (pos n) | negsuc n ↦ none ],
  some (record s { state = closed; fd = negsuc 0 }),
)
