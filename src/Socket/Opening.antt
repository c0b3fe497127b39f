-- ===== src/Socket/Opening.antt =====
-- How a socket of src/unet/socket.cc is opened and made to listen, and ncclSocketTryRecv.
use nccl_exts.Prelude.{
  ℕ, zero, suc, Bool, true, false, not, ◌&&◌, ◌||◌, Option, none, some, ltb, ◌==◌, if◌then◌else◌,
}
use nccl_exts.Prelude.Int.{pos, negsuc}
use nccl_exts.Prelude.Nccl.{
  NcclResult, Result, ok, err, success, system_error, internal_error, invalid_argument,
}
use nccl_exts.Interfaces.{same_int}
use nccl_exts.Socket.{Socket, System, Family, unspecified, recv, initialized, ready, progress_opt}

-- What the calls on a descriptor answer: the new descriptor, getting and setting its flags, the
-- option for a fixed port, bind, the address of getsockname, and listen.
pub record Descriptors : Type 0 where
  pub open_socket : Family → Option ℕ
  pub get_flags : Bool
  pub set_flags : Bool
  pub reuse : Bool
  pub bind : Bool
  pub bound_addr : Option (Family × ℕ)
  pub listen : Bool
  pub port : ℕ → ℕ

module _ (d : Descriptors) where
  -- socketToPort.
  unfoldable pub socket_to_port : Option (Family × ℕ) → ℕ
  socket_to_port none = 0
  socket_to_port (some (f, a)) = d.port a

  -- What ncclSocketListen does behind its tests of the socket.
  unfoldable pub listen_on : Socket → NcclResult × Socket
  listen_on s =
      if not (socket_to_port s.addr == 0) && not d.reuse
      then (system_error, s)
      else if not d.bind
      then (system_error, s)
      else elim d.bound_addr [
        | none ↦ (system_error, s)
        | some addr ↦
            let bound = record s { addr = some addr } in
            if d.listen then (success, record bound { state = ready }) else (system_error, bound)
      ]

  -- ncclSocketListen.
  unfoldable pub listen : Option Socket → NcclResult × Option Socket
  listen none = (invalid_argument, none)
  listen (some s) =
      let (r, t) = listen_on s in
      if same_int s.fd (negsuc 0) then (invalid_argument, some s) else (r, some t)

  -- `fail`: the descriptor is closed.
  abbrev pub fail_init : NcclResult → Socket → NcclResult × Socket
  fail_init e s = (e, record s { fd = negsuc 0 })

  -- The descriptor does not block when the socket is asynchronous or can be aborted.
  unfoldable pub set_nonblocking : Socket → NcclResult × Socket
  set_nonblocking s =
      let has_fd : Bool = elim s.fd [ pos n ↦ true | negsuc n ↦ false ] in
      if (s.async_flag || s.abort_flag) && (has_fd && not (d.get_flags && d.set_flags))
      then fail_init system_error s
      else (success, s)

  -- The descriptor for an address of the family.
  unfoldable pub open_for : Family → Socket → NcclResult × Socket
  open_for unspecified s = fail_init internal_error s
  open_for f s = elim (d.open_socket f) [
    | none ↦ fail_init system_error s
    | some fd ↦ set_nonblocking (record s { fd = pos fd })
  ]

  -- ncclSocketInit on a socket; a null pointer is left alone with success.
  unfoldable pub init : Option (Family × ℕ) → ℕ → ℕ → Bool → Bool → Socket → NcclResult × Socket
  init addr magic type abort_flag async_flag s =
      let blank = record s {
        timed_out_retries = 0;
        refused_retries = 0;
        abort_flag = abort_flag;
        async_flag = async_flag;
        state = initialized;
        magic = magic;
        type = type;
        fd = negsuc 0;
        accept_fd = negsuc 0;
        addr = addr;
      } in
      elim addr [ none ↦ set_nonblocking blank | some (f, a) ↦ open_for f blank ]

-- ncclSocketTryRecv answers whether the connection was closed, or ncclInProgress.
pub data Received : Type 0 where
  all_received closed_early nothing_yet : Received

module _ {W : Type 0} (sys : System W) where
  -- The loop that waits for the rest; the fuel is used up when the other side sends nothing.
  unfoldable pub receive_rest : ℕ → Socket → ℕ → ℕ → W → Option (Result Received × W)
  receive_rest zero s size offset w = none
  receive_rest (suc fuel) s size offset w =
      let more : Option (Result Received × W) = elim (progress_opt sys recv s size offset w) [
        | none ↦ none
        | some (err e, offset', w') ↦ some (err e, w')
        | some (ok true, offset', w') ↦ some (ok closed_early, w')
        | some (ok false, offset', w') ↦ receive_rest fuel s size offset' w'
      ] in
      if ltb offset size then more else some (ok all_received, w)

  -- ncclSocketTryRecv of `size` bytes.
  unfoldable pub try_recv : ℕ → Socket → ℕ → Bool → W → Option (Result Received × W)
  try_recv fuel s size true w = receive_rest fuel s size 0 w
  try_recv fuel s size false w = elim (progress_opt sys recv s size 0 w) [
    | none ↦ none
    | some (err e, offset, w') ↦ some (err e, w')
    | some (ok true, offset, w') ↦ some (ok closed_early, w')
    | some (ok false, offset, w') ↦
        let rest = receive_rest fuel s size offset w' in
        if ltb 0 offset then rest else some (ok nothing_yet, w')
  ]
