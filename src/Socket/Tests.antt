-- ===== src/Socket/Tests.antt =====
-- Runs of the model of src/unet/socket.cc at concrete inputs.
use nccl_exts.Prelude.{ℕ, ◌+◌, refl, true, false, none, some, arith, min}
use nccl_exts.Prelude.Int.{pos, negsuc}
use nccl_exts.Socket.{
  Socket, System, recv, Bytes, moved, Transfers, connecting, econnrefused, idle, progress_opt,
  start_connect,
}
use nccl_exts.Socket.Handshake.{Peer, no_client, finalize_accept}
use nccl_exts.Socket.Handshake.Magic.{Handshake, finalize_accept-Handshake}
use nccl_exts.Socket.Transfer.{Accounts, progress_opt-Accounts}
use nccl_exts.Socket.Retries.{Tried, is_counted, start_connect-Tried}

-- A connection that passes on up to 3 bytes with each call, and counts them. Nobody listens at the
-- other end's address, and there is no event on the socket.
abbrev pass : ℕ → ℕ → Bytes × ℕ
pass len w = (moved (min len 3), w + min len 3)

pass-Transfers : (len w : ℕ) → Transfers (λ (x : ℕ). x) len w (pass len w)
pass-Transfers len w = (omega arith, refl)

abbrev three_bytes : System ℕ
three_bytes = record {
  transfer = λ op len w. pass len w;
  connect = λ w. (some econnrefused, w);
  poll = λ w. (idle, w);
  so_error = λ w. (none, w);
  is_aborted = λ w. (false, w);
  stream = λ w. w;
  transfer_law = λ op len w. pass-Transfers len w;
  abort_law = λ w. refl;
}

abbrev socket : Socket
socket = record {
  fd = pos 5;
  accept_fd = negsuc 0;
  timed_out_retries = 2;
  refused_retries = 19998;
  addr = none;
  abort_flag = true;
  async_flag = false;
  state = connecting;
  magic = 1;
  type = 4;
}

progress_opt-Accounts_example :
    Accounts three_bytes 8 1 10 (progress_opt three_bytes recv socket 8 1 10)
progress_opt-Accounts_example = progress_opt-Accounts three_bytes recv socket 8 1 10 (omega arith)

start_connect-Tried_example :
    Tried socket (is_counted (three_bytes.connect 0).0) (start_connect three_bytes socket 0).0
start_connect-Tried_example =
    start_connect-Tried three_bytes socket 0 refl (omega arith, omega arith)

-- The bytes of any message say 7.
abbrev sevens : Peer ℕ
sevens = record {
  no_delay = λ w. (true, w);
  accept = λ w. (no_client, w);
  magic = λ w. 7;
  type = λ w. 7;
}

finalize_accept-Handshake_example :
    Handshake three_bytes sevens 100 socket 0 (finalize_accept three_bytes sevens 100 (socket, 0))
finalize_accept-Handshake_example = finalize_accept-Handshake three_bytes sevens 100 socket 0
