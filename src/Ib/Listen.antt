-- ===== src/Ib/Listen.antt =====
-- ncclIbListen and ncclIbCloseListen of src/unet/unet_ib.cc: the comm that ncclIbAccept takes, and the
-- handle that is sent to the other side.
mod Listening
use nccl_exts.Prelude.{ℕ, Bool, true, false, Option, none, some}
use nccl_exts.Prelude.Int.{ℤ, pos, negsuc}
use nccl_exts.Prelude.Nccl.{NcclResult, Result, ok, err, success}
use nccl_exts.Socket.{Socket, Family, none_yet, get_addr, close}
use nccl_exts.Socket.Opening
use nccl_exts.Socket.Opening.{Descriptors}

-- ncclIbListenComm, without its stage, which is at the start.
pub record ListenComm : Type 0 where
  pub dev : ℕ
  pub sock : Socket

pub record Handle : Type 0 where
  pub connect_addr : Option (Family × ℕ)
  pub magic : ℕ

abbrev pub socket_magic : ℕ
socket_magic = 6217986688804429164

-- ncclSocketTypeNetIb.
abbrev pub type_net_ib : ℕ
type_net_ib = 4

-- A zeroed comm.
abbrev pub zeroed : Socket
zeroed = record {
  fd = pos 0;
  accept_fd = pos 0;
  timed_out_retries = 0;
  refused_retries = 0;
  addr = none;
  abort_flag = false;
  async_flag = false;
  state = none_yet;
  magic = 0;
  type = 0;
}

-- The comm or the error, the handle, and the descriptor that `fail` closes.
abbrev pub Listened : Type 0
Listened = Result ListenComm × (Handle × Option ℤ)

abbrev pub blank_handle : Handle
blank_handle = record { connect_addr = none; magic = socket_magic }

abbrev pub fail : NcclResult → Socket → Listened
fail e s = (err e, (blank_handle, (close (some s)).0))

unfoldable pub take_addr : ℕ → Socket → Result (Option (Family × ℕ)) → Listened
take_addr dev s (err e) = fail e s
take_addr dev s (ok addr) =
    (ok (record { dev = dev; sock = s }), (record blank_handle { connect_addr = addr }, none))

-- From ncclSocketListen on.
unfoldable pub take_listen : ℕ → NcclResult × Socket → Listened
take_listen dev (success, s) = take_addr dev s (get_addr (some s))
take_listen dev (e, s) = fail e s

-- From the socket that ncclSocketInit has made; its descriptor is not -1.
unfoldable pub take_socket : Descriptors → ℕ → NcclResult × Socket → Listened
take_socket d dev (success, s) = take_listen dev (Opening.listen_on d s)
take_socket d dev (e, s) = fail e s

-- ncclIbListen at the address ncclIbIfAddr.
unfoldable pub listen : Descriptors → Family × ℕ → ℕ → Listened
listen d if_addr dev =
    take_socket d dev (Opening.init d (some if_addr) socket_magic type_net_ib false true zeroed)

-- ncclIbCloseListen: the descriptor that is closed.
unfoldable pub close_listen : Option ListenComm → Option ℤ
close_listen none = none
close_listen (some c) = (close (some c.sock)).0
