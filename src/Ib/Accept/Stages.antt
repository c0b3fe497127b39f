-- ===== src/Ib/Accept/Stages.antt =====
-- The stages of ncclIbAccept of src/unet/unet_ib.cc: each call goes on where the last one stopped, as
-- far as the socket lets it.
pub mod Handing
use nccl_exts.Prelude.{ℕ, Bool, true, false, List, ltb, ◌==◌, if◌then◌else◌, Option, none, some}
use nccl_exts.Prelude.Int.{ℤ}
use nccl_exts.Prelude.Nccl.{
  NcclResult, Result, ok, err, internal_error, Action, ◌>>=◌, ◌>>◌, pure, modify, nccl_check,
  from_result,
}
use nccl_exts.Ib.Device.{Dev, Merged}
use nccl_exts.Ib.Meta.{Metadata, ConnParams}
use nccl_exts.Ib.Connect.{ConnHost, Conn}
use nccl_exts.Ib.Stage.{
  CommState, start, connect, accept, send, recv, connecting, connected, pending_ready, Stage, Reply,
  pending, handed, refused, set_stage, lift, move,
}
use nccl_exts.Ib.Accept.{FlushHost, accept_setup}

-- What the socket and the verbs library answer in one call: the transfers of the metadata and of the
-- ready flag give the new offset, `peer` is what the buffer holds when all of it has come, and `flag`
-- the sender's ready flag. `supported` says whether ncclIbGdrSupport or ncclIbDmaBufSupport succeeds.
pub record Call : Type 0 where
  pub fresh : Conn → Conn
  pub socket_init : NcclResult
  pub socket_accept : NcclResult
  pub ready : Result Bool
  pub recv_meta : ℕ → Result ℕ
  pub send_meta : ℕ → Result ℕ
  pub recv_ready : ℕ → Result ℕ
  pub peer : Metadata
  pub flag : ℕ
  pub host : ConnHost
  pub flush : FlushHost
  pub supported : Bool

-- The ready flag of the other side has come.
abbrev pub set_ready : ℕ → Stage → Stage
set_ready r s = record s { conn = record s.conn { base = record s.conn.base { ready = r } } }

module _ (p : ConnParams) (devs : List Dev) (m : Merged) (rank : ℤ) (addr size : ℕ) where
  -- ib_recv_ready; an int has 4 bytes.
  unfoldable pub recv_ready : Call → Action Stage Reply
  recv_ready c = move c.recv_ready >>= λ o.
      if o == 4 then (modify (set_ready c.flag) >> pure handed) else pure pending

  -- ib_send.
  unfoldable pub send_on : Call → Action Stage Reply
  send_on c = move c.send_meta >>= λ o.
      if ltb o size then pure pending else (modify (set_stage pending_ready) >> recv_ready c)

  -- The sender's metadata have come: the set-up, and the answer in the buffer.
  unfoldable pub answer : Call → Action Stage Reply
  answer c = lift (accept_setup p devs c.host c.flush m c.supported rank addr c.peer) >>= λ meta.
      modify (λ s. record s { state = send; offset = 0; buffer = some meta }) >> send_on c

  -- ib_recv.
  unfoldable pub receive : Call → Action Stage Reply
  receive c = move c.recv_meta >>= λ o. if o == size then answer c else pure pending

  -- ib_accept_check.
  unfoldable pub check : Call → Action Stage Reply
  check c = from_result c.ready >>= λ ready.
      if ready then (modify (set_stage recv) >> receive c) else pure pending

  -- A call for a new comm.
  unfoldable pub begin : Call → Action Stage Reply
  begin c =
      modify (λ s. record s { state = accept; conn = c.fresh s.conn })
      >> (nccl_check c.socket_init >> (nccl_check c.socket_accept >> check c))

  -- The label that the state leads to.
  unfoldable pub resume : CommState → Call → Action Stage Reply
  resume start c = begin c
  resume accept c = check c
  resume recv c = receive c
  resume send c = send_on c
  resume pending_ready c = recv_ready c
  resume _ c = pure refused

  -- What `exit` leaves of the stage.
  abbrev pub reset : Stage → Stage
  reset s = record s { state = start; offset = 0; buffer = none }

  -- The end of the call: `exit` and `fail` put the stage back to the start.
  unfoldable pub leave : Result Reply × Stage → Result Bool × Stage
  leave (ok pending, s) = (ok false, s)
  leave (ok handed, s) = (ok true, reset s)
  leave (ok refused, s) = (err internal_error, s)
  leave (err e, s) = (err e, reset s)

  -- ncclIbAccept: whether *recvComm is set.
  unfoldable pub accept_call : Call → Action Stage Bool
  accept_call c s = leave (resume s.state c s)
