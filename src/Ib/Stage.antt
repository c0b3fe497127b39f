-- ===== src/Ib/Stage.antt =====
-- The stages of ncclIbConnect of src/unet/unet_ib.cc: each call goes on where the last one stopped,
-- as far as the socket lets it. The set-up of the comm between the stages is in Ib.Connect.
pub mod Steps
pub mod Handing
mod Tests
use nccl_exts.Prelude.{
  ℕ, ◌*◌, Bool, true, false, not, List, take, length, ◌==◌, if◌then◌else◌, Option, none, some,
}
use nccl_exts.Prelude.Int.{ℤ}
use nccl_exts.Prelude.Nccl.{
  NcclResult, Result, ok, err, internal_error, Action, ◌>>=◌, ◌>>◌, pure, fail, gets, modify,
  nccl_check, from_result,
}
use nccl_exts.Ib.Device.{Dev, Merged}
use nccl_exts.Ib.Meta.{Metadata, ConnParams}
use nccl_exts.Ib.Connect.{ConnHost, Conn, same_layer, first_layer, connect_setup, connect_finish}

-- enum ncclIbCommState.
pub data CommState : Type 0 where
  start connect accept send recv connecting connected pending_ready : CommState

-- struct ncclIbCommStage with the comm that it points to. The buffer holds the metadata to send.
pub record Stage : Type 0 where
  pub state : CommState
  pub offset : ℕ
  pub buffer : Option Metadata
  pub conn : Conn

-- What the socket and the verbs library answer in one call: the transfers of the metadata and of the
-- ready flag give the new offset, and `peer` is what the buffer holds when all of it has come.
pub record Call : Type 0 where
  pub fresh : Conn → Conn
  pub socket_init : NcclResult
  pub socket_connect : NcclResult
  pub ready : Result Bool
  pub send_meta : ℕ → Result ℕ
  pub recv_meta : ℕ → Result ℕ
  pub send_ready : ℕ → Result ℕ
  pub peer : Metadata
  pub host : ConnHost

-- How far a call has come: it is to be called again, it hands out the comm, or it returns in the middle
-- because the other side's devices cannot be merged.
pub data Reply : Type 0 where
  pending handed refused : Reply

abbrev pub set_stage : CommState → Stage → Stage
set_stage st s = record s { state = st; offset = 0 }

abbrev pub set_offset : ℕ → Stage → Stage
set_offset o s = record s { offset = o }

-- A step of the comm's set-up.
unfoldable pub lift : {A : Type 0} → Action Conn A → Action Stage A
lift m s = let (r, c) = m s.conn in (r, record s { conn = c })

-- A transfer of ncclSocketProgress: the new offset.
unfoldable pub move : (ℕ → Result ℕ) → Action Stage ℕ
move transfer = gets (λ (s : Stage). s.offset) >>= λ o.
    from_result (transfer o) >>= λ o'. modify (set_offset o') >> pure o'

module _ (p : ConnParams) (devs : List Dev) (dev : ℕ) (m : Merged) (rank : ℤ) (addr size : ℕ) where
  -- ib_send_ready; an int has 4 bytes.
  unfoldable pub send_ready : Call → Action Stage Reply
  send_ready c = move c.send_ready >>= λ o. pure (if o == 4 then handed else pending)

  -- The other side's metadata have come.
  unfoldable pub join : Call → Action Stage Reply
  join c s =
      let known = record s { conn = record s.conn { peer_rank = c.peer.rank } } in
      let joined =
        (lift (connect_finish p devs c.host c.peer) >>= λ done.
        modify (set_stage connected) >> send_ready c)
          known in
      if same_layer p devs c.host (first_layer p devs c.host c.peer) (take c.peer.ndevs c.peer.devs)
      then joined
      else (ok refused, known)

  -- ib_connect.
  unfoldable pub receive : Call → Action Stage Reply
  receive c = move c.recv_meta >>= λ o. if o == size then join c else pure pending

  -- ib_send.
  unfoldable pub send_on : Call → Action Stage Reply
  send_on c = move c.send_meta >>= λ o.
      if o == size then (modify (set_stage connecting) >> receive c) else pure pending

  -- ib_connect_check.
  unfoldable pub check : Call → Action Stage Reply
  check c = from_result c.ready >>= λ ready.
      if ready
      then (lift (connect_setup p devs c.host dev m rank addr) >>= λ meta.
          modify (λ s. record s { state = send; offset = 0; buffer = some meta }) >> send_on c)
      else pure pending

  -- A call for a new comm.
  unfoldable pub begin : Call → Action Stage Reply
  begin c =
      modify (λ s. record s { buffer = none; conn = c.fresh s.conn })
      >> (nccl_check c.socket_init
          >> (modify (λ s. record s { state = connect })
              >> (nccl_check c.socket_connect >> check c)))

  -- The label that the state leads to.
  unfoldable pub resume : CommState → Call → Action Stage Reply
  resume start c = begin c
  resume connect c = check c
  resume send c = send_on c
  resume connecting c = receive c
  resume connected c = send_ready c
  resume _ c = pure refused

  -- The end of the call: `exit` and `fail` put the stage back to the start.
  unfoldable pub leave : Result Reply × Stage → Result Bool × Stage
  leave (ok pending, s) = (ok false, s)
  leave (ok handed, s) = (ok true, record s { state = start })
  leave (ok refused, s) = (err internal_error, s)
  leave (err e, s) = (err e, record s { state = start })

  -- ncclIbConnect: whether *sendComm is set.
  unfoldable pub connect_call : Call → Action Stage Bool
  connect_call c s = leave (resume s.state c s)
