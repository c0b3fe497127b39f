-- ===== src/Ib/Stage/Tests.antt =====
-- A call of ncclIbConnect at a concrete input.
use nccl_exts.Prelude.{refl, arith, true, [], none}
use nccl_exts.Prelude.Int.{pos}
use nccl_exts.Prelude.Nccl.{success, ok}
use nccl_exts.Ib.Connect.Samples.{params, host, two_devs, merged, fresh, far_side}
use nccl_exts.Ib.Stage.{Stage, Call, start, connect_call}
use nccl_exts.Ib.Stage.Handing.{Hands, begun, connect_call-IsReady}

abbrev call : Call
call = record {
  fresh = λ _. fresh;
  socket_init = success;
  socket_connect = success;
  ready = ok true;
  send_meta = λ o. ok 64;
  recv_meta = λ o. ok 64;
  send_ready = λ o. ok 4;
  peer = far_side;
  host = host;
}

abbrev first : Stage
first = record { state = start; offset = 0; buffer = none; conn = fresh }

connect_call-IsReady_example :
    Hands params two_devs 0 merged
      (pos 0)
      4096
      64
      []
      call
      (connect_call params two_devs 0 merged (pos 0) 4096 64 call first)
connect_call-IsReady_example =
    connect_call-IsReady params two_devs 0 merged (pos 0) 4096 64 [] call first (omega arith)
      (omega arith) (omega arith) (omega arith) (omega arith)
      (record { no_qps = refl; no_states = refl; reqs_length = refl; qp_index = refl })
      (begun first refl)
