-- ===== src/Ib/Accept/Tests.antt =====
-- A run of the set-up of a receive comm at a concrete input.
use nccl_exts.Prelude.{arith, refl, true, [], ◌∷◌, some, none}
use nccl_exts.Prelude.Int.{pos}
use nccl_exts.Prelude.Nccl.{success, ok}
use nccl_exts.Ib.Connect.Samples.{params, host, two_devs, merged, fresh, far_side}
use nccl_exts.Ib.Accept.{FlushHost}
use nccl_exts.Ib.Stage.{Stage, start}
use nccl_exts.Ib.Accept.Stages.{Call, accept_call}
use nccl_exts.Ib.Accept.Stages.Handing.{Among, Leaves, begun, accept_call-Leaves}

abbrev flush : FlushHost
flush = record {
  reg_mr = λ i. some i;
  create_qp = λ i. some i;
  modify_init = λ _. true;
  modify_rtr = λ _. true;
  modify_rts = λ _. true;
}

-- A call that gets through all stages at once.
abbrev call : Call
call = record {
  fresh = λ _. fresh;
  socket_init = success;
  socket_accept = success;
  ready = ok true;
  recv_meta = λ o. ok 64;
  send_meta = λ o. ok 64;
  recv_ready = λ o. ok 4;
  peer = far_side;
  flag = 1;
  host = host;
  flush = flush;
  supported = true;
}

abbrev first : Stage
first = record { state = start; offset = 0; buffer = none; conn = fresh }

accept_call-Leaves_example :
    Leaves params two_devs merged
      (pos 0)
      4096
      64
      (Among (call ∷ []))
      call
      (accept_call params two_devs merged (pos 0) 4096 64 call first)
accept_call-Leaves_example =
    accept_call-Leaves params two_devs merged (pos 0) 4096 64 [] call first (omega arith)
      (omega arith) (omega arith) (omega arith) (omega arith)
      (record { no_qps = refl; no_states = refl; reqs_length = refl; qp_index = refl })
      (begun first refl)
