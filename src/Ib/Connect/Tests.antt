-- ===== src/Ib/Connect/Tests.antt =====
-- A run of the set-up of a send comm at a concrete input.
use nccl_exts.Prelude.{◌≡◌, refl, arith}
use nccl_exts.Prelude.Int.{pos}
use nccl_exts.Prelude.Nccl.{Ends}
use nccl_exts.Ib.Meta.{Metadata}
use nccl_exts.Ib.Connect.{connect_setup, connect_finish}
use nccl_exts.Ib.Connect.Samples.{params, host, two_devs, merged, fresh, far_side}
use nccl_exts.Ib.Connect.Joining.{IsEstablished, connect-IsEstablished}

connect-IsEstablished_example :
    Ends
      (λ (mine : Metadata) t.
        Ends
          (λ _ u. (u.base.ready ≡ 1) × IsEstablished params two_devs host far_side u)
          (λ _ _. Unit {0})
          (connect_finish params two_devs host far_side t))
      (λ _ _. Unit {0})
      (connect_setup params two_devs host 0 merged (pos 0) 4096 fresh)
connect-IsEstablished_example =
    connect-IsEstablished params two_devs host 0 merged (pos 0) 4096 far_side fresh (omega arith)
      (omega arith) (omega arith) (omega arith) (omega arith)
      (record { no_qps = refl; no_states = refl; reqs_length = refl; qp_index = refl })
