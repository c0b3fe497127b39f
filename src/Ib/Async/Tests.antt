-- ===== src/Ib/Async/Tests.antt =====
-- A run of the thread for asynchronous events at a concrete input.
use nccl_exts.Prelude.{List, [], ◌∷◌, true, false}
use nccl_exts.Ib.Async.{
  Event, FatalCounts, device_fatal, not_fatal, cq_err, qp_fatal, async_thread_main,
}
use nccl_exts.Ib.Async.Tally.{IsTallied, reached, async_thread_main-IsTallied}

abbrev events : List Event
events =
    record { type = device_fatal; has_text = true; acked = true }
    ∷ record { type = qp_fatal 1; has_text = true; acked = true }
    ∷ record { type = not_fatal; has_text = true; acked = true }
    ∷ record { type = cq_err 1; has_text = true; acked = false }
    ∷ record { type = device_fatal; has_text = true; acked = true }
    ∷ []

abbrev none_yet : FatalCounts
none_yet = record { dev = 0; comms = 0 ∷ 0 ∷ [] }

async_thread_main-IsTallied_example :
    IsTallied (reached events) none_yet (async_thread_main events none_yet)
async_thread_main-IsTallied_example = async_thread_main-IsTallied events none_yet
