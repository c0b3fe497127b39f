-- ===== src/Ib/Async.antt =====
-- The thread for the asynchronous events of a device in src/unet/unet_ib.cc: ncclIbAsyncThreadMain
-- and the ncclIbStats that it counts in.
pub mod Tally
mod Tests
use nccl_exts.Prelude.{
  ℕ, suc, ◌+◌, ◌%◌, ◌^◌, ◌<◌, ◌≡◌, refl, Bool, true, false, not, ◌&&◌, List, [], ◌∷◌, ◌==◌,
  if◌then◌else◌, arith, get_or, set, length, Bool-cases, inl, inr, get_or-set_self, get_or-set_ne,
  length-set, ==_iff, sym, ap,
}
use nccl_exts.Prelude.Words.{inc32}

-- enum ibv_event_type, as far as the thread tells the values apart. The stats that the context of a
-- queue or a queue pair points to are those of a comm, by its number.
pub data EventType : Type 0 where
  device_fatal srq_err not_fatal : EventType
  cq_err qp_fatal qp_req_err qp_access_err : ℕ → EventType

-- An event with the success of wrap_ibv_event_type_str and wrap_ibv_ack_async_event.
pub record Event : Type 0 where
  pub type : EventType
  pub has_text : Bool
  pub acked : Bool

-- fatalErrorCount of the device and of the comms.
pub record FatalCounts : Type 0 where
  pub dev : ℕ
  pub comms : List ℕ

-- ncclIbStatsFatalError on a comm's stats.
abbrev pub count_comm : ℕ → FatalCounts → FatalCounts
count_comm c s = record s { comms = set s.comms c (inc32 (get_or s.comms c 0)) }

-- The switch on the type of an event.
unfoldable pub handle_event : EventType → FatalCounts → FatalCounts
handle_event device_fatal s = record s { dev = inc32 s.dev }
handle_event (cq_err c) s = count_comm c s
handle_event (qp_fatal c) s = count_comm c s
handle_event (qp_req_err c) s = count_comm c s
handle_event (qp_access_err c) s = count_comm c s
handle_event srq_err s = s
handle_event not_fatal s = s

-- The loop on the events that wrap_ibv_get_async_event gives until it fails.
unfoldable pub async_thread_main : List Event → FatalCounts → FatalCounts
async_thread_main [] s = s
async_thread_main (e ∷ events) s =
    let handled = handle_event e.type s in
    let rest = async_thread_main events handled in
    if not e.has_text then s else if e.acked then rest else handled
