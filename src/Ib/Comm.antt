-- ===== src/Ib/Comm.antt =====
-- The comm objects of src/unet/unet_ib.cc: queue pairs, fifo elements, and what a send comm and a
-- receive comm share. Arrays are lists, and a pointer into an array is an index.
use nccl_exts.Prelude.{
  ℕ, suc, ◌<◌, ◌≡◌, if◌then◌else◌, Bool, not, ◌&&◌, ◌==◌, List, [], ◌∷◌, Option, none, some, get_or,
  set, length, All,
}
use nccl_exts.Prelude.Int.{ℤ, pos}
use nccl_exts.Ib.Request.{Request, blank, max_requests, max_devs_per_nic}
use nccl_exts.Ib.Verbs.{Post}
use nccl_exts.Ucommd.Stat.{Stat, Memory}
use nccl_exts.Ucommd.Stat

-- struct ncclIbQp: the verbs queue pair, the local device and the peer's device.
pub record Qp : Type 0 where
  pub qp : ℕ
  pub dev_index : ℕ
  pub rem_dev_idx : ℕ

abbrev pub blank_qp : Qp
blank_qp = record { qp = 0; dev_index = 0; rem_dev_idx = 0 }

-- struct ncclIbSendFifo. `size` is an `int` that the sender checks for a negative value.
pub record SendFifo : Type 0 where
  pub addr : ℕ
  pub size : ℤ
  pub rkeys : List ℕ
  pub nreqs : ℕ
  pub tag : ℕ
  pub idx : ℕ

-- What memset leaves in an element.
abbrev pub blank_fifo : SendFifo
blank_fifo = record { addr = 0; size = pos 0; rkeys = 0 ∷ 0 ∷ []; nreqs = 0; tag = 0; idx = 0 }

-- struct ncclIbNetCommBase without its socket: `posted` is not a field of the source, it is what the
-- comm has handed to ibv_post_send so far, newest first, and `recvs` the queue pairs of its
-- ibv_post_recv calls with their wr_id.
pub record Base : Type 0 where
  pub ndevs : ℕ
  pub reqs : List Request
  pub qps : List Qp
  pub nqps : ℕ
  pub qp_index : ℕ
  pub dev_index : ℕ
  pub ready : ℕ
  pub fatal_errors : ℕ
  pub posted : List Post
  pub recvs : List (ℕ × ℕ)

-- `ib_stat_`, a null pointer until the statistics are set up: the counters behind it.
abbrev pub IbStat : Type 0
IbStat = Option (Stat × Memory)

-- The UNET_IB_* numbers of src/ucommd/ucommd.h.
abbrev pub ib_cq_count : ℕ
ib_cq_count = 2

abbrev pub ib_qp_count : ℕ
ib_qp_count = 3

abbrev pub ib_mr_count : ℕ
ib_mr_count = 4

abbrev pub ib_cpl_count : ℕ
ib_cpl_count = 5

abbrev pub ib_cpl_err_count : ℕ
ib_cpl_err_count = 6

abbrev pub ib_fifo_post_count : ℕ
ib_fifo_post_count = 7

abbrev pub ib_fifo_recv_count : ℕ
ib_fifo_recv_count = 8

abbrev pub ib_tx_bytes : ℕ
ib_tx_bytes = 9

-- `if (ib_stat_) ib_stat_->add(i, val)`.
unfoldable pub stat_add : ℕ → ℕ → IbStat → IbStat
stat_add i val none = none
stat_add i val (some (s, m)) = some (s, Stat.add s i val m)

-- `if (ib_stat_) ib_stat_->dec(i)`.
unfoldable pub stat_dec : ℕ → IbStat → IbStat
stat_dec i none = none
stat_dec i (some (s, m)) = some (s, Stat.dec s i m)

-- NCCL_PARAM values: IB_SPLIT_DATA_ON_QPS (non-zero or not), IB_AR_THRESHOLD, IB_RETURN_ASYNC_EVENTS.
pub record Params : Type 0 where
  pub split_data_on_qps : Bool
  pub ar_threshold : ℤ
  pub async_events : Bool

-- ncclIbStatsCheckFatalCount returns ncclSystemError.
unfoldable pub is_fatal : Params → ℕ → Bool
is_fatal p count = p.async_events && not (count == 0)

-- How many queue pairs one request is spread over.
abbrev pub qps_used : Params → Base → ℕ
qps_used p b = if p.split_data_on_qps then b.nqps else b.ndevs

-- `comm->base.qps + qpIndex`.
abbrev pub qp_at : Base → ℕ → Qp
qp_at b i = get_or b.qps i blank_qp

abbrev pub request_at : Base → ℕ → Request
request_at b i = get_or b.reqs i blank

-- `reqs[i] = f(reqs[i])`.
abbrev pub update_request : ℕ → (Request → Request) → Base → Base
update_request i f b = record b { reqs = set b.reqs i (f (request_at b i)) }

-- What ncclIbConnect and ncclIbAccept set up: 1 or 2 devices, at least one queue pair, queue pairs
-- on the comm's devices, and a full request table.
pub record IsConnected (b : Base) : Type 0 where
  pub has_devices : 0 < b.ndevs
  pub few_devices : b.ndevs < suc max_devs_per_nic
  pub has_qps : 0 < b.nqps
  pub in_range : b.qp_index < b.nqps
  pub qps_length : length b.qps ≡ b.nqps
  pub reqs_length : length b.reqs ≡ max_requests
  pub on_devices : All (λ (q : Qp). q.dev_index < b.ndevs) b.qps
