-- ===== src/Ib/Request.antt =====
-- struct ncclIbRequest, its table in a comm, and ncclIbGetRequest, ncclIbFreeRequest and
-- ncclIbAddEvent of src/unet/unet_ib.cc.
pub mod Alloc
use nccl_exts.Prelude.{
  ℕ, zero, suc, ◌+◌, ◌*◌, ◌/◌, ◌%◌, ◌^◌, Bool, true, false, List, [], ◌∷◌, Option, none, some,
  get_or, set, if◌then◌else◌,
}
use nccl_exts.Prelude.Int.{ℤ, pos}
use nccl_exts.Prelude.Words.{inc32}

-- NCCL_NET_IB_MAX_RECVS, NCCL_NET_MAX_REQUESTS * NCCL_NET_IB_MAX_RECVS, NCCL_IB_MAX_DEVS_PER_NIC.
abbrev pub max_recvs : ℕ
max_recvs = 8

abbrev pub max_requests : ℕ
max_requests = 256

abbrev pub max_devs_per_nic : ℕ
max_devs_per_nic = 2

-- The NCCL_NET_IB_REQ_* numbers.
pub data ReqType : Type 0 where
  unused send recv flush : ReqType

-- A pointer into the comm is an index: `dev_bases` into its devices, `recv_slot` is the row of
-- sizesFifo that `recv.sizes` points to. `base` and `sock` always point to the comm that holds the
-- request, and the union's members are separate fields, since `type` says which one is live.
-- The two `events` counters are bit patterns of an `int`.
pub record Request : Type 0 where
  pub type : ReqType
  pub peer_rank : ℤ
  pub events : List ℕ
  pub dev_bases : List (Option ℕ)
  pub nreqs : ℕ
  pub send_size : ℕ
  pub send_data : ℕ
  pub send_lkeys : List ℕ
  pub send_offset : ℕ
  pub recv_slot : ℕ

-- What calloc leaves in an entry of the table.
abbrev pub blank : Request
blank = record {
  type = unused;
  peer_rank = pos 0;
  events = 0 ∷ 0 ∷ [];
  dev_bases = none ∷ none ∷ [];
  nreqs = 0;
  send_size = 0;
  send_data = 0;
  send_lkeys = 0 ∷ 0 ∷ [];
  send_offset = 0;
  recv_slot = 0;
}

abbrev pub is_unused : ReqType → Bool
is_unused unused = true
is_unused _ = false

-- The loop of ncclIbGetRequest: the first unused entry.
unfoldable pub find_unused : List Request → Option ℕ
find_unused [] = none
find_unused (r ∷ rs) =
    if is_unused r.type
    then some 0
    else elim (find_unused rs) [ none ↦ none | some i ↦ some (suc i) ]

abbrev pub reset_request : Request → Request
reset_request r = record r { events = 0 ∷ 0 ∷ []; dev_bases = none ∷ none ∷ [] }

-- `none` is ncclInternalError with `*req = NULL`. The entry's type is set by the caller.
unfoldable pub get_request : List Request → Option (ℕ × List Request)
get_request reqs = elim (find_unused reqs) [
  | none ↦ none
  | some i ↦ some (i, set reqs i (reset_request (get_or reqs i blank)))
]

unfoldable pub free_request : Request → Request
free_request r = record r { type = unused }

unfoldable pub add_event : ℕ → Request → Request
add_event dev r = record r {
  events = set r.events dev (inc32 (get_or r.events dev 0));
  dev_bases = set r.dev_bases dev (some dev);
}

-- `(wc->wr_id >> (j*8)) & 0xff`: the id of the j-th request that a work request stands for.
unfoldable pub id_at : ℕ → ℕ → ℕ
id_at wr_id j = wr_id / 2 ^ (j * 8) % 256
