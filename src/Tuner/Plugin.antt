-- ===== src/Tuner/Plugin.antt =====
-- The plugin's entry points, versions 1, 2 and 3, of src/utuner/plugin.c.
pub mod Updates
pub mod Clusters
use nccl_exts.Prelude.{
  ℕ, suc, ◌+◌, ◌%◌, ◌^◌, Bool, true, false, not, ◌&&◌, ◌||◌, List, [], ◌∷◌, Option, none, some, ltb,
  ◌==◌, if◌then◌else◌, get_or, set,
}
use nccl_exts.Prelude.Int.{ℤ, pos, negsuc}
use nccl_exts.Prelude.Nccl.{NcclResult, success, invalid_argument}
use nccl_exts.Tuner.Configs.{num_algorithms, num_protocols}
use nccl_exts.Tuner.{Func, get_tuner_cfg_index, get_algo_proto}

-- The costs by algorithm and protocol, as the bit patterns of their `float`s.
abbrev pub CostTable : Type 0
CostTable = List (List ℕ)

abbrev pub cost_at : CostTable → ℕ → ℕ → ℕ
cost_at t a p = get_or (get_or t a []) p 0

-- NCCL_ALGO_PROTO_IGNORE, the `float` -1.0.
abbrev pub ignore : ℕ
ignore = 0xbf80_0000

-- `*collCostTable == NULL`: the table is a two-dimensional array of `float`s, so that the first two
-- are read as a pointer.
abbrev pub reads_as_null : CostTable → Bool
reads_as_null t = cost_at t 0 0 == 0 && cost_at t 0 1 == 0

-- `NCCL_ALGO_UNDEF < algo && algo < NCCL_NUM_ALGORITHMS`.
abbrev pub index_below : ℕ → ℤ → Option ℕ
index_below bound (negsuc i) = none
index_below bound (pos i) = if ltb i bound then some i else none

-- What is done to the table for the answer of get_algo_proto.
unfoldable pub prefer : ℤ × ℤ → CostTable → CostTable
prefer (algo, proto) t = elim (index_below num_algorithms algo) [
  | none ↦ t
  | some a ↦ elim (index_below num_protocols proto) [
    | none ↦ t
    | some p ↦ if not (cost_at t a p == ignore) then set t a (set (get_or t a []) p 0) else t
  ]
]

-- A null context and a null table are `none`.
unfoldable pub get_coll_info_v3 :
    Option ℤ → Func → ℕ → Option CostTable → NcclResult × Option CostTable
get_coll_info_v3 none coll_type n table = (invalid_argument, table)
get_coll_info_v3 (some context) coll_type n none = (invalid_argument, none)
get_coll_info_v3 (some context) coll_type n (some t) =
    if reads_as_null t
    then (invalid_argument, some t)
    else (success, some (prefer (get_algo_proto context coll_type n) t))

-- The context that pluginInit_v2 makes.
unfoldable pub init_v2 : ℕ → ℕ → NcclResult × ℤ
init_v2 n_ranks n_nodes = (success, get_tuner_cfg_index n_ranks n_nodes)

-- `*algorithm` and `*protocol`.
unfoldable pub get_coll_info_v2 : ℤ → Func → ℕ → NcclResult × (ℤ × ℤ)
get_coll_info_v2 context coll_type n = (success, get_algo_proto context coll_type n)

-- The statics of version 1. `n` is an `int`.
pub record StateV1 : Type 0 where
  pub n : ℕ
  pub nranks : ℕ
  pub nnodes : ℕ
  pub tuner_cfg_index : ℤ

abbrev pub initial_v1 : StateV1
initial_v1 = record { n = 0; nranks = 0; nnodes = 0; tuner_cfg_index = negsuc 0 }

unfoldable pub init_v1 : ℕ → ℕ → StateV1 → StateV1
init_v1 n_ranks n_nodes s =
    let next = (s.n + 1) % 2 ^ 32 in
    if s.n == 0
    then record {
      n = next;
      nranks = n_ranks;
      nnodes = n_nodes;
      tuner_cfg_index = get_tuner_cfg_index n_ranks n_nodes;
    }
    else if not (s.nranks == n_ranks && s.nnodes == n_nodes)
    then record s { n = next; tuner_cfg_index = negsuc 0 }
    else record s { n = next }

unfoldable pub get_coll_info_v1 : StateV1 → Func → ℕ → NcclResult × (ℤ × ℤ)
get_coll_info_v1 s coll_type n = (success, get_algo_proto s.tuner_cfg_index coll_type n)
