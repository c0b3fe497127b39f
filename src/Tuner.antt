-- ===== src/Tuner.antt =====
-- The tuner plugin of src/utuner/plugin.c.
pub mod Configs
pub mod Nearest
pub mod Plugin
pub mod Tables
mod Tests
use nccl_exts.Prelude.{
  ℕ, zero, suc, ◌+◌, ◌-◌, ◌*◌, ◌/◌, ◌^◌, min, Bool, ◌&&◌, List, [], ◌∷◌, Option, none, some, ltb,
  ◌==◌, if◌then◌else◌, get_or, length,
}
use nccl_exts.Prelude.Int.{ℤ, pos, negsuc}
use nccl_exts.Tuner.Configs.{
  AlgoProto, TunerConfig, undef, allreduce_tuner_cfgs, reducescatter_tuner_cfgs,
  allgather_tuner_cfgs,
}

pub data Func : Type 0 where
  broadcast reduce all_gather reduce_scatter all_reduce send_recv send recv : Func

-- The row of the allreduce table for `n_ranks` and `n_nodes`, the `i`-th on being looked at.
unfoldable pub find_config : ℕ → ℕ → ℕ → List TunerConfig → ℤ
find_config i n_ranks n_nodes [] = negsuc 0
find_config i n_ranks n_nodes (c ∷ cs) =
    if c.nranks == n_ranks && c.nnodes == n_nodes
    then pos i
    else find_config (suc i) n_ranks n_nodes cs

unfoldable pub get_tuner_cfg_index : ℕ → ℕ → ℤ
get_tuner_cfg_index n_ranks n_nodes = find_config 0 n_ranks n_nodes allreduce_tuner_cfgs

-- `while (i < choice_num - 1 && ap_choices[i].nbytes < nBytes) i++`.
unfoldable pub skip_smaller : ℕ → List AlgoProto → ℕ
skip_smaller n [] = 0
skip_smaller n (c ∷ []) = 0
skip_smaller n (c ∷ d ∷ cs) =
    let rest = skip_smaller n (d ∷ cs) in if ltb c.nbytes n then suc rest else 0

abbrev pub no_choice : AlgoProto
no_choice = record { algo = undef; proto = undef; nbytes = 0 }

-- `ap_choices[i].nbytes`.
abbrev pub nbytes_at : List AlgoProto → ℕ → ℕ
nbytes_at cs i = (get_or cs i no_choice).nbytes

-- The index that get_algo_proto settles on, and `none` where it returns before.
unfoldable pub choose : ℕ → List AlgoProto → Option ℕ
choose n [] = none
choose n (c ∷ cs) =
    let i = skip_smaller n (c ∷ cs) in
    let last = nbytes_at (c ∷ cs) (length cs) in
    if i == 0 && ltb n (c.nbytes * 3 / 4)
    then none
    else if i == length cs && ltb (last + min (last / 2) (2 ^ 28)) n
    then none
    else if ltb 0 i && ltb n ((nbytes_at (c ∷ cs) (i - 1) + nbytes_at (c ∷ cs) i) / 2)
    then some (i - 1)
    else some i

-- `&..._tuner_cfgs[cfgIndex]` by collective.
unfoldable pub table_of : Func → Option (List TunerConfig)
table_of all_reduce = some allreduce_tuner_cfgs
table_of all_gather = some allgather_tuner_cfgs
table_of reduce_scatter = some reducescatter_tuner_cfgs
table_of _ = none

-- The choices of row `i`, none where the code returns before it has a row.
unfoldable pub choices_at : ℤ → Option (List TunerConfig) → List AlgoProto
choices_at (negsuc i) table = []
choices_at (pos i) none = []
choices_at (pos i) (some table) =
    (get_or table i (record { nranks = 0; nnodes = 0; ap_choices = [] })).ap_choices

-- `*algo` and `*proto`. An index of kTunerCfgNum or more has no row.
unfoldable pub get_algo_proto : ℤ → Func → ℕ → ℤ × ℤ
get_algo_proto cfg_index coll_type n =
    let choices = choices_at cfg_index (table_of coll_type) in
    elim (choose n choices) [
      | none ↦ (undef, undef)
      | some i ↦ ((get_or choices i no_choice).algo, (get_or choices i no_choice).proto)
    ]
