-- ===== src/Tuner/Tests.antt =====
-- Runs of the model of src/utuner/plugin.c at concrete inputs.
use nccl_exts.Prelude.{◌≡◌, ◌↔◌, refl, [], ◌∷◌, none, some, arith}
use nccl_exts.Prelude.Int.{pos, negsuc}
use nccl_exts.Tuner.Configs.{
  AlgoProto, allreduce_tuner_cfgs, allgather_tuner_cfgs, reducescatter_tuner_cfgs,
}
use nccl_exts.Tuner.{all_reduce, choose, table_of, choices_at, get_tuner_cfg_index, find_config}
use nccl_exts.Tuner.Nearest.{IsNearest, IsOutside, choose-none_iff}
use nccl_exts.Tuner.Tables.{IsRowFor, choices_at-IsNearest, get_tuner_cfg_index-IsRowFor}
use nccl_exts.Tuner.Plugin.{initial_v1, CostTable, get_coll_info_v3}
use nccl_exts.Tuner.Plugin.Updates.{Answers, get_coll_info_v3-Answers}
use nccl_exts.Tuner.Plugin.Clusters.{init_all, init_v1_lem}

choices_at-IsNearest_example :
    IsNearest 5000000
      (choices_at (pos 1) (table_of all_reduce))
      (choose 5000000 (choices_at (pos 1) (table_of all_reduce)))
choices_at-IsNearest_example = choices_at-IsNearest (pos 1) all_reduce 5000000

abbrev small : AlgoProto
small = record { algo = pos 0; proto = pos 1; nbytes = 1000 }

abbrev large : AlgoProto
large = record { algo = pos 1; proto = pos 2; nbytes = 4000 }

choose-none_iff_example :
    (choose 700 (small ∷ large ∷ []) ≡ none) ↔ IsOutside 700 small (large ∷ [])
choose-none_iff_example = choose-none_iff 700 small (large ∷ []) (omega arith, tt)

get_tuner_cfg_index-IsRowFor_example :
    IsRowFor 32 4 1 allreduce_tuner_cfgs
    × IsRowFor 32 4 1 allgather_tuner_cfgs
    × IsRowFor 32 4 1 reducescatter_tuner_cfgs
unfolding get_tuner_cfg_index find_config
get_tuner_cfg_index-IsRowFor_example = get_tuner_cfg_index-IsRowFor 32 4 1 refl

abbrev costs : CostTable
costs = (1 ∷ 2 ∷ 3 ∷ []) ∷ (4 ∷ 5 ∷ 6 ∷ []) ∷ []

get_coll_info_v3-Answers_example :
    Answers
      (some (pos 1))
      all_reduce
      2000000
      (some costs)
      (get_coll_info_v3 (some (pos 1)) all_reduce 2000000 (some costs))
get_coll_info_v3-Answers_example =
    get_coll_info_v3-Answers (some (pos 1)) all_reduce 2000000 (some costs)

init_v1_lem_example :
    (init_all ((16, 2) ∷ (16, 2) ∷ (32, 4) ∷ []) initial_v1).tuner_cfg_index ≡ negsuc 0
init_v1_lem_example = init_v1_lem 16 2 ((16, 2) ∷ (32, 4) ∷ []) (omega arith)
