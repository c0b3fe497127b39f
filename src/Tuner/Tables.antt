-- ===== src/Tuner/Tables.antt =====
-- The tables of src/utuner/plugin.c fit the code that reads them.
use mathlib.Core.Path.{subst}
use nccl_exts.Prelude.{
  ℕ, zero, suc, ◌+◌, ◌≡◌, refl, sym, ◌∙◌, ap, Bool, true, ◌&&◌, List, [], ◌∷◌, some, arith, get_or,
  get_elem?, ap₂, ltb, ◌==◌, map, Bool-cases, inl, inr,
}
use nccl_exts.Prelude.Int.{ℤ, pos, negsuc, pos_part}
use nccl_exts.Tuner.Configs.{
  AlgoProto, TunerConfig, allreduce_tuner_cfgs, allgather_tuner_cfgs, reducescatter_tuner_cfgs,
}
use nccl_exts.Tuner.{
  Func, broadcast, reduce, all_gather, reduce_scatter, all_reduce, send_recv, send, recv,
  find_config, get_tuner_cfg_index, choose, table_of, choices_at,
}
use nccl_exts.Tuner.Nearest.{IsSorted, IsNearest, choose-IsNearest}

is_sorted : List AlgoProto → Bool
is_sorted [] = true
is_sorted (c ∷ []) = true
is_sorted (c ∷ d ∷ cs) = ltb c.nbytes d.nbytes && is_sorted (d ∷ cs)

is_sorted-IsSorted : (cs : List AlgoProto) → is_sorted cs ≡ true → IsSorted cs
unfolding is_sorted
is_sorted-IsSorted [] h = tt
is_sorted-IsSorted (c ∷ []) h = tt
is_sorted-IsSorted (c ∷ d ∷ cs) h = ground (arith, is_sorted-IsSorted (d ∷ cs))

all_sorted : List TunerConfig → Bool
all_sorted [] = true
all_sorted (c ∷ cs) = is_sorted c.ap_choices && all_sorted cs

all_sorted-get_or :
    (cs : List TunerConfig) (i : ℕ)
    → all_sorted cs ≡ true
    → IsSorted (get_or cs i (record { nranks = 0; nnodes = 0; ap_choices = [] })).ap_choices
unfolding all_sorted
all_sorted-get_or [] i h = tt
all_sorted-get_or (c ∷ cs) zero h = is_sorted-IsSorted c.ap_choices (ground arith)
all_sorted-get_or (c ∷ cs) (suc i) h = all_sorted-get_or cs i (ground arith)

allreduce-sorted : all_sorted allreduce_tuner_cfgs ≡ true
unfolding all_sorted is_sorted
allreduce-sorted = refl

allgather-sorted : all_sorted allgather_tuner_cfgs ≡ true
unfolding all_sorted is_sorted
allgather-sorted = refl

reducescatter-sorted : all_sorted reducescatter_tuner_cfgs ≡ true
unfolding all_sorted is_sorted
reducescatter-sorted = refl

choices_at-IsSorted : (index : ℤ) (f : Func) → IsSorted (choices_at index (table_of f))
unfolding choices_at table_of
choices_at-IsSorted (negsuc i) f = tt
choices_at-IsSorted (pos i) broadcast = tt
choices_at-IsSorted (pos i) reduce = tt
choices_at-IsSorted (pos i) all_gather = all_sorted-get_or allgather_tuner_cfgs i allgather-sorted
choices_at-IsSorted (pos i) reduce_scatter =
    all_sorted-get_or reducescatter_tuner_cfgs i reducescatter-sorted
choices_at-IsSorted (pos i) all_reduce = all_sorted-get_or allreduce_tuner_cfgs i allreduce-sorted
choices_at-IsSorted (pos i) send_recv = tt
choices_at-IsSorted (pos i) send = tt
choices_at-IsSorted (pos i) recv = tt

-- For every index, collective and message size, the choice that get_algo_proto settles on in the
-- plugin's tables is in the row, and no other choice of the row is nearer to the message size by
-- more than a byte.
pub choices_at-IsNearest :
    (index : ℤ) (f : Func) (n : ℕ)
    → IsNearest n (choices_at index (table_of f)) (choose n (choices_at index (table_of f)))
choices_at-IsNearest index f n =
    choose-IsNearest n (choices_at index (table_of f)) (choices_at-IsSorted index f)

abbrev cluster : TunerConfig → ℕ × ℕ
cluster c = (c.nranks, c.nnodes)

-- Row `i` of a table is for clusters of `n_ranks` and `n_nodes`.
abbrev pub IsRowFor : ℕ → ℕ → ℕ → List TunerConfig → Type 0
IsRowFor n_ranks n_nodes i cs = get_elem? (map cluster cs) i ≡ some (n_ranks, n_nodes)

find_config-IsRowFor :
    (k n_ranks n_nodes i : ℕ) (cs : List TunerConfig)
    → find_config k n_ranks n_nodes cs ≡ pos i
    → (j : ℕ) × (i ≡ k + j) × IsRowFor n_ranks n_nodes j cs
unfolding find_config
find_config-IsRowFor k n_ranks n_nodes i [] h = cc
find_config-IsRowFor k n_ranks n_nodes i (c ∷ cs) h =
    elim (Bool-cases (c.nranks == n_ranks && c.nnodes == n_nodes)) [
      | inl e ↦
          let found : pos k ≡ pos i = rw e at h in
          let same_ranks : c.nranks ≡ n_ranks = ground arith in
          let same_nodes : c.nnodes ≡ n_nodes = ground arith in
          (
            0,
            omega (arith, ap pos_part found),
            ap₂ (λ (r m : ℕ). some (r, m)) same_ranks same_nodes,
          )
      | inr e ↦
          let rest : find_config (suc k) n_ranks n_nodes cs ≡ pos i = rw e at h in
          let (j, at, row) = find_config-IsRowFor (suc k) n_ranks n_nodes i cs rest in
          (suc j, omega (arith, at), row)
    ]

IsRowFor-cluster :
    (n_ranks n_nodes i : ℕ) (cs ds : List TunerConfig)
    → map cluster cs ≡ map cluster ds
    → IsRowFor n_ranks n_nodes i cs
    → IsRowFor n_ranks n_nodes i ds
IsRowFor-cluster n_ranks n_nodes i cs ds e h =
    sym (ap (λ (keys : List (ℕ × ℕ)). get_elem? keys i) e) ∙ h

-- The row that get_tuner_cfg_index finds in the allreduce table is for the cluster asked for in
-- each of the three tables.
pub get_tuner_cfg_index-IsRowFor :
    (n_ranks n_nodes i : ℕ)
    → get_tuner_cfg_index n_ranks n_nodes ≡ pos i
    → IsRowFor n_ranks n_nodes i allreduce_tuner_cfgs
      × IsRowFor n_ranks n_nodes i allgather_tuner_cfgs
      × IsRowFor n_ranks n_nodes i reducescatter_tuner_cfgs
unfolding get_tuner_cfg_index
get_tuner_cfg_index-IsRowFor n_ranks n_nodes i h =
    let (j, at, row) = find_config-IsRowFor 0 n_ranks n_nodes i allreduce_tuner_cfgs h in
    let here : IsRowFor n_ranks n_nodes i allreduce_tuner_cfgs =
      subst (λ (k : ℕ). IsRowFor n_ranks n_nodes k allreduce_tuner_cfgs) (omega (arith, at)) row in
    (
      here,
      IsRowFor-cluster n_ranks n_nodes i allreduce_tuner_cfgs allgather_tuner_cfgs refl here,
      IsRowFor-cluster n_ranks n_nodes i allreduce_tuner_cfgs reducescatter_tuner_cfgs refl here,
    )
