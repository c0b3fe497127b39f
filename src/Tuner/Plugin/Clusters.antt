-- ===== src/Tuner/Plugin/Clusters.antt =====
-- Which row of the tables a communicator gets, in versions 1 and 2 of the plugin of
-- src/utuner/plugin.c.
use nccl_exts.Prelude.{
  ℕ, suc, ◌+◌, ◌%◌, ◌^◌, ◌<◌, ◌≡◌, refl, ◌∙◌, Bool, true, false, ◌&&◌, List, [], ◌∷◌, arith, length,
  ◌==◌, if◌then◌else◌, ap, Bool-cases, inl, inr,
}
use nccl_exts.Prelude.Int.{negsuc}
use nccl_exts.Tuner.{get_tuner_cfg_index}
use nccl_exts.Tuner.Plugin.{StateV1, initial_v1, init_v1}

-- The calls of pluginInit_v1, one after the other.
abbrev pub init_all : List (ℕ × ℕ) → StateV1 → StateV1
init_all [] s = s
init_all ((n_ranks, n_nodes) ∷ calls) s = init_all calls (init_v1 n_ranks n_nodes s)

-- Every communicator is of this size.
abbrev pub all_of : ℕ → ℕ → List (ℕ × ℕ) → Bool
all_of n_ranks n_nodes [] = true
all_of n_ranks n_nodes ((r, n) ∷ calls) =
    (n_ranks == r && n_nodes == n) && all_of n_ranks n_nodes calls

init_v1-same :
    (r n : ℕ) (s : StateV1)
    → (s.n == 0) ≡ false
    → (s.nranks == r && s.nnodes == n) ≡ true
    → init_v1 r n s ≡ record s { n = (s.n + 1) % 2 ^ 32 }
unfolding init_v1
init_v1-same r n s later e = rw (init_v1, later, e) refl

init_v1-other :
    (r n : ℕ) (s : StateV1)
    → (s.n == 0) ≡ false
    → (s.nranks == r && s.nnodes == n) ≡ false
    → init_v1 r n s ≡ record s { n = (s.n + 1) % 2 ^ 32; tuner_cfg_index = negsuc 0 }
unfolding init_v1
init_v1-other r n s later e = rw (init_v1, later, e) refl

-- After the first call the index stays as long as the sizes do.
init_all-later :
    (calls : List (ℕ × ℕ)) (s : StateV1)
    → 0 < s.n
    → s.n + length calls < 2 ^ 32
    → (init_all calls s).tuner_cfg_index
      ≡ (if all_of s.nranks s.nnodes calls then s.tuner_cfg_index else negsuc 0)
init_all-later [] s h b = refl
init_all-later ((r, n) ∷ calls) s h b =
    let later : (s.n == 0) ≡ false = ground arith in
    let next : 0 < (s.n + 1) % 2 ^ 32 = omega arith in
    let room : (s.n + 1) % 2 ^ 32 + length calls < 2 ^ 32 = omega arith in
    elim (Bool-cases (s.nranks == r && s.nnodes == n)) [
      | inl e ↦
          ap (λ (t : StateV1). (init_all calls t).tuner_cfg_index) (init_v1-same r n s later e)
          ∙ rw e (init_all-later calls (record s { n = (s.n + 1) % 2 ^ 32 }) next room)
      | inr e ↦
          ap (λ (t : StateV1). (init_all calls t).tuner_cfg_index) (init_v1-other r n s later e)
          ∙ rw e (
              init_all-later calls (record s { n = (s.n + 1) % 2 ^ 32; tuner_cfg_index = negsuc 0 })
                next room
              ∙ either (all_of s.nranks s.nnodes calls))
    ]
  where
    either : (b : Bool) → (if b then negsuc 0 else negsuc 0) ≡ negsuc 0
    either true = refl
    either false = refl

-- After fewer than 2 ^ 32 calls of pluginInit_v1 version 1 uses the row of the first call if all
-- calls were of that size, and none otherwise.
pub init_v1_lem :
    (n_ranks n_nodes : ℕ) (calls : List (ℕ × ℕ))
    → suc (length calls) < 2 ^ 32
    → (init_all ((n_ranks, n_nodes) ∷ calls) initial_v1).tuner_cfg_index
      ≡ (if all_of n_ranks n_nodes calls then get_tuner_cfg_index n_ranks n_nodes else negsuc 0)
unfolding init_v1
init_v1_lem n_ranks n_nodes calls h = init_all-later calls _ (omega arith) (omega arith)
