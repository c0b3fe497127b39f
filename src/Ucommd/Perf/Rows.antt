-- ===== src/Ucommd/Perf/Rows.antt =====
-- What a row of src/ucommd/unet_perf.cc reads as behind its writes.
use Prim.Native.String.{String}
use nccl_exts.Prelude.{
  ℕ, ◌+◌, ◌*◌, ◌%◌, ◌≤◌, ◌<◌, ◌≡◌, ◌≢◌, ◌⊎◌, inl, inr, refl, ◌∙◌, Bool-cases, List, [], ◌∷◌, Option,
  none, some, arith, ◌==◌, length, replicate, get_elem?, length-set, length-replicate,
  get_or-set_self, get_or-set_ne,
}
use nccl_exts.Ucommd.Stat.{Stat, Memory, get, set_counter, clear}
use nccl_exts.Ucommd.Stat.Sizes.{length-clear}
use nccl_exts.Ucommd.Shm
use nccl_exts.Ucommd.Shm.{
  ShmState, StatsShm, construct, ids_from, alloc_stat, take_row, stat_of, sizeof_meta, sizeof_desc,
}
use nccl_exts.Ucommd.Perf.{make_stat}

-- The Stat of the only row, and the StatsShm when it is taken.
abbrev pub row : List String → Stat
row names = stat_of 0 (construct 1 names)

abbrev pub taken : List String → StatsShm
taken names = record {
  num_stats = 1;
  counter_list = names;
  available = [];
  group = (0, 0) ∷ [];
  next_handle = 1;
  state = ShmState.initialized;
  memory = clear (row names) (replicate (length names * 1) 0);
}

pub make_stat_cases :
    (addr : Option ℕ) (names : List String)
    → ((make_stat addr names).0 ≡ none)
      ⊎ (make_stat addr names ≡ (some (0, row names), taken names))
unfolding make_stat Shm.init construct alloc_stat take_row ids_from
make_stat_cases none names = inl refl
make_stat_cases (some addr) names =
    elim (Bool-cases ((addr + sizeof_meta + sizeof_desc * length names) % 8 == 0)) [
      | inl t ↦ inr (rw t refl)
      | inr f ↦ inl (rw f refl)
    ]

pub length-taken : (names : List String) → length (taken names).memory ≡ length names
length-taken names =
    length-clear (row names) (replicate (length names * 1) 0)
    ∙ length-replicate (length names * 1) 0
    ∙ omega arith

-- The i-th counter of a row that is there.
abbrev pub value : Option StatsShm → Option (ℕ × Stat) → ℕ → Option ℕ
value (some shm) (some (h, st)) i = some (get st i shm.memory)
value _ _ i = none

-- The name of the i-th counter.
abbrev pub name_at : Option (ℕ × Stat) → ℕ → Option String
name_at none i = none
name_at (some (h, st)) i = get_elem? st.names i

module _ (names : List String) where
  pub get_self :
      (i v : ℕ) (m : Memory) → i < length m → get (row names) i (set_counter (row names) i v m) ≡ v
  unfolding get set_counter construct
  get_self i v m l = rw (row_start i) (get_or-set_self m i v 0 l)
    where
      row_start : (j : ℕ) → 0 * length names + j ≡ j
      row_start j = omega arith

  get_other :
      (i j v : ℕ) (m : Memory)
      → i ≢ j
      → get (row names) j (set_counter (row names) i v m) ≡ get (row names) j m
  unfolding get set_counter construct
  get_other i j v m apart =
      get_or-set_ne m (0 * length names + i) (0 * length names + j) v 0
        (λ e. apart (omega (arith, e)))

  pub length-set_counter :
      (i v : ℕ) (m : Memory) → length (set_counter (row names) i v m) ≡ length m
  unfolding set_counter
  length-set_counter i v m = length-set m _ v

  -- The five writes of the second row.
  abbrev pub five : ℕ → ℕ → ℕ → ℕ → ℕ → Memory → Memory
  five a b c d e m = set_counter (row names) 4 e (
      set_counter (row names) 3 d
        (set_counter (row names) 2 c (set_counter (row names) 1 b (set_counter (row names) 0 a m))))

  -- A counter that is written before some others.
  pub get_under :
      (i j u v : ℕ) (m : Memory)
      → i ≢ j
      → get (row names) j m ≡ v
      → get (row names) j (set_counter (row names) i u m) ≡ v
  get_under i j u v m apart e = get_other i j u m apart ∙ e

  pub get-five :
      (a b c d e : ℕ) (m : Memory)
      → 5 ≤ length m
      → (get (row names) 0 (five a b c d e m) ≡ a)
        × ((get (row names) 1 (five a b c d e m) ≡ b)
            × ((get (row names) 2 (five a b c d e m) ≡ c)
                × ((get (row names) 3 (five a b c d e m) ≡ d)
                    × (get (row names) 4 (five a b c d e m) ≡ e))))
  get-five a b c d e m l =
      let m1 = set_counter (row names) 0 a m in
      let l1 = length-set_counter 0 a m in
      let m2 = set_counter (row names) 1 b m1 in
      let l2 = length-set_counter 1 b m1 in
      let m3 = set_counter (row names) 2 c m2 in
      let l3 = length-set_counter 2 c m2 in
      let m4 = set_counter (row names) 3 d m3 in
      let l4 = length-set_counter 3 d m3 in
      (
        get_under 4 0 e a m4 (λ x. absurd (omega (arith, x)))
            (get_under 3 0 d a m3 (λ x. absurd (omega (arith, x)))
              (get_under 2 0 c a m2 (λ x. absurd (omega (arith, x)))
                (get_under 1 0 b a m1 (λ x. absurd (omega (arith, x)))
                  (get_self 0 a m (omega arith))))),
        (
          get_under 4 1 e b m4 (λ x. absurd (omega (arith, x)))
              (get_under 3 1 d b m3 (λ x. absurd (omega (arith, x)))
                (get_under 2 1 c b m2 (λ x. absurd (omega (arith, x)))
                  (get_self 1 b m1 (omega (arith, l1))))),
          (
            get_under 4 2 e c m4 (λ x. absurd (omega (arith, x)))
                (get_under 3 2 d c m3 (λ x. absurd (omega (arith, x)))
                  (get_self 2 c m2 (omega (arith, l1, l2)))),
            (
              get_under 4 3 e d m4 (λ x. absurd (omega (arith, x)))
                  (get_self 3 d m3 (omega (arith, l1, l2, l3))),
              get_self 4 e m4 (omega (arith, l1, l2, l3, l4)),
            ),
          ),
        ),
      )
