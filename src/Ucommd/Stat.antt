-- ===== src/Ucommd/Stat.antt =====
-- class Stat of src/ucommd/stats.h and stats.cc: a row of counters inside the shared memory of a
-- StatsShm. The memory is the list of its `size_t` words, and a Stat says where its row begins.
pub mod Sizes
use Prim.Native.String.{String}
use text.Mathlib.Text.{◌==◌ as str_eq}
use nccl_exts.Prelude.{
  ℕ, zero, suc, ◌+◌, ◌-◌, ◌%◌, ◌^◌, List, [], ◌∷◌, Option, none, some, if◌then◌else◌, get_or, set,
}

abbrev pub Memory : Type 0
Memory = List ℕ

pub record Stat : Type 0 where
  pub id : ℕ
  pub base : ℕ
  pub num_counters : ℕ
  pub names : List String

pub data Status : Type 0 where
  done not_found : Status

-- `counter_by_name_.find`: `emplace` keeps the first of two equal names.
unfoldable pub find_counter : String → List String → Option ℕ
find_counter name [] = none
find_counter name (n ∷ ns) =
    if str_eq n name
    then some 0
    else elim (find_counter name ns) [ none ↦ none | some i ↦ some (suc i) ]

module _ (s : Stat) where
  -- `__atomic_add_fetch(base_ + i, val)`; `size_t` wraps.
  unfoldable pub add : ℕ → ℕ → Memory → Memory
  add i val m = set m (s.base + i) ((get_or m (s.base + i) 0 + val) % 2 ^ 64)

  unfoldable pub sub : ℕ → ℕ → Memory → Memory
  sub i val m = set m (s.base + i) ((get_or m (s.base + i) 0 + 2 ^ 64 - val) % 2 ^ 64)

  unfoldable pub inc : ℕ → Memory → Memory
  unfolding add
  inc i m = add i 1 m

  unfoldable pub dec : ℕ → Memory → Memory
  unfolding sub
  dec i m = sub i 1 m

  unfoldable pub get : ℕ → Memory → ℕ
  get i m = get_or m (s.base + i) 0

  unfoldable pub set_counter : ℕ → ℕ → Memory → Memory
  set_counter i val m = set m (s.base + i) val

  -- The overloads that take a name: -1 and no write when the name is unknown.
  abbrev by_name : String → (ℕ → Memory → Memory) → Memory → Status × Memory
  by_name name op m = elim (find_counter name s.names) [
    | none ↦ (not_found, m)
    | some i ↦ (done, op i m)
  ]

  unfoldable pub add_by_name : String → ℕ → Memory → Status × Memory
  unfolding add find_counter
  add_by_name name val m = by_name name (λ i. add i val) m

  unfoldable pub sub_by_name : String → ℕ → Memory → Status × Memory
  unfolding sub find_counter
  sub_by_name name val m = by_name name (λ i. sub i val) m

  unfoldable pub inc_by_name : String → Memory → Status × Memory
  unfolding inc find_counter
  inc_by_name name m = by_name name inc m

  unfoldable pub dec_by_name : String → Memory → Status × Memory
  unfolding dec find_counter
  dec_by_name name m = by_name name dec m

  unfoldable pub set_by_name : String → ℕ → Memory → Status × Memory
  unfolding set_counter find_counter
  set_by_name name val m = by_name name (λ i. set_counter i val) m

  unfoldable pub get_by_name : String → Memory → Option ℕ
  unfolding get find_counter
  get_by_name name m = elim (find_counter name s.names) [ none ↦ none | some i ↦ some (get i m) ]

-- The loop of `clear`, `left` counters from `at` on.
clear_from : ℕ → ℕ → Memory → Memory
clear_from zero at m = m
clear_from (suc left) at m = clear_from left (suc at) (set m at 0)

unfoldable pub clear : Stat → Memory → Memory
unfolding clear_from
clear s m = clear_from s.num_counters s.base m
