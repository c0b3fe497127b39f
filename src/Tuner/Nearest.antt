-- ===== src/Tuner/Nearest.antt =====
-- get_algo_proto of src/utuner/plugin.c picks the choice whose size is nearest.
use nccl_exts.Prelude.{
  ℕ, zero, suc, ◌+◌, ◌-◌, ◌*◌, ◌/◌, ◌^◌, ◌≤◌, ◌<◌, ◌≡◌, ◌↔◌, ◌⊎◌, inl, inr, refl, min, List, [],
  ◌∷◌, Option, none, some, arith, length, ltb, Bool, true, false, ◌&&◌, if◌then◌else◌,
}
use nccl_exts.Tuner.Configs.{AlgoProto}
use nccl_exts.Tuner.{skip_smaller, nbytes_at, choose}

-- The sizes of a row go up.
abbrev pub IsSorted : List AlgoProto → Type 0
IsSorted [] = Unit
IsSorted (c ∷ []) = Unit
IsSorted (c ∷ d ∷ cs) = (c.nbytes < d.nbytes) × IsSorted (d ∷ cs)

skip_smaller-lt :
    (n : ℕ) (c : AlgoProto) (cs : List AlgoProto) → skip_smaller n (c ∷ cs) < suc (length cs)
unfolding skip_smaller
skip_smaller-lt n c [] = omega arith
skip_smaller-lt n c (d ∷ cs) = ground (arith, skip_smaller-lt n d cs)

skip_smaller-below :
    (n : ℕ) (cs : List AlgoProto) (j : ℕ) → j < skip_smaller n cs → nbytes_at cs j < n
unfolding skip_smaller
skip_smaller-below n [] j h = absurd (omega arith)
skip_smaller-below n (c ∷ []) j h = absurd (omega arith)
skip_smaller-below n (c ∷ d ∷ cs) zero h = ground arith
skip_smaller-below n (c ∷ d ∷ cs) (suc j) h = ground (arith, skip_smaller-below n (d ∷ cs) j)

skip_smaller-above :
    (n : ℕ) (c : AlgoProto) (cs : List AlgoProto)
    → skip_smaller n (c ∷ cs) < length cs
    → n ≤ nbytes_at (c ∷ cs) (skip_smaller n (c ∷ cs))
unfolding skip_smaller
skip_smaller-above n c [] h = absurd (omega arith)
skip_smaller-above n c (d ∷ cs) h = ground (arith, skip_smaller-above n d cs)

IsSorted-le :
    (cs : List AlgoProto) (j k : ℕ)
    → IsSorted cs
    → j ≤ k
    → k < length cs
    → nbytes_at cs j ≤ nbytes_at cs k
IsSorted-le [] j k s h l = absurd (omega arith)
IsSorted-le (c ∷ cs) zero zero s h l = omega arith
IsSorted-le (c ∷ cs) (suc j) zero s h l = absurd (omega arith)
IsSorted-le (c ∷ []) j (suc k) s h l = absurd (omega arith)
IsSorted-le (c ∷ d ∷ cs) zero (suc k) s h l =
    omega (arith, s.0, IsSorted-le (d ∷ cs) zero k s.1 (omega arith) (omega arith))
IsSorted-le (c ∷ d ∷ cs) (suc j) (suc k) s h l =
    IsSorted-le (d ∷ cs) j k s.1 (omega arith) (omega arith)

abbrev pub distance : ℕ → ℕ → ℕ
distance a b = a - b + (b - a)

-- What choose may answer for size `n` on the row `cs`.
abbrev pub IsNearest : ℕ → List AlgoProto → Option ℕ → Type 0
IsNearest n cs none = Unit
IsNearest n cs (some i) =
    (i < length cs)
    × ((j : ℕ) → j < length cs → distance n (nbytes_at cs i) ≤ distance n (nbytes_at cs j) + 1)

lt_or_le : (a b : ℕ) → (a < b) ⊎ (b ≤ a)
lt_or_le a b = ground arith

module _ (n : ℕ) (c : AlgoProto) (cs : List AlgoProto) (s : IsSorted (c ∷ cs)) where
  abbrev stop : ℕ
  stop = skip_smaller n (c ∷ cs)

  abbrev nb : ℕ → ℕ
  nb = nbytes_at (c ∷ cs)

  -- The choices from where the loop stops on are no nearer than the one there.
  after : (j : ℕ) → stop ≤ j → j < suc (length cs) → distance n (nb stop) ≤ distance n (nb j)
  after j h l = elim (lt_or_le stop (length cs)) [
    | inl inside ↦
        omega (arith, skip_smaller-above n c cs inside, IsSorted-le (c ∷ cs) stop j s h l)
    | inr end ↦ let same : stop ≡ j = omega (arith, skip_smaller-lt n c cs) in rw same (omega arith)
  ]

  -- Those before it are no nearer than the one right before it.
  before : (j k : ℕ) → stop ≡ suc k → j < stop → distance n (nb k) ≤ distance n (nb j)
  before j k e h = omega (
    arith,
    skip_smaller-below n (c ∷ cs) k (omega arith),
    IsSorted-le (c ∷ cs) j k s (omega arith) (omega (arith, skip_smaller-lt n c cs)),
  )

  -- The choice right before against the one at the stop, for a size below their mean or not.
  lower :
      (k : ℕ) → stop ≡ suc k → n < (nb k + nb stop) / 2 → distance n (nb k) ≤ distance n (nb stop)
  lower k e h = omega (arith, skip_smaller-below n (c ∷ cs) k (omega arith))

  upper :
      (k : ℕ)
      → stop ≡ suc k
      → (nb k + nb stop) / 2 ≤ n
      → distance n (nb stop) ≤ distance n (nb k) + 1
  upper k e h =
      let below = skip_smaller-below n (c ∷ cs) k (omega arith) in
      let up = IsSorted-le (c ∷ cs) k stop s (omega arith) (skip_smaller-lt n c cs) in omega arith

  stop-IsNearest :
      (stop ≡ 0) ⊎ ((k : ℕ) × (stop ≡ suc k) × ((nb k + nb stop) / 2 ≤ n))
      → IsNearest n (c ∷ cs) (some stop)
  stop-IsNearest cases = (
    skip_smaller-lt n c cs,
    λ j l. elim (lt_or_le j stop) [
      | inr h ↦ omega (arith, after j h l)
      | inl h ↦ elim cases [
        | inl e ↦ absurd (omega arith)
        | inr (k, e, m) ↦ omega (arith, before j k e h, upper k e m)
      ]
    ],
  )

  previous-IsNearest :
      (k : ℕ) → stop ≡ suc k → n < (nb k + nb stop) / 2 → IsNearest n (c ∷ cs) (some k)
  previous-IsNearest k e m = (
    omega (arith, skip_smaller-lt n c cs),
    λ j l. elim (lt_or_le j stop) [
      | inr h ↦ omega (arith, after j h l, lower k e m)
      | inl h ↦ omega (arith, before j k e h)
    ],
  )

  -- The test for the choice before the stop.
  abbrev goes_back : Bool
  goes_back = ltb 0 stop && ltb n ((nb (stop - 1) + nb stop) / 2)

  back-IsNearest : goes_back ≡ true → IsNearest n (c ∷ cs) (some (stop - 1))
  back-IsNearest h =
      let e : stop ≡ suc (stop - 1) = ground arith in
      let m : n < (nb (stop - 1) + nb stop) / 2 = ground arith in previous-IsNearest (stop - 1) e m

  stays-IsNearest : goes_back ≡ false → IsNearest n (c ∷ cs) (some stop)
  stays-IsNearest h = elim (lt_or_le 0 stop) [
    | inr e ↦ stop-IsNearest (inl (omega arith))
    | inl e ↦
        let m : (nb (stop - 1) + nb stop) / 2 ≤ n = ground arith in
        stop-IsNearest (inr (stop - 1, omega arith, m))
  ]

  pick :
      (small large back : Bool) (i k : ℕ)
      → (back ≡ true → IsNearest n (c ∷ cs) (some k))
      → (back ≡ false → IsNearest n (c ∷ cs) (some i))
      → IsNearest n
          (c ∷ cs)
          (if small then none else if large then none else if back then some k else some i)
  pick true large back i k f g = tt
  pick false true back i k f g = tt
  pick false false true i k f g = f refl
  pick false false false i k f g = g refl

  -- The row's sizes going up, no other choice is nearer by more than a byte than the one picked.
  choose_row-IsNearest : IsNearest n (c ∷ cs) (choose n (c ∷ cs))
  unfolding choose
  choose_row-IsNearest = pick _ _ goes_back stop (stop - 1) back-IsNearest stays-IsNearest

-- On a row whose sizes go up, the choice that get_algo_proto settles on is one of the row, and no
-- other choice of the row is nearer to the message size by more than a byte.
pub choose-IsNearest : (n : ℕ) (cs : List AlgoProto) → IsSorted cs → IsNearest n cs (choose n cs)
unfolding choose
choose-IsNearest n [] s = tt
choose-IsNearest n (c ∷ cs) s = choose_row-IsNearest n c cs s

-- The sizes that a row leaves to NCCL: below three quarters of its first size, or above its last
-- by more than half of it or than 2 ^ 28.
abbrev pub IsOutside : ℕ → AlgoProto → List AlgoProto → Type 0
IsOutside n c cs =
    let last = nbytes_at (c ∷ cs) (length cs) in
    (n < c.nbytes * 3 / 4) ⊎ (last + min (last / 2) (2 ^ 28) < n)

below_first :
    (n : ℕ) (c : AlgoProto) (cs : List AlgoProto)
    → n < c.nbytes * 3 / 4
    → skip_smaller n (c ∷ cs) ≡ 0
below_first n c cs h = elim (lt_or_le 0 (skip_smaller n (c ∷ cs))) [
  | inl l ↦ absurd (omega (arith, skip_smaller-below n (c ∷ cs) 0 l))
  | inr e ↦ omega arith
]

beyond_last :
    (n : ℕ) (c : AlgoProto) (cs : List AlgoProto)
    → IsSorted (c ∷ cs)
    → nbytes_at (c ∷ cs) (length cs) < n
    → skip_smaller n (c ∷ cs) ≡ length cs
beyond_last n c cs s h = elim (lt_or_le (skip_smaller n (c ∷ cs)) (length cs)) [
  | inl l ↦ absurd (
      omega (
        arith,
        skip_smaller-above n c cs l,
        IsSorted-le (c ∷ cs) (skip_smaller n (c ∷ cs)) (length cs) s (omega arith) (omega arith),
      ))
  | inr e ↦ omega (arith, skip_smaller-lt n c cs)
]

-- On a row whose sizes go up, get_algo_proto has no opinion exactly below three quarters of the
-- first size and above the last size by more than half of it or than 2 ^ 28, the lesser of the
-- two.
pub choose-none_iff :
    (n : ℕ) (c : AlgoProto) (cs : List AlgoProto)
    → IsSorted (c ∷ cs)
    → (choose n (c ∷ cs) ≡ none) ↔ IsOutside n c cs
unfolding choose
choose-none_iff n c cs s =
    let first : n < c.nbytes * 3 / 4 → skip_smaller n (c ∷ cs) ≡ 0 = below_first n c cs in
    let end : nbytes_at (c ∷ cs) (length cs) < n → skip_smaller n (c ∷ cs) ≡ length cs =
      beyond_last n c cs s in
    ground arith
