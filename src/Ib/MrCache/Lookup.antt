-- ===== src/Ib/MrCache/Lookup.antt =====
-- A deregistration of src/unet/unet_ib.cc gives back one reference, of the region it names.
use mathlib.Core.Path.{subst}
use nccl_exts.Prelude.{
  ℕ, zero, suc, ◌+◌, ◌-◌, ◌^◌, ◌<◌, ◌≡◌, ◌≢◌, ◌⊎◌, refl, sym, ap, true, false, Bool-cases, inl, inr,
  List, [], ◌∷◌, Option, none, some, arith, length, get_or, set, take, All, All-set, All-get_or,
  ◌==◌, if◌then◌else◌, get_or-set_cases, length-set,
}
use nccl_exts.Prelude.Words.{dec32}
use nccl_exts.Prelude.Nccl.{
  NcclResult, success, in_progress, unhandled_cuda_error, system_error, internal_error,
  invalid_argument, invalid_usage, remote_error, Ends,
}
use nccl_exts.Ib.MrCache.{CachedMr, Cache, blank_mr, find_mr, remove_at, after_removal, dereg_mr}

-- The references that the cache counts for a region.
abbrev pub weight : ℕ → CachedMr → ℕ
weight m s = if m == s.mr then s.refs else 0

abbrev pub refs_of : ℕ → List CachedMr → ℕ
refs_of m [] = 0
refs_of m (s ∷ slots) = weight m s + refs_of m slots

-- A slot counts at least one reference, in 32 bits.
abbrev pub IsCounted : CachedMr → Type 0
IsCounted s = (0 < s.refs) × (s.refs < 2 ^ 32)

pub refs_of-set :
    (m : ℕ) (slots : List CachedMr) (i : ℕ) (v : CachedMr)
    → i < length slots
    → refs_of m (set slots i v) + weight m (get_or slots i blank_mr) ≡ refs_of m slots + weight m v
refs_of-set m [] i v h = absurd (omega arith)
refs_of-set m (s ∷ slots) zero v h = omega arith
refs_of-set m (s ∷ slots) (suc i) v h = omega (arith, refs_of-set m slots i v (omega arith))

refs_of-take :
    (m : ℕ) (slots : List CachedMr) (n : ℕ)
    → length slots ≡ suc n
    → refs_of m (take n slots) + weight m (get_or slots n blank_mr) ≡ refs_of m slots
refs_of-take m [] n h = absurd (omega arith)
refs_of-take m (s ∷ []) zero h = omega arith
refs_of-take m (s ∷ t ∷ slots) zero h = absurd (omega arith)
refs_of-take m (s ∷ slots) (suc n) h = omega (arith, refs_of-take m slots n (omega arith))

-- The last slot moves into the gap, and no other region's references change.
refs_of-remove_at :
    (m : ℕ) (slots : List CachedMr) (i : ℕ)
    → i < length slots
    → refs_of m (remove_at i slots) + weight m (get_or slots i blank_mr) ≡ refs_of m slots
unfolding remove_at
refs_of-remove_at m slots i h =
    let last = length slots - 1 in
    let v = get_or slots last blank_mr in
    let moved : get_or (set slots i v) last blank_mr ≡ v =
      elim (get_or-set_cases slots i last v blank_mr) [ inl same ↦ same | inr (e, new) ↦ new ] in
    let cut = refs_of-take m (set slots i v) last (omega (arith, length-set slots i v)) in
    let same = ap (weight m) moved in omega (arith, cut, same, refs_of-set m slots i v h)

All-take : (n : ℕ) (slots : List CachedMr) → All IsCounted slots → All IsCounted (take n slots)
All-take zero slots h = tt
All-take (suc n) [] h = tt
All-take (suc n) (s ∷ slots) h = (h.0, All-take n slots h.1)

-- A search for a region finds a slot of it.
abbrev Finds : ℕ → List CachedMr → Option ℕ → Type 0
Finds m slots none = refs_of m slots ≡ 0
Finds m slots (some i) = (i < length slots) × ((get_or slots i blank_mr).mr ≡ m)

Finds-next :
    (m : ℕ) (s : CachedMr) (slots : List CachedMr) (r : Option ℕ)
    → (m == s.mr) ≡ false
    → Finds m slots r
    → Finds m (s ∷ slots) (elim r [ none ↦ none | some i ↦ some (suc i) ])
Finds-next m s slots none e h = rw e (omega (arith, h))
Finds-next m s slots (some i) e (l, h) = (omega arith, h)

find_mr-Finds : (m : ℕ) (slots : List CachedMr) → Finds m slots (find_mr m slots)
unfolding find_mr
find_mr-Finds m [] = refl
find_mr-Finds m (s ∷ slots) = elim (Bool-cases (m == s.mr)) [
  | inl e ↦ rw (find_mr, e) (omega arith, ground arith)
  | inr e ↦ rw (find_mr, e) (Finds-next m s slots (find_mr m slots) e (find_mr-Finds m slots))
]

-- The cache `c'` counts one reference less to `m` than `c`, and as many to every other region.
pub record Releases (m : ℕ) (c c' : Cache) : Type 0 where
  pub one_less : refs_of m c'.slots + 1 ≡ refs_of m c.slots
  pub others : (k : ℕ) → k ≢ m → refs_of k c'.slots ≡ refs_of k c.slots
  pub counted : All IsCounted c'.slots

pub weight_self : (m : ℕ) (s : CachedMr) → s.mr ≡ m → weight m s ≡ s.refs
weight_self m s e = ground arith

pub weight_other : (k m : ℕ) (s : CachedMr) → s.mr ≡ m → k ≢ m → weight k s ≡ 0
weight_other k m s e n = ground arith

All-remove_at :
    (i : ℕ) (slots : List CachedMr)
    → i < length slots
    → All IsCounted slots
    → All IsCounted (remove_at i slots)
unfolding remove_at
All-remove_at i slots h all =
    let last = length slots - 1 in
    All-take last (set slots i (get_or slots last blank_mr))
      (All-set IsCounted slots i _ all (All-get_or IsCounted slots last blank_mr all (omega arith)))

module _ (m i : ℕ) (c c' : Cache) (inside : i < length c.slots)
    (names : (get_or c.slots i blank_mr).mr ≡ m) (all : All IsCounted c.slots) where
  abbrev old : CachedMr
  old = get_or c.slots i blank_mr

  IsCounted-old : IsCounted old
  IsCounted-old = All-get_or IsCounted c.slots i blank_mr all inside

  last_ref : (dec32 old.refs == 0) ≡ true → c'.slots ≡ remove_at i c.slots → Releases m c c'
  last_ref e s =
      let one : old.refs ≡ 1 = ground (arith, IsCounted-old.0, IsCounted-old.1) in
      record {
        one_less =
            rw s
              (omega (arith, refs_of-remove_at m c.slots i inside, weight_self m old names, one));
        others = λ k n.
            rw s
              (omega (arith, refs_of-remove_at k c.slots i inside, weight_other k m old names n));
        counted = subst (All IsCounted) (sym s) (All-remove_at i c.slots inside all);
      }

  one_ref_less :
      (dec32 old.refs == 0) ≡ false
      → c'.slots ≡ set c.slots i (record old { refs = dec32 old.refs })
      → Releases m c c'
  one_ref_less e s =
      let new : CachedMr = record old { refs = dec32 old.refs } in
      let less : dec32 old.refs + 1 ≡ old.refs = omega (arith, IsCounted-old.0, IsCounted-old.1) in
      let left : 0 < dec32 old.refs = ground arith in
      let fits : dec32 old.refs < 2 ^ 32 = omega arith in
      record {
        one_less = rw s (
            omega (
              arith,
              refs_of-set m c.slots i new inside,
              weight_self m old names,
              weight_self m new names,
              less,
            ));
        others = λ k n. rw s (
            omega (
              arith,
              refs_of-set k c.slots i new inside,
              weight_other k m old names n,
              weight_other k m new names n,
            ));
        counted = subst (All IsCounted) (sym s) (All-set IsCounted c.slots i new all (left, fits));
      }

-- What a failed deregistration has done: it found no slot of the region, or it has given the last
-- reference back and the verbs library refused to destroy the region.
abbrev pub Fails : ℕ → Cache → NcclResult → Cache → Type 0
Fails m c e c' = ((refs_of m c.slots ≡ 0) × (c' ≡ c)) ⊎ Releases m c c'

removed :
    (deregister : ℕ → NcclResult) (m : ℕ) (c c' : Cache) (r : NcclResult)
    → ((c'' : Cache) → c''.slots ≡ c'.slots → Releases m c c'')
    → Ends (λ _. Releases m c) (Fails m c) (after_removal deregister r c')
unfolding after_removal
removed deregister m c c' success h = h _ refl
removed deregister m c c' in_progress h = h _ refl
removed deregister m c c' unhandled_cuda_error h = inr (h _ refl)
removed deregister m c c' system_error h = inr (h _ refl)
removed deregister m c c' internal_error h = inr (h _ refl)
removed deregister m c c' invalid_argument h = inr (h _ refl)
removed deregister m c c' invalid_usage h = inr (h _ refl)
removed deregister m c c' remote_error h = inr (h _ refl)

pub dereg_mr-Releases :
    (deregister : ℕ → NcclResult) (m : ℕ) (c : Cache)
    → All IsCounted c.slots
    → Ends (λ _. Releases m c) (Fails m c) (dereg_mr deregister m c)
unfolding dereg_mr
dereg_mr-Releases deregister m c all = go (find_mr m c.slots) refl (find_mr-Finds m c.slots)
  where
    go :
        (r : Option ℕ)
        → find_mr m c.slots ≡ r
        → Finds m c.slots r
        → Ends (λ _. Releases m c) (Fails m c) (dereg_mr deregister m c)
    go none e h = rw (dereg_mr, e) (inl (h, refl))
    go (some i) e (l, n) = elim (Bool-cases (dec32 (get_or c.slots i blank_mr).refs == 0)) [
      | inl f ↦
          rw (dereg_mr, e, f)
            (removed deregister m c _ (deregister m) λ c'' s. last_ref m i c c'' l n all f s)
      | inr f ↦ rw (dereg_mr, e, f) (one_ref_less m i c _ l n all f refl)
    ]
