-- ===== src/Ib/MrCache/Comm/Counting.antt =====
-- How many references the caches of src/unet/unet_ib.cc count, and what a call on one of them changes.
use mathlib.Core.Path.{subst}
use nccl_exts.Prelude.{
  ℕ, suc, ◌+◌, ◌<◌, ◌≡◌, ◌≢◌, ◌⊎◌, refl, sym, ◌∙◌, ap, Bool-cases, inl, inr, List, [], ◌∷◌, arith,
  length, get_or, set, All, All-set, All-get_or, All-map, ◌==◌, ==_iff, if◌then◌else◌,
  get_or-set_self, get_or-set_ne,
}
use nccl_exts.Ib.Pd.{DevBase}
use nccl_exts.Ib.MrCache.{CachedMr, Cache}
use nccl_exts.Ib.MrCache.Lookup.{refs_of}
use nccl_exts.Ib.MrCache.Comm.{Regions, blank_cache}
use nccl_exts.Ib.MrCache.Comm.References.{IsRoomy, one}

-- The references that IB device n counts to region m.
abbrev pub refs_on : Regions → ℕ → ℕ → ℕ
refs_on s n m = refs_of m (get_or s.caches n blank_cache).slots

-- 1 for region m of device b.
abbrev pub one_on : DevBase → ℕ → ℕ → ℕ → ℕ
one_on b m n j = if n == b.ib_dev_n then one m j else 0

-- How many of the regions `mrs` of the devices `bases` are region j of IB device n.
abbrev pub held : List DevBase → List ℕ → ℕ → ℕ → ℕ
held (b ∷ bases) (m ∷ mrs) n j = one_on b m n j + held bases mrs n j
held _ _ n j = 0

-- The state `t` counts the regions `mrs` of the devices `bases` once more than `s`.
abbrev pub Holds : List DevBase → List ℕ → Regions → Regions → Type 0
Holds bases mrs s t = (n j : ℕ) → refs_on t n j ≡ refs_on s n j + held bases mrs n j

-- Each slot of each cache counts a reference, and k more fit.
abbrev pub AreRoomy : ℕ → Regions → Type 0
AreRoomy k s = All (λ (c : Cache). All (IsRoomy k) c.slots) s.caches

-- The references of the first devices are taken, and not those of all.
abbrev pub Leaks : List DevBase → Regions → Regions → Type 0
Leaks bases s t = (mrs : List ℕ) × ((length mrs < length bases) × Holds bases mrs s t)

abbrev pub AreKnown : List DevBase → Regions → Type 0
AreKnown bases s = All (λ (b : DevBase). b.ib_dev_n < length s.caches) bases

-- A step that has taken a region of device b, and leaves room for k references.
abbrev pub TakesOne : DevBase → ℕ → Regions → ℕ → Regions → Type 0
TakesOne b k s m t =
    Holds (b ∷ []) (m ∷ []) s t × (AreRoomy k t × (length t.caches ≡ length s.caches))

-- A loop that has taken a region of each device.
abbrev pub TakesAll : List DevBase → ℕ → Regions → List ℕ → Regions → Type 0
TakesAll bases k s mrs t =
    (length mrs ≡ length bases)
    × (Holds bases mrs s t × (AreRoomy k t × (length t.caches ≡ length s.caches)))

-- The references after a call on the cache of IB device n.
pub refs_on_self :
    (s : Regions) (n m j : ℕ) (c : Cache)
    → n < length s.caches
    → m ≡ n
    → refs_on (record s { caches = set s.caches n c; stat = c.stat }) m j ≡ refs_of j c.slots
refs_on_self s n m j c l same =
    subst (λ i. refs_of j (get_or (set s.caches n c) i blank_cache).slots ≡ refs_of j c.slots)
      (sym same)
      (ap (λ (x : Cache). refs_of j x.slots) (get_or-set_self s.caches n c blank_cache l))

pub refs_on_other :
    (s : Regions) (n m j : ℕ) (c : Cache)
    → m ≢ n
    → refs_on (record s { caches = set s.caches n c; stat = c.stat }) m j ≡ refs_on s m j
refs_on_other s n m j c apart =
    ap (λ (x : Cache). refs_of j x.slots)
      (get_or-set_ne s.caches n m c blank_cache (λ d. apart (sym d)))

-- Two indices are the same or apart.
pub same_or_apart : (m n : ℕ) → (m ≡ n) ⊎ (m ≢ n)
same_or_apart m n = elim (Bool-cases (m == n)) [
  | inl e ↦ inl ((==_iff m n).0 e)
  | inr e ↦ inr (λ d. absurd (ground (arith, d, e)))
]

pub refs_on-put :
    (s : Regions) (n m j : ℕ) (c : Cache) (more : ℕ)
    → n < length s.caches
    → (m ≡ n → refs_of j c.slots ≡ refs_on s n j + more)
    → (m ≢ n → more ≡ 0)
    → refs_on (record s { caches = set s.caches n c; stat = c.stat }) m j ≡ refs_on s m j + more
refs_on-put s n m j c more l here there = elim (same_or_apart m n) [
  | inl same ↦
      refs_on_self s n m j c l same ∙ here same ∙ ap (λ (i : ℕ). refs_on s i j + more) (sym same)
  | inr apart ↦ omega (arith, refs_on_other s n m j c apart, there apart)
]

pub AreRoomy-put :
    (k n : ℕ) (s : Regions) (c : Cache)
    → AreRoomy k s
    → All (IsRoomy k) c.slots
    → AreRoomy k (record s { caches = set s.caches n c; stat = c.stat })
AreRoomy-put k n s c h r = All-set (λ (c : Cache). All (IsRoomy k) c.slots) s.caches n c h r

pub AreRoomy-at :
    (k n : ℕ) (s : Regions)
    → n < length s.caches
    → AreRoomy k s
    → All (IsRoomy k) (get_or s.caches n blank_cache).slots
AreRoomy-at k n s l h =
    All-get_or (λ (c : Cache). All (IsRoomy k) c.slots) s.caches n blank_cache h l

pub AreRoomy-less : (k : ℕ) (s : Regions) → AreRoomy (suc k) s → AreRoomy k s
AreRoomy-less k s =
    All-map
      (λ (c : Cache).
        All-map {Q = λ (x : CachedMr). IsRoomy k x} (λ x r. (r.0, omega (arith, r.1))) c.slots)
      s.caches

pub AreKnown-put :
    (bases : List DevBase) (s t : Regions)
    → length t.caches ≡ length s.caches
    → AreKnown bases s
    → AreKnown bases t
AreKnown-put bases s t e = All-map (λ b l. omega (arith, e, l)) bases

pub one_on_self : (b : DevBase) (m n j : ℕ) → n ≡ b.ib_dev_n → one_on b m n j ≡ one m j
one_on_self b m n j e = rw ((==_iff n b.ib_dev_n).1 e) refl

pub one_on_other : (b : DevBase) (m n j : ℕ) → n ≢ b.ib_dev_n → one_on b m n j ≡ 0
one_on_other b m n j apart = elim (Bool-cases (n == b.ib_dev_n)) [
  | inl e ↦ absurd (apart ((==_iff n b.ib_dev_n).0 e))
  | inr e ↦ rw e refl
]
