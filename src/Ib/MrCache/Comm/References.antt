-- ===== src/Ib/MrCache/Comm/References.antt =====
-- The references that a registration on the devices of a comm in src/unet/unet_ib.cc takes, and those
-- that the deregistration gives back.
use nccl_exts.Prelude.{
  ℕ, zero, suc, ◌+◌, ◌^◌, ◌<◌, ◌≡◌, ◌≢◌, refl, sym, Bool, Bool-cases, inl, inr, List, [], ◌∷◌,
  arith, length, get_or, set, All, All-set, All-get_or, All-map, ◌==◌, ==_iff, if◌then◌else◌,
}
use nccl_exts.Prelude.Words.{inc32}
use nccl_exts.Prelude.Nccl.{Result, ok, err, Ends}
use nccl_exts.Ib.MrCache.{
  CachedMr, Cache, Search, hit, miss, blank_mr, insert_at, add_ref, page_start, page_count, search,
  store_new, register_new, reg_mr, next_capacity,
}
use nccl_exts.Ib.MrCache.Cover.{Finds, search-Finds}
use nccl_exts.Ib.MrCache.Lookup.{weight, refs_of, refs_of-set, weight_self, weight_other}

-- A slot counts a reference, and `k` more fit into 32 bits.
abbrev pub IsRoomy : ℕ → CachedMr → Type 0
IsRoomy k s = (0 < s.refs) × (s.refs + k < 2 ^ 32)

-- 1 for the region `m`.
abbrev pub one : ℕ → ℕ → ℕ
one m j = if j == m then 1 else 0

-- The cache `c'` counts one reference more to `m` than `c`.
abbrev pub Adds : ℕ → List CachedMr → List CachedMr → Type 0
Adds m xs ys = (j : ℕ) → refs_of j ys ≡ refs_of j xs + one m j

refs_of-insert_at :
    (j i : ℕ) (v : CachedMr) (slots : List CachedMr)
    → refs_of j (insert_at i v slots) ≡ refs_of j slots + weight j v
unfolding insert_at
refs_of-insert_at j zero v slots = omega arith
refs_of-insert_at j (suc i) v [] = omega arith
refs_of-insert_at j (suc i) v (s ∷ slots) = omega (arith, refs_of-insert_at j i v slots)

All-insert_at :
    (k i : ℕ) (v : CachedMr) (slots : List CachedMr)
    → All (IsRoomy k) slots
    → IsRoomy k v
    → All (IsRoomy k) (insert_at i v slots)
unfolding insert_at
All-insert_at k zero v slots h p = (p, h)
All-insert_at k (suc i) v [] h p = (p, tt)
All-insert_at k (suc i) v (s ∷ slots) h p = (h.0, All-insert_at k i v slots h.1 p)

less_room : (k : ℕ) (slots : List CachedMr) → All (IsRoomy (suc k)) slots → All (IsRoomy k) slots
less_room k slots = All-map (λ s r. (r.0, omega (arith, r.1))) slots

module _ (page_size : ℕ) (positive : 0 < page_size) (grow : ℕ → Bool) (register : ℕ → ℕ → Result ℕ)
    (start size k : ℕ) (fits : suc k < 2 ^ 32) where
  -- How a registration on the cache `c` ends.
  abbrev pub Added : List CachedMr → Result ℕ × Cache → Type 0
  Added xs out =
      Ends (λ m c'. Adds m xs c'.slots × All (IsRoomy k) c'.slots) (λ _ c'. c'.slots ≡ xs) out

  stored-Added :
      (i addr pages : ℕ) (r : Result ℕ) (c : Cache)
      → All (IsRoomy (suc k)) c.slots
      → Added c.slots (store_new page_size grow register i addr pages r c)
  unfolding store_new
  stored-Added i addr pages (err e) c h = refl
  stored-Added i addr pages (ok m) c h =
      let slot : CachedMr = record { addr = addr; pages = pages; refs = 1; mr = m } in
      (
        λ j. refs_of-insert_at j i slot c.slots,
        All-insert_at k i slot c.slots (less_room k c.slots h) (omega arith, omega arith),
      )

  missed-Added :
      (i addr pages : ℕ) (c : Cache)
      → All (IsRoomy (suc k)) c.slots
      → Added c.slots (register_new page_size grow register i addr pages c)
  unfolding register_new
  missed-Added i addr pages c h = elim (Bool-cases (length c.slots == c.capacity)) [
    | inr e ↦ rw e (stored-Added i addr pages _ c h)
    | inl e ↦ elim (Bool-cases (grow (next_capacity c.capacity))) [
      | inl f ↦
          rw (e, f)
            (stored-Added i addr pages _ (record c { capacity = next_capacity c.capacity }) h)
      | inr f ↦ rw (e, f) refl
    ]
  ]

  hit-Added :
      (i : ℕ) (c : Cache)
      → i < length c.slots
      → All (IsRoomy (suc k)) c.slots
      → Adds
          (get_or c.slots i blank_mr).mr
          c.slots
          (set c.slots i (add_ref (get_or c.slots i blank_mr)))
        × All (IsRoomy k) (set c.slots i (add_ref (get_or c.slots i blank_mr)))
  hit-Added i c l h =
      let old = get_or c.slots i blank_mr in
      let r = All-get_or (IsRoomy (suc k)) c.slots i blank_mr h l in
      let up : inc32 old.refs ≡ old.refs + 1 = omega (arith, r.1) in
      (
        λ j. elim (Bool-cases (j == old.mr)) [
          | inl e ↦
              let same : j ≡ old.mr = (==_iff j old.mr).0 e in
              rw e (
                omega (
                  arith,
                  refs_of-set j c.slots i (add_ref old) l,
                  weight_self j old (sym same),
                  weight_self j (add_ref old) (sym same),
                  up,
                ))
          | inr e ↦
              let apart : j ≢ old.mr = λ d. absurd (ground (arith, d, e)) in
              rw e (
                omega (
                  arith,
                  refs_of-set j c.slots i (add_ref old) l,
                  weight_other j old.mr old refl apart,
                  weight_other j old.mr (add_ref old) refl apart,
                ))
        ],
        All-set (IsRoomy k) c.slots i (add_ref old) (less_room k c.slots h)
            (omega (arith, up), omega (arith, up, r.1)),
      )

  pub reg_mr-Added :
      (c : Cache)
      → All (IsRoomy (suc k)) c.slots
      → Added c.slots (reg_mr page_size grow register start size c)
  unfolding reg_mr
  reg_mr-Added c h =
      go (search page_size (page_start page_size start) (page_count page_size start size) c.slots)
        refl
        (search-Finds page_size positive (page_start page_size start)
          (page_count page_size start size) c.slots)
    where
      go :
          (r : Search)
          → search page_size (page_start page_size start) (page_count page_size start size) c.slots
            ≡ r
          → Finds page_size positive
              (page_start page_size start)
              (page_count page_size start size)
              c.slots
              r
          → Added c.slots (reg_mr page_size grow register start size c)
      go (miss i) e l = rw (reg_mr, e) (missed-Added i _ _ c h)
      go (hit i) e (l, a, p) = rw (reg_mr, e) (hit-Added i c l h)
