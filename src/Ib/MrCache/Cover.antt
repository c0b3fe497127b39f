-- ===== src/Ib/MrCache/Cover.antt =====
-- A registration of src/unet/unet_ib.cc answers a region that covers the bytes asked for.
use mathlib.Core.Path.{subst}
use native.Mathlib.Nat.{div-add-mod', mul-div_cancel, mul-sub, mul-mod_left}
use nccl_exts.Prelude.{
  ℕ, zero, suc, ◌+◌, ◌-◌, ◌*◌, ◌/◌, ◌%◌, ◌≤◌, ◌<◌, ◌≡◌, refl, sym, ap, Bool-cases, inl, inr, List,
  [], ◌∷◌, arith, length, get_or, All, All-set, All-get_or, ltb, leb, ◌==◌, get_or-set_self,
  length-set, Bool,
}
use nccl_exts.Prelude.Nccl.{Result, ok, err, NcclResult, Ends}
use nccl_exts.Ib.MrCache.{
  CachedMr, Cache, Search, hit, miss, later, blank_mr, insert_at, add_ref, page_start, page_count,
  search, store_new, register_new, reg_mr, next_capacity,
}

module _ (page_size : ℕ) (positive : 0 < page_size) where
  -- The slot begins at a page.
  abbrev pub IsAligned : CachedMr → Type 0
  IsAligned s = s.addr % page_size ≡ 0

  -- The slot holds the `size` bytes from `start` on.
  abbrev pub Covers : ℕ → ℕ → CachedMr → Type 0
  Covers start size s = (s.addr ≤ start) × (start + size ≤ s.addr + s.pages * page_size)

  -- What the search may answer.
  abbrev pub Finds : ℕ → ℕ → List CachedMr → Search → Type 0
  Finds addr pages slots (hit i) =
      (i < length slots)
      × ((get_or slots i blank_mr).addr ≤ addr)
      × ((addr - (get_or slots i blank_mr).addr) / page_size + pages
          ≤ (get_or slots i blank_mr).pages)
  Finds addr pages slots (miss i) = i ≤ length slots

  later-Finds :
      (addr pages : ℕ) (s : CachedMr) (slots : List CachedMr) (r : Search)
      → Finds addr pages slots r
      → Finds addr pages (s ∷ slots) (later r)
  later-Finds addr pages s slots (hit i) (l, a, p) = (omega arith, a, p)
  later-Finds addr pages s slots (miss i) l = omega arith

  pub search-Finds :
      (addr pages : ℕ) (slots : List CachedMr)
      → Finds addr pages slots (search page_size addr pages slots)
  unfolding search
  search-Finds addr pages [] = omega arith
  search-Finds addr pages (s ∷ slots) = elim (Bool-cases (ltb addr s.addr)) [
    | inl e ↦ rw (search, e) (omega arith)
    | inr e ↦ elim (Bool-cases (leb ((addr - s.addr) / page_size + pages) s.pages)) [
      | inl f ↦ rw (search, e, f) (omega arith, ground arith, ground arith)
      | inr f ↦
          rw (search, e, f)
            (later-Finds addr pages s slots (search page_size addr pages slots)
              (search-Finds addr pages slots))
    ]
  ]

  -- The pages asked for hold the bytes asked for.
  pages-Covers :
      (start size : ℕ)
      → start + size ≤ page_start page_size start + page_count page_size start size * page_size
  pages-Covers start size = grind arith

  times_le : (a b : ℕ) → a ≤ b → a * page_size ≤ b * page_size
  times_le a b h = grind arith

  pages_between :
      (q a : ℕ)
      → a % page_size ≡ 0
      → a ≤ q * page_size
      → (q * page_size - a) / page_size * page_size ≡ q * page_size - a
  pages_between q a e h =
      let whole : a ≡ a / page_size * page_size = omega (arith, div-add-mod' a page_size) in
      let apart : q * page_size - a ≡ (q - a / page_size) * page_size =
        omega (arith, mul-sub page_size q (a / page_size), whole) in
      rw apart (ap (λ (x : ℕ). x * page_size) (mul-div_cancel (q - a / page_size) positive))

  page_start-le : (start : ℕ) → page_start page_size start ≤ start
  page_start-le start = grind arith

  hit-Covers :
      (start size : ℕ) (s : CachedMr)
      → IsAligned s
      → s.addr ≤ page_start page_size start
      → (page_start page_size start - s.addr) / page_size + page_count page_size start size
        ≤ s.pages
      → Covers start size s
  hit-Covers start size s al le fit =
      let far = pages_between (start / page_size) s.addr al le in
      let many = times_le _ _ fit in
      (omega (arith, page_start-le start), grind (arith, pages-Covers start size))

  insert_at_self :
      (i : ℕ) (m : CachedMr) (slots : List CachedMr)
      → i ≤ length slots
      → (i < length (insert_at i m slots)) × (get_or (insert_at i m slots) i blank_mr ≡ m)
  unfolding insert_at
  insert_at_self zero m slots h = (omega arith, refl)
  insert_at_self (suc i) m [] h = absurd (omega arith)
  insert_at_self (suc i) m (s ∷ slots) h =
      let (l, e) = insert_at_self i m slots (omega arith) in (omega (arith, l), e)

  All-insert_at :
      (i : ℕ) (m : CachedMr) (slots : List CachedMr)
      → All IsAligned slots
      → IsAligned m
      → All IsAligned (insert_at i m slots)
  unfolding insert_at
  All-insert_at zero m slots h p = (p, h)
  All-insert_at (suc i) m [] h p = (p, tt)
  All-insert_at (suc i) m (s ∷ slots) h p = (h.0, All-insert_at i m slots h.1 p)

  page_start-IsAligned : (start : ℕ) → page_start page_size start % page_size ≡ 0
  page_start-IsAligned start = mul-mod_left (start / page_size) page_size

  -- The region `m` that a call for `size` bytes from `start` on has answered is that of a slot that
  -- covers them, and all slots begin at a page still.
  abbrev pub Registered : ℕ → ℕ → ℕ → Cache → Type 0
  Registered start size m c =
      All IsAligned c.slots
      × ((i : ℕ) × (i < length c.slots)
          × ((get_or c.slots i blank_mr).mr ≡ m)
          × Covers start size (get_or c.slots i blank_mr))

  abbrev pub Kept : Cache → NcclResult → Cache → Type 0
  Kept c e c' = c'.slots ≡ c.slots

  module _ (grow : ℕ → Bool) (register : ℕ → ℕ → Result ℕ) (start size : ℕ) where
    stored :
        (i : ℕ) (r : Result ℕ) (c : Cache)
        → All IsAligned c.slots
        → i ≤ length c.slots
        → Ends (Registered start size) (Kept c) (
            store_new page_size grow register i
              (page_start page_size start)
              (page_count page_size start size)
              r
              c)
    unfolding store_new
    stored i (err e) c al l = refl
    stored i (ok m) c al l =
        let slot : CachedMr = record {
          addr = page_start page_size start;
          pages = page_count page_size start size;
          refs = 1;
          mr = m;
        } in
        let (inside, at) = insert_at_self i slot c.slots l in
        (
          All-insert_at i slot c.slots al (page_start-IsAligned start),
          (
            i,
            inside,
            ap (λ (s : CachedMr). s.mr) at,
            subst (Covers start size) (sym at) (page_start-le start, pages-Covers start size),
          ),
        )

    missed :
        (i : ℕ) (c : Cache)
        → All IsAligned c.slots
        → i ≤ length c.slots
        → Ends (Registered start size) (Kept c) (
            register_new page_size grow register i
              (page_start page_size start)
              (page_count page_size start size)
              c)
    unfolding register_new
    missed i c al l = elim (Bool-cases (length c.slots == c.capacity)) [
      | inr e ↦ rw e (stored i _ c al l)
      | inl e ↦ elim (Bool-cases (grow (next_capacity c.capacity))) [
        | inl f ↦ rw (e, f) (stored i _ (record c { capacity = next_capacity c.capacity }) al l)
        | inr f ↦ rw (e, f) refl
      ]
    ]

    -- On a cache whose slots begin at pages, ncclIbRegMrDmaBufInternal answers the region of a
    -- slot that covers the bytes asked for, whether it was there before or is new, and the slots
    -- begin at pages still; when it fails, the slots are as before.
    pub reg_mr-Covers :
        (c : Cache)
        → All IsAligned c.slots
        → Ends (Registered start size) (Kept c) (reg_mr page_size grow register start size c)
    unfolding reg_mr
    reg_mr-Covers c al =
        go (search page_size (page_start page_size start) (page_count page_size start size) c.slots)
          refl (search-Finds (page_start page_size start) (page_count page_size start size) c.slots)
      where
        go :
            (r : Search)
            → search page_size
                (page_start page_size start)
                (page_count page_size start size)
                c.slots
              ≡ r
            → Finds (page_start page_size start) (page_count page_size start size) c.slots r
            → Ends (Registered start size) (Kept c) (reg_mr page_size grow register start size c)
        go (miss i) e l = rw (reg_mr, e) (missed i c al l)
        go (hit i) e (l, a, p) =
            let old = get_or c.slots i blank_mr in
            let aligned = All-get_or IsAligned c.slots i blank_mr al l in
            let at = get_or-set_self c.slots i (add_ref old) blank_mr l in
            rw (reg_mr, e)
              (
                All-set IsAligned c.slots i (add_ref old) al aligned,
                (
                  i,
                  omega (arith, l, length-set c.slots i (add_ref old)),
                  ap (λ (s : CachedMr). s.mr) at,
                  subst (Covers start size) (sym at) (hit-Covers start size old aligned a p),
                ),
              )
