-- ===== src/Ib/Device/Merging.antt =====
-- What ncclIbInit of src/unet/unet_ib.cc leaves in the table of merged devices.
use nccl_exts.Prelude.{
  ℕ, zero, suc, ◌+◌, ◌≤◌, ◌<◌, ◌≡◌, ◌⊎◌, inl, inr, refl, ap, sym, ◌∙◌, Bool, true, false, List, [],
  ◌∷◌, ◌++◌, arith, Bool-cases, ◌==◌, leb, ltb, if◌then◌else◌, length, get_or, get_or-append_old,
  get_or-append_new, length-append, All, All-map, All-append, All-get_or,
}
use nccl_exts.Ib.Device.{
  Dev, Merged, dev_at, blank_dev, first_dev, is_alike, max_devs_per_nic, find_matching_dev, put_dev,
}
use nccl_exts.Ib.Device.Discovery.{Devs, add_dev}

-- How often a number stands in a list, and a device among the merged ones.
abbrev pub count : ℕ → List ℕ → ℕ
count k [] = 0
count k (x ∷ xs) = (if k == x then 1 else 0) + count k xs

abbrev pub count_merged : ℕ → List Merged → ℕ
count_merged k [] = 0
count_merged k (m ∷ merged) = count k m.devs + count_merged k merged

abbrev pub total_speed : List Dev → List ℕ → ℕ
total_speed devs [] = 0
total_speed devs (i ∷ is) = (dev_at devs i).speed + total_speed devs is

-- A device of a merged one: known, and the first one of the merged device or like it.
abbrev pub IsMember : List Dev → ℕ → ℕ → Type 0
IsMember devs first i =
    (i < length devs) × ((i ≡ first) ⊎ (is_alike (dev_at devs i) (dev_at devs first) ≡ true))

-- A merged device: one or two devices, alike, and their speeds summed up.
pub record IsMerged (devs : List Dev) (m : Merged) : Type 0 where
  pub has_one : 0 < length m.devs
  pub has_room : length m.devs ≤ max_devs_per_nic
  pub members : All (IsMember devs (first_dev m)) m.devs
  pub speed_sum : m.speed ≡ total_speed devs m.devs

-- The tables: each device below the count is in one merged device, and no other number occurs.
pub record IsTable (s : Devs) : Type 0 where
  pub each_merged : All (IsMerged s.devs) s.merged
  pub each_once : (k : ℕ) → count_merged k s.merged ≡ (if ltb k (length s.devs) then 1 else 0)

module _ (devs : List Dev) (dev : Dev) where
  dev_at-append_old : (i : ℕ) → i < length devs → dev_at (devs ++ (dev ∷ [])) i ≡ dev_at devs i
  dev_at-append_old = get_or-append_old devs (dev ∷ []) blank_dev

  dev_at-append_new : dev_at (devs ++ (dev ∷ [])) (length devs) ≡ dev
  dev_at-append_new = get_or-append_new devs dev blank_dev

  total_speed-append_old :
      (first : ℕ) (is : List ℕ)
      → All (IsMember devs first) is
      → total_speed (devs ++ (dev ∷ [])) is ≡ total_speed devs is
  total_speed-append_old first [] h = refl
  total_speed-append_old first (i ∷ is) h =
      let same = ap (λ (d : Dev). d.speed) (dev_at-append_old i h.0.0) in
      omega (arith, same, total_speed-append_old first is h.1)

  total_speed-append_new :
      (first : ℕ) (is : List ℕ)
      → All (IsMember devs first) is
      → total_speed (devs ++ (dev ∷ [])) (is ++ (length devs ∷ []))
        ≡ total_speed devs is + dev.speed
  total_speed-append_new first [] h =
      let new = ap (λ (d : Dev). d.speed) dev_at-append_new in omega (arith, new)
  total_speed-append_new first (i ∷ is) h =
      let same = ap (λ (d : Dev). d.speed) (dev_at-append_old i h.0.0) in
      omega (arith, same, total_speed-append_new first is h.1)

  -- A member stays one when a device is added to the table.
  IsMember-append :
      (first : ℕ)
      → first < length devs
      → (i : ℕ) → IsMember devs first i
      → IsMember (devs ++ (dev ∷ [])) first i
  IsMember-append first f i (l, alike) = (
    omega (arith, length-append devs (dev ∷ [])),
    elim alike [
      | inl same ↦ inl same
      | inr a ↦ inr (rw (dev_at-append_old i l, dev_at-append_old first f) a)
    ],
  )

  first_dev-lt : (m : Merged) → IsMerged devs m → first_dev m < length devs
  first_dev-lt m h = (All-get_or (IsMember devs (first_dev m)) m.devs 0 0 h.members h.has_one).0

  IsMerged-append_old : (m : Merged) → IsMerged devs m → IsMerged (devs ++ (dev ∷ [])) m
  IsMerged-append_old m h = record {
    has_one = h.has_one;
    has_room = h.has_room;
    members = All-map (IsMember-append (first_dev m) (first_dev-lt m h)) m.devs h.members;
    speed_sum = h.speed_sum ∙ sym (total_speed-append_old (first_dev m) m.devs h.members);
  }

  -- A merged device of its own.
  own : Merged
  own = record { devs = length devs ∷ []; speed = dev.speed; dev_name = dev.dev_name }

  own-IsMerged : IsMerged (devs ++ (dev ∷ [])) own
  unfolding own
  own-IsMerged = record {
    has_one = omega arith;
    has_room = omega arith;
    members = ((omega (arith, length-append devs (dev ∷ [])), inl refl), tt);
    speed_sum = let new = ap (λ (d : Dev). d.speed) dev_at-append_new in omega (arith, new);
  }

  first-append : (xs : List ℕ) (y : ℕ) → 0 < length xs → get_or (xs ++ (y ∷ [])) 0 0 ≡ get_or xs 0 0
  first-append xs y h = get_or-append_old xs (y ∷ []) 0 0 h

  -- The device put into a merged one that has room and whose first device is like it.
  grown : Merged → Merged
  grown m = record {
    devs = m.devs ++ (length devs ∷ []);
    speed = m.speed + dev.speed;
    dev_name = m.dev_name ++ (43 ∷ dev.dev_name);
  }

  grown-IsMerged :
      (m : Merged)
      → IsMerged devs m
      → length m.devs < max_devs_per_nic
      → is_alike dev (dev_at devs (first_dev m)) ≡ true
      → IsMerged (devs ++ (dev ∷ [])) (grown m)
  unfolding grown
  grown-IsMerged m h room alike =
      let old = dev_at-append_old (first_dev m) (first_dev-lt m h) in
      record {
        has_one = omega (arith, length-append m.devs (length devs ∷ []));
        has_room = omega (arith, length-append m.devs (length devs ∷ []));
        members = rw (first-append m.devs (length devs) h.has_one) (
            All-append (IsMember (devs ++ (dev ∷ [])) (first_dev m)) m.devs (length devs ∷ [])
              (All-map (IsMember-append (first_dev m) (first_dev-lt m h)) m.devs h.members)
              (
                (
                  omega (arith, length-append devs (dev ∷ [])),
                  inr (rw (dev_at-append_new, old) alike),
                ),
                tt,
              ));
        speed_sum =
            omega (arith, h.speed_sum, total_speed-append_new (first_dev m) m.devs h.members);
      }

  put_dev-length :
      (merged : List Merged)
      → All (IsMerged devs) merged
      → All (IsMerged (devs ++ (dev ∷ []))) (put_dev (length merged) dev (length devs) merged)
  unfolding put_dev own
  put_dev-length [] h = (own-IsMerged, tt)
  put_dev-length (m ∷ merged) h = (IsMerged-append_old m h.0, put_dev-length merged h.1)

  put_dev-find :
      (merged : List Merged)
      → All (IsMerged devs) merged
      → All
          (IsMerged (devs ++ (dev ∷ [])))
          (put_dev (find_matching_dev dev devs merged) dev (length devs) merged)
  unfolding put_dev find_matching_dev own grown
  put_dev-find [] h = (own-IsMerged, tt)
  put_dev-find (m ∷ merged) h =
      let next : All (IsMerged (devs ++ (dev ∷ [])))
          (m ∷ put_dev (find_matching_dev dev devs merged) dev (length devs) merged) =
        (IsMerged-append_old m h.0, put_dev-find merged h.1) in
      elim (Bool-cases (leb max_devs_per_nic (length m.devs))) [
        | inl full ↦ rw full next
        | inr room ↦ rw room (elim (Bool-cases (is_alike dev (dev_at devs (first_dev m)))) [
          | inl alike ↦
              rw alike
                (grown-IsMerged m h.0 (ground arith) alike, All-map IsMerged-append_old merged h.1)
          | inr other ↦ rw other next
        ])
      ]

count-append :
    (k x : ℕ) (xs : List ℕ) → count k (xs ++ (x ∷ [])) ≡ count k xs + (if k == x then 1 else 0)
count-append k x [] = omega arith
count-append k x (y ∷ ys) = omega (arith, count-append k x ys)

count_merged-put_dev :
    (k i : ℕ) (dev : Dev) (n : ℕ) (merged : List Merged)
    → count_merged k (put_dev i dev n merged) ≡ count_merged k merged + (if k == n then 1 else 0)
unfolding put_dev
count_merged-put_dev k i dev n [] = omega arith
count_merged-put_dev k zero dev n (m ∷ merged) = omega (arith, count-append k n m.devs)
count_merged-put_dev k (suc i) dev n (m ∷ merged) =
    omega (arith, count_merged-put_dev k i dev n merged)

pub add_dev-IsTable :
    (merges : Bool) (dev : Dev) (s : Devs) → IsTable s → IsTable (add_dev merges dev s)
unfolding add_dev
add_dev-IsTable true dev s h = record {
  each_merged = put_dev-find s.devs dev s.merged h.each_merged;
  each_once = λ k. ground (
    arith,
    h.each_once k,
    length-append s.devs (dev ∷ []),
    count_merged-put_dev k (find_matching_dev dev s.devs s.merged) dev (length s.devs) s.merged,
  );
}
add_dev-IsTable false dev s h = record {
  each_merged = put_dev-length s.devs dev s.merged h.each_merged;
  each_once = λ k. ground (
    arith,
    h.each_once k,
    length-append s.devs (dev ∷ []),
    count_merged-put_dev k (length s.merged) dev (length s.devs) s.merged,
  );
}
