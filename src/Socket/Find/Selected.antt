-- ===== src/Socket/Find/Selected.antt =====
-- What findInterfaces of src/unet/socket.cc selects.
use mathlib.Core.Path.{subst}
use nccl_exts.Prelude.{
  ℕ, ◌≤◌, ◌<◌, ◌≡◌, ◌↔◌, ◌⊎◌, inl, inr, refl, sym, true, Bool-cases, List, [], ◌∷◌, ◌++◌, arith,
  ltb, length, length-append, All, All-append,
}
use nccl_exts.Prelude.Int.{ℤ}
use nccl_exts.Interfaces.{match_if}
use nccl_exts.Interfaces.Matches.{match_if-Matches}
use nccl_exts.Socket.Find.{
  NetInterface, SockFamily, same_text, Wish, is_wanted, FoundIf, is_saved, save_if, find_from,
  wish_of, find_interfaces,
}
use nccl_exts.Socket.Find.Fits.{Fits, is_wanted-Fits}

-- The name is among those found.
abbrev pub Saved : List ℕ → List FoundIf → Type 0
Saved name [] = ⊥
Saved name (x ∷ found) = (name ≡ x.name) ⊎ Saved name found

same_text_iff : (a b : List ℕ) → (same_text a b ≡ true) ↔ (a ≡ b)
unfolding match_if
same_text_iff a b = match_if-Matches a b true

is_saved-Saved :
    (name : List ℕ) (found : List FoundIf) → (is_saved name found ≡ true) ↔ Saved name found
unfolding is_saved
is_saved-Saved name [] = (λ h. absurd (ground (arith, h)), λ h. absurd h)
is_saved-Saved name (x ∷ found) =
    let (fwd, back) = same_text_iff name x.name in
    let (fwd', back') = is_saved-Saved name found in
    (
      λ h. elim (Bool-cases (same_text name x.name)) [
        | inl t ↦ inl (fwd t)
        | inr f ↦ inr (fwd' (simp f at h))
      ],
      λ h. elim h [
        | inl m ↦ simp (back m)
        | inr l ↦ elim (Bool-cases (same_text name x.name)) [
          | inl t ↦ simp t
          | inr f ↦ simp (f, back' l)
        ]
      ],
    )

-- No name is there twice.
abbrev pub AreDistinct : List FoundIf → Type 0
AreDistinct [] = Unit
AreDistinct (x ∷ found) = (Saved x.name found → ⊥) × AreDistinct found

Saved-append_old : (name : List ℕ) (xs ys : List FoundIf) → Saved name xs → Saved name (xs ++ ys)
Saved-append_old name [] ys h = absurd h
Saved-append_old name (x ∷ xs) ys (inl e) = inl e
Saved-append_old name (x ∷ xs) ys (inr h) = inr (Saved-append_old name xs ys h)

Saved-append_new :
    (name : List ℕ) (xs : List FoundIf) (y : FoundIf) → name ≡ y.name → Saved name (xs ++ (y ∷ []))
Saved-append_new name [] y e = inl e
Saved-append_new name (x ∷ xs) y e = inr (Saved-append_new name xs y e)

Saved-of_append :
    (name : List ℕ) (xs : List FoundIf) (y : FoundIf)
    → Saved name (xs ++ (y ∷ []))
    → Saved name xs ⊎ (name ≡ y.name)
Saved-of_append name [] y (inl e) = inr e
Saved-of_append name [] y (inr h) = absurd h
Saved-of_append name (x ∷ xs) y (inl e) = inl (inl e)
Saved-of_append name (x ∷ xs) y (inr h) = elim (Saved-of_append name xs y h) [
  | inl old ↦ inl (inr old)
  | inr new ↦ inr new
]

AreDistinct-append :
    (xs : List FoundIf) (y : FoundIf)
    → AreDistinct xs
    → (Saved y.name xs → ⊥)
    → AreDistinct (xs ++ (y ∷ []))
AreDistinct-append [] y d n = ((λ h. h), tt)
AreDistinct-append (x ∷ xs) y (d, ds) n = (
  λ h. elim (Saved-of_append x.name xs y h) [ inl old ↦ d old | inr e ↦ n (inl (sym e)) ],
  AreDistinct-append xs y ds (λ h. n (inr h)),
)

-- The entry of an interface.
abbrev entry : NetInterface → FoundIf
entry i = record { name = i.name; addr = i.addr }

module _ (f : SockFamily) (w : Wish) where
  -- An interface is saved when it fits and its name is not there yet.
  save_if_cases :
      (i : NetInterface) (found : List FoundIf)
      → (Fits f w i × ((Saved i.name found → ⊥) × (save_if f w i found ≡ found ++ (entry i ∷ []))))
        ⊎ ((Fits f w i → Saved i.name found) × (save_if f w i found ≡ found))
  unfolding save_if
  save_if_cases i found =
      let (fits, unfits) = is_wanted-Fits f w i in
      let (saved, unsaved) = is_saved-Saved i.name found in
      elim (Bool-cases (is_wanted f w i)) [
        | inr n ↦ inr (λ h. absurd (ground (arith, n, unfits h)), simp n refl)
        | inl t ↦ elim (Bool-cases (is_saved i.name found)) [
          | inl s ↦ inr (λ _. saved s, simp (t, s) refl)
          | inr n ↦ inl (fits t, (λ h. absurd (ground (arith, n, unsaved h)), simp (t, n) refl))
        ]
      ]

-- An interface of the list.
abbrev pub IsOneOf : NetInterface → List NetInterface → Type 0
IsOneOf i [] = ⊥
IsOneOf i (j ∷ interfaces) = (i ≡ j) ⊎ IsOneOf i interfaces

-- The interface that an entry was saved for.
abbrev pub IsEntryOf : SockFamily → Wish → List NetInterface → FoundIf → Type 0
IsEntryOf f w interfaces x =
    (i : NetInterface) × (IsOneOf i interfaces
      × (Fits f w i × ((i.name ≡ x.name) × (i.addr ≡ x.addr))))

-- What was found: no more than there is room for, each an interface that fits, no name twice, and
-- while there is room, a name for each interface that fits.
pub record IsSelection (max_ifs : ℕ) (f : SockFamily) (w : Wish) (interfaces : List NetInterface)
    (found : List FoundIf) : Type 0 where
  pub few : length found ≤ max_ifs
  pub entries : All (IsEntryOf f w interfaces) found
  pub distinct : AreDistinct found
  pub complete :
      length found < max_ifs
      → (i : NetInterface) → IsOneOf i interfaces
      → Fits f w i
      → Saved i.name found

-- What the loop makes of what was found before; `all` is the whole list.
record Grows (max_ifs : ℕ) (f : SockFamily) (w : Wish) (all rest : List NetInterface)
    (old new : List FoundIf) : Type 0 where
  few : length old ≤ max_ifs → length new ≤ max_ifs
  entries : All (IsEntryOf f w all) old → All (IsEntryOf f w all) new
  distinct : AreDistinct old → AreDistinct new
  kept : (name : List ℕ) → Saved name old → Saved name new
  complete :
      length new < max_ifs → (i : NetInterface) → IsOneOf i rest → Fits f w i → Saved i.name new

module _ (max_ifs : ℕ) (f : SockFamily) (w : Wish) (all : List NetInterface) where
  save_if-Saved :
      (i : NetInterface) (found : List FoundIf) → Fits f w i → Saved i.name (save_if f w i found)
  save_if-Saved i found k = elim (save_if_cases f w i found) [
    | inr (saved, same) ↦ rw same (saved k)
    | inl (fits, (fresh, new)) ↦ rw new (Saved-append_new i.name found (entry i) refl)
  ]

  save_if-Grows :
      (i : NetInterface) (found : List FoundIf)
      → length found < max_ifs
      → IsOneOf i all
      → Grows max_ifs f w all [] found (save_if f w i found)
  save_if-Grows i found l one = elim (save_if_cases f w i found) [
    | inr (saved, same) ↦ rw same (record {
      few = λ h. h;
      entries = λ h. h;
      distinct = λ h. h;
      kept = λ name h. h;
      complete = λ _ j h. absurd h;
    })
    | inl (fits, (fresh, new)) ↦ rw new (record {
      few = λ h. omega (arith, length-append found (entry i ∷ []));
      entries = λ h.
          All-append (IsEntryOf f w all) found (entry i ∷ []) h
            ((i, (one, (fits, (refl, refl)))), tt);
      distinct = λ h. AreDistinct-append found (entry i) h fresh;
      kept = λ name h. Saved-append_old name found (entry i ∷ []) h;
      complete = λ _ j h. absurd h;
    })
  ]

  find_from-Grows :
      (rest : List NetInterface) (found : List FoundIf)
      → ((i : NetInterface) → IsOneOf i rest → IsOneOf i all)
      → Grows max_ifs f w all rest found (find_from max_ifs f w rest found)
  unfolding find_from
  find_from-Grows [] found inside = record {
    few = λ h. h;
    entries = λ h. h;
    distinct = λ h. h;
    kept = λ name h. h;
    complete = λ _ i h. absurd h;
  }
  find_from-Grows (i ∷ rest) found inside = elim (Bool-cases (ltb (length found) max_ifs)) [
    | inr n ↦ simp n (record {
      few = λ h. h;
      entries = λ h. h;
      distinct = λ h. h;
      kept = λ name h. h;
      complete = λ l _ _ _. absurd (ground (arith, n, l));
    })
    | inl t ↦
        let a = save_if-Grows i found (ground (arith, t)) (inside i (inl refl)) in
        let b = find_from-Grows rest (save_if f w i found) (λ j h. inside j (inr h)) in
        simp t (record {
          few = λ h. b.few (a.few h);
          entries = λ h. b.entries (a.entries h);
          distinct = λ h. b.distinct (a.distinct h);
          kept = λ name h. b.kept name (a.kept name h);
          complete = λ l j h k. elim h [
            | inl e ↦ b.kept j.name (
                subst (λ x. Saved x.name (save_if f w i found)) (sym e)
                  (save_if-Saved i found (subst (Fits f w) e k)))
            | inr later ↦ b.complete l j later k
          ];
        })
  ]

-- findInterfaces answers no more interfaces than it has room for, no name twice, and only
-- interfaces of the list that are of the family and that the prefix list asks for; and when there
-- is room left, the name of every such interface is among them.
pub find_interfaces-IsSelection :
    (atoi : List ℕ → ℤ) (prefix_list : List ℕ) (f : SockFamily) (max_ifs : ℕ)
    (interfaces : List NetInterface)
    → IsSelection max_ifs f
        (wish_of atoi prefix_list)
        interfaces
        (find_interfaces atoi prefix_list f max_ifs interfaces)
unfolding find_interfaces
find_interfaces-IsSelection atoi prefix_list f max_ifs interfaces =
    let w = wish_of atoi prefix_list in
    let g = find_from-Grows max_ifs f w interfaces interfaces [] (λ i h. h) in
    record {
      few = g.few (omega arith);
      entries = g.entries tt;
      distinct = g.distinct tt;
      complete = g.complete;
    }
