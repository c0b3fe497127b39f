-- ===== src/Prelude/Lists.antt =====
-- Arrays as lists measured and indexed by native numbers, under the library's names.
use Prim.Native.Nat.{ℕ, zero, suc, ◌+◌, ◌≤◌, ◌<◌, min}
use mathlib.Core.Path.{◌≡◌, refl, ap}
use mathlib.Core.Logic.{◌≢◌, ◌⊎◌, inl, inr}
use mathlib.Core.List.{List, [], ◌∷◌, ◌++◌, map}
use mathlib.Core.Option.{Option, none, some}
use native.Mathlib.Omega.{arith}

module _ {ℓ} {A : Type ℓ} where
  abbrev pub length : List A → ℕ
  length [] = 0
  length (x ∷ xs) = suc (length xs)

  abbrev pub get_elem? : List A → ℕ → Option A
  get_elem? [] i = none
  get_elem? (x ∷ xs) zero = some x
  get_elem? (x ∷ xs) (suc i) = get_elem? xs i

  abbrev pub get_or : List A → ℕ → A → A
  get_or [] i d = d
  get_or (x ∷ xs) zero d = x
  get_or (x ∷ xs) (suc i) d = get_or xs i d

  -- A write out of bounds changes nothing.
  abbrev pub set : List A → ℕ → A → List A
  set [] i v = []
  set (x ∷ xs) zero v = v ∷ xs
  set (x ∷ xs) (suc i) v = x ∷ set xs i v

  abbrev pub take : ℕ → List A → List A
  take zero xs = []
  take (suc n) [] = []
  take (suc n) (x ∷ xs) = x ∷ take n xs

  abbrev pub drop : ℕ → List A → List A
  drop zero xs = xs
  drop (suc n) [] = []
  drop (suc n) (x ∷ xs) = drop n xs

  abbrev pub replicate : ℕ → A → List A
  replicate zero a = []
  replicate (suc n) a = a ∷ replicate n a

  pub length-append : (xs ys : List A) → length (xs ++ ys) ≡ length xs + length ys
  length-append [] ys = omega arith
  length-append (x ∷ xs) ys = omega (arith, length-append xs ys)

  -- An entry in front of what is appended, and the one appended.
  pub get_or-append_old :
      (xs ys : List A) (d : A) (i : ℕ) → i < length xs → get_or (xs ++ ys) i d ≡ get_or xs i d
  get_or-append_old [] ys d i h = absurd (omega arith)
  get_or-append_old (x ∷ xs) ys d zero h = refl
  get_or-append_old (x ∷ xs) ys d (suc i) h = get_or-append_old xs ys d i (omega arith)

  pub get_or-append_new : (xs : List A) (y d : A) → get_or (xs ++ (y ∷ [])) (length xs) d ≡ y
  get_or-append_new [] y d = refl
  get_or-append_new (x ∷ xs) y d = get_or-append_new xs y d

  pub length-set : (xs : List A) (i : ℕ) (v : A) → length (set xs i v) ≡ length xs
  length-set [] i v = refl
  length-set (x ∷ xs) zero v = refl
  length-set (x ∷ xs) (suc i) v = ap suc (length-set xs i v)

  pub get_or-set_self :
      (xs : List A) (i : ℕ) (v d : A) → i < length xs → get_or (set xs i v) i d ≡ v
  get_or-set_self [] i v d h = absurd (omega arith)
  get_or-set_self (x ∷ xs) zero v d h = refl
  get_or-set_self (x ∷ xs) (suc i) v d h = get_or-set_self xs i v d (omega arith)

  pub get_or-set_ne :
      (xs : List A) (i j : ℕ) (v d : A) → i ≢ j → get_or (set xs i v) j d ≡ get_or xs j d
  get_or-set_ne [] i j v d h = refl
  get_or-set_ne (x ∷ xs) zero zero v d h = absurd (h refl)
  get_or-set_ne (x ∷ xs) zero (suc j) v d h = refl
  get_or-set_ne (x ∷ xs) (suc i) zero v d h = refl
  get_or-set_ne (x ∷ xs) (suc i) (suc j) v d h = get_or-set_ne xs i j v d (λ e. h (ap suc e))

  -- After a write an entry is as before, or it is the one written.
  pub get_or-set_cases :
      (xs : List A) (i j : ℕ) (v d : A)
      → (get_or (set xs i v) j d ≡ get_or xs j d) ⊎ ((i ≡ j) × (get_or (set xs i v) j d ≡ v))
  get_or-set_cases [] i j v d = inl refl
  get_or-set_cases (x ∷ xs) zero zero v d = inr (refl, refl)
  get_or-set_cases (x ∷ xs) zero (suc j) v d = inl refl
  get_or-set_cases (x ∷ xs) (suc i) zero v d = inl refl
  get_or-set_cases (x ∷ xs) (suc i) (suc j) v d = elim (get_or-set_cases xs i j v d) [
    | inl same ↦ inl same
    | inr (e, new) ↦ inr (ap suc e, new)
  ]

  pub length-replicate : (n : ℕ) (a : A) → length (replicate n a) ≡ n
  length-replicate zero a = refl
  length-replicate (suc n) a = ap suc (length-replicate n a)

  pub length-take : (n : ℕ) (xs : List A) → length (take n xs) ≡ min n (length xs)
  length-take zero xs = omega arith
  length-take (suc n) [] = omega arith
  length-take (suc n) (x ∷ xs) = omega (arith, length-take n xs)

  pub take-append_old : (n : ℕ) (xs ys : List A) → n ≤ length xs → take n (xs ++ ys) ≡ take n xs
  take-append_old zero xs ys h = refl
  take-append_old (suc n) [] ys h = absurd (omega arith)
  take-append_old (suc n) (x ∷ xs) ys h = ap (x ∷◌) (take-append_old n xs ys (omega arith))

  pub take-append_all : (xs ys : List A) → take (length xs) (xs ++ ys) ≡ xs
  take-append_all [] ys = refl
  take-append_all (x ∷ xs) ys = ap (x ∷◌) (take-append_all xs ys)

  -- A predicate that holds of every element.
  abbrev pub All {κ} : (A → Type κ) → List A → Type κ
  All P [] = Unit
  All P (x ∷ xs) = P x × All P xs

  pub All-get_or {κ} :
      (P : A → Type κ) (xs : List A) (i : ℕ) (d : A) → All P xs → i < length xs → P (get_or xs i d)
  All-get_or P [] i d h l = absurd (omega arith)
  All-get_or P (x ∷ xs) zero d h l = h.0
  All-get_or P (x ∷ xs) (suc i) d h l = All-get_or P xs i d h.1 (omega arith)

  pub All-from_get_or {κ} :
      (P : A → Type κ) (xs : List A) (d : A)
      → ((i : ℕ) → i < length xs → P (get_or xs i d))
      → All P xs
  All-from_get_or P [] d h = tt
  All-from_get_or P (x ∷ xs) d h =
      (h 0 (omega arith), All-from_get_or P xs d (λ i l. h (suc i) (omega arith)))

  pub All-set {κ} :
      (P : A → Type κ) (xs : List A) (i : ℕ) (v : A) → All P xs → P v → All P (set xs i v)
  All-set P [] i v h p = h
  All-set P (x ∷ xs) zero v h p = (p, h.1)
  All-set P (x ∷ xs) (suc i) v h p = (h.0, All-set P xs i v h.1 p)

  pub All-append {κ} : (P : A → Type κ) (xs ys : List A) → All P xs → All P ys → All P (xs ++ ys)
  All-append P [] ys hx hy = hy
  All-append P (x ∷ xs) ys hx hy = (hx.0, All-append P xs ys hx.1 hy)

  pub All-map {κ ι} :
      {P : A → Type κ} {Q : A → Type ι}
      → ((x : A) → P x → Q x)
      → (xs : List A) → All P xs
      → All Q xs
  All-map f [] p = tt
  All-map f (x ∷ xs) p = (f x p.0, All-map f xs p.1)

  -- What holds of every element follows from two things that do.
  pub All-zip {κ ι ο} :
      {P : A → Type κ} {Q : A → Type ι} {R : A → Type ο}
      → ((x : A) → P x → Q x → R x)
      → (xs : List A) → All P xs
      → All Q xs
      → All R xs
  All-zip f [] p q = tt
  All-zip f (x ∷ xs) p q = (f x p.0 q.0, All-zip f xs p.1 q.1)

module _ {ℓ κ} {A : Type ℓ} {B : Type κ} where
  -- Two maps agree on a list when they agree on its elements.
  pub map-congr : (f g : A → B) (xs : List A) → All (λ (x : A). f x ≡ g x) xs → map f xs ≡ map g xs
  map-congr f g [] h = refl
  map-congr f g (x ∷ xs) h = λ i. h.0 i ∷ map-congr f g xs h.1 i

  -- A map after a map agrees with one map when the three agree on the elements.
  pub map-map_congr {ι} :
      {C : Type ι} (f : B → C) (g : A → B) (h : A → C) (xs : List A)
      → All (λ (x : A). f (g x) ≡ h x) xs
      → map f (map g xs) ≡ map h xs
  map-map_congr f g h [] e = refl
  map-map_congr f g h (x ∷ xs) e = λ i. e.0 i ∷ map-map_congr f g h xs e.1 i

  pub length-map : (f : A → B) (xs : List A) → length (map f xs) ≡ length xs
  length-map f [] = refl
  length-map f (x ∷ xs) = ap suc (length-map f xs)
