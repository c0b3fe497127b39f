-- ===== src/Interfaces/Matches.antt =====
-- What matchIf and parseStringList of src/unet/misc.cc promise.
use nccl_exts.Prelude.{
  ℕ, zero, suc, ◌+◌, ◌≤◌, ◌≡◌, ◌↔◌, refl, ap₂, Bool, true, false, List, [], ◌∷◌, ◌++◌, Option, none,
  some, arith, length,
}
use nccl_exts.Prelude.Int.{ℤ}
use nccl_exts.Interfaces.{equal_up_to, match_if, NetIf, add_item, parse_from, parse_string_list}

-- The name is the one asked for, or begins with it.
abbrev pub Matches : Bool → List ℕ → List ℕ → Type 0
Matches true string ref = string ≡ ref
Matches false string ref = (rest : List ℕ) × (string ≡ ref ++ rest)

exact_sound : (a b : List ℕ) → equal_up_to (suc (length a)) a b ≡ true → a ≡ b
unfolding equal_up_to
exact_sound [] [] h = refl
exact_sound [] (y ∷ ys) h = cc
exact_sound (x ∷ xs) [] h = cc
exact_sound (x ∷ xs) (y ∷ ys) h =
    let same : x ≡ y = ground arith in
    ap₂ (λ (z : ℕ) (zs : List ℕ). z ∷ zs) same (exact_sound xs ys (ground arith))

exact_refl : (a : List ℕ) → equal_up_to (suc (length a)) a a ≡ true
unfolding equal_up_to
exact_refl [] = refl
exact_refl (x ∷ xs) = ground (arith, exact_refl xs)

prefix_sound : (a b : List ℕ) → equal_up_to (length b) a b ≡ true → Matches false a b
unfolding equal_up_to
prefix_sound a [] h = (a, refl)
prefix_sound [] (y ∷ ys) h = cc
prefix_sound (x ∷ xs) (y ∷ ys) h =
    let same : x ≡ y = ground arith in
    let (rest, e) = prefix_sound xs ys (ground arith) in
    (rest, ap₂ (λ (z : ℕ) (zs : List ℕ). z ∷ zs) same e)

prefix_refl : (b rest : List ℕ) → equal_up_to (length b) (b ++ rest) b ≡ true
unfolding equal_up_to
prefix_refl [] rest = refl
prefix_refl (y ∷ ys) rest = ground (arith, prefix_refl ys rest)

-- matchIf holds of an interface name and an item of the list exactly when they are equal, for an
-- exact match, and exactly when the name begins with the item otherwise.
pub match_if-Matches :
    (string ref : List ℕ) (exact : Bool)
    → (match_if string ref exact ≡ true) ↔ Matches exact string ref
unfolding match_if
match_if-Matches string ref true = (exact_sound string ref, λ e. rw e (exact_refl ref))
match_if-Matches string ref false =
    (prefix_sound string ref, λ (rest, e). rw e (prefix_refl ref rest))

add_item-le :
    (n : ℕ) (prefix : List ℕ) (port : ℤ) (others rest : List NetIf)
    → length others + 1 ≤ n
    → length rest ≤ n
    → length (add_item prefix port others rest) ≤ n
add_item-le n [] port others rest h k = k
add_item-le n (c ∷ cs) port others rest h k = omega arith

parse_from-le :
    (atoi : List ℕ → ℤ) (left : ℕ) (prefix : List ℕ) (skips : Bool) (string : List ℕ)
    → length (parse_from atoi left prefix skips string) ≤ left
unfolding parse_from
parse_from-le atoi zero prefix skips string = omega arith
parse_from-le atoi (suc left) prefix true [] = omega arith
parse_from-le atoi (suc left) prefix true (c ∷ cs) =
    ground (
      arith,
      parse_from-le atoi (suc left) [] false cs,
      parse_from-le atoi (suc left) prefix true cs,
    )
parse_from-le atoi (suc left) prefix false [] =
    add_item-le (suc left) prefix (ℤ.negsuc 0) [] [] (omega arith) (omega arith)
parse_from-le atoi (suc left) prefix false (c ∷ cs) =
    let at_colon =
      add_item-le (suc left) prefix (atoi cs) (parse_from atoi left [] true cs)
        (parse_from atoi (suc left) [] true cs) (omega (arith, parse_from-le atoi left [] true cs))
        (parse_from-le atoi (suc left) [] true cs) in
    let at_comma =
      add_item-le (suc left) prefix (ℤ.negsuc 0) (parse_from atoi left [] false cs)
        (parse_from atoi (suc left) [] false cs)
        (omega (arith, parse_from-le atoi left [] false cs))
        (parse_from-le atoi (suc left) [] false cs) in
    ground (arith, at_colon, at_comma, parse_from-le atoi (suc left) (prefix ++ (c ∷ [])) false cs)

-- parseStringList answers no more items than the array has room for, whatever the string.
parse_string_list-le :
    (atoi : List ℕ → ℤ) (max_list : ℕ) (string : Option (List ℕ))
    → length (parse_string_list atoi max_list string) ≤ max_list
unfolding parse_string_list
parse_string_list-le atoi max_list none = omega arith
parse_string_list-le atoi max_list (some string) = parse_from-le atoi max_list [] false string
