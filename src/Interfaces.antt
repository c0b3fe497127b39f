-- ===== src/Interfaces.antt =====
-- The lists of network interfaces and the parameters of src/unet/misc.cc. A string is the list of
-- its character codes, without the 0 that ends it.
pub mod Matches
mod Tests
use nccl_exts.Prelude.{
  ℕ, zero, suc, ◌-◌, Bool, true, false, not, ◌&&◌, ◌||◌, List, [], ◌∷◌, ◌++◌, Option, none, some,
  ◌==◌, if◌then◌else◌, length,
}
use nccl_exts.Prelude.Int.{ℤ, pos, negsuc}

-- struct netIf.
pub record NetIf : Type 0 where
  pub prefix : List ℕ
  pub port : ℤ

abbrev comma : ℕ
comma = 44

abbrev colon : ℕ
colon = 58

-- strncmp(a, b, n) == 0.
unfoldable pub equal_up_to : ℕ → List ℕ → List ℕ → Bool
equal_up_to zero a b = true
equal_up_to (suc n) [] [] = true
equal_up_to (suc n) [] (y ∷ ys) = false
equal_up_to (suc n) (x ∷ xs) [] = false
equal_up_to (suc n) (x ∷ xs) (y ∷ ys) = (x == y) && equal_up_to n xs ys

unfoldable pub match_if : List ℕ → List ℕ → Bool → Bool
match_if string ref true = equal_up_to (suc (length string)) string ref
match_if string ref false = equal_up_to (length ref) string ref

-- Two integers are equal.
abbrev pub same_int : ℤ → ℤ → Bool
same_int (pos a) (pos b) = a == b
same_int (negsuc a) (negsuc b) = a == b
same_int _ _ = false

unfoldable pub match_port : ℤ → ℤ → Bool
match_port port1 port2 =
    same_int port1 (negsuc 0) || same_int port2 (negsuc 0) || same_int port1 port2

-- The loop of matchIfList.
unfoldable pub match_any : List ℕ → ℤ → Bool → List NetIf → Bool
match_any string port exact [] = false
match_any string port exact (i ∷ ifs) =
    (match_if string i.prefix exact && match_port port i.port) || match_any string port exact ifs

unfoldable pub match_if_list : List ℕ → ℤ → List NetIf → Bool → Bool
match_if_list string port [] exact = true
match_if_list string port (i ∷ ifs) exact = match_any string port exact (i ∷ ifs)

-- The item that ends here, in front of the others, if a character of it was read.
abbrev pub add_item : List ℕ → ℤ → List NetIf → List NetIf → List NetIf
add_item [] port others rest = rest
add_item (c ∷ cs) port others rest = record { prefix = c ∷ cs; port = port } ∷ others

-- The loop of parseStringList: `left` is maxList - ifNum, `prefix` what was read of the item, and
-- `skips` says whether the inner loop behind a colon is running. `atoi` is the C library's.
unfoldable pub parse_from : (List ℕ → ℤ) → ℕ → List ℕ → Bool → List ℕ → List NetIf
parse_from atoi zero prefix skips string = []
parse_from atoi (suc left) prefix true [] = []
parse_from atoi (suc left) prefix true (c ∷ cs) =
    let items = parse_from atoi (suc left) [] false cs in
    let skipped = parse_from atoi (suc left) prefix true cs in if c == comma then items else skipped
parse_from atoi (suc left) prefix false [] = add_item prefix (negsuc 0) [] []
parse_from atoi (suc left) prefix false (c ∷ cs) =
    let behind_colon = parse_from atoi left [] true cs in
    let no_item = parse_from atoi (suc left) [] true cs in
    let behind_comma = parse_from atoi left [] false cs in
    let no_name = parse_from atoi (suc left) [] false cs in
    let longer = parse_from atoi (suc left) (prefix ++ (c ∷ [])) false cs in
    if c == colon
    then add_item prefix (atoi cs) behind_colon no_item
    else if c == comma
    then add_item prefix (negsuc 0) behind_comma no_name
    else longer

unfoldable pub parse_string_list : (List ℕ → ℤ) → ℕ → Option (List ℕ) → List NetIf
parse_string_list atoi max_list none = []
parse_string_list atoi max_list (some string) = parse_from atoi max_list [] false string

-- ncclLoadParam: `env` is what getenv answers and `strtoll` the C library's, `none` when it sets
-- errno. The result is the cache.
unfoldable pub load_param : (List ℕ → Option ℤ) → Option (List ℕ) → ℤ → ℤ → ℤ → ℤ
load_param strtoll env default uninitialized cache =
    if same_int cache uninitialized
    then elim env [
      | none ↦ default
      | some [] ↦ default
      | some (c ∷ cs) ↦ elim (strtoll (c ∷ cs)) [ none ↦ default | some value ↦ value ]
    ]
    else cache
