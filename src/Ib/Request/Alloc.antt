-- ===== src/Ib/Request/Alloc.antt =====
-- What ncclIbGetRequest promises of the request table.
use nccl_exts.Prelude.{
  ℕ, zero, suc, ◌<◌, ◌≡◌, ◌≢◌, inl, inr, List, [], ◌∷◌, Option, none, some, arith, get_or, length,
  All, Option-cases, get_or-set_self, get_or-set_ne,
}
use nccl_exts.Ib.Request.{Request, unused, blank, find_unused, get_request}

-- Entry `k` is unused, and every entry before it is in use.
abbrev pub IsFirstUnused : List Request → ℕ → Type 0
IsFirstUnused [] k = ⊥
IsFirstUnused (r ∷ rs) zero = r.type ≡ unused
IsFirstUnused (r ∷ rs) (suc k) = (r.type ≢ unused) × IsFirstUnused rs k

abbrev pub AllInUse : List Request → Type 0
AllInUse = All (λ (r : Request). r.type ≢ unused)

find_unused-IsFirstUnused :
    (rs : List Request) (k : ℕ) → find_unused rs ≡ some k → IsFirstUnused rs k
unfolding find_unused
find_unused-IsFirstUnused [] k h = cc
find_unused-IsFirstUnused (r ∷ rs) zero h = ground arith
find_unused-IsFirstUnused (r ∷ rs) (suc k) h = ground (arith, find_unused-IsFirstUnused rs k)

find_unused-AllInUse : (rs : List Request) → find_unused rs ≡ none → AllInUse rs
unfolding find_unused
find_unused-AllInUse [] h = tt
find_unused-AllInUse (r ∷ rs) h = ground (arith, find_unused-AllInUse rs)

IsFirstUnused-lt : (rs : List Request) (k : ℕ) → IsFirstUnused rs k → k < length rs
IsFirstUnused-lt [] k h = absurd h
IsFirstUnused-lt (r ∷ rs) zero h = omega arith
IsFirstUnused-lt (r ∷ rs) (suc k) h = omega (arith, IsFirstUnused-lt rs k h.1)

-- What a call of ncclIbGetRequest on the table `rs` may come to.
abbrev pub Allocates : List Request → Option (ℕ × List Request) → Type 0
Allocates rs none = AllInUse rs
Allocates rs (some (k, rs')) =
    IsFirstUnused rs k
    × (k < length rs)
    × (get_or rs' k blank
        ≡ record (get_or rs k blank) { events = 0 ∷ 0 ∷ []; dev_bases = none ∷ none ∷ [] })
    × ((j : ℕ) → k ≢ j → get_or rs' j blank ≡ get_or rs j blank)

-- ncclIbGetRequest answers the first unused entry of the table, with its events and devices
-- cleared, and leaves every other entry as it is; it fails only when all entries are in use.
pub get_request-Allocates : (rs : List Request) → Allocates rs (get_request rs)
unfolding get_request
get_request-Allocates rs = elim (Option-cases (find_unused rs)) [
  | inl e ↦ rw (e, get_request) (find_unused-AllInUse rs e)
  | inr (k, e) ↦
      let first = find_unused-IsFirstUnused rs k e in
      let inside = IsFirstUnused-lt rs k first in
      rw (e, get_request)
        (first, inside, get_or-set_self rs k _ blank inside, λ j. get_or-set_ne rs k j _ blank)
]
