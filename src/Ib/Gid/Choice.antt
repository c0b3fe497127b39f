-- ===== src/Ib/Gid/Choice.antt =====
-- Which GID index ncclIbGetGidIndex of src/unet/unet_ib.cc answers.
use nccl_exts.Prelude.{
  ℕ, zero, suc, ◌+◌, ◌-◌, ◌<◌, ◌≤◌, ◌≡◌, ◌⊎◌, inl, inr, refl, Bool, true, false, not, ◌&&◌, ◌||◌,
  Option, none, some, ◌==◌, if◌then◌else◌, arith, Bool-cases,
}
use nccl_exts.Prelude.Int.{negsuc}
use nccl_exts.Prelude.Nccl.{Result, ok, err, system_error}
use nccl_exts.Ib.Gid.{
  Gid, same_family, get_gid_addr_family, valid_gid, roce_version, Port, Wish, in_subnet, by_version,
  update_by, update_gid_index, choose_from, get_gid_index,
}

-- An index of the table: 0, or one whose GID is of the family and in the subnet asked for.
pub record IsFit (p : Port) (w : Wish) (len i : ℕ) : Type 0 where
  pub in_table : i < len
  pub asked_for :
      (i ≡ 0)
      ⊎ ((g : Gid) × ((p.query_gid i ≡ some g)
            × ((same_family (get_gid_addr_family g) w.family ≡ true) × (in_subnet w g ≡ true))))

-- A question about an index of the table that the port does not answer.
abbrev pub IsUnanswered : Port → ℕ → Type 0
IsUnanswered p len = (i : ℕ) × ((i < len) × ((p.query_gid i ≡ none) ⊎ (p.type_text i ≡ none)))

-- A fit index, or the failure of a question.
abbrev pub IsChosen : Port → Wish → ℕ → Result ℕ → Type 0
IsChosen p w len (ok i) = IsFit p w len i
IsChosen p w len (err e) = (e ≡ system_error) × IsUnanswered p len

-- The branches of ncclIbUpdateGidIndex: the first and the last are for a candidate in the family and
-- the subnet asked for.
pick-cases :
    (P : Result ℕ → Type 0) (differs same valid subnet : Bool) {x y z : Result ℕ}
    → (same ≡ true → subnet ≡ true → P x)
    → P y
    → (same ≡ true → subnet ≡ true → P z)
    → P (
        if differs && (same && subnet)
        then x
        else if not same || (not valid || not subnet)
        then y
        else z)
pick-cases P true true true true a b c = a refl refl
pick-cases P true true true false a b c = b
pick-cases P true true false true a b c = a refl refl
pick-cases P true true false false a b c = b
pick-cases P true false true true a b c = b
pick-cases P true false true false a b c = b
pick-cases P true false false true a b c = b
pick-cases P true false false false a b c = b
pick-cases P false true true true a b c = c refl refl
pick-cases P false true true false a b c = b
pick-cases P false true false true a b c = b
pick-cases P false true false false a b c = b
pick-cases P false false true true a b c = b
pick-cases P false false true false a b c = b
pick-cases P false false false true a b c = b
pick-cases P false false false false a b c = b

module _ (p : Port) (w : Wish) (len : ℕ) where
  -- The version of an index, or the failure.
  abbrev IsVersion : ℕ → Result ℕ → Type 0
  IsVersion i (ok v) = Unit
  IsVersion i (err e) = (e ≡ system_error) × (p.type_text i ≡ none)

  roce_version-IsVersion :
      (i : ℕ) (text : _) (old : ℕ) → p.type_text i ≡ text → IsVersion i (roce_version text old)
  unfolding roce_version
  roce_version-IsVersion i none old e = (refl, e)
  roce_version-IsVersion i (some text) old e = tt

  by_version-IsChosen :
      (index candidate : ℕ) (gid : Gid) (have want : Result ℕ)
      → IsFit p w len index
      → IsFit p w len candidate
      → IsVersion index have
      → IsVersion candidate want
      → IsChosen p w len (by_version w index gid candidate have want)
  unfolding by_version
  by_version-IsChosen index candidate gid (err e) want f c (s, t) v =
      (s, (index, (f.in_table, inr t)))
  by_version-IsChosen index candidate gid (ok have) (err e) f c v (s, t) =
      (s, (candidate, (c.in_table, inr t)))
  by_version-IsChosen index candidate gid (ok have) (ok want) f c v u =
      elim (Bool-cases ((not (have == want) || not (valid_gid gid)) && (want == w.roce_ver))) [
        | inl t ↦ rw t c
        | inr t ↦ rw t f
      ]

  update_by-IsChosen :
      (index candidate : ℕ) (g h : Option Gid)
      → p.query_gid index ≡ g
      → p.query_gid candidate ≡ h
      → IsFit p w len index
      → candidate < len
      → IsChosen p w len (update_by p w index candidate g h)
  unfolding update_by
  update_by-IsChosen index candidate none h e d f l = (refl, (index, (f.in_table, inl e)))
  update_by-IsChosen index candidate (some gid) none e d f l = (refl, (candidate, (l, inl d)))
  update_by-IsChosen index candidate (some gid) (some g) e d f l =
      let family = get_gid_addr_family g in
      pick-cases (IsChosen p w len) (not (same_family family (get_gid_addr_family gid)))
        (same_family family w.family) (valid_gid g) (in_subnet w g)
        (λ s m. record { in_table = l; asked_for = inr (g, (d, (s, m))) }) f
        (λ s m.
          by_version-IsChosen index candidate gid _ _ f
            (record { in_table = l; asked_for = inr (g, (d, (s, m))) })
            (roce_version-IsVersion index (p.type_text index) (p.old_version index) refl)
            (roce_version-IsVersion candidate (p.type_text candidate) (p.old_version candidate)
              refl))

  choose_from-IsChosen :
      (left next : ℕ) (r : Result ℕ)
      → next + left ≤ len
      → IsChosen p w len r
      → IsChosen p w len (choose_from p w left next r)
  unfolding choose_from update_gid_index
  choose_from-IsChosen zero next r l h = h
  choose_from-IsChosen (suc left) next (err e) l h = h
  choose_from-IsChosen (suc left) next (ok index) l h =
      choose_from-IsChosen left (suc next) (update_gid_index p w next index) (omega arith) (
        update_by-IsChosen index next (p.query_gid index) (p.query_gid next) refl refl h
          (omega arith))

-- With a negative IB_GID_INDEX and a table that is not empty, ncclIbGetGidIndex answers an index
-- of the table that is 0 or whose GID is of the family and in the subnet asked for, or it fails
-- with ncclSystemError because the port did not answer for an index of the table.
pub get_gid_index-IsChosen :
    (p : Port) (w : Wish) (n len : ℕ)
    → 0 < len
    → IsChosen p w len (get_gid_index p w (negsuc n) len)
unfolding get_gid_index
get_gid_index-IsChosen p w n len l =
    choose_from-IsChosen p w len (len - 1) 1 (ok 0) (omega arith)
      (record { in_table = l; asked_for = inl refl })
