-- ===== src/Monitor/Filters.antt =====
-- Records without a file twice, in the filters and additions of src/tools/monitor/monitor.cc.
use nccl_exts.Prelude.{
  ◌≡◌, ◌↔◌, inl, inr, refl, sym, Bool, true, false, Bool-cases, ||-neither, List, [], ◌∷◌, ◌++◌,
  arith, if◌then◌else◌, All,
}
use nccl_exts.Interfaces.{match_if}
use nccl_exts.Interfaces.Matches.{match_if-Matches}
use nccl_exts.Monitor.{Text, same_text, Info, has_shm, clean_infos}

-- No file is there twice.
abbrev pub NoRepeat : List Info → Type 0
NoRepeat [] = Unit
NoRepeat (i ∷ is) = (has_shm i.shm is ≡ false) × NoRepeat is

-- What is not in the one list is not in the other.
abbrev pub Fewer : List Info → List Info → Type 0
Fewer is kept = (shm : Text) → has_shm shm is ≡ false → has_shm shm kept ≡ false

same_text_iff : (a b : Text) → (same_text a b ≡ true) ↔ (a ≡ b)
unfolding match_if
same_text_iff a b = match_if-Matches a b true

same_text_comm : (a b : Text) → same_text a b ≡ false → same_text b a ≡ false
same_text_comm a b h = elim (Bool-cases (same_text b a)) [
  | inl t ↦ absurd (ground (arith, h, (same_text_iff a b).1 (sym ((same_text_iff b a).0 t))))
  | inr f ↦ f
]

pub Fewer-keep :
    (i : Info) (is kept : List Info) (b : Bool)
    → Fewer is kept
    → Fewer (i ∷ is) (if b then i ∷ kept else kept)
unfolding has_shm
Fewer-keep i is kept true fewer shm h =
    let (a, b) = ||-neither (same_text i.shm shm) (has_shm shm is) h in rw a (fewer shm b)
Fewer-keep i is kept false fewer shm h =
    let (a, b) = ||-neither (same_text i.shm shm) (has_shm shm is) h in fewer shm b

pub NoRepeat-keep :
    (i : Info) (is kept : List Info) (b : Bool)
    → NoRepeat (i ∷ is)
    → Fewer is kept
    → NoRepeat kept
    → NoRepeat (if b then i ∷ kept else kept)
NoRepeat-keep i is kept true (h, hs) fewer k = (fewer i.shm h, k)
NoRepeat-keep i is kept false h fewer k = k

-- A file that is not there yet.
has_shm-new :
    (shm : Text) (is : List Info) (info : Info)
    → has_shm shm is ≡ false
    → same_text info.shm shm ≡ false
    → has_shm shm (is ++ (info ∷ [])) ≡ false
unfolding has_shm
has_shm-new shm [] info h n = rw n refl
has_shm-new shm (i ∷ is) info h n =
    let (a, b) = ||-neither (same_text i.shm shm) (has_shm shm is) h in
    rw a (has_shm-new shm is info b n)

pub NoRepeat-new :
    (is : List Info) (info : Info)
    → NoRepeat is
    → has_shm info.shm is ≡ false
    → NoRepeat (is ++ (info ∷ []))
unfolding has_shm
NoRepeat-new [] info h n = (refl, tt)
NoRepeat-new (i ∷ is) info (h, hs) n =
    let (a, b) = ||-neither (same_text i.shm info.shm) (has_shm info.shm is) n in
    (has_shm-new i.shm is info h (same_text_comm i.shm info.shm a), NoRepeat-new is info hs b)

module _ (exists : Text → Bool) where
  clean_infos-Fewer : (is : List Info) → Fewer is (clean_infos exists is)
  unfolding clean_infos
  clean_infos-Fewer [] = λ shm h. h
  clean_infos-Fewer (i ∷ is) =
      Fewer-keep i is (clean_infos exists is) (exists i.shm) (clean_infos-Fewer is)

  pub clean_infos-NoRepeat : (is : List Info) → NoRepeat is → NoRepeat (clean_infos exists is)
  unfolding clean_infos
  clean_infos-NoRepeat [] h = tt
  clean_infos-NoRepeat (i ∷ is) h =
      NoRepeat-keep i is (clean_infos exists is) (exists i.shm) h (clean_infos-Fewer is)
        (clean_infos-NoRepeat is h.1)

  -- What holds of the records holds of those that are left, and their files exist.
  pub clean_infos-All :
      (P : Info → Type 0) (is : List Info)
      → All P is
      → All (λ (i : Info). (exists i.shm ≡ true) × P i) (clean_infos exists is)
  unfolding clean_infos
  clean_infos-All P [] h = tt
  clean_infos-All P (i ∷ is) (h, hs) = elim (Bool-cases (exists i.shm)) [
    | inl t ↦ rw t ((t, h), clean_infos-All P is hs)
    | inr f ↦ rw f (clean_infos-All P is hs)
  ]
