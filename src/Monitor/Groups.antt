-- ===== src/Monitor/Groups.antt =====
-- The groups of records of src/tools/monitor/monitor.cc, when those of dead processes are erased and new
-- ones are added.
use nccl_exts.Prelude.{
  ◌≡◌, inl, inr, refl, Bool, true, false, Bool-cases, List, [], ◌∷◌, some, if◌then◌else◌, get_elem?,
  All, All-append,
}
use nccl_exts.Prelude.Int.{ℤ}
use nccl_exts.Monitor.{
  Text, same_text, split, Info, Records, has_pid, has_shm, is_known, push_info, Readers,
  erase_infos, erase_records,
}
use nccl_exts.Monitor.Filters.{NoRepeat, Fewer, Fewer-keep, NoRepeat-keep, NoRepeat-new}

abbrev pub IsAny : Info → Type 0
IsAny i = Unit

module _ (r : Readers) where
  -- The name of a file of counters has a pid as its fifth piece.
  abbrev pub IsNamed : Text → Type 0
  IsNamed shm =
      (text : Text) × ((get_elem? (split shm) 4 ≡ some text) × (r.stoi text ≡ some (r.atoi text)))

  -- Its process has a lock.
  abbrev pub IsAlive : List ℤ → Text → Type 0
  IsAlive locks shm =
      (text : Text) × ((get_elem? (split shm) 4 ≡ some text) × (has_pid (r.atoi text) locks ≡ true))

  -- A group of records without a file twice, all of the files named as they should be.
  abbrev pub IsGroup : (Info → Type 0) → Text × List Info → Type 0
  IsGroup P (g, is) = NoRepeat is × All (λ (i : Info). IsNamed i.shm × P i) is

  abbrev pub Runs : List ℤ → Info → Type 0
  Runs locks i = IsAlive locks i.shm

  erase_infos-step :
      (locks : List ℤ) (i : Info) (is kept : List Info) (text : Text)
      → get_elem? (split i.shm) 4 ≡ some text
      → r.stoi text ≡ some (r.atoi text)
      → erase_infos r locks is ≡ some kept
      → erase_infos r locks (i ∷ is) ≡ some (if has_pid (r.atoi text) locks then i ∷ kept else kept)
  unfolding erase_infos
  erase_infos-step locks i is kept text at read erased = simp (erase_infos, at, read, erased)

  All-keep :
      (P : Info → Type 0) (i : Info) (kept : List Info) (b : Bool)
      → (b ≡ true → P i)
      → All P kept
      → All P (if b then i ∷ kept else kept)
  All-keep P i kept true h k = (h refl, k)
  All-keep P i kept false h k = k

  -- The inner loop of check_ucommd_pids does not throw, and leaves the records of processes with a lock.
  abbrev Erased : List ℤ → List Info → Type 0
  Erased locks is =
      (kept : List Info) × ((erase_infos r locks is ≡ some kept)
        × (Fewer is kept × IsGroup (Runs locks) ([], kept)))

  erase_infos-Erased : (locks : List ℤ) (is : List Info) → IsGroup IsAny ([], is) → Erased locks is
  unfolding erase_infos
  erase_infos-Erased locks [] h = ([], (refl, ((λ shm h. h), (tt, tt))))
  erase_infos-Erased locks (i ∷ is) (repeat, (((text, (at, read)), _), named)) =
      let (kept, (erased, (fewer, (repeat', all)))) =
        erase_infos-Erased locks is (repeat.1, named) in
      let lives = has_pid (r.atoi text) locks in
      (
        if lives then i ∷ kept else kept,
        (
          erase_infos-step locks i is kept text at read erased,
          (
            Fewer-keep i is kept lives fewer,
            (
              NoRepeat-keep i is kept lives repeat fewer repeat',
              All-keep _ i kept lives (λ e. ((text, (at, read)), (text, (at, e)))) all,
            ),
          ),
        ),
      )

  erase_records-step :
      (locks : List ℤ) (g : Text) (is kept : List Info) (records rest : Records)
      → erase_infos r locks is ≡ some kept
      → erase_records r locks records ≡ some rest
      → erase_records r locks ((g, is) ∷ records) ≡ some ((g, kept) ∷ rest)
  unfolding erase_records
  erase_records-step locks g is kept records rest a b = simp (erase_records, a, b)

  abbrev pub AreGroups : (Info → Type 0) → Records → Type 0
  AreGroups P records = All (λ (g : Text × List Info). IsGroup P g) records

  pub erase_records-AreGroups :
      (locks : List ℤ) (records : Records)
      → AreGroups IsAny records
      → (rest : Records) × ((erase_records r locks records ≡ some rest)
          × AreGroups (Runs locks) rest)
  unfolding erase_records
  erase_records-AreGroups locks [] h = ([], (refl, tt))
  erase_records-AreGroups locks ((g, is) ∷ records) (h, hs) =
      let (kept, (erased, (_, ok))) = erase_infos-Erased locks is h in
      let (rest, (erased', oks)) = erase_records-AreGroups locks records hs in
      (
        (g, kept) ∷ rest,
        (erase_records-step locks g is kept records rest erased erased', (ok, oks)),
      )

  -- A new file goes to a group that does not have it.
  pub push_info-AreGroups :
      (P : Info → Type 0) (group : Text) (info : Info) (records : Records)
      → AreGroups P records
      → is_known group info.shm records ≡ false
      → IsNamed info.shm
      → P info
      → AreGroups P (push_info group info records)
  unfolding push_info is_known has_shm
  push_info-AreGroups P group info [] h n named p = ((((refl, tt), ((named, p), tt))), tt)
  push_info-AreGroups P group info ((g, is) ∷ records) (h, hs) n named p =
      elim (Bool-cases (same_text g group)) [
        | inl t ↦ rw t (
          (NoRepeat-new is info h.0 (rw t at n), All-append _ is (info ∷ []) h.1 ((named, p), tt)),
          hs,
        )
        | inr f ↦ rw f (h, push_info-AreGroups P group info records hs (rw f at n) named p)
      ]
