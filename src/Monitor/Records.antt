-- ===== src/Monitor/Records.antt =====
-- The records that check_ucommd_pids_stats of src/tools/monitor/monitor.cc leaves.
use mathlib.Core.Path.{subst}
use nccl_exts.Prelude.{
  ◌≡◌, ◌≢◌, ◌⊎◌, inl, inr, refl, sym, ap, ◌≢◌, Bool, true, false, ◌&&◌, Bool-cases, &&-both,
  Option-cases, List, [], ◌∷◌, Option, none, some, arith, All,
}
use nccl_exts.Prelude.Int.{ℤ, pos, negsuc}
use nccl_exts.Interfaces.{same_int}
use nccl_exts.Monitor.{
  Text, starts_with, prefix_stats, prefix_lock, split, back, Entry, ShmFile, MonitorHost, Info,
  Records, Monitor, has_pid, is_known, push_info, clean_infos, put_group, clean_records,
  clean_stats, Readers, pids_of, get_lock_pids, lock_files, erase_records, check_lock_files,
  check_ucommd_pids, check_stats, add_info, add_stats, scan_entry, scan_entries, scan_stats,
  check_ucommd_pids_stats, locked,
}
use nccl_exts.Monitor.Filters.{NoRepeat, clean_infos-NoRepeat, clean_infos-All}
use nccl_exts.Monitor.Groups.{
  IsAny, IsNamed, Runs, AreGroups, erase_records-AreGroups, push_info-AreGroups,
}

module _ (r : Readers) where
  -- A file of counters can be read, when its name and what it begins with are as they should be.
  abbrev pub IsCounted : MonitorHost → Text → Type 0
  IsCounted h shm = IsNamed r shm × ((time : ℤ) × (r.stoi (h.file shm).time ≡ some time))

  abbrev pub IsEntry : MonitorHost → Entry → Type 0
  IsEntry h e = ((e.is_reg && starts_with prefix_stats e.name) ≡ false) ⊎ IsCounted h e.name

  abbrev Answers : Text → Option (Option Info) → Type 0
  Answers shm none = ⊥
  Answers shm (some none) = Unit
  Answers shm (some (some info)) = info.shm ≡ shm

  check_stats-Answers :
      (f : ShmFile) (shm : Text) (time : ℤ)
      → r.stoi f.time ≡ some time
      → Answers shm (check_stats r f shm)
  unfolding check_stats
  check_stats-Answers f shm time e = elim (Option-cases f.size) [
    | inl n ↦ simp (check_stats, n) tt
    | inr (size, s) ↦ elim (Bool-cases f.opened) [
      | inr o ↦ simp (check_stats, s, o) tt
      | inl o ↦ elim (Option-cases f.addr) [
        | inl n ↦ simp (check_stats, s, o, n) tt
        | inr (addr, a) ↦ simp (check_stats, s, o, a, e) refl
      ]
    ]
  ]

  -- The records after a step that does not throw.
  abbrev Goes : (Info → Type 0) → Option Records → Type 0
  Goes P o = (rest : Records) × ((o ≡ some rest) × AreGroups r P rest)

  add_stats-Goes :
      (P : Info → Type 0) (h : MonitorHost) (group shm : Text) (records : Records)
      → AreGroups r P records
      → IsCounted h shm
      → ((i : Info) → i.shm ≡ shm → P i)
      → Goes P (add_stats r h group shm records)
  unfolding add_stats add_info
  add_stats-Goes P h group shm records ok (named, (time, e)) p =
      elim (Bool-cases (is_known group shm records)) [
        | inl t ↦ rw t (records, (refl, ok))
        | inr f ↦
            rw f
              (go (check_stats r (h.file shm) shm) (check_stats-Answers (h.file shm) shm time e) f)
      ]
    where
      go :
          (o : Option (Option Info))
          → Answers shm o
          → is_known group shm records ≡ false
          → Goes P (add_info r group o records)
      go none a f = absurd a
      go (some none) a f = (records, (refl, ok))
      go (some (some info)) a f = (
        push_info group info records,
        (refl, push_info-AreGroups r P group info records ok (rw a f) (rw a named) (p info a)),
      )

  scan_entry-Goes :
      (h : MonitorHost) (locks pids : List ℤ) (e : Entry) (records : Records)
      → ((pid : ℤ) → has_pid pid pids ≡ true → has_pid pid locks ≡ true)
      → IsEntry h e
      → AreGroups r (Runs r locks) records
      → Goes (Runs r locks) (scan_entry r h pids e records)
  unfolding scan_entry
  scan_entry-Goes h locks pids e records sub (inl f) ok = simp f (records, (refl, ok))
  scan_entry-Goes h locks pids e records sub (inr ((text, (at, read)), timed)) ok =
      elim (Bool-cases (e.is_reg && starts_with prefix_stats e.name)) [
        | inr f ↦ simp f (records, (refl, ok))
        | inl t ↦
            simp (t, at)
              (elim (Bool-cases (has_pid (r.atoi text) pids)) [
                | inr f ↦ simp f (records, (refl, ok))
                | inl lives ↦ simp lives (
                    add_stats-Goes (Runs r locks) h _ e.name records ok ((text, (at, read)), timed)
                      (λ i q. rw q (text, (at, sub _ lives))))
              ])
      ]

  -- The loop of scan_stats.
  scan_entries-Goes :
      (h : MonitorHost) (locks pids : List ℤ) (es : List Entry) (records : Records)
      → ((pid : ℤ) → has_pid pid pids ≡ true → has_pid pid locks ≡ true)
      → All (IsEntry h) es
      → AreGroups r (Runs r locks) records
      → Goes (Runs r locks) (scan_entries r h pids es records)
  unfolding scan_entries
  scan_entries-Goes h locks pids [] records sub entries ok = (records, (refl, ok))
  scan_entries-Goes h locks pids (e ∷ es) records sub (entry, entries) ok =
      let (mid, (went, ok')) = scan_entry-Goes h locks pids e records sub entry ok in
      rw (scan_entries, went) (scan_entries-Goes h locks pids es mid sub entries ok')

  same_int-eq : (a b : ℤ) → same_int a b ≡ true → a ≡ b
  same_int-eq (pos a) (pos b) h = ap pos (ground arith)
  same_int-eq (negsuc a) (negsuc b) h = ap negsuc (ground arith)
  same_int-eq (pos a) (negsuc b) h = absurd (ground (arith, h))
  same_int-eq (negsuc a) (pos b) h = absurd (ground (arith, h))

  -- The pids of the lock files have a lock.
  has_pid-lock_files :
      (locks : List ℤ) (es : List Entry) (pid : ℤ)
      → has_pid pid (lock_files r locks es) ≡ true
      → has_pid pid locks ≡ true
  unfolding lock_files has_pid
  has_pid-lock_files locks [] pid h = absurd (ground (arith, h))
  has_pid-lock_files locks (e ∷ es) pid h =
      elim (Bool-cases (
        e.is_reg
        && (starts_with prefix_lock e.name && has_pid (r.atoi (back (split e.name))) locks))) [
          | inr f ↦ has_pid-lock_files locks es pid (rw f at h)
          | inl t ↦ elim (Bool-cases (same_int pid (r.atoi (back (split e.name))))) [
            | inl s ↦
                subst (λ x. has_pid x locks ≡ true) (sym (same_int-eq _ _ s))
                  (&&-both (starts_with prefix_lock e.name) _ (&&-both e.is_reg _ t).1).1
            | inr n ↦ has_pid-lock_files locks es pid (simp (t, n) at h)
          ]
        ]

  -- A group behind clean_stats: it has a file, none twice, and all of them exist.
  abbrev pub IsClean : (Text → Bool) → (Info → Type 0) → Text × List Info → Type 0
  IsClean exists P (g, is) =
      (is ≢ [])
      × (NoRepeat is × All (λ (i : Info). (exists i.shm ≡ true) × (IsNamed r i.shm × P i)) is)

  put_group-IsClean :
      (exists : Text → Bool) (P : Info → Type 0) (g : Text) (kept : List Info) (rest : Records)
      → NoRepeat kept
      → All (λ (i : Info). (exists i.shm ≡ true) × (IsNamed r i.shm × P i)) kept
      → All (IsClean exists P) rest
      → All (IsClean exists P) (put_group g kept rest)
  put_group-IsClean exists P g [] rest n a h = h
  put_group-IsClean exists P g (i ∷ is) rest n a h = (((λ e. absurd (cc)), (n, a)), h)

  clean_records-IsClean :
      (exists : Text → Bool) (P : Info → Type 0) (records : Records)
      → AreGroups r P records
      → All (IsClean exists P) (clean_records exists records)
  unfolding clean_records
  clean_records-IsClean exists P [] h = tt
  clean_records-IsClean exists P ((g, is) ∷ records) ((repeat, all), hs) =
      put_group-IsClean exists P g (clean_infos exists is) (clean_records exists records)
        (clean_infos-NoRepeat exists is repeat) (clean_infos-All exists _ is all)
        (clean_records-IsClean exists P records hs)

  -- The directory as scan_stats reads it.
  abbrev pub AreEntries : MonitorHost → Option (List Entry) → Type 0
  AreEntries h none = Unit
  AreEntries h (some es) = All (IsEntry h) es

  scan_stats-Goes :
      (h : MonitorHost) (m : Monitor) (o : Option (List Entry))
      → ((pid : ℤ) → has_pid pid m.ucommd_pids ≡ true → has_pid pid m.lock_pids ≡ true)
      → h.stat_entries ≡ o
      → AreEntries h o
      → AreGroups r (Runs r m.lock_pids) m.records
      → (rest : Records) × ((scan_stats r h m ≡ some (record m { records = rest }))
          × AreGroups r (Runs r m.lock_pids) rest)
  unfolding scan_stats
  scan_stats-Goes h m none sub e entries ok = (m.records, (simp (scan_stats, e), ok))
  scan_stats-Goes h m (some es) sub e entries ok =
      let (rest, (went, ok')) =
        scan_entries-Goes h m.lock_pids m.ucommd_pids es m.records sub entries ok in
      (rest, (simp (scan_stats, e, went), ok'))

  -- The monitor shows the processes with a lock.
  abbrev pub Shows : MonitorHost → List (List Text) → Option Monitor → Type 0
  Shows h lines o =
      (m : Monitor) × ((o ≡ some m)
        × ((m.opt_pids ≡ [])
            × ((m.lock_pids ≡ pids_of r lines)
                × All (IsClean h.exists (Runs r m.lock_pids)) m.records)))

  check_ucommd_pids-steps :
      (h : MonitorHost) (m : Monitor) (es : List Entry) (kept : Records)
      → m.opt_pids ≡ []
      → h.pid_entries ≡ some es
      → erase_records r m.lock_pids m.records ≡ some kept
      → check_ucommd_pids r h m
        ≡ some
            (record m { opt_pids = []; ucommd_pids = lock_files r m.lock_pids es; records = kept })
  unfolding check_ucommd_pids check_lock_files locked
  check_ucommd_pids-steps h m es kept o p e =
      simp (check_ucommd_pids, o, locked, p, check_lock_files, e)

  check_ucommd_pids_stats-steps :
      (h : MonitorHost) (m m2 m3 : Monitor) (lines : List (List Text))
      → h.locks ≡ some lines
      → check_ucommd_pids r h (record m { lock_pids = pids_of r lines }) ≡ some m2
      → scan_stats r h m2 ≡ some m3
      → check_ucommd_pids_stats r h m ≡ some (clean_stats h m3)
  unfolding check_ucommd_pids_stats get_lock_pids
  check_ucommd_pids_stats-steps h m m2 m3 lines l a b =
      simp (check_ucommd_pids_stats, get_lock_pids, l, a, b)

  -- When the options name no process, the locks and the directory can be read, no group of records
  -- has a file twice, and the files on record and in the directory that begin like files of
  -- counters carry a pid, and those in the directory also a time, check_ucommd_pids_stats does not
  -- throw. It leaves groups of records that are not empty and have no file twice, each file of
  -- which still exists and is of a process that holds a lock.
  pub check_ucommd_pids_stats-Shows :
      (h : MonitorHost) (m : Monitor) (lines : List (List Text)) (es : List Entry)
      → m.opt_pids ≡ []
      → h.locks ≡ some lines
      → h.pid_entries ≡ some es
      → AreEntries h h.stat_entries
      → AreGroups r IsAny m.records
      → Shows h lines (check_ucommd_pids_stats r h m)
  unfolding check_ucommd_pids_stats get_lock_pids check_ucommd_pids check_lock_files locked
      clean_stats
  check_ucommd_pids_stats-Shows h m lines es o l p entries ok =
      let locks = pids_of r lines in
      let (kept, (erased, ok')) = erase_records-AreGroups r locks m.records ok in
      let m2 : Monitor = record {
        opt_pids = [];
        lock_pids = locks;
        ucommd_pids = lock_files r locks es;
        records = kept;
      } in
      let (rest, (scanned, ok'')) =
        scan_stats-Goes h m2 h.stat_entries (has_pid-lock_files locks es) refl entries ok' in
      (
        clean_stats h (record m2 { records = rest }),
        (
          check_ucommd_pids_stats-steps h m m2 _ lines l
              (check_ucommd_pids-steps h (record m { lock_pids = locks }) es kept o p erased)
              scanned,
          (refl, (refl, clean_records-IsClean h.exists (Runs r locks) rest ok'')),
        ),
      )
