-- ===== src/Monitor.antt =====
-- class Monitor of src/tools/monitor/monitor.cc: how check_ucommd_pids_stats keeps the records of the
-- counters of the processes that run. What the file system says comes in as an argument. A string is
-- the list of its character codes, a set a list, and the map of records the list of its groups. `none`
-- stands for a call that throws or reads behind the end of a vector.
mod Filters
mod Groups
mod Records
mod Tests
use nccl_exts.Prelude.{
  ℕ, zero, suc, ◌≡◌, Bool, true, false, ◌&&◌, ◌||◌, List, [], ◌∷◌, ◌++◌, Option, none, some, ◌==◌,
  if◌then◌else◌, length, get_elem?, get_or,
}
use nccl_exts.Prelude.Int.{ℤ}
use nccl_exts.Interfaces.{same_int, equal_up_to}

abbrev pub Text : Type 0
Text = List ℕ

abbrev pub same_text : Text → Text → Bool
same_text a b = equal_up_to (suc (length a)) a b

-- `!s.rfind(prefix, 0)`.
abbrev pub starts_with : Text → Text → Bool
starts_with prefix s = equal_up_to (length prefix) s prefix

-- ".ucommd_stats." and ".ucommd_lock.".
abbrev pub prefix_stats : Text
prefix_stats =
    b'.' ∷ b'u' ∷ b'c' ∷ b'o' ∷ b'm' ∷ b'm' ∷ b'd' ∷ b'_' ∷ b's' ∷ b't' ∷ b'a' ∷ b't' ∷ b's' ∷ b'.'
    ∷ []

abbrev pub prefix_lock : Text
prefix_lock =
    b'.' ∷ b'u' ∷ b'c' ∷ b'o' ∷ b'm' ∷ b'm' ∷ b'd' ∷ b'_' ∷ b'l' ∷ b'o' ∷ b'c' ∷ b'k' ∷ b'.' ∷ []

-- The pieces that std::getline reads up to each '.'.
abbrev pub push_char : ℕ → List Text → List Text
push_char c [] = (c ∷ []) ∷ []
push_char c (p ∷ ps) = (c ∷ p) ∷ ps

unfoldable pub split : Text → List Text
split [] = []
split (c ∷ cs) = let rest = split cs in if c == b'.' then [] ∷ rest else push_char c rest

-- `back` of the pieces of a name.
unfoldable pub back : List Text → Text
back [] = []
back (p ∷ []) = p
back (p ∷ q ∷ ps) = back (q ∷ ps)

-- An entry of the directory for shared memory.
pub record Entry : Type 0 where
  pub name : Text
  pub is_reg : Bool

-- A file there: its size if stat answers it, whether it can be opened, where it is mapped, and what it
-- begins with.
pub record ShmFile : Type 0 where
  pub size : Option ℕ
  pub opened : Bool
  pub addr : Option ℕ
  pub time : Text
  pub names : List Text
  pub stat_num : ℕ

-- The lines of /proc/locks as their words, the directory as the two loops read it, its files, and those
-- that `access` finds at the end.
pub record MonitorHost : Type 0 where
  pub locks : Option (List (List Text))
  pub pid_entries : Option (List Entry)
  pub stat_entries : Option (List Entry)
  pub file : Text → ShmFile
  pub exists : Text → Bool

-- StatsShmInfo.
pub record Info : Type 0 where
  pub shm : Text
  pub time : ℤ
  pub addr : ℕ
  pub size : ℕ
  pub desc : List Text
  pub stat_num : ℕ

abbrev pub Records : Type 0
Records = List (Text × List Info)

pub record Monitor : Type 0 where
  pub opt_pids : List ℤ
  pub lock_pids : List ℤ
  pub ucommd_pids : List ℤ
  pub records : Records

unfoldable pub has_pid : ℤ → List ℤ → Bool
has_pid pid [] = false
has_pid pid (p ∷ ps) = same_int pid p || has_pid pid ps

-- The pids of the options that have a lock; the others are erased.
unfoldable pub locked : List ℤ → List ℤ → List ℤ
locked locks [] = []
locked locks (p ∷ ps) = let rest = locked locks ps in if has_pid p locks then p ∷ rest else rest

-- Is a file of the name among the records of the group?
unfoldable pub has_shm : Text → List Info → Bool
has_shm shm [] = false
has_shm shm (i ∷ is) = same_text i.shm shm || has_shm shm is

unfoldable pub is_known : Text → Text → Records → Bool
is_known group shm [] = false
is_known group shm ((g, is) ∷ records) =
    let rest = is_known group shm records in if same_text g group then has_shm shm is else rest

-- `stats_records_[group].emplace_back(info)`.
unfoldable pub push_info : Text → Info → Records → Records
push_info group info [] = (group, info ∷ []) ∷ []
push_info group info ((g, is) ∷ records) =
    let rest = (g, is) ∷ push_info group info records in
    if same_text g group then (g, is ++ (info ∷ [])) ∷ records else rest

-- clean_stats: the files that are gone, and then the groups without a file.
unfoldable pub clean_infos : (Text → Bool) → List Info → List Info
clean_infos exists [] = []
clean_infos exists (i ∷ is) =
    let rest = clean_infos exists is in if exists i.shm then i ∷ rest else rest

abbrev pub put_group : Text → List Info → Records → Records
put_group g [] records = records
put_group g (i ∷ is) records = (g, i ∷ is) ∷ records

unfoldable pub clean_records : (Text → Bool) → Records → Records
clean_records exists [] = []
clean_records exists ((g, is) ∷ records) =
    put_group g (clean_infos exists is) (clean_records exists records)

unfoldable pub clean_stats : MonitorHost → Monitor → Monitor
clean_stats h m = record m { records = clean_records h.exists m.records }

-- How numbers are read: `read_int` and `atoi` answer 0 where there is none, and `stoi` throws. `garbage`
-- is what an int holds that is not read.
pub record Readers : Type 0 where
  pub read_int : Text → ℤ
  pub atoi : Text → ℤ
  pub stoi : Text → Option ℤ
  pub garbage : ℤ

module _ (r : Readers) where
  -- The pid of a line of /proc/locks.
  abbrev pub pid_of : Option Text → ℤ
  pid_of none = r.garbage
  pid_of (some word) = r.read_int word

  unfoldable pub pids_of : List (List Text) → List ℤ
  pids_of [] = []
  pids_of (line ∷ lines) = pid_of (get_elem? line 4) ∷ pids_of lines

  -- get_lock_pids: true for 0.
  unfoldable pub get_lock_pids : MonitorHost → Monitor → Bool × Monitor
  get_lock_pids h m = elim h.locks [
    | none ↦ (false, record m { lock_pids = [] })
    | some lines ↦ (true, record m { lock_pids = pids_of lines })
  ]

  -- The pids of the lock files that have a lock.
  unfoldable pub lock_files : List ℤ → List Entry → List ℤ
  lock_files locks [] = []
  lock_files locks (e ∷ es) =
      let rest = lock_files locks es in
      let pid = r.atoi (back (split e.name)) in
      if e.is_reg && (starts_with prefix_lock e.name && has_pid pid locks) then pid ∷ rest else rest

  -- The inner loop that erases the records of processes without a lock.
  unfoldable pub erase_infos : List ℤ → List Info → Option (List Info)
  erase_infos locks [] = some []
  erase_infos locks (i ∷ is) = elim (get_elem? (split i.shm) 4) [
    | none ↦ none
    | some text ↦ elim (r.stoi text) [
      | none ↦ none
      | some pid ↦ elim (erase_infos locks is) [
        | none ↦ none
        | some kept ↦ some (if has_pid pid locks then i ∷ kept else kept)
      ]
    ]
  ]

  unfoldable pub erase_records : List ℤ → Records → Option Records
  erase_records locks [] = some []
  erase_records locks ((g, is) ∷ records) = elim (erase_infos locks is) [
    | none ↦ none
    | some kept ↦ elim (erase_records locks records) [
      | none ↦ none
      | some rest ↦ some ((g, kept) ∷ rest)
    ]
  ]

  -- check_ucommd_pids when the options name no process that runs.
  unfoldable pub check_lock_files : Option (List Entry) → Monitor → Option Monitor
  check_lock_files none m = some (record m { ucommd_pids = [] })
  check_lock_files (some es) m = elim (erase_records m.lock_pids m.records) [
    | none ↦ none
    | some rest ↦ some (record m { ucommd_pids = lock_files m.lock_pids es; records = rest })
  ]

  -- check_ucommd_pids; its result is only logged.
  unfoldable pub check_ucommd_pids : MonitorHost → Monitor → Option Monitor
  check_ucommd_pids h m =
      let kept = locked m.lock_pids m.opt_pids in
      let m' = record m { opt_pids = kept } in
      elim kept [
        | [] ↦ check_lock_files h.pid_entries m'
        | p ∷ ps ↦ some (record m' { ucommd_pids = p ∷ ps })
      ]

  -- check_stats of a name that is not empty: `some none` is an answer other than 0.
  unfoldable pub check_stats : ShmFile → Text → Option (Option Info)
  check_stats f shm = elim f.size [
    | none ↦ some none
    | some size ↦
        if f.opened
        then elim f.addr [
          | none ↦ some none
          | some addr ↦ elim (r.stoi f.time) [
            | none ↦ none
            | some time ↦ some (
                some (record {
                  shm = shm;
                  time = time;
                  addr = addr;
                  size = size;
                  desc = f.names;
                  stat_num = f.stat_num;
                }))
          ]
        ]
        else some none
  ]

  -- A file of a process that runs: it goes to the records when it is not there yet.
  unfoldable pub add_info : Text → Option (Option Info) → Records → Option Records
  add_info group none records = none
  add_info group (some none) records = some records
  add_info group (some (some info)) records = some (push_info group info records)

  unfoldable pub add_stats : MonitorHost → Text → Text → Records → Option Records
  add_stats h group shm records =
      if is_known group shm records
      then some records
      else add_info group (check_stats (h.file shm) shm) records

  -- One entry of the directory.
  unfoldable pub scan_entry : MonitorHost → List ℤ → Entry → Records → Option Records
  scan_entry h pids e records =
      let parts = split e.name in
      if e.is_reg && starts_with prefix_stats e.name
      then elim (get_elem? parts 4) [
        | none ↦ none
        | some text ↦
            if has_pid (r.atoi text) pids
            then add_stats h (get_or parts 3 []) e.name records
            else some records
      ]
      else some records

  unfoldable pub scan_entries : MonitorHost → List ℤ → List Entry → Records → Option Records
  scan_entries h pids [] records = some records
  scan_entries h pids (e ∷ es) records = elim (scan_entry h pids e records) [
    | none ↦ none
    | some records' ↦ scan_entries h pids es records'
  ]

  -- scan_stats.
  unfoldable pub scan_stats : MonitorHost → Monitor → Option Monitor
  scan_stats h m = elim h.stat_entries [
    | none ↦ some m
    | some es ↦ elim (scan_entries h m.ucommd_pids es m.records) [
      | none ↦ none
      | some rest ↦ some (record m { records = rest })
    ]
  ]

  -- check_ucommd_pids_stats.
  unfoldable pub check_ucommd_pids_stats : MonitorHost → Monitor → Option Monitor
  check_ucommd_pids_stats h m =
      let (got, m1) = get_lock_pids h m in
      let checked = check_ucommd_pids h m1 in
      elim (if got then checked else some m1) [
        | none ↦ none
        | some m2 ↦ elim (scan_stats h m2) [ none ↦ none | some m3 ↦ some (clean_stats h m3) ]
      ]
