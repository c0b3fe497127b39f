-- ===== src/Monitor/Tests.antt =====
-- A run of the model of src/tools/monitor/monitor.cc at a concrete input.
use nccl_exts.Prelude.{
  ℕ, ◌-◌, ◌≡◌, inl, inr, refl, true, [], ◌∷◌, ◌++◌, List, Option, none, some, get_or,
}
use nccl_exts.Prelude.Int.{ℤ, pos}
use nccl_exts.Interfaces.{equal_up_to}
use nccl_exts.Monitor.{
  Text, prefix_stats, prefix_lock, split, Entry, MonitorHost, Info, Monitor, Readers,
  check_ucommd_pids_stats, get_lock_pids, pids_of, check_ucommd_pids, locked, check_lock_files,
  lock_files, back, has_pid, erase_records, erase_infos, scan_stats, scan_entries, scan_entry,
  add_stats, is_known, has_shm, check_stats, add_info, push_info, clean_stats, clean_records,
  clean_infos,
}
use nccl_exts.Monitor.Records.{Shows, check_ucommd_pids_stats-Shows}

-- A pid is one digit.
abbrev digit : Text → ℤ
digit t = pos (get_or t 0 0 - 48)

abbrev readers : Readers
readers = record { read_int = digit; atoi = digit; stoi = λ t. some (digit t); garbage = pos 0 }

-- ".ucommd_stats._.n.P.a" and ".ucommd_lock.n.P" for the process P.
abbrev stats_file : ℕ → Text
stats_file p = prefix_stats ++ (b'_' ∷ b'.' ∷ b'n' ∷ b'.' ∷ p ∷ b'.' ∷ b'a' ∷ [])

abbrev lock_file : ℕ → Text
lock_file p = prefix_lock ++ (b'n' ∷ b'.' ∷ p ∷ [])

abbrev entry : Text → Entry
entry name = record { name = name; is_reg = true }

abbrev word : Text
word = b'-' ∷ []

-- Process 7 has a lock and process 8 has not; both have left files.
abbrev lines : List (List Text)
lines = (word ∷ word ∷ word ∷ word ∷ (b'7' ∷ []) ∷ []) ∷ []

abbrev pid_entries : List Entry
pid_entries = entry (lock_file b'8') ∷ entry (lock_file b'7') ∷ []

abbrev host : MonitorHost
host = record {
  locks = some lines;
  pid_entries = some pid_entries;
  stat_entries =
      some (entry (stats_file b'8') ∷ entry (stats_file b'7') ∷ entry (lock_file b'7') ∷ []);
  file = λ name. record {
    size = some 4096;
    opened = true;
    addr = some 1;
    time = b'5' ∷ [];
    names = word ∷ [];
    stat_num = 1;
  };
  exists = λ name. true;
}

-- The monitor still has the file of process 8.
abbrev old_info : Info
old_info = record {
  shm = stats_file b'8';
  time = pos 5;
  addr = 2;
  size = 4096;
  desc = word ∷ [];
  stat_num = 1;
}

abbrev monitor : Monitor
monitor = record {
  opt_pids = [];
  lock_pids = [];
  ucommd_pids = [];
  records = ((b'n' ∷ []), old_info ∷ []) ∷ [];
}

check_ucommd_pids_stats-Shows_example :
    Shows readers host lines (check_ucommd_pids_stats readers host monitor)
unfolding split has_shm equal_up_to
check_ucommd_pids_stats-Shows_example =
    check_ucommd_pids_stats-Shows readers host monitor lines pid_entries refl refl refl
      (
        inr ((b'8' ∷ [], (refl, refl)), (pos 5, refl)),
        (inr ((b'7' ∷ [], (refl, refl)), (pos 5, refl)), (inl refl, tt)),
      )
      (((refl, tt), (((b'8' ∷ [], (refl, refl)), tt), tt)), tt)

-- Behind the check it has the file of process 7 alone.
abbrev shown : Option Monitor → List (List Text)
shown none = []
shown (some m) = names m.records
  where
    names : List (Text × List Info) → List (List Text)
    names [] = []
    names ((g, []) ∷ gs) = [] ∷ names gs
    names ((g, i ∷ is) ∷ gs) = (i.shm ∷ []) ∷ names gs

shown_files : shown (check_ucommd_pids_stats readers host monitor) ≡ (stats_file b'7' ∷ []) ∷ []
unfolding check_ucommd_pids_stats get_lock_pids pids_of check_ucommd_pids locked check_lock_files
    lock_files back has_pid erase_records erase_infos scan_stats scan_entries scan_entry add_stats
    is_known has_shm check_stats add_info push_info clean_stats clean_records clean_infos split
    equal_up_to
shown_files = refl
