-- ===== src/Ucommd/Perf.antt =====
-- class UnetPerfMonitor of src/ucommd/unet_perf.cc: the counters that a process publishes, in one row
-- for the InfiniBand network and one for the bytes to each rank. Every call of `init` runs under the
-- object's mutex. Environment variables are the codes of their characters.
mod Rows
pub mod Publishing
mod Tests
use Prim.Native.String.{String, ◌++◌}
use nccl_exts.Prelude.{
  ℕ, zero, suc, ◌+◌, ◌-◌, ◌*◌, ◌%◌, ◌^◌, Bool, true, false, not, List, [], ◌∷◌, Option, none, some,
  ltb, if◌then◌else◌, length,
}
use nccl_exts.Prelude.Int.{ℤ, pos, negsuc}
use nccl_exts.Ucommd.Stat.{Stat, Memory, Status, done, not_found, set_counter, set_by_name}
use nccl_exts.Ucommd.Shm
use nccl_exts.Ucommd.Shm.{StatsShm, construct, alloc_stat}

pub data PerfState : Type 0 where
  created initialized failed : PerfState

-- `bw_offset` is the static member bw_offset_. A StatPtr is a handle of its StatsShm with its Stat.
pub record UnetPerfMonitor : Type 0 where
  pub pid : ℤ
  pub lock_fd : ℤ
  pub rank : ℤ
  pub local_rank : ℤ
  pub world_size : ℤ
  pub local_size : ℤ
  pub shm_ib : Option StatsShm
  pub shm_bw : Option StatsShm
  pub ib_stat : Option (ℕ × Stat)
  pub bw_stat : Option (ℕ × Stat)
  pub bw_offset : ℕ
  pub state : PerfState

-- An environment variable that is set to a text that is not empty.
abbrev pub given : Option (List ℕ) → Option (List ℕ)
given none = none
given (some []) = none
given (some (c ∷ cs)) = some (c ∷ cs)

-- The lambda get_from_env; `atoi` is the C library's.
unfoldable pub get_from_env : (List ℕ → ℤ) → Option (List ℕ) → Option (List ℕ) → ℤ
get_from_env atoi torch ompi = elim (given torch) [
  | some text ↦ atoi text
  | none ↦ elim (given ompi) [ some text ↦ atoi text | none ↦ negsuc 0 ]
]

-- `disable && disable[0] > '0'`; an empty text begins with its 0.
unfoldable pub is_disabled : Option (List ℕ) → Bool
is_disabled none = false
is_disabled (some []) = false
is_disabled (some (c ∷ cs)) = ltb b'0' c

-- The pairs of environment variables that the constructor reads.
pub record Environment : Type 0 where
  pub disable : Option (List ℕ)
  pub rank : Option (List ℕ) × Option (List ℕ)
  pub local_rank : Option (List ℕ) × Option (List ℕ)
  pub world_size : Option (List ℕ) × Option (List ℕ)
  pub local_size : Option (List ℕ) × Option (List ℕ)

-- The constructor.
unfoldable pub start : (List ℕ → ℤ) → Environment → ℤ → UnetPerfMonitor
start atoi env pid =
    let blank : UnetPerfMonitor = record {
      pid = negsuc 0;
      lock_fd = negsuc 0;
      rank = negsuc 0;
      local_rank = negsuc 0;
      world_size = negsuc 0;
      local_size = negsuc 0;
      shm_ib = none;
      shm_bw = none;
      ib_stat = none;
      bw_stat = none;
      bw_offset = 5;
      state = created;
    } in
    if is_disabled env.disable then record blank { state = failed } else record blank {
      pid = pid;
      rank = get_from_env atoi env.rank.0 env.rank.1;
      local_rank = get_from_env atoi env.local_rank.0 env.local_rank.1;
      world_size = get_from_env atoi env.world_size.0 env.world_size.1;
      local_size = get_from_env atoi env.local_size.0 env.local_size.1;
    }

-- An `int` as the `size_t` of a counter.
abbrev pub to_size : ℤ → ℕ
to_size (pos n) = n % 2 ^ 64
to_size (negsuc n) = (2 ^ 64 - 1 - n) % 2 ^ 64

-- What flock answers: the lock, that another process holds it, or another failure.
pub data Flock : Type 0 where
  locked held flock_failed : Flock

-- The answers of open, of flock, and of create_shm for the two rows.
pub record PerfHost : Type 0 where
  pub open_file : Option ℕ
  pub flock : Flock
  pub shm_ib : Option ℕ
  pub shm_bw : Option ℕ

abbrev pub ib_names : List String
ib_names =
    "pid" ∷ "rank" ∷ "cq_count" ∷ "qp_count" ∷ "mr_count" ∷ "cpl_count" ∷ "cpl_err_count"
    ∷ "fifo_post_count" ∷ "fifo_recv_count" ∷ "tx_bytes" ∷ []

-- A StatsShm for one row, initialised, and its row: `none` when one of the two fails.
unfoldable pub make_stat : Option ℕ → List String → Option (ℕ × Stat) × StatsShm
make_stat addr names =
    let (inited, shm) = Shm.init addr (construct 1 names) in
    if inited then alloc_stat shm else (none, shm)

-- The rest of `init` behind a failure.
abbrev pub give_up : UnetPerfMonitor → Bool × UnetPerfMonitor
give_up s = (false, record s { state = failed })

abbrev pub write : (Memory → Memory) → StatsShm → StatsShm
write f shm = record shm { memory = f shm.memory }

-- The row for the network, with the pid and the rank.
unfoldable pub take_ib : Option (ℕ × Stat) × StatsShm → UnetPerfMonitor → Bool × UnetPerfMonitor
take_ib (none, shm) s = give_up (record s { shm_ib = some shm })
take_ib (some (h, st), shm) s = (
  true,
  record s {
    shm_ib =
        some
          (write (λ m. set_counter st 1 (to_size s.rank) (set_counter st 0 (to_size s.pid) m)) shm);
    ib_stat = some (h, st);
  },
)

module _ (to_string : ℕ → String) where
  -- The loop over the ranks.
  unfoldable pub rank_names : ℕ → ℕ → List String
  rank_names zero i = []
  rank_names (suc left) i =
      ("tx_rank" ++ to_string i) ∷ ("cpl_rank" ++ to_string i) ∷ rank_names left (suc i)

  -- `i < world_size_` for an int that may be negative.
  abbrev pub ranks : ℤ → ℕ
  ranks (pos n) = n
  ranks (negsuc n) = 0

  abbrev pub bw_names : ℤ → List String
  bw_names world_size =
      "pid" ∷ "rank" ∷ "local_rank" ∷ "world_size" ∷ "local_size" ∷ rank_names (ranks world_size) 0

  -- The chain of `set` with `||`: the first unknown name ends it.
  unfoldable pub set_all : Stat → List (String × ℕ) → Memory → Status × Memory
  set_all st [] m = (done, m)
  set_all st ((name, val) ∷ rest) m =
      let (status, m') = set_by_name st name val m in
      elim status [ done ↦ set_all st rest m' | not_found ↦ (not_found, m') ]

  -- The counters of the second row that do not change.
  abbrev pub bw_values : UnetPerfMonitor → List (String × ℕ)
  bw_values s =
      ("pid", to_size s.pid)
      ∷ ("rank", to_size s.rank)
      ∷ ("local_rank", to_size s.local_rank)
      ∷ ("world_size", to_size s.world_size)
      ∷ ("local_size", to_size s.local_size)
      ∷ []

  unfoldable pub end_bw :
      ℕ × Stat → StatsShm → Status × Memory → UnetPerfMonitor → Bool × UnetPerfMonitor
  end_bw st shm (not_found, m) s =
      give_up (record s { shm_bw = some (record shm { memory = m }); bw_stat = some st })
  end_bw st shm (done, m) s = (
    true,
    record s { shm_bw = some (record shm { memory = m }); bw_stat = some st; state = initialized },
  )

  -- The row for the bytes to each rank.
  unfoldable pub take_bw : Option (ℕ × Stat) × StatsShm → UnetPerfMonitor → Bool × UnetPerfMonitor
  take_bw (none, shm) s = give_up (record s { shm_bw = some shm })
  take_bw (some (h, st), shm) s = end_bw (h, st) shm (set_all st (bw_values s) shm.memory) s

  -- `if (rank_ >= 0) ...`, and the end of `init`.
  unfoldable pub init_bw : ℤ → PerfHost → UnetPerfMonitor → Bool × UnetPerfMonitor
  init_bw (negsuc n) host s = (true, record s { state = initialized })
  init_bw (pos n) host s =
      take_bw (make_stat host.shm_bw (bw_names s.world_size)) (record s { bw_offset = 5 })

  unfoldable pub init_rows : PerfHost → UnetPerfMonitor → Bool × UnetPerfMonitor
  init_rows host s =
      let (going, t) = take_ib (make_stat host.shm_ib ib_names) s in
      if going then init_bw t.rank host t else (false, t)

  -- The file lock. When another process holds it, the file is closed, and its descriptor is kept.
  unfoldable pub with_lock : Option ℕ → Flock → PerfHost → UnetPerfMonitor → Bool × UnetPerfMonitor
  with_lock none lock host s = give_up s
  with_lock (some fd) flock_failed host s = give_up s
  with_lock (some fd) _ host s = init_rows host (record s { lock_fd = pos fd })

  -- `init` by the state.
  unfoldable pub init_in : PerfState → PerfHost → UnetPerfMonitor → Bool × UnetPerfMonitor
  init_in initialized host s = (true, s)
  init_in failed host s = (false, s)
  init_in created host s = with_lock host.open_file host.flock host s

  -- `init`: true for 0, false for -1.
  unfoldable pub init : PerfHost → UnetPerfMonitor → Bool × UnetPerfMonitor
  init host s = init_in s.state host s

  -- get_stat_, as getUnetIbStat (true) and getUnetBwStat (false) call it.
  unfoldable pub get_stat : Bool → PerfHost → UnetPerfMonitor → Option (ℕ × Stat) × UnetPerfMonitor
  get_stat ib host s =
      let (inited, t) = init host s in
      (if inited then (if ib then t.ib_stat else t.bw_stat) else none, t)

-- UNET_BW_POST_BYTES_BY_RANK and UNET_BW_CPL_BYTES_BY_RANK of a rank that is not negative.
unfoldable pub post_bytes_by_rank : UnetPerfMonitor → ℕ → ℕ
post_bytes_by_rank s rank = s.bw_offset + rank * 2

unfoldable pub cpl_bytes_by_rank : UnetPerfMonitor → ℕ → ℕ
cpl_bytes_by_rank s rank = s.bw_offset + rank * 2 + 1
