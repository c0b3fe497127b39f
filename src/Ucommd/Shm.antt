-- ===== src/Ucommd/Shm.antt =====
-- class StatsShm of src/ucommd/stats.h and stats.cc: rows of counters in a shared memory, and who
-- holds which row. Every operation runs under the object's mutex.
pub mod Rows
mod Tests
use Prim.Native.String.{String}
use nccl_exts.Prelude.{
  ℕ, zero, suc, ◌+◌, ◌*◌, ◌%◌, Bool, true, false, List, [], ◌∷◌, ◌++◌, Option, none, some, ◌==◌,
  if◌then◌else◌, length, replicate,
}
use nccl_exts.Ucommd.Stat.{Memory, Stat, clear}

pub data ShmState : Type 0 where
  created initialized failed : ShmState

-- `group` is stats_group_: a shared pointer is a handle, a number that is never used twice, and goes
-- with the id of its Stat. The list `available` is the queue of ids, the front first.
pub record StatsShm : Type 0 where
  pub num_stats : ℕ
  pub counter_list : List String
  pub available : List ℕ
  pub group : List (ℕ × ℕ)
  pub next_handle : ℕ
  pub state : ShmState
  pub memory : Memory

-- The loop of the constructor that pushes `left` ids from `i` on.
unfoldable pub ids_from : ℕ → ℕ → List ℕ
ids_from zero i = []
ids_from (suc left) i = i ∷ ids_from left (suc i)

unfoldable pub construct : ℕ → List String → StatsShm
construct num_stats counter_list = record {
  num_stats = num_stats;
  counter_list = counter_list;
  available = ids_from num_stats 0;
  group = [];
  next_handle = 0;
  state = created;
  memory = [];
}

-- sizeof(Meta) and sizeof(Desc).
abbrev pub sizeof_meta : ℕ
sizeof_meta = 536

abbrev pub sizeof_desc : ℕ
sizeof_desc = 128

-- `init` with the answer of create_shm: the address, or `none` for a null pointer. The result is true
-- for 0 and false for -1.
unfoldable pub init : Option ℕ → StatsShm → Bool × StatsShm
init shm s = elim s.state [
  | initialized ↦ (true, s)
  | failed ↦ (false, s)
  | created ↦ elim shm [
    | none ↦ (false, record s { state = failed })
    | some addr ↦
        let zeroed = record s { memory = replicate (length s.counter_list * s.num_stats) 0 } in
        if (addr + sizeof_meta + sizeof_desc * length s.counter_list) % 8 == 0
        then (true, record zeroed { state = initialized })
        else (false, record zeroed { state = failed })
  ]
]

-- The Stat of row `id`.
abbrev pub stat_of : ℕ → StatsShm → Stat
stat_of id s = record {
  id = id;
  base = id * length s.counter_list;
  num_counters = length s.counter_list;
  names = s.counter_list;
}

-- allocStat by the queue of ids.
unfoldable pub take_row : List ℕ → StatsShm → Option (ℕ × Stat) × StatsShm
take_row [] s = (none, s)
take_row (id ∷ ids) s = (
  some (s.next_handle, stat_of id s),
  record s {
    available = ids;
    group = (s.next_handle, id) ∷ s.group;
    next_handle = suc s.next_handle;
    memory = clear (stat_of id s) s.memory;
  },
)

-- allocStat: the handle and the Stat, or `none` for -1.
unfoldable pub alloc_stat : StatsShm → Option (ℕ × Stat) × StatsShm
alloc_stat s = elim s.state [ initialized ↦ take_row s.available s | _ ↦ (none, s) ]

-- The id of a handle in the group, and the group without it.
unfoldable pub find_handle : ℕ → List (ℕ × ℕ) → Option ℕ
find_handle h [] = none
find_handle h ((g, id) ∷ group) = let rest = find_handle h group in if h == g then some id else rest

unfoldable pub erase : ℕ → List (ℕ × ℕ) → List (ℕ × ℕ)
erase h [] = []
erase h ((g, id) ∷ group) = let rest = erase h group in if h == g then group else (g, id) ∷ rest

unfoldable pub give_back : ℕ → Option ℕ → StatsShm → Bool × StatsShm
give_back h none s = (false, s)
give_back h (some id) s = (
  true,
  record s {
    memory = clear (stat_of id s) s.memory;
    group = erase h s.group;
    available = s.available ++ (id ∷ []);
  },
)

-- freeStat.
unfoldable pub free_stat : ℕ → StatsShm → Bool × StatsShm
free_stat h s = elim s.state [
  | initialized ↦ give_back h (find_handle h s.group) s
  | _ ↦ (false, s)
]
