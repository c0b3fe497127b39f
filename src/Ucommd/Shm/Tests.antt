-- ===== src/Ucommd/Shm/Tests.antt =====
-- A run of the model of class StatsShm at a concrete input.
use nccl_exts.Prelude.{◌∷◌, [], some}
use nccl_exts.Ucommd.Shm.{StatsShm, construct, init, alloc_stat, free_stat}
use nccl_exts.Ucommd.Shm.Rows.{
  constructed, inited, allocated, freed, IsPartition, Reachable-IsPartition,
}

abbrev start : StatsShm
start = construct 3 ("pid" ∷ "rank" ∷ [])

abbrev used : StatsShm
used = (free_stat 0 (alloc_stat (alloc_stat (init (some 4096) start).1).1).1).1

Reachable-IsPartition_example : IsPartition used
Reachable-IsPartition_example =
    Reachable-IsPartition used
      (freed 0 (allocated (allocated (inited (some 4096) (constructed 3 ("pid" ∷ "rank" ∷ []))))))
