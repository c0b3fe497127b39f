-- ===== src/Ucommd/Stat/Sizes.antt =====
-- A write to a counter of src/ucommd/stats.cc leaves the size of the memory.
use nccl_exts.Prelude.{ℕ, zero, suc, ◌≡◌, refl, ◌∙◌, set, length, length-set}
use nccl_exts.Ucommd.Stat.{Memory, Stat, clear_from, clear}

length-clear_from : (left at : ℕ) (m : Memory) → length (clear_from left at m) ≡ length m
unfolding clear_from
length-clear_from zero at m = refl
length-clear_from (suc left) at m = length-clear_from left (suc at) (set m at 0) ∙ length-set m at 0

pub length-clear : (s : Stat) (m : Memory) → length (clear s m) ≡ length m
unfolding clear
length-clear s m = length-clear_from s.num_counters s.base m
