-- ===== src/Ucommd/Shm/Rows.antt =====
-- Each row of a StatsShm of src/ucommd/stats.cc is free or has one holder.
use nccl_exts.Prelude.{
  ℕ, zero, suc, ◌+◌, ◌≡◌, refl, ap, Bool-cases, inl, inr, List, [], ◌∷◌, ◌++◌, Option, none, some,
  arith, ◌==◌, ltb, if◌then◌else◌,
}
use Prim.Native.String.{String}
use nccl_exts.Ucommd.Shm.{
  StatsShm, ids_from, construct, init, take_row, alloc_stat, find_handle, erase, give_back,
  free_stat,
}

-- How often an id stands in a list, and among the holders.
abbrev pub count : ℕ → List ℕ → ℕ
count k [] = 0
count k (x ∷ xs) = (if k == x then 1 else 0) + count k xs

abbrev pub count_held : ℕ → List (ℕ × ℕ) → ℕ
count_held k [] = 0
count_held k ((h, id) ∷ group) = (if k == id then 1 else 0) + count_held k group

-- Each of the ids below num_stats is once in the queue or has one holder, and no other id occurs.
abbrev pub IsPartition : StatsShm → Type 0
IsPartition s =
    (k : ℕ) → count k s.available + count_held k s.group ≡ (if ltb k s.num_stats then 1 else 0)

count-ids_from :
    (k left i : ℕ)
    → count k (ids_from left i) ≡ (if ltb k i then 0 else (if ltb k (i + left) then 1 else 0))
unfolding ids_from
count-ids_from k zero i = ground arith
count-ids_from k (suc left) i = ground (arith, count-ids_from k left (suc i))

count-append :
    (k x : ℕ) (xs : List ℕ) → count k (xs ++ (x ∷ [])) ≡ count k xs + (if k == x then 1 else 0)
count-append k x [] = omega arith
count-append k x (y ∷ ys) = omega (arith, count-append k x ys)

count-erase :
    (k h id : ℕ) (group : List (ℕ × ℕ))
    → find_handle h group ≡ some id
    → count_held k (erase h group) + (if k == id then 1 else 0) ≡ count_held k group
unfolding find_handle erase
count-erase k h id [] e = cc
count-erase k h id ((g, x) ∷ group) e = elim (Bool-cases (h == g)) [
  | inl t ↦
      let found : some x ≡ some id = rw t at e in
      let same : x ≡ id = cc in rw (t, same) (omega arith)
  | inr t ↦
      let found : find_handle h group ≡ some id = rw t at e in
      rw t (omega (arith, count-erase k h id group found))
]

-- The states of a StatsShm: constructed, and after any calls of init, allocStat and freeStat.
pub data Reachable : StatsShm → Type 0 where
  constructed : (n : ℕ) (names : List String) → Reachable (construct n names)
  inited : {s : StatsShm} (shm : Option ℕ) → Reachable s → Reachable (init shm s).1
  allocated : {s : StatsShm} → Reachable s → Reachable (alloc_stat s).1
  freed : {s : StatsShm} (h : ℕ) → Reachable s → Reachable (free_stat h s).1

construct-IsPartition : (n : ℕ) (names : List String) → IsPartition (construct n names)
unfolding construct
construct-IsPartition n names k = ground (arith, count-ids_from k n 0)

init-IsPartition : (shm : Option ℕ) (s : StatsShm) → IsPartition s → IsPartition (init shm s).1
unfolding init
init-IsPartition shm s h k = ground (arith, h k)

take_row-IsPartition :
    (ids : List ℕ) (s : StatsShm)
    → s.available ≡ ids
    → IsPartition s
    → IsPartition (take_row ids s).1
unfolding take_row
take_row-IsPartition [] s e h k = h k
take_row-IsPartition (id ∷ ids) s e h k = let before = ap (count k) e in omega (arith, before, h k)

alloc_stat-IsPartition : (s : StatsShm) → IsPartition s → IsPartition (alloc_stat s).1
unfolding alloc_stat
alloc_stat-IsPartition s h k = ground (arith, h k, take_row-IsPartition s.available s refl h k)

give_back-IsPartition :
    (h : ℕ) (r : Option ℕ) (s : StatsShm)
    → find_handle h s.group ≡ r
    → IsPartition s
    → IsPartition (give_back h r s).1
unfolding give_back
give_back-IsPartition h none s e p k = p k
give_back-IsPartition h (some id) s e p k =
    omega (arith, p k, count-append k id s.available, count-erase k h id s.group e)

free_stat-IsPartition : (h : ℕ) (s : StatsShm) → IsPartition s → IsPartition (free_stat h s).1
unfolding free_stat
free_stat-IsPartition h s p k =
    ground (arith, p k, give_back-IsPartition h (find_handle h s.group) s refl p k)

-- In every state that a StatsShm can reach by calls of init, allocStat and freeStat, each row
-- below num_stats is once in the queue of free rows or has one holder, and no other row occurs.
pub Reachable-IsPartition : (s : StatsShm) → Reachable s → IsPartition s
Reachable-IsPartition s (constructed n names) = construct-IsPartition n names
Reachable-IsPartition s (inited {s = t} shm r) = init-IsPartition shm t (Reachable-IsPartition t r)
Reachable-IsPartition s (allocated {s = t} r) = alloc_stat-IsPartition t (Reachable-IsPartition t r)
Reachable-IsPartition s (freed {s = t} h r) = free_stat-IsPartition h t (Reachable-IsPartition t r)
