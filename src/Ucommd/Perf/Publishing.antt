-- ===== src/Ucommd/Perf/Publishing.antt =====
-- What a process has published when UnetPerfMonitor::init of src/ucommd/unet_perf.cc has succeeded.
use Prim.Native.String.{String, ◌++◌}
use mathlib.Core.Path.{subst}
use nccl_exts.Prelude.{
  ℕ, zero, suc, ◌+◌, ◌*◌, ◌≤◌, ◌<◌, ◌≡◌, ◌⊎◌, inl, inr, refl, sym, ap, ◌∙◌, Bool, true, false, [],
  ◌∷◌, Option, none, some, arith, if◌then◌else◌, length, get_elem?,
}
use nccl_exts.Prelude.Int.{ℤ, pos, negsuc}
use nccl_exts.Ucommd.Stat.{Stat, Memory, done, set_counter, set_by_name, find_counter}
use nccl_exts.Ucommd.Shm.{StatsShm, construct}
use nccl_exts.Ucommd.Perf.{
  created, initialized, failed, UnetPerfMonitor, to_size, Flock, locked, held, flock_failed,
  PerfHost, ib_names, make_stat, take_ib, rank_names, ranks, bw_names, set_all, end_bw, take_bw,
  init_bw, init_rows, with_lock, init_in, init, post_bytes_by_rank, cpl_bytes_by_rank,
}
use nccl_exts.Ucommd.Perf.Rows.{
  row, taken, make_stat_cases, length-taken, value, name_at, get_self, length-set_counter, five,
  get_under, get-five,
}

-- The counters of the row for the network.
pub record IsIbRow (s : UnetPerfMonitor) : Type 0 where
  pub pid : value s.shm_ib s.ib_stat 0 ≡ some (to_size s.pid)
  pub rank : value s.shm_ib s.ib_stat 1 ≡ some (to_size s.rank)

-- The counters of the row for the bytes to each rank, and the names that the indices of a rank lead to.
pub record IsBwRow (to_string : ℕ → String) (s : UnetPerfMonitor) : Type 0 where
  pub pid : value s.shm_bw s.bw_stat 0 ≡ some (to_size s.pid)
  pub rank : value s.shm_bw s.bw_stat 1 ≡ some (to_size s.rank)
  pub local_rank : value s.shm_bw s.bw_stat 2 ≡ some (to_size s.local_rank)
  pub world_size : value s.shm_bw s.bw_stat 3 ≡ some (to_size s.world_size)
  pub local_size : value s.shm_bw s.bw_stat 4 ≡ some (to_size s.local_size)
  pub post :
      (i : ℕ)
      → i < ranks to_string s.world_size
      → name_at s.bw_stat (post_bytes_by_rank s i) ≡ some ("tx_rank" ++ to_string i)
  pub cpl :
      (i : ℕ)
      → i < ranks to_string s.world_size
      → name_at s.bw_stat (cpl_bytes_by_rank s i) ≡ some ("cpl_rank" ++ to_string i)

module _ (to_string : ℕ → String) where
  get-rank_names_post :
      (left first i : ℕ)
      → i < left
      → get_elem? (rank_names to_string left first) (i * 2)
        ≡ some ("tx_rank" ++ to_string (first + i))
  unfolding rank_names
  get-rank_names_post zero first i l = absurd (omega arith)
  get-rank_names_post (suc left) first zero l =
      ap (λ j. some ("tx_rank" ++ to_string j)) (omega arith)
  get-rank_names_post (suc left) first (suc i) l =
      let two : suc i * 2 ≡ suc (suc (i * 2)) = omega arith in
      rw two (
        get-rank_names_post left (suc first) i (omega arith)
        ∙ ap (λ j. some ("tx_rank" ++ to_string j)) (omega arith))

  get-rank_names_cpl :
      (left first i : ℕ)
      → i < left
      → get_elem? (rank_names to_string left first) (suc (i * 2))
        ≡ some ("cpl_rank" ++ to_string (first + i))
  unfolding rank_names
  get-rank_names_cpl zero first i l = absurd (omega arith)
  get-rank_names_cpl (suc left) first zero l =
      ap (λ j. some ("cpl_rank" ++ to_string j)) (omega arith)
  get-rank_names_cpl (suc left) first (suc i) l =
      let two : suc i * 2 ≡ suc (suc (i * 2)) = omega arith in
      rw two (
        get-rank_names_cpl left (suc first) i (omega arith)
        ∙ ap (λ j. some ("cpl_rank" ++ to_string j)) (omega arith))

  set_all_lem :
      (w : ℤ) (a b c d e : ℕ) (m : Memory)
      → set_all to_string
          (row (bw_names to_string w))
          (("pid", a)
            ∷ ("rank", b)
            ∷ ("local_rank", c)
            ∷ ("world_size", d)
            ∷ ("local_size", e)
            ∷ [])
          m
        ≡ (done, five (bw_names to_string w) a b c d e m)
  unfolding set_all set_by_name find_counter construct
  set_all_lem w a b c d e m = refl

  -- The rank of the process is known.
  abbrev HasRank : ℤ → Type 0
  HasRank (pos n) = Unit
  HasRank (negsuc n) = ⊥

  -- How `init` ends: with the rows published, or in the state of an error.
  abbrev pub Settles : Bool × UnetPerfMonitor → Type 0
  Settles (true, t) = (t.state ≡ initialized) × (IsIbRow t × (HasRank t.rank → IsBwRow to_string t))
  Settles (false, t) = t.state ≡ failed

  post_lem :
      (w : ℤ) (i : ℕ) (s : UnetPerfMonitor)
      → s.bw_offset ≡ 5
      → i < ranks to_string w
      → get_elem? (bw_names to_string w) (post_bytes_by_rank s i) ≡ some ("tx_rank" ++ to_string i)
  unfolding post_bytes_by_rank
  post_lem w i s e l =
      let at : s.bw_offset + i * 2 ≡ suc (suc (suc (suc (suc (i * 2))))) = omega (arith, e) in
      rw at (
        get-rank_names_post (ranks to_string w) 0 i l
        ∙ ap (λ j. some ("tx_rank" ++ to_string j)) (omega arith))

  cpl_lem :
      (w : ℤ) (i : ℕ) (s : UnetPerfMonitor)
      → s.bw_offset ≡ 5
      → i < ranks to_string w
      → get_elem? (bw_names to_string w) (cpl_bytes_by_rank s i) ≡ some ("cpl_rank" ++ to_string i)
  unfolding cpl_bytes_by_rank
  cpl_lem w i s e l =
      let at : s.bw_offset + i * 2 + 1 ≡ suc (suc (suc (suc (suc (suc (i * 2)))))) =
        omega (arith, e) in
      rw at (
        get-rank_names_cpl (ranks to_string w) 0 i l
        ∙ ap (λ j. some ("cpl_rank" ++ to_string j)) (omega arith))

  take_bw-Settles :
      (s : UnetPerfMonitor) (out : Option (ℕ × Stat) × StatsShm)
      → s.bw_offset ≡ 5
      → IsIbRow s
      → (out.0 ≡ none)
        ⊎ (out ≡ (
          some (0, row (bw_names to_string s.world_size)),
          taken (bw_names to_string s.world_size),
        ))
      → Settles (take_bw to_string out s)
  unfolding take_bw end_bw construct post_bytes_by_rank cpl_bytes_by_rank
  take_bw-Settles s (none, shm) o ib h = refl
  take_bw-Settles s (some st, shm) o ib (inl e) = absurd (cc)
  take_bw-Settles s (some (h, st), shm) o ib (inr e) =
      let w = s.world_size in
      let names = bw_names to_string w in
      let m = (taken names).memory in
      let big : 5 ≤ length m = omega (arith, length-taken names) in
      let (v0, (v1, (v2, (v3, v4)))) =
        get-five names (to_size s.pid) (to_size s.rank) (to_size s.local_rank) (to_size w)
          (to_size s.local_size) m big in
      subst (λ out. Settles (take_bw to_string out s)) (sym e)
        (rw
          (set_all_lem w (to_size s.pid) (to_size s.rank) (to_size s.local_rank) (to_size w)
            (to_size s.local_size) m)
          (
            refl,
            (
              record { pid = ib.pid; rank = ib.rank },
              λ _. record {
                pid = ap some v0;
                rank = ap some v1;
                local_rank = ap some v2;
                world_size = ap some v3;
                local_size = ap some v4;
                post = λ i l. post_lem w i s o l;
                cpl = λ i l. cpl_lem w i s o l;
              },
            ),
          ))

  init_bw-Settles :
      (r : ℤ) (host : PerfHost) (s : UnetPerfMonitor)
      → s.rank ≡ r
      → IsIbRow s
      → Settles (init_bw to_string r host s)
  unfolding init_bw
  init_bw-Settles (negsuc n) host s e ib =
      (refl, (record { pid = ib.pid; rank = ib.rank }, λ h. absurd (subst HasRank e h)))
  init_bw-Settles (pos n) host s e ib =
      take_bw-Settles (record s { bw_offset = 5 })
        (make_stat host.shm_bw (bw_names to_string s.world_size)) refl
        (record { pid = ib.pid; rank = ib.rank })
        (make_stat_cases host.shm_bw (bw_names to_string s.world_size))

  init_rows-Settles : (host : PerfHost) (s : UnetPerfMonitor) → Settles (init_rows to_string host s)
  unfolding init_rows take_ib
  init_rows-Settles host s =
      go (make_stat host.shm_ib ib_names) (make_stat_cases host.shm_ib ib_names)
    where
      go :
          (out : Option (ℕ × Stat) × StatsShm)
          → (out.0 ≡ none) ⊎ (out ≡ (some (0, row ib_names), taken ib_names))
          → Settles (
              let (going, t) = take_ib out s in
              if going then init_bw to_string t.rank host t else (false, t))
      go (none, shm) h = refl
      go (some st, shm) (inl e) = absurd (cc)
      go (some (h, st), shm) (inr e) =
          let m = (taken ib_names).memory in
          let big = length-taken ib_names in
          let p = to_size s.pid in
          let r = to_size s.rank in
          let m1 = set_counter (row ib_names) 0 p m in
          let l1 = length-set_counter ib_names 0 p m in
          subst
            (λ out. Settles (
              let (going, t) = take_ib out s in
              if going then init_bw to_string t.rank host t else (false, t)))
            (sym e)
            (init_bw-Settles s.rank host _ refl (record {
              pid = ap some (
                  get_under ib_names 1 0 r p m1 (λ x. absurd (omega (arith, x)))
                    (get_self ib_names 0 p m (omega (arith, big))));
              rank = ap some (get_self ib_names 1 r m1 (omega (arith, big, l1)));
            }))

  init-Settles :
      (host : PerfHost) (s : UnetPerfMonitor) → s.state ≡ created → Settles (init to_string host s)
  unfolding init init_in with_lock
  init-Settles host s e =
      subst (λ st. Settles (init_in to_string st host s)) (sym e) (go host.open_file host.flock)
    where
      go : (file : Option ℕ) (lock : Flock) → Settles (with_lock to_string file lock host s)
      go none lock = refl
      go (some fd) flock_failed = refl
      go (some fd) locked = init_rows-Settles host (record s { lock_fd = pos fd })
      go (some fd) held = init_rows-Settles host (record s { lock_fd = pos fd })

  -- Later calls give the same answer and change nothing.
  settled :
      (host : PerfHost) (out : Bool × UnetPerfMonitor)
      → Settles out
      → init to_string host out.1 ≡ out
  unfolding init init_in
  settled host (true, t) h = ap (λ st. init_in to_string st host t) h.0
  settled host (false, t) h = ap (λ st. init_in to_string st host t) h

  -- The first call of init of the performance monitor either fails and leaves it in error, or
  -- succeeds with its rows published: that of the network with the pid and the rank, and, when the
  -- rank is not negative, that of the bytes with the pid, the rank, the local rank and the sizes,
  -- in which the indices by rank are those of the counters with the names of the rank. Every later
  -- call gives the same answer and changes nothing.
  pub init_lem :
      (host : PerfHost) (s : UnetPerfMonitor)
      → s.state ≡ created
      → Settles (init to_string host s)
        × ((later : PerfHost)
            → init to_string later (init to_string host s).1 ≡ init to_string host s)
  init_lem host s e =
      let h = init-Settles host s e in (h, λ later. settled later (init to_string host s) h)
