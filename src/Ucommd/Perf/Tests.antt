-- ===== src/Ucommd/Perf/Tests.antt =====
-- A run of the model of src/ucommd/unet_perf.cc at a concrete input.
use Prim.Native.String.{String}
use nccl_exts.Prelude.{ℕ, ◌≡◌, refl, [], ◌∷◌, none, some}
use nccl_exts.Prelude.Int.{pos, negsuc}
use nccl_exts.Ucommd.Perf.{
  start, get_from_env, is_disabled, PerfHost, locked, UnetPerfMonitor, created, init,
}
use nccl_exts.Ucommd.Perf.Publishing.{Settles, init_lem}

-- The second of two ranks.
abbrev monitor : UnetPerfMonitor
monitor = record {
  pid = pos 4242;
  lock_fd = negsuc 0;
  rank = pos 1;
  local_rank = pos 1;
  world_size = pos 2;
  local_size = pos 2;
  shm_ib = none;
  shm_bw = none;
  ib_stat = none;
  bw_stat = none;
  bw_offset = 5;
  state = created;
}

abbrev host : PerfHost
host = record { open_file = some 3; flock = locked; shm_ib = some 4096; shm_bw = some 8192 }

abbrev digits : ℕ → String
digits i = "7"

init_lem_example :
    Settles digits (init digits host monitor)
    × ((later : PerfHost)
        → init digits later (init digits host monitor).1 ≡ init digits host monitor)
init_lem_example = init_lem digits host monitor refl

-- The constructor reads the same from the environment.
start_values :
    start
      (λ text. pos 2)
      (record {
        disable = none;
        rank = (none, none);
        local_rank = (none, none);
        world_size = (some (b'2' ∷ []), none);
        local_size = (some [], some (b'2' ∷ []));
      })
      (pos 4242)
    ≡ record monitor { rank = negsuc 0; local_rank = negsuc 0 }
unfolding start get_from_env is_disabled
start_values = refl
