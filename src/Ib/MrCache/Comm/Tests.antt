-- ===== src/Ib/MrCache/Comm/Tests.antt =====
-- Runs of the registrations of a comm in src/unet/unet_ib.cc at concrete inputs.
use nccl_exts.Prelude.{ℕ, ◌+◌, List, [], ◌∷◌, none}
use nccl_exts.Prelude.Nccl.{Result, ok}
use nccl_exts.Ib.Pd.{DevBase}
use nccl_exts.Ib.MrCache.Comm.{Regions}

-- The first of two devices has a region of two pages.
abbrev regions : Regions
regions = record {
  caches =
      record {
        slots = record { addr = 4096; pages = 2; refs = 1; mr = 7 } ∷ [];
        capacity = 32;
        stat = none;
      }
      ∷ record { slots = []; capacity = 0; stat = none }
      ∷ [];
  stat = none;
}

abbrev two_bases : List DevBase
two_bases =
    record { ib_dev_n = 0; pd = none; cq = 0 } ∷ record { ib_dev_n = 1; pd = none; cq = 0 } ∷ []

abbrev register : ℕ → ℕ → ℕ → Result ℕ
register n addr len = ok (8 + n)
