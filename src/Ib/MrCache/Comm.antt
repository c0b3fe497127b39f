-- ===== src/Ib/MrCache/Comm.antt =====
-- Memory regions of a comm in src/unet/unet_ib.cc: ncclIbRegMrDmaBuf and ncclIbDeregMr go through the
-- devices of the comm, each of which has a cache of its own.
pub mod References
mod Counting
pub mod Loops
mod Tests
use nccl_exts.Prelude.{ℕ, Bool, List, [], ◌∷◌, none, get_or, set, drop}
use nccl_exts.Prelude.Nccl.{NcclResult, Result, Action, ◌>>=◌, ◌>>◌, pure}
use nccl_exts.Ib.Comm.{IbStat}
use nccl_exts.Ib.Pd.{DevBase}
use nccl_exts.Ib.MrCache.{Cache, reg_mr, dereg_mr}

-- The caches of all IB devices, and the counters that they share.
pub record Regions : Type 0 where
  pub caches : List Cache
  pub stat : IbStat

abbrev pub blank_cache : Cache
blank_cache = record { slots = []; capacity = 0; stat = none }

-- `&ncclIbDevs[n].mrCache`.
abbrev pub cache_at : Regions → ℕ → Cache
cache_at s n = record (get_or s.caches n blank_cache) { stat = s.stat }

-- What a call on the cache of IB device n leaves.
abbrev pub put_cache : {A : Type 0} → ℕ → Regions → Result A × Cache → Result A × Regions
put_cache n s (r, c) = (r, record s { caches = set s.caches n c; stat = c.stat })

-- A call on the cache of IB device n.
unfoldable pub on_cache : {A : Type 0} → ℕ → Action Cache A → Action Regions A
on_cache n m s = put_cache n s (m (cache_at s n))

module _ (page_size : ℕ) (grow : ℕ → Bool) (register : ℕ → ℕ → ℕ → Result ℕ) where
  -- ncclIbRegMrDmaBuf on the devices of the comm, for `size` bytes from `start` on: the regions of
  -- *mhandle. `register n` is the registration on IB device n.
  unfoldable pub reg_mr_dma_buf : ℕ → ℕ → List DevBase → Action Regions (List ℕ)
  reg_mr_dma_buf start size [] = pure []
  reg_mr_dma_buf start size (b ∷ bases) =
      on_cache b.ib_dev_n (reg_mr page_size grow (register b.ib_dev_n) start size) >>= λ m.
      reg_mr_dma_buf start size bases >>= λ mrs. pure (m ∷ mrs)

module _ (deregister : ℕ → ℕ → NcclResult) where
  -- ncclIbDeregMr; the array of the handle has an entry for each device.
  unfoldable pub dereg_mrs : List DevBase → List ℕ → Action Regions (Unit {0})
  dereg_mrs [] mrs = pure tt
  dereg_mrs (b ∷ bases) mrs =
      on_cache b.ib_dev_n (dereg_mr (deregister b.ib_dev_n) (get_or mrs 0 0))
      >> dereg_mrs bases (drop 1 mrs)
