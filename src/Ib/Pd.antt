-- ===== src/Ib/Pd.antt =====
-- The protection domain and the completion queue of a device of a comm: ncclIbInitCommDevBase and
-- ncclIbDestroyBase of src/unet/unet_ib.cc. The domain is shared by the comms of the device, and
-- pdRefs counts them; both functions change it under the device's lock.
pub mod Counts
mod Tests
use nccl_exts.Prelude.{
  ℕ, zero, suc, ◌+◌, ◌-◌, ◌*◌, ◌<◌, ◌≤◌, ◌≡◌, ◌⊎◌, inl, inr, refl, Bool, true, false, not, Option,
  none, some, arith, Bool-cases, ◌==◌, if◌then◌else◌,
}
use nccl_exts.Prelude.Nccl.{
  NcclResult, Result, ok, err, system_error, Action, ◌>>=◌, ◌>>◌, pure, modify, Ends, Ends-chain,
}
use nccl_exts.Prelude.Words.{inc32, dec32}
use nccl_exts.Ib.Comm.{IbStat, ib_cq_count, stat_add, stat_dec}

-- What the two functions change of a device: pdRefs, an `int` as its bit pattern, and pd. `domains`
-- is not a field of the source: how many domains of the device the verbs library holds.
pub record DevPd : Type 0 where
  pub pd_refs : ℕ
  pub pd : Option ℕ
  pub domains : ℕ
  pub stat : IbStat

-- struct ncclIbNetCommDevBase; the GID is in Ib.Gid.
pub record DevBase : Type 0 where
  pub ib_dev_n : ℕ
  pub pd : Option ℕ
  pub cq : ℕ

-- `if (0 == ibDev->pdRefs++) ...` with the answer of wrap_ibv_alloc_pd.
unfoldable pub acquire_pd : Option ℕ → Action DevPd (Option ℕ)
acquire_pd alloc d =
    let counted = record d { pd_refs = inc32 d.pd_refs } in
    if d.pd_refs == 0
    then elim alloc [
      | none ↦ (err system_error, counted)
      | some pd ↦ (ok (some pd), record counted { pd = some pd; domains = suc d.domains })
    ]
    else (ok d.pd, counted)

-- wrap_ibv_create_cq's answer, and the count.
unfoldable pub create_cq : Option ℕ → Action DevPd ℕ
create_cq none d = (err system_error, d)
create_cq (some cq) d = (ok cq, record d { stat = stat_add ib_cq_count 1 d.stat })

unfoldable pub init_comm_dev_base : ℕ → Option ℕ → Option ℕ → Action DevPd DevBase
init_comm_dev_base n alloc cq =
    acquire_pd alloc >>= λ pd. create_cq cq >>= λ c. pure (record { ib_dev_n = n; pd = pd; cq = c })

-- `if (0 == --pdRefs) ...` with the success of wrap_ibv_dealloc_pd.
unfoldable pub release_pd : Bool → Action DevPd (Unit {0})
release_pd dealloc d =
    let dropped = record d { pd_refs = dec32 d.pd_refs } in
    if dropped.pd_refs == 0
    then if dealloc
      then (ok tt, record dropped { domains = d.domains - 1 })
      else (err system_error, dropped)
    else (ok tt, dropped)

-- ncclIbDestroyBase by the success of wrap_ibv_destroy_cq.
unfoldable pub destroy_base : Bool → Bool → Action DevPd (Unit {0})
destroy_base destroy dealloc d =
    let counted = record d { stat = stat_dec ib_cq_count d.stat } in
    let (r, after) = release_pd dealloc counted in
    if destroy then (r, after) else (err system_error, d)
