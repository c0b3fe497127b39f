-- ===== src/Ib/MrCache.antt =====
-- The cache of memory regions of a device: struct ncclIbMrCache, ncclIbRegMrDmaBufInternal and
-- ncclIbDeregMrInternal of src/unet/unet_ib.cc. Both run under the device's lock from end to end.
pub mod Cover
pub mod Lookup
pub mod Comm
use nccl_exts.Prelude.{
  ℕ, zero, suc, ◌+◌, ◌-◌, ◌*◌, ◌/◌, ◌%◌, ◌^◌, ◌≤◌, Bool, true, false, ◌&&◌, ◌||◌, List, [], ◌∷◌,
  Option, none, some, ltb, leb, ◌==◌, if◌then◌else◌, get_or, set, length, take,
}
use nccl_exts.Prelude.Nccl.{
  NcclResult, Result, ok, err, success, in_progress, internal_error, system_error, Action,
}
use nccl_exts.Prelude.Words.{inc32, dec32}
use nccl_exts.Ib.Comm.{IbStat, ib_mr_count, stat_add}
use nccl_exts.Ucommd.Stat

-- struct ncclIbMr: `mr` is the pointer to the verbs object.
pub record CachedMr : Type 0 where
  pub addr : ℕ
  pub pages : ℕ
  pub refs : ℕ
  pub mr : ℕ

-- `population` is the length of `slots`.
pub record Cache : Type 0 where
  pub slots : List CachedMr
  pub capacity : ℕ
  pub stat : IbStat

-- Where the search of a registration ends: on a slot that covers the range, or in front of the slot
-- where a new one goes.
pub data Search : Type 0 where
  hit : ℕ → Search
  miss : ℕ → Search

abbrev pub later : Search → Search
later (hit i) = hit (suc i)
later (miss i) = miss (suc i)

abbrev pub blank_mr : CachedMr
blank_mr = record { addr = 0; pages = 0; refs = 0; mr = 0 }

-- memmove of the tail by one, and the new slot.
unfoldable pub insert_at : ℕ → CachedMr → List CachedMr → List CachedMr
insert_at zero m slots = m ∷ slots
insert_at (suc i) m [] = m ∷ []
insert_at (suc i) m (s ∷ slots) = s ∷ insert_at i m slots

-- `slots[i].refs += 1`.
abbrev pub add_ref : CachedMr → CachedMr
add_ref s = record s { refs = inc32 s.refs }

-- `cache->capacity < 32 ? 32 : 2*cache->capacity`.
unfoldable pub next_capacity : ℕ → ℕ
next_capacity n = if ltb n 32 then 32 else 2 * n

-- `page_size` is sysconf(_SC_PAGESIZE), a power of two, so that `data & -pageSize` rounds down to a
-- multiple of it.
module _ (page_size : ℕ) where
  abbrev pub page_start : ℕ → ℕ
  page_start start = start / page_size * page_size

  abbrev pub page_count : ℕ → ℕ → ℕ
  page_count start size = (start + size - page_start start + page_size - 1) / page_size

  unfoldable pub search : ℕ → ℕ → List CachedMr → Search
  search addr pages [] = miss 0
  search addr pages (s ∷ slots) =
      let rest = search addr pages slots in
      if ltb addr s.addr
      then miss 0
      else if leb ((addr - s.addr) / page_size + pages) s.pages
      then hit 0
      else later rest

  -- `grow n` is ncclRealloc's answer for `n` slots, and `register addr length` that of the verbs
  -- library's registration: the region, or the code of the failure.
  module _ (grow : ℕ → Bool) (register : ℕ → ℕ → Result ℕ) where
    -- The answer of the registration of `pages` pages is put into the cache in front of slot `i`.
    unfoldable pub store_new : ℕ → ℕ → ℕ → Result ℕ → Action Cache ℕ
    store_new i addr pages (err e) c = (err e, c)
    store_new i addr pages (ok m) c = (
      ok m,
      record c {
        slots = insert_at i (record { addr = addr; pages = pages; refs = 1; mr = m }) c.slots;
        stat = stat_add ib_mr_count 1 c.stat;
      },
    )

    unfoldable pub register_new : ℕ → ℕ → ℕ → Action Cache ℕ
    register_new i addr pages c =
        if length c.slots == c.capacity
        then (let grown = record c { capacity = next_capacity c.capacity } in
            if grow (next_capacity c.capacity)
            then store_new i addr pages (register addr (pages * page_size)) grown
            else (err system_error, grown))
        else store_new i addr pages (register addr (pages * page_size)) c

    -- ncclIbRegMrDmaBufInternal for the bytes from `data` on: `*mhandle`.
    unfoldable pub reg_mr : ℕ → ℕ → Action Cache ℕ
    reg_mr start size c = elim (search (page_start start) (page_count start size) c.slots) [
      | hit i ↦ (
        ok (get_or c.slots i blank_mr).mr,
        record c { slots = set c.slots i (add_ref (get_or c.slots i blank_mr)) },
      )
      | miss i ↦ register_new i (page_start start) (page_count start size) c
    ]

-- The first slot of a region.
unfoldable pub find_mr : ℕ → List CachedMr → Option ℕ
find_mr m [] = none
find_mr m (s ∷ slots) =
    let rest = find_mr m slots in
    if m == s.mr then some 0 else elim rest [ none ↦ none | some i ↦ some (suc i) ]

-- memmove of the last slot onto slot `i`, with one slot less.
unfoldable pub remove_at : ℕ → List CachedMr → List CachedMr
remove_at i slots =
    let last = length slots - 1 in take last (set slots i (get_or slots last blank_mr))

-- `if (ib_stat_) ib_stat_->dec(UNET_IB_MR_COUNT)`.
abbrev stat_dec : IbStat → IbStat
stat_dec none = none
stat_dec (some (s, m)) = some (s, Stat.dec s ib_mr_count m)

-- ncclIbDeregMrInternal: `deregister` is the answer of the verbs library.
module _ (deregister : ℕ → NcclResult) where
  -- What follows the removal of a slot: NCCLCHECKGOTO, and the counter.
  unfoldable pub after_removal : NcclResult → Action Cache (Unit {0})
  after_removal r c = elim r [
    | success ↦ (ok tt, record c { stat = stat_dec c.stat })
    | in_progress ↦ (ok tt, record c { stat = stat_dec c.stat })
    | e ↦ (err e, c)
  ]

  unfoldable pub dereg_mr : ℕ → Action Cache (Unit {0})
  dereg_mr m c = elim (find_mr m c.slots) [
    | none ↦ (err internal_error, c)
    | some i ↦
        let s = get_or c.slots i blank_mr in
        if dec32 s.refs == 0
        then (let slots = remove_at i c.slots in
            after_removal (deregister m)
              (record c { slots = slots; capacity = if length slots == 0 then 0 else c.capacity }))
        else (ok tt, record c { slots = set c.slots i (record s { refs = dec32 s.refs }) })
  ]
