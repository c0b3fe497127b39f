-- ===== src/Ib/Completion/Accounting.antt =====
-- A send completion of src/unet/unet_ib.cc is counted once for each request that the work request
-- stood for.
use mathlib.Core.Path.{subst}
use nccl_exts.Prelude.{
  ℕ, zero, suc, ltb, ltb→lt, ◌^◌, &&-both, ◌+◌, ◌≤◌, ◌<◌, ◌≡◌, ◌≢◌, refl, sym, ◌∙◌, ap, true, List,
  [], ◌∷◌, arith, length, get_or, All, All-zip, All-map, get_or-set_self, get_or-set_ne, length-set,
}
use nccl_exts.Prelude.Nccl.{ok}
use nccl_exts.Prelude.Words.{is_pos32, dec32}
use nccl_exts.Ib.Request.{Request, blank, id_at}
use nccl_exts.Ib.Comm.{Base, request_at, update_request}
use nccl_exts.Ib.Send.{pack_ids}
use nccl_exts.Ib.Send.WrId.{id_at-pack_ids}
use nccl_exts.Ib.Completion.{Polled, drop_event, edit_base, complete_sends}

-- One event less for every request of the list.
abbrev pub drop_all : ℕ → List ℕ → Base → Base
drop_all dev [] b = b
drop_all dev (i ∷ ids) b = drop_all dev ids (update_request i (drop_event dev) b)

-- The requests lie in a table of `n` entries, and no two are one.
abbrev pub AreApart : ℕ → List ℕ → Type 0
AreApart n [] = Unit
AreApart n (i ∷ ids) = (i < n) × All (λ (j : ℕ). i ≢ j) ids × AreApart n ids

-- Every request of the list waits for a completion of the device.
abbrev pub AreWaiting : ℕ → Base → List ℕ → Type 0
AreWaiting dev b = All (λ (i : ℕ). is_pos32 (get_or (request_at b i).events dev 0) ≡ true)

-- One event of the device less, and the rest as it was.
pub record TookOne (dev : ℕ) (r r' : Request) : Type 0 where
  pub one_less : suc (get_or r'.events dev 0) ≡ get_or r.events dev 0
  pub others : (d : ℕ) → dev ≢ d → get_or r'.events d 0 ≡ get_or r.events d 0
  pub rest : r' ≡ record r { events = r'.events }

pos_inside : (xs : List ℕ) (i : ℕ) → 0 < get_or xs i 0 → i < length xs
pos_inside [] i h = absurd (omega arith)
pos_inside (x ∷ xs) zero h = omega arith
pos_inside (x ∷ xs) (suc i) h = omega (arith, pos_inside xs i h)

drop_event-TookOne :
    (dev : ℕ) (r : Request)
    → is_pos32 (get_or r.events dev 0) ≡ true
    → TookOne dev r (drop_event dev r)
unfolding drop_event
drop_event-TookOne dev r w =
    let (low, high) =
      &&-both (ltb 0 (get_or r.events dev 0)) (ltb (get_or r.events dev 0) (2 ^ 31)) w in
    let positive = ltb→lt 0 (get_or r.events dev 0) low in
    let small = ltb→lt (get_or r.events dev 0) (2 ^ 31) high in
    let new =
      get_or-set_self r.events dev (dec32 (get_or r.events dev 0)) 0
        (pos_inside r.events dev positive) in
    record {
      one_less = omega (arith, new, positive, small);
      others = λ d ne. get_or-set_ne r.events dev d _ 0 ne;
      rest = refl;
    }

drop_all-other :
    (dev j : ℕ) (ids : List ℕ) (b : Base)
    → All (λ (i : ℕ). i ≢ j) ids
    → request_at (drop_all dev ids b) j ≡ request_at b j
drop_all-other dev j [] b h = refl
drop_all-other dev j (i ∷ ids) b h =
    drop_all-other dev j ids (update_request i (drop_event dev) b) h.1
    ∙ get_or-set_ne b.reqs i j _ blank h.0

drop_all_self :
    (dev n : ℕ) (ids : List ℕ) (b : Base)
    → length b.reqs ≡ n
    → AreApart n ids
    → All (λ (i : ℕ). request_at (drop_all dev ids b) i ≡ drop_event dev (request_at b i)) ids
drop_all_self dev n [] b e h = tt
drop_all_self dev n (i ∷ ids) b e h =
    let next : Base = update_request i (drop_event dev) b in
    (
      drop_all-other dev i ids next (All-map (λ j ne same. ne (sym same)) ids h.1)
          ∙ get_or-set_self b.reqs i _ blank (rw e h.0),
      All-zip (λ j ih ne. ih ∙ ap (drop_event dev) (get_or-set_ne b.reqs i j _ blank ne)) ids
          (drop_all_self dev n ids next (length-set b.reqs i _ ∙ e) h.2) h.1,
    )

AreWaiting-next :
    (dev i : ℕ) (ids : List ℕ) (b : Base)
    → All (λ (j : ℕ). i ≢ j) ids
    → AreWaiting dev b ids
    → AreWaiting dev (update_request i (drop_event dev) b) ids
AreWaiting-next dev i ids b apart waiting =
    All-zip
      (λ j ne w.
        ap (λ (r : Request). is_pos32 (get_or r.events dev 0)) (get_or-set_ne b.reqs i j _ blank ne)
        ∙ w)
      ids apart waiting

AreApart-small : (n : ℕ) (ids : List ℕ) → AreApart n ids → All (λ (i : ℕ). i < n) ids
AreApart-small n [] h = tt
AreApart-small n (i ∷ ids) h = (h.0, AreApart-small n ids h.2)

module _ {Q : Type 0} where
  complete_sends-drop_all :
      (dev j wr_id n : ℕ) (ids : List ℕ) (s : Polled Q)
      → ((k : ℕ) → k < length ids → id_at wr_id (j + k) ≡ get_or ids k 0)
      → AreApart n ids
      → AreWaiting dev s.base ids
      → complete_sends (length ids) j dev wr_id s ≡ (ok tt, edit_base (drop_all dev ids) s)
  unfolding complete_sends
  complete_sends-drop_all dev j wr_id n [] s names apart waiting = refl
  complete_sends-drop_all dev j wr_id n (i ∷ ids) s names apart waiting =
      let here : j + 0 ≡ j = omega arith in
      let first : id_at wr_id j ≡ i = ap (id_at wr_id) (sym here) ∙ names 0 (omega arith) in
      rw (first, waiting.0)
        (complete_sends-drop_all dev (suc j) wr_id n ids
          (edit_base (update_request i (drop_event dev)) s)
          (λ k l.
            let there : j + suc k ≡ suc j + k = omega arith in
            ap (id_at wr_id) (sym there) ∙ names (suc k) (omega arith))
          apart.2 (AreWaiting-next dev i ids s.base apart.1 waiting.1))

  -- The completion, on a device, of the signalled work request that ncclIbMultiSend posts for at
  -- most 8 requests succeeds. When they lie apart in a table of 256 and each waits for the device,
  -- each of them waits for one completion of the device less, with what it waits for of other
  -- devices and all else of it as before, and every other request is as it was.
  pub complete_sends_lem :
      (dev : ℕ) (ids : List ℕ) (s : Polled Q)
      → length ids ≤ 8
      → length s.base.reqs ≡ 256
      → AreApart 256 ids
      → AreWaiting dev s.base ids
      → let out = complete_sends (length ids) 0 dev (pack_ids 0 ids) s in
        (out.0 ≡ ok tt)
        × All (λ (i : ℕ). TookOne dev (request_at s.base i) (request_at out.1.base i)) ids
        × ((j : ℕ) → All (λ (i : ℕ). i ≢ j) ids → request_at out.1.base j ≡ request_at s.base j)
  complete_sends_lem dev ids s few full apart waiting =
      let run =
        complete_sends-drop_all dev 0 (pack_ids 0 ids) 256 ids s
          (λ k l.
            let same : 0 + k ≡ k = omega arith in
            ap (id_at (pack_ids 0 ids)) same
            ∙ id_at-pack_ids ids k few (AreApart-small 256 ids apart))
          apart waiting in
      rw run (
        refl,
        All-zip
            (λ i e w.
              subst (TookOne dev (request_at s.base i)) (sym e)
                (drop_event-TookOne dev (request_at s.base i) w))
            ids (drop_all_self dev 256 ids s.base full apart) waiting,
        λ j. drop_all-other dev j ids s.base,
      )
