-- ===== src/Ib/Isend/Events.antt =====
-- The completions that a send request waits for are those that ncclIbMultiSend will cause.
use native.Mathlib.Nat.{mod-add-mod}
use nccl_exts.Prelude.{
  ℕ, zero, suc, ◌+◌, ◌%◌, ◌^◌, ◌≤◌, ◌<◌, ◌≡◌, ◌≢◌, refl, ◌∙◌, ap, List, [], ◌∷◌, arith, length,
  get_or, set, ◌==◌, if◌then◌else◌, Bool-cases, inl, inr, get_or-set_self, get_or-set_ne,
  length-set,
}
use nccl_exts.Ib.Verbs.{Mr}
use nccl_exts.Ib.Request.{Request, send, add_event}
use nccl_exts.Ib.Comm.{Base, Params, qps_used, qp_at}
use nccl_exts.Ib.Send.{SendComm}
use nccl_exts.Ib.Isend.{count_events, fill_send}

-- 1 for a queue pair of device `dev`.
abbrev on_dev : Base → ℕ → ℕ → ℕ
on_dev b dev i = if (qp_at b i).dev_index == dev then 1 else 0

-- How many of the rounds from `k` on, `left` of them, post on a queue pair of device `dev`: round `k`
-- posts on the k-th queue pair from qpIndex on.
abbrev pub posts_on : ℕ → ℕ → ℕ → Base → ℕ
posts_on zero k dev b = 0
posts_on (suc left) k dev b = on_dev b dev ((b.qp_index + k) % b.nqps) + posts_on left (suc k) dev b

posts_on-le : (left k dev : ℕ) (b : Base) → posts_on left k dev b ≤ left
posts_on-le zero k dev b = omega arith
posts_on-le (suc left) k dev b = ground (arith, posts_on-le left (suc k) dev b)

add_event-count :
    (q dev : ℕ) (r : Request)
    → dev < length r.events
    → get_or r.events dev 0 + 1 < 2 ^ 32
    → get_or (add_event q r).events dev 0 ≡ get_or r.events dev 0 + (if q == dev then 1 else 0)
unfolding add_event
add_event-count q dev r l few = elim (Bool-cases (q == dev)) [
  | inl e ↦
      let same : q ≡ dev = ground arith in
      rw (e, same) (get_or-set_self r.events dev _ 0 l ∙ omega arith)
  | inr e ↦
      let apart : q ≢ dev = ground arith in
      rw e (get_or-set_ne r.events q dev _ 0 apart ∙ omega arith)
]

length-add_event : (q : ℕ) (r : Request) → length (add_event q r).events ≡ length r.events
unfolding add_event
length-add_event q r = length-set r.events q _

next_index :
    (start count k q : ℕ) → q ≡ (start + k) % count → (q + 1) % count ≡ (start + suc k) % count
next_index start count k q e =
    let sum : start + k + 1 ≡ start + suc k = omega arith in
    rw (e, mod-add-mod (start + k) count 1, sum) refl

-- The loop counts, for each device, the planned rounds on its queue pairs.
count_events-count :
    (left k q dev : ℕ) (b : Base) (mrs : List Mr) (r : Request)
    → q ≡ (b.qp_index + k) % b.nqps
    → dev < length r.events
    → get_or r.events dev 0 + left < 2 ^ 32
    → get_or (count_events left q b mrs r).events dev 0
      ≡ get_or r.events dev 0 + posts_on left k dev b
unfolding count_events
count_events-count zero k q dev b mrs r e l few = omega arith
count_events-count (suc left) k q dev b mrs r e l few =
    let added = add_event-count (qp_at b q).dev_index dev r l (omega arith) in
    let same = ap (on_dev b dev) e in
    let at_most : on_dev b dev q ≤ 1 = ground arith in
    let r' = add_event (qp_at b q).dev_index r in
    let inside = length-add_event (qp_at b q).dev_index r in
    let rest =
      count_events-count left (suc k) ((q + 1) % b.nqps) dev b mrs
        (record r' {
          send_lkeys =
              set r'.send_lkeys (qp_at b q).dev_index
                (get_or mrs (qp_at b q).dev_index (record { lkey = 0; rkey = 0 })).lkey;
        })
        (next_index b.qp_index b.nqps k q e) (omega (arith, l, inside))
        (omega (arith, added, few, at_most)) in
    omega (arith, rest, added, same)

-- A request that ncclIbIsend fills in, with no events counted yet, on a comm whose qpIndex is in
-- range and which uses fewer than 2 ^ 32 queue pairs, expects of each of its two devices as many
-- completions as ncclIbMultiSend will post chains on the queue pairs of that device.
pub fill_send-events :
    (p : Params) (c : SendComm) (nreqs size addr dev : ℕ) (mrs : List Mr) (r : Request)
    → r.events ≡ 0 ∷ 0 ∷ []
    → dev < 2
    → c.qp_index < c.nqps
    → qps_used p c.base < 2 ^ 32
    → get_or (fill_send p c nreqs size addr mrs r).events dev 0
      ≡ posts_on (qps_used p c.base) 0 dev c.base
unfolding fill_send
fill_send-events p c nreqs size addr dev mrs r none two inside few =
    let start : c.qp_index ≡ (c.qp_index + 0) % c.nqps = grind arith in
    let clear : get_or r.events dev 0 ≡ 0 = rw none (zero_at dev two) in
    let full : length r.events ≡ 2 = ap length none in
    omega (
      arith,
      clear,
      count_events-count (qps_used p c.base) 0 c.qp_index dev c.base mrs
          (record r {
            type = send;
            nreqs = nreqs;
            send_size = size;
            send_data = addr;
            send_offset = 0;
            peer_rank = c.peer_rank;
          })
          start (omega (arith, full, two)) (omega (arith, clear, few)),
    )
  where
    blank_events : List ℕ
    blank_events = 0 ∷ 0 ∷ []

    zero_at : (i : ℕ) → i < 2 → get_or blank_events i 0 ≡ 0
    zero_at zero h = refl
    zero_at (suc zero) h = refl
    zero_at (suc (suc i)) h = absurd (omega arith)
