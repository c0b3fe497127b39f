-- ===== src/Ib/Send/Refine.antt =====
-- The loop of ncclIbMultiSend posts what the plan says.
use native.Mathlib.Nat.{mod-add-mod}
use nccl_exts.Prelude.{
  ℕ, zero, suc, ◌+◌, ◌*◌, ◌%◌, ◌≡◌, refl, ◌∙◌, ap, List, [], ◌∷◌, map, arith, length, All, All-map,
  map-map_congr, get_or, ap₂,
}
use nccl_exts.Prelude.Nccl.{NcclResult, Result, ok, success, ◌>>=◌}
use nccl_exts.Prelude.Words.{add64}
use nccl_exts.Ib.Verbs.{Wr, Post}
use nccl_exts.Ib.Comm.{Qp, blank_qp, Base, qp_at, request_at, update_request}
use nccl_exts.Ib.Chunk.Cover.{total_length}
use nccl_exts.Ib.Send.{
  SendComm, Cursor, LastWr, data_wr, chain, advance, advance_cursor, bump_offset, total_bytes,
  send_round, send_rounds, next_qp, log_post, round_post, extra_wr,
}
use nccl_exts.Ib.Send.Plan.{
  chunk_of, moved, planned_wr, planned_qp, planned_post, planned_posts, IsApart, IsAt, advance-IsAt,
  advance-length,
}

-- The bytes that `left` rounds from round `k` on send.
abbrev pub planned_bytes : ℕ → ℕ → ℕ → Base → List Cursor → ℕ
planned_bytes left k nq b [] = 0
planned_bytes left k nq b (cur ∷ cs) =
    total_length (request_at b cur.req).send_size (chunk_of nq b cur) left (k * chunk_of nq b cur)
    + planned_bytes left k nq b cs

planned_bytes-zero : (k nq : ℕ) (b : Base) (cs : List Cursor) → planned_bytes zero k nq b cs ≡ 0
planned_bytes-zero k nq b [] = refl
planned_bytes-zero k nq b (cur ∷ cs) = omega (arith, planned_bytes-zero k nq b cs)

next_chunk : (k chunk : ℕ) → k * chunk + chunk ≡ suc k * chunk
next_chunk k chunk = omega arith

add64_next : (a k chunk : ℕ) → add64 (add64 a (k * chunk)) chunk ≡ add64 a (suc k * chunk)
add64_next a k chunk = omega arith

-- The parts of a comm's base that `advance` leaves alone.
record IsSameComm (t u : Base) : Type 0 where
  qps : u.qps ≡ t.qps
  nqps : u.nqps ≡ t.nqps
  qp_index : u.qp_index ≡ t.qp_index
  posted : u.posted ≡ t.posted

advance-IsSameComm : (nq : ℕ) (cs : List Cursor) (t : Base) → IsSameComm t (advance nq cs t)
unfolding advance
advance-IsSameComm nq [] t = record { qps = refl; nqps = refl; qp_index = refl; posted = refl }
advance-IsSameComm nq (cur ∷ cs) t =
    let rest = advance-IsSameComm nq cs (update_request cur.req (bump_offset nq) t) in
    record { qps = rest.qps; nqps = rest.nqps; qp_index = rest.qp_index; posted = rest.posted }

next_index :
    (q m start count k : ℕ)
    → q ≡ (start + k) % count
    → m ≡ count
    → (q + 1) % m ≡ (start + suc k) % count
next_index q m start count k e f =
    let sum : start + k + 1 ≡ start + suc k = omega arith in
    rw (e, f, mod-add-mod (start + k) count 1, sum)

send_rounds-step :
    (post_send : List Post → Post → NcclResult) (nq left : ℕ) (l : LastWr) (cs cs' : List Cursor)
    (total bytes : ℕ) (s s' : SendComm)
    → send_round post_send nq l cs s ≡ (ok (cs', bytes), s')
    → send_rounds post_send (suc left) nq l cs total s
      ≡ send_rounds post_send left nq l cs' (total + bytes) s'
unfolding send_rounds
send_rounds-step post_send nq left l cs cs' total bytes s s' e =
    ap
      (λ (out : Result (List Cursor × ℕ) × SendComm).
        ((λ (u : SendComm). out) >>= λ (next, n). send_rounds post_send left nq l next (total + n))
          s)
      e

module _ (nq n : ℕ) (c : SendComm) where
  -- The comm's base `t` after `k` rounds from `c`.
  pub record IsRound (k : ℕ) (cs : List Cursor) (t : Base) : Type 0 where
    pub same_qps : t.qps ≡ c.qps
    pub same_nqps : t.nqps ≡ c.nqps
    pub at_qp : t.qp_index ≡ (c.qp_index + k) % c.nqps
    pub table : length t.reqs ≡ n
    pub at_chunk : All (IsAt k nq c.base t) cs

  data_wr-planned :
      (k : ℕ) (q : Qp) (t : Base) (cur : Cursor)
      → IsAt k nq c.base t cur
      → data_wr nq q t (moved k nq c.base cur) ≡ planned_wr k nq q c.base cur
  unfolding data_wr
  data_wr-planned k q t cur e = rw e

  advance_cursor-moved :
      (k : ℕ) (t : Base) (cur : Cursor)
      → IsAt k nq c.base t cur
      → advance_cursor nq t (moved k nq c.base cur) ≡ moved (suc k) nq c.base cur
  unfolding advance_cursor
  advance_cursor-moved k t cur e = rw e λ i. record cur {
    addr = add64_next cur.addr k (chunk_of nq c.base cur) i;
    remote_addr = add64_next cur.remote_addr k (chunk_of nq c.base cur) i;
  }

  total_bytes-planned :
      (k : ℕ) (t : Base) (cs : List Cursor)
      → All (IsAt k nq c.base t) cs
      → (left : ℕ)
      → total_bytes nq t (map (moved k nq c.base) cs) + planned_bytes left (suc k) nq c.base cs
        ≡ planned_bytes (suc left) k nq c.base cs
  total_bytes-planned k t [] h left = refl
  total_bytes-planned k t (cur ∷ cs) h left =
      rw (h.0, next_chunk k (chunk_of nq c.base cur))
        (omega (arith, total_bytes-planned k t cs h.1 left))

  module _ (l : LastWr) (cs : List Cursor) (apart : IsApart n cs) where
    -- The base after one more round.
    abbrev round_base : ℕ → Base → Base
    round_base k t =
        next_qp (advance nq (map (moved k nq c.base) cs) (log_post (planned_post k nq c l cs) t))

    round_base-IsRound : (k : ℕ) (t : Base) → IsRound k cs t → IsRound (suc k) cs (round_base k t)
    round_base-IsRound k t r =
        let logged : Base = log_post (planned_post k nq c l cs) t in
        let same = advance-IsSameComm nq (map (moved k nq c.base) cs) logged in
        record {
          same_qps = same.qps ∙ r.same_qps;
          same_nqps = same.nqps ∙ r.same_nqps;
          at_qp =
              next_index _ _ c.qp_index c.nqps k (same.qp_index ∙ r.at_qp)
                (same.nqps ∙ r.same_nqps);
          table = advance-length nq (map (moved k nq c.base) cs) logged ∙ r.table;
          at_chunk = advance-IsAt k nq n c.base logged cs r.table apart r.at_chunk;
        }

    round_post-planned :
        (k : ℕ) (t : Base)
        → IsRound k cs t
        → round_post nq l (map (moved k nq c.base) cs) (record c { base = t })
          ≡ planned_post k nq c l cs
    unfolding round_post chain extra_wr
    round_post-planned k t r = ap on_qp same_qp ∙ ap with_writes bodies
      where
        on_qp : Qp → Post
        on_qp q = record {
          qp = q.qp;
          wrs =
              chain (record c { base = t }) l q.dev_index
                (map (data_wr nq q t) (map (moved k nq c.base) cs));
        }

        with_writes : List Wr → Post
        with_writes ws = record {
          qp = (planned_qp k c.base).qp;
          wrs = chain c l (planned_qp k c.base).dev_index ws;
        }

        same_qp : qp_at t t.qp_index ≡ planned_qp k c.base
        same_qp = ap₂ (λ (qps : List Qp) (i : ℕ). get_or qps i blank_qp) r.same_qps r.at_qp

        bodies :
            map (data_wr nq (planned_qp k c.base) t) (map (moved k nq c.base) cs)
            ≡ map (planned_wr k nq (planned_qp k c.base) c.base) cs
        bodies =
            map-map_congr _ _ _ cs
              (All-map (λ cur. data_wr-planned k (planned_qp k c.base) t cur) cs r.at_chunk)

    module _ (post_send : List Post → Post → NcclResult)
        (accepts : (before : List Post) (post : Post) → post_send before post ≡ success) where
      -- A round that ibv_post_send accepts posts the planned chunk and moves on.
      send_round-planned :
          (k : ℕ) (t : Base)
          → IsRound k cs t
          → send_round post_send nq l (map (moved k nq c.base) cs) (record c { base = t }) ≡ (
            ok (map (moved (suc k) nq c.base) cs, total_bytes nq t (map (moved k nq c.base) cs)),
            record c { base = round_base k t },
          )
      unfolding send_round
      send_round-planned k t r =
          rw (round_post-planned k t r, accepts t.posted (planned_post k nq c l cs))
            (ap
              (λ (next : List Cursor). (
                ok (next, total_bytes nq t (map (moved k nq c.base) cs)),
                record c { base = round_base k t },
              ))
              (map-map_congr _ _ _ cs
                (All-map (λ cur. advance_cursor-moved k t cur) cs r.at_chunk)))

      -- The loop posts the planned chunks, one round after the other, and counts their bytes.
      pub send_rounds-planned :
          (left k total : ℕ) (t : Base)
          → IsRound k cs t
          → (u : Base) × (send_rounds post_send left nq l
                (map (moved k nq c.base) cs)
                total
                (record c { base = t })
              ≡ (ok (total + planned_bytes left k nq c.base cs), record c { base = u }))
            × IsRound (k + left) cs u
            × (u.posted ≡ planned_posts left k nq c l cs t.posted)
      unfolding send_rounds
      send_rounds-planned zero k total t r =
          let e : total + planned_bytes zero k nq c.base cs ≡ total =
            omega (arith, planned_bytes-zero k nq c.base cs) in
          let same : k + zero ≡ k = omega arith in (t, rw e, rw same r, refl)
      send_rounds-planned (suc left) k total t r =
          let tb = total_bytes nq t (map (moved k nq c.base) cs) in
          let rest =
            send_rounds-planned left (suc k) (total + tb) (round_base k t)
              (round_base-IsRound k t r) in
          let bytes : total + tb + planned_bytes left (suc k) nq c.base cs
              ≡ total + planned_bytes (suc left) k nq c.base cs =
            omega (arith, total_bytes-planned k t cs r.at_chunk left) in
          let steps : k + suc left ≡ suc k + left = omega arith in
          let posts : planned_posts left (suc k) nq c l cs (round_base k t).posted
              ≡ planned_posts (suc left) k nq c l cs t.posted =
            ap (planned_posts left (suc k) nq c l cs)
              (advance-IsSameComm nq (map (moved k nq c.base) cs)
                (log_post (planned_post k nq c l cs) t)).posted in
          (
            rest.0,
            send_rounds-step post_send nq left l (map (moved k nq c.base) cs) _ total tb
                  (record c { base = t }) _ (send_round-planned k t r)
                ∙ rest.1
                ∙ ap (λ (n : ℕ). (ok n, record c { base = rest.0 })) bytes,
            rw steps rest.2,
            rest.3 ∙ posts,
          )
