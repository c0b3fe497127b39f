-- ===== src/Ib/Send/Plan.antt =====
-- What the rounds of ncclIbMultiSend should post, in closed form: round `k` sends the k-th chunk of
-- every request. And how the request table moves from round to round.
use nccl_exts.Prelude.{
  ℕ, zero, suc, ◌+◌, ◌*◌, ◌%◌, ◌<◌, ◌≡◌, ◌≢◌, refl, sym, ◌∙◌, ap, false, ◌==◌, if◌then◌else◌, List,
  [], ◌∷◌, map, none, some, arith, get_or, length, All, All-zip, get_or-set_self, get_or-set_ne,
  length-set,
}
use nccl_exts.Prelude.Words.{add64}
use nccl_exts.Ib.Verbs.{Wr, Post, rdma_write}
use nccl_exts.Ib.Request.{blank}
use nccl_exts.Ib.Comm.{Qp, Base, qp_at, request_at, update_request}
use nccl_exts.Ib.Chunk.{chunk_size, piece_length}
use nccl_exts.Ib.Send.{SendComm, Cursor, LastWr, chain, advance, bump_offset}

-- The chunk of request `i` of the comm `b`.
abbrev pub chunk_of : ℕ → Base → Cursor → ℕ
chunk_of nq b cur = chunk_size (request_at b cur.req).send_size nq

-- The cursor of a request after `k` rounds.
abbrev pub moved : ℕ → ℕ → Base → Cursor → Cursor
moved k nq b cur = record cur {
  addr = add64 cur.addr (k * chunk_of nq b cur);
  remote_addr = add64 cur.remote_addr (k * chunk_of nq b cur);
}

-- The write of chunk `k` on `q`: the bytes from k * chunk on of both buffers, as many as are left
-- and fit a chunk.
abbrev pub planned_wr : ℕ → ℕ → Qp → Base → Cursor → Wr
planned_wr k nq q b cur =
    let r = request_at b cur.req in
    let start = k * chunk_of nq b cur in
    let len = piece_length r.send_size start (chunk_of nq b cur) in
    record {
      wr_id = 0;
      opcode = rdma_write;
      remote_addr = add64 cur.remote_addr start;
      rkey = get_or cur.rkeys q.rem_dev_idx 0;
      sge =
          if len == 0
          then none
          else some (record {
            addr = add64 cur.addr start;
            length = len;
            lkey = get_or r.send_lkeys q.dev_index 0;
          });
      imm_data = 0;
      signaled = false;
      inlined = false;
    }

-- Round `k` of a comm that starts at `b` uses the k-th queue pair from its qpIndex on.
abbrev pub planned_qp : ℕ → Base → Qp
planned_qp k b = qp_at b ((b.qp_index + k) % b.nqps)

abbrev pub planned_post : ℕ → ℕ → SendComm → LastWr → List Cursor → Post
planned_post k nq c l cs = record {
  qp = (planned_qp k c.base).qp;
  wrs =
      chain c l (planned_qp k c.base).dev_index
        (map (planned_wr k nq (planned_qp k c.base) c.base) cs);
}

-- Rounds `k` to k + left - 1 on top of what was posted before, newest first.
abbrev pub planned_posts : ℕ → ℕ → ℕ → SendComm → LastWr → List Cursor → List Post → List Post
planned_posts zero k nq c l cs before = before
planned_posts (suc left) k nq c l cs before =
    planned_posts left (suc k) nq c l cs (planned_post k nq c l cs ∷ before)

-- The requests of the list lie in a table of `n` entries, and no two are one.
abbrev pub IsApart : ℕ → List Cursor → Type 0
IsApart n [] = Unit
IsApart n (cur ∷ cs) = (cur.req < n) × All (λ (d : Cursor). cur.req ≢ d.req) cs × IsApart n cs

-- Request `cur` of a table that started as `b` is `k` chunks further on in `t`.
abbrev pub IsAt : ℕ → ℕ → Base → Base → Cursor → Type 0
IsAt k nq b t cur =
    request_at t cur.req ≡ record (request_at b cur.req) { send_offset = k * chunk_of nq b cur }

advance-other :
    (nq : ℕ) (cs : List Cursor) (t : Base) (j : ℕ)
    → All (λ (d : Cursor). j ≢ d.req) cs
    → request_at (advance nq cs t) j ≡ request_at t j
unfolding advance
advance-other nq [] t j h = refl
advance-other nq (cur ∷ cs) t j h =
    advance-other nq cs (update_request cur.req (bump_offset nq) t) j h.1
    ∙ get_or-set_ne t.reqs cur.req j (bump_offset nq (request_at t cur.req)) blank
        (λ e. h.0 (sym e))

advance-moved :
    (k nq : ℕ) (b : Base) (cs : List Cursor) (t : Base)
    → advance nq (map (moved k nq b) cs) t ≡ advance nq cs t
unfolding advance
advance-moved k nq b [] t = refl
advance-moved k nq b (cur ∷ cs) t =
    advance-moved k nq b cs (update_request cur.req (bump_offset nq) t)

-- Every request of the list moves on by one chunk.
advance_self :
    (nq n : ℕ) (cs : List Cursor) (t : Base)
    → length t.reqs ≡ n
    → IsApart n cs
    → All
        (λ (d : Cursor). request_at (advance nq cs t) d.req ≡ bump_offset nq (request_at t d.req))
        cs
unfolding advance
advance_self nq n [] t e h = tt
advance_self nq n (cur ∷ cs) t e h = (
  advance-other nq cs next cur.req h.1 ∙ get_or-set_self t.reqs cur.req _ blank (rw e h.0),
  All-zip (λ d ih ne. ih ∙ ap (bump_offset nq) (get_or-set_ne t.reqs cur.req d.req _ blank ne)) cs
      (advance_self nq n cs next (length-set t.reqs cur.req _ ∙ e) h.2) h.1,
)
  where
    next : Base
    next = update_request cur.req (bump_offset nq) t

pub advance-length :
    (nq : ℕ) (cs : List Cursor) (t : Base) → length (advance nq cs t).reqs ≡ length t.reqs
unfolding advance
advance-length nq [] t = refl
advance-length nq (cur ∷ cs) t =
    advance-length nq cs (update_request cur.req (bump_offset nq) t) ∙ length-set t.reqs cur.req _

-- A round takes every request from chunk `k` to chunk `k + 1`.
pub advance-IsAt :
    (k nq n : ℕ) (b t : Base) (cs : List Cursor)
    → length t.reqs ≡ n
    → IsApart n cs
    → All (IsAt k nq b t) cs
    → All (IsAt (suc k) nq b (advance nq (map (moved k nq b) cs) t)) cs
advance-IsAt k nq n b t cs e apart at =
    All-zip
      (λ cur moves old.
        ap (λ (t' : Base). request_at t' cur.req) (advance-moved k nq b cs t)
        ∙ moves
        ∙ ap (bump_offset nq) old
        ∙ ap (λ (o : ℕ). record (request_at b cur.req) { send_offset = o })
            (step k (chunk_of nq b cur)))
      cs (advance_self nq n cs t e apart) at
  where
    step : (k chunk : ℕ) → k * chunk + chunk ≡ suc k * chunk
    step k chunk = omega arith
