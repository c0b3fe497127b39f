-- ===== src/Ib/Rendezvous.antt =====
-- The rows that ncclIbPostFifo writes and ncclIbIsend waits for, of src/unet/unet_ib.cc.
use mathlib.Core.Path.{subst}
use nccl_exts.Prelude.{
  ℕ, zero, suc, ◌+◌, ◌-◌, ◌%◌, ◌^◌, ◌≤◌, ◌<◌, ◌≡◌, ◌≢◌, refl, ◌∙◌, true, false, List, [], ◌∷◌, none,
  arith, length, get_or, Bool-cases, &&-both, Option, some, inl, inr, ◌&&◌, ==_iff, le_cases, sym,
  ap, length-set, get_or-set_self, get_or-set_ne, ◌==◌,
}
use nccl_exts.Prelude.Int.{ℤ}
use nccl_exts.Prelude.Nccl.{NcclResult, Result, ok, pure, Action}
use nccl_exts.Prelude.Words.{add64}
use nccl_exts.Ib.Verbs.{Post, Mr}
use nccl_exts.Ib.Request.{max_requests}
use nccl_exts.Ib.Comm.{SendFifo, blank_fifo, Params, ib_fifo_recv_count, stat_add}
use nccl_exts.Ib.Send.{SendComm, fifo_row, reqs_row}
use nccl_exts.Ib.Isend.{returns, is_none, all_arrived, match_tag, isend, send_in_row, send_matched}
use nccl_exts.Ib.Recv.{RecvComm, Buffer, store_rkeys, fill_elems, prepare_fifo}

-- The element that announces the buffer.
pub record IsElem (n idx : ℕ) (b : Buffer) (e : SendFifo) : Type 0 where
  pub addr : e.addr ≡ b.addr
  pub size : e.size ≡ b.size
  pub nreqs : e.nreqs ≡ n
  pub tag : e.tag ≡ b.tag % 2 ^ 32
  pub idx_is : e.idx ≡ idx

abbrev no_buffer : Buffer
no_buffer = record { addr = 0; size = ℤ.pos 0; tag = 0; mrs = [] }

-- Element i of the row announces buffer i of the `n`, as message `idx`.
abbrev pub Announces : ℕ → List Buffer → List SendFifo → Type 0
Announces idx bufs row =
    (i : ℕ)
    → i < length bufs
    → IsElem (length bufs) idx (get_or bufs i no_buffer) (get_or row i blank_fifo)

module _ (ndevs n idx : ℕ) where
  fill_elems-before :
      (i : ℕ) (bufs : List Buffer) (row : List SendFifo) (j : ℕ)
      → j < i
      → get_or (fill_elems ndevs n idx i bufs row) j blank_fifo ≡ get_or row j blank_fifo
  unfolding fill_elems
  fill_elems-before i [] row j h = refl
  fill_elems-before i (b ∷ bufs) row j h =
      fill_elems-before (suc i) bufs _ j (omega arith)
      ∙ get_or-set_ne row i j _ blank_fifo (λ e. absurd (omega (arith, e)))

  fill_elems-IsElem :
      (i : ℕ) (bufs : List Buffer) (row : List SendFifo) (k : ℕ)
      → k < length bufs
      → i + length bufs ≤ length row
      → IsElem n idx
          (get_or bufs k no_buffer)
          (get_or (fill_elems ndevs n idx i bufs row) (i + k) blank_fifo)
  unfolding fill_elems
  fill_elems-IsElem i [] row k h l = absurd (omega arith)
  fill_elems-IsElem i (b ∷ bufs) row zero h l =
      let here : i + 0 ≡ i = omega arith in
      let kept =
        fill_elems-before (suc i) bufs _ i (omega arith)
        ∙ get_or-set_self row i (elem i b row) blank_fifo (omega arith) in
      rw (here, kept) (record { addr = refl; size = refl; nreqs = refl; tag = refl; idx_is = refl })
    where
      elem : ℕ → Buffer → List SendFifo → SendFifo
      elem j x r = record {
        addr = x.addr;
        size = x.size;
        rkeys = store_rkeys ndevs 0 x.mrs (get_or r j blank_fifo).rkeys;
        nreqs = n;
        tag = x.tag % 2 ^ 32;
        idx = idx;
      }
  fill_elems-IsElem i (b ∷ bufs) row (suc k) h l =
      let there : i + suc k ≡ suc i + k = omega arith in
      rw there
        (fill_elems-IsElem (suc i) bufs _ k (omega arith) (omega (arith, length-set row i _)))

-- ncclIbPostFifo announces each of its buffers, in order, in the row of the next message, with the
-- number of buffers and of the message, when the row is in the ring and has room.
pub prepare_fifo-Announces :
    (req : ℕ) (bufs : List Buffer) (c : RecvComm)
    → c.fifo_tail % max_requests < length c.rem_fifo
    → length bufs ≤ length (get_or c.rem_fifo (c.fifo_tail % max_requests) [])
    → Announces (add64 c.fifo_tail 1) bufs (
        get_or
          (prepare_fifo req (c.fifo_tail % max_requests) bufs c).rem_fifo
          (c.fifo_tail % max_requests)
          [])
unfolding prepare_fifo
prepare_fifo-Announces req bufs c inside fits i h =
    let slot = c.fifo_tail % max_requests in
    let zero_add : 0 + i ≡ i = omega arith in
    let found =
      fill_elems-IsElem c.ndevs (length bufs) (add64 c.fifo_tail 1) 0 bufs
        (get_or c.rem_fifo slot []) i h (omega arith) in
    let elem = rw zero_add at found in rw (get_or-set_self c.rem_fifo slot _ [] inside) elem

all_arrived-true :
    (left r idx : ℕ) (row : List SendFifo)
    → ((i : ℕ) → i < r + left → (get_or row i blank_fifo).idx ≡ idx)
    → all_arrived left r idx row ≡ true
unfolding all_arrived
all_arrived-true zero r idx row h = refl
all_arrived-true (suc left) r idx row h =
    ground
      (arith, h r (omega arith), all_arrived-true left (suc r) idx row (λ i l. h i (omega arith)))

-- Element r of the row is for a buffer of the tag that no request of the row has taken yet, and r is the
-- first of those.
abbrev pub IsOpen : List Buffer → List (Option ℕ) → ℕ → ℕ → Type 0
IsOpen bufs reqs tag r =
    (get_or reqs r none ≡ none) × ((get_or bufs r no_buffer).tag % 2 ^ 32 ≡ tag % 2 ^ 32)

-- What the search from element r on comes to.
abbrev pub Searched : List Buffer → List (Option ℕ) → ℕ → ℕ → Option ℕ → Type 0
Searched bufs reqs tag r none = (i : ℕ) → r ≤ i → i < length bufs → IsOpen bufs reqs tag i → ⊥
Searched bufs reqs tag r (some k) =
    (r ≤ k)
    × ((k < length bufs)
        × (IsOpen bufs reqs tag k × ((i : ℕ) → r ≤ i → i < k → IsOpen bufs reqs tag i → ⊥)))

is_none-none : (o : Option ℕ) → is_none o ≡ true → o ≡ none
is_none-none none h = refl
is_none-none (some i) h = absurd (ground (arith, h))

-- Element r was looked at.
Searched-next :
    (bufs : List Buffer) (reqs : List (Option ℕ)) (tag r : ℕ) (o : Option ℕ)
    → (IsOpen bufs reqs tag r → ⊥)
    → Searched bufs reqs tag (suc r) o
    → Searched bufs reqs tag r o
Searched-next bufs reqs tag r none closed h = λ i l m op. elim (le_cases r i l) [
  | inl same ↦ closed (subst (IsOpen bufs reqs tag) (sym same) op)
  | inr above ↦ h i above m op
]
Searched-next bufs reqs tag r (some k) closed (l, (m, (op, before))) = (
  omega arith,
  (
    m,
    (
      op,
      λ i a b op'. elim (le_cases r i a) [
        | inl same ↦ closed (subst (IsOpen bufs reqs tag) (sym same) op')
        | inr above ↦ before i above b op'
      ],
    ),
  ),
)

match_tag-Searched :
    (idx tag : ℕ) (bufs : List Buffer) (reqs : List (Option ℕ)) (row : List SendFifo)
    → Announces idx bufs row
    → (left r : ℕ) → r + left ≡ length bufs
    → Searched bufs reqs tag r (match_tag left r (tag % 2 ^ 32) reqs row)
unfolding match_tag
match_tag-Searched idx tag bufs reqs row told zero r e = λ i l m o. absurd (omega arith)
match_tag-Searched idx tag bufs reqs row told (suc left) r e =
    let known = (told r (omega arith)).tag in
    let here = is_none (get_or reqs r none) in
    let same = (get_or row r blank_fifo).tag == tag % 2 ^ 32 in
    elim (Bool-cases (here && same)) [
      | inl t ↦
          let (free, tagged) = &&-both here same t in
          let tags = (==_iff (get_or row r blank_fifo).tag (tag % 2 ^ 32)).0 tagged in
          rw t (
            omega arith,
            (
              omega arith,
              ((is_none-none _ free, sym known ∙ tags), λ i l m op. absurd (omega arith)),
            ),
          )
      | inr f ↦ rw f (
          Searched-next bufs reqs tag r _
            (λ op.
              let tags = (==_iff (get_or row r blank_fifo).tag (tag % 2 ^ 32)).1 (known ∙ op.1) in
              let free : is_none (get_or reqs r none) ≡ true = ap is_none op.0 in
              absurd (ground (arith, f, free, tags)))
            (match_tag-Searched idx tag bufs reqs row told left (suc r) (omega arith)))
    ]

-- The statistics that a row has arrived.
abbrev pub count_row : SendComm → SendComm
count_row c = record c { stat = stat_add ib_fifo_recv_count 1 c.stat }

-- What ncclIbIsend does on a row of `n` elements for the element that the search has found: without
-- one it only counts the row and has no request to answer.
abbrev pub take_found :
    (List Post → Post → NcclResult)
    → Params
    → ℕ
    → ℕ
    → ℕ
    → List Mr
    → SendComm
    → Option ℕ
    → Result (Option ℕ) × SendComm
take_found post_send p n addr size mrs c none = (ok none, count_row c)
take_found post_send p n addr size mrs c (some k) =
    send_matched post_send p (c.fifo_head % max_requests) n k addr size mrs (count_row c)

module _ (post_send : List Post → Post → NcclResult) (p : Params) (addr size tag : ℕ)
    (mrs : List Mr) (c : SendComm) (ready : c.ready ≢ 0) (bufs : List Buffer)
    (some_bufs : 0 < length bufs) where
  abbrev search_row : Option ℕ
  search_row =
      match_tag (length bufs) 0 (tag % 2 ^ 32) (reqs_row c (c.fifo_head % max_requests))
        (fifo_row c (c.fifo_head % max_requests))

  send_in_row-take_found :
      send_in_row post_send p (c.fifo_head % max_requests) (length bufs) addr size tag mrs c
      ≡ take_found post_send p (length bufs) addr size mrs c search_row
  unfolding send_in_row
  send_in_row-take_found = go search_row
    where
      rest : Option ℕ → Action SendComm (Option ℕ)
      rest o = elim o [
        | none ↦ pure none
        | some r ↦
            send_matched post_send p (c.fifo_head % max_requests) (length bufs) r addr size mrs
      ]

      go :
          (o : Option ℕ)
          → rest o (count_row c) ≡ take_found post_send p (length bufs) addr size mrs c o
      go none = refl
      go (some k) = refl

  -- Once the row of the sender's next message has arrived, with an announcement of each of at
  -- least one buffer, ncclIbIsend on a ready comm does not spin. It counts the row and goes on
  -- with the first element that is announced for the tag and that no request has taken yet;
  -- without one it has no request to answer and changes nothing else.
  pub isend-arrived :
      Announces (add64 c.fifo_head 1) bufs (fifo_row c (c.fifo_head % max_requests))
      → (found : Option ℕ) × (Searched bufs (reqs_row c (c.fifo_head % max_requests)) tag 0 found
          × (isend post_send p addr size tag mrs c
              ≡ returns (take_found post_send p (length bufs) addr size mrs c found)))
  unfolding isend
  isend-arrived told =
      let slot = c.fifo_head % max_requests in
      let idx = add64 c.fifo_head 1 in
      let first = told 0 some_bufs in
      let up : (c.ready == 0) ≡ false = ground arith in
      let due : ((get_or (fifo_row c slot) 0 blank_fifo).idx == idx) ≡ true =
        ground (arith, first.idx_is) in
      let rest : all_arrived (length bufs - 1) 1 idx (fifo_row c slot) ≡ true =
        all_arrived-true (length bufs - 1) 1 idx (fifo_row c slot)
          (λ i l. (told i (omega (arith, some_bufs))).idx_is) in
      let reqs = reqs_row c slot in
      let row = fifo_row c slot in
      (
        search_row,
        (
          match_tag-Searched idx tag bufs reqs row told (length bufs) 0 (omega arith),
          rw (isend, up, due, first.nreqs, rest) (ap returns send_in_row-take_found),
        ),
      )
