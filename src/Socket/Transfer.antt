-- ===== src/Socket/Transfer.antt =====
-- socketProgressOpt of src/unet/socket.cc ends, and its offset counts the bytes of the connection.
use nccl_exts.Prelude.{
  ℕ, zero, suc, ◌+◌, ◌-◌, ◌≤◌, ◌<◌, ◌≡◌, refl, Bool, true, false, Bool-cases, inl, inr, ◌&&◌, ltb,
  Option, none, some, arith,
}
use nccl_exts.Prelude.Nccl.{NcclResult, ok, err}
use nccl_exts.Socket.{
  progress, Socket, System, Op, send, recv, Bytes, moved, failed, is_transient, Transfers, Progress,
  end_round, check_abort, is_closed, after_transfer, progress_loop, progress_opt,
}

module _ {W : Type 0} (sys : System W) where
  -- What a call that starts at `offset`, in the world `w`, comes to: it ends, the offset has grown by
  -- the bytes that went through the connection, and stays within `size`.
  abbrev pub Accounts : ℕ → ℕ → W → Option (Progress sys) → Type 0
  Accounts size offset w none = ⊥
  Accounts size offset w (some (r, offset', w')) =
      (offset' + sys.stream w ≡ offset + sys.stream w') × (offset ≤ offset') × (offset' ≤ size)

  check_abort-stream : (s : Socket) (w : W) → sys.stream (check_abort sys s w).1 ≡ sys.stream w
  unfolding check_abort
  check_abort-stream s w = elim (Bool-cases s.abort_flag) [
    | inl e ↦ rw e (sys.abort_law w)
    | inr e ↦ rw e refl
  ]

  end_round-Accounts :
      (aborted : Bool) (n size offset start : ℕ) (w v : W) (more : Option (Progress sys))
      → offset + sys.stream w ≡ start + sys.stream v
      → start ≤ offset
      → offset ≤ size
      → (0 < n → offset < size → Accounts size start w more)
      → Accounts size start w (end_round sys aborted n size offset v more)
  unfolding end_round
  end_round-Accounts true n size offset start w v more e l b next = (e, l, b)
  end_round-Accounts false n size offset start w v more e l b next =
      elim (Bool-cases (ltb 0 n && ltb offset size)) [
        | inl t ↦ rw t (next (ground arith) (ground arith))
        | inr t ↦ rw t (e, l, b)
      ]

  -- What follows from the offset in the middle of a call follows from the start.
  Accounts-from :
      (size start offset : ℕ) (w v : W) (r : Option (Progress sys))
      → offset + sys.stream w ≡ start + sys.stream v
      → start ≤ offset
      → Accounts size offset v r
      → Accounts size start w r
  Accounts-from size start offset w v none e l h = h
  Accounts-from size start offset w v (some (r, o, u)) e l (s, a, b) =
      (omega (arith, e, s), omega arith, b)

  is_closed-zero : (op : Op) (n : ℕ) → is_closed sys op n ≡ true → n ≡ 0
  is_closed-zero send n h = cc
  is_closed-zero recv n h = ground arith

  -- One iteration, given that the next ones do.
  after_transfer-Accounts :
      (op : Op) (s : Socket) (size offset : ℕ) (w : W) (next : ℕ → W → Option (Progress sys))
      → offset ≤ size
      → ((o : ℕ) (v : W) → offset < o → o ≤ size → Accounts size o v (next o v))
      → (r : Bytes × W) → Transfers sys.stream (size - offset) w r
      → Accounts size offset w (after_transfer sys op s size offset next r)
  unfolding after_transfer
  after_transfer-Accounts op s size offset w next b ih (failed x, w') kept =
      elim (Bool-cases (is_transient x)) [
        | inl t ↦
            let same = check_abort-stream s w' in
            rw t (
              end_round-Accounts (check_abort sys s w').0 0 size offset offset w
                (check_abort sys s w').1 none (omega (arith, kept, same)) (omega arith) b
                λ p l. absurd (omega (arith, p)))
        | inr t ↦ rw t (omega (arith, kept), omega arith, b)
      ]
  after_transfer-Accounts op s size offset w next b ih (moved n, w') (fits, kept) =
      elim (Bool-cases (is_closed sys op n)) [
        | inl t ↦ rw t (omega (arith, kept, is_closed-zero op n t), omega arith, b)
        | inr t ↦
            let same = check_abort-stream s w' in
            rw t (
              end_round-Accounts (check_abort sys s w').0 n size (offset + n) offset w
                (check_abort sys s w').1 (next (offset + n) (check_abort sys s w').1)
                (omega (arith, kept, same)) (omega arith) (omega (arith, fits, b))
                λ p l.
                  Accounts-from size offset (offset + n) w (check_abort sys s w').1 _
                    (omega (arith, kept, same)) (omega arith)
                    (ih (offset + n) (check_abort sys s w').1 (omega (arith, p))
                      (omega (arith, fits, b))))
      ]

  progress_loop-Accounts :
      (fuel : ℕ) (op : Op) (s : Socket) (size offset : ℕ) (w : W)
      → offset ≤ size
      → size - offset < fuel
      → Accounts size offset w (progress_loop sys fuel op s size offset w)
  unfolding progress_loop
  progress_loop-Accounts zero op s size offset w b f = absurd (omega arith)
  progress_loop-Accounts (suc fuel) op s size offset w b f =
      after_transfer-Accounts op s size offset w (progress_loop sys fuel op s size) b
        (λ o v l m. progress_loop-Accounts fuel op s size o v m (omega arith))
        (sys.transfer op (size - offset) w) (sys.transfer_law op (size - offset) w)

  -- socketProgressOpt ends, whatever the calls of send and recv answer within the length they are
  -- given: on every branch, errors included, the offset has grown by exactly the bytes that went
  -- through the connection, and does not pass the size.
  pub progress_opt-Accounts :
      (op : Op) (s : Socket) (size offset : ℕ) (w : W)
      → offset ≤ size
      → Accounts size offset w (progress_opt sys op s size offset w)
  unfolding progress_opt
  progress_opt-Accounts op s size offset w b =
      progress_loop-Accounts (suc (size - offset)) op s size offset w b (omega arith)

  -- The same of socketProgress.
  abbrev pub Counts : ℕ → ℕ → W → Option (NcclResult × ℕ × W) → Type 0
  Counts size offset w none = ⊥
  Counts size offset w (some (r, offset', w')) =
      (offset' + sys.stream w ≡ offset + sys.stream w') × (offset ≤ offset') × (offset' ≤ size)

  pub progress-Counts :
      (op : Op) (s : Socket) (size offset : ℕ) (w : W)
      → offset ≤ size
      → Counts size offset w (progress sys op s size offset w)
  unfolding progress
  progress-Counts op s size offset w b =
      go (progress_opt sys op s size offset w) (progress_opt-Accounts op s size offset w b) refl
    where
      go :
          (r : Option (Progress sys))
          → Accounts size offset w r
          → progress_opt sys op s size offset w ≡ r
          → Counts size offset w (progress sys op s size offset w)
      go none h e = absurd h
      go (some (err x, o, v)) h e = rw (progress, e) h
      go (some (ok true, o, v)) h e = rw (progress, e) h
      go (some (ok false, o, v)) h e = rw (progress, e) h
