-- ===== src/Socket/Handshake/Bytes.antt =====
-- The bytes that the transfers of the handshake in src/unet/socket.cc move.
use mathlib.Core.Path.{subst}
use nccl_exts.Prelude.{
  ℕ, zero, suc, ◌≡◌, inl, inr, Bool-cases, Option, none, some, ltb, arith, ◌+◌, ◌≤◌,
}
use nccl_exts.Prelude.Nccl.{
  NcclResult, Result, ok, err, success, unhandled_cuda_error, system_error, internal_error,
  invalid_argument, invalid_usage, remote_error, in_progress,
}
use nccl_exts.Socket.{Socket, System, Op, recv, progress}
use nccl_exts.Socket.Transfer.{Counts, progress-Counts}
use nccl_exts.Socket.Handshake.{Peer, after_run, from_progress, run_progress, wait}

module _ {W : Type 0} (sys : System W) (peer : Peer W) where
  abbrev Out : Type 0 → Type 0
  Out A = Option (Result A × (Socket × W))

  -- A run that succeeds with an offset has moved the bytes up to it; no run of socketProgress waits.
  abbrev pub Moved : ℕ → ℕ → W → Out ℕ → Type 0
  Moved size offset w none = ⊥
  Moved size offset w (some (err e, (t, v))) = Unit
  Moved size offset w (some (ok o, (t, v))) =
      (o + sys.stream w ≡ offset + sys.stream v) × (o ≤ size)

  from_progress-Moved :
      (size offset : ℕ) (s : Socket) (w : W) (out : Option (NcclResult × ℕ × W))
      → Counts sys size offset w out
      → Moved size offset w (from_progress sys peer s out)
  from_progress-Moved size offset s w none h = h
  from_progress-Moved size offset s w (some (success, o, v)) (e, l, b) = (e, b)
  from_progress-Moved size offset s w (some (unhandled_cuda_error, o, v)) h = tt
  from_progress-Moved size offset s w (some (system_error, o, v)) h = tt
  from_progress-Moved size offset s w (some (internal_error, o, v)) h = tt
  from_progress-Moved size offset s w (some (invalid_argument, o, v)) h = tt
  from_progress-Moved size offset s w (some (invalid_usage, o, v)) h = tt
  from_progress-Moved size offset s w (some (remote_error, o, v)) h = tt
  from_progress-Moved size offset s w (some (in_progress, o, v)) (e, l, b) = (e, b)

  pub run_progress-Moved :
      (op : Op) (size offset : ℕ) (s : Socket) (w : W)
      → offset ≤ size
      → Moved size offset w (run_progress sys peer op size offset (s, w))
  unfolding run_progress
  run_progress-Moved op size offset s w b =
      from_progress-Moved size offset s w (progress sys op s size offset w)
        (progress-Counts sys op s size offset w b)

  -- A wait that succeeds has moved all that was left.
  abbrev pub AllMoved : ℕ → ℕ → W → Out (Unit {0}) → Type 0
  AllMoved size offset w (some (ok _, (t, v))) = size + sys.stream w ≡ offset + sys.stream v
  AllMoved size offset w _ = Unit

  pub wait-AllMoved :
      (fuel : ℕ) (op : Op) (size offset : ℕ) (s : Socket) (w : W)
      → offset ≤ size
      → AllMoved size offset w (wait sys peer fuel op size offset (s, w))
  unfolding wait
  wait-AllMoved zero op size offset s w b = elim (Bool-cases (ltb offset size)) [
    | inl t ↦ rw t tt
    | inr f ↦ rw f ground arith
  ]
  wait-AllMoved (suc fuel) op size offset s w b = elim (Bool-cases (ltb offset size)) [
    | inl t ↦ rw t (
        go (λ o t v l. wait-AllMoved fuel op size o t v l)
          (run_progress sys peer op size offset (s, w)) (run_progress-Moved op size offset s w b))
    | inr f ↦ rw f ground arith
  ]
    where
      from :
          (o : ℕ) (v : W) (out : Out (Unit {0}))
          → o + sys.stream w ≡ offset + sys.stream v
          → AllMoved size o v out
          → AllMoved size offset w out
      from o v none e h = tt
      from o v (some (err x, y)) e h = tt
      from o v (some (ok x, (t, u))) e h = omega (arith, e, h)

      go :
          ((o : ℕ) (t : Socket) (v : W)
            → o ≤ size
            → AllMoved size o v (wait sys peer fuel op size o (t, v)))
          → (out : Out ℕ) → Moved size offset w out
          → AllMoved size offset w (after_run (wait sys peer fuel op size) out)
      go next none h = tt
      go next (some (err x, y)) h = tt
      go next (some (ok o, (t, v))) (e, l) =
          from o v (wait sys peer fuel op size o (t, v)) e (next o t v l)

  pub type_moved :
      (fuel : ℕ) (s : Socket) (v x : W)
      → wait sys peer fuel recv 4 0 (s, v) ≡ some (ok tt, (s, x))
      → 4 + sys.stream v ≡ sys.stream x
  type_moved fuel s v x e =
      let moved : 4 + sys.stream v ≡ 0 + sys.stream x =
        subst (AllMoved 4 0 v) e (wait-AllMoved fuel recv 4 0 s v (omega arith)) in
      omega (arith, moved)

  pub first_moved :
      (s : Socket) (received : ℕ) (v x : W)
      → run_progress sys peer recv 8 0 (s, v) ≡ some (ok received, (s, x))
      → (received + sys.stream v ≡ sys.stream x) × (received ≤ 8)
  first_moved s received v x e =
      let moved : (received + sys.stream v ≡ 0 + sys.stream x) × (received ≤ 8) =
        subst (Moved 8 0 v) e (run_progress-Moved recv 8 0 s v (omega arith)) in
      (omega (arith, moved), moved.1)
