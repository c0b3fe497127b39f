-- ===== src/Socket/Handshake/Magic.antt =====
-- What the handshake of an accepted connection in src/unet/socket.cc comes to.
use mathlib.Core.Path.{subst}
use nccl_exts.Prelude.{
  ℕ, zero, suc, ◌≡◌, ◌≢◌, inl, inr, refl, sym, ap, Bool-cases, Option, none, some, ltb, ◌==◌,
  ==_iff, if◌then◌else◌, arith, ◌+◌, ◌≤◌,
}
use nccl_exts.Prelude.Int.{negsuc}
use nccl_exts.Prelude.Nccl.{
  NcclResult, Result, ok, err, success, unhandled_cuda_error, system_error, internal_error,
  invalid_argument, invalid_usage, remote_error, in_progress,
}
use nccl_exts.Socket.{Socket, System, Op, recv, accepting, error, ready, progress}
use nccl_exts.Socket.Handshake.Bytes.{
  Moved, AllMoved, run_progress-Moved, wait-AllMoved, type_moved, first_moved,
}
use nccl_exts.Socket.Handshake.{
  Peer, Run, after_run, ◌>=>◌, finish, from_progress, run_progress, wait, set_no_delay, check_type,
  check_magic, finalize_accept,
}

module _ {W : Type 0} (sys : System W) (peer : Peer W) where
  abbrev Out : Type 0 → Type 0
  Out A = Option (Result A × (Socket × W))

  -- The socket is as it was, if the call has ended.
  abbrev SameSocket : Socket → {A : Type 0} → Out A → Type 0
  SameSocket s none = Unit
  SameSocket s (some (r, (t, v))) = t ≡ s

  -- What holds of each end of a run, and behind the run when it has succeeded, holds of both together.
  after_run_same :
      {A B : Type 0} (s : Socket) (P : Out B → Type 0) (f : A → Run W B) (out : Out A)
      → (out ≡ none → P none)
      → ((e : NcclResult) (v : W) → out ≡ some (err e, (s, v)) → P (some (err e, (s, v))))
      → ((a : A) (v : W) → out ≡ some (ok a, (s, v)) → P (f a (s, v)))
      → SameSocket s out
      → P (after_run f out)
  after_run_same s P f none n e k h = n refl
  after_run_same s P f (some (err x, (t, v))) n e k h =
      subst (λ a. P (some (err x, (a, v)))) (sym h) (e x v (ap (λ b. some (err x, (b, v))) h))
  after_run_same s P f (some (ok a, (t, v))) n e k h =
      subst (λ b. P (f a (b, v))) (sym h) (k a v (ap (λ b. some (ok a, (b, v))) h))

  from_progress-SameSocket :
      (s : Socket) (out : Option (NcclResult × ℕ × W)) → SameSocket s (from_progress sys peer s out)
  from_progress-SameSocket s none = tt
  from_progress-SameSocket s (some (success, o, w)) = refl
  from_progress-SameSocket s (some (unhandled_cuda_error, o, w)) = refl
  from_progress-SameSocket s (some (system_error, o, w)) = refl
  from_progress-SameSocket s (some (internal_error, o, w)) = refl
  from_progress-SameSocket s (some (invalid_argument, o, w)) = refl
  from_progress-SameSocket s (some (invalid_usage, o, w)) = refl
  from_progress-SameSocket s (some (remote_error, o, w)) = refl
  from_progress-SameSocket s (some (in_progress, o, w)) = refl

  run_progress-SameSocket :
      (s : Socket) (w : W) → SameSocket s (run_progress sys peer recv 8 0 (s, w))
  unfolding run_progress
  run_progress-SameSocket s w = from_progress-SameSocket s (progress sys recv s 8 0 w)

  wait-SameSocket :
      (fuel : ℕ) (op : Op) (size offset : ℕ) (s : Socket) (w : W)
      → SameSocket s (wait sys peer fuel op size offset (s, w))
  unfolding wait run_progress
  wait-SameSocket zero op size offset s w = elim (Bool-cases (ltb offset size)) [
    | inl t ↦ rw t tt
    | inr f ↦ rw f refl
  ]
  wait-SameSocket (suc fuel) op size offset s w = elim (Bool-cases (ltb offset size)) [
    | inl t ↦ rw t (
        after_run_same s (SameSocket s) (wait sys peer fuel op size)
          (run_progress sys peer op size offset (s, w)) (λ _. tt) (λ e v _. refl)
          (λ o v _. wait-SameSocket fuel op size o s v)
          (from_progress-SameSocket s (progress sys op s size offset w)))
    | inr f ↦ rw f refl
  ]

  set_no_delay-SameSocket : (s : Socket) (w : W) → SameSocket s (set_no_delay sys peer (s, w))
  unfolding set_no_delay
  set_no_delay-SameSocket s w = elim (Bool-cases (peer.no_delay w).0) [
    | inl t ↦ rw t refl
    | inr f ↦ rw f refl
  ]

  set_no_delay-ne-none : (s : Socket) (w : W) → set_no_delay sys peer (s, w) ≢ none
  unfolding set_no_delay
  set_no_delay-ne-none s w = elim (Bool-cases (peer.no_delay w).0) [
    | inl t ↦ rw t (λ e. absurd (cc))
    | inr f ↦ rw f (λ e. absurd (cc))
  ]

  -- The option was set, and the first attempt has received the first bytes of the magic.
  abbrev Started : Socket → W → ℕ → W → Type 0
  Started s w received v =
      (u : W) × ((set_no_delay sys peer (s, w) ≡ some (ok tt, (s, u)))
        × ((run_progress sys peer recv 8 0 (s, u) ≡ some (ok received, (s, v)))
            × ((received + sys.stream u ≡ sys.stream v) × (received ≤ 8))))

  -- All 8 bytes of the magic have come.
  abbrev HasMagic : ℕ → Socket → W → W → Type 0
  HasMagic fuel s w v =
      (u : W) × ((received : ℕ) × (Started s w received u
          × ((received ≢ 0)
              × ((wait sys peer fuel recv 8 received (s, u) ≡ some (ok tt, (s, v)))
                  × (8 + sys.stream u ≡ received + sys.stream v)))))

  -- So have the 4 bytes of the type behind the magic, which is the socket's.
  abbrev HasType : ℕ → Socket → W → W → Type 0
  HasType fuel s w v =
      (u : W) × (HasMagic fuel s w u
        × ((peer.magic u ≡ s.magic)
            × ((wait sys peer fuel recv 4 0 (s, u) ≡ some (ok tt, (s, v)))
                × (4 + sys.stream u ≡ sys.stream v))))

  -- How the handshake ends: with the failure of one of the calls before; without a byte to receive; with
  -- another magic, or another type, than the socket's; or with both. Or it waits still.
  pub data Handshake (fuel : ℕ) (s : Socket) (w : W) : Out (Unit {0}) → Type 0 where
    waits_for_magic :
        (u : W) (received : ℕ)
        → Started s w received u
        → wait sys peer fuel recv 8 received (s, u) ≡ none
        → Handshake fuel s w none
    waits_for_type :
        (u : W)
        → HasMagic fuel s w u
        → peer.magic u ≡ s.magic
        → wait sys peer fuel recv 4 0 (s, u) ≡ none
        → Handshake fuel s w none
    no_delay_failed :
        {e : NcclResult} {v : W}
        → set_no_delay sys peer (s, w) ≡ some (err e, (s, v))
        → Handshake fuel s w (some (err e, (s, v)))
    first_failed :
        {e : NcclResult} {v : W} (u : W)
        → set_no_delay sys peer (s, w) ≡ some (ok tt, (s, u))
        → run_progress sys peer recv 8 0 (s, u) ≡ some (err e, (s, v))
        → Handshake fuel s w (some (err e, (s, v)))
    no_bytes : {v : W} → Started s w 0 v → Handshake fuel s w (some (ok tt, (s, v)))
    magic_failed :
        {e : NcclResult} {v : W} (u : W) (received : ℕ)
        → Started s w received u
        → wait sys peer fuel recv 8 received (s, u) ≡ some (err e, (s, v))
        → Handshake fuel s w (some (err e, (s, v)))
    wrong_magic :
        {t : Socket} {v : W}
        → HasMagic fuel s w v
        → peer.magic v ≢ s.magic
        → t ≡ record s { fd = negsuc 0; state = accepting }
        → Handshake fuel s w (some (ok tt, (t, v)))
    type_failed :
        {e : NcclResult} {v : W} (u : W)
        → HasMagic fuel s w u
        → peer.magic u ≡ s.magic
        → wait sys peer fuel recv 4 0 (s, u) ≡ some (err e, (s, v))
        → Handshake fuel s w (some (err e, (s, v)))
    wrong_type :
        {t : Socket} {v : W}
        → HasType fuel s w v
        → peer.type v ≢ s.type
        → t ≡ record s { fd = negsuc 0; state = error }
        → Handshake fuel s w (some (err internal_error, (t, v)))
    accepted :
        {t : Socket} {v : W}
        → HasType fuel s w v
        → peer.type v ≡ s.type
        → t ≡ record s { state = ready }
        → Handshake fuel s w (some (ok tt, (t, v)))

  check_type-Handshake :
      (fuel : ℕ) (s : Socket) (w v : W)
      → HasType fuel s w v
      → Handshake fuel s w (check_type sys peer (s, v))
  unfolding check_type
  check_type-Handshake fuel s w v h = elim (Bool-cases (peer.type v == s.type)) [
    | inl t ↦ rw t (accepted h ((==_iff _ _).0 t) refl)
    | inr f ↦ rw f (wrong_type h (λ e. absurd (ground (arith, e, f))) refl)
  ]

  check_magic-Handshake :
      (fuel : ℕ) (s : Socket) (w v : W)
      → HasMagic fuel s w v
      → Handshake fuel s w (check_magic sys peer fuel (s, v))
  unfolding check_magic
  check_magic-Handshake fuel s w v h = elim (Bool-cases (peer.magic v == s.magic)) [
    | inl t ↦
        let same = (==_iff _ _).0 t in
        rw t (
          after_run_same s (Handshake fuel s w) (λ _. check_type sys peer)
            (wait sys peer fuel recv 4 0 (s, v)) (waits_for_type v h same)
            (λ e x f. type_failed v h same f)
            (λ _ x f.
              check_type-Handshake fuel s w x
                (v, (h, (same, (f, type_moved sys peer fuel s v x f)))))
            (wait-SameSocket fuel recv 4 0 s v))
    | inr f ↦ rw f (wrong_magic h (λ e. absurd (ground (arith, e, f))) refl)
  ]

  received-Handshake :
      (fuel received : ℕ) (s : Socket) (w v : W)
      → Started s w received v
      → Handshake fuel s w (
          (if received == 0
              then finish tt
              else (wait sys peer fuel recv 8 received >=> λ _. check_magic sys peer fuel))
            (s, v))
  received-Handshake fuel received s w v h = elim (Bool-cases (received == 0)) [
    | inl t ↦ rw t (no_bytes (subst (λ n. Started s w n v) ((==_iff received 0).0 t) h))
    | inr f ↦ rw f (
        after_run_same s (Handshake fuel s w) (λ _. check_magic sys peer fuel)
          (wait sys peer fuel recv 8 received (s, v)) (waits_for_magic v received h)
          (λ e x g. magic_failed v received h g)
          (λ _ x g. check_magic-Handshake fuel s w x (
            v,
            (
              received,
              (
                h,
                (
                  (λ e. absurd (ground (arith, e, f))),
                  (
                    g,
                    subst (AllMoved sys peer 8 received v) g
                        (wait-AllMoved sys peer fuel recv 8 received s v h.1.1.1.1),
                  ),
                ),
              ),
            ),
          ))
          (wait-SameSocket fuel recv 8 received s v))
  ]

  -- socketFinalizeAccept ends in one of these ways: the option or one of the transfers fails, with
  -- its error and the socket as it was; nothing has come of the magic, with success and the socket
  -- as it was; all 8 bytes of the magic have come and are not the socket's, with success, the
  -- descriptor dropped and the socket accepting; the 4 bytes of the type have come behind the
  -- right magic and are not the socket's, with ncclInternalError, the descriptor dropped and the
  -- socket in error; or both are the socket's, with success and the socket ready. It has not
  -- returned on its fuel only where it waits for the rest of the magic, after some of it, or for
  -- the type, after the right magic.
  pub finalize_accept-Handshake :
      (fuel : ℕ) (s : Socket) (w : W) → Handshake fuel s w (finalize_accept sys peer fuel (s, w))
  unfolding finalize_accept
  finalize_accept-Handshake fuel s w =
      after_run_same s (Handshake fuel s w)
        (λ _. run_progress sys peer recv 8 0 >=> λ received.
          if received == 0
          then finish tt
          else (wait sys peer fuel recv 8 received >=> λ _. check_magic sys peer fuel))
        (set_no_delay sys peer (s, w)) (λ e. absurd (set_no_delay-ne-none s w e))
        (λ e v f. no_delay_failed f)
        (λ _ v f.
          after_run_same s (Handshake fuel s w)
            (λ received.
              if received == 0
              then finish tt
              else (wait sys peer fuel recv 8 received >=> λ _. check_magic sys peer fuel))
            (run_progress sys peer recv 8 0 (s, v))
            (λ e. absurd (
              subst (Moved sys peer 8 0 v) e
                (run_progress-Moved sys peer recv 8 0 s v (omega arith))))
            (λ e u g. first_failed v f g)
            (λ received u g.
              received-Handshake fuel received s w u
                (v, (f, (g, first_moved sys peer s received v u g))))
            (run_progress-SameSocket s v))
        (set_no_delay-SameSocket s w)
