-- ===== src/Ib/Accept/Stages/Handing.antt =====
-- Over any calls of ncclIbAccept of src/unet/unet_ib.cc, a comm is handed out only when it is set up.
use mathlib.Core.Path.{subst}
use nccl_exts.Prelude.{
  ℕ, ◌*◌, ◌≤◌, ◌<◌, ◌≡◌, ◌⊎◌, [], ◌∷◌, inl, inr, refl, sym, Bool, true, false, Bool-cases, List,
  length, ltb, ◌==◌, if◌then◌else◌, some, arith,
}
use nccl_exts.Prelude.Int.{ℤ}
use nccl_exts.Prelude.Nccl.{
  NcclResult, Result, ok, err, Action, ◌>>=◌, ◌>>◌, pure, modify, nccl_check, nccl_check-same,
  from_result, Ends, Ends-chain, Ends-map,
}
use nccl_exts.Ib.Device.{Dev, Merged}
use nccl_exts.Ib.Meta.{ConnParams}
use nccl_exts.Ib.Connect.{Conn}
use nccl_exts.Ib.Connect.Joining.{IsFresh, IsEstablished, marked-IsEstablished, max_qps}
use nccl_exts.Ib.Accept.{accept_setup}
use nccl_exts.Ib.Accept.Joining.{accept-IsEstablished}
use nccl_exts.Ib.Stage.{
  CommState, start, connect, accept, send, recv, connecting, connected, pending_ready, Stage, Reply,
  pending, handed, refused, set_stage, set_offset, lift, move,
}
use nccl_exts.Ib.Stage.Steps.{move-Ends, lift-Ends, whole}
use nccl_exts.Ib.Accept.Stages.{
  Call, set_ready, recv_ready, send_on, answer, receive, check, begin, resume, leave, accept_call,
}

-- The call is one of those made.
abbrev pub Among : List Call → Call → Type 0
Among [] k = ⊥
Among (c ∷ cs) k = (k ≡ c) ⊎ Among cs k

module _ (p : ConnParams) (devs : List Dev) (m : Merged) (rank : ℤ) (addr size : ℕ)
    (Came : Call → Type 0) where
  -- One of the calls that came has received all of the sender's metadata, and the queue pairs are
  -- connected to those of these metadata.
  abbrev pub IsSetUp : Conn → Type 0
  IsSetUp c =
      (k : Call) × (Came k
        × (((o : ℕ) × (k.recv_meta o ≡ ok size)) × IsEstablished p devs k.host k.peer c))

  -- What holds of the comm in each state of the stage. ncclIbAccept uses no other states.
  abbrev pub IsAt : CommState → Conn → Type 0
  IsAt start c = Unit
  IsAt accept c = IsFresh c
  IsAt recv c = IsFresh c
  IsAt send c = IsSetUp c
  IsAt pending_ready c = IsSetUp c
  IsAt connect c = ⊥
  IsAt connecting c = ⊥
  IsAt connected c = ⊥

  abbrev pub IsStage : Stage → Type 0
  IsStage s = IsAt s.state s.conn

  -- All of the sender's ready flag has come.
  abbrev pub HasFlag : Call → Type 0
  HasFlag c = (o : ℕ) × (c.recv_ready o ≡ ok 4)

  module _ (c : Call) (came : Came c) where
    abbrev Good : Reply → Stage → Type 0
    Good handed t = IsSetUp t.conn × ((t.conn.base.ready ≡ c.flag) × HasFlag c)
    Good pending t = IsStage t
    Good refused t = ⊥

    abbrev GoodEnd : Result Reply × Stage → Type 0
    GoodEnd out = Ends Good (λ _ _. Unit {0}) out

    moved-Good :
        (transfer : ℕ → Result ℕ) (f : ℕ → Action Stage Reply) (s : Stage)
        → ((o : ℕ) → transfer s.offset ≡ ok o → GoodEnd (f o (set_offset o s)))
        → GoodEnd ((move transfer >>= f) s)
    moved-Good transfer f s h =
        Ends-chain (λ o t. (transfer s.offset ≡ ok o) × (t ≡ set_offset o s)) Good (λ _ _. Unit)
          (move transfer) f s (move-Ends transfer s)
          (λ o t (moved, e). subst (λ x. GoodEnd (f o x)) (sym e) (h o moved))

    -- Behind a step that leaves the stage as it is.
    checked-Good :
        (r : NcclResult) (f : Action Stage Reply) (s : Stage)
        → GoodEnd (f s)
        → GoodEnd ((nccl_check r >> f) s)
    checked-Good r f s h =
        Ends-chain (λ _ t. t ≡ s) Good (λ _ _. Unit) (nccl_check r) (λ _. f) s
          (Ends-map _ _ (λ _ t. t ≡ s) (λ _ _. Unit) _ (λ _ _ e. e) (λ _ _ _. tt)
            (nccl_check-same r s))
          (λ _ t e. subst (λ x. GoodEnd (f x)) (sym e) h)

    recv_ready-Good :
        (s : Stage)
        → s.state ≡ pending_ready
        → IsSetUp s.conn
        → GoodEnd (recv_ready p devs m rank addr size c s)
    unfolding recv_ready
    recv_ready-Good s e (k, (k_came, (got, h))) =
        moved-Good c.recv_ready
          (λ o. if o == 4 then (modify (set_ready c.flag) >> pure handed) else pure pending) s
          (λ o e'. elim (Bool-cases (o == 4)) [
            | inl t ↦ rw t (
              (k, (k_came, (got, marked-IsEstablished p devs k.host k.peer c.flag s.conn h))),
              (refl, (s.offset, whole c.recv_ready s.offset o 4 e' t)),
            )
            | inr f ↦ rw f (subst (λ st. IsAt st s.conn) (sym e) (k, (k_came, (got, h))))
          ])

    send_on-Good :
        (s : Stage)
        → s.state ≡ send
        → IsSetUp s.conn
        → GoodEnd (send_on p devs m rank addr size c s)
    unfolding send_on
    send_on-Good s e h =
        moved-Good c.send_meta
          (λ o.
            if ltb o size
            then pure pending
            else (modify (set_stage pending_ready) >> recv_ready p devs m rank addr size c))
          s
          (λ o _. elim (Bool-cases (ltb o size)) [
            | inl t ↦ rw t (subst (λ st. IsAt st s.conn) (sym e) h)
            | inr f ↦ rw f (recv_ready-Good (set_stage pending_ready (set_offset o s)) refl h)
          ])

    module _ (l : 0 < length m.devs) (u : length m.devs ≤ 2) (q : 0 < p.qps_per_connection) where
      answer-Good :
          (s : Stage)
          → ((o : ℕ) × (c.recv_meta o ≡ ok size))
          → IsFresh s.conn
          → GoodEnd (answer p devs m rank addr size c s)
      unfolding answer
      answer-Good s got h =
          let setup = accept_setup p devs c.host c.flush m c.supported rank addr c.peer in
          Ends-chain (λ _ t. IsSetUp t.conn) Good (λ _ _. Unit) (lift setup)
            (λ meta t.
              send_on p devs m rank addr size c
                (record t { state = send; offset = 0; buffer = some meta }))
            s
            (lift-Ends (λ _ a. IsSetUp a) setup s
              (Ends-map _ (λ _ _. Unit) (λ _ a. IsSetUp a) (λ _ _. Unit) _
                (λ _ a r. (c, (came, (got, r)))) (λ _ a r. tt)
                (accept-IsEstablished p devs c.host c.flush m c.supported rank addr c.peer s.conn l
                  u q h)))
            (λ meta t k.
              send_on-Good (record t { state = send; offset = 0; buffer = some meta }) refl k)

      receive-Good :
          (s : Stage)
          → s.state ≡ recv
          → IsFresh s.conn
          → GoodEnd (receive p devs m rank addr size c s)
      unfolding receive
      receive-Good s e h =
          moved-Good c.recv_meta
            (λ o. if o == size then answer p devs m rank addr size c else pure pending) s
            (λ o e'. elim (Bool-cases (o == size)) [
              | inl t ↦ rw t (
                  answer-Good (set_offset o s) (s.offset, whole c.recv_meta s.offset o size e' t) h)
              | inr f ↦ rw f (subst (λ st. IsAt st s.conn) (sym e) h)
            ])

      check-Good :
          (s : Stage)
          → s.state ≡ accept
          → IsFresh s.conn
          → GoodEnd (check p devs m rank addr size c s)
      unfolding check
      check-Good s e h = go c.ready
        where
          rest : Bool → Action Stage Reply
          rest ready =
              if ready
              then (modify (set_stage recv) >> receive p devs m rank addr size c)
              else pure pending

          go : (r : Result Bool) → GoodEnd ((from_result r >>= rest) s)
          go (err x) = tt
          go (ok true) = receive-Good (set_stage recv s) refl h
          go (ok false) = subst (λ st. IsAt st s.conn) (sym e) h

      begin-Good :
          (s : Stage) → IsFresh (c.fresh s.conn) → GoodEnd (begin p devs m rank addr size c s)
      unfolding begin
      begin-Good s h =
          let opened : Stage = record s { state = accept; conn = c.fresh s.conn } in
          checked-Good c.socket_init (nccl_check c.socket_accept >> check p devs m rank addr size c)
            opened
            (checked-Good c.socket_accept (check p devs m rank addr size c) opened
              (check-Good opened refl h))

      resume-Good :
          (st : CommState) (s : Stage)
          → s.state ≡ st
          → IsFresh (c.fresh s.conn)
          → IsAt st s.conn
          → GoodEnd (resume p devs m rank addr size st c s)
      unfolding resume
      resume-Good start s e f h = begin-Good s f
      resume-Good accept s e f h = check-Good s e h
      resume-Good recv s e f h = receive-Good s e h
      resume-Good send s e f h = send_on-Good s e h
      resume-Good pending_ready s e f h = recv_ready-Good s e h
      resume-Good connect s e f h = absurd h
      resume-Good connecting s e f h = absurd h
      resume-Good connected s e f h = absurd h

  -- How a call ends: with a comm that is set up, its flag the sender's, and a stage at the start; with
  -- the stage in order, to be called again; or with an error and a stage at the start.
  abbrev pub Leaves : Call → Result Bool × Stage → Type 0
  Leaves c out =
      Ends
        (λ handed t.
          (handed ≡ true
            → (t.state ≡ start) × (IsSetUp t.conn × ((t.conn.base.ready ≡ c.flag) × HasFlag c)))
          × IsStage t)
        (λ _ t. t.state ≡ start) out

  leave-Leaves :
      (c : Call) (came : Came c) (out : Result Reply × Stage)
      → GoodEnd c came out
      → Leaves c (leave p devs m rank addr size out)
  unfolding leave
  leave-Leaves c came (ok pending, s) h = (λ e. absurd (ground arith), h)
  leave-Leaves c came (ok handed, s) h = (λ e. (refl, h), tt)
  leave-Leaves c came (ok refused, s) h = absurd h
  leave-Leaves c came (err x, s) h = refl

  -- What both ends of a call leave of the stage.
  Leaves-IsStage : (c : Call) (out : Result Bool × Stage) → Leaves c out → IsStage out.1
  Leaves-IsStage c (ok b, t) h = h.1
  Leaves-IsStage c (err e, t) h = subst (λ st. IsAt st t.conn) (sym h) tt

module _ (p : ConnParams) (devs : List Dev) (m : Merged) (rank : ℤ) (addr size : ℕ) where
  -- The stages that calls of ncclIbAccept lead to, the last one first, from any stage at the start. The
  -- comm that a call allocates is zeroed, and the sender has two devices at most.
  pub data Reachable : List Call → Stage → Type 0 where
    begun : (s : Stage) → s.state ≡ start → Reachable [] s
    called :
        {cs : List Call} {s : Stage} (c : Call)
        → IsFresh (c.fresh s.conn)
        → c.peer.ndevs ≤ 2
        → Reachable cs s
        → Reachable (c ∷ cs) (accept_call p devs m rank addr size c s).1

  -- What holds by some calls holds by more.
  IsSetUp-more :
      (c : Call) (cs : List Call) (x : Conn)
      → IsSetUp p devs m rank addr size (Among cs) x
      → IsSetUp p devs m rank addr size (Among (c ∷ cs)) x
  IsSetUp-more c cs x (k, (a, h)) = (k, (inr a, h))

  IsAt-more :
      (c : Call) (cs : List Call) (st : CommState) (x : Conn)
      → IsAt p devs m rank addr size (Among cs) st x
      → IsAt p devs m rank addr size (Among (c ∷ cs)) st x
  IsAt-more c cs start x h = tt
  IsAt-more c cs accept x h = h
  IsAt-more c cs recv x h = h
  IsAt-more c cs send x h = IsSetUp-more c cs x h
  IsAt-more c cs pending_ready x h = IsSetUp-more c cs x h
  IsAt-more c cs connect x h = absurd h
  IsAt-more c cs connecting x h = absurd h
  IsAt-more c cs connected x h = absurd h

  module _ (l : 0 < length m.devs) (u : length m.devs ≤ 2) (q : 0 < p.qps_per_connection) where
    call-Leaves :
        (cs : List Call) (c : Call) (s : Stage)
        → IsFresh (c.fresh s.conn)
        → IsStage p devs m rank addr size (Among cs) s
        → Leaves p devs m rank addr size
            (Among (c ∷ cs))
            c
            (accept_call p devs m rank addr size c s)
    unfolding accept_call
    call-Leaves cs c s f h =
        leave-Leaves p devs m rank addr size (Among (c ∷ cs)) c (inl refl)
          (resume p devs m rank addr size s.state c s)
          (resume-Good p devs m rank addr size (Among (c ∷ cs)) c (inl refl) l u q s.state s refl f
            (IsAt-more c cs s.state s.conn h))

    Reachable-IsStage :
        (cs : List Call) (s : Stage) → Reachable cs s → IsStage p devs m rank addr size (Among cs) s
    Reachable-IsStage _ s (begun _ e) =
        subst (λ st. IsAt p devs m rank addr size (Among []) st s.conn) (sym e) tt
    Reachable-IsStage _ _ (called {cs = cs} {s = t} c f few r) =
        Leaves-IsStage p devs m rank addr size (Among (c ∷ cs)) c
          (accept_call p devs m rank addr size c t)
          (call-Leaves cs c t f (Reachable-IsStage cs t r))

  -- For a merged device of one or two devices, at least one queue pair per connection and no more
  -- than 128 in all, after any calls of ncclIbAccept on a stage that was at its start, a call
  -- hands out a comm only when one of the calls up to this one has received all of the sender's
  -- metadata and the queue pairs are ready to send to those of these metadata, and this call has
  -- received the ready flag to its end and marked the comm with it; it leaves the stage at the
  -- start. A call to come back leaves the stage as its state says; a call that fails leaves the
  -- stage at the start. The comm that a call allocates is zeroed, and the sender has two devices
  -- at most.
  pub accept_call-Leaves :
      (cs : List Call) (c : Call) (s : Stage)
      → 0 < length m.devs
      → length m.devs ≤ 2
      → 0 < p.qps_per_connection
      → p.qps_per_connection * length m.devs ≤ max_qps
      → c.peer.ndevs ≤ 2
      → IsFresh (c.fresh s.conn)
      → Reachable cs s
      → Leaves p devs m rank addr size (Among (c ∷ cs)) c (accept_call p devs m rank addr size c s)
  accept_call-Leaves cs c s l u q few_qps few_devs f r =
      call-Leaves l u q cs c s f (Reachable-IsStage l u q cs s r)
