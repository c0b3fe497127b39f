-- ===== src/Ib/Stage/Steps.antt =====
-- What each step of ncclIbConnect of src/unet/unet_ib.cc leaves of the comm.
use mathlib.Core.Path.{subst}
use native.Mathlib.Nat.{mul-pos}
use nccl_exts.Prelude.{
  ℕ, ◌*◌, ◌≤◌, ◌<◌, ◌≡◌, inl, inr, refl, sym, ap, ◌∙◌, ==_iff, Bool, true, false, Bool-cases, List,
  length, take, ◌==◌, if◌then◌else◌, none, some, arith,
}
use nccl_exts.Prelude.Int.{ℤ}
use nccl_exts.Prelude.Nccl.{
  Result, ok, err, Action, ◌>>=◌, ◌>>◌, pure, modify, nccl_check, nccl_check-same, from_result,
  Ends, Ends-chain, Ends-map,
}
use nccl_exts.Ib.Device.{Dev, Merged}
use nccl_exts.Ib.Meta.{ConnParams}
use nccl_exts.Ib.Connect.{Conn, same_layer, first_layer, connect_setup, connect_finish}
use nccl_exts.Ib.Connect.Striping.{IsStriped, keep-IsStriped}
use nccl_exts.Ib.Connect.Joining.{
  IsFresh, IsEstablished, connect_setup-IsStriped, connect_finish-IsEstablished,
}
use nccl_exts.Ib.Stage.{
  CommState, start, connect, accept, send, recv, connecting, connected, pending_ready, Stage, Call,
  Reply, pending, handed, refused, set_stage, set_offset, lift, move, send_ready, join, receive,
  send_on, check, begin, resume, leave, connect_call,
}

pub move-Ends :
    (transfer : ℕ → Result ℕ) (s : Stage)
    → Ends
        (λ o t. (transfer s.offset ≡ ok o) × (t ≡ set_offset o s))
        (λ _ _. Unit {0})
        (move transfer s)
unfolding move
move-Ends transfer s = go (transfer s.offset)
  where
    go :
        (r : Result ℕ)
        → Ends
            (λ o t. (r ≡ ok o) × (t ≡ set_offset o s))
            (λ _ _. Unit {0})
            ((from_result r >>= λ o. modify (set_offset o) >> pure o) s)
    go (ok o) = (refl, refl)
    go (err e) = tt

-- The transfer was complete.
pub whole :
    (transfer : ℕ → Result ℕ) (at o n : ℕ)
    → transfer at ≡ ok o
    → (o == n) ≡ true
    → transfer at ≡ ok n
whole transfer at o n e t = e ∙ ap ok ((==_iff o n).0 t)

pub lift-Ends :
    {A : Type 0} (good : A → Conn → Type 0) (a : Action Conn A) (s : Stage)
    → Ends good (λ _ _. Unit {0}) (a s.conn)
    → Ends (λ x t. good x t.conn) (λ _ _. Unit {0}) (lift a s)
unfolding lift
lift-Ends good a s = go (a s.conn)
  where
    go :
        (out : _)
        → Ends good (λ _ _. Unit {0}) out
        → Ends (λ x (t : Stage). good x t.conn) (λ _ _. Unit {0}) (out.0, record s { conn = out.1 })
    go (ok x, c) h = h
    go (err e, c) h = tt

module _ (p : ConnParams) (devs : List Dev) (dev : ℕ) (m : Merged) (rank : ℤ) (addr size : ℕ)
    (Came : Call → Type 0) where
  abbrev total : ℕ
  total = p.qps_per_connection * length m.devs

  -- A comm that can be handed out: one of the calls that came has received all of the other side's
  -- metadata, and its queue pairs are connected to those of these metadata.
  abbrev pub IsReady : Conn → Type 0
  IsReady c =
      (k : Call) × (Came k
        × (((o : ℕ) × (k.recv_meta o ≡ ok size))
            × ((c.base.ready ≡ 1) × IsEstablished p devs k.host k.peer c)))

  -- All of the ready flag has been sent.
  abbrev pub SendsFlag : Call → Type 0
  SendsFlag c = (o : ℕ) × (c.send_ready o ≡ ok 4)

  -- What holds of the comm in each state of the stage.
  abbrev pub IsAt : CommState → Conn → Type 0
  IsAt connect c = IsFresh c
  IsAt send c = IsStriped (length m.devs) total total c
  IsAt connecting c = IsStriped (length m.devs) total total c
  IsAt connected c = IsReady c
  IsAt _ c = Unit

  abbrev pub IsStage : Stage → Type 0
  IsStage s = IsAt s.state s.conn

  abbrev Good : Call → Reply → Stage → Type 0
  Good c handed t = IsReady t.conn × SendsFlag c
  Good c pending t = IsStage t
  Good c refused t = IsStage t

  abbrev GoodEnd : Call → Result Reply × Stage → Type 0
  GoodEnd c out = Ends (Good c) (λ _ _. Unit {0}) out

  -- Behind a transfer from a stage in state `st`.
  moved-Good :
      (c : Call) (transfer : ℕ → Result ℕ) (f : ℕ → Action Stage Reply) (s : Stage)
      → ((o : ℕ) → transfer s.offset ≡ ok o → GoodEnd c (f o (set_offset o s)))
      → GoodEnd c ((move transfer >>= f) s)
  moved-Good c transfer f s h =
      Ends-chain (λ o t. (transfer s.offset ≡ ok o) × (t ≡ set_offset o s)) (Good c) (λ _ _. Unit)
        (move transfer) f s (move-Ends transfer s)
        (λ o t (moved, e). subst (λ x. GoodEnd c (f o x)) (sym e) (h o moved))

  send_ready-Good :
      (c : Call) (s : Stage)
      → s.state ≡ connected
      → IsReady s.conn
      → GoodEnd c (send_ready p devs dev m rank addr size c s)
  unfolding send_ready
  send_ready-Good c s e h =
      moved-Good c c.send_ready (λ o. pure (if o == 4 then handed else pending)) s
        (λ o e'. elim (Bool-cases (o == 4)) [
          | inl t ↦ rw t (h, (s.offset, whole c.send_ready s.offset o 4 e' t))
          | inr f ↦ rw f (subst (λ st. IsAt st s.conn) (sym e) h)
        ])

  module _ (l : 0 < length m.devs) (u : length m.devs ≤ 2) (q : 0 < p.qps_per_connection) where
    join-Good :
        (c : Call) (s : Stage)
        → Came c
        → ((o : ℕ) × (c.recv_meta o ≡ ok size))
        → s.state ≡ connecting
        → IsStriped (length m.devs) total total s.conn
        → GoodEnd c (join p devs dev m rank addr size c s)
    unfolding join
    join-Good c s came got e h =
        let known : Stage = record s { conn = record s.conn { peer_rank = c.peer.rank } } in
        let kept =
          keep-IsStriped p devs c.host (length m.devs) total total s.conn known.conn refl refl h in
        elim (Bool-cases (
          same_layer p devs c.host (first_layer p devs c.host c.peer)
            (take c.peer.ndevs c.peer.devs))) [
              | inr f ↦ rw f (subst (λ st. IsAt st known.conn) (sym e) kept)
              | inl t ↦ rw t (
                  Ends-chain (λ _ a. IsReady a.conn) (Good c) (λ _ _. Unit)
                    (lift (connect_finish p devs c.host c.peer))
                    (λ _ a. send_ready p devs dev m rank addr size c (set_stage connected a)) known
                    (lift-Ends (λ _ a. IsReady a) (connect_finish p devs c.host c.peer) known
                      (Ends-map _ (λ _ _. Unit) (λ _ a. IsReady a) (λ _ _. Unit) _
                        (λ _ a r. (c, (came, (got, r)))) (λ _ a r. tt)
                        (connect_finish-IsEstablished p devs c.host c.peer (length m.devs) total
                          known.conn l u (mul-pos q l) kept)))
                    (λ _ a r. send_ready-Good c (set_stage connected a) refl r))
            ]

    receive-Good :
        (c : Call) (s : Stage)
        → Came c
        → s.state ≡ connecting
        → IsStriped (length m.devs) total total s.conn
        → GoodEnd c (receive p devs dev m rank addr size c s)
    unfolding receive
    receive-Good c s came e h =
        moved-Good c c.recv_meta
          (λ o. if o == size then join p devs dev m rank addr size c else pure pending) s
          (λ o e'. elim (Bool-cases (o == size)) [
            | inl t ↦ rw t (
                join-Good c (set_offset o s) came (s.offset, whole c.recv_meta s.offset o size e' t)
                  e h)
            | inr f ↦ rw f (subst (λ st. IsAt st s.conn) (sym e) h)
          ])

    send_on-Good :
        (c : Call) (s : Stage)
        → Came c
        → s.state ≡ send
        → IsStriped (length m.devs) total total s.conn
        → GoodEnd c (send_on p devs dev m rank addr size c s)
    unfolding send_on
    send_on-Good c s came e h =
        moved-Good c c.send_meta
          (λ o.
            if o == size
            then (modify (set_stage connecting) >> receive p devs dev m rank addr size c)
            else pure pending)
          s
          (λ o e'. elim (Bool-cases (o == size)) [
            | inl t ↦ rw t (receive-Good c (set_stage connecting (set_offset o s)) came refl h)
            | inr f ↦ rw f (subst (λ st. IsAt st s.conn) (sym e) h)
          ])

    check-Good :
        (c : Call) (s : Stage)
        → Came c
        → s.state ≡ connect
        → IsFresh s.conn
        → GoodEnd c (check p devs dev m rank addr size c s)
    unfolding check
    check-Good c s came e h = go c.ready
      where
        open_up : Action Stage Reply
        open_up = lift (connect_setup p devs c.host dev m rank addr) >>= λ meta.
            modify (λ s. record s { state = send; offset = 0; buffer = some meta })
            >> send_on p devs dev m rank addr size c

        set_up : GoodEnd c (open_up s)
        set_up =
            Ends-chain (λ _ a. IsStriped (length m.devs) total total a.conn) (Good c) (λ _ _. Unit)
              (lift (connect_setup p devs c.host dev m rank addr))
              (λ meta a.
                send_on p devs dev m rank addr size c
                  (record a { state = send; offset = 0; buffer = some meta }))
              s
              (lift-Ends (λ _ a. IsStriped (length m.devs) total total a)
                (connect_setup p devs c.host dev m rank addr) s
                (connect_setup-IsStriped p devs c.host dev m rank addr s.conn h))
              (λ meta a k.
                send_on-Good c (record a { state = send; offset = 0; buffer = some meta }) came refl
                  k)

        go :
            (r : Result Bool)
            → GoodEnd c ((from_result r >>= λ ready. if ready then open_up else pure pending) s)
        go (err x) = tt
        go (ok true) = set_up
        go (ok false) = subst (λ st. IsAt st s.conn) (sym e) h

    begin-Good :
        (c : Call) (s : Stage)
        → Came c
        → IsFresh (c.fresh s.conn)
        → GoodEnd c (begin p devs dev m rank addr size c s)
    unfolding begin
    begin-Good c s came h =
        let new : Stage = record s { buffer = none; conn = c.fresh s.conn } in
        let opened : Stage = record new { state = connect } in
        Ends-chain (λ _ t. t ≡ new) (Good c) (λ _ _. Unit) (nccl_check c.socket_init)
          (λ _.
            modify (λ (s : Stage). record s { state = connect })
            >> (nccl_check c.socket_connect >> check p devs dev m rank addr size c))
          new
          (Ends-map _ _ (λ _ t. t ≡ new) (λ _ _. Unit) _ (λ _ _ e. e) (λ _ _ _. tt)
            (nccl_check-same c.socket_init new))
          (λ _ t e.
            subst
              (λ x. GoodEnd c (
                (nccl_check c.socket_connect >> check p devs dev m rank addr size c)
                  (record x { state = connect })))
              (sym e)
              (Ends-chain (λ _ t. t ≡ opened) (Good c) (λ _ _. Unit) (nccl_check c.socket_connect)
                (λ _. check p devs dev m rank addr size c) opened
                (Ends-map _ _ (λ _ t. t ≡ opened) (λ _ _. Unit) _ (λ _ _ e. e) (λ _ _ _. tt)
                  (nccl_check-same c.socket_connect opened))
                (λ _ t d.
                  subst (λ x. GoodEnd c (check p devs dev m rank addr size c x)) (sym d)
                    (check-Good c opened came refl h))))

    resume-Good :
        (st : CommState) (c : Call) (s : Stage)
        → Came c
        → s.state ≡ st
        → IsFresh (c.fresh s.conn)
        → IsAt st s.conn
        → GoodEnd c (resume p devs dev m rank addr size st c s)
    unfolding resume
    resume-Good start c s came e f h = begin-Good c s came f
    resume-Good connect c s came e f h = check-Good c s came e h
    resume-Good send c s came e f h = send_on-Good c s came e h
    resume-Good connecting c s came e f h = receive-Good c s came e h
    resume-Good connected c s came e f h = send_ready-Good c s e h
    resume-Good accept c s came e f h = subst (λ x. IsAt x s.conn) (sym e) tt
    resume-Good recv c s came e f h = subst (λ x. IsAt x s.conn) (sym e) tt
    resume-Good pending_ready c s came e f h = subst (λ x. IsAt x s.conn) (sym e) tt

    leave-Ends :
        (c : Call) (out : Result Reply × Stage)
        → GoodEnd c out
        → Ends
            (λ b t. (b ≡ true → IsReady t.conn × SendsFlag c) × IsStage t)
            (λ _ t. IsStage t)
            (leave p devs dev m rank addr size out)
    unfolding leave
    leave-Ends c (ok pending, s) h = (λ e. absurd (ground arith), h)
    leave-Ends c (ok handed, s) h = (λ e. h, tt)
    leave-Ends c (ok refused, s) h = h
    leave-Ends c (err x, s) h = tt

    pub connect_call-Ends :
        (c : Call) (s : Stage)
        → Came c
        → IsFresh (c.fresh s.conn)
        → IsStage s
        → Ends
            (λ b t. (b ≡ true → IsReady t.conn × SendsFlag c) × IsStage t)
            (λ _ t. IsStage t)
            (connect_call p devs dev m rank addr size c s)
    unfolding connect_call
    connect_call-Ends c s came f h =
        leave-Ends c (resume p devs dev m rank addr size s.state c s)
          (resume-Good s.state c s came refl f h)
