-- ===== src/Ib/Stage/Handing.antt =====
-- Over any calls of ncclIbConnect of src/unet/unet_ib.cc, a comm is handed out only when it is ready.
use mathlib.Core.Path.{subst}
use nccl_exts.Prelude.{
  ℕ, ◌*◌, ◌≤◌, ◌<◌, ◌≡◌, ◌⊎◌, inl, inr, refl, sym, Bool, true, List, [], ◌∷◌, length,
}
use nccl_exts.Prelude.Int.{ℤ}
use nccl_exts.Prelude.Nccl.{Result, ok, err, Ends}
use nccl_exts.Ib.Device.{Dev, Merged}
use nccl_exts.Ib.Meta.{ConnParams}
use nccl_exts.Ib.Connect.Joining.{IsFresh, max_qps}
use nccl_exts.Ib.Connect.{Conn}
use nccl_exts.Ib.Stage.{
  CommState, start, connect, accept, send, recv, connecting, connected, pending_ready, Stage, Call,
  connect_call,
}
use nccl_exts.Ib.Stage.Steps.{IsReady, IsStage, IsAt, SendsFlag, connect_call-Ends}

-- The call is one of those made.
abbrev pub Among : List Call → Call → Type 0
Among [] k = ⊥
Among (c ∷ cs) k = (k ≡ c) ⊎ Among cs k

module _ (p : ConnParams) (devs : List Dev) (dev : ℕ) (m : Merged) (rank : ℤ) (addr size : ℕ) where
  -- The stages that calls of ncclIbConnect lead to, the last one first, from any stage at the start. The
  -- comm that a call allocates is zeroed, and the other side has two devices at most.
  pub data Reachable : List Call → Stage → Type 0 where
    begun : (s : Stage) → s.state ≡ start → Reachable [] s
    called :
        {cs : List Call} {s : Stage} (c : Call)
        → IsFresh (c.fresh s.conn)
        → c.peer.ndevs ≤ 2
        → Reachable cs s
        → Reachable (c ∷ cs) (connect_call p devs dev m rank addr size c s).1

  -- What holds by some calls holds by more.
  IsReady-more :
      (c : Call) (cs : List Call) (x : Conn)
      → IsReady p devs dev m rank addr size (Among cs) x
      → IsReady p devs dev m rank addr size (Among (c ∷ cs)) x
  IsReady-more c cs x (k, (a, h)) = (k, (inr a, h))

  IsAt-more :
      (c : Call) (cs : List Call) (st : CommState) (x : Conn)
      → IsAt p devs dev m rank addr size (Among cs) st x
      → IsAt p devs dev m rank addr size (Among (c ∷ cs)) st x
  IsAt-more c cs connect x h = h
  IsAt-more c cs send x h = h
  IsAt-more c cs connecting x h = h
  IsAt-more c cs connected x h = IsReady-more c cs x h
  IsAt-more c cs start x h = tt
  IsAt-more c cs accept x h = tt
  IsAt-more c cs recv x h = tt
  IsAt-more c cs pending_ready x h = tt

-- Whatever holds at both ends holds of the state.
after_Ends :
    {S A : Type 0} (P : S → Type 0) (Q : A → S → Type 0) (out : Result A × S)
    → Ends (λ a t. Q a t × P t) (λ _ t. P t) out
    → P out.1
after_Ends P Q (ok a, s) h = h.1
after_Ends P Q (err e, s) h = h

module _ (p : ConnParams) (devs : List Dev) (dev : ℕ) (m : Merged) (rank : ℤ) (addr size : ℕ) where
  -- What a call comes to, behind the calls `cs` that came before it.
  abbrev pub Hands : List Call → Call → Result Bool × Stage → Type 0
  Hands cs c out =
      Ends
        (λ handed t.
          (handed ≡ true
            → IsReady p devs dev m rank addr size (Among (c ∷ cs)) t.conn
              × SendsFlag p devs dev m rank addr size (Among (c ∷ cs)) c)
          × IsStage p devs dev m rank addr size (Among (c ∷ cs)) t)
        (λ _ t. IsStage p devs dev m rank addr size (Among (c ∷ cs)) t) out

  module _ (l : 0 < length m.devs) (u : length m.devs ≤ 2) (q : 0 < p.qps_per_connection) where
    connect_call-Hands :
        (cs : List Call) (c : Call) (s : Stage)
        → IsFresh (c.fresh s.conn)
        → IsStage p devs dev m rank addr size (Among cs) s
        → Hands cs c (connect_call p devs dev m rank addr size c s)
    connect_call-Hands cs c s f h =
        connect_call-Ends p devs dev m rank addr size (Among (c ∷ cs)) l u q c s (inl refl) f
          (IsAt-more p devs dev m rank addr size c cs s.state s.conn h)

    Reachable-IsStage :
        (cs : List Call) (s : Stage)
        → Reachable p devs dev m rank addr size cs s
        → IsStage p devs dev m rank addr size (Among cs) s
    Reachable-IsStage _ _ (begun s e) =
        subst (λ st. IsAt p devs dev m rank addr size (Among []) st s.conn) (sym e) tt
    Reachable-IsStage _ _ (called {cs = cs} {s = t} c f few r) =
        after_Ends (IsStage p devs dev m rank addr size (Among (c ∷ cs))) _
          (connect_call p devs dev m rank addr size c t)
          (connect_call-Hands cs c t f (Reachable-IsStage cs t r))

  -- For a merged device of one or two devices, at least one queue pair per connection and no more
  -- than 128 in all, after any calls of ncclIbConnect on a handle that was at its start, a call
  -- hands out a comm only when the comm is marked ready, one of the calls up to this one has
  -- received all of the other side's metadata and the queue pairs are established with those of
  -- these metadata, and this call has sent the ready flag to its end. However the call ends, it
  -- leaves a stage whose comm is as its state says. The comm that a call allocates is zeroed, and
  -- the other side has two devices at most.
  pub connect_call-IsReady :
      (cs : List Call) (c : Call) (s : Stage)
      → 0 < length m.devs
      → length m.devs ≤ 2
      → 0 < p.qps_per_connection
      → p.qps_per_connection * length m.devs ≤ max_qps
      → c.peer.ndevs ≤ 2
      → IsFresh (c.fresh s.conn)
      → Reachable p devs dev m rank addr size cs s
      → Hands cs c (connect_call p devs dev m rank addr size c s)
  connect_call-IsReady cs c s l u q few_qps few_devs f r =
      connect_call-Hands l u q cs c s f (Reachable-IsStage l u q cs s r)
