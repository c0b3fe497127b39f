-- ===== src/Ib/Accept/Joining.antt =====
-- The comm that ncclIbAccept of src/unet/unet_ib.cc sets up: its queue pairs, and those of the sender.
use mathlib.Core.Path.{subst}
use native.Mathlib.Nat.{mod-add-mod, mul-pos, zero-mod}
use nccl_exts.Prelude.{
  ℕ, zero, suc, ◌+◌, ◌*◌, ◌%◌, ◌≤◌, ◌<◌, ◌≡◌, inl, inr, refl, ap, sym, Bool, true, false, not, ◌&&◌,
  ◌∙◌, List, ◌∷◌, ◌==◌, arith, Bool-cases, Option-cases, length, get_or, get_or-append_old,
}
use nccl_exts.Prelude.Int.{ℤ}
use nccl_exts.Prelude.Nccl.{Action, ◌>>=◌, ◌>>◌, pure, modify, Ends, Ends-chain, Ends-map}
use nccl_exts.Ib.Comm.{Base, Qp, blank_qp}
use nccl_exts.Ib.Device.{Dev, Merged}
use nccl_exts.Ib.Meta.{QpInfo, Metadata, ConnParams, init}
use nccl_exts.Ib.Connect.{
  ConnHost, Conn, set_rem_dev, add_qp, create_qp, qp_info, ready_qp, peer_qp, peer_dev, set_counts,
}
use nccl_exts.Ib.Connect.Frame.{Leaves, Leaves-chain, pure-Leaves}
use nccl_exts.Ib.Connect.Striping.{IsStriped, keep-IsStriped, add_qp-IsStriped, Leaves-IsStriped}
use nccl_exts.Ib.Connect.Joining.{
  joined, AreJoined, joined-AreJoined, IsFresh, IsEstablished, AreJoined-IsEstablished,
}
use nccl_exts.Ib.Accept.{
  FlushHost, set_sender, set_flush, init_recv_devs, answer_ece, accept_qp, accept_qps,
  publish_recv_devs, accept_setup,
}
use nccl_exts.Ib.Accept.Frame.{
  set_sender-Leaves, set_flush-Leaves, init_recv_devs-Leaves, publish_recv_devs-Leaves,
}

-- The part of accept_qp behind the new queue pair leaves it connected.
module _ (p : ConnParams) (devs : List Dev) (host : ConnHost) (meta : Metadata) (n total : ℕ) where
  answer_ece-same :
      (q : ℕ) (info : QpInfo) (s : Conn)
      → Ends (λ _ t. t ≡ s) (λ _ _. Unit {0}) (answer_ece p devs host q info s)
  unfolding answer_ece
  answer_ece-same q info s = elim (Bool-cases info.ece_supported) [
    | inr f ↦ simp f refl
    | inl t ↦ elim (Option-cases (host.set_ece q)) [
      | inl e ↦ simp (t, e) tt
      | inr (false, e) ↦ simp (t, e) refl
      | inr (true, e) ↦ elim (Option-cases (host.query_ece q)) [
        | inl d ↦ simp (t, e, d) tt
        | inr (a, d) ↦ simp (t, e, d) refl
      ]
    ]
  ]

  -- What connecting queue pair q leaves.
  abbrev accepted : ℕ → Conn → Conn
  accepted q s = joined p devs host meta n total (q == 0) q s

  ready_qp-accepted :
      (q : ℕ) (info : QpInfo) (s : Conn)
      → Ends
          (λ _ t. t ≡ accepted q s)
          (λ _ _. Unit {0})
          ((ready_qp p devs host
                (q == 0)
                q
                (peer_qp p devs host meta q)
                (peer_dev p devs host meta q)
              >> pure info)
            (set_rem_dev q (peer_qp p devs host meta q).dev_index s))
  unfolding ready_qp joined
  ready_qp-accepted q info s = elim (Bool-cases (host.modify_rtr q)) [
    | inr f ↦ simp f tt
    | inl t ↦ elim (Bool-cases (host.modify_rts q)) [
      | inr f ↦ simp (t, f) tt
      | inl u ↦ simp (t, u) refl
    ]
  ]

  tail-accepted :
      (q : ℕ) (info : ℕ × Bool → QpInfo) (s : Conn)
      → Ends
          (λ _ t. t ≡ accepted q s)
          (λ _ _. Unit {0})
          ((modify (set_rem_dev q (peer_qp p devs host meta q).dev_index)
              >> answer_ece p devs host q (peer_qp p devs host meta q)
              >>= λ ece.
                  ready_qp p devs host
                    (q == 0)
                    q
                    (peer_qp p devs host meta q)
                    (peer_dev p devs host meta q)
                  >> pure (info ece))
            s)
  tail-accepted q info s =
      let marked = set_rem_dev q (peer_qp p devs host meta q).dev_index s in
      Ends-chain (λ _ t. t ≡ marked) (λ _ t. t ≡ accepted q s) (λ _ _. Unit)
        (answer_ece p devs host q (peer_qp p devs host meta q))
        (λ ece.
          ready_qp p devs host (q == 0) q (peer_qp p devs host meta q) (peer_dev p devs host meta q)
          >> pure (info ece))
        marked (answer_ece-same q (peer_qp p devs host meta q) marked)
        (λ ece t e.
          subst
            (λ x.
              Ends (λ _ u. u ≡ accepted q s) (λ _ _. Unit)
                ((ready_qp p devs host (q == 0) q (peer_qp p devs host meta q)
                      (peer_dev p devs host meta q)
                    >> pure (info ece))
                  x))
            (sym e) (ready_qp-accepted q (info ece) s))

  create_qp-added :
      (q i : ℕ) (s : Conn)
      → Ends
          (λ qpn t. t ≡ add_qp p devs host qpn i s)
          (λ _ _. Unit {0})
          (create_qp p devs host q i s)
  unfolding create_qp
  create_qp-added q i s = elim (Option-cases (host.create_qp q)) [
    | inl e ↦ simp e tt
    | inr (qpn, e) ↦ elim (Bool-cases (host.modify_init q)) [
      | inl t ↦ simp (e, t) refl
      | inr f ↦ simp (e, f) tt
    ]
  ]

  add_qp-AreJoined :
      (qpn made : ℕ) (s : Conn)
      → AreJoined p devs host meta n total made made s
      → AreJoined p devs host meta n total (suc made) made (add_qp p devs host qpn (made % n) s)
  unfolding AreJoined add_qp
  add_qp-AreJoined qpn made s (h, js) = (
    add_qp-IsStriped p devs host n total qpn made s h,
    λ i l.
        let (a, (e, (d, r))) = js i l in
        (
          a,
          (
            get_or-append_old s.states _ (init 0) i (omega (arith, h.state_count)) ∙ e,
            (
              d,
              ap (λ (x : Qp). x.rem_dev_idx)
                    (get_or-append_old s.base.qps _ blank_qp i (omega (arith, h.qp_count)))
                  ∙ r,
            ),
          ),
        ),
  )

  accept_qp-AreJoined :
      (made : ℕ) (s : Conn)
      → AreJoined p devs host meta n total made made s
      → Ends
          (λ _ t. AreJoined p devs host meta n total (suc made) (suc made) t)
          (λ _ _. Unit {0})
          (accept_qp p devs host meta made (made % n) s)
  unfolding accept_qp
  accept_qp-AreJoined made s h =
      Ends-chain (λ qpn t. t ≡ add_qp p devs host qpn (made % n) s)
        (λ _ t. AreJoined p devs host meta n total (suc made) (suc made) t) (λ _ _. Unit)
        (create_qp p devs host made (made % n))
        (λ qpn.
          modify (set_rem_dev made (peer_qp p devs host meta made).dev_index)
          >> answer_ece p devs host made (peer_qp p devs host meta made)
          >>= λ ece.
              ready_qp p devs host (made == 0) made (peer_qp p devs host meta made)
                (peer_dev p devs host meta made)
              >> pure (qp_info p devs host qpn (made % n) ece))
        s (create_qp-added made (made % n) s)
        (λ qpn t e.
          Ends-map (λ _ u. u ≡ accepted made t) (λ _ _. Unit) _ (λ _ _. Unit) _
            (λ _ u d. subst (AreJoined p devs host meta n total (suc made) (suc made)) (sym d) (
              joined-AreJoined p devs host meta n total (made == 0) (suc made) made t (omega arith)
                (subst (AreJoined p devs host meta n total (suc made) made) (sym e)
                  (add_qp-AreJoined qpn made s h))))
            (λ _ u d. tt) (tail-accepted made (qp_info p devs host qpn (made % n)) t))

  accept_qps-AreJoined :
      (left made i : ℕ) (s : Conn)
      → i ≡ made % n
      → AreJoined p devs host meta n total made made s
      → Ends
          (λ _ t. AreJoined p devs host meta n total (made + left) (made + left) t)
          (λ _ _. Unit {0})
          (accept_qps p devs host meta left made i s)
  unfolding accept_qps AreJoined
  accept_qps-AreJoined zero made i s e h =
      subst (λ k. AreJoined p devs host meta n total k k s) (omega arith) h
  accept_qps-AreJoined (suc left) made i s e h =
      Ends-chain (λ _ t. AreJoined p devs host meta n total (suc made) (suc made) t)
        (λ _ t. AreJoined p devs host meta n total (made + suc left) (made + suc left) t)
        (λ _ _. Unit) (accept_qp p devs host meta made i)
        (λ info (t : Conn).
          (accept_qps p devs host meta left (suc made) ((i + 1) % t.base.ndevs) >>= λ infos.
          pure (info ∷ infos))
            t)
        s (rw e (accept_qp-AreJoined made s h))
        (λ info t k.
          Ends-chain
            (λ _ u. AreJoined p devs host meta n total (made + suc left) (made + suc left) u)
            (λ _ u. AreJoined p devs host meta n total (made + suc left) (made + suc left) u)
            (λ _ _. Unit) (accept_qps p devs host meta left (suc made) ((i + 1) % t.base.ndevs))
            (λ infos. pure (info ∷ infos)) t
            (rw (next t k) (
              subst
                (λ c.
                  Ends (λ _ u. AreJoined p devs host meta n total c c u) (λ _ _. Unit)
                    (accept_qps p devs host meta left (suc made) (suc made % n) t))
                (omega arith) (accept_qps-AreJoined left (suc made) (suc made % n) t refl k)))
            (λ infos u c. c))
    where
      next :
          (t : Conn)
          → AreJoined p devs host meta n total (suc made) (suc made) t
          → (i + 1) % t.base.ndevs ≡ suc made % n
      next t k = rw (k.0.ndevs, e) (mod-add-mod made n 1 ∙ ap (◌% n) (omega arith))

  -- What leaves the queue pairs alone leaves them connected.
  Leaves-AreJoined :
      {A : Type 0} (m : Action Conn A) (made : ℕ) (s : Conn)
      → Leaves p devs host m
      → AreJoined p devs host meta n total made made s
      → Ends (λ _ t. AreJoined p devs host meta n total made made t) (λ _ _. Unit {0}) (m s)
  unfolding AreJoined
  Leaves-AreJoined m made s l (h, js) =
      Ends-map (λ _ t. (t.base ≡ s.base) × (t.states ≡ s.states)) (λ _ _. Unit)
        (λ _ t. AreJoined p devs host meta n total made made t) (λ _ _. Unit) (m s)
        (λ a t (b, st). (
          keep-IsStriped p devs host n total made s t b st h,
          λ i k.
              let (x, (e, (d, r))) = js i k in
              (
                x,
                (
                  ap (λ l. get_or l i (init 0)) st ∙ e,
                  (d, ap (λ (y : Base). (get_or y.qps i blank_qp).rem_dev_idx) b ∙ r),
                ),
              ),
        ))
        (λ _ t u. tt) (l s)

-- For a merged device of one or two devices and at least one queue pair per connection, when the
-- set-up part of ncclIbAccept succeeds on a comm that is still empty, with any metadata of the
-- sender, the comm is in the shape that the receive path relies on, its queue pairs go by turns to
-- its devices, and each of them is ready to send to the queue pair of the same number of the
-- sender.
pub accept-IsEstablished :
    (p : ConnParams) (devs : List Dev) (host : ConnHost) (flush : FlushHost) (m : Merged)
    (supported : Bool) (rank : ℤ) (addr : ℕ) (meta : Metadata) (s : Conn)
    → 0 < length m.devs
    → length m.devs ≤ 2
    → 0 < p.qps_per_connection
    → IsFresh s
    → Ends
        (λ _ t. IsEstablished p devs host meta t)
        (λ _ _. Unit {0})
        (accept_setup p devs host flush m supported rank addr meta s)
unfolding accept_setup set_counts AreJoined
accept-IsEstablished p devs host flush m supported rank addr meta s l u q f =
    let n = length m.devs in
    let total = p.qps_per_connection * n in
    let begin : Action Conn (Unit {0}) =
      init_recv_devs p devs host m.devs >> modify (set_sender meta) in
    let begin_leaves : Leaves p devs host begin =
      search (Leaves-chain, init_recv_devs-Leaves, set_sender-Leaves) in
    let rest : List QpInfo → Action Conn Metadata = λ qp_infos.
      modify (set_flush (supported && not p.flush_disable))
      >> publish_recv_devs p devs host flush meta n 0
      >>= λ infos. pure (record {
        qp_info = qp_infos;
        devs = infos;
        dev_name = m.dev_name;
        fifo_addr = addr;
        ndevs = n;
        rank = rank;
      }) in
    let rest_leaves : (qp_infos : List QpInfo) → Leaves p devs host (rest qp_infos) = λ qp_infos.
      search (
        Leaves-chain,
        set_flush-Leaves,
        publish_recv_devs-Leaves p devs host flush meta,
        pure-Leaves,
      ) in
    let counted : Conn = record (set_counts p devs host m s) { ar = s.ar; peer_rank = meta.rank } in
    let striped : IsStriped n total 0 counted = record {
      ndevs = refl;
      nqps = refl;
      reqs_length = f.reqs_length;
      qp_index = f.qp_index;
      qp_count = ap length f.no_qps;
      state_count = ap length f.no_states;
      striped = λ k c. absurd (omega arith);
    } in
    Ends-chain (λ _ t. AreJoined p devs host meta n total total total t) _ (λ _ _. Unit)
      (begin >> accept_qps p devs host meta total 0 0) rest counted
      (Ends-chain (λ _ t. IsStriped n total 0 t) _ (λ _ _. Unit) begin
        (λ _. accept_qps p devs host meta total 0 0) counted
        (Leaves-IsStriped p devs host n total begin 0 counted begin_leaves striped)
        (λ _ t k.
          subst
            (λ c.
              Ends (λ _ a. AreJoined p devs host meta n total c c a) (λ _ _. Unit)
                (accept_qps p devs host meta total 0 0 t))
            (omega arith)
            (accept_qps-AreJoined p devs host meta n total total 0 0 t (sym (zero-mod n))
              (k, λ j c. absurd (omega arith)))))
      (λ qp_infos t k.
        Ends-map (λ _ a. AreJoined p devs host meta n total total total a) (λ _ _. Unit) _
          (λ _ _. Unit) (rest qp_infos t)
          (λ _ a j. AreJoined-IsEstablished p devs host meta n total a l u (mul-pos q l) j)
          (λ _ a j. tt)
          (Leaves-AreJoined p devs host meta n total (rest qp_infos) total t (rest_leaves qp_infos)
            k))
