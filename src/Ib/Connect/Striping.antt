-- ===== src/Ib/Connect/Striping.antt =====
-- The comm that ncclIbConnect of src/unet/unet_ib.cc hands out: its queue pairs, their devices and
-- their states.
use nccl_exts.Prelude.{
  ℕ, zero, suc, ◌+◌, ◌%◌, ◌<◌, ◌≡◌, inl, inr, refl, ap, sym, ◌∙◌, List, [], ◌∷◌, ◌++◌, arith,
  Bool-cases, Option-cases, length, get_or, le_cases, length-append, get_or-append_old,
  get_or-append_new,
}
use mathlib.Core.Path.{subst}
use nccl_exts.Prelude.Nccl.{Action, ◌>>=◌, ◌>>◌, pure, Ends, Ends-chain, Ends-map}
use nccl_exts.Ib.Request.{max_requests}
use nccl_exts.Ib.Comm.{Base, Qp, blank_qp}
use nccl_exts.Ib.Device.{Dev, Merged}
use nccl_exts.Ib.Meta.{QpInfo, DevInfo, Metadata, ConnParams}
use native.Mathlib.Nat.{mod-add-mod, zero-mod}
use nccl_exts.Ib.Connect.{
  ConnHost, Conn, init_devs, add_qp, create_qp, qp_info, create_qp_info, ask_ece, create_qps,
  publish_devs,
}
use nccl_exts.Ib.Connect.Frame.{
  Leaves, Leaves-chain, pure-Leaves, ask_ece-Leaves, init_devs-Leaves, publish_devs-Leaves,
}

-- A comm in its set-up: `n` devices, `total` queue pairs to make, and the ones made so far, which
-- number q has on device q % n.
pub record IsStriped (n total made : ℕ) (s : Conn) : Type 0 where
  pub ndevs : s.base.ndevs ≡ n
  pub nqps : s.base.nqps ≡ total
  pub reqs_length : length s.base.reqs ≡ max_requests
  pub qp_index : s.base.qp_index ≡ 0
  pub qp_count : length s.base.qps ≡ made
  pub state_count : length s.states ≡ made
  pub striped : (q : ℕ) → q < made → (get_or s.base.qps q blank_qp).dev_index ≡ q % n

module _ (p : ConnParams) (devs : List Dev) (host : ConnHost) (n total : ℕ) where
  -- What the comm's queue pairs are does not depend on the rest.
  pub keep-IsStriped :
      (made : ℕ) (s t : Conn)
      → t.base ≡ s.base
      → t.states ≡ s.states
      → IsStriped n total made s
      → IsStriped n total made t
  keep-IsStriped made s t b e h = record {
    ndevs = ap (λ (x : Base). x.ndevs) b ∙ h.ndevs;
    nqps = ap (λ (x : Base). x.nqps) b ∙ h.nqps;
    reqs_length = ap (λ (x : Base). length x.reqs) b ∙ h.reqs_length;
    qp_index = ap (λ (x : Base). x.qp_index) b ∙ h.qp_index;
    qp_count = ap (λ (x : Base). length x.qps) b ∙ h.qp_count;
    state_count = ap length e ∙ h.state_count;
    striped = λ q l. ap (λ (x : Base). (get_or x.qps q blank_qp).dev_index) b ∙ h.striped q l;
  }

  -- An action that leaves the queue pairs alone.
  pub Leaves-IsStriped :
      {A : Type 0} (m : Action Conn A) (made : ℕ) (s : Conn)
      → Leaves p devs host m
      → IsStriped n total made s
      → Ends (λ _ t. IsStriped n total made t) (λ _ _. Unit {0}) (m s)
  Leaves-IsStriped m made s h i =
      Ends-map (λ _ t. (t.base ≡ s.base) × (t.states ≡ s.states)) (λ _ _. Unit)
        (λ _ t. IsStriped n total made t) (λ _ _. Unit) (m s)
        (λ a t e. keep-IsStriped made s t e.0 e.1 i) (λ _ t u. tt) (h s)

  pub add_qp-IsStriped :
      (qpn made : ℕ) (s : Conn)
      → IsStriped n total made s
      → IsStriped n total (suc made) (add_qp p devs host qpn (made % n) s)
  unfolding add_qp
  add_qp-IsStriped qpn made s h = record {
    ndevs = h.ndevs;
    nqps = h.nqps;
    reqs_length = h.reqs_length;
    qp_index = h.qp_index;
    qp_count = omega (arith, h.qp_count, length-append s.base.qps (_ ∷ []));
    state_count = omega (arith, h.state_count, length-append s.states (_ ∷ []));
    striped = λ q l. elim (le_cases q made (omega arith)) [
      | inl same ↦
          let qp : Qp = record { qp = qpn; dev_index = made % n; rem_dev_idx = 0 } in
          ap (λ i. (get_or (s.base.qps ++ (qp ∷ [])) i blank_qp).dev_index) (same ∙ sym h.qp_count)
          ∙ (ap (λ (x : Qp). x.dev_index) (get_or-append_new s.base.qps qp blank_qp)
              ∙ ap (◌% n) (sym same))
      | inr old ↦
          ap (λ (x : Qp). x.dev_index)
            (get_or-append_old s.base.qps _ blank_qp q (omega (arith, h.qp_count)))
          ∙ h.striped q old
    ];
  }

  pub create_qp-Ends :
      (q made : ℕ) (s : Conn)
      → IsStriped n total made s
      → Ends
          (λ _ t. IsStriped n total (suc made) t)
          (λ _ _. Unit {0})
          (create_qp p devs host q (made % n) s)
  unfolding create_qp
  create_qp-Ends q made s h = elim (Option-cases (host.create_qp q)) [
    | inl e ↦ rw e tt
    | inr (qpn, e) ↦ elim (Bool-cases (host.modify_init q)) [
      | inl t ↦ rw (e, t) (add_qp-IsStriped qpn made s h)
      | inr f ↦ rw (e, f) tt
    ]
  ]

  create_qp_info-Ends :
      (made : ℕ) (s : Conn)
      → IsStriped n total made s
      → Ends
          (λ _ t. IsStriped n total (suc made) t)
          (λ _ _. Unit {0})
          (create_qp_info p devs host made (made % n) s)
  unfolding create_qp_info
  create_qp_info-Ends made s h =
      let rest : ℕ → Action Conn QpInfo =
        λ qpn. ask_ece p devs host made >>= λ ece. pure (qp_info p devs host qpn (made % n) ece) in
      let leaves : (qpn : ℕ) → Leaves p devs host (rest qpn) =
        λ qpn. search (Leaves-chain, ask_ece-Leaves, pure-Leaves) in
      Ends-chain (λ _ t. IsStriped n total (suc made) t) _ (λ _ _. Unit)
        (create_qp p devs host made (made % n)) rest s (create_qp-Ends made made s h)
        (λ qpn t k. Leaves-IsStriped (rest qpn) (suc made) t (leaves qpn) k)

  create_qps-Ends :
      (left made i : ℕ) (s : Conn)
      → i ≡ made % n
      → IsStriped n total made s
      → Ends
          (λ _ t. IsStriped n total (made + left) t)
          (λ _ _. Unit {0})
          (create_qps p devs host left made i s)
  unfolding create_qps
  create_qps-Ends zero made i s e h = subst (λ k. IsStriped n total k s) (omega arith) h
  create_qps-Ends (suc left) made i s e h =
      Ends-chain (λ _ t. IsStriped n total (suc made) t)
        (λ _ t. IsStriped n total (made + suc left) t) (λ _ _. Unit)
        (create_qp_info p devs host made i)
        (λ info (t : Conn).
          (create_qps p devs host left (suc made) ((i + 1) % t.base.ndevs) >>= λ infos.
          pure (info ∷ infos))
            t)
        s (rw e (create_qp_info-Ends made s h))
        (λ info t k.
          Ends-chain (λ _ u. IsStriped n total (made + suc left) u)
            (λ _ u. IsStriped n total (made + suc left) u) (λ _ _. Unit)
            (create_qps p devs host left (suc made) ((i + 1) % t.base.ndevs))
            (λ infos. pure (info ∷ infos)) t
            (rw (next t k) (
              subst
                (λ c.
                  Ends (λ _ u. IsStriped n total c u) (λ _ _. Unit)
                    (create_qps p devs host left (suc made) (suc made % n) t))
                (omega arith) (create_qps-Ends left (suc made) (suc made % n) t refl k)))
            (λ infos u c. c))
    where
      next : (t : Conn) → IsStriped n total (suc made) t → (i + 1) % t.base.ndevs ≡ suc made % n
      next t k = rw (k.ndevs, e) (mod-add-mod made n 1 ∙ ap (◌% n) (omega arith))

  -- The loops of connect_setup behind the counts.
  pub setup-Ends :
      (dev : ℕ) (m : Merged) (s : Conn) (f : List QpInfo → List DevInfo → Metadata)
      → IsStriped n total 0 s
      → Ends
          (λ _ t. IsStriped n total total t)
          (λ _ _. Unit {0})
          ((init_devs p devs host dev m.devs >> create_qps p devs host total 0 0 >>= λ qp_infos.
              publish_devs p devs host (length m.devs) 0 >>= λ infos. pure (f qp_infos infos))
            s)
  setup-Ends dev m s f h =
      let rest : List QpInfo → Action Conn Metadata = λ qp_infos.
        publish_devs p devs host (length m.devs) 0 >>= λ infos. pure (f qp_infos infos) in
      let leaves : (qp_infos : List QpInfo) → Leaves p devs host (rest qp_infos) =
        λ qp_infos. search (Leaves-chain, publish_devs-Leaves, pure-Leaves) in
      Ends-chain (λ _ t. IsStriped n total total t) (λ _ t. IsStriped n total total t) (λ _ _. Unit)
        (init_devs p devs host dev m.devs >> create_qps p devs host total 0 0) rest s
        (Ends-chain (λ _ t. IsStriped n total 0 t) (λ _ t. IsStriped n total total t) (λ _ _. Unit)
          (init_devs p devs host dev m.devs) (λ _. create_qps p devs host total 0 0) s
          (Leaves-IsStriped (init_devs p devs host dev m.devs) 0 s
            (init_devs-Leaves p devs host dev m.devs) h)
          (λ _ t k.
            subst
              (λ c.
                Ends (λ _ u. IsStriped n total c u) (λ _ _. Unit)
                  (create_qps p devs host total 0 0 t))
              (omega arith) (create_qps-Ends total 0 0 t (sym (zero-mod n)) k)))
        (λ qp_infos t k. Leaves-IsStriped (rest qp_infos) total t (leaves qp_infos) k)
