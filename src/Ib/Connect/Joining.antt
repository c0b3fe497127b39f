-- ===== src/Ib/Connect/Joining.antt =====
-- The queue pairs of the comm that ncclIbConnect of src/unet/unet_ib.cc hands out, and those of the
-- other side.
use mathlib.Core.Path.{subst}
use nccl_exts.Prelude.{
  ℕ, zero, suc, ◌+◌, ◌*◌, ◌%◌, ◌≤◌, ◌<◌, ◌≡◌, ◌≢◌, inl, inr, refl, ap, sym, Bool, ◌∙◌, false, List,
  [], arith, Bool-cases, Option-cases, length, get_or, set, le_cases, All-from_get_or, length-set,
  get_or-set_self, get_or-set_ne, get_or-set_cases,
}
use nccl_exts.Prelude.Nccl.{◌>>◌, modify, Ends, Ends-chain, Ends-map}
use nccl_exts.Ib.Comm.{Qp, blank_qp, IsConnected}
use nccl_exts.Ib.Request.{max_requests}
use nccl_exts.Ib.Device.{Dev, Merged}
use nccl_exts.Ib.Meta.{
  blank_qp_info, blank_dev_info, Metadata, ConnParams, init, rtr, rts, RtrAttr, rtr_attr, rts_attr,
  to_rts,
}
use nccl_exts.Ib.Connect.{
  ConnHost, Conn, set_rem_dev, give_ece, sgid_index_at, receive_state, send_state, ready_qp,
  peer_qp, peer_dev, join_qp, join_qps, take_remote, set_counts, connect_setup, connect_finish,
}
use nccl_exts.Ib.Connect.Towards.{IsTowards, rtr_attr-IsTowards}
use nccl_exts.Ib.Connect.Frame.{take_remote-Leaves}
use nccl_exts.Ib.Connect.Striping.{IsStriped, Leaves-IsStriped, keep-IsStriped, setup-Ends}
use nccl_exts.Prelude.Int.{ℤ}
use native.Mathlib.Nat.{mod-lt, mul-pos}

-- Queue pair q is ready to send, to the queue pair of the same number of the other side, on the device
-- that the other side says.
abbrev pub IsJoined : ConnParams → List Dev → ConnHost → Metadata → ℕ → Conn → Type 0
IsJoined p devs host meta q s =
    (a : RtrAttr) × ((get_or s.states q (init 0) ≡ rts a (rts_attr p))
      × ((let qp = get_or meta.qp_info q blank_qp_info in
            IsTowards p qp (get_or meta.devs qp.dev_index blank_dev_info) a)
          × ((get_or s.base.qps q blank_qp).rem_dev_idx
              ≡ (get_or meta.qp_info q blank_qp_info).dev_index)))

module _ (p : ConnParams) (devs : List Dev) (host : ConnHost) (meta : Metadata) (n total : ℕ) where
  -- What connecting queue pair q leaves.
  unfoldable pub joined : Bool → ℕ → Conn → Conn
  joined override_tc q s = send_state p devs host q (
      receive_state p devs host override_tc q (peer_qp p devs host meta q)
        (peer_dev p devs host meta q) (set_rem_dev q (peer_qp p devs host meta q).dev_index s))

  join_qp-joined :
      (q : ℕ) (s : Conn)
      → Ends (λ _ t. t ≡ joined false q s) (λ _ _. Unit {0}) (join_qp p devs host meta q s)
  unfolding join_qp joined give_ece ready_qp
  join_qp-joined q s = elim (Bool-cases (peer_qp p devs host meta q).ece_supported) [
    | inl t ↦ elim (Option-cases (host.set_ece q)) [
      | inl e ↦ simp (t, e) tt
      | inr (b, e) ↦ simp (t, e) (ready q)
    ]
    | inr f ↦ simp f (ready q)
  ]
    where
      ready :
          (q : ℕ)
          → Ends
              (λ _ t. t ≡ joined false q s)
              (λ _ _. Unit {0})
              (ready_qp p devs host false q
                (peer_qp p devs host meta q)
                (peer_dev p devs host meta q)
                (set_rem_dev q (peer_qp p devs host meta q).dev_index s))
      ready q = elim (Bool-cases (host.modify_rtr q)) [
        | inr f ↦ simp f tt
        | inl t ↦ elim (Bool-cases (host.modify_rts q)) [
          | inr f ↦ simp (t, f) tt
          | inl u ↦ simp (t, u) refl
        ]
      ]

  joined-IsStriped :
      (override_tc : Bool) (made q : ℕ) (s : Conn)
      → IsStriped n total made s
      → IsStriped n total made (joined override_tc q s)
  unfolding joined send_state receive_state set_rem_dev
  joined-IsStriped override_tc made q s h = record {
    ndevs = h.ndevs;
    nqps = h.nqps;
    reqs_length = h.reqs_length;
    qp_index = h.qp_index;
    qp_count = length-set s.base.qps q _ ∙ h.qp_count;
    state_count = length-set _ q _ ∙ (length-set s.states q _ ∙ h.state_count);
    striped = λ i l. elim (get_or-set_cases s.base.qps q i _ blank_qp) [
      | inl same ↦ ap (λ (x : Qp). x.dev_index) same ∙ h.striped i l
      | inr (e, new) ↦
          ap (λ (x : Qp). x.dev_index) new
          ∙ (ap (λ j. (get_or s.base.qps j blank_qp).dev_index) e ∙ h.striped i l)
    ];
  }

  joined-IsJoined :
      (override_tc : Bool) (made q : ℕ) (s : Conn)
      → q < made
      → IsStriped n total made s
      → IsJoined p devs host meta q (joined override_tc q s)
  unfolding joined send_state receive_state set_rem_dev rtr_attr
  joined-IsJoined override_tc made q s l h =
      let peer = peer_qp p devs host meta q in
      let before = set_rem_dev q peer.dev_index s in
      let a =
        rtr_attr p (sgid_index_at p devs host before q) peer.qpn (peer_dev p devs host meta q)
          override_tc in
      let received = set s.states q (rtr a) in
      (
        a,
        (
          get_or-set_self received q (to_rts p (get_or received q (init 0))) (init 0)
                (omega (arith, h.state_count, length-set s.states q (rtr a)))
              ∙ ap (to_rts p)
                  (get_or-set_self s.states q (rtr a) (init 0) (omega (arith, h.state_count))),
          (
            rtr_attr-IsTowards p (sgid_index_at p devs host before q) peer
                (peer_dev p devs host meta q) override_tc,
            ap (λ (x : Qp). x.rem_dev_idx)
                (get_or-set_self s.base.qps q _ blank_qp (omega (arith, h.qp_count))),
          ),
        ),
      )

  joined-old :
      (override_tc : Bool) (q i : ℕ) (s : Conn)
      → i < q
      → IsJoined p devs host meta i s
      → IsJoined p devs host meta i (joined override_tc q s)
  unfolding joined send_state receive_state set_rem_dev
  joined-old override_tc q i s l (a, (e, (d, r))) =
      let other : q ≢ i = λ c. absurd (omega arith) in
      (
        a,
        (
          get_or-set_ne _ q i _ (init 0) other ∙ (get_or-set_ne s.states q i _ (init 0) other ∙ e),
          (d, ap (λ (x : Qp). x.rem_dev_idx) (get_or-set_ne s.base.qps q i _ blank_qp other) ∙ r),
        ),
      )

  -- The first q queue pairs are connected.
  unfoldable pub AreJoined : ℕ → ℕ → Conn → Type 0
  AreJoined made q s = IsStriped n total made s × ((i : ℕ) → i < q → IsJoined p devs host meta i s)

  pub joined-AreJoined :
      (override_tc : Bool) (made q : ℕ) (s : Conn)
      → q < made
      → AreJoined made q s
      → AreJoined made (suc q) (joined override_tc q s)
  unfolding AreJoined
  joined-AreJoined override_tc made q s l (h, js) = (
    joined-IsStriped override_tc made q s h,
    λ i m. elim (le_cases i q (omega arith)) [
      | inl same ↦ rw same (joined-IsJoined override_tc made q s l h)
      | inr old ↦ joined-old override_tc q i s old (js i old)
    ],
  )

  join_qps-AreJoined :
      (left q : ℕ) (s : Conn)
      → q + left ≡ total
      → AreJoined total q s
      → Ends (λ _ t. AreJoined total total t) (λ _ _. Unit {0}) (join_qps p devs host meta left q s)
  unfolding join_qps
  join_qps-AreJoined zero q s e h = subst (λ k. AreJoined total k s) (omega (arith, e)) h
  join_qps-AreJoined (suc left) q s e h =
      Ends-chain (λ _ t. t ≡ joined false q s) (λ _ t. AreJoined total total t) (λ _ _. Unit)
        (join_qp p devs host meta q) (λ _. join_qps p devs host meta left (suc q)) s
        (join_qp-joined q s)
        (λ _ t same. join_qps-AreJoined left (suc q) t (omega (arith, e)) (
          subst (AreJoined total (suc q)) (sym same)
            (joined-AreJoined false total q s (omega (arith, e)) h)))

-- NCCL_IB_MAX_QPS: the arrays of queue pairs end here.
abbrev pub max_qps : ℕ
max_qps = 128

-- A comm before its set-up: no queue pair, and a full request table.
pub record IsFresh (s : Conn) : Type 0 where
  pub no_qps : s.base.qps ≡ []
  pub no_states : s.states ≡ []
  pub reqs_length : length s.base.reqs ≡ max_requests
  pub qp_index : s.base.qp_index ≡ 0

-- A comm that is handed out: in shape for sends and receives, its queue pairs by turns on its devices,
-- and each of them ready to send to the other side's.
pub record IsEstablished (p : ConnParams) (devs : List Dev) (host : ConnHost) (meta : Metadata)
    (s : Conn) : Type 0 where
  pub connected : IsConnected s.base
  pub by_turns :
      (q : ℕ) → q < s.base.nqps → (get_or s.base.qps q blank_qp).dev_index ≡ q % s.base.ndevs
  pub joined_qps : (q : ℕ) → q < s.base.nqps → IsJoined p devs host meta q s

-- The mark of a ready comm changes none of that.
pub marked-IsEstablished :
    (p : ConnParams) (devs : List Dev) (host : ConnHost) (meta : Metadata) (r : ℕ) (s : Conn)
    → IsEstablished p devs host meta s
    → IsEstablished p devs host meta (record s { base = record s.base { ready = r } })
marked-IsEstablished p devs host meta r s e = record {
  connected = record {
    has_devices = e.connected.has_devices;
    few_devices = e.connected.few_devices;
    has_qps = e.connected.has_qps;
    in_range = e.connected.in_range;
    qps_length = e.connected.qps_length;
    reqs_length = e.connected.reqs_length;
    on_devices = e.connected.on_devices;
  };
  by_turns = e.by_turns;
  joined_qps = e.joined_qps;
}

module _ (p : ConnParams) (devs : List Dev) (host : ConnHost) (meta : Metadata) (n total : ℕ) where
  pub AreJoined-IsEstablished :
      (s : Conn)
      → 0 < n
      → n ≤ 2
      → 0 < total
      → AreJoined p devs host meta n total total total s
      → IsEstablished p devs host meta s
  unfolding AreJoined
  AreJoined-IsEstablished s l u t (h, js) = record {
    connected = record {
      has_devices = omega (arith, h.ndevs);
      few_devices = omega (arith, h.ndevs);
      has_qps = omega (arith, h.nqps);
      in_range = omega (arith, h.nqps, h.qp_index);
      qps_length = h.qp_count ∙ sym h.nqps;
      reqs_length = h.reqs_length;
      on_devices =
          All-from_get_or (λ (q : Qp). q.dev_index < s.base.ndevs) s.base.qps blank_qp
            (λ i m. rw (h.striped i (omega (arith, h.qp_count)), h.ndevs) (mod-lt i l));
    };
    by_turns = λ q m. rw h.ndevs (h.striped q (omega (arith, h.nqps)));
    joined_qps = λ q m. js q (omega (arith, h.nqps));
  }

  pub connect_finish-IsEstablished :
      (s : Conn)
      → 0 < n
      → n ≤ 2
      → 0 < total
      → IsStriped n total total s
      → Ends
          (λ _ t. (t.base.ready ≡ 1) × IsEstablished p devs host meta t)
          (λ _ _. Unit {0})
          (connect_finish p devs host meta s)
  unfolding connect_finish AreJoined
  connect_finish-IsEstablished s l u t h =
      Ends-chain (λ _ a. IsStriped n total total a)
        (λ _ t. (t.base.ready ≡ 1) × IsEstablished p devs host meta t) (λ _ _. Unit)
        (modify (λ (s : Conn). record s { peer_rank = meta.rank }) >> take_remote p devs host meta)
        (λ _ a.
          (join_qps p devs host meta a.base.nqps 0
              >> modify (λ (s : Conn). record s { base = record s.base { ready = 1 } }))
            a)
        s
        (Leaves-IsStriped p devs host n total (take_remote p devs host meta) total
          (record s { peer_rank = meta.rank }) (take_remote-Leaves p devs host meta)
          (keep-IsStriped p devs host n total total s (record s { peer_rank = meta.rank }) refl refl
            h))
        (λ _ a k.
          Ends-chain (λ _ b. AreJoined p devs host meta n total total total b) _ (λ _ _. Unit)
            (join_qps p devs host meta a.base.nqps 0)
            (λ _. modify (λ (s : Conn). record s { base = record s.base { ready = 1 } })) a
            (join_qps-AreJoined p devs host meta n total a.base.nqps 0 a (omega (arith, k.nqps))
              (first a k))
            (λ _ b j. (
              refl,
              marked-IsEstablished p devs host meta 1 b (AreJoined-IsEstablished b l u t j),
            )))
    where
      first : (a : Conn) → IsStriped n total total a → AreJoined p devs host meta n total total 0 a
      first a k = (k, λ i m. absurd (omega arith))

-- Behind the first part.
pub connect_setup-IsStriped :
    (p : ConnParams) (devs : List Dev) (host : ConnHost) (dev : ℕ) (m : Merged) (rank : ℤ)
    (addr : ℕ) (s : Conn)
    → IsFresh s
    → Ends
        (λ _ t.
          IsStriped
            (length m.devs)
            (p.qps_per_connection * length m.devs)
            (p.qps_per_connection * length m.devs)
            t)
        (λ _ _. Unit {0})
        (connect_setup p devs host dev m rank addr s)
unfolding connect_setup set_counts
connect_setup-IsStriped p devs host dev m rank addr s f =
    let n = length m.devs in
    let total = p.qps_per_connection * n in
    setup-Ends p devs host n total dev m (set_counts p devs host m s)
      (λ qp_infos infos. record {
        qp_info = qp_infos;
        devs = infos;
        dev_name = m.dev_name;
        fifo_addr = addr;
        ndevs = n;
        rank = rank;
      })
      (record {
        ndevs = refl;
        nqps = refl;
        reqs_length = f.reqs_length;
        qp_index = f.qp_index;
        qp_count = ap length f.no_qps;
        state_count = ap length f.no_states;
        striped = λ q l. absurd (omega arith);
      })

-- For a merged device of one or two devices, at least one queue pair per connection and no more
-- than 128 in all, and metadata of the other side with two devices at most, when the two parts of
-- ncclIbConnect succeed, the comm is in the shape that the send and receive paths rely on and
-- marked ready, and its queue pairs go by turns to its devices. Each of them is ready to send to
-- the queue pair of the same number of the other side, on the device that the metadata say for it,
-- with the MTU, lid, port and, where there is one, global route of that device and the service
-- level asked for.
pub connect-IsEstablished :
    (p : ConnParams) (devs : List Dev) (host : ConnHost) (dev : ℕ) (m : Merged) (rank : ℤ)
    (addr : ℕ) (meta : Metadata) (s : Conn)
    → 0 < length m.devs
    → length m.devs ≤ 2
    → 0 < p.qps_per_connection
    → p.qps_per_connection * length m.devs ≤ max_qps
    → meta.ndevs ≤ 2
    → IsFresh s
    → Ends
        (λ mine t.
          Ends
            (λ _ u. (u.base.ready ≡ 1) × IsEstablished p devs host meta u)
            (λ _ _. Unit {0})
            (connect_finish p devs host meta t))
        (λ _ _. Unit {0})
        (connect_setup p devs host dev m rank addr s)
connect-IsEstablished p devs host dev m rank addr meta s l u q few_qps few_devs f =
    let n = length m.devs in
    let total = p.qps_per_connection * n in
    Ends-map (λ _ t. IsStriped n total total t) (λ _ _. Unit) _ (λ _ _. Unit)
      (connect_setup p devs host dev m rank addr s)
      (λ mine t h. connect_finish-IsEstablished p devs host meta n total t l u (mul-pos q l) h)
      (λ e t h. tt) (connect_setup-IsStriped p devs host dev m rank addr s f)
