-- ===== src/Ib/Close/Users.antt =====
-- What closing a comm of src/unet/unet_ib.cc gives back of the protection domains.
use mathlib.Core.Path.{subst}
use nccl_exts.Prelude.{
  ℕ, suc, ◌+◌, ◌^◌, ◌<◌, ◌≡◌, refl, sym, Bool, true, false, not, Bool-cases, inl, inr, List, [],
  ◌∷◌, Option, none, some, length, get_or, set, arith, ◌==◌, ==_iff, if◌then◌else◌, length-set,
  get_or-set_self, get_or-set_ne,
}
use nccl_exts.Prelude.Nccl.{
  NcclResult, system_error, Result, ok, err, Action, ◌>>=◌, pure, gets, modify, fail_if, nccl_check,
  nccl_check-same, Ends, Ends-chain, Ends-map,
}
use nccl_exts.Ib.Comm.{Qp}
use nccl_exts.Ib.Pd.{DevPd, DevBase}
use nccl_exts.Ib.Pd.Counts.{IsCounted, destroy_base-Ends}
use nccl_exts.Ib.Connect.{Conn, blank_pd}
use nccl_exts.Ib.Close.{
  CloseHost, count_down, take_destroyed, destroy_qps, dereg, destroy_dev, nth, close_send_devs,
  close_send, close_flush, close_recv_devs, close_recv,
}

-- How many of the devices of a comm are IB device n.
abbrev pub uses : ℕ → List DevBase → ℕ
uses n [] = 0
uses n (b ∷ bases) = (if b.ib_dev_n == n then 1 else 0) + uses n bases

-- Each IB device's domain has `others n` users besides the devices `bases` of the comm.
pub record AreUsed (others : ℕ → ℕ) (bases : List DevBase) (s : Conn) : Type 0 where
  pub counted :
      (n : ℕ) → n < length s.pds → IsCounted (others n + uses n bases) (get_or s.pds n blank_pd)
  pub in_range : (n : ℕ) → others n + uses n bases < 2 ^ 31

-- The devices of the list are in the table.
abbrev pub AreKnown : List DevBase → Conn → Type 0
AreKnown bases s = (n : ℕ) → 0 < uses n bases → n < length s.pds

module _ (host : CloseHost) (others : ℕ → ℕ) where
  -- What holds between two steps: `bases` are left to be destroyed.
  abbrev Holds : List DevBase → Conn → Type 0
  Holds bases s = AreUsed others bases s × AreKnown bases s

  -- A step that leaves the domains as they are.
  abbrev Spares : {A : Type 0} → Action Conn A → Type 0
  Spares m =
      (bases : List DevBase) (s : Conn)
      → Holds bases s
      → Ends (λ _ t. Holds bases t) (λ _ _. Unit {0}) (m s)

  abbrev Destroys : List DevBase → Action Conn (Unit {0}) → Type 0
  Destroys bases m = (s : Conn) → Holds bases s → Ends (λ _ t. Holds [] t) (λ _ _. Unit {0}) (m s)

  fail_if-Spares : (b : Bool) (e : NcclResult) → Spares (fail_if b e)
  fail_if-Spares true e bases s h = tt
  fail_if-Spares false e bases s h = h

  dereg-Spares : (key : Option ℕ) → Spares (dereg host key)
  unfolding dereg
  dereg-Spares none bases s h = h
  dereg-Spares (some key) bases s h =
      fail_if-Spares (not (host.dereg_mr key)) system_error bases s h

  count_down-Spares : Spares (modify count_down)
  unfolding count_down
  count_down-Spares bases s (u, k) = (record { counted = u.counted; in_range = u.in_range }, k)

  nccl_check-Spares : (r : NcclResult) → Spares (nccl_check r)
  nccl_check-Spares r bases s h =
      Ends-map _ _ (λ _ t. Holds bases t) (λ _ _. Unit) _ (λ _ t e. subst (Holds bases) (sym e) h)
        (λ _ _ _. tt) (nccl_check-same r s)

  Spares-chain :
      {A B : Type 0} (m : Action Conn A) (f : A → Action Conn B)
      → Spares m
      → ((a : A) → Spares (f a))
      → Spares (m >>= f)
  Spares-chain m f hm hf bases s h =
      Ends-chain (λ _ t. Holds bases t) _ (λ _ _. Unit) m f s (hm bases s h) (λ a t. hf a bases t)

  Spares-Destroys :
      {A : Type 0} (bases : List DevBase) (m : Action Conn A) (f : A → Action Conn (Unit {0}))
      → Spares m
      → ((a : A) → Destroys bases (f a))
      → Destroys bases (m >>= f)
  Spares-Destroys bases m f hm hf s h =
      Ends-chain (λ _ t. Holds bases t) _ (λ _ _. Unit) m f s (hm bases s h) hf

  destroy_qps-Spares : (qps : List Qp) → Spares (destroy_qps host qps)
  unfolding destroy_qps
  destroy_qps-Spares [] bases s h = h
  destroy_qps-Spares (q ∷ qps) bases s h =
      Spares-chain (fail_if (not (host.destroy_qp q.qp)) system_error) _
        (fail_if-Spares (not (host.destroy_qp q.qp)) system_error)
        (λ _. Spares-chain (modify count_down) _ count_down-Spares (λ _. destroy_qps-Spares qps))
        bases s h

  take_destroyed-Holds :
      (b : DevBase) (bases : List DevBase) (s : Conn) (out : Result (Unit {0}) × DevPd)
      → Holds (b ∷ bases) s
      → Ends (λ _ d. IsCounted (others b.ib_dev_n + uses b.ib_dev_n bases) d) (λ _ _. Unit {0}) out
      → Ends (λ _ t. Holds bases t) (λ _ _. Unit {0}) (take_destroyed b.ib_dev_n out s)
  unfolding take_destroyed
  take_destroyed-Holds b bases s (err e, d) h c = tt
  take_destroyed-Holds b bases s (ok done, d) (u, k) c =
      let len = length-set s.pds b.ib_dev_n d in
      (
        record {
          counted = λ n l. elim (Bool-cases (b.ib_dev_n == n)) [
            | inl t ↦
                let same : b.ib_dev_n ≡ n = (==_iff b.ib_dev_n n).0 t in
                subst
                  (λ j.
                    IsCounted (others j + uses j bases)
                      (get_or (set s.pds b.ib_dev_n d) j blank_pd))
                  same
                  (subst (IsCounted (others b.ib_dev_n + uses b.ib_dev_n bases))
                    (sym
                      (get_or-set_self s.pds b.ib_dev_n d blank_pd (omega (arith, len, l, same))))
                    c)
            | inr f ↦
                subst (IsCounted (others n + uses n bases))
                  (sym (
                    get_or-set_ne s.pds b.ib_dev_n n d blank_pd
                      (λ e. absurd (ground (arith, e, f)))))
                  (subst (λ c. IsCounted c (get_or s.pds n blank_pd)) (rw f (omega arith))
                    (u.counted n (omega (arith, len, l))))
          ];
          in_range = λ n. let r = u.in_range n in omega (arith, r);
        },
        λ n p. let l = k n (omega (arith, p)) in omega (arith, len, l),
      )

  destroy_dev-Holds :
      (b : DevBase) (bases : List DevBase) (s : Conn)
      → Holds (b ∷ bases) s
      → Ends (λ _ t. Holds bases t) (λ _ _. Unit {0}) (destroy_dev host b s)
  unfolding destroy_dev
  destroy_dev-Holds b bases s (u, k) =
      let n = b.ib_dev_n in
      let self : (n == n) ≡ true = (==_iff n n).1 refl in
      let one : others n + uses n (b ∷ bases) ≡ suc (others n + uses n bases) =
        rw self (omega arith) in
      let before : IsCounted (suc (others n + uses n bases)) (get_or s.pds n blank_pd) =
        subst (λ c. IsCounted c (get_or s.pds n blank_pd)) one
          (u.counted n (k n (rw self (omega arith)))) in
      let r = u.in_range n in
      take_destroyed-Holds b bases s _ (u, k)
        (Ends-map _ _ (λ _ d. IsCounted (others n + uses n bases) d) (λ _ _. Unit) _ (λ _ _ c. c)
          (λ _ _ _. tt)
          (destroy_base-Ends (others n + uses n bases) (host.destroy_cq n) (host.dealloc_pd n)
            (record (get_or s.pds n blank_pd) { stat = s.stat }) (omega (arith, one, r))
            (record {
              refs = before.refs;
              has_pd = before.has_pd;
              one_domain = before.one_domain;
            })))

  close_send_devs-Destroys :
      (bases : List DevBase) (i : ℕ) → Destroys bases (close_send_devs host bases i)
  unfolding close_send_devs
  close_send_devs-Destroys [] i s h = h
  close_send_devs-Destroys (b ∷ bases) i s h =
      Spares-Destroys (b ∷ bases) (gets (λ (c : Conn). nth host c.fifo_keys i)) _ (λ _ _ k. k)
        (λ fifo. Spares-Destroys (b ∷ bases) (dereg host fifo) _ (dereg-Spares fifo) (λ _.
          Spares-Destroys (b ∷ bases) (gets (λ (c : Conn). nth host c.sizes_keys i)) _ (λ _ _ k. k)
            (λ sizes.
              Spares-Destroys (b ∷ bases) (dereg host sizes) _ (dereg-Spares sizes) (λ _ t k.
                Ends-chain (λ _ a. Holds bases a) _ (λ _ _. Unit) (destroy_dev host b)
                  (λ _. close_send_devs host bases (suc i)) t (destroy_dev-Holds b bases t k)
                  (λ _. close_send_devs-Destroys bases (suc i))))))
        s h

  close_flush-Spares : (i : ℕ) → Spares (close_flush host i)
  unfolding close_flush
  close_flush-Spares i =
      Spares-chain (fail_if (not (host.destroy_flush i)) system_error) _
        (fail_if-Spares (not (host.destroy_flush i)) system_error)
        (λ _. Spares-chain (modify count_down) _ count_down-Spares (λ _.
          Spares-chain (gets (λ (c : Conn). nth host c.flush_keys i)) _ (λ _ _ k. k)
            (λ key. dereg-Spares key)))

  flush_if-Spares : (i : ℕ) (b : Bool) → Spares (if b then close_flush host i else pure tt)
  flush_if-Spares i true = close_flush-Spares i
  flush_if-Spares i false = λ _ _ k. k

  close_recv_devs-Destroys :
      (bases : List DevBase) (i : ℕ) → Destroys bases (close_recv_devs host bases i)
  unfolding close_recv_devs
  close_recv_devs-Destroys [] i s h = h
  close_recv_devs-Destroys (b ∷ bases) i s h =
      Spares-Destroys (b ∷ bases) (gets (λ (c : Conn). c.flush_enabled)) _ (λ _ _ k. k)
        (λ enabled.
          Spares-Destroys (b ∷ bases) (if enabled then close_flush host i else pure tt) _
            (flush_if-Spares i enabled)
            (λ _.
              Spares-Destroys (b ∷ bases) (gets (λ (c : Conn). nth host c.fifo_keys i)) _
                (λ _ _ k. k)
                (λ fifo. Spares-Destroys (b ∷ bases) (dereg host fifo) _ (dereg-Spares fifo) (λ _.
                  Spares-Destroys (b ∷ bases) (gets (λ (c : Conn). nth host c.sizes_keys i)) _
                    (λ _ _ k. k)
                    (λ sizes.
                      Spares-Destroys (b ∷ bases) (dereg host sizes) _ (dereg-Spares sizes)
                        (λ _ t k.
                          Ends-chain (λ _ a. Holds bases a) _ (λ _ _. Unit) (destroy_dev host b)
                            (λ _. close_recv_devs host bases (suc i)) t
                            (destroy_dev-Holds b bases t k)
                            (λ _. close_recv_devs-Destroys bases (suc i))))))))
        s h

  -- The two calls start alike.
  closing-Destroys :
      (qps : List Qp) (bases : List DevBase) (rest : Action Conn (Unit {0}))
      → Destroys bases rest
      → Destroys bases (nccl_check host.socket >>= λ _. destroy_qps host qps >>= λ _. rest)
  closing-Destroys qps bases rest d =
      Spares-Destroys bases (nccl_check host.socket) _ (nccl_check-Spares host.socket)
        (λ _. Spares-Destroys bases (destroy_qps host qps) _ (destroy_qps-Spares qps) (λ _. d))

  -- When the protection domain of each IB device counts the users of other comms and once more
  -- each device of this comm on it, all of them in the table and fewer than 2 ^ 31,
  -- ncclIbCloseSend and ncclIbCloseRecv with success leave each domain counting the other users
  -- alone, so that it is freed exactly when there are none.
  pub close-AreUsed :
      (s : Conn)
      → AreUsed others s.dev_bases s
      → AreKnown s.dev_bases s
      → Ends (λ _ t. AreUsed others [] t) (λ _ _. Unit {0}) (close_send host s)
        × Ends (λ _ t. AreUsed others [] t) (λ _ _. Unit {0}) (close_recv host s)
  unfolding close_send close_recv
  close-AreUsed s u k =
      let send =
        closing-Destroys s.base.qps s.dev_bases (close_send_devs host s.dev_bases 0)
          (close_send_devs-Destroys s.dev_bases 0) s (u, k) in
      let recv =
        closing-Destroys s.base.qps s.dev_bases (close_recv_devs host s.dev_bases 0)
          (close_recv_devs-Destroys s.dev_bases 0) s (u, k) in
      (
        Ends-map _ _ (λ _ t. AreUsed others [] t) (λ _ _. Unit) _ (λ _ _ h. h.0) (λ _ _ _. tt) send,
        Ends-map _ _ (λ _ t. AreUsed others [] t) (λ _ _. Unit) _ (λ _ _ h. h.0) (λ _ _ _. tt) recv,
      )
