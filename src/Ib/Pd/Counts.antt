-- ===== src/Ib/Pd/Counts.antt =====
-- How often the protection domain of a device in src/unet/unet_ib.cc is counted.
use nccl_exts.Prelude.{
  ℕ, zero, suc, ◌+◌, ◌^◌, ◌<◌, ◌≡◌, ◌⊎◌, inl, inr, refl, ◌∙◌, Bool, true, false, Option, none, some,
  arith, ◌==◌, if◌then◌else◌,
}
use nccl_exts.Prelude.Nccl.{◌>>=◌, pure, Ends, Ends-chain, Ends-map}
use nccl_exts.Prelude.Words.{dec32}
use nccl_exts.Ib.Comm.{ib_cq_count, stat_dec}
use nccl_exts.Ib.Pd.{
  DevPd, DevBase, acquire_pd, create_cq, init_comm_dev_base, release_pd, destroy_base,
}

-- The domain of a device that `users` comms use: it is there exactly while one of them is.
pub record IsCounted (users : ℕ) (d : DevPd) : Type 0 where
  pub refs : d.pd_refs ≡ users
  pub has_pd : 0 < users → (pd : ℕ) × (d.pd ≡ some pd)
  pub one_domain : d.domains ≡ (if users == 0 then 0 else 1)

acquire_pd-Ends :
    (users : ℕ) (alloc : Option ℕ) (d : DevPd)
    → users + 1 < 2 ^ 31
    → IsCounted users d
    → Ends
        (λ pd t. IsCounted (suc users) t × (pd ≡ t.pd))
        (λ _ t. t.pd_refs ≡ suc users)
        (acquire_pd alloc d)
unfolding acquire_pd
acquire_pd-Ends zero none d l h = rw h.refs (omega (arith, h.refs))
acquire_pd-Ends zero (some pd) d l h = rw h.refs (
  record {
    refs = omega (arith, h.refs);
    has_pd = λ _. (pd, refl);
    one_domain = omega (arith, h.one_domain);
  },
  refl,
)
acquire_pd-Ends (suc users) alloc d l h =
    let used : (d.pd_refs == 0) ≡ false = ground (arith, h.refs) in
    simp used (
      record {
        refs = omega (arith, h.refs);
        has_pd = λ _. h.has_pd (omega arith);
        one_domain = ground (arith, h.one_domain);
      },
      refl,
    )

-- On a device whose protection domain is counted right, ncclIbInitCommDevBase with success hands
-- out that domain and counts one user more, the domain being allocated exactly while there is a
-- user. On a failure the count has gone up as well, without a user.
pub init_comm_dev_base-Ends :
    (users n : ℕ) (alloc cq : Option ℕ) (d : DevPd)
    → users + 1 < 2 ^ 31
    → IsCounted users d
    → Ends
        (λ base t. IsCounted (suc users) t × ((pd : ℕ) × ((base.pd ≡ some pd) × (t.pd ≡ some pd))))
        (λ _ t. t.pd_refs ≡ suc users)
        (init_comm_dev_base n alloc cq d)
unfolding init_comm_dev_base create_cq
init_comm_dev_base-Ends users n alloc cq d l h =
    Ends-chain (λ pd t. IsCounted (suc users) t × (pd ≡ t.pd)) _ (λ _ t. t.pd_refs ≡ suc users)
      (acquire_pd alloc)
      (λ pd. create_cq cq >>= λ c. pure (record { ib_dev_n = n; pd = pd; cq = c })) d
      (acquire_pd-Ends users alloc d l h) (with_cq cq)
  where
    with_cq :
        (cq : Option ℕ) (pd : Option ℕ) (t : DevPd)
        → IsCounted (suc users) t × (pd ≡ t.pd)
        → Ends
            (λ (base : DevBase) t.
              IsCounted (suc users) t × ((pd : ℕ) × ((base.pd ≡ some pd) × (t.pd ≡ some pd))))
            (λ _ t. t.pd_refs ≡ suc users)
            ((create_cq cq >>= λ c. pure (record { ib_dev_n = n; pd = pd; cq = c })) t)
    with_cq none pd t (c, e) = c.refs
    with_cq (some q) pd t (c, e) =
        let (p, has) = c.has_pd (omega arith) in
        (
          record { refs = c.refs; has_pd = c.has_pd; one_domain = c.one_domain },
          (p, (e ∙ has, has)),
        )

release_pd-Ends :
    (users : ℕ) (dealloc : Bool) (d : DevPd)
    → users + 1 < 2 ^ 31
    → IsCounted (suc users) d
    → Ends (λ _ t. IsCounted users t) (λ _ t. t.pd_refs ≡ users) (release_pd dealloc d)
unfolding release_pd
release_pd-Ends zero true d l h =
    let none_left : (dec32 d.pd_refs == 0) ≡ true = ground (arith, h.refs) in
    simp none_left (record {
      refs = omega (arith, h.refs);
      has_pd = λ p. absurd (omega arith);
      one_domain = omega (arith, h.one_domain);
    })
release_pd-Ends zero false d l h =
    let none_left : (dec32 d.pd_refs == 0) ≡ true = ground (arith, h.refs) in
    simp none_left (omega (arith, h.refs))
release_pd-Ends (suc users) dealloc d l h =
    let some_left : (dec32 d.pd_refs == 0) ≡ false = ground (arith, h.refs) in
    simp some_left (record {
      refs = omega (arith, h.refs);
      has_pd = λ p. h.has_pd (omega arith);
      one_domain = ground (arith, h.one_domain);
    })

-- On a device whose protection domain is counted right and has a user, ncclIbDestroyBase with
-- success leaves it counted right with one user less, so that the last user frees the domain. When
-- it fails, either nothing has changed, or the count is one less.
pub destroy_base-Ends :
    (users : ℕ) (destroy dealloc : Bool) (d : DevPd)
    → users + 1 < 2 ^ 31
    → IsCounted (suc users) d
    → Ends
        (λ _ t. IsCounted users t)
        (λ _ t. (t ≡ d) ⊎ (t.pd_refs ≡ users))
        (destroy_base destroy dealloc d)
unfolding destroy_base
destroy_base-Ends users false dealloc d l h = inl refl
destroy_base-Ends users true dealloc d l h =
    let counted = record d { stat = stat_dec ib_cq_count d.stat } in
    Ends-map (λ _ t. IsCounted users t) (λ _ t. t.pd_refs ≡ users) (λ _ t. IsCounted users t)
      (λ _ t. (t ≡ d) ⊎ (t.pd_refs ≡ users)) (release_pd dealloc counted) (λ _ t c. c)
      (λ _ t c. inr c)
      (release_pd-Ends users dealloc counted l
        (record { refs = h.refs; has_pd = h.has_pd; one_domain = h.one_domain }))
