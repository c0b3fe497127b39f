-- ===== src/Ib/MrCache/Comm/Loops.antt =====
-- The loops of src/unet/unet_ib.cc over the devices of a comm, by the references they take and give
-- back.
use mathlib.Core.Path.{subst}
use nccl_exts.Prelude.{
  ℕ, suc, ◌+◌, ◌^◌, ◌<◌, ◌≡◌, refl, sym, ◌∙◌, ap, Bool, inl, inr, List, [], ◌∷◌, arith, length,
  get_or, set, All-map, ==_iff, length-set,
}
use nccl_exts.Prelude.Nccl.{NcclResult, Result, ok, err, ◌>>=◌, pure, Ends, Ends-chain, Ends-map}
use nccl_exts.Ib.Pd.{DevBase}
use nccl_exts.Ib.MrCache.{CachedMr, Cache, reg_mr, dereg_mr}
use nccl_exts.Ib.MrCache.Lookup.{refs_of, IsCounted, Releases, Fails, dereg_mr-Releases}
use nccl_exts.Ib.MrCache.Comm.{
  Regions, blank_cache, cache_at, put_cache, on_cache, reg_mr_dma_buf, dereg_mrs,
}
use nccl_exts.Ib.MrCache.Comm.References.{one, Added, reg_mr-Added}
use nccl_exts.Ib.MrCache.Comm.Counting.{
  refs_on, one_on, held, Holds, AreRoomy, Leaks, AreKnown, TakesOne, TakesAll, refs_on_self,
  refs_on_other, same_or_apart, refs_on-put, AreRoomy-put, AreRoomy-at, AreRoomy-less, AreKnown-put,
  one_on_self, one_on_other,
}

module _ (page_size : ℕ) (positive : 0 < page_size) (grow : ℕ → Bool)
    (register : ℕ → ℕ → ℕ → Result ℕ) (start size : ℕ) where
  -- How one device's registration ends.
  abbrev Registers : DevBase → ℕ → Regions → Result ℕ × Regions → Type 0
  Registers b k s out = Ends (TakesOne b k s) (λ _ t. Holds [] [] s t) out

  put-Registers :
      (b : DevBase) (k : ℕ) (s : Regions) (fits : suc k < 2 ^ 32) (out : Result ℕ × Cache)
      → b.ib_dev_n < length s.caches
      → AreRoomy (suc k) s
      → Added page_size positive grow
          (register b.ib_dev_n)
          start
          size
          k
          fits
          (get_or s.caches b.ib_dev_n blank_cache).slots
          out
      → Registers b k s (put_cache b.ib_dev_n s out)
  put-Registers b k s fits (err e, c) l h a =
      λ n j. refs_on-put s b.ib_dev_n n j c 0 l (λ _. ap (refs_of j) a ∙ omega arith) (λ _. refl)
  put-Registers b k s fits (ok m, c) l h (a, r) = (
    λ n j.
        refs_on-put s b.ib_dev_n n j c (one_on b m n j + 0) l
          (λ same. omega (arith, a j, one_on_self b m n j same))
          (λ apart. omega (arith, one_on_other b m n j apart)),
    (AreRoomy-put k b.ib_dev_n s c (AreRoomy-less k s h) r, length-set s.caches b.ib_dev_n c),
  )

  on_cache-Registers :
      (b : DevBase) (k : ℕ) (s : Regions) (fits : suc k < 2 ^ 32)
      → b.ib_dev_n < length s.caches
      → AreRoomy (suc k) s
      → Registers b k s
          (on_cache b.ib_dev_n (reg_mr page_size grow (register b.ib_dev_n) start size) s)
  unfolding on_cache
  on_cache-Registers b k s fits l h = put-Registers b k s fits _ l h (
      reg_mr-Added page_size positive grow (register b.ib_dev_n) start size k fits
        (cache_at s b.ib_dev_n) (AreRoomy-at (suc k) b.ib_dev_n s l h))

  -- How the loop ends: with a region for each device, or with some regions taken already.
  abbrev pub RegistersAll : List DevBase → ℕ → Regions → Result (List ℕ) × Regions → Type 0
  RegistersAll bases k s out = Ends (TakesAll bases k s) (λ _ t. Leaks bases s t) out

  pub reg_mr_dma_buf-RegistersAll :
      (bases : List DevBase) (k : ℕ) (s : Regions)
      → length bases + k < 2 ^ 32
      → AreKnown bases s
      → AreRoomy (length bases + k) s
      → RegistersAll bases k s (reg_mr_dma_buf page_size grow register start size bases s)
  unfolding reg_mr_dma_buf
  reg_mr_dma_buf-RegistersAll [] k s fits known roomy =
      (refl, ((λ n j. omega arith), (subst (λ r. AreRoomy r s) (omega arith) roomy, refl)))
  reg_mr_dma_buf-RegistersAll (b ∷ bases) k s fits known roomy =
      let r = length bases + k in
      let rest = reg_mr_dma_buf page_size grow register start size bases in
      Ends-chain (TakesOne b r s) _ (λ _ t. Leaks (b ∷ bases) s t)
        (on_cache b.ib_dev_n (reg_mr page_size grow (register b.ib_dev_n) start size))
        (λ m. rest >>= λ mrs. pure (m ∷ mrs)) s
        (Ends-map (TakesOne b r s) (λ _ t. Holds [] [] s t) (TakesOne b r s)
          (λ _ t. Leaks (b ∷ bases) s t)
          (on_cache b.ib_dev_n (reg_mr page_size grow (register b.ib_dev_n) start size) s)
          (λ m t h. h) (λ _ t h. ([], (omega arith, λ n j. omega (arith, h n j))))
          (on_cache-Registers b r s (omega arith) known.0
            (subst (λ x. AreRoomy x s) (omega arith) roomy)))
        (λ m t (h, (roomy', len)).
          Ends-chain (TakesAll bases k t) _ (λ _ u. Leaks (b ∷ bases) s u) rest
            (λ mrs. pure (m ∷ mrs)) t
            (Ends-map (TakesAll bases k t) (λ _ u. Leaks bases t u) (TakesAll bases k t)
              (λ _ u. Leaks (b ∷ bases) s u) (rest t) (λ mrs u g. g)
              (λ _ u (mrs, (l, g)).
                (m ∷ mrs, (omega (arith, l), λ n j. omega (arith, h n j, g n j))))
              (reg_mr_dma_buf-RegistersAll bases k t (omega arith)
                (AreKnown-put bases s t len known.1) roomy'))
            (λ mrs u (e, (g, (roomy'', len'))).
              (omega (arith, e), ((λ n j. omega (arith, h n j, g n j)), (roomy'', len' ∙ len)))))

-- The regions `mrs` are given back.
abbrev pub GivesBack : List DevBase → List ℕ → Regions → Regions → Type 0
GivesBack bases mrs s t = (n j : ℕ) → refs_on t n j + held bases mrs n j ≡ refs_on s n j

module _ (deregister : ℕ → ℕ → NcclResult) where
  abbrev Deregisters : DevBase → ℕ → Regions → Result (Unit {0}) × Regions → Type 0
  Deregisters b m s out =
      Ends
        (λ _ t.
          GivesBack (b ∷ []) (m ∷ []) s t × (AreRoomy 0 t × (length t.caches ≡ length s.caches)))
        (λ _ _. Unit {0}) out

  counted-put :
      (b : DevBase) (m : ℕ) (s : Regions) (c : Cache)
      → b.ib_dev_n < length s.caches
      → Releases m (cache_at s b.ib_dev_n) c
      → GivesBack
          (b ∷ [])
          (m ∷ [])
          s
          (record s { caches = set s.caches b.ib_dev_n c; stat = c.stat })
  counted-put b m s c l r n j = elim (same_or_apart n b.ib_dev_n) [
    | inr apart ↦ omega (arith, refs_on_other s b.ib_dev_n n j c apart, one_on_other b m n j apart)
    | inl same ↦
        let at = refs_on_self s b.ib_dev_n n j c l same in
        let own = one_on_self b m n j same in
        let before = ap (λ (i : ℕ). refs_on s i j) same in
        elim (same_or_apart j m) [
          | inl is_m ↦
              let less =
                subst (λ i. refs_of i c.slots + 1 ≡ refs_on s b.ib_dev_n i) (sym is_m) r.one_less in
              let is_one : one m j ≡ 1 = rw ((==_iff j m).1 is_m) refl in
              omega (arith, at, own, before, less, is_one)
          | inr not_m ↦
              let kept = r.others j not_m in
              let is_none : one m j ≡ 0 = ground (arith, not_m) in
              omega (arith, at, own, before, kept, is_none)
        ]
  ]

  put-Deregisters :
      (b : DevBase) (m : ℕ) (s : Regions) (out : Result (Unit {0}) × Cache)
      → b.ib_dev_n < length s.caches
      → AreRoomy 0 s
      → Ends (λ _. Releases m (cache_at s b.ib_dev_n)) (Fails m (cache_at s b.ib_dev_n)) out
      → Deregisters b m s (put_cache b.ib_dev_n s out)
  put-Deregisters b m s (err e, c) l h r = tt
  put-Deregisters b m s (ok u, c) l h r = (
    counted-put b m s c l r,
    (
      AreRoomy-put 0 b.ib_dev_n s c h (
          All-map (λ (x : CachedMr) (p : IsCounted x). (p.0, omega (arith, p.1))) c.slots
            r.counted),
      length-set s.caches b.ib_dev_n c,
    ),
  )

  on_cache-Deregisters :
      (b : DevBase) (m : ℕ) (s : Regions)
      → b.ib_dev_n < length s.caches
      → AreRoomy 0 s
      → Deregisters b m s (on_cache b.ib_dev_n (dereg_mr (deregister b.ib_dev_n) m) s)
  unfolding on_cache
  on_cache-Deregisters b m s l h = put-Deregisters b m s _ l h (
      dereg_mr-Releases (deregister b.ib_dev_n) m (cache_at s b.ib_dev_n) (
        All-map {Q = IsCounted} (λ x r. (r.0, omega (arith, r.1))) (cache_at s b.ib_dev_n).slots
          (AreRoomy-at 0 b.ib_dev_n s l h)))

  pub dereg_mrs-GivesBack :
      (bases : List DevBase) (mrs : List ℕ) (s : Regions)
      → length mrs ≡ length bases
      → AreKnown bases s
      → AreRoomy 0 s
      → Ends (λ _ t. GivesBack bases mrs s t) (λ _ _. Unit {0}) (dereg_mrs deregister bases mrs s)
  unfolding dereg_mrs
  dereg_mrs-GivesBack [] mrs s e known h = λ n j. omega arith
  dereg_mrs-GivesBack (b ∷ bases) [] s e known h = absurd (omega arith)
  dereg_mrs-GivesBack (b ∷ bases) (m ∷ mrs) s e known h =
      Ends-chain
        (λ _ t.
          GivesBack (b ∷ []) (m ∷ []) s t × (AreRoomy 0 t × (length t.caches ≡ length s.caches)))
        _ (λ _ _. Unit) (on_cache b.ib_dev_n (dereg_mr (deregister b.ib_dev_n) m))
        (λ _. dereg_mrs deregister bases mrs) s (on_cache-Deregisters b m s known.0 h)
        (λ _ t (g, (roomy, len)).
          Ends-map _ (λ _ _. Unit) (λ _ u. GivesBack (b ∷ bases) (m ∷ mrs) s u) (λ _ _. Unit) _
            (λ _ u k n j. omega (arith, g n j, k n j)) (λ _ _ _. tt)
            (dereg_mrs-GivesBack bases mrs t (omega arith) (AreKnown-put bases s t len known.1)
              roomy))
