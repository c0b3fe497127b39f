-- ===== src/Tuner/Plugin/Updates.antt =====
-- What pluginGetCollInfo_v3 of src/utuner/plugin.c does to NCCL's cost table.
use nccl_exts.Prelude.{
  ℕ, ◌≡◌, ◌≢◌, ◌⊎◌, inl, inr, refl, ◌∙◌, List, [], Option, none, some, arith, get_or, set,
  Bool-cases, Option-cases, get_or-set_cases, not, ◌==◌, ap, ap₂, sym, if◌then◌else◌,
}
use nccl_exts.Prelude.Int.{ℤ, pos, negsuc}
use nccl_exts.Prelude.Nccl.{NcclResult, success, invalid_argument}
use nccl_exts.Tuner.{Func, get_algo_proto}
use nccl_exts.Tuner.Plugin.{
  CostTable, cost_at, ignore, index_below, prefer, get_coll_info_v3, reads_as_null,
}

-- The table `u` is `t`, except that the cost of `answer` may have become 0 where it was not
-- NCCL_ALGO_PROTO_IGNORE.
abbrev pub Prefers : ℤ × ℤ → CostTable → CostTable → Type 0
Prefers answer t u =
    (a p : ℕ)
    → (cost_at u a p ≡ cost_at t a p)
      ⊎ ((answer ≡ (pos a, pos p)) × (cost_at t a p ≢ ignore) × (cost_at u a p ≡ 0))

cost_at-set :
    (t : CostTable) (a p b q : ℕ)
    → (cost_at (set t a (set (get_or t a []) p 0)) b q ≡ cost_at t b q)
      ⊎ ((a ≡ b) × (p ≡ q) × (cost_at (set t a (set (get_or t a []) p 0)) b q ≡ 0))
cost_at-set t a p b q = elim (get_or-set_cases t a b (set (get_or t a []) p 0) []) [
  | inl row ↦ inl (ap (λ (r : List ℕ). get_or r q 0) row)
  | inr (e, row) ↦ elim (get_or-set_cases (get_or t a []) p q 0 0) [
    | inl same ↦ inl (
        ap (λ (r : List ℕ). get_or r q 0) row ∙ same ∙ ap (λ (c : ℕ). get_or (get_or t c []) q 0) e)
    | inr (f, new) ↦ inr (e, f, ap (λ (r : List ℕ). get_or r q 0) row ∙ new)
  ]
]

index_below-some : (bound i : ℕ) (x : ℤ) → index_below bound x ≡ some i → x ≡ pos i
index_below-some bound i (negsuc x) h = cc
index_below-some bound i (pos x) h = ground arith

lowers :
    (a p : ℕ) (answer : ℤ × ℤ) (t : CostTable)
    → answer ≡ (pos a, pos p)
    → Prefers answer t
        (if not (cost_at t a p == ignore) then set t a (set (get_or t a []) p 0) else t)
lowers a p answer t e b q = elim (Bool-cases (cost_at t a p == ignore)) [
  | inl h ↦ rw h (inl refl)
  | inr h ↦ rw h (elim (cost_at-set t a p b q) [
    | inl same ↦ inl same
    | inr (ea, ep, new) ↦
        let kept : cost_at t a p ≢ ignore = ground arith in
        inr (e ∙ ap₂ (λ (x y : ℕ). (pos x, pos y)) ea ep, rw (sym ea, sym ep) kept, new)
  ])
]

prefer-Prefers : (answer : ℤ × ℤ) (t : CostTable) → Prefers answer t (prefer answer t)
unfolding prefer
prefer-Prefers (algo, proto) t a p = elim (Option-cases (index_below 7 algo)) [
  | inl e ↦ rw (prefer, e) (inl refl)
  | inr (i, e) ↦ elim (Option-cases (index_below 3 proto)) [
    | inl f ↦ rw (prefer, e, f) (inl refl)
    | inr (j, f) ↦
        rw (prefer, e, f)
          (lowers i j (algo, proto) t
            (ap₂ (λ (x y : ℤ). (x, y)) (index_below-some 7 i algo e) (index_below-some 3 j proto f))
            a p)
  ]
]

-- A call that is refused leaves the table as it is.
abbrev pub Refuses : Option CostTable → NcclResult × Option CostTable → Type 0
Refuses table out = (out.0 ≡ invalid_argument) × (out.1 ≡ table)

-- A call that succeeds.
abbrev pub Succeeds : Func → ℕ → ℤ → CostTable → NcclResult × Option CostTable → Type 0
Succeeds coll_type n context t out =
    (out.0 ≡ success)
    × ((u : CostTable) × (out.1 ≡ some u) × Prefers (get_algo_proto context coll_type n) t u)

-- A null context, a null table, and a table that begins with two zero costs are refused.
abbrev pub Answers : Option ℤ → Func → ℕ → Option CostTable → NcclResult × Option CostTable → Type 0
Answers none coll_type n table out = Refuses table out
Answers (some context) coll_type n none out = Refuses none out
Answers (some context) coll_type n (some t) out =
    if reads_as_null t then Refuses (some t) out else Succeeds coll_type n context t out

-- pluginGetCollInfo_v3 refuses a null context, a null table, and a table that begins with two zero
-- costs, and leaves the table as it is. Otherwise it succeeds, and at most one cost has changed:
-- that of the algorithm and protocol of get_algo_proto, which was not NCCL_ALGO_PROTO_IGNORE and
-- is 0 now.
pub get_coll_info_v3-Answers :
    (context : Option ℤ) (coll_type : Func) (n : ℕ) (table : Option CostTable)
    → Answers context coll_type n table (get_coll_info_v3 context coll_type n table)
unfolding get_coll_info_v3
get_coll_info_v3-Answers none coll_type n table = (refl, refl)
get_coll_info_v3-Answers (some context) coll_type n none = (refl, refl)
get_coll_info_v3-Answers (some context) coll_type n (some t) = elim (Bool-cases (reads_as_null t)) [
  | inl e ↦ rw (e, get_coll_info_v3) (refl, refl)
  | inr e ↦
      rw (e, get_coll_info_v3)
        (refl, (_, refl, prefer-Prefers (get_algo_proto context coll_type n) t))
]
