-- ===== src/Ib/Send/WrId.antt =====
-- The request ids that a completion carries: packing them into wr_id loses none.
use native.Mathlib.Nat.{div-div-eq-div-mul, le_trans, one-le-pow, pow-le-pow_right}
use native.Mathlib.Numerals.{towards_suc}
use nccl_exts.Prelude.{
  ℕ, zero, suc, ◌+◌, ◌*◌, ◌/◌, ◌%◌, ◌^◌, ◌≤◌, ◌<◌, ◌≡◌, List, [], ◌∷◌, arith, get_or, length, All,
}
use nccl_exts.Prelude.Words.{add64}
use nccl_exts.Ib.Request.{id_at}
use nccl_exts.Ib.Send.{pack_ids}

-- The number that the ids spell in base 256, the first one lowest.
abbrev digits : List ℕ → ℕ
digits [] = 0
digits (i ∷ ids) = i + 256 * digits ids

shift_suc : (r : ℕ) → 2 ^ (suc r * 8) ≡ 256 * 2 ^ (r * 8)
shift_suc r = let e : suc r * 8 ≡ r * 8 + 8 = omega arith in rw e (simp towards_suc (omega arith))

digits_bound :
    (r k : ℕ) (ids : List ℕ)
    → r + length ids ≡ k
    → All (λ i. i < 256) ids
    → 2 ^ (r * 8) * (digits ids + 1) ≤ 2 ^ (k * 8)
digits_bound r k [] e h = let e' : r ≡ k = omega arith in rw e' (omega arith)
digits_bound r k (i ∷ ids) e h =
    let rest = digits_bound (suc r) k ids (omega arith) h.1 in
    let wide = λ (p : ℕ) (le : 256 * p * (digits ids + 1) ≤ 2 ^ (k * 8)).
      head_bound p i (digits ids) (2 ^ (k * 8)) h.0 le in
    wide (2 ^ (r * 8)) (rw (shift_suc r) at rest)
  where
    head_bound : (p x d b : ℕ) → x < 256 → 256 * p * (d + 1) ≤ b → p * (x + 256 * d + 1) ≤ b
    head_bound p x d b hx hb = grind arith

add_digit :
    (p x d : ℕ)
    → 0 < p
    → p * (x + 256 * d + 1) ≤ 2 ^ 64
    → add64 (x * p) (256 * p * d) ≡ p * (x + 256 * d)
add_digit p x d hp h = grind arith

pack_ids-digits :
    (r k : ℕ) (ids : List ℕ)
    → r + length ids ≡ k
    → k ≤ 8
    → All (λ i. i < 256) ids
    → pack_ids r ids ≡ 2 ^ (r * 8) * digits ids
unfolding pack_ids
pack_ids-digits r k [] e l h = omega arith
pack_ids-digits r k (i ∷ ids) e l h =
    let fits =
      le_trans (digits_bound r k (i ∷ ids) e h) (pow-le-pow_right (omega arith) (k8 k l)) in
    rw (pack_ids-digits (suc r) k ids (omega arith) l h.1, shift_suc r)
      (add_digit (2 ^ (r * 8)) i (digits ids) (one-le-pow (r * 8) 2 (omega arith)) fits)
  where
    k8 : (k : ℕ) → k ≤ 8 → k * 8 ≤ 64
    k8 k l = omega arith

zero-div : (m : ℕ) → 0 / m ≡ 0
zero-div m = grind arith

digit_at :
    (j : ℕ) (ids : List ℕ)
    → All (λ i. i < 256) ids
    → digits ids / 2 ^ (j * 8) % 256 ≡ get_or ids j 0
digit_at j [] h = rw (zero-div (2 ^ (j * 8)))
digit_at zero (i ∷ ids) h = let lt = h.0 in omega arith
digit_at (suc j) (i ∷ ids) h =
    let lt = h.0 in
    let e : (i + 256 * digits ids) / 256 ≡ digits ids = omega arith in
    rw (shift_suc j, ← div-div-eq-div-mul (i + 256 * digits ids) 256 (2 ^ (j * 8)), e)
      (digit_at j ids h.1)

-- The j-th byte of the wr_id that ncclIbMultiSend builds for at most 8 requests of a table of 256
-- is the id of the j-th request, and 0 behind the last.
pub id_at-pack_ids :
    (ids : List ℕ) (j : ℕ)
    → length ids ≤ 8
    → All (λ i. i < 256) ids
    → id_at (pack_ids 0 ids) j ≡ get_or ids j 0
unfolding id_at
id_at-pack_ids ids j l h =
    rw (pack_ids-digits 0 (length ids) ids (omega arith) l h)
      (let e : 2 ^ (0 * 8) * digits ids ≡ digits ids = omega arith in rw e (digit_at j ids h))
