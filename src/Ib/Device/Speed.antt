-- ===== src/Ib/Device/Speed.antt =====
-- The widths and speeds of ports: firstBitSet, ncclIbWidth and ncclIbSpeed of src/unet/unet_ib.cc.
use nccl_exts.Prelude.{
  ℕ, zero, suc, ◌+◌, ◌/◌, ◌%◌, ◌^◌, ◌≤◌, ◌<◌, ◌≡◌, ◌⊎◌, inl, inr, List, [], ◌∷◌, ◌==◌,
  if◌then◌else◌, ap, sym, ◌∙◌, le_cases, get_or, arith, Bool-cases,
}

-- ibvWidths.
abbrev pub ibv_widths : List ℕ
ibv_widths = 1 ∷ 4 ∷ 8 ∷ 12 ∷ 2 ∷ []

-- ibvSpeeds.
abbrev pub ibv_speeds : List ℕ
ibv_speeds = 2500 ∷ 5000 ∷ 10000 ∷ 10000 ∷ 14000 ∷ 25000 ∷ 50000 ∷ 100000 ∷ []

-- Bit i of a number, as 0 or 1.
abbrev pub bit : ℕ → ℕ → ℕ
bit val i = val / 2 ^ i % 2

-- The loop of firstBitSet from bit i on, with `left` bits in front of `max`.
unfoldable pub bit_from : ℕ → ℕ → ℕ → ℕ
bit_from val i zero = i
bit_from val i (suc left) =
    let rest = bit_from val (suc i) left in if bit val i == 0 then rest else i

unfoldable pub first_bit_set : ℕ → ℕ → ℕ
first_bit_set val max = bit_from val 0 max

unfoldable pub ib_width : ℕ → ℕ
ib_width width = get_or ibv_widths (first_bit_set width 4) 0

unfoldable pub ib_speed : ℕ → ℕ
ib_speed speed = get_or ibv_speeds (first_bit_set speed 7) 0

-- `r` is the lowest bit of `val` from `i` on that is set, or `max` when none below `max` is.
pub record IsFirstBit (val i max r : ℕ) : Type 0 where
  pub in_range : r ≤ max
  pub clear_below : (j : ℕ) → i ≤ j → j < r → bit val j ≡ 0
  pub set_here : (r ≡ max) ⊎ (bit val r ≡ 1)

bit_from-IsFirstBit :
    (val max i left : ℕ) → i + left ≡ max → IsFirstBit val i max (bit_from val i left)
unfolding bit_from
bit_from-IsFirstBit val max i zero e = record {
  in_range = omega arith;
  clear_below = λ j l h. absurd (omega arith);
  set_here = inl (omega arith);
}
bit_from-IsFirstBit val max i (suc left) e =
    let rest = bit_from-IsFirstBit val max (suc i) left (omega arith) in
    elim (Bool-cases (bit val i == 0)) [
      | inl t ↦
          let clear : bit val i ≡ 0 = ground arith in
          rw t (record {
            in_range = rest.in_range;
            clear_below = λ j l h. elim (le_cases i j l) [
              | inl same ↦ ap (bit val) (sym same) ∙ clear
              | inr above ↦ rest.clear_below j above h
            ];
            set_here = rest.set_here;
          })
      | inr t ↦
          let set_i : bit val i ≡ 1 = ground arith in
          rw t (record {
            in_range = omega arith;
            clear_below = λ j l h. absurd (omega arith);
            set_here = inr set_i;
          })
    ]

-- firstBitSet answers the lowest bit that is set below the bound, and the bound when there is
-- none, so that the tables of widths and speeds are read within their length.
pub first_bit_set-IsFirstBit : (val max : ℕ) → IsFirstBit val 0 max (first_bit_set val max)
unfolding first_bit_set
first_bit_set-IsFirstBit val max = bit_from-IsFirstBit val max 0 max (omega arith)
