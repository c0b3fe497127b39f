-- ===== src/Ib/Gid/Prefix.antt =====
-- matchGidAddrPrefix of src/unet/unet_ib.cc compares the first bits of two addresses.
use nccl_exts.Prelude.{
  ℕ, zero, suc, ◌+◌, ◌-◌, ◌*◌, ◌/◌, ◌%◌, ◌^◌, ◌<◌, ◌≤◌, ◌≡◌, ◌↔◌, inl, inr, refl, sym, ap, ◌∙◌,
  true, false, List, [], ◌∷◌, ◌==◌, leb, ltb, if◌then◌else◌, arith, Bool-cases, length, All, lt→ltb,
  ==_iff, le_cases,
}
use native.Mathlib.Nat.{pow-suc, div-div-eq-div-mul}
use nccl_exts.Ib.Gid.{Gid, words, Family, inet, inet6, netmask, match_words, match_gid_addr_prefix}

-- Bit k of an address, the most significant one of the first word being bit 0.
abbrev pub addr_bit : List ℕ → ℕ → ℕ
addr_bit [] k = 0
addr_bit (w ∷ ws) k =
    let rest = addr_bit ws (k - 32) in if ltb k 32 then w / 2 ^ (31 - k) % 2 else rest

-- The first n bits agree.
abbrev pub SamePrefix : ℕ → List ℕ → List ℕ → Type 0
SamePrefix n bs ws = (k : ℕ) → k < n → addr_bit bs k ≡ addr_bit ws k

half_pow : (x m : ℕ) → x / 2 ^ suc m ≡ x / 2 ^ m / 2
half_pow x m = ap (x /◌) (pow-suc 2 m) ∙ sym (div-div-eq-div-mul x (2 ^ m) 2)

-- The first n bits of two words agree when the words without their last m bits do.
top-bits :
    (n m x y : ℕ)
    → n + m ≡ 32
    → x < 2 ^ 32
    → y < 2 ^ 32
    → (x / 2 ^ m ≡ y / 2 ^ m) ↔ ((k : ℕ) → k < n → x / 2 ^ (31 - k) % 2 ≡ y / 2 ^ (31 - k) % 2)
top-bits zero m x y e lx ly =
    let all : m ≡ 32 = omega arith in (λ h k l. absurd (omega arith), λ h. rw all (omega arith))
top-bits (suc n) m x y e lx ly =
    let rest = top-bits n (suc m) x y (omega arith) lx ly in
    let last : 31 - n ≡ m = omega arith in
    (
      (λ h k l. elim (le_cases k n (omega arith)) [
        | inl same ↦ rw (same, last) (ap (◌% 2) h)
        | inr below ↦ rest.0 (half_pow x m ∙ (ap (◌/ 2) h ∙ sym (half_pow y m))) k below
      ]),
      λ h.
          let upper : x / 2 ^ m / 2 ≡ y / 2 ^ m / 2 =
            sym (half_pow x m) ∙ (rest.1 (λ k l. h k (omega arith)) ∙ half_pow y m) in
          let here : x / 2 ^ m % 2 ≡ y / 2 ^ m % 2 = rw last at (h n (omega arith)) in
          omega (arith, upper, here),
    )

-- A list of 32-bit words.
abbrev pub AreWords : ℕ → List ℕ → Type 0
AreWords n ws = (length ws ≡ n) × All (λ (w : ℕ). w < 2 ^ 32) ws

addr_bit-first : (b : ℕ) (bs : List ℕ) (k : ℕ) → k < 32 → addr_bit (b ∷ bs) k ≡ b / 2 ^ (31 - k) % 2
addr_bit-first b bs k l = rw (lt→ltb k 32 l) refl

addr_bit-rest : (b : ℕ) (bs : List ℕ) (k : ℕ) → 32 ≤ k → addr_bit (b ∷ bs) k ≡ addr_bit bs (k - 32)
addr_bit-rest b bs k l = let past : ltb k 32 ≡ false = ground arith in rw past refl

-- Within the first word.
SamePrefix-first :
    (n b w : ℕ) (bs ws : List ℕ)
    → n ≤ 32
    → b < 2 ^ 32
    → w < 2 ^ 32
    → (netmask n b ≡ netmask n w) ↔ SamePrefix n (b ∷ bs) (w ∷ ws)
SamePrefix-first n b w bs ws l lb lw =
    let bits = top-bits n (32 - n) b w (omega arith) lb lw in
    (
      (λ e k m.
          addr_bit-first b bs k (omega arith)
          ∙ (bits.0 e k m ∙ sym (addr_bit-first w ws k (omega arith)))),
      λ h. bits.1 (λ k m.
          sym (addr_bit-first b bs k (omega arith))
          ∙ (h k m ∙ addr_bit-first w ws k (omega arith))),
    )

-- Behind a first word that is the same.
SamePrefix-rest :
    (n b : ℕ) (bs ws : List ℕ) → 32 ≤ n → SamePrefix (n - 32) bs ws ↔ SamePrefix n (b ∷ bs) (b ∷ ws)
SamePrefix-rest n b bs ws l = (
  (λ h k m. elim (Bool-cases (ltb k 32)) [
    | inl t ↦ rw t refl
    | inr f ↦ rw f (h (k - 32) (ground arith))
  ]),
  λ h k m.
      let below : addr_bit bs (k + 32 - 32) ≡ addr_bit ws (k + 32 - 32) =
        sym (addr_bit-rest b bs (k + 32) (omega arith))
        ∙ (h (k + 32) (omega arith) ∙ addr_bit-rest b ws (k + 32) (omega arith)) in
      let same : k + 32 - 32 ≡ k = omega arith in rw same at below,
)

SamePrefix-word :
    (n b w : ℕ) (bs ws : List ℕ)
    → 32 ≤ n
    → b < 2 ^ 32
    → w < 2 ^ 32
    → SamePrefix n (b ∷ bs) (w ∷ ws)
    → b ≡ w
SamePrefix-word n b w bs ws l lb lw h =
    let whole = (SamePrefix-first 32 b w bs ws (omega arith) lb lw).1 (λ k m. h k (omega arith)) in
    omega (arith, whole)

match_words-SamePrefix :
    (len n : ℕ) (bs ws : List ℕ)
    → AreWords len bs
    → AreWords len ws
    → n ≤ 32 * len
    → (match_words n bs ws ≡ 0) ↔ SamePrefix n bs ws
unfolding match_words
match_words-SamePrefix len zero bs ws hb hw l = (λ e k m. absurd (omega arith), λ h. refl)
match_words-SamePrefix len (suc n) [] ws hb hw l = absurd (omega (arith, hb.0))
match_words-SamePrefix len (suc n) (b ∷ bs) [] hb hw l = absurd (omega (arith, hw.0))
match_words-SamePrefix len (suc n) (b ∷ bs) (w ∷ ws) (eb, (lb, hb)) (ew, (lw, hw)) l =
    elim (Bool-cases (leb 32 (suc n))) [
      | inl long ↦ elim (Bool-cases (b == w)) [
        | inl t ↦
            let same : b ≡ w = ground arith in
            let rest =
              match_words-SamePrefix (len - 1) (suc n - 32) bs ws (omega (arith, eb), hb)
                (omega (arith, ew), hw) (omega arith) in
            let next = SamePrefix-rest (suc n) w bs ws (ground arith) in
            rw (long, t) (λ e. rw same (next.0 (rest.0 e)), λ h. rest.1 (next.1 (rw same at h)))
        | inr f ↦
            rw (long, f)
              (
                λ e. absurd (omega arith),
                λ h.
                    absurd
                      (ground (arith, SamePrefix-word (suc n) b w bs ws (ground arith) lb lw h)),
              )
      ]
      | inr short ↦
          let first = SamePrefix-first (suc n) b w bs ws (ground arith) lb lw in
          elim (Bool-cases (netmask (suc n) b == netmask (suc n) w)) [
            | inl t ↦ rw (short, t) (λ e. first.0 (ground arith), λ h. refl)
            | inr f ↦
                rw (short, f) (λ e. absurd (omega arith), λ h. absurd (ground (arith, first.1 h)))
          ]
    ]

-- The words of a GID that are compared in a family: the last one holds the IPv4 address.
abbrev pub addr_words : Family → Gid → List ℕ
addr_words inet g = g.word3 ∷ []
addr_words inet6 g = words g

abbrev pub addr_size : Family → ℕ
addr_size inet = 1
addr_size inet6 = 4

-- For addresses of 32-bit words, one word for IPv4 and four for IPv6, and a length of no more bits
-- than they have, matchGidAddrPrefix holds exactly when the first bits of the address and the
-- prefix agree, as many as the length says.
pub match_gid_addr_prefix-SamePrefix :
    (f : Family) (prefix : List ℕ) (n : ℕ) (g : Gid)
    → AreWords (addr_size f) prefix
    → AreWords (addr_size f) (addr_words f g)
    → n ≤ 32 * addr_size f
    → (match_gid_addr_prefix f prefix n g ≡ true) ↔ SamePrefix n prefix (addr_words f g)
unfolding match_gid_addr_prefix
match_gid_addr_prefix-SamePrefix inet prefix zero g hp hg l =
    (λ e k m. absurd (omega arith), λ h. refl)
match_gid_addr_prefix-SamePrefix inet [] (suc n) g hp hg l = absurd (omega (arith, hp.0))
match_gid_addr_prefix-SamePrefix inet (b ∷ bs) (suc n) g hp hg l =
    let first = SamePrefix-first (suc n) b g.word3 bs [] (omega arith) hp.1.0 hg.1.0 in
    let test = ==_iff (netmask (suc n) b) (netmask (suc n) g.word3) in
    (λ e. first.0 (test.0 e), λ h. test.1 (first.1 h))
match_gid_addr_prefix-SamePrefix inet6 prefix n g hp hg l =
    let all = match_words-SamePrefix 4 n prefix (words g) hp hg l in
    let test = ==_iff (match_words n prefix (words g)) 0 in
    (λ e. all.0 (test.0 e), λ h. test.1 (all.1 h))
