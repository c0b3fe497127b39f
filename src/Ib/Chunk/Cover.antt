-- ===== src/Ib/Chunk/Cover.antt =====
-- The pieces that one request is cut into cover it exactly.
use nccl_exts.Prelude.{ℕ, zero, suc, ◌+◌, ◌-◌, ◌*◌, ◌≤◌, ◌<◌, ◌≡◌, min, arith}
use nccl_exts.Ib.Chunk.{div_up, chunk_size, piece_length}

-- The lengths of the pieces of `left` queue pairs, the first at `offset`, added up.
abbrev pub total_length : ℕ → ℕ → ℕ → ℕ → ℕ
total_length size chunk zero offset = 0
total_length size chunk (suc left) offset =
    piece_length size offset chunk + total_length size chunk left (offset + chunk)

pub div_up-mul : (x y : ℕ) → 0 < y → x ≤ div_up x y * y
unfolding div_up
div_up-mul x y h = grind arith

pub div_up-lt : (x y : ℕ) → 0 < y → div_up x y * y < x + y
unfolding div_up
div_up-lt x y h = grind arith

mul_mono : (a b n : ℕ) → a ≤ b → n * a ≤ n * b
mul_mono a b n h = grind arith

div_up-le-chunk : (size nqps : ℕ) → div_up size nqps ≤ chunk_size size nqps
unfolding chunk_size
div_up-le-chunk size nqps = div_up-mul (div_up size nqps) 128 (omega arith)

chunk-lt-div_up : (size nqps : ℕ) → chunk_size size nqps ≤ div_up size nqps + 127
unfolding chunk_size
chunk-lt-div_up size nqps = omega (arith, div_up-lt (div_up size nqps) 128 (omega arith))

pub chunk-covers : (size nqps : ℕ) → 0 < nqps → size ≤ nqps * chunk_size size nqps
chunk-covers size nqps h =
    let share =
      mul_mono (div_up size nqps) (chunk_size size nqps) nqps (div_up-le-chunk size nqps) in
    omega (arith, div_up-mul size nqps h)

-- The chunks of a request over its queue pairs, at least one, together exceed its size by less
-- than 128 bytes for each queue pair.
pub chunk-lt : (size nqps : ℕ) → 0 < nqps → nqps * chunk_size size nqps < size + 128 * nqps
chunk-lt size nqps h =
    let share =
      mul_mono (chunk_size size nqps) (div_up size nqps + 127) nqps (chunk-lt-div_up size nqps) in
    omega (arith, div_up-lt size nqps h)

total_length-min :
    (size chunk left offset : ℕ)
    → total_length size chunk left offset ≡ min (size - offset) (left * chunk)
unfolding piece_length
total_length-min size chunk zero offset = omega arith
total_length-min size chunk (suc left) offset =
    omega (arith, total_length-min size chunk left (offset + chunk))

-- The pieces that a request is cut into over its queue pairs, at least one, add up to its size.
pub total_length-exact :
    (size nqps : ℕ) → 0 < nqps → total_length size (chunk_size size nqps) nqps 0 ≡ size
total_length-exact size nqps h =
    omega (arith, total_length-min size (chunk_size size nqps) nqps 0, chunk-covers size nqps h)
