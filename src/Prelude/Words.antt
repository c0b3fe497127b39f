-- ===== src/Prelude/Words.antt =====
-- Machine integers as native numbers. An `int` that the code counts down is its bit pattern, so
-- that -1 is 2 ^ 32 - 1.
use Prim.Native.Nat.{ℕ, ◌+◌, ◌%◌, ◌^◌}
use mathlib.Core.Bool.{Bool, ◌&&◌}
use nccl_exts.Prelude.Tests.{ltb}

abbrev pub add64 : ℕ → ℕ → ℕ
add64 a b = (a + b) % 2 ^ 64

abbrev pub inc32 : ℕ → ℕ
inc32 w = (w + 1) % 2 ^ 32

abbrev pub dec32 : ℕ → ℕ
dec32 w = (w + 0xffff_ffff) % 2 ^ 32

-- 0 < w, as a signed comparison.
abbrev pub is_pos32 : ℕ → Bool
is_pos32 w = ltb 0 w && ltb w (2 ^ 31)
