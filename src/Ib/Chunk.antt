-- ===== src/Ib/Chunk.antt =====
-- How ncclIbMultiSend of src/unet/unet_ib.cc cuts one request over the queue pairs, with DIVUP of
-- src/include/nccl/align.h.
pub mod Cover
use nccl_exts.Prelude.{ℕ, ◌+◌, ◌-◌, ◌*◌, ◌/◌, min}

-- DIVUP(x, y): ((x)+(y)-1)/(y).
unfoldable pub div_up : ℕ → ℕ → ℕ
div_up x y = (x + y - 1) / y

-- ROUNDUP(x, y): DIVUP((x), (y))*(y).
unfoldable pub round_up : ℕ → ℕ → ℕ
round_up x y = div_up x y * y

-- `const int align = 128`.
abbrev pub align : ℕ
align = 128

-- `DIVUP(DIVUP(size, nqps), align) * align`.
unfoldable pub chunk_size : ℕ → ℕ → ℕ
chunk_size size nqps = div_up (div_up size nqps) align * align

-- `std::min(size - offset, chunkSize)`. The code sends nothing when this is not positive, which is
-- when it is 0 here: subtraction stops at 0.
unfoldable pub piece_length : ℕ → ℕ → ℕ → ℕ
piece_length size offset chunk = min (size - offset) chunk
