-- ===== src/Memory.antt =====
-- The guest's linear memory: the memory helpers of internal/core/core.go and `guestBytes`,
-- `iovecs` of internal/core/fs.go. A memory is its list of bytes, a pointer a number; a Go slice of
-- the memory is the pair of its start and its length, so that a write through it is a write to the
-- memory. Reads and writes that Go bounds by a test are bounded by the same test here.
pub mod Bytes
pub mod Laws
pub mod Iovecs
pub mod Strings
use wasi.Prelude.{
  ℕ, zero, suc, ◌+◌, ◌*◌, ◌^◌, List, [], ◌∷◌, Option, none, some, Bool, false, ◌||◌, ◌⊎◌, inl, inr,
  length, take, drop, leb, ltb, ◌==◌, if◌then◌else◌,
}
use wasi.Abi.Errno.{wasi_efault, wasi_einval}
use Bytes.{le_bytes, le_value}

abbrev pub Mem : Type 0
Mem = List ℕ

-- mem[off:off+n]
abbrev pub slice : Mem → ℕ → ℕ → List ℕ
slice mem off n = take n (drop off mem)

-- copy(mem[off:], bytes): what does not fit is not copied.
unfoldable pub overlay : Mem → ℕ → List ℕ → Mem
overlay [] off bytes = []
overlay (m ∷ ms) zero [] = m ∷ ms
overlay (m ∷ ms) zero (b ∷ bytes) = b ∷ overlay ms zero bytes
overlay (m ∷ ms) (suc off) bytes = m ∷ overlay ms off bytes

-- Both sides are 64-bit sums of 32-bit numbers, which do not wrap.
abbrev pub valid_memory_range : Mem → ℕ → ℕ → Bool
valid_memory_range mem off size = leb (off + size) (length mem)

unfoldable pub le32 : Mem → ℕ → Option ℕ
le32 mem off = if valid_memory_range mem off 4 then some (le_value (slice mem off 4)) else none

-- `none` is the result `false`: nothing was written.
unfoldable pub put_le32 : Mem → ℕ → ℕ → Option Mem
put_le32 mem off v =
    if valid_memory_range mem off 4 then some (overlay mem off (le_bytes 4 v)) else none

unfoldable pub put_le64 : Mem → ℕ → ℕ → Option Mem
put_le64 mem off v =
    if valid_memory_range mem off 8 then some (overlay mem off (le_bytes 8 v)) else none

unfoldable pub has_nul : List ℕ → Bool
has_nul [] = false
has_nul (c ∷ s) = (c == 0) || has_nul s

-- The text at `ptr`, or the error code.
unfoldable pub guest_bytes : Mem → ℕ → ℕ → ℕ ⊎ List ℕ
guest_bytes mem ptr n =
    if ltb (length mem) (ptr + n)
    then inl wasi_efault
    else if has_nul (slice mem ptr n)
    then inl wasi_einval
    else inr (slice mem ptr n)
