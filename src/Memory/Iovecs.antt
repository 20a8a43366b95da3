-- ===== src/Memory/Iovecs.antt =====
-- `iovecs` of internal/core/fs.go: the guest's array of buffers, checked before any host call.
use wasi.Prelude.{
  ℕ, zero, suc, ◌+◌, ◌-◌, ◌*◌, ◌%◌, ◌^◌, ◌≤◌, ◌<◌, ◌≡◌, refl, ap, ◌∙◌, ◌⊎◌, inl, inr, List, [], ◌∷◌,
  All, length, ltb, arith, if◌then◌else◌,
}
use wasi.Abi.Errno.{wasi_enomem, wasi_efault, wasi_eoverflow}
use wasi.Memory.{Mem, slice}
use wasi.Memory.Bytes.{le_value}

-- The Go slice mem[base:base+len].
pub record Buf : Type 0 where
  pub base : ℕ
  pub len : ℕ

-- binary.LittleEndian.Uint32(mem[at:])
abbrev word_at : Mem → ℕ → ℕ
word_at mem at = le_value (slice mem at 4)

-- The loop, from index `i` and with the bytes counted so far; `ptr+i*8` is a 32-bit sum.
iovec_loop : ℕ → Mem → ℕ → ℕ → ℕ → ℕ ⊎ List Buf
iovec_loop zero mem ptr i total = inr []
iovec_loop (suc rounds) mem ptr i total =
    let base = word_at mem ((ptr + i * 8) % 2 ^ 32) in
    let n = word_at mem ((ptr + i * 8 + 4) % 2 ^ 32) in
    let rest = iovec_loop rounds mem ptr (i + 1) (total + n) in
    if ltb (length mem) (base + n)
    then inl wasi_efault
    else if ltb (2 ^ 32 - 1) (total + n)
    then inl wasi_eoverflow
    else elim rest [ inl code ↦ inl code | inr bufs ↦ inr (record { base = base; len = n } ∷ bufs) ]

-- The left side is the error code.
unfoldable pub iovecs : ℕ → Mem → ℕ → ℕ → ℕ ⊎ List Buf
unfolding iovec_loop
iovecs max_iovecs mem ptr count =
    if ltb max_iovecs count
    then inl wasi_enomem
    else if ltb (length mem) (ptr + count * 8)
    then inl wasi_efault
    else iovec_loop count mem ptr 0 0

-- The array of (pointer, length) pairs that lies at `ptr`.
abbrev pub iovec_array : Mem → ℕ → ℕ → List Buf
iovec_array mem ptr zero = []
iovec_array mem ptr (suc count) =
    record { base = word_at mem ptr; len = word_at mem (ptr + 4) } ∷ iovec_array mem (ptr + 8) count

abbrev pub total_len : List Buf → ℕ
total_len [] = 0
total_len (b ∷ bufs) = b.len + total_len bufs

abbrev pub Inside : Mem → Buf → Type 0
Inside mem b = b.base + b.len ≤ length mem

abbrev pub FitsAfter : Mem → ℕ → List Buf → Type 0
FitsAfter mem total bufs = All (Inside mem) bufs × (total + total_len bufs < 2 ^ 32)

-- One round of a loop that succeeds, by what the later rounds return.
iovec_loop_step :
    (rounds : ℕ) (mem : Mem) (ptr i total at : ℕ) (bufs : List Buf)
    → (ptr + i * 8) % 2 ^ 32 ≡ at
    → (ptr + i * 8 + 4) % 2 ^ 32 ≡ at + 4
    → iovec_loop (suc rounds) mem ptr i total ≡ inr bufs
    → (rest : List Buf) × (iovec_loop rounds mem ptr (i + 1) (total + word_at mem (at + 4))
        ≡ inr rest)
      × (bufs ≡ record { base = word_at mem at; len = word_at mem (at + 4) } ∷ rest)
      × (word_at mem at + word_at mem (at + 4) ≤ length mem)
      × (total + word_at mem (at + 4) < 2 ^ 32)
unfolding iovec_loop
iovec_loop_step rounds mem ptr i total at bufs here there h =
    go (iovec_loop rounds mem ptr (i + 1) (total + word_at mem (at + 4))) refl
  where
    go :
        (r : ℕ ⊎ List Buf)
        → iovec_loop rounds mem ptr (i + 1) (total + word_at mem (at + 4)) ≡ r
        → (rest : List Buf) × (iovec_loop rounds mem ptr (i + 1) (total + word_at mem (at + 4))
            ≡ inr rest)
          × (bufs ≡ record { base = word_at mem at; len = word_at mem (at + 4) } ∷ rest)
          × (word_at mem at + word_at mem (at + 4) ≤ length mem)
          × (total + word_at mem (at + 4) < 2 ^ 32)
    go (inl code) e = absurd (ground arith)
    go (inr rest) e = (rest, e, ground arith, ground arith, ground arith)

iovec_loop_lem :
    (rounds : ℕ) (mem : Mem) (ptr i total at : ℕ) (bufs : List Buf)
    → at ≡ ptr + i * 8
    → at + rounds * 8 ≤ 2 ^ 32
    → total < 2 ^ 32
    → iovec_loop rounds mem ptr i total ≡ inr bufs
    → (bufs ≡ iovec_array mem at rounds) × FitsAfter mem total bufs
iovec_loop_lem zero mem ptr i total at bufs e fits small h = unfold iovec_loop in ground arith
iovec_loop_lem (suc rounds) mem ptr i total at bufs e fits small h =
    let (rest, later, split, inside, fit) =
      iovec_loop_step rounds mem ptr i total at bufs (omega arith) (omega arith) h in
    let (array, fits_after) =
      iovec_loop_lem rounds mem ptr (i + 1) (total + word_at mem (at + 4)) (at + 8) rest
        (omega arith) (omega arith) fit later in
    (
      split ∙ ap (◌∷◌ (record { base = word_at mem at; len = word_at mem (at + 4) })) array,
      rw split ((inside, fits_after.0), omega arith),
    )

-- In a memory of at most 2^32 bytes: buffers that are accepted are those of the guest's array, no
-- more than the limit, each inside the memory, and together they fit a 32-bit size.
pub iovecs_lem :
    (max_iovecs : ℕ) (mem : Mem) (ptr count : ℕ) (bufs : List Buf)
    → length mem ≤ 2 ^ 32
    → iovecs max_iovecs mem ptr count ≡ inr bufs
    → (bufs ≡ iovec_array mem ptr count)
      × (count ≤ max_iovecs)
      × All (Inside mem) bufs
      × (total_len bufs < 2 ^ 32)
unfolding iovecs
iovecs_lem max_iovecs mem ptr count bufs wide h =
    ground (arith, iovec_loop_lem count mem ptr 0 0 ptr bufs)

-- One round of a loop that succeeds, from what its checks want.
accepted_step :
    (rounds : ℕ) (mem : Mem) (ptr i total at : ℕ) (rest : List Buf)
    → (ptr + i * 8) % 2 ^ 32 ≡ at
    → (ptr + i * 8 + 4) % 2 ^ 32 ≡ at + 4
    → word_at mem at + word_at mem (at + 4) ≤ length mem
    → total + word_at mem (at + 4) < 2 ^ 32
    → iovec_loop rounds mem ptr (i + 1) (total + word_at mem (at + 4)) ≡ inr rest
    → iovec_loop (suc rounds) mem ptr i total
      ≡ inr (record { base = word_at mem at; len = word_at mem (at + 4) } ∷ rest)
unfolding iovec_loop
accepted_step rounds mem ptr i total at rest here there inside small later = ground arith

iovec_loop_total :
    (rounds : ℕ) (mem : Mem) (ptr i total at : ℕ)
    → at ≡ ptr + i * 8
    → at + rounds * 8 ≤ 2 ^ 32
    → FitsAfter mem total (iovec_array mem at rounds)
    → iovec_loop rounds mem ptr i total ≡ inr (iovec_array mem at rounds)
iovec_loop_total zero mem ptr i total at e fits all = unfold iovec_loop in refl
iovec_loop_total (suc rounds) mem ptr i total at e fits ((inside, insides), small) =
    accepted_step rounds mem ptr i total at (iovec_array mem (at + 8) rounds) (omega arith)
      (omega arith) inside (omega arith)
      (iovec_loop_total rounds mem ptr (i + 1) (total + word_at mem (at + 4)) (at + 8) (omega arith)
        (omega arith) (insides, omega arith))

-- In a memory of at most 2^32 bytes, the guest's array is accepted where its length is within the
-- limit, the array and each buffer that it names lie inside the memory, and the lengths of the
-- buffers sum up to less than 2^32.
pub iovecs_total :
    (max_iovecs : ℕ) (mem : Mem) (ptr count : ℕ)
    → length mem ≤ 2 ^ 32
    → count ≤ max_iovecs
    → ptr + count * 8 ≤ length mem
    → All (Inside mem) (iovec_array mem ptr count)
    → total_len (iovec_array mem ptr count) < 2 ^ 32
    → iovecs max_iovecs mem ptr count ≡ inr (iovec_array mem ptr count)
unfolding iovecs
iovecs_total max_iovecs mem ptr count wide few fits insides small =
    let looped =
      iovec_loop_total count mem ptr 0 0 ptr (omega arith) (omega arith) (insides, omega arith) in
    ground (arith, looped)
