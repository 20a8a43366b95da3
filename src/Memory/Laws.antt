-- ===== src/Memory/Laws.antt =====
-- Reads after writes: a write keeps the size of the memory, is read back where it was made, and
-- leaves every other range alone.
use wasi.Prelude.{
  ℕ, zero, suc, ◌+◌, ◌^◌, ◌≤◌, ◌<◌, ◌≡◌, refl, ap, ◌∙◌, ◌⊎◌, List, [], ◌∷◌, some, length,
  length-take, length-drop, take, drop, arith, le→leb,
}
use wasi.Memory.{Mem, slice, overlay, le32, put_le32, put_le64}
use wasi.Memory.Bytes.{le_bytes, le_value, le_value-le_bytes}

pub length-overlay :
    (mem : Mem) (off : ℕ) (bytes : List ℕ) → length (overlay mem off bytes) ≡ length mem
unfolding overlay
length-overlay [] off bytes = refl
length-overlay (m ∷ mem) zero [] = refl
length-overlay (m ∷ mem) zero (b ∷ bytes) = ap suc (length-overlay mem zero bytes)
length-overlay (m ∷ mem) (suc off) bytes = ap suc (length-overlay mem off bytes)

pub length-slice : (mem : Mem) (off n : ℕ) → off + n ≤ length mem → length (slice mem off n) ≡ n
length-slice mem off n h = omega (arith, length-take n (drop off mem), length-drop off mem)

slice-overlay_zero :
    (mem : Mem) (bytes : List ℕ)
    → length bytes ≤ length mem
    → take (length bytes) (overlay mem 0 bytes) ≡ bytes
unfolding overlay
slice-overlay_zero mem [] h = refl
slice-overlay_zero [] (b ∷ bytes) h = absurd (omega arith)
slice-overlay_zero (m ∷ mem) (b ∷ bytes) h = ap (◌∷◌ b) (slice-overlay_zero mem bytes (omega arith))

-- What was written is read back.
pub slice-overlay_self :
    (mem : Mem) (off : ℕ) (bytes : List ℕ)
    → off + length bytes ≤ length mem
    → slice (overlay mem off bytes) off (length bytes) ≡ bytes
unfolding overlay
slice-overlay_self mem zero bytes h = slice-overlay_zero mem bytes (omega arith)
slice-overlay_self [] (suc off) [] h = refl
slice-overlay_self [] (suc off) (b ∷ bytes) h = absurd (omega arith)
slice-overlay_self (m ∷ mem) (suc off) bytes h = slice-overlay_self mem off bytes (omega arith)

drop-overlay_behind :
    (mem : Mem) (bytes : List ℕ) (at : ℕ)
    → length bytes ≤ at
    → drop at (overlay mem 0 bytes) ≡ drop at mem
unfolding overlay
drop-overlay_behind [] bytes at h = refl
drop-overlay_behind (m ∷ mem) [] at h = refl
drop-overlay_behind (m ∷ mem) (b ∷ bytes) zero h = absurd (omega arith)
drop-overlay_behind (m ∷ mem) (b ∷ bytes) (suc at) h =
    drop-overlay_behind mem bytes at (omega arith)

take-overlay_before :
    (mem : Mem) (off : ℕ) (bytes : List ℕ) (n : ℕ)
    → n ≤ off
    → take n (overlay mem off bytes) ≡ take n mem
unfolding overlay
take-overlay_before mem off bytes zero h = refl
take-overlay_before [] off bytes (suc n) h = refl
take-overlay_before (m ∷ mem) zero bytes (suc n) h = absurd (omega arith)
take-overlay_before (m ∷ mem) (suc off) bytes (suc n) h =
    ap (◌∷◌ m) (take-overlay_before mem off bytes n (omega arith))

-- Ranges that end before the write, or begin behind it, are as they were.
pub slice-overlay_apart :
    (mem : Mem) (off : ℕ) (bytes : List ℕ) (at n : ℕ)
    → (at + n ≤ off) ⊎ (off + length bytes ≤ at)
    → slice (overlay mem off bytes) at n ≡ slice mem at n
unfolding overlay
slice-overlay_apart [] off bytes at n h = refl
slice-overlay_apart (m ∷ mem) zero bytes zero zero h = refl
slice-overlay_apart (m ∷ mem) zero [] zero (suc n) h = refl
slice-overlay_apart (m ∷ mem) zero (b ∷ bytes) zero (suc n) h = absurd (omega arith)
slice-overlay_apart (m ∷ mem) (suc off) bytes zero n h =
    take-overlay_before (m ∷ mem) (suc off) bytes n (omega arith)
slice-overlay_apart (m ∷ mem) zero [] (suc at) n h = refl
slice-overlay_apart (m ∷ mem) zero (b ∷ bytes) (suc at) zero h = refl
slice-overlay_apart (m ∷ mem) zero (b ∷ bytes) (suc at) (suc n) h =
    ap (take (suc n)) (drop-overlay_behind mem bytes at (omega arith))
slice-overlay_apart (m ∷ mem) (suc off) bytes (suc at) n h =
    slice-overlay_apart mem off bytes at n (omega arith)

-- A 32-bit write that succeeds lies inside the memory.
pub put_le32-some :
    (mem : Mem) (off v : ℕ) (mem' : Mem)
    → put_le32 mem off v ≡ some mem'
    → (off + 4 ≤ length mem) × (mem' ≡ overlay mem off (le_bytes 4 v))
unfolding put_le32
put_le32-some mem off v mem' e = ground arith

pub put_le64-some :
    (mem : Mem) (off v : ℕ) (mem' : Mem)
    → put_le64 mem off v ≡ some mem'
    → (off + 8 ≤ length mem) × (mem' ≡ overlay mem off (le_bytes 8 v))
unfolding put_le64
put_le64-some mem off v mem' e = ground arith

le32_inside :
    (mem : Mem) (off : ℕ) → off + 4 ≤ length mem → le32 mem off ≡ some (le_value (slice mem off 4))
unfolding le32
le32_inside mem off h = rw (le→leb _ _ h)

-- What `putLe32` wrote, `le32` reads.
pub le32-put_le32 :
    (mem : Mem) (off v : ℕ) (mem' : Mem)
    → v < 2 ^ 32
    → put_le32 mem off v ≡ some mem'
    → le32 mem' off ≡ some v
le32-put_le32 mem off v mem' h e =
    let (fits, written) = put_le32-some mem off v mem' e in
    rw written (
      le32_inside (overlay mem off (le_bytes 4 v)) off
        (omega (arith, length-overlay mem off (le_bytes 4 v)))
      ∙ ap (λ t. some (le_value t)) (slice-overlay_self mem off (le_bytes 4 v) fits)
      ∙ ap some (le_value-le_bytes 4 v (omega arith)))

pub length-put_le32 :
    (mem : Mem) (off v : ℕ) (mem' : Mem) → put_le32 mem off v ≡ some mem' → length mem' ≡ length mem
length-put_le32 mem off v mem' e =
    ap length (put_le32-some mem off v mem' e).1 ∙ length-overlay mem off (le_bytes 4 v)

pub length-put_le64 :
    (mem : Mem) (off v : ℕ) (mem' : Mem) → put_le64 mem off v ≡ some mem' → length mem' ≡ length mem
length-put_le64 mem off v mem' e =
    ap length (put_le64-some mem off v mem' e).1 ∙ length-overlay mem off (le_bytes 8 v)
