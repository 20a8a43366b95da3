-- ===== src/Memory/Strings.antt =====
-- `writeCounts` and `writeStrings` of internal/core/core.go, which hand the arguments and the
-- environment to the guest.
use wasi.Prelude.{
  ℕ, ◌+◌, ◌-◌, ◌*◌, ◌%◌, ◌^◌, ◌≤◌, ◌≡◌, refl, sym, ap, ◌∙◌, ◌⊎◌, inl, inr, List, [], ◌∷◌, none,
  some, Option-cases, ◌||◌, length, ltb, arith, if◌then◌else◌,
}
use wasi.Abi.Errno.{wasi_ok, wasi_efault}
use wasi.Memory.{Mem, slice, overlay, put_le32}
use wasi.Memory.Bytes.{le_bytes}
use wasi.Memory.Laws.{length-put_le32, length-overlay, slice-overlay_self, slice-overlay_apart}

-- The bytes of the strings, each with its NUL.
abbrev pub packed_size : List (List ℕ) → ℕ
packed_size [] = 0
packed_size (s ∷ items) = length s + 1 + packed_size items

-- The code, and the memory: the first write stands where the second fails.
unfoldable pub write_counts : Mem → ℕ → ℕ → List (List ℕ) → ℕ × Mem
write_counts mem count_ptr size_ptr items = elim (put_le32 mem count_ptr (length items % 2 ^ 32)) [
  | none ↦ (wasi_efault, mem)
  | some counted ↦ elim (put_le32 counted size_ptr (packed_size items % 2 ^ 32)) [
    | none ↦ (wasi_efault, counted)
    | some sized ↦ (wasi_ok, sized)
  ]
]

-- The writes of one round.
abbrev put_string : Mem → ℕ → ℕ → List ℕ → Mem
put_string mem entry cur s =
    overlay (overlay (overlay mem entry (le_bytes 4 cur)) cur s) (cur + length s) (0 ∷ [])

string_loop : Mem → ℕ → ℕ → List (List ℕ) → ℕ × Mem
string_loop mem entry cur [] = (wasi_ok, mem)
string_loop mem entry cur (s ∷ items) =
    let rest = string_loop (put_string mem entry cur s) (entry + 4) (cur + length s + 1) items in
    if ltb (length mem) (entry + 4)
      || (ltb (length mem) (cur + length s + 1) || ltb (2 ^ 32 - 1) cur)
    then (wasi_efault, mem)
    else rest

-- `entry` of the source is `ptr_array + i * 4`.
unfoldable pub write_strings : Mem → ℕ → ℕ → List (List ℕ) → ℕ × Mem
unfolding string_loop
write_strings mem ptr_array buf items = string_loop mem ptr_array buf items

-- The pointer at `entry`, the string with its NUL where it points, and so on for the rest.
abbrev pub StringsAt : Mem → ℕ → ℕ → List (List ℕ) → Type 0
StringsAt mem entry cur [] = Unit {0}
StringsAt mem entry cur (s ∷ items) =
    (slice mem entry 4 ≡ le_bytes 4 cur)
    × (slice mem cur (length s) ≡ s)
    × (slice mem (cur + length s) 1 ≡ 0 ∷ [])
    × StringsAt mem (entry + 4) (cur + length s + 1) items

-- The range of `n` bytes at `at` does not meet the bytes from `lo` up to `hi`.
abbrev pub Apart : ℕ → ℕ → ℕ → ℕ → Type 0
Apart at n lo hi = (at + n ≤ lo) ⊎ (hi ≤ at)

module _ (mem : Mem) (entry cur : ℕ) (s : List ℕ) where
  length-put_string : length (put_string mem entry cur s) ≡ length mem
  length-put_string =
      length-overlay (overlay (overlay mem entry (le_bytes 4 cur)) cur s) (cur + length s) (0 ∷ [])
      ∙ length-overlay (overlay mem entry (le_bytes 4 cur)) cur s
      ∙ length-overlay mem entry (le_bytes 4 cur)

  put_string-Apart :
      (at n : ℕ)
      → Apart at n entry (entry + 4)
      → Apart at n cur (cur + length s + 1)
      → slice (put_string mem entry cur s) at n ≡ slice mem at n
  put_string-Apart at n h k =
      slice-overlay_apart named (cur + length s) (0 ∷ []) at n (omega arith)
      ∙ slice-overlay_apart pointed cur s at n (omega arith)
      ∙ slice-overlay_apart mem entry (le_bytes 4 cur) at n (omega arith)
    where
      pointed : Mem
      pointed = overlay mem entry (le_bytes 4 cur)

      named : Mem
      named = overlay pointed cur s

  put_string_self :
      (Apart entry 4 cur (cur + length s + 1))
      → entry + 4 ≤ length mem
      → cur + length s + 1 ≤ length mem
      → (slice (put_string mem entry cur s) entry 4 ≡ le_bytes 4 cur)
        × (slice (put_string mem entry cur s) cur (length s) ≡ s)
        × (slice (put_string mem entry cur s) (cur + length s) 1 ≡ 0 ∷ [])
  put_string_self h in_array in_buf = (
    slice-overlay_apart named (cur + length s) (0 ∷ []) entry 4 (omega arith)
        ∙ slice-overlay_apart pointed cur s entry 4 (omega arith)
        ∙ slice-overlay_self mem entry (le_bytes 4 cur) in_array,
    slice-overlay_apart named (cur + length s) (0 ∷ []) cur (length s) (inl (omega arith))
        ∙ slice-overlay_self pointed cur s
            (omega (arith, length-overlay mem entry (le_bytes 4 cur))),
    slice-overlay_self named (cur + length s) (0 ∷ [])
        (omega (arith, length-overlay pointed cur s, length-overlay mem entry (le_bytes 4 cur))),
  )
    where
      pointed : Mem
      pointed = overlay mem entry (le_bytes 4 cur)

      named : Mem
      named = overlay pointed cur s

-- A round that does not fault has room for its writes.
string_loop_step :
    (mem : Mem) (entry cur : ℕ) (s : List ℕ) (items : List (List ℕ)) (mem' : Mem)
    → string_loop mem entry cur (s ∷ items) ≡ (wasi_ok, mem')
    → (entry + 4 ≤ length mem)
      × (cur + length s + 1 ≤ length mem)
      × (string_loop (put_string mem entry cur s) (entry + 4) (cur + length s + 1) items
          ≡ (wasi_ok, mem'))
unfolding string_loop
string_loop_step mem entry cur s items mem' h = ground arith

-- The loop writes to its two areas only.
string_loop-Apart :
    (mem : Mem) (entry cur : ℕ) (items : List (List ℕ)) (mem' : Mem) (at n : ℕ)
    → string_loop mem entry cur items ≡ (wasi_ok, mem')
    → Apart at n entry (entry + 4 * length items)
    → Apart at n cur (cur + packed_size items)
    → slice mem' at n ≡ slice mem at n
string_loop-Apart mem entry cur [] mem' at n e h k =
    unfold string_loop in ap (λ (r : ℕ × Mem). slice r.1 at n) (sym e)
string_loop-Apart mem entry cur (s ∷ items) mem' at n e h k =
    let (in_array, in_buf, later) = string_loop_step mem entry cur s items mem' e in
    string_loop-Apart (put_string mem entry cur s) (entry + 4) (cur + length s + 1) items mem' at n
      later (omega arith) (omega arith)
    ∙ put_string-Apart mem entry cur s at n (omega arith) (omega arith)

string_loop_lem :
    (mem : Mem) (entry cur : ℕ) (items : List (List ℕ)) (mem' : Mem)
    → Apart entry (4 * length items) cur (cur + packed_size items)
    → string_loop mem entry cur items ≡ (wasi_ok, mem')
    → StringsAt mem' entry cur items
string_loop_lem mem entry cur [] mem' apart e = tt
string_loop_lem mem entry cur (s ∷ items) mem' apart e =
    let (in_array, in_buf, later) = string_loop_step mem entry cur s items mem' e in
    let (pointer, named, ended) = put_string_self mem entry cur s (omega arith) in_array in_buf in
    let still =
      λ (at n : ℕ) (h : Apart at n (entry + 4) (entry + 4 + 4 * length items))
          (k : Apart at n (cur + length s + 1) (cur + length s + 1 + packed_size items)).
        string_loop-Apart (put_string mem entry cur s) (entry + 4) (cur + length s + 1) items mem'
          at n later h k in
    (
      still entry 4 (inl (omega arith)) (omega arith) ∙ pointer,
      still cur (length s) (omega arith) (inl (omega arith)) ∙ named,
      still (cur + length s) 1 (omega arith) (inl (omega arith)) ∙ ended,
      string_loop_lem (put_string mem entry cur s) (entry + 4) (cur + length s + 1) items mem'
          (omega arith) later,
    )

-- If the pointer array and the buffer do not overlap, a call that returns `wasiOK` leaves in the
-- memory, for each string, the pointer to it and its bytes with a NUL, packed in order from `buf`;
-- and every range outside the two areas is as it was.
pub write_strings_lem :
    (mem : Mem) (ptr_array buf : ℕ) (items : List (List ℕ)) (mem' : Mem)
    → Apart ptr_array (4 * length items) buf (buf + packed_size items)
    → write_strings mem ptr_array buf items ≡ (wasi_ok, mem')
    → StringsAt mem' ptr_array buf items
      × ((at n : ℕ)
          → Apart at n ptr_array (ptr_array + 4 * length items)
          → Apart at n buf (buf + packed_size items)
          → slice mem' at n ≡ slice mem at n)
write_strings_lem mem ptr_array buf items mem' apart e =
    unfold write_strings in
    (
      string_loop_lem mem ptr_array buf items mem' apart e,
      λ at n h k. string_loop-Apart mem ptr_array buf items mem' at n e h k,
    )

string_loop_total :
    (mem : Mem) (entry cur : ℕ) (items : List (List ℕ))
    → entry + 4 * length items ≤ length mem
    → cur + packed_size items ≤ length mem
    → length mem ≤ 2 ^ 32
    → (string_loop mem entry cur items).0 ≡ wasi_ok
unfolding string_loop
string_loop_total mem entry cur [] h k wide = refl
string_loop_total mem entry cur (s ∷ items) h k wide = ground (
  arith,
  length-put_string mem entry cur s,
  string_loop_total (put_string mem entry cur s) (entry + 4) (cur + length s + 1) items,
)

-- In a memory of at most 2^32 bytes that has room for both areas, the call returns `wasiOK`.
pub write_strings_total :
    (mem : Mem) (ptr_array buf : ℕ) (items : List (List ℕ))
    → ptr_array + 4 * length items ≤ length mem
    → buf + packed_size items ≤ length mem
    → length mem ≤ 2 ^ 32
    → (write_strings mem ptr_array buf items).0 ≡ wasi_ok
unfolding write_strings
write_strings_total = string_loop_total

string_loop_size :
    (mem : Mem) (entry cur : ℕ) (items : List (List ℕ))
    → length (string_loop mem entry cur items).1 ≡ length mem
unfolding string_loop
string_loop_size mem entry cur [] = refl
string_loop_size mem entry cur (s ∷ items) = ground (
  arith,
  length-put_string mem entry cur s,
  string_loop_size (put_string mem entry cur s) (entry + 4) (cur + length s + 1) items,
)

pub length-write_strings :
    (mem : Mem) (ptr_array buf : ℕ) (items : List (List ℕ))
    → length (write_strings mem ptr_array buf items).1 ≡ length mem
unfolding write_strings
length-write_strings = string_loop_size

pub length-write_counts :
    (mem : Mem) (count_ptr size_ptr : ℕ) (items : List (List ℕ))
    → length (write_counts mem count_ptr size_ptr items).1 ≡ length mem
unfolding write_counts
length-write_counts mem count_ptr size_ptr items = elim (Option-cases (put_le32 mem count_ptr c)) [
  | inl e ↦ rw (e, write_counts)
  | inr (counted, e) ↦ elim (Option-cases (put_le32 counted size_ptr t)) [
    | inl e' ↦ rw (e, e', write_counts) (length-put_le32 mem count_ptr c counted e)
    | inr (sized, e') ↦
        rw (e, e', write_counts)
          (length-put_le32 counted size_ptr t sized e' ∙ length-put_le32 mem count_ptr c counted e)
  ]
]
  where
    c : ℕ
    c = length items % 2 ^ 32

    t : ℕ
    t = packed_size items % 2 ^ 32
