-- ===== src/Examples/MemoryInstances.antt =====
-- The theorems on the guest's memory at concrete inputs.
use wasi.Prelude.{
  ℕ, ◌+◌, ◌*◌, ◌^◌, ◌<◌, ◌≤◌, ◌≡◌, refl, inl, inr, some, List, [], ◌∷◌, All, length, replicate,
  arith,
}
use wasi.Abi.Errno.{wasi_ok}
use wasi.Memory.{Mem, slice, put_le32, le32, overlay}
use wasi.Memory.Laws.{le32-put_le32}
use wasi.Memory.Iovecs.{Buf, iovecs, iovec_array, Inside, total_len, iovecs_lem, iovecs_total}
use wasi.Memory.Strings.{
  write_strings, packed_size, StringsAt, Apart, write_strings_lem, write_strings_total,
}

-- One buffer of 4 bytes at 8, named by the array at 0.
abbrev one_buffer : Mem
one_buffer = 8 ∷ 0 ∷ 0 ∷ 0 ∷ 4 ∷ 0 ∷ 0 ∷ 0 ∷ replicate 8 0

abbrev buffers : List Buf
buffers = record { base = 8; len = 4 } ∷ []

accepted : iovecs 4 one_buffer 0 1 ≡ inr buffers
unfolding iovecs
accepted = refl

iovecs_lem_example :
    (buffers ≡ iovec_array one_buffer 0 1)
    × (1 ≤ 4)
    × All (Inside one_buffer) buffers
    × (total_len buffers < 2 ^ 32)
iovecs_lem_example = iovecs_lem 4 one_buffer 0 1 buffers (omega arith) accepted

iovecs_total_example : iovecs 4 one_buffer 0 1 ≡ inr (iovec_array one_buffer 0 1)
iovecs_total_example =
    iovecs_total 4 one_buffer 0 1 (omega arith) (omega arith) (omega arith) (omega arith, tt)
      (omega arith)

-- "a" and "bc", with their pointers at 0 and their bytes from 8.
abbrev strings : List (List ℕ)
strings = (97 ∷ []) ∷ (98 ∷ 99 ∷ []) ∷ []

abbrev filled : Mem
filled = 8 ∷ 0 ∷ 0 ∷ 0 ∷ 10 ∷ 0 ∷ 0 ∷ 0 ∷ 97 ∷ 0 ∷ 98 ∷ 99 ∷ 0 ∷ 7 ∷ 7 ∷ 7 ∷ []

written : write_strings (replicate 16 7) 0 8 strings ≡ (wasi_ok, filled)
unfolding write_strings overlay
written = refl

write_strings_lem_example :
    StringsAt filled 0 8 strings
    × ((at n : ℕ)
        → Apart at n 0 (0 + 4 * length strings)
        → Apart at n 8 (8 + packed_size strings)
        → slice filled at n ≡ slice (replicate 16 7) at n)
write_strings_lem_example =
    write_strings_lem (replicate 16 7) 0 8 strings filled (inl (omega arith)) written

write_strings_total_example : (write_strings (replicate 16 7) 0 8 strings).0 ≡ wasi_ok
write_strings_total_example =
    write_strings_total (replicate 16 7) 0 8 strings (omega arith) (omega arith) (omega arith)

abbrev stored : Mem
stored = 0 ∷ 1 ∷ 2 ∷ 0 ∷ 0 ∷ 0 ∷ []

put : put_le32 (replicate 6 0) 1 513 ≡ some stored
unfolding put_le32 overlay
put = refl

le32-put_le32_example : le32 stored 1 ≡ some 513
le32-put_le32_example = le32-put_le32 (replicate 6 0) 1 513 stored (omega arith) put
