-- ===== src/Fd/At.antt =====
-- `readAt` and `writeAt` of internal/core/fs.go, with `writeFileAt` of fs_linux.go as the host's
-- `pwrite`.
use wasi.Prelude.{
  ℕ, ◌+◌, ◌%◌, ◌^◌, not, Option, none, some, List, [], ◌∷◌, bit_or, ltb, ◌==◌, take, from_option,
  if◌then◌else◌,
}
use wasi.Abi.Errno.{Error, eof, short_write, errno, wasi_efault, wasi_eoverflow, wasi_ebadf}
use wasi.Abi.Rights.{right_fd_read, right_fd_write, right_fd_seek}
use wasi.Memory.{slice, valid_memory_range, put_le32}
use wasi.Memory.Iovecs.{Buf}
use wasi.Host.{ℤ, pos, negsuc}
use wasi.Exec.{
  Plugin, Exec, Params, u32, max_int64, ◌>>=◌, ◌>>◌, pure, fail, host_pair, host_triple, on_option,
  stop_if, store,
}
use wasi.Fd.Entry.{entry_with, memory, copy_to, guest_iovecs, require_file}

-- err != nil && err != io.EOF: the comparison is with the error itself.
unfoldable pub fault_of_read : Option Error → Option Error
fault_of_read (some (eof ∷ [])) = none
fault_of_read error = error

-- The count and the error of a write, where a count out of range is a short write of nothing.
unfoldable pub written : ℕ → ℤ → Option Error → ℕ × Option Error
written len (negsuc _) error = (0, some (from_option error (short_write ∷ [])))
written len (pos n) error =
    if ltb len n then (0, some (from_option error (short_write ∷ []))) else (n, error)

module _ {W : Type 0} (e : Plugin W) where
  unfoldable pub read_at_loop : ℕ → List Buf → ℕ → ℕ → Exec W ℕ
  read_at_loop file [] off total = pure total
  read_at_loop file (b ∷ bufs) off total = do
    (n, error, bytes) ← host_triple (e.host.pread file b.len off)
    copy_to b.base (take b.len bytes)
    let total' = (total + n % 2 ^ 32) % 2 ^ 32
    on_option (fault_of_read error)
        (if ltb n b.len then pure total' else read_at_loop file bufs ((off + n) % 2 ^ 64) total')
        (λ fault. fail (errno (some fault)))

  unfoldable pub fd_pread : Params → Exec W (Unit {0})
  fd_pread p = do
    f ← entry_with (u32 (p 0)) (bit_or right_fd_read right_fd_seek)
    bufs ← guest_iovecs e (u32 (p 1)) (u32 (p 2))
    stop_if (ltb max_int64 (p 3)) wasi_eoverflow
    file ← require_file f wasi_ebadf
    mem ← memory
    stop_if (not (valid_memory_range mem (u32 (p 4)) 4)) wasi_efault
    total ← read_at_loop file bufs (p 3) 0
    store (λ m. put_le32 m (u32 (p 4)) total)

  unfoldable pub write_at_loop : ℕ → List Buf → ℕ → ℕ → Exec W ℕ
  write_at_loop file [] off total = pure total
  write_at_loop file (b ∷ bufs) off total = do
    mem ← memory
    (count, failure) ← host_pair (e.host.pwrite file (slice mem b.base b.len) off)
    let (n, error) = written b.len count failure
    let total' = (total + n) % 2 ^ 32
    on_option error
        (if ltb n b.len then pure total' else write_at_loop file bufs ((off + n) % 2 ^ 64) total')
        (λ fault. if total' == 0 then fail (errno (some fault)) else pure total')

  unfoldable pub fd_pwrite : Params → Exec W (Unit {0})
  fd_pwrite p = do
    f ← entry_with (u32 (p 0)) (bit_or right_fd_write right_fd_seek)
    bufs ← guest_iovecs e (u32 (p 1)) (u32 (p 2))
    stop_if (ltb max_int64 (p 3)) wasi_eoverflow
    file ← require_file f wasi_ebadf
    mem ← memory
    stop_if (not (valid_memory_range mem (u32 (p 4)) 4)) wasi_efault
    total ← write_at_loop file bufs (p 3) 0
    store (λ m. put_le32 m (u32 (p 4)) total)
