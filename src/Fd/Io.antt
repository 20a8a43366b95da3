-- ===== src/Fd/Io.antt =====
-- `fdWrite` and `fdRead` of internal/core/core.go.
use wasi.Prelude.{
  ℕ, ◌+◌, ◌%◌, ◌^◌, Bool, true, not, ◌&&◌, Option, none, some, List, [], ◌∷◌, bit_and, ltb, ◌==◌,
  is_some, take, if◌then◌else◌,
}
use wasi.Abi.Errno.{Error, Sentinel, eof, short_write, no_progress, is, errno, wasi_ok, wasi_efault}
use wasi.Abi.Rights.{right_fd_read, right_fd_write}
use wasi.Memory.{slice, valid_memory_range, put_le32}
use wasi.Memory.Iovecs.{Buf}
use wasi.Host.{Bytes, Stream, os_file, ℤ, pos, negsuc}
use wasi.Table.{FdEntry}
use wasi.Exec.{
  Plugin, Exec, Params, u32, ◌>>=◌, ◌>>◌, pure, host_pair, host_triple, on_option, check, stop_if,
  store,
}
use wasi.Fd.Entry.{entry_with, memory, copy_to, guest_iovecs}

-- if f.file != nil { out = f.file }
abbrev pub object : FdEntry → Option Stream → Option Stream
object f stream = elim f.file [ none ↦ stream | some h ↦ some (os_file h) ]

-- A count that no reader or writer may return becomes 0 with the given error.
unfoldable pub clamp_count : ℕ → Sentinel → ℤ → Option Error → ℕ × Option Error
clamp_count len fault (negsuc _) error = (0, some (fault ∷ []))
clamp_count len fault (pos n) error = if ltb len n then (0, some (fault ∷ [])) else (n, error)

-- The error that a write of `n` of `len` bytes ends the loop with.
unfoldable pub write_error : ℕ → ℕ → Option Error → Option Error
write_error len n (some error) = some error
write_error len n none = if n == len then none else some (short_write ∷ [])

-- The error of a read that is not the end of the input.
unfoldable pub read_error : Option Error → Option Error
unfolding is
read_error none = none
read_error (some error) = if is error eof then none else some error

module _ {W : Type 0} (e : Plugin W) where
  -- `nonblocking` is f.flags&4 != 0.
  unfoldable pub write_some : Bool → Stream → Bytes → W → ℤ × Option Error × W
  write_some true (os_file h) bytes = e.host.write_nonblocking h bytes
  write_some _ out bytes = e.host.write out bytes

  unfoldable pub read_some : Bool → Stream → ℕ → W → ℤ × Option Error × Bytes × W
  read_some true (os_file h) n = e.host.read_nonblocking h n
  read_some _ input n = e.host.read input n

  -- The bytes written, modulo 2^32, and the error that ended the loop.
  unfoldable pub write_loop : Bool → Option Stream → List Buf → ℕ → Exec W (ℕ × Option Error)
  write_loop nonblocking out [] total = pure (total, none)
  write_loop nonblocking none (b ∷ bufs) total =
      write_loop nonblocking none bufs ((total + b.len) % 2 ^ 32)
  write_loop nonblocking (some out) (b ∷ bufs) total = do
    mem ← memory
    (count, failure) ← host_pair (write_some nonblocking out (slice mem b.base b.len))
    let (n, error) = clamp_count b.len short_write count failure
    let total' = (total + n) % 2 ^ 32
    on_option (write_error b.len n error) (write_loop nonblocking (some out) bufs total')
        (λ ended. pure (total', some ended))

  unfoldable pub fd_write : Params → Exec W (Unit {0})
  fd_write p = do
    f ← entry_with (u32 (p 0)) right_fd_write
    bufs ← guest_iovecs e (u32 (p 1)) (u32 (p 2))
    mem ← memory
    stop_if (not (valid_memory_range mem (u32 (p 3)) 4)) wasi_efault
    (total, error) ← write_loop (not (bit_and f.flags 4 == 0)) (object f f.writer) bufs 0
    store (λ m. put_le32 m (u32 (p 3)) total)
    check (if is_some error && total == 0 then errno error else wasi_ok)

  unfoldable pub read_loop : Bool → Stream → List Buf → ℕ → Exec W (ℕ × Option Error)
  read_loop nonblocking input [] total = pure (total, none)
  read_loop nonblocking input (b ∷ bufs) total = do
    (count, failure, bytes) ← host_triple (read_some nonblocking input b.len)
    copy_to b.base (take b.len bytes)
    let (n, error) = clamp_count b.len no_progress count failure
    let total' = (total + n) % 2 ^ 32
    if is_some error
        then pure (total', read_error error)
        else if ltb n b.len
        then pure (total', none)
        else read_loop nonblocking input bufs total'

  unfoldable pub read_all : Bool → Option Stream → List Buf → Exec W (ℕ × Option Error)
  read_all nonblocking none bufs = pure (0, none)
  read_all nonblocking (some input) bufs = read_loop nonblocking input bufs 0

  unfoldable pub fd_read : Params → Exec W (Unit {0})
  fd_read p = do
    f ← entry_with (u32 (p 0)) right_fd_read
    bufs ← guest_iovecs e (u32 (p 1)) (u32 (p 2))
    mem ← memory
    stop_if (not (valid_memory_range mem (u32 (p 3)) 4)) wasi_efault
    (total, error) ← read_all (not (bit_and f.flags 4 == 0)) (object f f.reader) bufs
    store (λ m. put_le32 m (u32 (p 3)) total)
    check (if is_some error && total == 0 then errno error else wasi_ok)
