-- ===== src/Fd/Manage.antt =====
-- Closing, moving and measuring descriptors: `fdClose`, `fdSeek` of internal/core/core.go, and
-- `fdTell`, `fdRenumber`, `fdAdvise`, `fdAllocate`, `syncFD`, `fdFilestatSetSize` of
-- internal/core/fs.go.
use wasi.Prelude.{ℕ, ◌+◌, ◌-◌, ◌%◌, ◌^◌, not, ◌||◌, ltb, leb, ◌==◌, if◌then◌else◌}
use wasi.Abi.Errno.{wasi_ok, wasi_ebadf, wasi_einval, wasi_espipe, wasi_efault, wasi_eoverflow}
use wasi.Abi.Rights.{
  right_fd_seek, right_fd_tell, right_fd_advise, right_fd_allocate, right_fd_data_sync,
  right_fd_sync, right_fd_filestat_set_size,
}
use wasi.Memory.{valid_memory_range, put_le64}
use wasi.Exec.{
  Plugin, Exec, Params, u32, max_int64, ◌>>=◌, ◌>>◌, pure, on_option, check, stop_if, store,
}
use wasi.Fd.Entry.{
  entry, entry_with, require_file, set_entry, delete_entry, memory, close_optional, host_io,
  host_check, stat,
}

module _ {W : Type 0} (e : Plugin W) where
  -- Both handles are closed, and the slot is freed, whatever the calls return; the code is that of
  -- the first failure.
  unfoldable pub fd_close : Params → Exec W (Unit {0})
  fd_close p = do
    f ← entry (u32 (p 0))
    dir_code ← close_optional e f.dir_iter
    close_code ← close_optional e f.file
    delete_entry (u32 (p 0))
    check (if dir_code == wasi_ok then close_code else dir_code)

  -- `whence` is an int: a word from 2^63 on is negative.
  unfoldable pub fd_seek : Params → Exec W (Unit {0})
  fd_seek p = do
    f ← entry_with (u32 (p 0)) right_fd_seek
    file ← require_file f wasi_espipe
    info ← stat e file
    stop_if info.mode.is_dir wasi_ebadf
    stop_if (leb (2 ^ 63) (p 2) || ltb 2 (p 2)) wasi_einval
    mem ← memory
    stop_if (not (valid_memory_range mem (u32 (p 3)) 8)) wasi_efault
    off ← host_io (e.host.seek file (p 1) (p 2))
    store (λ m. put_le64 m (u32 (p 3)) off)

  unfoldable pub fd_tell : Params → Exec W (Unit {0})
  fd_tell p = do
    f ← entry_with (u32 (p 0)) right_fd_tell
    file ← require_file f wasi_espipe
    off ← host_io (e.host.seek file 0 1)
    store (λ m. put_le64 m (u32 (p 1)) off)

  -- The descriptor `to` must be open; what it named is closed, and its errors are dropped.
  unfoldable pub fd_renumber : Params → Exec W (Unit {0})
  fd_renumber p = do
    f ← entry (u32 (p 0))
    stop_if (ltb (2 ^ 31 - 1) (u32 (p 1))) wasi_ebadf
    old ← entry (u32 (p 1))
    if u32 (p 0) == u32 (p 1) then pure tt else do
      close_optional e old.dir_iter
      close_optional e old.file
      set_entry (u32 (p 1)) f
      delete_entry (u32 (p 0))

  unfoldable pub fd_advise : Params → Exec W (Unit {0})
  fd_advise p = do entry_with (u32 (p 0)) right_fd_advise; stop_if (ltb 5 (p 3)) wasi_einval

  -- The sum is a 64-bit one, and may wrap.
  unfoldable pub fd_allocate : Params → Exec W (Unit {0})
  fd_allocate p = do
    f ← entry_with (u32 (p 0)) right_fd_allocate
    file ← require_file f wasi_ebadf
    let end = (p 1 + p 2) % 2 ^ 64
    stop_if (ltb end (p 1) || ltb max_int64 end) wasi_einval
    host_check (e.host.fallocate file (p 1) (p 2))

  unfoldable pub sync_fd : ℕ → ℕ → Exec W (Unit {0})
  sync_fd fd right = do
    f ← entry_with fd right
    on_option f.file (pure tt) (λ file. host_check (e.host.sync file))

  unfoldable pub fd_datasync : Params → Exec W (Unit {0})
  fd_datasync p = sync_fd (u32 (p 0)) right_fd_data_sync

  unfoldable pub fd_sync : Params → Exec W (Unit {0})
  fd_sync p = sync_fd (u32 (p 0)) right_fd_sync

  unfoldable pub fd_filestat_set_size : Params → Exec W (Unit {0})
  fd_filestat_set_size p = do
    f ← entry_with (u32 (p 0)) right_fd_filestat_set_size
    file ← require_file f wasi_ebadf
    stop_if (ltb max_int64 (p 1)) wasi_eoverflow
    host_check (e.host.truncate file (p 1))
