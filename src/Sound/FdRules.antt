-- ===== src/Sound/FdRules.antt =====
-- The handlers on descriptors keep the invariant: those of internal/core/core.go and
-- internal/core/fs.go that read, write, move and measure.
use wasi.Prelude.{ℕ, List, Option, [], ◌∷◌, none, some, Bool}
use wasi.Host.{Stream}
use wasi.Memory.Iovecs.{Buf}
use wasi.Exec.{Plugin, Params}
use wasi.Exec.Keeps.{Keeps}
use wasi.Sound.{Bounds, IsSound}
use wasi.Sound.Calls.{call_rules}
use wasi.Fd.Io.{fd_write, fd_read, write_loop, read_loop, read_all}
use wasi.Fd.At.{fd_pread, fd_pwrite, read_at_loop, write_at_loop}
use wasi.Fd.Manage.{
  fd_close, fd_seek, fd_tell, fd_advise, fd_allocate, sync_fd, fd_datasync, fd_sync,
  fd_filestat_set_size,
}

module _ {W : Type 0} (e : Plugin W) {b : Bounds} where
  write_loop-IsSound :
      (nonblocking : Bool) (out : Option Stream) (bufs : List Buf) (total : ℕ)
      → Keeps (IsSound b) (write_loop e nonblocking out bufs total)
  unfolding write_loop
  write_loop-IsSound nonblocking out [] total = search call_rules
  write_loop-IsSound nonblocking none (c ∷ bufs) total = write_loop-IsSound nonblocking none bufs _
  write_loop-IsSound nonblocking (some out) (c ∷ bufs) total =
      search (call_rules, write_loop-IsSound nonblocking (some out) bufs)

  read_loop-IsSound :
      (nonblocking : Bool) (input : Stream) (bufs : List Buf) (total : ℕ)
      → Keeps (IsSound b) (read_loop e nonblocking input bufs total)
  unfolding read_loop
  read_loop-IsSound nonblocking input [] total = search call_rules
  read_loop-IsSound nonblocking input (c ∷ bufs) total =
      search (call_rules, read_loop-IsSound nonblocking input bufs)

  read_all-IsSound :
      (nonblocking : Bool) (input : Option Stream) (bufs : List Buf)
      → Keeps (IsSound b) (read_all e nonblocking input bufs)
  unfolding read_all
  read_all-IsSound nonblocking none bufs = search call_rules
  read_all-IsSound nonblocking (some input) bufs = read_loop-IsSound nonblocking input bufs 0

  read_at_loop-IsSound :
      (file : ℕ) (bufs : List Buf) (off total : ℕ)
      → Keeps (IsSound b) (read_at_loop e file bufs off total)
  unfolding read_at_loop
  read_at_loop-IsSound file [] off total = search call_rules
  read_at_loop-IsSound file (c ∷ bufs) off total =
      search (call_rules, read_at_loop-IsSound file bufs)

  write_at_loop-IsSound :
      (file : ℕ) (bufs : List Buf) (off total : ℕ)
      → Keeps (IsSound b) (write_at_loop e file bufs off total)
  unfolding write_at_loop
  write_at_loop-IsSound file [] off total = search call_rules
  write_at_loop-IsSound file (c ∷ bufs) off total =
      search (call_rules, write_at_loop-IsSound file bufs)

  pub fd_write-IsSound : (p : Params) → Keeps (IsSound b) (fd_write e p)
  unfolding fd_write
  fd_write-IsSound p = search (call_rules, write_loop-IsSound) depth 20

  pub fd_read-IsSound : (p : Params) → Keeps (IsSound b) (fd_read e p)
  unfolding fd_read
  fd_read-IsSound p = search (call_rules, read_all-IsSound) depth 20

  pub fd_pread-IsSound : (p : Params) → Keeps (IsSound b) (fd_pread e p)
  unfolding fd_pread
  fd_pread-IsSound p = search (call_rules, read_at_loop-IsSound) depth 20

  pub fd_pwrite-IsSound : (p : Params) → Keeps (IsSound b) (fd_pwrite e p)
  unfolding fd_pwrite
  fd_pwrite-IsSound p = search (call_rules, write_at_loop-IsSound) depth 20

  pub fd_close-IsSound : (p : Params) → Keeps (IsSound b) (fd_close e p)
  unfolding fd_close
  fd_close-IsSound p = search call_rules depth 20

  pub fd_seek-IsSound : (p : Params) → Keeps (IsSound b) (fd_seek e p)
  unfolding fd_seek
  fd_seek-IsSound p = search call_rules depth 20

  pub fd_tell-IsSound : (p : Params) → Keeps (IsSound b) (fd_tell e p)
  unfolding fd_tell
  fd_tell-IsSound p = search call_rules depth 20

  pub fd_advise-IsSound : (p : Params) → Keeps (IsSound b) (fd_advise e p)
  unfolding fd_advise
  fd_advise-IsSound p = search call_rules depth 20

  pub fd_allocate-IsSound : (p : Params) → Keeps (IsSound b) (fd_allocate e p)
  unfolding fd_allocate
  fd_allocate-IsSound p = search call_rules depth 20

  sync_fd-IsSound : (fd right : ℕ) → Keeps (IsSound b) (sync_fd e fd right)
  unfolding sync_fd
  sync_fd-IsSound fd right = search call_rules depth 20

  pub fd_datasync-IsSound : (p : Params) → Keeps (IsSound b) (fd_datasync e p)
  unfolding fd_datasync
  fd_datasync-IsSound p = sync_fd-IsSound _ _

  pub fd_sync-IsSound : (p : Params) → Keeps (IsSound b) (fd_sync e p)
  unfolding fd_sync
  fd_sync-IsSound p = sync_fd-IsSound _ _

  pub fd_filestat_set_size-IsSound : (p : Params) → Keeps (IsSound b) (fd_filestat_set_size e p)
  unfolding fd_filestat_set_size
  fd_filestat_set_size-IsSound p = search call_rules depth 20
