-- ===== src/PathHandlers/Open.antt =====
-- `pathOpen` of internal/core/fs.go.
use wasi.Prelude.{
  ℕ, not, ◌&&◌, ◌||◌, Bool, false, none, some, [], bit_and, bit_or, leb, ◌==◌, length,
  if◌then◌else◌,
}
use wasi.Prelude.Bits.{and_not}
use wasi.Abi.Errno.{
  wasi_einval, wasi_enotsup, wasi_enotcapable, wasi_efault, wasi_emfile, wasi_enotdir, wasi_eisdir,
}
use wasi.Abi.Rights.{
  directory_rights, right_path_open, right_path_create_file, right_path_create_directory,
  right_path_filestat_set_size, right_fd_read, right_fd_write, right_fd_allocate,
  right_fd_filestat_set_size, right_fd_filestat_set_times, right_path_filestat_set_times,
}
use wasi.Host.{Bytes, Io, FileInfo, done, failed}
use wasi.Host.Linux.{
  o_rdonly, o_wronly, o_rdwr, o_creat, o_excl, o_trunc, o_append, o_nonblock, o_directory,
  o_nofollow, host_open_write_attributes, host_open_can_create_directory,
}
use wasi.Memory.{valid_memory_range, put_le32}
use wasi.Paths.{ends_with_slash}
use wasi.Table.{FdEntry}
use wasi.Walk.{open_at}
use wasi.Exec.{
  Plugin, Machine, Exec, Params, u32, u16, ◌>>=◌, ◌>>◌, pure, gets, host, fail, attempt, on_error,
  on_result, stop_if, store,
}
use wasi.Fd.Entry.{require, memory, alloc_entry, delete_entry, close_optional, stat}
use wasi.PathHandlers.{Resolved, resolve_text}

-- word&mask != 0
abbrev pub has_bits : ℕ → ℕ → Bool
has_bits word mask = not (bit_and word mask == 0)

-- flags |= mask under a test
abbrev pub add_flag : Bool → ℕ → ℕ → ℕ
add_flag test mask flags = if test then bit_or flags mask else flags

-- The host must be able to write: for a write, for an allocation or a change of size, and where the
-- file is to be truncated.
unfoldable pub host_write : ℕ → ℕ → Bool
host_write rights oflags =
    has_bits rights right_fd_write
    || (has_bits rights (bit_or right_fd_allocate right_fd_filestat_set_size) || has_bits oflags 8)

unfoldable pub access_mode : ℕ → ℕ → ℕ
access_mode rights oflags =
    if has_bits rights right_fd_read && host_write rights oflags
    then o_rdwr
    else if host_write rights oflags
    then o_wronly
    else o_rdonly

-- The flags for the host, from dirflags, oflags, rights, fdflags and a final slash.
unfoldable pub open_flags : ℕ → ℕ → ℕ → ℕ → Bool → ℕ
open_flags dirflags oflags rights fdflags trailing_slash =
    let a = access_mode rights oflags in
    let b = add_flag (has_bits oflags 1) o_creat a in
    let c = add_flag (has_bits oflags 4) o_excl b in
    let d = add_flag (has_bits oflags 8) o_trunc c in
    let f = add_flag (has_bits fdflags 1) o_append d in
    let g = add_flag (has_bits fdflags 4) o_nonblock f in
    let h =
      add_flag (has_bits rights (bit_or right_fd_filestat_set_times right_path_filestat_set_times))
        host_open_write_attributes g in
    let i = add_flag (has_bits oflags 2 || trailing_slash) o_directory h in
    add_flag (not (has_bits (u16 dirflags) 1) && not trailing_slash) o_nofollow i

unfoldable pub is_directory : Io FileInfo → Bool
is_directory (done info) = info.mode.is_dir
is_directory (failed error) = false

-- The rights that a file of the kind may have.
unfoldable pub rights_for : ℕ → Bool → ℕ
rights_for rights is_dir = if is_dir then bit_and rights directory_rights else rights

-- The new entry: it inherits the mount of its directory and has the rights that were asked for.
unfoldable pub opened_entry : Params → FdEntry → ℕ → Bool → FdEntry
opened_entry p d h is_dir = record {
  file = some h;
  reader = none;
  writer = none;
  mount = d.mount;
  root = d.root;
  preopen = [];
  flags = u16 (p 7);
  rights = rights_for (p 5) is_dir;
  inheriting = p 6;
  dir_iter = none;
  dir_cookie = 0;
  dir_issued = 0;
}

module _ {W : Type 0} (e : Plugin W) where
  -- The checks of the request against the directory `d`, before the host is asked.
  unfoldable pub check_request : Params → FdEntry → Exec W (Unit {0})
  check_request p d = do
    require d right_path_open
    stop_if
        (not (and_not (p 1) 1 == 0) || (not (and_not (p 4) 15 == 0) || not (and_not (p 7) 31 == 0)))
        wasi_einval
    stop_if (has_bits (u16 (p 7)) 0x1a || (has_bits (u16 (p 7)) 4 && (o_nonblock == 0)))
        wasi_enotsup

  unfoldable pub check_effects : Params → FdEntry → Bool → Exec W (Unit {0})
  check_effects p d trailing_slash = do
    (if has_bits (u16 (p 4)) 1 then require d right_path_create_file else pure tt)
    (if has_bits (u16 (p 4)) 1
          && ((has_bits (u16 (p 4)) 2 || trailing_slash) && host_open_can_create_directory)
        then require d right_path_create_directory
        else pure tt)
    (if has_bits (u16 (p 4)) 8 then require d right_path_filestat_set_size else pure tt)
    mem ← memory
    stop_if (not (valid_memory_range mem (u32 (p 8)) 4)) wasi_efault
    full ← gets (λ (s : Machine W). leb s.fs.max_fds (length s.fs.fds))
    stop_if full wasi_emfile

  -- A directory may be asked for with rights that only files have: it is opened for reading then.
  unfoldable pub retry_directory : Params → ℕ → Bytes → ℕ → ℕ → Exec W ℕ
  retry_directory p file name flags code =
      if host_write (p 5) (u16 (p 4))
        && (not (has_bits (p 5) right_fd_write) && not (has_bits (u16 (p 4)) 13))
      then (do
        retried ←
            attempt
              (open_at e file name (and_not flags (bit_or o_wronly (bit_or o_rdwr o_append))) 0)
        on_result retried (λ _. fail code)
            (λ candidate. do
              info ← host (e.host.stat candidate)
              if is_directory info
                  then pure candidate
                  else close_optional e (some candidate) >> fail code))
      else fail code

  unfoldable pub open_file : Params → ℕ → Bytes → ℕ → Exec W ℕ
  open_file p file name flags = do
    opened ← attempt (open_at e file name flags 0o666)
    on_result opened (retry_directory p file name flags) pure

  -- The kind of the opened file against the request; the result says whether it is a directory.
  unfoldable pub check_kind : Params → ℕ → Exec W Bool
  check_kind p h = do
    info ← stat e h
    stop_if (has_bits (u16 (p 4)) 2 && not info.mode.is_dir) wasi_enotdir
    stop_if (info.mode.is_dir && has_bits (p 5) right_fd_write) wasi_eisdir
    pure info.mode.is_dir

  unfoldable pub close_file : ℕ → Exec W (Unit {0})
  close_file h = close_optional e (some h) >> pure tt

  unfoldable pub install : Params → FdEntry → ℕ → Exec W (Unit {0})
  install p entry h = do
    fd ← on_error (alloc_entry entry) (close_file h)
    on_error (store (λ m. put_le32 m (u32 (p 8)) fd)) (close_file h >> delete_entry fd)

  -- What follows the check of the requested rights.
  unfoldable pub open_resolved : Params → Bool → Resolved → Exec W (Unit {0})
  open_resolved p trailing_slash r = do
    check_effects p r.dir trailing_slash
    h ← open_file p r.file r.name (open_flags (p 1) (u16 (p 4)) (p 5) (u16 (p 7)) trailing_slash)
    is_dir ← on_error (check_kind p h) (close_file h)
    install p (opened_entry p r.dir h is_dir) h

  unfoldable pub path_open : Params → Exec W (Unit {0})
  path_open p = do
    (name, r) ← resolve_text e (u32 (p 0)) (u32 (p 2)) (u32 (p 3))
    check_request p r.dir
    stop_if (not (and_not (p 5) r.dir.inheriting == 0) || not (and_not (p 6) r.dir.inheriting == 0))
        wasi_enotcapable
    open_resolved p (ends_with_slash name) r
