-- ===== src/Fd/Readdir.antt =====
-- `fdReaddir`, `positionDirectory` and `skipDirectoryEntries` of internal/core/fs.go, with
-- `directoryEntryInfo` and `hostInode` of internal/core/fs_linux.go.
use Prim.Native.Nat.{min}
use wasi.Prelude.{
  ℕ, zero, suc, ◌+◌, ◌-◌, ◌%◌, ◌^◌, false, not, ◌&&◌, Option, none, some, List, [], ◌∷◌, ◌++◌,
  bit_or, ltb, leb, ◌==◌, length, replicate, is_some, take, if◌then◌else◌,
}
use wasi.Abi.Errno.{eof, is, errno, wasi_ebadf, wasi_efault, wasi_enoent}
use wasi.Abi.Rights.{right_fd_read_dir}
use wasi.Abi.Filetype.{filetype}
use wasi.Host.{Bytes, FileInfo}
use wasi.Host.Linux.{o_rdonly, o_directory}
use wasi.Memory.{valid_memory_range, put_le32}
use wasi.Memory.Bytes.{le_bytes}
use wasi.Paths.{dot, dot_dot}
use wasi.Table.{FdEntry}
use wasi.Walk.{open_at, open_metadata_at}
use wasi.Exec.{
  Plugin, Exec, Params, u32, ◌>>=◌, ◌>>◌, pure, fail, host, host_pair, on_option, stop_if, store,
}
use wasi.Fd.Entry.{
  entry_with, require_file, write_entry, memory, copy_to, close_optional, host_io, stat,
}

unfoldable pub host_inode : FileInfo → ℕ
host_inode info = elim info.sys [ none ↦ 0 | some st ↦ st.ino ]

-- A dirent of cookie `i`: next, inode, length of the name, type, padding, name.
unfoldable pub dirent : ℕ → FileInfo → Bytes → List ℕ
dirent i info name =
    le_bytes 8 ((i + 1) % 2 ^ 64)
    ++ (le_bytes 8 (host_inode info)
        ++ (le_bytes 4 (u32 (length name)) ++ (filetype info.mode ∷ (replicate 3 0 ++ name))))

-- An entry of a directory, as one turn of the loop reads it.
pub record DirectoryEntry : Type 0 where
  pub name : Bytes
  pub info : FileInfo

module _ {W : Type 0} (e : Plugin W) where
  -- The metadata of a name of the directory, without following a link; the handle is closed.
  unfoldable pub directory_entry_info : ℕ → Bytes → Exec W FileInfo
  directory_entry_info file name = do
    h ← open_metadata_at e file name false
    r ← host (e.host.stat h)
    close_optional e (some h)
    host_io (λ w. (r, w))

  -- Discards up to `remaining` entries, 1024 at a time; each round but the last reads some, so
  -- `remaining` rounds are enough.
  unfoldable pub skip_directory_entries : ℕ → ℕ → FdEntry → ℕ → ℕ → Exec W FdEntry
  skip_directory_entries zero fd f iter remaining = pure f
  skip_directory_entries (suc rounds) fd f iter remaining = if remaining == 0 then pure f else do
    (names, error) ←
        host_pair (e.host.read_dir iter (if ltb 1024 remaining then 1024 else remaining))
    let f' = record f { dir_cookie = (f.dir_cookie + length names) % 2 ^ 64 }
    write_entry fd f'
    on_option error
        (if length names == 0
          then pure f'
          else skip_directory_entries rounds fd f' iter (remaining - length names))
        (λ fault. if is fault eof then pure f' else fail (errno (some fault)))

  -- The entry with its iterator at `cookie`. Where the directory cannot be opened again, the entry
  -- keeps the iterator that has been closed.
  unfoldable pub position_directory : ℕ → FdEntry → ℕ → ℕ → Exec W FdEntry
  position_directory fd f file cookie =
      if not (cookie == 0) && ltb f.dir_issued cookie
      then fail wasi_enoent
      else if is_some f.dir_iter && f.dir_cookie == cookie
      then pure f
      else do
        close_optional e f.dir_iter
        iter ← open_at e file dot (bit_or o_rdonly o_directory) 0
        let opened = record f { dir_iter = some iter; dir_cookie = 2 }
        write_entry fd opened
        skip_directory_entries cookie fd opened iter (cookie - 2)

  -- The first name that the iterator returned at cookie `i`, if any.
  unfoldable pub read_name :
      ℕ → FdEntry → ℕ → ℕ → List Bytes → Exec W (Option (DirectoryEntry × FdEntry))
  read_name fd f file i [] = pure none
  read_name fd f file i (name ∷ names) = do
    let advanced = record f { dir_cookie = (i + 1) % 2 ^ 64 }
    write_entry fd advanced
    info ← directory_entry_info file name
    pure (some (record { name = name; info = info }, advanced))

  -- The directory entry of cookie `i`, with the descriptor's entry after it; `none` at the end. The
  -- iterator is there: `position_directory` has set it.
  unfoldable pub next_entry : ℕ → FdEntry → ℕ → ℕ → Exec W (Option (DirectoryEntry × FdEntry))
  next_entry fd f file i =
      if i == 0
      then (do info ← stat e file; pure (some (record { name = dot; info = info }, f)))
      else if i == 1
      then (do info ← stat e file; pure (some (record { name = dot_dot; info = info }, f)))
      else on_option f.dir_iter (pure none) (λ iter. do
        (names, error) ← host_pair (e.host.read_dir iter 1)
        on_option error (read_name fd f file i names)
            (λ fault. if is fault eof then pure none else fail (errno (some fault))))

  -- if n >= 24 && i+1 > f.dirIssued { f.dirIssued = i + 1 }
  unfoldable pub issue : ℕ → FdEntry → ℕ → ℕ → Exec W FdEntry
  issue fd f i n =
      if leb 24 n && ltb f.dir_issued ((i + 1) % 2 ^ 64)
      then (do
        let issued = record f { dir_issued = (i + 1) % 2 ^ 64 }
        write_entry fd issued
        pure issued)
      else pure f

  -- The loop from cookie `i`, with `used` of the `len` bytes at `buf` filled. A round ends the loop
  -- or fills at least one byte, so `len` and one more rounds are enough.
  unfoldable pub readdir_loop : ℕ → ℕ → FdEntry → ℕ → ℕ → ℕ → ℕ → ℕ → Exec W ℕ
  readdir_loop zero fd f file buf len i used = pure used
  readdir_loop (suc rounds) fd f file buf len i used = do
    found ← next_entry fd f file i
    on_option found (pure used) (λ (d, f').
        let rec = dirent i d.info d.name in
        let n = min (length rec) (len - used) in
        if leb len used then pure used else do
          copy_to (u32 (buf + used)) (take n rec)
          g ← issue fd f' i n
          if ltb n (length rec)
              then pure (used + n)
              else readdir_loop rounds fd g file buf len ((i + 1) % 2 ^ 64) (used + n))

  unfoldable pub fd_readdir : Params → Exec W (Unit {0})
  fd_readdir p = do
    f ← entry_with (u32 (p 0)) right_fd_read_dir
    file ← require_file f wasi_ebadf
    mem ← memory
    stop_if (ltb (length mem) (u32 (p 1) + u32 (p 2))) wasi_efault
    stop_if (not (valid_memory_range mem (u32 (p 4)) 4)) wasi_efault
    positioned ← position_directory (u32 (p 0)) f file (p 3)
    used ←
        readdir_loop (suc (u32 (p 2))) (u32 (p 0)) positioned file (u32 (p 1)) (u32 (p 2)) (p 3) 0
    store (λ m. put_le32 m (u32 (p 4)) used)
