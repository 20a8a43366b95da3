-- ===== src/PathHandlers/Metadata.antt =====
-- `pathFilestatGet`, `pathFilestatSetTimes` and `pathReadlink` of internal/core/fs.go.
use Prim.Native.Nat.{min}
use wasi.Prelude.{
  ℕ, ◌+◌, not, ◌&&◌, ◌||◌, Bool, true, false, [], ◌∷◌, bit_and, ltb, ◌==◌, length, take,
  if◌then◌else◌,
}
use wasi.Prelude.Bits.{and_not}
use wasi.Abi.Errno.{wasi_einval, wasi_enotdir, wasi_enametoolong, wasi_efault}
use wasi.Abi.Rights.{right_path_filestat_get, right_path_filestat_set_times, right_path_readlink}
use wasi.Host.{Bytes, FileInfo}
use wasi.Host.Linux.{at_symlink_nofollow}
use wasi.Memory.{put_le32}
use wasi.Paths.{ends_with_slash}
use wasi.Walk.{open_metadata_at, closing}
use wasi.Exec.{Plugin, Exec, Params, u32, u16, ◌>>=◌, ◌>>◌, pure, fail, stop_if, store}
use wasi.Fd.Entry.{require, memory, copy_to, host_io, host_check, stat}
use wasi.Fd.Stat.{write_filestat}
use wasi.Fd.Times.{requested_times, set_file_times}
use wasi.PathHandlers.{Resolved, resolve_text, open_parent}

-- uint16(flags)&1 != 0 || trailingSlash
unfoldable pub follows : ℕ → Bytes → Bool
follows flags name = not (bit_and (u16 flags) 1 == 0) || ends_with_slash name

module _ {W : Type 0} (e : Plugin W) where
  -- The metadata of a path; the handle is closed at once.
  unfoldable pub metadata : ℕ → Bytes → Bool → Exec W FileInfo
  metadata file name follow = do
    h ← open_metadata_at e file name follow
    closing e (h ∷ []) (stat e h)

  unfoldable pub path_filestat_get : Params → Exec W (Unit {0})
  path_filestat_get p = do
    (name, r) ← resolve_text e (u32 (p 0)) (u32 (p 2)) (u32 (p 3))
    require r.dir right_path_filestat_get
    stop_if (not (and_not (p 1) 1 == 0)) wasi_einval
    info ← metadata r.file r.name (follows (p 1) name)
    stop_if (ends_with_slash name && not info.mode.is_dir) wasi_enotdir
    write_filestat e (u32 (p 4)) info

  -- The branch that follows links sets the times of the open file; the other those of the leaf in
  -- its parent.
  unfoldable pub set_times_followed : Params → Bytes → Resolved → Exec W (Unit {0})
  set_times_followed p name r = do
    h ← open_metadata_at e r.file r.name true
    closing e (h ∷ []) (do
      info ← stat e h
      stop_if (ends_with_slash name && not info.mode.is_dir) wasi_enotdir
      times ← requested_times e info (p 4) (p 5) (p 6)
      set_file_times e h times)

  unfoldable pub set_times_leaf : Params → Resolved → Exec W (Unit {0})
  set_times_leaf p r = do
    (parent, leaf) ← open_parent e r.file r.name
    closing e (parent ∷ []) (do
      info ← metadata r.file r.name false
      times ← requested_times e info (p 4) (p 5) (p 6)
      host_check (e.host.utimens parent leaf times.0 times.1 at_symlink_nofollow))

  unfoldable pub path_filestat_set_times : Params → Exec W (Unit {0})
  path_filestat_set_times p = do
    (name, r) ← resolve_text e (u32 (p 0)) (u32 (p 2)) (u32 (p 3))
    require r.dir right_path_filestat_set_times
    stop_if (not (and_not (p 1) 1 == 0)) wasi_einval
    if follows (p 1) name then set_times_followed p name r else set_times_leaf p r

  -- A path that ends in a slash names a directory, or is an error.
  unfoldable pub refuse_directory : Bytes → Resolved → Exec W (Unit {0})
  refuse_directory name r =
      if ends_with_slash name
      then (do
        info ← metadata r.file r.name true
        fail (if info.mode.is_dir then wasi_einval else wasi_enotdir))
      else pure tt

  unfoldable pub path_readlink : Params → Exec W (Unit {0})
  path_readlink p = do
    (name, r) ← resolve_text e (u32 (p 0)) (u32 (p 1)) (u32 (p 2))
    require r.dir right_path_readlink
    refuse_directory name r
    (parent, leaf) ← open_parent e r.file r.name
    target ← closing e (parent ∷ []) (host_io (e.host.readlinkat parent leaf 4096))
    stop_if (length target == 4096) wasi_enametoolong
    mem ← memory
    stop_if (ltb (length mem) (u32 (p 3) + u32 (p 4))) wasi_efault
    copy_to (u32 (p 3)) (take (min (length target) (u32 (p 4))) target)
    store (λ m. put_le32 m (u32 (p 5)) (min (length target) (u32 (p 4))))
