-- ===== src/PathHandlers/Links.antt =====
-- `pathLink`, `pathRename`, `pathSymlink` and `pathUnlinkFile` of internal/core/fs.go, with
-- `linkAtFollow` and `renameAt` of internal/core/fs_linux.go.
use wasi.Prelude.{ℕ, not, false, Option, some, [], ◌∷◌, bit_and, ◌==◌, if◌then◌else◌}
use wasi.Prelude.Bits.{and_not}
use wasi.Abi.Errno.{
  Error, eexist, errno, wasi_einval, wasi_enotdir, wasi_enoent, wasi_exdev, wasi_eisdir,
  wasi_enotempty, wasi_enotcapable,
}
use wasi.Abi.Rights.{
  right_path_link_source, right_path_link_target, right_path_rename_source,
  right_path_rename_target, right_path_symlink, right_path_unlink_file,
}
use wasi.Host.{Bytes, Io, FileInfo, done, failed}
use wasi.Paths.{ends_with_slash, starts_with_slash, rename_leaf, bytes_eq}
use wasi.Walk.{open_metadata_at, closing}
use wasi.Exec.{
  Plugin, Exec, Params, u32, u16, ◌>>=◌, ◌>>◌, pure, host, fail, lift, check, attempt, stop_if,
}
use wasi.Fd.Entry.{require, host_check, close_optional}
use wasi.PathHandlers.{Resolved, resolve, text_of, path_text, open_parent, path_unary}

-- fs_linux.go: renameat(2) may say EEXIST of a directory that is not empty.
unfoldable pub rename_code : Option Error → ℕ
rename_code (some (eexist ∷ [])) = wasi_enotempty
rename_code error = errno error

-- The names of a call on two paths and what they resolve to.
pub record TwoPaths : Type 0 where
  pub old_name : Bytes
  pub new_name : Bytes
  pub old : Resolved
  pub new : Resolved

-- The code for a path that ends in a slash, from the metadata of what it names.
unfoldable pub slash_code : Io FileInfo → ℕ
slash_code (done info) = if info.mode.is_dir then wasi_eisdir else wasi_enotdir
slash_code (failed error) = wasi_enotdir

module _ {W : Type 0} (e : Plugin W) where
  -- Both texts are read and both paths resolved before a code is looked at; the codes count in the
  -- order of the texts, then of the paths.
  unfoldable pub two_paths : ℕ → ℕ → ℕ → ℕ → ℕ → ℕ → Exec W TwoPaths
  two_paths old_fd old_ptr old_len new_fd new_ptr new_len = do
    old_text ← path_text e old_ptr old_len
    new_text ← path_text e new_ptr new_len
    old ← attempt (resolve e old_fd (text_of old_text))
    new ← attempt (resolve e new_fd (text_of new_text))
    old_name ← lift old_text
    new_name ← lift new_text
    od ← lift old
    nd ← lift new
    pure (record { old_name = old_name; new_name = new_name; old = od; new = nd })

  -- `linkAtFollow` refuses on Linux.
  unfoldable pub link_into : ℕ → Resolved → ℕ → Bytes → Exec W (Unit {0})
  link_into flags old new_parent new_leaf =
      if bit_and (u16 flags) 1 == 0
      then (do
        (old_parent, old_leaf) ← open_parent e old.file old.name
        closing e (old_parent ∷ [])
            (host_check (e.host.linkat old_parent old_leaf new_parent new_leaf)))
      else fail wasi_einval

  unfoldable pub path_link : Params → Exec W (Unit {0})
  path_link p = do
    t ← two_paths (u32 (p 0)) (u32 (p 2)) (u32 (p 3)) (u32 (p 4)) (u32 (p 5)) (u32 (p 6))
    require t.old.dir right_path_link_source
    require t.new.dir right_path_link_target
    stop_if (not (and_not (p 1) 1 == 0)) wasi_einval
    stop_if (ends_with_slash t.old_name) wasi_enotdir
    stop_if (ends_with_slash t.new_name) wasi_enoent
    stop_if (not (bytes_eq t.old.dir.mount t.new.dir.mount)) wasi_exdev
    (new_parent, new_leaf) ← open_parent e t.new.file t.new.name
    closing e (new_parent ∷ []) (link_into (p 1) t.old new_parent new_leaf)

  unfoldable pub path_rename : Params → Exec W (Unit {0})
  path_rename p = do
    t ← two_paths (u32 (p 0)) (u32 (p 1)) (u32 (p 2)) (u32 (p 3)) (u32 (p 4)) (u32 (p 5))
    require t.old.dir right_path_rename_source
    require t.new.dir right_path_rename_target
    stop_if (not (bytes_eq t.old.dir.mount t.new.dir.mount)) wasi_exdev
    (old_parent, old_leaf) ← open_parent e t.old.file t.old.name
    closing e (old_parent ∷ []) (do
      (new_parent, new_leaf) ← open_parent e t.new.file t.new.name
      closing e (new_parent ∷ []) (do
        error ← host (
            e.host.renameat old_parent (rename_leaf t.old_name old_leaf) new_parent
              (rename_leaf t.new_name new_leaf))
        check (rename_code error)))

  unfoldable pub path_symlink : Params → Exec W (Unit {0})
  path_symlink p = do
    target_text ← path_text e (u32 (p 0)) (u32 (p 1))
    name_text ← path_text e (u32 (p 3)) (u32 (p 4))
    resolved ← attempt (resolve e (u32 (p 2)) (text_of name_text))
    target ← lift target_text
    name ← lift name_text
    r ← lift resolved
    require r.dir right_path_symlink
    stop_if (starts_with_slash target) wasi_enotcapable
    stop_if (ends_with_slash name) wasi_enoent
    (parent, leaf) ← open_parent e r.file r.name
    closing e (parent ∷ []) (host_check (e.host.symlinkat target parent leaf))

  unfoldable pub unlink_slash : ℕ → Bytes → Exec W (Unit {0})
  unlink_slash fd name = do
    r ← resolve e fd name
    require r.dir right_path_unlink_file
    h ← open_metadata_at e r.file r.name false
    info ← host (e.host.stat h)
    close_optional e (some h)
    fail (slash_code info)

  unfoldable pub path_unlink_file : Params → Exec W (Unit {0})
  path_unlink_file p = do
    text ← path_text e (u32 (p 1)) (u32 (p 2))
    if ends_with_slash (text_of text)
        then unlink_slash (u32 (p 0)) (text_of text)
        else path_unary e p right_path_unlink_file (λ parent leaf. e.host.unlinkat parent leaf 0)
