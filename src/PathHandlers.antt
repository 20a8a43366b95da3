-- ===== src/PathHandlers.antt =====
-- The path_* handlers of internal/core/fs.go on Linux: what they share. `resolve` validates a guest
-- path, `openParent` opens the directory of its last component, `pathUnary` runs one call there.
pub mod Metadata
pub mod Links
pub mod Open
use wasi.Prelude.{
  ℕ, not, ◌||◌, Bool, Option, none, some, List, [], ◌∷◌, bit_or, ◌==◌, length, if◌then◌else◌, ◌⊎◌,
  inl, inr,
}
use wasi.Abi.Errno.{Error, errno, wasi_enotdir, wasi_enotcapable}
use wasi.Abi.Rights.{right_path_create_directory, right_path_remove_directory}
use wasi.Host.{Bytes}
use wasi.Host.Linux.{o_rdonly, o_directory, at_removedir}
use wasi.Memory.{Mem, guest_bytes}
use wasi.Paths.{
  starts_with_slash, path_escapes, trim_right_slash, parent_and_leaf, bytes_eq, dot, dot_dot,
}
use wasi.Table.{FdEntry}
use wasi.Walk.{open_at, closing}
use wasi.Exec.{Plugin, Exec, Params, u32, ◌>>=◌, ◌>>◌, pure, gets, host, lift, attempt, stop_if}
use wasi.Fd.Entry.{entry, require, require_file, host_check, stat}

-- A directory entry, its open file, and the path below it without terminal slashes.
pub record Resolved : Type 0 where
  pub dir : FdEntry
  pub file : ℕ
  pub name : Bytes

-- The text, or "" beside an error code.
unfoldable pub text_of : ℕ ⊎ Bytes → Bytes
text_of (inl code) = []
text_of (inr text) = text

module _ {W : Type 0} (e : Plugin W) where
  unfoldable pub resolve : ℕ → Bytes → Exec W Resolved
  resolve fd guest = do
    d ← entry fd
    file ← require_file d wasi_enotdir
    info ← stat e file
    stop_if (not info.mode.is_dir) wasi_enotdir
    stop_if (bytes_eq guest [] || starts_with_slash guest) wasi_enotcapable
    stop_if (path_escapes guest) wasi_enotcapable
    pure (record { dir = d; file = file; name = trim_right_slash guest })

  -- The guest's text at `ptr`, as a value: the code is looked at later.
  unfoldable pub path_text : ℕ → ℕ → Exec W (ℕ ⊎ Bytes)
  path_text ptr n = gets (λ s. guest_bytes s.mem ptr n)

  -- The text of a path and what it resolves to. The path is resolved also where the text is not
  -- valid, and the text's code comes first.
  unfoldable pub resolve_text : ℕ → ℕ → ℕ → Exec W (Bytes × Resolved)
  resolve_text fd ptr n = do
    text ← path_text ptr n
    resolved ← attempt (resolve fd (text_of text))
    name ← lift text
    r ← lift resolved
    pure (name, r)

  -- The directory of the last component, opened, and the leaf. A final parent step is resolved
  -- through the confined opener.
  unfoldable pub open_parent : ℕ → Bytes → Exec W (ℕ × Bytes)
  open_parent file name =
      let (parent, leaf) = parent_and_leaf name in
      if bytes_eq leaf dot_dot
      then (do h ← open_at e file name (bit_or o_rdonly o_directory) 0; pure (h, dot))
      else (do h ← open_at e file parent (bit_or o_rdonly o_directory) 0; pure (h, leaf))

  -- `op` takes the parent's descriptor and the leaf; the parent is closed after it.
  unfoldable pub path_unary : Params → ℕ → (ℕ → Bytes → W → Option Error × W) → Exec W (Unit {0})
  path_unary p right op = do
    (name, r) ← resolve_text (u32 (p 0)) (u32 (p 1)) (u32 (p 2))
    require r.dir right
    (parent, leaf) ← open_parent r.file r.name
    closing e (parent ∷ []) (host_check (op parent leaf))

  unfoldable pub path_create_directory : Params → Exec W (Unit {0})
  path_create_directory p =
      path_unary p right_path_create_directory (λ parent leaf. e.host.mkdirat parent leaf 0o777)

  unfoldable pub path_remove_directory : Params → Exec W (Unit {0})
  path_remove_directory p =
      path_unary p right_path_remove_directory
        (λ parent leaf. e.host.unlinkat parent leaf at_removedir)
