-- ===== src/Walk.antt =====
-- `openAt` and `openAtWalk` of internal/core/fs_linux.go: opening a guest path below a directory,
-- by openat2 or, where the kernel refuses that, one component at a time.
pub mod Confined
use wasi.Prelude.{
  ℕ, zero, suc, Bool, false, not, ◌&&◌, ◌||◌, some, List, [], ◌∷◌, bit_and, bit_or, leb, ◌==◌,
  length, if◌then◌else◌, ◌⊎◌, inl, inr,
}
use wasi.Abi.Errno.{
  Error, errno, is, exdev, enosys, einval, e2big, eperm, enoent, wasi_eloop, wasi_enotcapable,
  wasi_enametoolong,
}
use wasi.Host.{Bytes, Io, done, failed}
use wasi.Host.Linux.{
  o_rdonly, o_creat, o_excl, o_directory, o_nofollow, o_cloexec, o_path, secure_resolve,
}
use wasi.Paths.{
  Move, stay, up, down, move_of, split, starts_with_slash, path_escapes, bytes_eq, dot, dot_dot,
}
use wasi.Exec.{Plugin, Exec, ◌>>=◌, ◌>>◌, pure, fail, host, lift, stop_if}
use wasi.Fd.Entry.{io_code}

-- internal/core/fs.go
unfoldable pub capability_err : Error → ℕ
capability_err error = if is error exdev then wasi_enotcapable else errno (some error)

unfoldable pub capability_code : {A : Type 0} → Io A → ℕ ⊎ A
capability_code (done a) = inr a
capability_code (failed error) = inl (capability_err error)

abbrev pub max_pinned_path_depth : ℕ
max_pinned_path_depth = 64

-- The flags of every openat of the walk: the last component is not followed either.
abbrev pub leaf_flags : ℕ → ℕ
leaf_flags flags = bit_or flags (bit_or o_nofollow o_cloexec)

abbrev pub directory_flags : ℕ
directory_flags = bit_or (bit_or o_rdonly o_directory) (bit_or o_nofollow o_cloexec)

-- Whether some part is "..".
unfoldable pub has_parent_step : List Bytes → Bool
has_parent_step [] = false
has_parent_step (part ∷ parts) = bytes_eq part dot_dot || has_parent_step parts

unfoldable pub moves_with : List Bytes → List (Move × Bytes)
moves_with [] = []
moves_with (part ∷ parts) = (move_of part, part) ∷ moves_with parts

-- if err != nil { ... } after a call of the host.
unfoldable pub on_io : {W A B : Type 0} → Io A → (Error → Exec W B) → (A → Exec W B) → Exec W B
on_io (done a) failed_case done_case = done_case a
on_io (failed error) failed_case done_case = failed_case error

-- The errors of openat2 at which the walk is tried.
unfoldable pub falls_back : Error → Bool
falls_back error = is error enosys || (is error einval || (is error e2big || is error eperm))

module _ {W : Type 0} (e : Plugin W) where
  unfoldable pub close_all_fds : List ℕ → Exec W (Unit {0})
  close_all_fds [] = pure tt
  close_all_fds (fd ∷ fds) = host (e.host.close fd) >> close_all_fds fds

  -- The deferred closes: they run when the walk has its result, whichever it is.
  unfoldable pub closing : {A : Type 0} → List ℕ → Exec W A → Exec W A
  closing fds m s = let (r, s') = m s in (r, (close_all_fds fds s').1)

  unfoldable pub open_leaf : ℕ → Bytes → ℕ → ℕ → Exec W ℕ
  open_leaf cur part flags mode = do
    r ← host (e.host.openat cur part (leaf_flags flags) mode)
    lift (capability_code r)

  -- The last component, where links are followed: `follow` resolves a link's target from its
  -- pinned parent.
  unfoldable pub after_readlink : (Bytes → Exec W ℕ) → Io Bytes → Exec W ℕ → Exec W ℕ
  after_readlink follow (done target) otherwise =
      if length target == 4096 then fail wasi_enametoolong else follow target
  after_readlink follow (failed error) otherwise =
      if not (is error einval) && not (is error enoent)
      then fail (capability_err error)
      else otherwise

  unfoldable pub open_last : (ℕ → Bytes → Exec W ℕ) → ℕ → Bytes → ℕ → ℕ → Exec W ℕ
  open_last follow cur part flags mode =
      if (bit_and flags o_nofollow == 0)
        && not (bit_and flags (bit_or o_creat o_excl) == bit_or o_creat o_excl)
      then (do
        r ← host (e.host.readlinkat cur part 4096)
        after_readlink (follow cur) r (open_leaf cur part flags mode))
      else open_leaf cur part flags mode

  -- The loop over the components, from the directory `cur`, above which `parents` are pinned.
  unfoldable pub walk_loop :
      (ℕ → Bytes → Exec W ℕ) → ℕ → ℕ → Bool → ℕ → List ℕ → List (Move × Bytes) → Exec W ℕ
  walk_loop follow flags mode retain cur parents [] =
      closing (cur ∷ parents) (open_leaf cur dot flags mode)
  walk_loop follow flags mode retain cur parents ((stay, part) ∷ parts) =
      walk_loop follow flags mode retain cur parents parts
  walk_loop follow flags mode retain cur [] ((up, part) ∷ parts) =
      closing (cur ∷ []) (fail wasi_enotcapable)
  walk_loop follow flags mode retain cur (parent ∷ parents) ((up, part) ∷ parts) =
      host (e.host.close cur) >> walk_loop follow flags mode retain parent parents parts
  walk_loop follow flags mode retain cur parents ((down, part) ∷ []) =
      closing (cur ∷ parents) (open_last follow cur part flags mode)
  walk_loop follow flags mode retain cur parents ((down, part) ∷ next ∷ parts) =
      if retain && leb max_pinned_path_depth (length parents)
      then closing (cur ∷ parents) (fail wasi_enametoolong)
      else do
        r ← host (e.host.openat cur part directory_flags 0)
        on_io r (λ error. closing (cur ∷ parents) (fail (capability_err error)))
            (λ child.
              if retain
              then walk_loop follow flags mode retain child (cur ∷ parents) (next ∷ parts)
              else host (e.host.close cur)
                >> walk_loop follow flags mode retain child parents (next ∷ parts))

  -- `left` counts the links that may still be followed: 41 at the start, so that the walk fails
  -- where `symlinks > 40`.
  unfoldable pub open_at_walk_fd : ℕ → ℕ → Bytes → ℕ → ℕ → Exec W ℕ
  open_at_walk_fd zero root name flags mode = fail wasi_eloop
  open_at_walk_fd (suc left) root name flags mode = do
    stop_if (bytes_eq name [] || (starts_with_slash name || path_escapes name)) wasi_enotcapable
    r ← host (e.host.dup root)
    cur ← lift (io_code r)
    walk_loop (λ fd target. open_at_walk_fd left fd target flags mode) flags mode
        (has_parent_step (split name)) cur [] (moves_with (split name))

  unfoldable pub open_at_walk : ℕ → Bytes → ℕ → ℕ → Exec W ℕ
  open_at_walk root name flags mode = open_at_walk_fd 41 root name flags mode

  -- `root` is the descriptor of the directory entry's file.
  unfoldable pub open_at : ℕ → Bytes → ℕ → ℕ → Exec W ℕ
  open_at root name flags mode = do
    let mode' = if bit_and flags o_creat == 0 then 0 else mode
    r ← host (e.host.openat2 root name (bit_or flags o_cloexec) mode' secure_resolve)
    on_io r
        (λ error.
          if falls_back error
          then open_at_walk root name flags mode'
          else fail (capability_err error))
        pure

  unfoldable pub open_metadata_at : ℕ → Bytes → Bool → Exec W ℕ
  open_metadata_at root name follow =
      open_at root name (if follow then o_path else bit_or o_path o_nofollow) 0
