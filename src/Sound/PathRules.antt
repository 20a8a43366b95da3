-- ===== src/Sound/PathRules.antt =====
-- The handlers on paths, but `pathOpen`, keep the invariant: internal/core/fs.go.
use wasi.Prelude.{ℕ, Option, Bool}
use wasi.Abi.Errno.{Error}
use wasi.Host.{Bytes}
use wasi.Exec.{Plugin, Params}
use wasi.Exec.Keeps.{Keeps}
use wasi.Exec.Gives.{
  Gives, Gives-Keeps, Gives-pure, Gives-then, Gives-next, Gives-bind-Gives, Gives-attempt,
  Gives-lift,
}
use wasi.Sound.{Bounds, IsSound, IsConfined}
use wasi.Sound.Calls.{call_rules, entry-Gives}
use wasi.Sound.WalkRules.{walk_rules}
use wasi.Sound.StatRules.{write_filestat-IsSound, requested_times-IsSound, set_file_times-IsSound}
use wasi.PathHandlers.{
  Resolved, resolve, path_text, resolve_text, open_parent, path_unary, path_create_directory,
  path_remove_directory,
}
use wasi.PathHandlers.Metadata.{
  metadata, path_filestat_get, set_times_followed, set_times_leaf, path_filestat_set_times,
  refuse_directory, path_readlink,
}
use wasi.PathHandlers.Links.{
  two_paths, link_into, path_link, path_rename, path_symlink, unlink_slash, path_unlink_file,
}

module _ {W : Type 0} (e : Plugin W) {b : Bounds} where
  resolve-Gives :
      (fd : ℕ) (guest : Bytes)
      → Gives (IsSound b) (λ r. IsConfined b.authority r.dir) (resolve e fd guest)
  unfolding resolve
  resolve-Gives fd guest = Gives-bind-Gives _ _ (entry-Gives fd) (λ d c.
      Gives-then _ _ (search call_rules) (λ file. Gives-then _ _ (search call_rules) (λ info.
        Gives-next _ _ (search call_rules) (
          Gives-next _ _ (search call_rules)
            (Gives-next _ _ (search call_rules) (Gives-pure _ c))))))

  pub resolve-IsSound : (fd : ℕ) (guest : Bytes) → Keeps (IsSound b) (resolve e fd guest)
  resolve-IsSound fd guest = Gives-Keeps _ (resolve-Gives fd guest)

  path_text-IsSound : (ptr n : ℕ) → Keeps (IsSound b) (path_text e ptr n)
  unfolding path_text
  path_text-IsSound ptr n = search call_rules

  -- The directory of a resolved path has a confined entry.
  pub resolve_text-Gives :
      (fd ptr n : ℕ)
      → Gives (IsSound b) (λ r. IsConfined b.authority r.1.dir) (resolve_text e fd ptr n)
  unfolding resolve_text
  resolve_text-Gives fd ptr n = Gives-then _ _ (path_text-IsSound ptr n) (λ text.
      Gives-bind-Gives _ _
        (Gives-attempt (IsSound b) (λ (r : Resolved). IsConfined b.authority r.dir) _
          (resolve-Gives fd _))
        (λ resolved c.
          Gives-then _ _ (search call_rules) (λ name.
            Gives-bind-Gives _ _ (Gives-lift resolved c) (λ r c'. Gives-pure (name, r) c'))))

  resolve_text-IsSound : (fd ptr n : ℕ) → Keeps (IsSound b) (resolve_text e fd ptr n)
  resolve_text-IsSound fd ptr n = Gives-Keeps _ (resolve_text-Gives fd ptr n)

  open_parent-IsSound : (file : ℕ) (name : Bytes) → Keeps (IsSound b) (open_parent e file name)
  unfolding open_parent
  open_parent-IsSound file name = search walk_rules depth 20

  path_unary-IsSound :
      (p : Params) (right : ℕ) (op : ℕ → Bytes → W → Option Error × W)
      → Keeps (IsSound b) (path_unary e p right op)
  unfolding path_unary
  path_unary-IsSound p right op =
      search (walk_rules, resolve_text-IsSound, open_parent-IsSound) depth 20

  pub path_create_directory-IsSound : (p : Params) → Keeps (IsSound b) (path_create_directory e p)
  unfolding path_create_directory
  path_create_directory-IsSound p = path_unary-IsSound p _ _

  pub path_remove_directory-IsSound : (p : Params) → Keeps (IsSound b) (path_remove_directory e p)
  unfolding path_remove_directory
  path_remove_directory-IsSound p = path_unary-IsSound p _ _

  metadata-IsSound :
      (file : ℕ) (name : Bytes) (follow : Bool) → Keeps (IsSound b) (metadata e file name follow)
  unfolding metadata
  metadata-IsSound file name follow = search walk_rules depth 20

  pub path_filestat_get-IsSound : (p : Params) → Keeps (IsSound b) (path_filestat_get e p)
  unfolding path_filestat_get
  path_filestat_get-IsSound p =
      search (walk_rules, resolve_text-IsSound, metadata-IsSound, write_filestat-IsSound) depth 20

  set_times_followed-IsSound :
      (p : Params) (name : Bytes) (r : Resolved) → Keeps (IsSound b) (set_times_followed e p name r)
  unfolding set_times_followed
  set_times_followed-IsSound p name r =
      search (walk_rules, requested_times-IsSound, set_file_times-IsSound) depth 20

  set_times_leaf-IsSound : (p : Params) (r : Resolved) → Keeps (IsSound b) (set_times_leaf e p r)
  unfolding set_times_leaf
  set_times_leaf-IsSound p r =
      search (walk_rules, open_parent-IsSound, metadata-IsSound, requested_times-IsSound) depth 20

  pub path_filestat_set_times-IsSound :
      (p : Params) → Keeps (IsSound b) (path_filestat_set_times e p)
  unfolding path_filestat_set_times
  path_filestat_set_times-IsSound p =
      search (walk_rules, resolve_text-IsSound, set_times_followed-IsSound, set_times_leaf-IsSound)
        depth 20

  refuse_directory-IsSound :
      (name : Bytes) (r : Resolved) → Keeps (IsSound b) (refuse_directory e name r)
  unfolding refuse_directory
  refuse_directory-IsSound name r = search (walk_rules, metadata-IsSound) depth 20

  pub path_readlink-IsSound : (p : Params) → Keeps (IsSound b) (path_readlink e p)
  unfolding path_readlink
  path_readlink-IsSound p =
      search (walk_rules, resolve_text-IsSound, refuse_directory-IsSound, open_parent-IsSound) depth
        24

  two_paths-IsSound :
      (old_fd old_ptr old_len new_fd new_ptr new_len : ℕ)
      → Keeps (IsSound b) (two_paths e old_fd old_ptr old_len new_fd new_ptr new_len)
  unfolding two_paths
  two_paths-IsSound old_fd old_ptr old_len new_fd new_ptr new_len =
      search (walk_rules, path_text-IsSound, resolve-IsSound) depth 24

  link_into-IsSound :
      (flags : ℕ) (old : Resolved) (new_parent : ℕ) (new_leaf : Bytes)
      → Keeps (IsSound b) (link_into e flags old new_parent new_leaf)
  unfolding link_into
  link_into-IsSound flags old new_parent new_leaf =
      search (walk_rules, open_parent-IsSound) depth 20

  pub path_link-IsSound : (p : Params) → Keeps (IsSound b) (path_link e p)
  unfolding path_link
  path_link-IsSound p =
      search (walk_rules, two_paths-IsSound, open_parent-IsSound, link_into-IsSound) depth 24

  pub path_rename-IsSound : (p : Params) → Keeps (IsSound b) (path_rename e p)
  unfolding path_rename
  path_rename-IsSound p = search (walk_rules, two_paths-IsSound, open_parent-IsSound) depth 24

  pub path_symlink-IsSound : (p : Params) → Keeps (IsSound b) (path_symlink e p)
  unfolding path_symlink
  path_symlink-IsSound p =
      search (walk_rules, path_text-IsSound, resolve-IsSound, open_parent-IsSound) depth 24

  unlink_slash-IsSound : (fd : ℕ) (name : Bytes) → Keeps (IsSound b) (unlink_slash e fd name)
  unfolding unlink_slash
  unlink_slash-IsSound fd name = search (walk_rules, resolve-IsSound) depth 20

  pub path_unlink_file-IsSound : (p : Params) → Keeps (IsSound b) (path_unlink_file e p)
  unfolding path_unlink_file
  path_unlink_file-IsSound p =
      search (walk_rules, path_text-IsSound, unlink_slash-IsSound, path_unary-IsSound) depth 20
