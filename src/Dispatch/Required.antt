-- ===== src/Dispatch/Required.antt =====
-- What the handlers of internal/core/core.go and fs.go ask of the table before they succeed.
use wasi.Prelude.{
  ℕ, ◌≡◌, subst, false, ◌||◌, not, Option, some, inl, inr, Option-cases, Bool-cases, bit_and, ◌==◌,
  arith,
}
use wasi.Prelude.Bits.{and_not}
use wasi.Abi.Rights.{
  right_path_open, right_path_filestat_get, right_path_filestat_set_times, right_path_readlink,
  right_path_link_source, right_path_link_target, right_path_rename_source,
  right_path_rename_target, right_path_symlink, right_path_unlink_file,
}
use wasi.Abi.Errno.{Error, wasi_enotcapable}
use wasi.Host.{Bytes}
use wasi.Table.{FdEntry, FsState}
use wasi.Table.Map.{lookup}
use wasi.Exec.{Plugin, Exec, Params, u32, ◌>>◌, check, pure, fail, attempt}
use wasi.Exec.Keeps.{Keeps, keeps_rules}
use wasi.Exec.Gives.{
  Gives, Right, Gives-Keeps, Gives-pure, Gives-then, Gives-next, Gives-bind-Gives, Gives-attempt,
  Gives-lift,
}
use wasi.Exec.Needs.{
  Same, Needs, Needs-weaken, Needs-fail, Needs-holds, Needs-if, Needs-both, Needs-stop_if,
  Needs-first, Needs-first_next, Needs-bind, Needs-then, Needs-next,
}
use wasi.Fd.Entry.{entry, require, entry_with, require_file, host_io, stat}
use wasi.Fd.Manage.{fd_renumber}
use wasi.PathHandlers.{Resolved, resolve, path_text, resolve_text, path_unary}
use wasi.PathHandlers.Metadata.{path_filestat_get, path_filestat_set_times, path_readlink}
use wasi.PathHandlers.Links.{
  TwoPaths, two_paths, path_link, path_rename, path_symlink, unlink_slash, path_unlink_file,
}
use wasi.PathHandlers.Open.{check_request, path_open}

-- The descriptor is open; and it is open with a right.
abbrev pub IsOpen : FsState → ℕ → Type 0
IsOpen fs fd = (f : FdEntry) × (lookup fd fs.fds ≡ some f)

abbrev pub Holds : FsState → ℕ → ℕ → Type 0
Holds fs fd right = (f : FdEntry) × (lookup fd fs.fds ≡ some f) × (bit_and f.rights right ≡ right)

-- The descriptor is open with a right, and may pass on two sets of rights.
abbrev pub Lends : FsState → ℕ → ℕ → ℕ → ℕ → Type 0
Lends fs fd right lent inherited =
    (f : FdEntry) × (lookup fd fs.fds ≡ some f)
    × (bit_and f.rights right ≡ right)
    × (and_not lent f.inheriting ≡ 0)
    × (and_not inherited f.inheriting ≡ 0)

-- The directory of a resolved path is the descriptor's entry.
abbrev DirectoryOf : FsState → ℕ → Resolved → Type 0
DirectoryOf fs fd r = lookup fd fs.fds ≡ some r.dir

-- The same entry has the right and passes on what is asked for.
lent :
    (fs : FsState) (fd right a b : ℕ) (d : FdEntry)
    → lookup fd fs.fds ≡ some d
    → Holds fs fd right
    → (not (and_not a d.inheriting == 0) || not (and_not b d.inheriting == 0)) ≡ false
    → Lends fs fd right a b
lent fs fd right a b d found (f, there, has) none_refused =
    let same : f ≡ d = ground arith in
    (f, there, has, rw same (ground arith), rw same (ground arith))

module _ {W : Type 0} {fs : FsState} where
  entry-Gives : (fd : ℕ) → Gives {W = W} (Same fs) (λ f. lookup fd fs.fds ≡ some f) (entry fd)
  unfolding entry
  entry-Gives fd = record {
    at = λ s e. elim (Option-cases (lookup fd s.fs.fds)) [
      | inl absent ↦ rw (absent, entry) (e, tt)
      | inr (f, found) ↦ rw (found, entry) (e, subst (λ t. lookup fd t.fds ≡ some f) e found)
    ];
  }

  -- A right that was required.
  require-Needs :
      (fd right : ℕ) (f : FdEntry)
      → lookup fd fs.fds ≡ some f
      → Needs {W = W} fs (Holds fs fd right) (require f right)
  unfolding require check pure fail
  require-Needs fd right f found = elim (Bool-cases (bit_and f.rights right == right)) [
    | inl has ↦ Needs-holds _ (f, found, ground arith)
    | inr lacks ↦ rw (require, lacks) (Needs-fail wasi_enotcapable)
  ]

  pub entry_with-Needs : (fd right : ℕ) → Needs {W = W} fs (Holds fs fd right) (entry_with fd right)
  unfolding entry_with
  entry_with-Needs fd right =
      Needs-bind _ _ (entry-Gives fd)
        (λ f found. Needs-first_next _ _ (require-Needs fd right f found))

  pub entry-Needs : (fd : ℕ) → Needs {W = W} fs (IsOpen fs fd) (entry fd)
  unfolding entry
  entry-Needs fd = record {
    at = λ s e. elim (Option-cases (lookup fd s.fs.fds)) [
      | inl absent ↦ rw (absent, entry) tt
      | inr (f, found) ↦ rw (found, entry) (f, subst (λ t. lookup fd t.fds ≡ some f) e found)
    ];
  }

  require-Same : (f : FdEntry) (right : ℕ) → Keeps {W = W} (Same fs) (require f right)
  unfolding require
  require-Same f right = search keeps_rules

  require_file-Same : (f : FdEntry) (code : ℕ) → Keeps {W = W} (Same fs) (require_file f code)
  unfolding require_file
  require_file-Same f code = search keeps_rules

module _ {W : Type 0} (e : Plugin W) {fs : FsState} where
  stat-Same : (file : ℕ) → Keeps (Same fs) (stat e file)
  unfolding stat host_io
  stat-Same file = search keeps_rules

  path_text-Same : (ptr n : ℕ) → Keeps (Same fs) (path_text e ptr n)
  unfolding path_text
  path_text-Same ptr n = search keeps_rules

  resolve-Gives :
      (fd : ℕ) (guest : Bytes) → Gives (Same fs) (DirectoryOf fs fd) (resolve e fd guest)
  unfolding resolve
  resolve-Gives fd guest = Gives-bind-Gives _ _ (entry-Gives fd) (λ d found.
      Gives-then _ _ (require_file-Same d _) (λ file. Gives-then _ _ (stat-Same file) (λ info.
        Gives-next _ _ (search keeps_rules) (
          Gives-next _ _ (search keeps_rules)
            (Gives-next _ _ (search keeps_rules) (Gives-pure _ found))))))

  attempt-resolve-Gives :
      (fd : ℕ) (guest : Bytes)
      → Gives (Same fs) (Right (DirectoryOf fs fd)) (attempt (resolve e fd guest))
  attempt-resolve-Gives fd guest =
      Gives-attempt (Same fs) (DirectoryOf fs fd) _ (resolve-Gives fd guest)

  resolve_text-Gives :
      (fd ptr n : ℕ)
      → Gives (Same fs) (λ (r : Bytes × Resolved). DirectoryOf fs fd r.1) (resolve_text e fd ptr n)
  unfolding resolve_text
  resolve_text-Gives fd ptr n = Gives-then _ _ (path_text-Same ptr n) (λ text.
      Gives-bind-Gives _ _ (attempt-resolve-Gives fd _) (λ resolved found.
        Gives-then _ _ (search keeps_rules) (λ name.
          Gives-bind-Gives _ _ (Gives-lift resolved found)
            (λ r found'. Gives-pure (name, r) found'))))

  two_paths-Gives :
      (old_fd old_ptr old_len new_fd new_ptr new_len : ℕ)
      → Gives
          (Same fs)
          (λ (t : TwoPaths). DirectoryOf fs old_fd t.old × DirectoryOf fs new_fd t.new)
          (two_paths e old_fd old_ptr old_len new_fd new_ptr new_len)
  unfolding two_paths
  two_paths-Gives old_fd old_ptr old_len new_fd new_ptr new_len =
      Gives-then _ _ (path_text-Same old_ptr old_len) (λ old_text.
        Gives-then _ _ (path_text-Same new_ptr new_len) (λ new_text.
          Gives-bind-Gives _ _ (attempt-resolve-Gives old_fd _) (λ old found.
            Gives-bind-Gives _ _ (attempt-resolve-Gives new_fd _) (λ new there.
              Gives-then _ _ (search keeps_rules) (λ old_name.
                Gives-then _ _ (search keeps_rules) (λ new_name.
                  Gives-bind-Gives _ _ (Gives-lift old found) (λ od found'.
                    Gives-bind-Gives _ _ (Gives-lift new there)
                      (λ nd there'. Gives-pure _ (found', there')))))))))

  pub path_unary-Needs :
      (p : Params) (right : ℕ) (op : ℕ → Bytes → W → Option Error × W)
      → Needs fs (Holds fs (u32 (p 0)) right) (path_unary e p right op)
  unfolding path_unary
  path_unary-Needs p right op =
      Needs-bind _ _ (resolve_text-Gives _ _ _)
        (λ r found. Needs-first_next _ _ (require-Needs _ right r.1.dir found))

  pub path_filestat_get-Needs :
      (p : Params) → Needs fs (Holds fs (u32 (p 0)) right_path_filestat_get) (path_filestat_get e p)
  unfolding path_filestat_get
  path_filestat_get-Needs p =
      Needs-bind _ _ (resolve_text-Gives _ _ _)
        (λ r found. Needs-first_next _ _ (require-Needs _ _ r.1.dir found))

  pub path_filestat_set_times-Needs :
      (p : Params)
      → Needs fs (Holds fs (u32 (p 0)) right_path_filestat_set_times) (path_filestat_set_times e p)
  unfolding path_filestat_set_times
  path_filestat_set_times-Needs p =
      Needs-bind _ _ (resolve_text-Gives _ _ _)
        (λ r found. Needs-first_next _ _ (require-Needs _ _ r.1.dir found))

  pub path_readlink-Needs :
      (p : Params) → Needs fs (Holds fs (u32 (p 0)) right_path_readlink) (path_readlink e p)
  unfolding path_readlink
  path_readlink-Needs p =
      Needs-bind _ _ (resolve_text-Gives _ _ _)
        (λ r found. Needs-first_next _ _ (require-Needs _ _ r.1.dir found))

  two_required :
      {B : Type 0} (fd fd' right right' : ℕ) (t : TwoPaths) (n : Exec W B)
      → DirectoryOf fs fd t.old × DirectoryOf fs fd' t.new
      → Needs fs
          (Holds fs fd right × Holds fs fd' right')
          (require t.old.dir right >> (require t.new.dir right' >> n))
  two_required fd fd' right right' t n (found, there) =
      Needs-both _ (Needs-first_next _ _ (require-Needs fd right t.old.dir found)) (
        Needs-next _ _ (require-Same t.old.dir right)
          (Needs-first_next _ _ (require-Needs fd' right' t.new.dir there)))

  pub path_link-Needs :
      (p : Params)
      → Needs fs
          (Holds fs (u32 (p 0)) right_path_link_source
            × Holds fs (u32 (p 4)) right_path_link_target)
          (path_link e p)
  unfolding path_link
  path_link-Needs p =
      Needs-bind _ _ (two_paths-Gives _ _ _ _ _ _) (λ t found. two_required _ _ _ _ t _ found)

  pub path_rename-Needs :
      (p : Params)
      → Needs fs
          (Holds fs (u32 (p 0)) right_path_rename_source
            × Holds fs (u32 (p 3)) right_path_rename_target)
          (path_rename e p)
  unfolding path_rename
  path_rename-Needs p =
      Needs-bind _ _ (two_paths-Gives _ _ _ _ _ _) (λ t found. two_required _ _ _ _ t _ found)

  pub path_symlink-Needs :
      (p : Params) → Needs fs (Holds fs (u32 (p 2)) right_path_symlink) (path_symlink e p)
  unfolding path_symlink
  path_symlink-Needs p = Needs-then _ _ (path_text-Same _ _) (λ target_text.
      Needs-then _ _ (path_text-Same _ _) (λ name_text.
        Needs-bind _ _ (attempt-resolve-Gives _ _) (λ resolved found.
          Needs-then _ _ (search keeps_rules) (λ target.
            Needs-then _ _ (search keeps_rules) (λ name.
              Needs-bind _ _ (Gives-lift resolved found)
                (λ r found'. Needs-first_next _ _ (require-Needs _ _ r.dir found')))))))

  unlink_slash-Needs :
      (fd : ℕ) (name : Bytes)
      → Needs fs (Holds fs fd right_path_unlink_file) (unlink_slash e fd name)
  unfolding unlink_slash
  unlink_slash-Needs fd name =
      Needs-bind _ _ (resolve-Gives fd name)
        (λ r found. Needs-first_next _ _ (require-Needs fd _ r.dir found))

  pub path_unlink_file-Needs :
      (p : Params) → Needs fs (Holds fs (u32 (p 0)) right_path_unlink_file) (path_unlink_file e p)
  unfolding path_unlink_file
  path_unlink_file-Needs p =
      Needs-then _ _ (path_text-Same _ _)
        (λ text. Needs-if _ _ _ (unlink_slash-Needs _ _) (path_unary-Needs p _ _))

  check_request-Needs :
      (p : Params) (fd : ℕ) (d : FdEntry)
      → lookup fd fs.fds ≡ some d
      → Needs fs (Holds fs fd right_path_open) (check_request e p d)
  unfolding check_request
  check_request-Needs p fd d found = Needs-first_next _ _ (require-Needs fd _ d found)

  check_request-Same : (p : Params) (d : FdEntry) → Keeps (Same fs) (check_request e p d)
  unfolding check_request
  check_request-Same p d = search (keeps_rules, require-Same)

  pub path_open-Needs :
      (p : Params) → Needs fs (Lends fs (u32 (p 0)) right_path_open (p 5) (p 6)) (path_open e p)
  unfolding path_open
  path_open-Needs p = Needs-bind _ _ (resolve_text-Gives _ _ _) (λ r found.
      Needs-weaken _ (λ both. lent fs _ _ (p 5) (p 6) r.1.dir found both.0 both.1)
        (Needs-both _ (Needs-first_next _ _ (check_request-Needs p _ r.1.dir found)) (
          Needs-next _ _ (check_request-Same p r.1.dir)
            (Needs-first_next _ _ (Needs-stop_if _ _ (λ passed. passed))))))

  pub fd_renumber-Needs :
      (p : Params) → Needs fs (IsOpen fs (u32 (p 0)) × IsOpen fs (u32 (p 1))) (fd_renumber e p)
  unfolding fd_renumber
  fd_renumber-Needs p = Needs-both _ (Needs-first _ _ (entry-Needs (u32 (p 0)))) (
      Needs-then _ _ (Gives-Keeps _ (entry-Gives (u32 (p 0))))
        (λ f. Needs-next _ _ (search keeps_rules) (Needs-first _ _ (entry-Needs (u32 (p 1))))))
