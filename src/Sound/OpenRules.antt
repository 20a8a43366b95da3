-- ===== src/Sound/OpenRules.antt =====
-- `pathOpen` of internal/core/fs.go keeps the invariant: a descriptor that it opens has no right
-- that its directory does not pass on.
use wasi.Prelude.{ℕ, Bool, true, false, arith}
use wasi.Prelude.Bits.{IsSubset, subset_of_and_not, subset_trans, subset_meet_left, subset_refl}
use wasi.Abi.Rights.{directory_rights}
use wasi.Host.{Bytes}
use wasi.Table.{FdEntry}
use wasi.Exec.{Plugin, Params}
use wasi.Exec.Keeps.{Keeps, Keeps-then, Keeps-stop_if-bind}
use wasi.Exec.Gives.{Gives-bind}
use wasi.Sound.{Bounds, IsSound, IsConfined}
use wasi.Sound.Rules.{alloc_entry-IsSound}
use wasi.Sound.WalkRules.{walk_rules}
use wasi.Sound.PathRules.{resolve_text-Gives}
use wasi.PathHandlers.{Resolved}
use wasi.PathHandlers.Open.{
  rights_for, opened_entry, check_request, check_effects, retry_directory, open_file, check_kind,
  close_file, install, open_resolved, path_open,
}

-- The rights of a directory are fewer than those that were asked for.
rights_for-subset : (rights : ℕ) (is_dir : Bool) → IsSubset (rights_for rights is_dir) rights
unfolding rights_for
rights_for-subset rights true = subset_meet_left rights directory_rights
rights_for-subset rights false = subset_refl rights

opened_entry-IsConfined :
    (authority : Bytes → ℕ) (p : Params) (d : FdEntry) (h : ℕ) (is_dir : Bool)
    → IsConfined authority d
    → IsSubset (p 5) d.inheriting
    → IsSubset (p 6) d.inheriting
    → IsConfined authority (opened_entry p d h is_dir)
unfolding opened_entry
opened_entry-IsConfined authority p d h is_dir c base inherited = record {
  base =
      subset_trans (rights_for (p 5) is_dir) (p 5) (authority d.mount)
        (rights_for-subset (p 5) is_dir)
        (subset_trans (p 5) d.inheriting (authority d.mount) base c.inherited);
  inherited = subset_trans (p 6) d.inheriting (authority d.mount) inherited c.inherited;
}

module _ {W : Type 0} (e : Plugin W) {b : Bounds} where
  check_request-IsSound : (p : Params) (d : FdEntry) → Keeps (IsSound b) (check_request e p d)
  unfolding check_request
  check_request-IsSound p d = search walk_rules depth 20

  check_effects-IsSound :
      (p : Params) (d : FdEntry) (slash : Bool) → Keeps (IsSound b) (check_effects e p d slash)
  unfolding check_effects
  check_effects-IsSound p d slash = search walk_rules depth 20

  retry_directory-IsSound :
      (p : Params) (file : ℕ) (name : Bytes) (flags code : ℕ)
      → Keeps (IsSound b) (retry_directory e p file name flags code)
  unfolding retry_directory
  retry_directory-IsSound p file name flags code = search walk_rules depth 20

  open_file-IsSound :
      (p : Params) (file : ℕ) (name : Bytes) (flags : ℕ)
      → Keeps (IsSound b) (open_file e p file name flags)
  unfolding open_file
  open_file-IsSound p file name flags = search (walk_rules, retry_directory-IsSound) depth 20

  check_kind-IsSound : (p : Params) (h : ℕ) → Keeps (IsSound b) (check_kind e p h)
  unfolding check_kind
  check_kind-IsSound p h = search walk_rules depth 20

  close_file-IsSound : (h : ℕ) → Keeps (IsSound b) (close_file e h)
  unfolding close_file
  close_file-IsSound h = search walk_rules depth 20

  install-IsSound :
      (p : Params) (f : FdEntry) (h : ℕ)
      → IsConfined b.authority f
      → Keeps (IsSound b) (install e p f h)
  unfolding install
  install-IsSound p f h c = search (walk_rules, alloc_entry-IsSound, close_file-IsSound) depth 20

  open_resolved-IsSound :
      (p : Params) (slash : Bool) (r : Resolved)
      → IsConfined b.authority r.dir
      → IsSubset (p 5) r.dir.inheriting
      → IsSubset (p 6) r.dir.inheriting
      → Keeps (IsSound b) (open_resolved e p slash r)
  unfolding open_resolved
  open_resolved-IsSound p slash r c base inherited =
      search
        (
          walk_rules, check_effects-IsSound, open_file-IsSound, check_kind-IsSound,
          close_file-IsSound, install-IsSound, opened_entry-IsConfined,
        )
        depth 20

  pub path_open-IsSound : (p : Params) → Keeps (IsSound b) (path_open e p)
  unfolding path_open
  path_open-IsSound p = Gives-bind _ _ (resolve_text-Gives e _ _ _) (λ (name, r) c.
      Keeps-then _ _ (check_request-IsSound p r.dir) (
        Keeps-stop_if-bind _ _ _ (λ given.
          open_resolved-IsSound p _ r c (subset_of_and_not (p 5) r.dir.inheriting (ground arith))
            (subset_of_and_not (p 6) r.dir.inheriting (ground arith)))))
