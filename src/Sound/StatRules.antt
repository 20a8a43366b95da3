-- ===== src/Sound/StatRules.antt =====
-- The handlers that read and set what the table knows of a descriptor keep the invariant: no rights
-- are gained by `fdFdstatSetRights`, and none by `fdRenumber`.
use wasi.Prelude.{ℕ, arith}
use wasi.Prelude.Bits.{subset_of_and_not, subset_trans}
use wasi.Host.{FileInfo}
use wasi.Table.{FdEntry}
use wasi.Exec.{Plugin, Params}
use wasi.Exec.Keeps.{Keeps, Keeps-stop_if-bind}
use wasi.Sound.{Bounds, IsSound, IsConfined}
use wasi.Sound.Rules.{write_entry-IsSound}
use wasi.Sound.Calls.{call_rules, entry-bind, entry_with-bind}
use wasi.Fd.Entry.{write_entry}
use wasi.Fd.Stat.{
  write_filestat, descriptor_type, fd_fdstat_get, fd_prestat_get, fd_prestat_dir_name,
  set_host_file_flags, fd_fdstat_set_flags, fd_fdstat_set_rights, fd_filestat_get,
}
use wasi.Fd.Times.{filesystem_now, requested_times, set_file_times, fd_filestat_set_times}

module _ {W : Type 0} (e : Plugin W) {b : Bounds} where
  pub write_filestat-IsSound :
      (ptr : ℕ) (info : FileInfo) → Keeps (IsSound b) (write_filestat e ptr info)
  unfolding write_filestat
  write_filestat-IsSound ptr info = search call_rules depth 20

  descriptor_type-IsSound : (f : FdEntry) → Keeps (IsSound b) (descriptor_type e f)
  unfolding descriptor_type
  descriptor_type-IsSound f = search call_rules depth 20

  pub fd_fdstat_get-IsSound : (p : Params) → Keeps (IsSound b) (fd_fdstat_get e p)
  unfolding fd_fdstat_get
  fd_fdstat_get-IsSound p = search (call_rules, descriptor_type-IsSound) depth 20

  pub fd_prestat_get-IsSound : (p : Params) → Keeps (IsSound b) (fd_prestat_get e p)
  unfolding fd_prestat_get
  fd_prestat_get-IsSound p = search call_rules depth 20

  pub fd_prestat_dir_name-IsSound : (p : Params) → Keeps (IsSound b) (fd_prestat_dir_name e p)
  unfolding fd_prestat_dir_name
  fd_prestat_dir_name-IsSound p = search call_rules depth 20

  set_host_file_flags-IsSound :
      (file flags : ℕ) → Keeps (IsSound b) (set_host_file_flags e file flags)
  unfolding set_host_file_flags
  set_host_file_flags-IsSound file flags = search call_rules depth 20

  write_flags-IsSound :
      (fd : ℕ) (f : FdEntry) (flags : ℕ)
      → IsConfined b.authority f
      → Keeps {W = W} (IsSound b) (write_entry fd (record f { flags = flags }))
  write_flags-IsSound fd f flags c =
      write_entry-IsSound fd _ (record { base = c.base; inherited = c.inherited })

  pub fd_fdstat_set_flags-IsSound : (p : Params) → Keeps (IsSound b) (fd_fdstat_set_flags e p)
  unfolding fd_fdstat_set_flags
  fd_fdstat_set_flags-IsSound p =
      entry_with-bind _ _ _
        (λ f c. search (call_rules, set_host_file_flags-IsSound, write_flags-IsSound) depth 20)

  pub fd_fdstat_set_rights-IsSound : (p : Params) → Keeps (IsSound b) (fd_fdstat_set_rights e p)
  unfolding fd_fdstat_set_rights
  fd_fdstat_set_rights-IsSound p = entry-bind _ _ (λ f c. Keeps-stop_if-bind _ _ _ (λ given.
      write_entry-IsSound _ _ (record {
        base =
            subset_trans (p 1) f.rights (b.authority f.mount)
              (subset_of_and_not (p 1) f.rights (ground arith)) c.base;
        inherited =
            subset_trans (p 2) f.inheriting (b.authority f.mount)
              (subset_of_and_not (p 2) f.inheriting (ground arith)) c.inherited;
      })))

  pub fd_filestat_get-IsSound : (p : Params) → Keeps (IsSound b) (fd_filestat_get e p)
  unfolding fd_filestat_get
  fd_filestat_get-IsSound p = search (call_rules, write_filestat-IsSound) depth 20

  filesystem_now-IsSound : Keeps (IsSound b) (filesystem_now e)
  unfolding filesystem_now
  filesystem_now-IsSound = search call_rules depth 20

  pub requested_times-IsSound :
      (info : FileInfo) (atim mtim flags : ℕ)
      → Keeps (IsSound b) (requested_times e info atim mtim flags)
  unfolding requested_times
  requested_times-IsSound info atim mtim flags =
      search (call_rules, filesystem_now-IsSound) depth 20

  pub set_file_times-IsSound :
      (file : ℕ) (times : ℕ × ℕ) → Keeps (IsSound b) (set_file_times e file times)
  unfolding set_file_times
  set_file_times-IsSound file times = search call_rules depth 20

  pub fd_filestat_set_times-IsSound : (p : Params) → Keeps (IsSound b) (fd_filestat_set_times e p)
  unfolding fd_filestat_set_times
  fd_filestat_set_times-IsSound p =
      search (call_rules, requested_times-IsSound, set_file_times-IsSound) depth 20
