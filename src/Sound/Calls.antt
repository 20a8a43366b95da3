-- ===== src/Sound/Calls.antt =====
-- The steps on descriptors that the handlers share, of internal/core/fs.go: which keep the
-- invariant, and which give a confined entry to what follows them.
use wasi.Prelude.{ℕ, Option, Option-cases, inl, inr}
use wasi.Abi.Errno.{Error}
use wasi.Host.{Io}
use wasi.Table.{FdEntry}
use wasi.Table.Map.{lookup}
use wasi.Exec.{Plugin, Exec, ◌>>=◌}
use wasi.Exec.Keeps.{Keeps, keeps_rules}
use wasi.Exec.Gives.{Gives, Gives-next, Gives-bind, Gives-bind-Gives, Gives-pure}
use wasi.Fd.Entry.{entry, entry_with, require_file, host_io, host_check, stat}
use wasi.Sound.{Bounds, IsSound, IsConfined}
use wasi.Sound.Rules.{sound_rules, require-IsSound}

module _ {W : Type 0} {b : Bounds} where
  pub entry-Gives : (fd : ℕ) → Gives {W = W} (IsSound b) (IsConfined b.authority) (entry fd)
  unfolding entry
  entry-Gives fd = record {
    at = λ s h. elim (Option-cases (lookup fd s.fs.fds)) [
      | inl e ↦ rw (e, entry) (h, tt)
      | inr (f, e) ↦ rw (e, entry) (h, h.confined fd f e)
    ];
  }

  pub entry_with-Gives :
      (fd right : ℕ) → Gives {W = W} (IsSound b) (IsConfined b.authority) (entry_with fd right)
  unfolding entry_with
  entry_with-Gives fd right =
      Gives-bind-Gives _ _ (entry-Gives fd)
        (λ f c. Gives-next _ _ (require-IsSound f right) (Gives-pure f c))

  pub entry-bind :
      {A : Type 0} (fd : ℕ) (k : FdEntry → Exec W A)
      → ((f : FdEntry) → IsConfined b.authority f → Keeps (IsSound b) (k f))
      → Keeps (IsSound b) (entry fd >>= k)
  entry-bind fd k = Gives-bind _ k (entry-Gives fd)

  pub entry_with-bind :
      {A : Type 0} (fd right : ℕ) (k : FdEntry → Exec W A)
      → ((f : FdEntry) → IsConfined b.authority f → Keeps (IsSound b) (k f))
      → Keeps (IsSound b) (entry_with fd right >>= k)
  entry_with-bind fd right k = Gives-bind _ k (entry_with-Gives fd right)

  pub require_file-IsSound :
      (f : FdEntry) (code : ℕ) → Keeps {W = W} (IsSound b) (require_file f code)
  unfolding require_file
  require_file-IsSound f code = search keeps_rules

  pub host_io-IsSound : {A : Type 0} (call : W → Io A × W) → Keeps (IsSound b) (host_io call)
  unfolding host_io
  host_io-IsSound call = search keeps_rules

  pub host_check-IsSound : (call : W → Option Error × W) → Keeps (IsSound b) (host_check call)
  unfolding host_check
  host_check-IsSound call = search keeps_rules

  pub stat-IsSound : (e : Plugin W) (file : ℕ) → Keeps (IsSound b) (stat e file)
  unfolding stat
  stat-IsSound e file = host_io-IsSound (e.host.stat file)

pub ruleset call_rules =
    (sound_rules, require_file-IsSound, host_io-IsSound, host_check-IsSound, stat-IsSound)
