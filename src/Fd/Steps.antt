-- ===== src/Fd/Steps.antt =====
-- How the first steps of a handler (internal/core/fs.go, `entry`) go on, by what they find.
use wasi.Prelude.{ℕ, ◌≡◌, refl, Bool, true, false, some}
use wasi.Table.{FdEntry}
use wasi.Table.Map.{lookup}
use wasi.Exec.{Machine, Exec, err, ◌>>=◌, ◌>>◌, pure, fail, stop_if}
use wasi.Fd.Entry.{entry}

module _ {W A : Type 0} where
  pub entry_found :
      (fd : ℕ) (k : FdEntry → Exec W A) (s : Machine W) (f : FdEntry)
      → lookup fd s.fs.fds ≡ some f
      → (entry fd >>= k) s ≡ k f s
  unfolding entry ◌>>=◌
  entry_found fd k s f found = rw (found, entry) refl

  pub stop_if_passed :
      (test : Bool) (code : ℕ) (m : Exec W A) (s : Machine W)
      → test ≡ false
      → (stop_if test code >> m) s ≡ m s
  unfolding stop_if ◌>>◌ ◌>>=◌ pure fail
  stop_if_passed true code m s passed = absurd (cc)
  stop_if_passed false code m s passed = refl

  pub stop_if_stopped :
      (test : Bool) (code : ℕ) (m : Exec W A) (s : Machine W)
      → test ≡ true
      → (stop_if test code >> m) s ≡ (err code, s)
  unfolding stop_if ◌>>◌ ◌>>=◌ pure fail
  stop_if_stopped true code m s stopped = refl
  stop_if_stopped false code m s stopped = absurd (cc)
