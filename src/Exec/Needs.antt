-- ===== src/Exec/Needs.antt =====
-- Calls that succeed only where a condition holds of the table that they start from.
use wasi.Prelude.{◌≡◌, refl, Bool, true, false, ℕ, if◌then◌else◌}
use wasi.Memory.{Mem}
use wasi.Table.{FsState}
use wasi.Exec.{
  Machine, Exec, Result, ok, err, exit, unfinished, continue, pure, fail, ◌>>=◌, ◌>>◌, stop_if,
}
use wasi.Exec.Keeps.{Keeps}
use wasi.Exec.Gives.{Gives, Value}

-- The table is `fs`.
abbrev pub Same : FsState → FsState → Mem → Type 0
Same fs fs' mem = fs' ≡ fs

-- From the table `fs`, `m` returns no value unless `H`.
pub record Needs {W A : Type 0} (fs : FsState) (H : Type 0) (m : Exec W A) : Type 0 where
  pub at : (s : Machine W) → s.fs ≡ fs → Value (λ _. H) (m s).0

any-Value : {A : Type 0} {H : Type 0} (r : Result A) → H → Value (λ _. H) r
any-Value (ok a) h = h
any-Value (err code) h = tt
any-Value (exit code) h = tt
any-Value unfinished h = tt

weakened : {A H G : Type 0} (r : Result A) → (H → G) → Value (λ _. H) r → Value (λ _. G) r
weakened (ok a) f h = f h
weakened (err code) f h = tt
weakened (exit code) f h = tt
weakened unfinished f h = tt

both :
    {A : Type 0} (H G : Type 0) (r : Result A)
    → Value (λ _. H) r
    → Value (λ _. G) r
    → Value (λ _. H × G) r
both H G (ok a) h g = (h, g)
both H G (err code) h g = tt
both H G (exit code) h g = tt
both H G unfinished h g = tt

module _ {W A B : Type 0} (H : Type 0) where
  continue_first :
      (r : Result A) (f : A → Exec W B) (s : Machine W)
      → Value (λ _. H) r
      → Value (λ _. H) (continue r f s).0
  continue_first (ok a) f s h = any-Value (f a s).0 h
  continue_first (err code) f s h = tt
  continue_first (exit code) f s h = tt
  continue_first unfinished f s h = tt

module _ {W A : Type 0} {fs : FsState} {H : Type 0} where
  pub Needs-fail : (code : ℕ) → Needs {W = W} {A = A} fs H (fail code)
  unfolding fail
  Needs-fail code = record { at = λ s e. tt }

  pub Needs-holds : (m : Exec W A) → H → Needs fs H m
  Needs-holds m h = record { at = λ s e. any-Value (m s).0 h }

  pub Needs-if :
      (b : Bool) (m n : Exec W A) → Needs fs H m → Needs fs H n → Needs fs H (if b then m else n)
  Needs-if true m n km kn = km
  Needs-if false m n km kn = kn

  pub Needs-weaken : {G : Type 0} (m : Exec W A) → (H → G) → Needs fs H m → Needs fs G m
  Needs-weaken {G = G} m f km = record { at = λ s e. weakened (m s).0 f (km.at s e) }

  pub Needs-both : {G : Type 0} (m : Exec W A) → Needs fs H m → Needs fs G m → Needs fs (H × G) m
  Needs-both {G = G} m h g = record { at = λ s e. both H G (m s).0 (h.at s e) (g.at s e) }

module _ {W : Type 0} {fs : FsState} {H : Type 0} where
  pub Needs-stop_if : (b : Bool) (code : ℕ) → (b ≡ false → H) → Needs {W = W} fs H (stop_if b code)
  unfolding stop_if fail pure
  Needs-stop_if true code h = record { at = λ s e. tt }
  Needs-stop_if false code h = record { at = λ s e. h refl }

module _ {W A B : Type 0} {fs : FsState} {H : Type 0} where
  pub Needs-first : (m : Exec W A) (f : A → Exec W B) → Needs fs H m → Needs fs H (m >>= f)
  unfolding ◌>>=◌
  Needs-first m f km = record { at = λ s e. continue_first H (m s).0 f (m s).1 (km.at s e) }

  pub Needs-first_next : (m : Exec W A) (n : Exec W B) → Needs fs H m → Needs fs H (m >> n)
  unfolding ◌>>◌
  Needs-first_next m n km = Needs-first m (λ _. n) km

  continue_with :
      {P : A → Type 0} (r : Result A) (f : A → Exec W B) (s : Machine W)
      → ((a : A) → P a → Needs fs H (f a))
      → s.fs ≡ fs
      → Value P r
      → Value (λ _. H) (continue r f s).0
  continue_with (ok a) f s kf e v = (kf a v).at s e
  continue_with (err code) f s kf e v = tt
  continue_with (exit code) f s kf e v = tt
  continue_with unfinished f s kf e v = tt

  pub Needs-bind :
      {P : A → Type 0} (m : Exec W A) (f : A → Exec W B)
      → Gives (Same fs) P m
      → ((a : A) → P a → Needs fs H (f a))
      → Needs fs H (m >>= f)
  unfolding ◌>>=◌
  Needs-bind m f km kf = record {
    at = λ s e. continue_with (m s).0 f (m s).1 kf (km.at s e).0 (km.at s e).1;
  }

  pub Needs-then :
      (m : Exec W A) (f : A → Exec W B)
      → Keeps (Same fs) m
      → ((a : A) → Needs fs H (f a))
      → Needs fs H (m >>= f)
  unfolding ◌>>=◌
  Needs-then m f km kf = record {
    at = λ s e.
        continue_with {P = λ _. Unit} (m s).0 f (m s).1 (λ a _. kf a) (km.at s e)
          (any-Value (m s).0 tt);
  }

  pub Needs-next :
      (m : Exec W A) (n : Exec W B) → Keeps (Same fs) m → Needs fs H n → Needs fs H (m >> n)
  unfolding ◌>>◌
  Needs-next m n km kn = Needs-then m (λ _. n) km (λ _. kn)
