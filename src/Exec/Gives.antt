-- ===== src/Exec/Gives.antt =====
-- Calls that keep a property of the machine and give a value of which more is known: what follows
-- such a call may use it.
use wasi.Prelude.{Bool, true, false, Option, none, some, ◌⊎◌, inl, inr, ℕ, if◌then◌else◌}
use wasi.Memory.{Mem}
use wasi.Table.{FsState}
use wasi.Exec.{
  Machine, Exec, Result, ok, err, exit, unfinished, go_on, continue, pure, fail, lift, on_option,
  attempt, ◌>>=◌, ◌>>◌,
}
use wasi.Exec.Keeps.{Keeps}

abbrev pub Value : {A : Type 0} → (A → Type 0) → Result A → Type 0
Value P (ok a) = P a
Value P (err code) = Unit
Value P (exit code) = Unit
Value P unfinished = Unit

-- `P` of a value that was attempted, where there is one.
abbrev pub Right : {A : Type 0} → (A → Type 0) → ℕ ⊎ A → Type 0
Right P (inl code) = Unit
Right P (inr a) = P a

pub record Gives {W A : Type 0} (Q : FsState → Mem → Type 0) (P : A → Type 0) (m : Exec W A)
    : Type 0 where
  pub at : (s : Machine W) → Q s.fs s.mem → Q (m s).1.fs (m s).1.mem × Value P (m s).0

module _ {W A : Type 0} {Q : FsState → Mem → Type 0} {P : A → Type 0} where
  pub Gives-pure : (a : A) → P a → Gives {W = W} Q P (pure a)
  unfolding pure
  Gives-pure a pa = record { at = λ s h. (h, pa) }

  pub Gives-fail : (code : ℕ) → Gives {W = W} Q P (fail code)
  unfolding fail
  Gives-fail code = record { at = λ s h. (h, tt) }

  pub Gives-go_on : Gives {W = W} Q P go_on
  unfolding go_on
  Gives-go_on = record { at = λ s h. (h, tt) }

  pub Gives-lift : (r : ℕ ⊎ A) → Right P r → Gives {W = W} Q P (lift r)
  unfolding lift
  Gives-lift (inl code) pa = record { at = λ s h. (h, tt) }
  Gives-lift (inr a) pa = record { at = λ s h. (h, pa) }

  pub Gives-if :
      (b : Bool) (m n : Exec W A) → Gives Q P m → Gives Q P n → Gives Q P (if b then m else n)
  Gives-if true m n km kn = km
  Gives-if false m n km kn = kn

module _ {W A : Type 0} (Q : FsState → Mem → Type 0) (P : A → Type 0) where
  attempted :
      (r : Result A) (s : Machine W)
      → Q s.fs s.mem
      → Value P r
      → Q (attempt (λ (_ : Machine W). (r, s)) s).1.fs (attempt (λ (_ : Machine W). (r, s)) s).1.mem
        × Value (Right P) (attempt (λ (_ : Machine W). (r, s)) s).0
  unfolding attempt
  attempted (ok a) s h v = (h, v)
  attempted (err code) s h v = (h, tt)
  attempted (exit code) s h v = (h, tt)
  attempted unfinished s h v = (h, tt)

  pub Gives-attempt : (m : Exec W A) → Gives Q P m → Gives Q (Right P) (attempt m)
  unfolding attempt
  Gives-attempt m km = record { at = λ s h. attempted (m s).0 (m s).1 (km.at s h).0 (km.at s h).1 }

module _ {W A B : Type 0} {Q : FsState → Mem → Type 0} {P : A → Type 0} where
  continue_keeps :
      (r : Result A) (f : A → Exec W B) (s : Machine W)
      → ((a : A) → P a → Keeps Q (f a))
      → Value P r
      → Q s.fs s.mem
      → Q (continue r f s).1.fs (continue r f s).1.mem
  continue_keeps (ok a) f s kf v h = (kf a v).at s h
  continue_keeps (err code) f s kf v h = h
  continue_keeps (exit code) f s kf v h = h
  continue_keeps unfinished f s kf v h = h

  pub Gives-bind :
      (m : Exec W A) (f : A → Exec W B)
      → Gives Q P m
      → ((a : A) → P a → Keeps Q (f a))
      → Keeps Q (m >>= f)
  unfolding ◌>>=◌
  Gives-bind m f km kf = record {
    at = λ s h. continue_keeps (m s).0 f (m s).1 kf (km.at s h).1 (km.at s h).0;
  }

module _ {W A B : Type 0} {Q : FsState → Mem → Type 0} {P : A → Type 0} {R : B → Type 0} where
  continue-Gives :
      (r : Result A) (f : A → Exec W B) (s : Machine W)
      → ((a : A) → P a → Gives Q R (f a))
      → Value P r
      → Q s.fs s.mem
      → Q (continue r f s).1.fs (continue r f s).1.mem × Value R (continue r f s).0
  continue-Gives (ok a) f s kf v h = (kf a v).at s h
  continue-Gives (err code) f s kf v h = (h, tt)
  continue-Gives (exit code) f s kf v h = (h, tt)
  continue-Gives unfinished f s kf v h = (h, tt)

  pub Gives-bind-Gives :
      (m : Exec W A) (f : A → Exec W B)
      → Gives Q P m
      → ((a : A) → P a → Gives Q R (f a))
      → Gives Q R (m >>= f)
  unfolding ◌>>=◌
  Gives-bind-Gives m f km kf = record {
    at = λ s h. continue-Gives (m s).0 f (m s).1 kf (km.at s h).1 (km.at s h).0;
  }

module _ {W A B : Type 0} {Q : FsState → Mem → Type 0} {R : B → Type 0} where
  continue_then :
      (r : Result A) (f : A → Exec W B) (s : Machine W)
      → ((a : A) → Gives Q R (f a))
      → Q s.fs s.mem
      → Q (continue r f s).1.fs (continue r f s).1.mem × Value R (continue r f s).0
  continue_then (ok a) f s kf h = (kf a).at s h
  continue_then (err code) f s kf h = (h, tt)
  continue_then (exit code) f s kf h = (h, tt)
  continue_then unfinished f s kf h = (h, tt)

  pub Gives-then :
      (m : Exec W A) (f : A → Exec W B)
      → Keeps Q m
      → ((a : A) → Gives Q R (f a))
      → Gives Q R (m >>= f)
  unfolding ◌>>=◌
  Gives-then m f km kf = record { at = λ s h. continue_then (m s).0 f (m s).1 kf (km.at s h) }

  pub Gives-next : (m : Exec W A) (n : Exec W B) → Keeps Q m → Gives Q R n → Gives Q R (m >> n)
  unfolding ◌>>◌
  Gives-next m n km kn = Gives-then m (λ _. n) km (λ _. kn)

  pub Gives-on_option :
      (o : Option A) (n : Exec W B) (f : A → Exec W B)
      → Gives Q R n
      → ((a : A) → Gives Q R (f a))
      → Gives Q R (on_option o n f)
  unfolding on_option
  Gives-on_option none n f kn kf = kn
  Gives-on_option (some a) n f kn kf = kf a

module _ {W A : Type 0} {Q : FsState → Mem → Type 0} {P : A → Type 0} where
  pub Gives-Keeps : (m : Exec W A) → Gives Q P m → Keeps Q m
  Gives-Keeps m g = record { at = λ s h. (g.at s h).0 }

pub ruleset gives_rules =
    (Gives-pure, Gives-fail, Gives-go_on, Gives-if, Gives-then, Gives-next, Gives-on_option)
