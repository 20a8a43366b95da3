-- ===== src/Exec/Keeps.antt =====
-- What every call of a kind preserves: one rule for each way to build a call. Besides, the calls
-- whose effects are on one part of the machine alone.
use wasi.Prelude.{◌≡◌, refl, Bool, true, false, Option, none, some, ◌⊎◌, inl, inr, ℕ, if◌then◌else◌}
use wasi.Memory.{Mem}
use wasi.Table.{FsState}
use wasi.Exec.{
  Machine, Exec, Result, ok, err, exit, unfinished, continue, pure, fail, leave, go_on, host,
  host_pair, host_triple, lift, on_option, on_result, attempt, on_error, gets, ◌>>=◌, ◌>>◌, check,
  stop_if,
}

-- `m` keeps `Q` of the caller's table and memory, however it ends.
pub record Keeps {W A : Type 0} (Q : FsState → Mem → Type 0) (m : Exec W A) : Type 0 where
  pub at : (s : Machine W) → Q s.fs s.mem → Q (m s).1.fs (m s).1.mem

module _ {W A : Type 0} {Q : FsState → Mem → Type 0} where
  pub Keeps-pure : (a : A) → Keeps {W = W} Q (pure a)
  unfolding pure
  Keeps-pure a = record { at = λ s h. h }

  pub Keeps-fail : (code : ℕ) → Keeps {W = W} Q (fail {A = A} code)
  unfolding fail
  Keeps-fail code = record { at = λ s h. h }

  pub Keeps-leave : (code : ℕ) → Keeps {W = W} Q (leave {A = A} code)
  unfolding leave
  Keeps-leave code = record { at = λ s h. h }

  pub Keeps-go_on : Keeps {W = W} Q (go_on {A = A})
  unfolding go_on
  Keeps-go_on = record { at = λ s h. h }

  pub Keeps-gets : (f : Machine W → A) → Keeps Q (gets f)
  unfolding gets
  Keeps-gets f = record { at = λ s h. h }

  pub Keeps-host : (call : W → A × W) → Keeps Q (host call)
  unfolding host
  Keeps-host call = record { at = λ s h. h }

  pub Keeps-lift : (r : ℕ ⊎ A) → Keeps {W = W} Q (lift r)
  unfolding lift
  Keeps-lift (inl code) = record { at = λ s h. h }
  Keeps-lift (inr a) = record { at = λ s h. h }

  pub Keeps-if : (b : Bool) (m n : Exec W A) → Keeps Q m → Keeps Q n → Keeps Q (if b then m else n)
  Keeps-if true m n km kn = km
  Keeps-if false m n km kn = kn

module _ {W A B : Type 0} {Q : FsState → Mem → Type 0} where
  Keeps-continue :
      (r : Result A) (f : A → Exec W B) (s : Machine W)
      → ((a : A) → Keeps Q (f a))
      → Q s.fs s.mem
      → Q (continue r f s).1.fs (continue r f s).1.mem
  Keeps-continue (ok a) f s kf h = (kf a).at s h
  Keeps-continue (err code) f s kf h = h
  Keeps-continue (exit code) f s kf h = h
  Keeps-continue unfinished f s kf h = h

  pub Keeps-host_pair : (call : W → A × B × W) → Keeps Q (host_pair call)
  unfolding host_pair
  Keeps-host_pair call = record { at = λ s h. h }

  pub Keeps-host_triple : {C : Type 0} (call : W → A × B × C × W) → Keeps Q (host_triple call)
  unfolding host_triple
  Keeps-host_triple call = record { at = λ s h. h }

  pub Keeps-bind :
      (m : Exec W A) (f : A → Exec W B) → Keeps Q m → ((a : A) → Keeps Q (f a)) → Keeps Q (m >>= f)
  unfolding ◌>>=◌
  Keeps-bind m f km kf = record { at = λ s h. Keeps-continue (m s).0 f (m s).1 kf (km.at s h) }

  pub Keeps-then : (m : Exec W A) (n : Exec W B) → Keeps Q m → Keeps Q n → Keeps Q (m >> n)
  unfolding ◌>>◌
  Keeps-then m n km kn = Keeps-bind m (λ _. n) km (λ _. kn)

  pub Keeps-on_option :
      (o : Option A) (n : Exec W B) (f : A → Exec W B)
      → Keeps Q n
      → ((a : A) → Keeps Q (f a))
      → Keeps Q (on_option o n f)
  unfolding on_option
  Keeps-on_option none n f kn kf = kn
  Keeps-on_option (some a) n f kn kf = kf a

  pub Keeps-on_result :
      (o : ℕ ⊎ A) (n : ℕ → Exec W B) (f : A → Exec W B)
      → ((code : ℕ) → Keeps Q (n code))
      → ((a : A) → Keeps Q (f a))
      → Keeps Q (on_result o n f)
  unfolding on_result
  Keeps-on_result (inl code) n f kn kf = kn code
  Keeps-on_result (inr a) n f kn kf = kf a

module _ {W A : Type 0} (Q : FsState → Mem → Type 0) where
  attempted :
      (r : Result A) (s : Machine W)
      → Q s.fs s.mem
      → Q (attempt (λ (_ : Machine W). (r, s)) s).1.fs (attempt (λ (_ : Machine W). (r, s)) s).1.mem
  unfolding attempt
  attempted (ok a) s h = h
  attempted (err code) s h = h
  attempted (exit code) s h = h
  attempted unfinished s h = h

  cleaned :
      (r : Result A) (s : Machine W) (c : Exec W (Unit {0}))
      → Keeps Q c
      → Q s.fs s.mem
      → Q
          (on_error (λ (_ : Machine W). (r, s)) c s).1.fs
          (on_error (λ (_ : Machine W). (r, s)) c s).1.mem
  unfolding on_error
  cleaned (ok a) s c kc h = h
  cleaned (err code) s c kc h = kc.at s h
  cleaned (exit code) s c kc h = h
  cleaned unfinished s c kc h = h

module _ {W A : Type 0} {Q : FsState → Mem → Type 0} where
  pub Keeps-attempt : (m : Exec W A) → Keeps Q m → Keeps Q (attempt m)
  unfolding attempt
  Keeps-attempt m km = record { at = λ s h. attempted Q (m s).0 (m s).1 (km.at s h) }

  pub Keeps-on_error :
      (m : Exec W A) (c : Exec W (Unit {0})) → Keeps Q m → Keeps Q c → Keeps Q (on_error m c)
  unfolding on_error
  Keeps-on_error m c km kc = record { at = λ s h. cleaned Q (m s).0 (m s).1 c kc (km.at s h) }

module _ {W : Type 0} {Q : FsState → Mem → Type 0} where
  pub Keeps-stop_if : (b : Bool) (code : ℕ) → Keeps {W = W} Q (stop_if b code)
  unfolding stop_if
  Keeps-stop_if true code = Keeps-fail code
  Keeps-stop_if false code = Keeps-pure tt

  pub Keeps-check : (code : ℕ) → Keeps {W = W} Q (check code)
  unfolding check
  Keeps-check code = Keeps-if _ _ _ (Keeps-pure tt) (Keeps-fail code)

  -- What follows a test may use that it did not stop the call.
  pub Keeps-stop_if-bind :
      {B : Type 0} (b : Bool) (code : ℕ) (n : Exec W B)
      → (b ≡ false → Keeps Q n)
      → Keeps Q (stop_if b code >> n)
  unfolding stop_if ◌>>=◌ ◌>>◌
  Keeps-stop_if-bind true code n kn = record { at = λ s h. h }
  Keeps-stop_if-bind false code n kn = record { at = λ s h. (kn refl).at s h }

pub ruleset keeps_rules = (
  Keeps-pure, Keeps-fail, Keeps-leave, Keeps-go_on, Keeps-gets, Keeps-host, Keeps-host_pair,
  Keeps-host_triple, Keeps-lift, Keeps-if, Keeps-bind, Keeps-then, Keeps-on_option, Keeps-on_result,
  Keeps-attempt, Keeps-on_error, Keeps-stop_if, Keeps-check,
)
