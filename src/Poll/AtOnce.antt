-- ===== src/Poll/AtOnce.antt =====
-- internal/core/poll.go: polls that need no wait.
use wasi.Prelude.{
  ◌≡◌, refl, ℕ, zero, suc, ◌≤◌, List, [], ◌∷◌, Bool, true, false, not, ◌||◌, Option, none, some,
  ◌⊎◌, inl, inr, length, leb, arith, ◌==◌, if◌then◌else◌,
}
use wasi.Abi.Errno.{errno}
use wasi.Host.{Io, done, failed, Stream, os_file, custom}
use wasi.Table.{FdEntry}
use wasi.Exec.{
  Machine, Exec, Plugin, Result, ok, continue, ◌>>=◌, pure, host, lift, attempt, on_option,
  on_result,
}
use wasi.Fd.Entry.{host_io, io_code, stat}
use wasi.Poll.{
  PollSubscription, os_file_error, object_error, stream_file_error, os_file_ready, regular_or_ready,
  object_ready, stream_ready, renew_code, check_subscription, ready_subscriptions,
}
use wasi.Poll.Oneoff.{Round, poll_loop, poll_until}

-- The call succeeds from every state, with a value that meets `P`.
pub record Returns {W A : Type 0} (P : A → Type 0) (m : Exec W A) : Type 0 where
  pub at : (s : Machine W) → (a : A) × ((m s).0 ≡ ok a) × P a

abbrev Any : {A : Type 0} → A → Type 0
Any a = Unit

module _ {W A : Type 0} {P : A → Type 0} where
  Returns-pure : (a : A) → P a → Returns {W = W} P (pure a)
  unfolding pure
  Returns-pure a v = record { at = λ s. (a, refl, v) }

  Returns-if :
      (b : Bool) (m n : Exec W A) → Returns P m → Returns P n → Returns P (if b then m else n)
  Returns-if true m n km kn = km
  Returns-if false m n km kn = kn

  Returns-cases :
      (b : Bool) (m n : Exec W A)
      → (b ≡ true → Returns P m)
      → (b ≡ false → Returns P n)
      → Returns P (if b then m else n)
  Returns-cases true m n km kn = km refl
  Returns-cases false m n km kn = kn refl

  Returns-weaken : (m : Exec W A) → Returns Any m → ((a : A) → P a) → Returns P m
  Returns-weaken m km all = record { at = λ s. let (a, h, _) = km.at s in (a, h, all a) }

module _ {W A B : Type 0} {R : B → Type 0} where
  continue-Returns :
      (r : Result A) (a : A) (f : A → Exec W B) (s : Machine W)
      → r ≡ ok a
      → Returns R (f a)
      → (b : B) × ((continue r f s).0 ≡ ok b) × R b
  continue-Returns r a f s h kf = rw h (kf.at s)

  Returns-on_option :
      (o : Option A) (n : Exec W B) (f : A → Exec W B)
      → Returns R n
      → ((a : A) → Returns R (f a))
      → Returns R (on_option o n f)
  unfolding on_option
  Returns-on_option none n f kn kf = kn
  Returns-on_option (some a) n f kn kf = kf a

  Returns-on_result :
      (o : ℕ ⊎ A) (n : ℕ → Exec W B) (f : A → Exec W B)
      → ((code : ℕ) → Returns R (n code))
      → ((a : A) → Returns R (f a))
      → Returns R (on_result o n f)
  unfolding on_result
  Returns-on_result (inl code) n f kn kf = kn code
  Returns-on_result (inr a) n f kn kf = kf a

module _ {W A B : Type 0} {P : A → Type 0} {R : B → Type 0} where
  Returns-bind :
      (m : Exec W A) (f : A → Exec W B)
      → Returns P m
      → ((a : A) → P a → Returns R (f a))
      → Returns R (m >>= f)
  unfolding ◌>>=◌
  Returns-bind m f km kf = record {
    at = λ s. let (a, h, v) = km.at s in continue-Returns (m s).0 a f (m s).1 h (kf a v);
  }

module _ {W A : Type 0} where
  Returns-host : (call : W → A × W) → Returns Any (host call)
  unfolding host
  Returns-host call = record { at = λ s. ((call s.world).0, refl, tt) }

  attempt_at :
      (r : Io A) (s t : Machine W)
      → (a : ℕ ⊎ A) × ((attempt (λ (_ : Machine W). lift (io_code r) t) s).0 ≡ ok a) × Unit {0}
  unfolding attempt lift io_code
  attempt_at (done a) s t = (inr a, refl, tt)
  attempt_at (failed error) s t = (inl (errno (some error)), refl, tt)

  Returns-attempt_io : (call : W → Io A × W) → Returns Any (attempt (host_io call))
  unfolding attempt host_io host lift ◌>>=◌ io_code
  Returns-attempt_io call = record {
    at = λ s. attempt_at (call s.world).0 s (record s { world = (call s.world).1 });
  }

module _ {W : Type 0} (e : Plugin W) where
  os_file_error-Returns : (h : ℕ) → Returns Any (os_file_error e h)
  unfolding os_file_error
  os_file_error-Returns h = Returns-bind _ _ (Returns-host _) (λ r _. Returns-pure _ tt)

  object_error-Returns : (object : Stream) → Returns Any (object_error e object)
  unfolding object_error
  object_error-Returns (os_file h) = os_file_error-Returns h
  object_error-Returns (custom n) = Returns-pure _ tt

  stream_file_error-Returns :
      (f : Option FdEntry) (typ : ℕ) → Returns Any (stream_file_error e f typ)
  unfolding stream_file_error
  stream_file_error-Returns f typ = Returns-on_option _ _ _ (Returns-pure _ tt) object_error-Returns

  os_file_ready-Returns : (h typ : ℕ) → Returns Any (os_file_ready e h typ)
  unfolding os_file_ready
  os_file_ready-Returns h typ = Returns-bind _ _ (Returns-host _) (λ r _. Returns-pure _ tt)

  regular_or_ready-Returns : (h typ : ℕ) → Returns Any (regular_or_ready e h typ)
  unfolding regular_or_ready stat
  regular_or_ready-Returns h typ = Returns-bind _ _ (Returns-attempt_io _) (λ r _.
      Returns-on_result r _ _ (λ code. os_file_ready-Returns h typ)
        (λ info. Returns-if _ _ _ (Returns-pure _ tt) (os_file_ready-Returns h typ)))

  object_ready-Returns : (typ : ℕ) (object : Stream) → Returns Any (object_ready e typ object)
  unfolding object_ready
  object_ready-Returns typ (os_file h) = regular_or_ready-Returns h typ
  object_ready-Returns typ (custom n) = Returns-if _ _ _ (Returns-host _) (Returns-pure _ tt)

  stream_ready-Returns : (f : Option FdEntry) (typ : ℕ) → Returns Any (stream_ready e f typ)
  unfolding stream_ready
  stream_ready-Returns f typ =
      Returns-on_option _ _ _ (Returns-pure _ tt) (object_ready-Returns typ)

  renew_code-Returns :
      (sub : PollSubscription)
      → Returns (λ code. not (sub.code == 0) ≡ true → not (code == 0) ≡ true) (renew_code e sub)
  unfolding renew_code
  renew_code-Returns sub =
      Returns-cases (sub.code == 0) _ _
        (λ z.
          Returns-weaken _ (stream_file_error-Returns sub.entry sub.typ) (λ code h. ground arith))
        (λ z. Returns-pure _ (λ h. h))

  -- Ready whatever its object answers: a clock that has run down, or a code that is set.
  abbrev pub is_due : ℕ → PollSubscription → Bool
  is_due elapsed sub = if sub.clock then leb sub.due elapsed else not (sub.code == 0)

  check_subscription-Returns :
      (elapsed : ℕ) (sub : PollSubscription)
      → Returns (λ r. is_due elapsed sub ≡ true → r.1 ≡ true) (check_subscription e elapsed sub)
  unfolding check_subscription
  check_subscription-Returns elapsed sub =
      Returns-cases sub.clock _ _ (λ c. Returns-pure _ (λ h. ground arith))
        (λ c. Returns-bind _ _ (renew_code-Returns sub) (λ code kept.
          Returns-bind _ _ (object-Returns code)
            (λ (ready : Bool) at. Returns-pure _ (λ h. ground (arith, kept, at)))))
    where
      object-Returns :
          (code : ℕ)
          → Returns
              (λ ready. not (code == 0) ≡ true → ready ≡ true)
              (if not (code == 0) then pure true else stream_ready e sub.entry sub.typ)
      object-Returns code =
          Returns-cases (not (code == 0)) _ _ (λ n. Returns-pure _ (λ h. refl))
            (λ n. Returns-weaken _ (stream_ready-Returns sub.entry sub.typ) (λ ready h. cc))

  abbrev pub any_due : ℕ → List PollSubscription → Bool
  any_due elapsed [] = false
  any_due elapsed (sub ∷ subs) = is_due elapsed sub || any_due elapsed subs

  ready_subscriptions-Returns :
      (i : ℕ) (subs : List PollSubscription) (elapsed : ℕ)
      → Returns
          (λ r. any_due elapsed subs ≡ true → 1 ≤ length r.1)
          (ready_subscriptions e i subs elapsed)
  unfolding ready_subscriptions
  ready_subscriptions-Returns i [] elapsed = Returns-pure _ (λ h. cc)
  ready_subscriptions-Returns i (sub ∷ subs) elapsed =
      Returns-bind _ _ (check_subscription-Returns elapsed sub)
        (λ (c : PollSubscription × Bool) one.
          Returns-bind _ _ (ready_subscriptions-Returns (suc i) subs elapsed)
            (λ (r : List PollSubscription × List ℕ) rest.
              Returns-pure _ (λ h. ground (arith, one, rest))))

  poll_loop-Returns :
      (rounds : ℕ) (earliest : Option ℕ) (round : Round) (ready : List ℕ)
      → 1 ≤ length ready
      → Returns (λ r. r ≡ round) (poll_loop e rounds earliest round ready)
  unfolding poll_loop
  poll_loop-Returns rounds earliest round [] h = absurd (omega arith)
  poll_loop-Returns zero earliest round (i ∷ ready) h = Returns-pure _ refl
  poll_loop-Returns (suc rounds) earliest round (i ∷ ready) h = Returns-pure _ refl

  -- Where a clock has no time left, or a descriptor has no right to be polled, a poll waits for
  -- nothing: it comes to its report from every state, with any host, in no round at all.
  pub poll_until-Returns :
      (rounds : ℕ) (subs : List PollSubscription) (earliest : Option ℕ)
      → any_due 0 subs ≡ true
      → Returns (λ round. 1 ≤ length round.ready) (poll_until e rounds subs earliest)
  unfolding poll_until
  poll_until-Returns rounds subs earliest due = Returns-bind _ _ (Returns-host _) (λ now _.
      Returns-bind _ _ (ready_subscriptions-Returns 0 subs 0)
        (λ (r : List PollSubscription × List ℕ) some_. ended r.0 r.1 now (some_ due)))
    where
      ended :
          (checked : List PollSubscription) (ready : List ℕ) (now : ℕ)
          → 1 ≤ length ready
          → Returns
              (λ round. 1 ≤ length round.ready)
              (poll_loop e rounds earliest
                (record { subs = checked; ready = ready; elapsed = 0; measured_at = now })
                ready)
      ended checked ready now h = record {
        at = λ s.
            let (a, f, same) =
              (poll_loop-Returns rounds earliest
                  (record { subs = checked; ready = ready; elapsed = 0; measured_at = now }) ready
                  h).at
                s in
            (a, f, rw same h);
      }
