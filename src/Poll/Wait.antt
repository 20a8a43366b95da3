-- ===== src/Poll/Wait.antt =====
-- internal/core/poll.go, `waitSubscriptions`: whom a poll waits for, and what the end of the wait
-- means. The waits of the objects run beside each other and beside the context; which of them ends
-- first is an answer of the host.
use wasi.Prelude.{
  ℕ, List, [], ◌∷◌, Bool, true, not, ◌&&◌, ◌||◌, Option, none, some, ◌⊎◌, inl, inr, is_some, ◌==◌,
  if◌then◌else◌,
}
use wasi.Abi.Errno.{
  Error, is, errno, canceled, deadline_exceeded, poll_unsupported, wasi_eintr, wasi_enotsup,
}
use wasi.Host.{Stream, os_file, custom}
use wasi.Exec.{Plugin, Exec, ◌>>=◌, pure, host, on_option}
use wasi.Poll.{PollSubscription, stream_object}

pub data Waiter : Type 0 where
  no_wait : Waiter
  waits : Stream → Waiter
  unsupported : Waiter

-- errors.Is(err, context.DeadlineExceeded) under a deadline is the timeout, and no error.
unfoldable pub timed_out : Bool → Option Error → Option Error
unfolding is
timed_out has_deadline none = none
timed_out has_deadline (some e) = if has_deadline && is e deadline_exceeded then none else some e

-- The code of an error of the wait.
unfoldable pub wait_code : Error → ℕ
unfolding is errno
wait_code e =
    if is e canceled || is e deadline_exceeded
    then wasi_eintr
    else if is e poll_unsupported
    then wasi_enotsup
    else errno (some e)

abbrev pub woken_by : Option Error ⊎ Error → Option Error
woken_by (inl result) = result
woken_by (inr error) = some error

module _ {W : Type 0} (e : Plugin W) where
  unfoldable pub object_waiter : ℕ → Stream → Waiter
  object_waiter typ (os_file h) = waits (os_file h)
  object_waiter typ (custom n) =
      if e.host.poll.is_pollable n
      then waits (custom n)
      else if (typ == 2) && e.host.poll.has_bytes n
      then no_wait
      else unsupported

  unfoldable pub waiter : PollSubscription → Waiter
  unfolding stream_object object_waiter
  waiter sub =
      if sub.clock || not (sub.code == 0) then no_wait else elim (stream_object sub.entry sub.typ) [
        | none ↦ no_wait
        | some object ↦ object_waiter sub.typ object
      ]

  abbrev pub add_waiter : Waiter → ℕ → Option (List (ℕ × Stream)) → Option (List (ℕ × Stream))
  add_waiter no_wait typ others = others
  add_waiter unsupported typ others = none
  add_waiter (waits object) typ none = none
  add_waiter (waits object) typ (some others) = some ((typ, object) ∷ others)

  -- Those to wait for; none where an object cannot be waited for.
  unfoldable pub waiters : List PollSubscription → Option (List (ℕ × Stream))
  unfolding waiter
  waiters [] = some []
  waiters (sub ∷ subs) = add_waiter (waiter sub) sub.typ (waiters subs)

  unfoldable pub wait_for : List (ℕ × Stream) → Option ℕ → Exec W (Option Error)
  wait_for [] delay = on_option delay (pure (some (poll_unsupported ∷ []))) (λ timeout. do
    error ← host (e.host.poll.await_deadline timeout)
    pure (timed_out true (some error)))
  wait_for (first ∷ others) delay = do
    woken ← host (e.host.poll.await (first ∷ others) delay)
    pure (timed_out (is_some delay) (woken_by woken))

  unfoldable pub wait_subscriptions : List PollSubscription → Option ℕ → Exec W (Option Error)
  wait_subscriptions subs delay =
      on_option (waiters subs) (pure (some (poll_unsupported ∷ [])))
        (λ streams. wait_for streams delay)
