-- ===== src/Poll/Oneoff.antt =====
-- internal/core/poll.go, `pollOneoff`. The loop waits until a subscription is ready, for as long as
-- that takes: it is given a number of rounds, and a call that needs more is unfinished.
use wasi.Prelude.{
  ℕ, zero, suc, ◌+◌, ◌-◌, ◌*◌, ◌%◌, ◌^◌, List, [], ◌∷◌, Bool, not, ◌&&◌, ◌||◌, Option, none, some,
  length, get_elem?, replicate, ltb, is_some, ◌==◌, if◌then◌else◌,
}
use Prim.Native.Nat.{min}
use wasi.Abi.Errno.{wasi_einval, wasi_enomem, wasi_efault, wasi_eintr}
use wasi.Memory.{Mem, put_le32}
use wasi.Memory.Bytes.{le_bytes}
use wasi.Exec.{
  Plugin, Exec, Params, u32, max_int64, ◌>>=◌, ◌>>◌, pure, fail, go_on, host, on_option, stop_if,
  store,
}
use wasi.Fd.Entry.{memory, copy_to}
use wasi.Poll.{
  PollSubscription, parse_loop, readable_regular_file_bytes, ready_subscriptions, poll_elapsed,
}
use wasi.Poll.Wait.{wait_subscriptions, wait_code}

-- a - b on 64-bit words
abbrev pub sub64 : ℕ → ℕ → ℕ
sub64 a b = (a + 2 ^ 64 - b) % 2 ^ 64

-- time.Millisecond
abbrev pub millisecond : ℕ
millisecond = 1000000

abbrev pub delay_of : Option ℕ → ℕ → Option ℕ
delay_of none elapsed = none
delay_of (some first) elapsed = some (min max_int64 (sub64 first elapsed))

abbrev pub pause_of : Option ℕ → ℕ → ℕ
pause_of none elapsed = millisecond
pause_of (some first) elapsed = min millisecond (sub64 first elapsed)

-- What the loop holds between two waits.
pub record Round : Type 0 where
  pub subs : List PollSubscription
  pub ready : List ℕ
  pub elapsed : ℕ
  pub measured_at : ℕ

abbrev pub subscription_limit : ℕ → ℕ
subscription_limit limit = if limit == 0 then 1024 else limit

-- The three ranges, in 64-bit sums of 32-bit numbers, which do not wrap.
abbrev pub outside : Mem → ℕ → ℕ → ℕ → ℕ → Bool
outside mem in_ out n result =
    ltb (length mem) (in_ + n * 48)
    || (ltb (length mem) (out + n * 32) || ltb (length mem) (result + 4))

module _ {W : Type 0} (e : Plugin W) where
  unfoldable pub measure : List PollSubscription → ℕ → ℕ → Exec W Round
  measure subs elapsed measured_at = do
    (now_elapsed, now) ← poll_elapsed e elapsed measured_at
    (checked, ready) ← ready_subscriptions e 0 subs now_elapsed
    pure (record { subs = checked; ready = ready; elapsed = now_elapsed; measured_at = now })

  unfoldable pub pause_for : ℕ → Exec W (Unit {0})
  pause_for zero = pure tt
  pause_for (suc time) = do
    ended ← host e.host.poll.context_error
    stop_if (is_some ended) wasi_eintr
    elapsed ← host (e.host.poll.pause (suc time))
    stop_if (not elapsed) wasi_eintr

  -- After a wake that left nothing ready.
  unfoldable pub retry : Option ℕ → Round → List ℕ → Exec W Round
  retry earliest round [] = do
    pause_for (pause_of earliest round.elapsed)
    measure round.subs round.elapsed round.measured_at
  retry earliest round (i ∷ indices) = pure round

  unfoldable pub wait_round : Option ℕ → Round → Exec W Round
  wait_round earliest round = do
    error ← wait_subscriptions e round.subs (delay_of earliest round.elapsed)
    on_option error (pure tt) (λ failure. fail (wait_code failure))
    woken ← measure round.subs round.elapsed round.measured_at
    retry earliest woken woken.ready

  -- `ready` is the list of `round`.
  unfoldable pub poll_loop : ℕ → Option ℕ → Round → List ℕ → Exec W Round
  poll_loop n earliest round (i ∷ indices) = pure round
  poll_loop zero earliest round [] = go_on
  poll_loop (suc n) earliest round [] = do
    next ← wait_round earliest round
    poll_loop n earliest next next.ready

  unfoldable pub write_size : PollSubscription → ℕ → Exec W (Unit {0})
  write_size sub at = do
    size ← readable_regular_file_bytes e sub.entry
    copy_to (at + 16) (le_bytes 8 size)

  unfoldable pub write_event : PollSubscription → ℕ → Exec W (Unit {0})
  write_event sub at = do
    copy_to at (le_bytes 8 sub.userdata)
    copy_to (at + 8) (le_bytes 2 sub.code)
    copy_to (at + 10) (le_bytes 1 sub.typ)
    if (sub.typ == 1) && (sub.code == 0) then write_size sub at else pure tt

  -- The events from the one of index `i` on. An index outside the subscriptions is a panic in
  -- Go, and writes no event here.
  unfoldable pub write_events : ℕ → ℕ → List PollSubscription → List ℕ → Exec W (Unit {0})
  write_events out i subs [] = pure tt
  write_events out i subs (index ∷ indices) = do
    on_option (get_elem? subs index) (pure tt) (λ sub. write_event sub (u32 (out + u32 (i * 32))))
    write_events out (suc i) subs indices

  unfoldable pub report : ℕ → ℕ → ℕ → Round → Exec W (Unit {0})
  report out n result round = do
    copy_to out (replicate (n * 32) 0)
    write_events out 0 round.subs round.ready
    store (λ m. put_le32 m result (u32 (length round.ready)))

  unfoldable pub poll_ranges : ℕ → ℕ → ℕ → ℕ → Exec W (Unit {0})
  poll_ranges in_ out n result = do
    mem ← memory
    stop_if (n == 0) wasi_einval
    stop_if (ltb (subscription_limit e.cfg.max_subscriptions_per_poll) n) wasi_enomem
    stop_if (outside mem in_ out n result) wasi_efault

  -- The rounds after the first check.
  unfoldable pub poll_until : ℕ → List PollSubscription → Option ℕ → Exec W Round
  poll_until rounds subs earliest = do
    now ← host e.host.poll.now
    (checked, ready) ← ready_subscriptions e 0 subs 0
    poll_loop rounds earliest
        (record { subs = checked; ready = ready; elapsed = 0; measured_at = now }) ready

  unfoldable pub poll_oneoff : ℕ → Params → Exec W (Unit {0})
  poll_oneoff rounds p = do
    poll_ranges (u32 (p 0)) (u32 (p 1)) (u32 (p 2)) (u32 (p 3))
    (subs, earliest) ← parse_loop e (u32 (p 2)) (u32 (p 0)) none
    round ← poll_until rounds subs earliest
    report (u32 (p 1)) (u32 (p 2)) (u32 (p 3)) round
