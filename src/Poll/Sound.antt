-- ===== src/Poll/Sound.antt =====
-- internal/core/poll.go: `pollOneoff` keeps the invariant of a caller's table and memory.
use wasi.Prelude.{ℕ, zero, suc, List, [], ◌∷◌, Option, none, some}
use wasi.Clock.{ClockError}
use wasi.Host.{Stream, os_file, custom}
use wasi.Table.{FdEntry}
use wasi.Exec.{Plugin, Params}
use wasi.Exec.Keeps.{Keeps, Keeps-then}
use wasi.Sound.{Bounds, IsSound}
use wasi.Sound.Calls.{call_rules}
use wasi.Poll.{
  PollSubscription, check_clock, clock_subscription, fd_subscription, parse_subscription,
  parse_loop, readable_regular_file_bytes, os_file_error, object_error, stream_file_error,
  object_ready, os_file_ready, regular_or_ready, stream_ready, renew_code, check_subscription,
  ready_subscriptions, poll_elapsed,
}
use wasi.Poll.Wait.{wait_for, wait_subscriptions}
use wasi.Poll.Oneoff.{
  Round, measure, pause_for, retry, wait_round, poll_loop, write_size, write_event, write_events,
  report, poll_ranges, poll_until, poll_oneoff,
}

module _ {W : Type 0} (e : Plugin W) {b : Bounds} where
  check_clock-IsSound :
      (flags : ℕ) (error : Option ClockError) → Keeps (IsSound b) (check_clock e flags error)
  unfolding check_clock
  check_clock-IsSound flags error = search call_rules depth 20

  clock_subscription-IsSound :
      (raw : List ℕ) (userdata : ℕ) → Keeps (IsSound b) (clock_subscription e raw userdata)
  unfolding clock_subscription
  clock_subscription-IsSound raw userdata = search (call_rules, check_clock-IsSound) depth 20

  fd_subscription-IsSound :
      (raw : List ℕ) (userdata typ : ℕ) → Keeps (IsSound b) (fd_subscription e raw userdata typ)
  unfolding fd_subscription
  fd_subscription-IsSound raw userdata typ = search call_rules depth 20

  parse_subscription-IsSound : (raw : List ℕ) → Keeps (IsSound b) (parse_subscription e raw)
  unfolding parse_subscription
  parse_subscription-IsSound raw =
      search (call_rules, clock_subscription-IsSound, fd_subscription-IsSound) depth 20

  parse_loop-IsSound :
      (n at : ℕ) (earliest : Option ℕ) → Keeps (IsSound b) (parse_loop e n at earliest)
  unfolding parse_loop
  parse_loop-IsSound zero at earliest = search call_rules depth 20
  parse_loop-IsSound (suc n) at earliest =
      search (call_rules, parse_subscription-IsSound, parse_loop-IsSound n) depth 20

  readable_regular_file_bytes-IsSound :
      (f : Option FdEntry) → Keeps (IsSound b) (readable_regular_file_bytes e f)
  unfolding readable_regular_file_bytes
  readable_regular_file_bytes-IsSound none = search call_rules depth 20
  readable_regular_file_bytes-IsSound (some f) = search call_rules depth 20

  os_file_error-IsSound : (h : ℕ) → Keeps (IsSound b) (os_file_error e h)
  unfolding os_file_error
  os_file_error-IsSound h = search call_rules depth 20

  object_error-IsSound : (object : Stream) → Keeps (IsSound b) (object_error e object)
  unfolding object_error
  object_error-IsSound (os_file h) = os_file_error-IsSound h
  object_error-IsSound (custom n) = search call_rules

  stream_file_error-IsSound :
      (f : Option FdEntry) (typ : ℕ) → Keeps (IsSound b) (stream_file_error e f typ)
  unfolding stream_file_error
  stream_file_error-IsSound f typ = search (call_rules, object_error-IsSound) depth 20

  os_file_ready-IsSound : (h typ : ℕ) → Keeps (IsSound b) (os_file_ready e h typ)
  unfolding os_file_ready
  os_file_ready-IsSound h typ = search call_rules depth 20

  regular_or_ready-IsSound : (h typ : ℕ) → Keeps (IsSound b) (regular_or_ready e h typ)
  unfolding regular_or_ready
  regular_or_ready-IsSound h typ = search (call_rules, os_file_ready-IsSound) depth 20

  object_ready-IsSound : (typ : ℕ) (object : Stream) → Keeps (IsSound b) (object_ready e typ object)
  unfolding object_ready
  object_ready-IsSound typ (os_file h) = regular_or_ready-IsSound h typ
  object_ready-IsSound typ (custom n) = search call_rules depth 20

  stream_ready-IsSound : (f : Option FdEntry) (typ : ℕ) → Keeps (IsSound b) (stream_ready e f typ)
  unfolding stream_ready
  stream_ready-IsSound f typ = search (call_rules, object_ready-IsSound) depth 20

  renew_code-IsSound : (sub : PollSubscription) → Keeps (IsSound b) (renew_code e sub)
  unfolding renew_code
  renew_code-IsSound sub = search (call_rules, stream_file_error-IsSound) depth 20

  check_subscription-IsSound :
      (elapsed : ℕ) (sub : PollSubscription) → Keeps (IsSound b) (check_subscription e elapsed sub)
  unfolding check_subscription
  check_subscription-IsSound elapsed sub =
      search (call_rules, renew_code-IsSound, stream_ready-IsSound) depth 20

  ready_subscriptions-IsSound :
      (i : ℕ) (subs : List PollSubscription) (elapsed : ℕ)
      → Keeps (IsSound b) (ready_subscriptions e i subs elapsed)
  unfolding ready_subscriptions
  ready_subscriptions-IsSound i [] elapsed = search call_rules
  ready_subscriptions-IsSound i (sub ∷ subs) elapsed =
      search (call_rules, check_subscription-IsSound, ready_subscriptions-IsSound (suc i) subs)
        depth 20

  poll_elapsed-IsSound :
      (elapsed measured : ℕ) → Keeps (IsSound b) (poll_elapsed e elapsed measured)
  unfolding poll_elapsed
  poll_elapsed-IsSound elapsed measured = search call_rules depth 20

  wait_for-IsSound :
      (streams : List (ℕ × Stream)) (delay : Option ℕ)
      → Keeps (IsSound b) (wait_for e streams delay)
  unfolding wait_for
  wait_for-IsSound [] delay = search call_rules depth 20
  wait_for-IsSound (first ∷ others) delay = search call_rules depth 20

  wait_subscriptions-IsSound :
      (subs : List PollSubscription) (delay : Option ℕ)
      → Keeps (IsSound b) (wait_subscriptions e subs delay)
  unfolding wait_subscriptions
  wait_subscriptions-IsSound subs delay = search (call_rules, wait_for-IsSound) depth 20

  measure-IsSound :
      (subs : List PollSubscription) (elapsed measured_at : ℕ)
      → Keeps (IsSound b) (measure e subs elapsed measured_at)
  unfolding measure
  measure-IsSound subs elapsed measured_at =
      search (call_rules, poll_elapsed-IsSound, ready_subscriptions-IsSound) depth 20

  pause_for-IsSound : (time : ℕ) → Keeps (IsSound b) (pause_for e time)
  unfolding pause_for
  pause_for-IsSound zero = search call_rules depth 20
  pause_for-IsSound (suc time) = search call_rules depth 20

  retry-IsSound :
      (earliest : Option ℕ) (round : Round) (ready : List ℕ)
      → Keeps (IsSound b) (retry e earliest round ready)
  unfolding retry
  retry-IsSound earliest round [] = search (call_rules, pause_for-IsSound, measure-IsSound) depth 20
  retry-IsSound earliest round (i ∷ indices) = search call_rules

  wait_round-IsSound :
      (earliest : Option ℕ) (round : Round) → Keeps (IsSound b) (wait_round e earliest round)
  unfolding wait_round
  wait_round-IsSound earliest round =
      search (call_rules, wait_subscriptions-IsSound, measure-IsSound, retry-IsSound) depth 20

  poll_loop-IsSound :
      (n : ℕ) (earliest : Option ℕ) (round : Round) (ready : List ℕ)
      → Keeps (IsSound b) (poll_loop e n earliest round ready)
  unfolding poll_loop
  poll_loop-IsSound zero earliest round (i ∷ indices) = search call_rules
  poll_loop-IsSound (suc n) earliest round (i ∷ indices) = search call_rules
  poll_loop-IsSound zero earliest round [] = search call_rules
  poll_loop-IsSound (suc n) earliest round [] =
      search (call_rules, wait_round-IsSound, poll_loop-IsSound n) depth 20

  write_size-IsSound : (sub : PollSubscription) (at : ℕ) → Keeps (IsSound b) (write_size e sub at)
  unfolding write_size
  write_size-IsSound sub at = search (call_rules, readable_regular_file_bytes-IsSound) depth 20

  write_event-IsSound : (sub : PollSubscription) (at : ℕ) → Keeps (IsSound b) (write_event e sub at)
  unfolding write_event
  write_event-IsSound sub at = search (call_rules, write_size-IsSound) depth 20

  write_events-IsSound :
      (out i : ℕ) (subs : List PollSubscription) (indices : List ℕ)
      → Keeps (IsSound b) (write_events e out i subs indices)
  unfolding write_events
  write_events-IsSound out i subs [] = search call_rules
  write_events-IsSound out i subs (index ∷ indices) =
      Keeps-then _ _ (search (call_rules, write_event-IsSound) depth 20)
        (write_events-IsSound out (suc i) subs indices)

  report-IsSound :
      (out n result : ℕ) (round : Round) → Keeps (IsSound b) (report e out n result round)
  unfolding report
  report-IsSound out n result round = search (call_rules, write_events-IsSound) depth 20

  poll_ranges-IsSound :
      (from out n result : ℕ) → Keeps (IsSound b) (poll_ranges e from out n result)
  unfolding poll_ranges
  poll_ranges-IsSound from out n result = search call_rules depth 20

  poll_until-IsSound :
      (rounds : ℕ) (subs : List PollSubscription) (earliest : Option ℕ)
      → Keeps (IsSound b) (poll_until e rounds subs earliest)
  unfolding poll_until
  poll_until-IsSound rounds subs earliest =
      search (call_rules, ready_subscriptions-IsSound, poll_loop-IsSound) depth 20

  pub poll_oneoff-IsSound : (rounds : ℕ) (p : Params) → Keeps (IsSound b) (poll_oneoff e rounds p)
  unfolding poll_oneoff
  poll_oneoff-IsSound rounds p =
      search
        (call_rules, poll_ranges-IsSound, parse_loop-IsSound, poll_until-IsSound, report-IsSound)
        depth 20
