-- ===== src/Poll.antt =====
-- internal/core/poll.go: the subscriptions of a poll and what they ask of their objects, with the
-- calls on files of internal/core/poll_unix.go.
pub mod Wait
pub mod Oneoff
pub mod Sound
pub mod Counts
pub mod AtOnce
pub mod Unsupported
use wasi.Prelude.{
  ℕ, zero, suc, ◌+◌, ◌-◌, ◌^◌, List, [], ◌∷◌, Bool, true, false, not, ◌&&◌, ◌||◌, Option, none,
  some, ◌⊎◌, inl, inr, length, get_or, ltb, leb, bit_and, ◌==◌, if◌then◌else◌,
}
use Prim.Native.Nat.{min}
use wasi.Prelude.Bits.{and_not}
use wasi.Abi.Errno.{Error, errno, wasi_ok, wasi_ebadf, wasi_einval, wasi_eoverflow, wasi_enotsup}
use wasi.Abi.Rights.{right_poll_fd_read_write}
use wasi.Host.{Io, done, failed, Stream, os_file, custom, FileInfo}
use wasi.Clock.{ClockError, Reading, clock_value}
use wasi.Memory.{Mem, slice}
use wasi.Memory.Bytes.{le_value}
use wasi.Table.{FdEntry, require_code}
use wasi.Table.Map.{lookup}
use wasi.Exec.{
  Plugin, Exec, u16, max_int64, ◌>>=◌, ◌>>◌, pure, fail, host, gets, on_option, attempt, on_result,
  stop_if,
}
use wasi.Fd.Entry.{memory, host_io, stat}
use wasi.Process.{overflowed}

pub record PollSubscription : Type 0 where
  pub userdata : ℕ
  pub typ : ℕ
  pub entry : Option FdEntry
  pub due : ℕ
  pub clock : Bool
  pub code : ℕ

unfoldable pub stream_object : Option FdEntry → ℕ → Option Stream
stream_object none typ = none
stream_object (some f) typ = elim f.file [
  | some h ↦ some (os_file h)
  | none ↦ if typ == 1 then f.reader else f.writer
]

-- POLLIN and POLLOUT of Linux.
abbrev pub poll_events : ℕ → ℕ
poll_events typ = if typ == 2 then 4 else 1

-- The earliest of the deadlines so far, none without one.
abbrev pub earlier : Option ℕ → ℕ → Option ℕ
earlier none due = some due
earlier (some first) due = some (if ltb due first then due else first)

abbrev pub with_deadline : PollSubscription → Option ℕ → Option ℕ
with_deadline sub earliest = if sub.clock then earlier earliest sub.due else earliest

-- What is left of a timeout at `now`; the flag 1 makes it a time of the clock.
abbrev pub remaining_of : ℕ → ℕ → ℕ → ℕ
remaining_of flags timeout now =
    if bit_and flags 1 == 0 then timeout else if ltb now timeout then timeout - now else 0

-- The code and the entry of the descriptor of a subscription.
abbrev pub poll_code : Option FdEntry → ℕ
poll_code none = wasi_ebadf
poll_code (some f) = require_code f right_poll_fd_read_write

-- errno of fstat, or EBADF.
abbrev pub file_code : Io (Option Error) → ℕ
file_code (failed error) = wasi_ebadf
file_code (done error) = errno error

-- Any event in the answer of poll(2).
abbrev pub has_event : Io (Io ℕ) → Bool
has_event (failed error) = false
has_event (done (failed error)) = false
has_event (done (done revents)) = not (revents == 0)

abbrev pub max_uint64 : ℕ
max_uint64 = 0xffff_ffff_ffff_ffff

-- The sum stays at the largest word.
abbrev pub add_interval : ℕ → ℕ → ℕ
add_interval elapsed interval =
    if ltb (max_uint64 - elapsed) interval then max_uint64 else elapsed + interval

module _ {W : Type 0} (e : Plugin W) where
  -- The code of a failed clock: one past its range still lets a relative timeout go.
  unfoldable pub check_clock : ℕ → Option ClockError → Exec W (Unit {0})
  check_clock flags error = on_option error (pure tt) (λ fault. do
    stop_if (overflowed fault && not (bit_and flags 1 == 0)) wasi_eoverflow
    stop_if (not (overflowed fault)) wasi_enotsup)

  unfoldable pub clock_subscription : List ℕ → ℕ → Exec W PollSubscription
  clock_subscription raw userdata = do
    let clock_id = le_value (slice raw 16 4)
    let timeout = le_value (slice raw 24 8)
    let flags = le_value (slice raw 40 2)
    stop_if (ltb 3 clock_id || not (and_not flags 1 == 0)) wasi_einval
    r ← host (clock_value e.clocks clock_id)
    check_clock flags r.error
    pure (record {
      userdata = userdata;
      typ = 0;
      entry = none;
      due = remaining_of flags timeout r.now;
      clock = true;
      code = 0;
    })

  unfoldable pub fd_subscription : List ℕ → ℕ → ℕ → Exec W PollSubscription
  fd_subscription raw userdata typ = do
    found ← gets (λ s. lookup (le_value (slice raw 16 4)) s.fs.fds)
    pure (record {
      userdata = userdata;
      typ = typ;
      entry = found;
      due = 0;
      clock = false;
      code = u16 (poll_code found);
    })

  unfoldable pub parse_subscription : List ℕ → Exec W PollSubscription
  parse_subscription raw =
      let typ = get_or raw 8 0 in
      let userdata = le_value (slice raw 0 8) in
      if typ == 0
      then clock_subscription raw userdata
      else if (typ == 1) || (typ == 2)
      then fd_subscription raw userdata typ
      else fail wasi_einval

  -- The subscriptions from `at` on, and the earliest deadline with that of those before.
  unfoldable pub parse_loop : ℕ → ℕ → Option ℕ → Exec W (List PollSubscription × Option ℕ)
  parse_loop zero at earliest = pure ([], earliest)
  parse_loop (suc n) at earliest = do
    mem ← memory
    sub ← parse_subscription (slice mem at 48)
    (subs, deadline) ← parse_loop n (at + 48) (with_deadline sub earliest)
    pure (sub ∷ subs, deadline)

  unfoldable pub readable_regular_file_bytes : Option FdEntry → Exec W ℕ
  readable_regular_file_bytes none = pure 0
  readable_regular_file_bytes (some f) = on_option f.file (pure 0) (λ h. do
    r ← attempt (stat e h)
    on_result r (λ code. pure 0)
        (λ info. if not info.mode.is_regular then pure 0 else do
          q ← attempt (host_io (e.host.seek h 0 1))
          on_result q (λ code. pure 0)
              (λ offset. pure (if leb info.size offset then 0 else info.size - offset))))

  -- The error of the file itself: EBADF where its connection is gone.
  unfoldable pub os_file_error : ℕ → Exec W ℕ
  os_file_error h = do r ← host (e.host.poll.file_stat h); pure (u16 (file_code r))

  unfoldable pub object_error : Stream → Exec W ℕ
  object_error (os_file h) = os_file_error h
  object_error (custom n) = pure 0

  unfoldable pub stream_file_error : Option FdEntry → ℕ → Exec W ℕ
  stream_file_error f typ = on_option (stream_object f typ) (pure 0) object_error

  unfoldable pub os_file_ready : ℕ → ℕ → Exec W Bool
  os_file_ready h typ = do r ← host (e.host.poll.file_poll h (poll_events typ)); pure (has_event r)

  unfoldable pub regular_or_ready : ℕ → ℕ → Exec W Bool
  regular_or_ready h typ = do
    r ← attempt (stat e h)
    on_result r (λ code. os_file_ready h typ)
        (λ info. if info.mode.is_regular then pure true else os_file_ready h typ)

  -- An *os.File is no Pollable and has no Bytes.
  unfoldable pub object_ready : ℕ → Stream → Exec W Bool
  object_ready typ (os_file h) = regular_or_ready h typ
  object_ready typ (custom n) =
      if e.host.poll.is_pollable n
      then host (e.host.poll.ready n)
      else pure ((typ == 2) && e.host.poll.has_bytes n)

  unfoldable pub stream_ready : Option FdEntry → ℕ → Exec W Bool
  stream_ready f typ =
      on_option (stream_object f typ) (pure true) (λ object. object_ready typ object)

  -- The code that a round gives a subscription on a descriptor: one that it has stays.
  unfoldable pub renew_code : PollSubscription → Exec W ℕ
  renew_code sub = if sub.code == 0 then stream_file_error sub.entry sub.typ else pure sub.code

  -- One subscription of `readySubscriptions`: with its new code, and whether it is ready.
  unfoldable pub check_subscription : ℕ → PollSubscription → Exec W (PollSubscription × Bool)
  check_subscription elapsed sub = if sub.clock then pure (sub, leb sub.due elapsed) else do
    code ← renew_code sub
    ready ← (if not (code == 0) then pure true else stream_ready sub.entry sub.typ)
    pure (record sub { code = code }, ready)

  -- The subscriptions with their codes, and the indices of those that are ready; `i` is the index
  -- of the first.
  unfoldable pub ready_subscriptions :
      ℕ → List PollSubscription → ℕ → Exec W (List PollSubscription × List ℕ)
  ready_subscriptions i [] elapsed = pure ([], [])
  ready_subscriptions i (sub ∷ subs) elapsed = do
    (sub', ready) ← check_subscription elapsed sub
    (subs', indices) ← ready_subscriptions (suc i) subs elapsed
    pure (sub' ∷ subs', if ready then i ∷ indices else indices)

  -- `measured` is the time of the last measurement; the interval of Go's Sub is a signed word.
  unfoldable pub poll_elapsed : ℕ → ℕ → Exec W (ℕ × ℕ)
  poll_elapsed elapsed measured = do
    now ← host e.host.poll.now
    pure (add_interval elapsed (min max_int64 (now - measured)), now)
