-- ===== src/Clock.antt =====
-- internal/core/clock.go.
pub mod Laws
use wasi.Prelude.{ℕ, zero, suc, ◌+◌, ◌-◌, ◌*◌, ◌/◌, ◌^◌, Option, none, some, ltb, if◌then◌else◌}
use wasi.Host.{ℤ, pos, negsuc}

pub data ClockError : Type 0 where
  unsupported_clock clock_overflow invalid_clock : ClockError

-- (now, resolution, err)
pub record Reading : Type 0 where
  pub now : ℕ
  pub resolution : ℕ
  pub error : Option ClockError

abbrev pub reading : ℕ → ℕ → Reading
reading now resolution = record { now = now; resolution = resolution; error = none }

abbrev pub no_reading : ℕ → ClockError → Reading
no_reading resolution e = record { now = 0; resolution = resolution; error = some e }

-- The interface `ClockSource`, over the host's world.
pub record ClockSource (W : Type 0) : Type 0 where
  pub realtime : W → Reading × W
  pub monotonic : W → Reading × W
  pub process_cpu : W → Reading × W
  pub thread_cpu : W → Reading × W

-- time.Time, as far as `Realtime` reads it: Unix() and Nanosecond().
pub record Time : Type 0 where
  pub unix : ℤ
  pub nanosecond : ℕ

pub system_realtime : ℤ → ℕ → Reading
system_realtime (negsuc _) nanoseconds = reading 0 1
system_realtime (pos seconds) nanoseconds =
    if ltb ((2 ^ 64 - 1 - nanoseconds) / 1000000000) seconds
    then no_reading 1 clock_overflow
    else reading (seconds * 1000000000 + nanoseconds) 1

-- `systemClock`: `realtime` is its function, `since` is time.Since(base) as a word.
pub system_clock : {W : Type 0} → (W → Time × W) → (W → ℕ × W) → ClockSource W
unfolding system_realtime
system_clock realtime since = record {
  realtime = λ w. let (n, w') = realtime w in (system_realtime n.unix n.nanosecond, w');
  monotonic = λ w. let (d, w') = since w in (reading d 1, w');
  process_cpu = λ w. (no_reading 0 unsupported_clock, w);
  thread_cpu = λ w. (no_reading 0 unsupported_clock, w);
}

unfoldable pub clock_value : {W : Type 0} → ClockSource W → ℕ → W → Reading × W
clock_value source zero w = source.realtime w
clock_value source (suc zero) w = source.monotonic w
clock_value source (suc (suc zero)) w = source.process_cpu w
clock_value source (suc (suc (suc zero))) w = source.thread_cpu w
clock_value source _ w = (no_reading 0 invalid_clock, w)
