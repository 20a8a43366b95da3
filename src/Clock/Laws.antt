-- ===== src/Clock/Laws.antt =====
-- The system clock's realtime, against the 64-bit range of a WASI timestamp.
use wasi.Prelude.{ℕ, ◌+◌, ◌*◌, ◌^◌, ◌<◌, ◌≤◌, ◌≡◌, ◌⊎◌, refl, arith}
use wasi.Host.{ℤ, pos, negsuc}
use wasi.Clock.{Reading, system_realtime, reading, no_reading, clock_overflow}

-- What a reading at so many seconds and nanoseconds since 1970 says: the sum where it fits 64 bits,
-- the overflow error where it does not, and zero before 1970.
abbrev pub Tells : ℤ → ℕ → Reading → Type 0
Tells (negsuc _) nanoseconds r = r ≡ reading 0 1
Tells (pos seconds) nanoseconds r =
    ((seconds * 1000000000 + nanoseconds < 2 ^ 64)
      × (r ≡ reading (seconds * 1000000000 + nanoseconds) 1))
    ⊎ ((2 ^ 64 ≤ seconds * 1000000000 + nanoseconds) × (r ≡ no_reading 1 clock_overflow))

-- For a fraction below a second: from 1970 on, the clock returns the nanoseconds since 1970 exactly
-- where they fit 64 bits, and the overflow error exactly where they do not; before 1970 it returns
-- zero, without an error.
pub system_realtime_exact :
    (unix : ℤ) (nanoseconds : ℕ)
    → nanoseconds < 1000000000
    → Tells unix nanoseconds (system_realtime unix nanoseconds)
unfolding system_realtime
system_realtime_exact (pos seconds) nanoseconds h = ground arith
system_realtime_exact (negsuc _) nanoseconds h = refl
