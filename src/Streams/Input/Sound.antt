-- ===== src/Streams/Input/Sound.antt =====
-- p2/io.go, `asyncInput`: the invariant of the adapter, kept by every step.
use wasi.Prelude.{◌≡◌, ℕ, Bool, true, Option, none, some, is_some, arith}
use wasi.Streams.Input.{
  ReadResult, Input, Event, read_event, probe_event, wait_event, wake_event, landing, new_input,
  start, land, collect, pending_read_error, read_nothing, end_read, copy_out, deliver, fetch,
  try_read, wait_begin, wait_wake, step,
}

-- A read that ended is never overwritten by another, and a closed input has none at all.
pub record IsSound (s : Input) : Type 0 where
  pub single : is_some s.waiting ≡ true → s.result ≡ none
  pub ended : s.closed ≡ true → (s.result ≡ none) × (s.waiting ≡ none)

pub new_input-IsSound : (has_reader : Bool) → IsSound (new_input has_reader)
unfolding new_input
new_input-IsSound has_reader = ground arith

pub collect-IsSound : (s : Input) → IsSound s → IsSound (collect s)
unfolding collect
collect-IsSound s h = ground arith

pub start-IsSound : (s : Input) → IsSound s → IsSound (start s)
unfolding start
start-IsSound s h = ground arith

pub land-IsSound : (q : Option ReadResult) (s : Input) → IsSound s → IsSound (land q s)
unfolding land
land-IsSound q s h = ground arith

pub fetch-IsSound : (q : Option ReadResult) (s : Input) → IsSound s → IsSound (fetch q s)
unfolding fetch
fetch-IsSound q s h =
    ground (arith, collect-IsSound (land q (start s)), land-IsSound q (start s), start-IsSound s)

read_nothing-IsSound : (s : Input) → IsSound s → IsSound (read_nothing s).1
unfolding read_nothing
read_nothing-IsSound s h = ground arith

-- What a result that lies ready allows: no read is in flight, and the input is open.
copy_out-IsSound :
    (n : ℕ) (r : ReadResult) (s : Input)
    → IsSound s
    → s.result ≡ some r
    → IsSound (copy_out n r s).1
unfolding copy_out end_read
copy_out-IsSound n r s h e = ground arith

deliver-IsSound : (n : ℕ) (s : Input) → IsSound s → IsSound (deliver n s).1
unfolding deliver
deliver-IsSound n s h = ground (arith, copy_out-IsSound n)

try_read-IsSound :
    (n : ℕ) (q : Option ReadResult) (s : Input) → IsSound s → IsSound (try_read n q s).1
unfolding try_read
try_read-IsSound n q s h = ground (
  arith,
  collect-IsSound s h,
  read_nothing-IsSound (collect s),
  fetch-IsSound q (collect s),
  deliver-IsSound n (fetch q (collect s)),
)

wait_begin-IsSound : (s : Input) → IsSound s → IsSound (wait_begin s).1
unfolding wait_begin
wait_begin-IsSound s h = ground (arith, collect-IsSound s h, start-IsSound (collect s))

wait_wake-IsSound : (id : ℕ) (s : Input) → IsSound s → IsSound (wait_wake id s)
unfolding wait_wake
wait_wake-IsSound id s h = ground arith

pub step-IsSound : (e : Event) (s : Input) → IsSound s → IsSound (step e s).1
unfolding step pending_read_error
step-IsSound (read_event n q) s h = try_read-IsSound n q s h
step-IsSound probe_event s h = collect-IsSound s h
step-IsSound wait_event s h = wait_begin-IsSound s h
step-IsSound (wake_event id) s h = wait_wake-IsSound id s h
step-IsSound (landing r) s h = land-IsSound (some r) s h
