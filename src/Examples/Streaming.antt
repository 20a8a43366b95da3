-- ===== src/Examples/Streaming.antt =====
-- The theorems on streams at concrete inputs.
use wasi.Prelude.{
  ◌≡◌, ◌⊎◌, refl, ℕ, ◌≤◌, ◌+◌, List, [], ◌∷◌, ◌++◌, true, false, none, some, is_some, arith, ◌==◌,
  if◌then◌else◌,
}
use mathlib.Core.Bool.{decide}
use wasi.Host.{Bytes}
use wasi.Abi.Errno.{is, Error, eof, epipe, err_would_block}
use wasi.Streams.Input.{ReadResult, Input, new_input, try_read, pending_read_error, wait_wake}
use wasi.Streams.Input.Sound.{IsSound, new_input-IsSound}
use wasi.Streams.Input.Delivery.{held, supplied_by, run-bytes}
use wasi.Streams.Input.Ends.{try_read-failed, probe_lem}
use wasi.Streams.Output.{Output, Worker, write_call, Returned, new_output}
use wasi.Streams.Output.Sink.{new_output-IsSound, view, sink_run, run_refines}
use wasi.Streams.Output.Waiters.{is_in, worker-served}
use wasi.Streams.Probe.{
  OutputStream, fresh, poll_ready, check_write, try_write, begin_flush, wait_writable,
  poll_ready_lem, poll_ready-failed,
}
use wasi.Streams.Permits.{Limits, HostState, closed, output_failure}
use wasi.Streams.PermitRuns.{
  Event, probed, consumed, failed, subscribed, run, granted_by, admitted_by, outstanding,
  admitted_lem,
}
use wasi.Streams.Quotas.{IsWithinQuota, run-IsWithinQuota, output_failure-closed}
use wasi.Streams.Input
use wasi.Streams.Output
use wasi.Streams.Permits

abbrev last_words : ReadResult
last_words = record { b = 7 ∷ 8 ∷ 9 ∷ []; err = some (eof ∷ []) }

abbrev reader : Input
reader = new_input true

abbrev readings : List Input.Event
readings =
    Input.wait_event
    ∷ Input.landing last_words
    ∷ Input.wake_event 0
    ∷ Input.read_event 2 none
    ∷ Input.read_event 2 none
    ∷ []

run-bytes_example :
    (Input.run readings reader).0 ++ held (Input.run readings reader).1
    ≡ held reader ++ supplied_by readings reader
run-bytes_example = run-bytes readings reader (new_input-IsSound true)

readings-run : (Input.run readings reader).0 ≡ 7 ∷ 8 ∷ 9 ∷ []
unfolding Input.run Input.step Input.wait_begin Input.wait_wake Input.land Input.collect Input.start
    new_input try_read Input.fetch Input.deliver Input.copy_out Input.end_read Input.read_nothing is
    decide
readings-run = refl

-- The read that follows finds the end.
abbrev after_readings : Input
after_readings = record {
  result = some (record { b = []; err = some (epipe ∷ []) });
  waiting = none;
  closed = false;
  allocated = 1;
}

after_readings-IsSound : IsSound after_readings
after_readings-IsSound = ground arith

try_read-failed_example :
    (◌≡◌ {A = Bytes} [] [])
    × (held (try_read 4 none after_readings).1 ≡ [])
    × (((try_read 4 none after_readings).1.closed ≡ true)
        ⊎ ((◌≡◌ {A = Error} (epipe ∷ []) (err_would_block ∷ []))
            × (is_some (try_read 4 none after_readings).1.waiting ≡ true)))
unfolding try_read Input.collect Input.deliver Input.fetch Input.copy_out Input.end_read is decide
try_read-failed_example =
    try_read-failed 4 none after_readings [] (epipe ∷ []) after_readings-IsSound refl

probe_lem_example :
    (try_read 4 none (pending_read_error after_readings).1 ≡ try_read 4 none after_readings)
    × (try_read 4 none (wait_wake 0 after_readings) ≡ try_read 4 none after_readings)
    × ((pending_read_error after_readings).0 ≡ true
        → is_some (try_read 5 none after_readings).0.1 ≡ true)
probe_lem_example = probe_lem 4 0 none after_readings

abbrev pipe : Output
pipe = new_output true

abbrev all_written : Returned
all_written = record { count = 2; error = none }

abbrev writings : List Output.Event
writings =
    Output.check_event
    ∷ Output.write_event (1 ∷ 2 ∷ [])
    ∷ Output.flush_event
    ∷ Output.write_event (3 ∷ [])
    ∷ Output.return_event all_written
    ∷ Output.return_event all_written
    ∷ Output.check_event
    ∷ []

run_refines_example :
    ((Output.run writings pipe).0, view (Output.run writings pipe).1)
    ≡ sink_run true writings (view pipe)
unfolding new_output
run_refines_example = run_refines writings pipe (new_output-IsSound true)

abbrev busy : Worker
busy = record { call = write_call (1 ∷ 2 ∷ []); flush = false; done = 0 }

abbrev at_work : Output
at_work = record {
  slots = 1;
  last = some 0;
  err = none;
  flush_pending = true;
  worker = some busy;
  completed = [];
  allocated = 1;
  has_flush = true;
}

worker-served_example : is_in 0 (Output.run writings at_work).1.completed ≡ true
worker-served_example = worker-served writings at_work busy (ground arith) refl (omega arith)

-- A stream with room for as many bytes as its world says, which fails once it says 0.
abbrev meter : OutputStream ℕ
meter = record {
  check_write = λ w. if w == 0 then (0, some (epipe ∷ []), w) else (w, none, w);
  try_write = λ p w. (none, w);
  begin_flush = λ w. (none, w);
  wait_writable = λ w. (none, w);
}

poll_ready_lem_example :
    let (n, e, v) = meter.check_write 5 in
    let (ready, s, u) = poll_ready meter fresh 5 in
    (u ≡ v)
    × (ready ≡ true → check_write meter s u ≡ ((if is_some e then 0 else n, e), fresh, v))
    × (ready ≡ true → poll_ready meter s u ≡ (true, s, u))
    × (ready ≡ false → (s ≡ fresh) × (n ≡ 0) × (e ≡ none))
poll_ready_lem_example = poll_ready_lem meter 5

poll_ready-failed_example :
    let (ready, s, u) = poll_ready meter fresh 0 in
    (ready ≡ true)
    × (check_write meter s u ≡ ((0, some (epipe ∷ [])), fresh, u))
    × (try_write meter (3 ∷ []) s u ≡ (some (epipe ∷ []), fresh, u))
    × (begin_flush meter s u ≡ (some (epipe ∷ []), fresh, u))
    × (wait_writable meter s u ≡ (some (epipe ∷ []), fresh, u))
poll_ready-failed_example = poll_ready-failed meter 0 (epipe ∷ []) (3 ∷ []) refl

abbrev quotas : Limits
quotas = record { max_errors = 2; max_pollables = 2; max_aggregate_buffer_bytes = 4096 }

abbrev host_state : HostState ℕ
host_state = record {
  limits = quotas;
  errors = [];
  next_error = 1;
  pollables = [];
  next_pollable = 1;
  permits = [];
  output_failed = [];
  stdin_buffered = false;
  stdin_read_error = none;
}

abbrev stream_calls : List (Event ℕ)
stream_calls =
    probed 1 100 none ∷ consumed 1 60 ∷ consumed 1 40 ∷ failed 1 (epipe ∷ []) ∷ subscribed 5 ∷ []

admitted_lem_example :
    admitted_by 1 stream_calls host_state + outstanding 1 (run stream_calls host_state)
    ≤ outstanding 1 host_state + granted_by 1 stream_calls host_state
admitted_lem_example = admitted_lem 1 stream_calls host_state

run-IsWithinQuota_example : IsWithinQuota (run stream_calls host_state)
run-IsWithinQuota_example = run-IsWithinQuota stream_calls host_state (ground arith)

output_failure-closed_example :
    let t = run stream_calls (output_failure 1 (epipe ∷ []) host_state).1 in
    (output_failure 1 (eof ∷ []) t ≡ (closed, t))
    × (Permits.wait_writable 1 none none t ≡ (some closed, t))
output_failure-closed_example =
    output_failure-closed 1 (epipe ∷ []) (eof ∷ []) none none stream_calls host_state refl
