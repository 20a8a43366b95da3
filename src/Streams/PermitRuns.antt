-- ===== src/Streams/PermitRuns.antt =====
-- p2/io.go, the functions of `hostState` on streams, over runs of calls.
use wasi.Prelude.{
  ◌≡◌, ℕ, ◌+◌, ◌≤◌, List, [], ◌∷◌, Option, none, some, from_option, arith, ◌==◌, if◌then◌else◌,
}
use wasi.Abi.Errno.{Error}
use wasi.Table.Map.{lookup, delete, lookup-insert, lookup-delete}
use wasi.Streams.Permits.{
  HostState, add_error, stream_failure, output_failure, probe_write_permit, wait_writable,
  wait_stdin_readable, add_pollable, consume_write_permit,
}

-- A call on the state: with what the stream answered, where it asks one. The last three are the
-- destructors of the guest's handles.
pub data Event (P : Type 0) : Type 0 where
  probed : ℕ → ℕ → Option Error → Event P
  consumed : ℕ → ℕ → Event P
  failed : ℕ → Error → Event P
  waited : ℕ → Option Error → Option Error → Event P
  stdin_waited : Option Error → Option Error → Event P
  subscribed : P → Event P
  error_dropped : ℕ → Event P
  pollable_dropped : ℕ → Event P
  output_dropped : ℕ → Event P

module _ {P : Type 0} where
  unfoldable pub step : Event P → HostState P → HostState P
  step (probed rep permit err) s = (probe_write_permit rep permit err s).1
  step (consumed rep n) s = (consume_write_permit rep n s).1
  step (failed rep err) s = (output_failure rep err s).1
  step (waited rep result canceled) s = (wait_writable rep result canceled s).1
  step (stdin_waited result canceled) s = (wait_stdin_readable result canceled s).1
  step (subscribed v) s = (add_pollable v s).1
  step (error_dropped rep) s = record s { errors = delete rep s.errors }
  step (pollable_dropped rep) s = record s { pollables = delete rep s.pollables }
  step (output_dropped rep) s = record s {
    permits = delete rep s.permits;
    output_failed = delete rep s.output_failed;
  }

  unfoldable pub run : List (Event P) → HostState P → HostState P
  run [] s = s
  run (e ∷ es) s = run es (step e s)

  -- The bytes that a step grants to writes on `rep`.
  abbrev granted : ℕ → Event P → HostState P → ℕ
  granted rep (probed other permit err) s =
      if other == rep then (probe_write_permit other permit err s).0.0 else 0
  granted rep _ s = 0

  -- The bytes of the write on `rep` that a step lets through.
  abbrev admitted : ℕ → Event P → HostState P → ℕ
  admitted rep (consumed other n) s =
      if (consume_write_permit other n s).0 then (if other == rep then n else 0) else 0
  admitted rep _ s = 0

  abbrev pub granted_by : ℕ → List (Event P) → HostState P → ℕ
  granted_by rep [] s = 0
  granted_by rep (e ∷ es) s = granted rep e s + granted_by rep es (step e s)

  abbrev pub admitted_by : ℕ → List (Event P) → HostState P → ℕ
  admitted_by rep [] s = 0
  admitted_by rep (e ∷ es) s = admitted rep e s + admitted_by rep es (step e s)

  abbrev pub outstanding : ℕ → HostState P → ℕ
  outstanding rep s = from_option (lookup rep s.permits) 0

  add_error_permits : (err : Error) (s : HostState P) → (add_error err s).1.permits ≡ s.permits
  unfolding add_error
  add_error_permits err s = ground arith

  step_permits :
      (rep : ℕ) (e : Event P) (s : HostState P)
      → admitted rep e s + outstanding rep (step e s) ≤ outstanding rep s + granted rep e s
  unfolding step probe_write_permit consume_write_permit output_failure wait_writable
      wait_stdin_readable add_pollable stream_failure add_error
  step_permits rep (probed other permit none) s =
      ground (arith, lookup-insert other rep (probe_write_permit other permit none s).0.0 s.permits)
  step_permits rep (probed other permit (some e)) s =
      ground (arith, lookup-delete other rep s.permits)
  step_permits rep (consumed other n) s = ground (arith, lookup-delete other rep s.permits)
  step_permits rep (failed other err) s = ground arith
  step_permits rep (waited other result canceled) s = ground arith
  step_permits rep (stdin_waited result canceled) s = ground arith
  step_permits rep (subscribed v) s = ground arith
  step_permits rep (error_dropped other) s = omega arith
  step_permits rep (pollable_dropped other) s = omega arith
  step_permits rep (output_dropped other) s = ground (arith, lookup-delete other rep s.permits)

  -- A grant is spent once: over any calls, the bytes of the writes that are let through on a
  -- stream and those of the grant that is left are at most those of the grant that was there and
  -- of the grants that its CheckWrites gave.
  pub admitted_lem :
      (rep : ℕ) (es : List (Event P)) (s : HostState P)
      → admitted_by rep es s + outstanding rep (run es s) ≤ outstanding rep s + granted_by rep es s
  unfolding run
  admitted_lem rep [] s = omega arith
  admitted_lem rep (e ∷ es) s = omega (arith, step_permits rep e s, admitted_lem rep es (step e s))
