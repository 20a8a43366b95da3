-- ===== src/Streams/Permits.antt =====
-- p2/io.go, the functions of `hostState` on streams, with the limits of p2/p2.go. Of the maps only
-- what these functions touch is here; the values of pollables are closures, a parameter. Each
-- function holds the state's lock where it reads and writes it.
use wasi.Prelude.{
  ℕ, ◌+◌, ◌%◌, ◌^◌, List, [], ◌∷◌, Bool, true, false, ◌&&◌, ◌||◌, Option, none, some, length,
  is_some, ltb, leb, ◌==◌, if◌then◌else◌,
}
use wasi.Abi.Errno.{Error, is, eof}
use wasi.Table.Map.{lookup, insert, delete}
use wasi.Streams.Output.{max_io_size}

-- The limits that the streams are under, as the configuration gives them.
pub record Limits : Type 0 where
  pub max_errors : ℕ
  pub max_pollables : ℕ
  pub max_aggregate_buffer_bytes : ℕ

unfoldable pub normalized : Limits → Limits
normalized l = record {
  max_errors = if l.max_errors == 0 then 256 else l.max_errors;
  max_pollables = if l.max_pollables == 0 then 1024 else l.max_pollables;
  max_aggregate_buffer_bytes =
      if l.max_aggregate_buffer_bytes == 0 then 16777216 else l.max_aggregate_buffer_bytes;
}

unfoldable pub io_limit : Limits → ℕ
unfolding normalized
io_limit l =
    let m = normalized l in
    if ltb m.max_aggregate_buffer_bytes max_io_size
    then m.max_aggregate_buffer_bytes
    else max_io_size

pub record HostState (P : Type 0) : Type 0 where
  pub limits : Limits
  pub errors : List (ℕ × Error)
  pub next_error : ℕ
  pub pollables : List (ℕ × P)
  pub next_pollable : ℕ
  pub permits : List (ℕ × ℕ)
  pub output_failed : List (ℕ × Bool)
  pub stdin_buffered : Bool
  pub stdin_read_error : Option Error

-- What a stream call answers with when it does not succeed: the variants `closed` and
-- `last-operation-failed` of the guest's stream-error, or a Go error that ends the guest's call.
pub data Failure : Type 0 where
  closed : Failure
  last_operation_failed : ℕ → Failure
  quota_exceeded : Failure
  interrupted : Error → Failure

abbrev pub is_set : Option Bool → Bool
is_set none = false
is_set (some b) = b

abbrev within : Option ℕ → ℕ → ℕ → Bool
within none length_ limit = false
within (some permit) length_ limit = leb length_ permit && leb length_ limit

module _ {P : Type 0} where
  unfoldable pub add_error : Error → HostState P → Failure × HostState P
  add_error err s =
      if leb s.limits.max_errors (length s.errors % 2 ^ 32) then (quota_exceeded, s) else (
        last_operation_failed s.next_error,
        record s {
          errors = insert s.next_error err s.errors;
          next_error = (s.next_error + 1) % 2 ^ 32;
        },
      )

  unfoldable pub stream_failure : Error → HostState P → Failure × HostState P
  unfolding is add_error
  stream_failure err s = if is err eof then (closed, s) else add_error err s

  unfoldable pub output_closed : ℕ → HostState P → Bool
  output_closed rep s = is_set (lookup rep s.output_failed)

  unfoldable pub output_failure : ℕ → Error → HostState P → Failure × HostState P
  unfolding output_closed stream_failure
  output_failure rep err s =
      if output_closed rep s
      then (closed, s)
      else stream_failure err (record s { output_failed = insert rep true s.output_failed })

  -- The write permit after a CheckWrite that answered (permit, error).
  unfoldable pub probe_write_permit :
      ℕ → ℕ → Option Error → HostState P → (ℕ × Option Error) × HostState P
  unfolding io_limit
  probe_write_permit rep permit (some e) s =
      ((0, some e), record s { permits = delete rep s.permits })
  probe_write_permit rep permit none s =
      let n = if ltb (io_limit s.limits) permit then io_limit s.limits else permit in
      ((n, none), record s { permits = insert rep n s.permits })

  -- After WaitWritable answered `result`; `canceled` is ctx.Err(). None is success.
  unfoldable pub wait_writable :
      ℕ → Option Error → Option Error → HostState P → Option Failure × HostState P
  unfolding output_closed output_failure
  wait_writable rep result canceled s =
      if output_closed rep s then (some closed, s) else elim result [
        | none ↦ (none, s)
        | some e ↦ elim canceled [
          | some c ↦ (some (interrupted c), s)
          | none ↦ let (f, t) = output_failure rep e s in (some f, t)
        ]
      ]

  unfoldable pub wait_stdin_readable :
      Option Error → Option Error → HostState P → Option Failure × HostState P
  unfolding stream_failure
  wait_stdin_readable result canceled s =
      if s.stdin_buffered || is_some s.stdin_read_error then (none, s) else elim result [
        | none ↦ (none, s)
        | some e ↦ elim canceled [
          | some c ↦ (some (interrupted c), s)
          | none ↦
              let (f, t) = stream_failure e (record s { stdin_read_error = some (eof ∷ []) }) in
              (some f, t)
        ]
      ]

  -- The representation of the new pollable, or none where the quota is exceeded.
  unfoldable pub add_pollable : P → HostState P → Option ℕ × HostState P
  add_pollable v s =
      if leb s.limits.max_pollables (length s.pollables % 2 ^ 32) then (none, s) else (
        some s.next_pollable,
        record s {
          pollables = insert s.next_pollable v s.pollables;
          next_pollable = (s.next_pollable + 1) % 2 ^ 32;
        },
      )

  -- `true` where the write may go on.
  unfoldable pub consume_write_permit : ℕ → ℕ → HostState P → Bool × HostState P
  unfolding io_limit
  consume_write_permit rep length_ s = (
    within (lookup rep s.permits) length_ (io_limit s.limits),
    record s { permits = delete rep s.permits },
  )
