-- ===== src/Streams/Input.antt =====
-- p2/io.go, `asyncInput`. The goroutine that `start` begins ends at some time with what the reader
-- returned; that is an event of its own, which may fall between any two calls and, within TryRead,
-- between its `start` and the `collect` after it. A pointer to a `pendingInputRead` is the number
-- of the allocation.
pub mod Sound
pub mod Delivery
pub mod Ends
use wasi.Prelude.{
  ℕ, suc, List, [], ◌∷◌, ◌++◌, Bool, true, false, not, ◌&&◌, ◌||◌, Option, none, some, take, drop,
  is_some, ◌==◌, if◌then◌else◌,
}
use wasi.Abi.Errno.{Error, is, eof, err_would_block}
use wasi.Host.{Bytes}

-- What a read of the underlying reader returned: the bytes `buf[:n]` and the error.
pub record ReadResult : Type 0 where
  pub b : Bytes
  pub err : Option Error

-- `result` is there once `ready` is closed.
pub record PendingRead : Type 0 where
  pub id : ℕ
  pub result : Option ReadResult

pub record Input : Type 0 where
  pub result : Option ReadResult
  pub waiting : Option PendingRead
  pub closed : Bool
  pub allocated : ℕ

-- newInput of a reader that is not an InputStream; `false` for a nil one.
unfoldable pub new_input : Bool → Input
new_input has_reader = record {
  result = none;
  waiting = none;
  closed = not has_reader;
  allocated = 0;
}

unfoldable pub start : Input → Input
start s = if is_some s.waiting || (is_some s.result || s.closed) then s else record s {
  waiting = some (record { id = s.allocated; result = none });
  allocated = suc s.allocated;
}

-- The end of the goroutine: it publishes its result in the read that is in flight.
abbrev pub publish : PendingRead → Option ReadResult → ReadResult → PendingRead
publish p none r = record p { result = some r }
publish p (some earlier) r = p

unfoldable pub land : Option ReadResult → Input → Input
land none s = s
land (some r) s = elim s.waiting [
  | none ↦ s
  | some p ↦ record s { waiting = some (publish p p.result r) }
]

unfoldable pub collect : Input → Input
collect s = elim s.waiting [
  | none ↦ s
  | some p ↦ elim p.result [ none ↦ s | some r ↦ record s { result = some r; waiting = none } ]
]

abbrev pub is_empty : Bytes → Bool
is_empty [] = true
is_empty (_ ∷ _) = false

abbrev pub is_end : Option Error → Bool
is_end none = false
is_end (some e) = is e eof

-- len(result.b) == 0 && result.err != nil
abbrev pub is_failure : Option ReadResult → Bool
is_failure none = false
is_failure (some r) = is_empty r.b && is_some r.err

unfoldable pub pending_read_error : Input → Bool × Input
unfolding collect
pending_read_error s = let t = collect s in (is_failure t.result, t)

abbrev pub Reading : Type 0
Reading = Bytes × Option Error

-- A read of no bytes.
abbrev pub is_known_end : Option ReadResult → Bool
is_known_end none = false
is_known_end (some r) = is_empty r.b && is_end r.err

unfoldable pub read_nothing : Input → Reading × Input
unfolding is
read_nothing s =
    let t = if is_known_end s.result then record s { result = none; closed = true } else s in
    (([], if t.closed then some (eof ∷ []) else none), t)

-- What follows a copy that emptied the buffer.
unfoldable pub end_read : Bytes → Option Error → Input → Reading × Input
unfolding is
end_read got none s = ((got, none), record s { result = none })
end_read got (some e) s =
    if is e eof || is_empty got
    then (
      if is_empty got then ([], some e) else (got, none),
      record s { result = none; closed = true },
    )
    else ((got, none), record s { result = some (record { b = []; err = some e }) })

unfoldable pub copy_out : ℕ → ReadResult → Input → Reading × Input
unfolding end_read
copy_out n r s =
    let got = take n r.b in
    let rest = drop n r.b in
    if is_empty rest
    then end_read got r.err s
    else ((got, none), record s { result = some (record r { b = rest }) })

unfoldable pub deliver : ℕ → Input → Reading × Input
unfolding copy_out
deliver n s = elim s.result [
  | none ↦ (([], some (err_would_block ∷ [])), s)
  | some r ↦ copy_out n r s
]

-- `quick` is what the reader returned, where the read in flight ends before the second collect.
unfoldable pub fetch : Option ReadResult → Input → Input
unfolding start land collect
fetch quick s = if is_some s.result then s else collect (land quick (start s))

-- TryRead of a buffer of `n` bytes.
unfoldable pub try_read : ℕ → Option ReadResult → Input → Reading × Input
unfolding collect read_nothing deliver fetch
try_read n quick s =
    let t = collect s in
    if n == 0
    then read_nothing t
    else if not (is_some t.result) && t.closed
    then (([], some (eof ∷ [])), t)
    else deliver n (fetch quick t)

-- WaitReadable up to its select: the read to wait for, or none where it returns at once.
unfoldable pub wait_begin : Input → Option ℕ × Input
unfolding collect start
wait_begin s =
    let t = collect s in
    if is_some t.result || t.closed
    then (none, t)
    else let u = start t in (elim u.waiting [ none ↦ none | some p ↦ some p.id ], u)

-- WaitReadable once the read that it waits for is ready.
abbrev pub wake : ℕ → Option PendingRead → Input → Input
wake id none s = s
wake id (some p) s = elim p.result [
  | none ↦ s
  | some r ↦ if p.id == id then record s { result = some r; waiting = none } else s
]

unfoldable pub wait_wake : ℕ → Input → Input
wait_wake id s = wake id s.waiting s

pub data Event : Type 0 where
  read_event : ℕ → Option ReadResult → Event
  probe_event : Event
  wait_event : Event
  wake_event : ℕ → Event
  landing : ReadResult → Event

-- The bytes that a step hands to the caller, and the state after it.
unfoldable pub step : Event → Input → Bytes × Input
unfolding try_read pending_read_error wait_begin wait_wake land
step (read_event n quick) s = let (a, t) = try_read n quick s in (a.0, t)
step probe_event s = ([], (pending_read_error s).1)
step wait_event s = ([], (wait_begin s).1)
step (wake_event id) s = ([], wait_wake id s)
step (landing r) s = ([], land (some r) s)

unfoldable pub run : List Event → Input → Bytes × Input
unfolding step
run [] s = ([], s)
run (e ∷ es) s = let (got, t) = step e s in let (more, u) = run es t in (got ++ more, u)
