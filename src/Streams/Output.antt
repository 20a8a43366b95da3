-- ===== src/Streams/Output.antt =====
-- p2/io.go, `outputAdapter`. A goroutine of `run` is a worker: the call on the writer that it is
-- in. The return of that call is an event, with the critical section that follows it, since nothing
-- shared is touched in between. A `done` channel is the number of its allocation, and is closed
-- once its number is in `completed`.
pub mod Sink
pub mod Waiters
use wasi.Prelude.{
  ℕ, suc, ◌-◌, List, [], ◌∷◌, Bool, true, false, not, ◌&&◌, ◌||◌, Option, none, some, length,
  is_some, ◌==◌, if◌then◌else◌,
}
use wasi.Abi.Errno.{Error, err_would_block, short_write}
use wasi.Host.{Bytes}
use wasi.Streams.Input.{is_empty}

-- maxIOSize = 16 << 20
abbrev pub max_io_size : ℕ
max_io_size = 16777216

-- A call on the underlying writer.
pub data Call : Type 0 where
  write_call : Bytes → Call
  flush_call : Call

-- What `run` holds in its `request`, and the call that it is in.
pub record Worker : Type 0 where
  pub call : Call
  pub flush : Bool
  pub done : ℕ

-- `slots` is the length of the channel of capacity 1; `has_flush` tells that the writer has Flush.
pub record Output : Type 0 where
  pub slots : ℕ
  pub last : Option ℕ
  pub err : Option Error
  pub flush_pending : Bool
  pub worker : Option Worker
  pub completed : List ℕ
  pub allocated : ℕ
  pub has_flush : Bool

-- newOutput of a writer that is not an OutputStream.
unfoldable pub new_output : Bool → Output
new_output has_flush = record {
  slots = 0;
  last = none;
  err = none;
  flush_pending = false;
  worker = none;
  completed = [];
  allocated = 0;
  has_flush = has_flush;
}

-- (permit, error)
unfoldable pub check_write : Output → ℕ × Option Error
check_write s = elim s.err [
  | some e ↦ (0, some e)
  | none ↦ (if not (s.slots == 0) then 0 else max_io_size, none)
]

-- Taking the slot, a new done channel, and the goroutine.
abbrev pub launch : Call → Bool → Output → Output
launch c flush s = record s {
  slots = suc s.slots;
  last = some s.allocated;
  allocated = suc s.allocated;
  worker = some (record { call = c; flush = flush; done = s.allocated });
}

unfoldable pub try_write : Bytes → Output → Option Error × Output
try_write p s = elim s.err [
  | some e ↦ (some e, s)
  | none ↦
      if is_empty p
      then (none, s)
      else if s.slots == 0
      then (none, launch (write_call p) false s)
      else (some (err_would_block ∷ []), s)
]

unfoldable pub begin_flush : Output → Option Error × Output
begin_flush s = elim s.err [
  | some e ↦ (some e, s)
  | none ↦
      if not (s.slots == 0)
      then (none, record s { flush_pending = true })
      else (none, launch flush_call true s)
]

-- What a call on the writer returned: Write its count and error, Flush its error.
pub record Returned : Type 0 where
  pub count : ℕ
  pub error : Option Error

-- The `err` of `run` after its call.
abbrev pub outcome : Call → Bool → Returned → Option Error
outcome (write_call data_) has_flush r = elim r.error [
  | some e ↦ some e
  | none ↦ if r.count == length data_ then none else some (short_write ∷ [])
]
outcome flush_call has_flush r = if has_flush then r.error else none

-- if err != nil && s.err == nil { s.err = err }
abbrev pub first_error : Option Error → Option Error → Option Error
first_error none err = err
first_error (some e) err = some e

-- The critical section of `run`, for the worker `w`, after a call with the error `err`.
unfoldable pub settle : Worker → Option Error → Output → Output
settle w err s =
    let now = first_error s.err err in
    if s.flush_pending && (not w.flush && not (is_some now))
    then record s {
      err = now;
      flush_pending = false;
      worker = some (record w { call = flush_call; flush = true });
    }
    else record s {
      err = now;
      flush_pending = false;
      slots = s.slots - 1;
      worker = none;
      completed = w.done ∷ s.completed;
    }

unfoldable pub finish : Returned → Output → Output
unfolding settle
finish r s = elim s.worker [ none ↦ s | some w ↦ settle w (outcome w.call s.has_flush r) s ]

-- WaitWritable up to its select: an answer, or the channel to wait for.
pub data Waiting : Type 0 where
  answered : Option Error → Waiting
  waits_for : ℕ → Waiting

unfoldable pub wait_writable : Output → Waiting
wait_writable s = elim s.err [
  | some e ↦ answered (some e)
  | none ↦ elim s.last [ none ↦ answered none | some done ↦ waits_for done ]
]

pub data Event : Type 0 where
  check_event : Event
  write_event : Bytes → Event
  flush_event : Event
  return_event : Returned → Event

-- The permit and the error that an event answers with, and the state after it.
unfoldable pub step : Event → Output → (ℕ × Option Error) × Output
unfolding check_write try_write begin_flush finish
step check_event s = (check_write s, s)
step (write_event p) s = let (e, t) = try_write p s in ((0, e), t)
step flush_event s = let (e, t) = begin_flush s in ((0, e), t)
step (return_event r) s = ((0, none), finish r s)

unfoldable pub run : List Event → Output → List (ℕ × Option Error) × Output
run [] s = ([], s)
run (e ∷ es) s = let (a, t) = step e s in let (more, u) = run es t in (a ∷ more, u)
