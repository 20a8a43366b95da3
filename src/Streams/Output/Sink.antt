-- ===== src/Streams/Output/Sink.antt =====
-- p2/io.go, `outputAdapter`: what it promises, as a state machine without slots, channels and
-- goroutines, and that it keeps the promise.
use wasi.Prelude.{
  ◌≡◌, refl, sym, ◌∙◌, ℕ, List, [], ◌∷◌, Bool, true, false, Option, none, some, is_some, arith,
  if◌then◌else◌,
}
use wasi.Abi.Errno.{Error, err_would_block}
use wasi.Host.{Bytes}
use wasi.Streams.Input.{is_empty}
use wasi.Streams.Output.{
  Call, write_call, flush_call, Worker, Output, Returned, Event, check_event, write_event,
  flush_event, return_event, max_io_size, outcome, check_write, try_write, begin_flush, settle,
  finish, new_output, step, run,
}

-- One write or flush is under way, or none. `writing p wanted` knows whether a flush is to follow.
pub data Sink : Type 0 where
  ready : Sink
  writing : Bytes → Bool → Sink
  flushing : Sink
  broken : Error → Sink

-- A caller may write at once, or nothing, or the sink has failed for good.
unfoldable pub permit : Sink → ℕ × Option Error
permit ready = (max_io_size, none)
permit (writing p wanted) = (0, none)
permit flushing = (0, none)
permit (broken e) = (0, some e)

-- A write is taken where none is under way; one of no bytes is taken always and does nothing.
unfoldable pub put : Bytes → Sink → Option Error × Sink
put p ready = (none, if is_empty p then ready else writing p false)
put p (writing q wanted) =
    (if is_empty p then none else some (err_would_block ∷ []), writing q wanted)
put p flushing = (if is_empty p then none else some (err_would_block ∷ []), flushing)
put p (broken e) = (some e, broken e)

-- A flush that comes during a write follows it; one that comes during a flush is that flush.
unfoldable pub want_flush : Sink → Option Error × Sink
want_flush ready = (none, flushing)
want_flush (writing p wanted) = (none, writing p true)
want_flush flushing = (none, flushing)
want_flush (broken e) = (some e, broken e)

-- The first failure of a call breaks the sink; a short write is a failure.
abbrev after_write : Bool → Option Error → Sink
after_write wanted (some e) = broken e
after_write true none = flushing
after_write false none = ready

unfoldable pub returns : Bool → Returned → Sink → Sink
returns has_flush r ready = ready
returns has_flush r (writing p wanted) = after_write wanted (outcome (write_call p) has_flush r)
returns has_flush r flushing = after_write false (outcome flush_call has_flush r)
returns has_flush r (broken e) = broken e

unfoldable pub sink_step : Bool → Event → Sink → (ℕ × Option Error) × Sink
unfolding permit put want_flush returns
sink_step has_flush check_event k = (permit k, k)
sink_step has_flush (write_event p) k = let (e, l) = put p k in ((0, e), l)
sink_step has_flush flush_event k = let (e, l) = want_flush k in ((0, e), l)
sink_step has_flush (return_event r) k = ((0, none), returns has_flush r k)

unfoldable pub sink_run : Bool → List Event → Sink → List (ℕ × Option Error) × Sink
sink_run has_flush [] k = ([], k)
sink_run has_flush (e ∷ es) k =
    let (a, l) = sink_step has_flush e k in let (more, m) = sink_run has_flush es l in (a ∷ more, m)

abbrev is_flush : Call → Bool
is_flush (write_call p) = false
is_flush flush_call = true

abbrev FlushAgrees : Option Worker → Type 0
FlushAgrees none = Unit
FlushAgrees (some w) = w.flush ≡ is_flush w.call

-- The slot is taken while a worker runs; a failed adapter has none; a flush waits for a worker only.
pub record IsSound (s : Output) : Type 0 where
  pub slot : s.slots ≡ (if is_some s.worker then 1 else 0)
  pub failed : is_some s.err ≡ true → s.worker ≡ none
  pub agrees : FlushAgrees s.worker
  pub waits : s.worker ≡ none → s.flush_pending ≡ false

pub new_output-IsSound : (has_flush : Bool) → IsSound (new_output has_flush)
unfolding new_output
new_output-IsSound has_flush = ground arith

pub step-IsSound : (e : Event) (s : Output) → IsSound s → IsSound (step e s).1
unfolding step check_write try_write begin_flush finish settle
step-IsSound check_event s h = h
step-IsSound (write_event p) s h = ground arith
step-IsSound flush_event s h = ground arith
step-IsSound (return_event r) s h = ground arith

abbrev at_call : Call → Bool → Sink
at_call (write_call p) wanted = writing p wanted
at_call flush_call wanted = flushing

abbrev at_worker : Option Worker → Bool → Sink
at_worker none wanted = ready
at_worker (some w) wanted = at_call w.call wanted

abbrev at_error : Option Error → Sink → Sink
at_error none k = k
at_error (some e) k = broken e

-- What a caller can know of an adapter.
abbrev pub view : Output → Sink
view s = at_error s.err (at_worker s.worker s.flush_pending)

step_refines :
    (b : Bool) (e : Event) (s : Output)
    → IsSound s
    → b ≡ s.has_flush
    → ((step e s).0, view (step e s).1) ≡ sink_step b e (view s)
unfolding step check_write try_write begin_flush finish settle sink_step permit put want_flush
    returns
step_refines b check_event s h f = ground arith
step_refines b (write_event p) s h f = ground arith
step_refines b flush_event s h f = ground arith
step_refines b (return_event r) s h f = ground arith

keeps_flush : (e : Event) (s : Output) → (step e s).1.has_flush ≡ s.has_flush
unfolding step check_write try_write begin_flush finish settle
keeps_flush check_event s = refl
keeps_flush (write_event p) s = ground arith
keeps_flush flush_event s = ground arith
keeps_flush (return_event r) s = ground arith

run_refines_at :
    (b : Bool) (es : List Event) (s : Output)
    → IsSound s
    → b ≡ s.has_flush
    → ((run es s).0, view (run es s).1) ≡ sink_run b es (view s)
unfolding run sink_run
run_refines_at b [] s h f = refl
run_refines_at b (e ∷ es) s h f =
    rw (← step_refines b e s h f) (
      rw (← run_refines_at b es (step e s).1 (step-IsSound e s h) (f ∙ sym (keeps_flush e s))) refl)

-- In any order of calls and of returns of the writer, a sound adapter answers as the sink that it
-- presents does, and ends as one that presents the sink's end.
pub run_refines :
    (es : List Event) (s : Output)
    → IsSound s
    → ((run es s).0, view (run es s).1) ≡ sink_run s.has_flush es (view s)
run_refines es s h = run_refines_at s.has_flush es s h refl
