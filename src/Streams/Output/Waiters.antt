-- ===== src/Streams/Output/Waiters.antt =====
-- p2/io.go, `outputAdapter`: those who wait for a `done` channel.
use wasi.Prelude.{
  ◌≡◌, ℕ, suc, ◌≤◌, List, [], ◌∷◌, Bool, true, false, ◌&&◌, ◌||◌, leb, Option, none, some, arith,
  ◌==◌, if◌then◌else◌,
}
use wasi.Streams.Output.{
  Worker, Output, Returned, Event, check_event, write_event, flush_event, return_event, check_write,
  try_write, begin_flush, settle, finish, step, run,
}
use wasi.Streams.Output.Sink.{IsSound, step-IsSound}

abbrev pub is_in : ℕ → List ℕ → Bool
is_in n [] = false
is_in n (m ∷ ms) = if m == n then true else is_in n ms

-- The returns of the writer among the events.
abbrev pub returns_in : List Event → ℕ
returns_in [] = 0
returns_in (return_event r ∷ es) = suc (returns_in es)
returns_in (e ∷ es) = returns_in es

-- How many calls on the writer a worker has left: a flush may follow a write.
abbrev calls_left : Worker → ℕ
calls_left w = if w.flush then 1 else 2

abbrev serves : ℕ → ℕ → Option Worker → Bool
serves d k none = false
serves d k (some w) = (w.done == d) && leb (calls_left w) k

-- The channel is closed, or its worker has at most `k` calls left.
abbrev is_served : ℕ → ℕ → Output → Bool
is_served d k s = is_in d s.completed || serves d k s.worker

closed-step :
    (d : ℕ) (e : Event) (s : Output)
    → is_in d s.completed ≡ true
    → is_in d (step e s).1.completed ≡ true
unfolding step check_write try_write begin_flush finish settle
closed-step d check_event s h = h
closed-step d (write_event p) s h = ground arith
closed-step d flush_event s h = ground arith
closed-step d (return_event r) s h = ground arith

served-return :
    (d k : ℕ) (r : Returned) (s : Output)
    → is_served d (suc k) s ≡ true
    → is_served d k (finish r s) ≡ true
unfolding finish settle
served-return d k r s h = ground arith

served-other :
    (d k : ℕ) (e : Event) (s : Output)
    → IsSound s
    → is_served d k s ≡ true
    → is_served d k (step e s).1 ≡ true
unfolding step check_write try_write begin_flush finish settle
served-other d k check_event s h v = v
served-other d k (write_event p) s h v = ground arith
served-other d k flush_event s h v = ground arith
served-other d k (return_event r) s h v = ground arith

served_at_last : (d : ℕ) (s : Output) → is_served d 0 s ≡ true → is_in d s.completed ≡ true
served_at_last d s h = ground arith

run-served :
    (es : List Event) (d : ℕ) (s : Output)
    → IsSound s
    → is_served d (returns_in es) s ≡ true
    → is_in d (run es s).1.completed ≡ true
unfolding run step
run-served [] d s h v = served_at_last d s v
run-served (check_event ∷ es) d s h v = run-served es d s h v
run-served (write_event p ∷ es) d s h v =
    run-served es d (try_write p s).1 (step-IsSound (write_event p) s h)
      (served-other d (returns_in es) (write_event p) s h v)
run-served (flush_event ∷ es) d s h v =
    run-served es d (begin_flush s).1 (step-IsSound flush_event s h)
      (served-other d (returns_in es) flush_event s h v)
run-served (return_event r ∷ es) d s h v =
    run-served es d (finish r s) (step-IsSound (return_event r) s h)
      (served-return d (returns_in es) r s v)

-- Every busy period ends: from a sound state, once the writer has returned twice, with any other
-- calls in between, whoever waits for the worker of that state is let go.
pub worker-served :
    (es : List Event) (s : Output) (w : Worker)
    → IsSound s
    → s.worker ≡ some w
    → 2 ≤ returns_in es
    → is_in w.done (run es s).1.completed ≡ true
worker-served es s w h e enough = run-served es w.done s h (ground arith)
