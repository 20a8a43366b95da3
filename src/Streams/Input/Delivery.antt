-- ===== src/Streams/Input/Delivery.antt =====
-- p2/io.go, `asyncInput`: the bytes of the reader over runs of calls, ends of reads and wake-ups.
use wasi.Prelude.{
  ◌≡◌, refl, ap, sym, ◌∙◌, inl, inr, ℕ, zero, suc, List, [], ◌∷◌, ◌++◌, true, ◌||◌, Option, none,
  some, take, drop, is_some, arith, Option-cases, ◌==◌, if◌then◌else◌,
}
use mathlib.Core.List.{append_assoc}
use wasi.Host.{Bytes}
use wasi.Streams.Input.{
  ReadResult, PendingRead, Input, Event, read_event, probe_event, wait_event, wake_event, landing,
  start, land, collect, is_empty, pending_read_error, read_nothing, end_read, copy_out, deliver,
  fetch, try_read, wait_begin, wait_wake, step, run,
}
use wasi.Streams.Input.Sound.{
  IsSound, collect-IsSound, start-IsSound, land-IsSound, fetch-IsSound, step-IsSound,
}

abbrev pub bytes_of : Option ReadResult → Bytes
bytes_of none = []
bytes_of (some r) = r.b

abbrev in_flight : Option PendingRead → Bytes
in_flight none = []
in_flight (some p) = bytes_of p.result

-- The bytes that were read and not yet handed out.
abbrev pub held : Input → Bytes
held s = bytes_of s.result ++ in_flight s.waiting

abbrev arrives_in : Option PendingRead → Bytes → Bytes
arrives_in none b = []
arrives_in (some p) b = if is_some p.result then [] else b

-- The bytes that the reader returns in a step, where a read is in flight.
abbrev pub supplied : Event → Input → Bytes
supplied (read_event n q) s =
    let t = collect s in
    if n == 0 || (is_some t.result || t.closed)
    then []
    else arrives_in (start t).waiting (bytes_of q)
supplied (landing r) s = arrives_in s.waiting r.b
supplied _ s = []

abbrev pub supplied_by : List Event → Input → Bytes
supplied_by [] s = []
supplied_by (e ∷ es) s = supplied e s ++ supplied_by es (step e s).1

append_nil : (b : Bytes) → b ++ [] ≡ b
append_nil [] = refl
append_nil (x ∷ b) = ap (λ t. x ∷ t) (append_nil b)

held-collect : (s : Input) → IsSound s → held (collect s) ≡ held s
unfolding collect
held-collect s h = grind (arith, append_nil)

held-start : (s : Input) → IsSound s → held (start s) ≡ held s
unfolding start
held-start s h = ground arith

held-land :
    (q : Option ReadResult) (s : Input)
    → IsSound s
    → held (land q s) ≡ held s ++ arrives_in s.waiting (bytes_of q)
unfolding land
held-land q s h = grind (arith, append_nil)

take-append-drop : (n : ℕ) (b : Bytes) → take n b ++ drop n b ≡ b
take-append-drop zero b = refl
take-append-drop (suc n) [] = refl
take-append-drop (suc n) (x ∷ b) = ap (λ t. x ∷ t) (take-append-drop n b)

take_all : (n : ℕ) (b : Bytes) → is_empty (drop n b) ≡ true → take n b ≡ b
take_all zero [] h = refl
take_all zero (x ∷ b) h = cc
take_all (suc n) [] h = refl
take_all (suc n) (x ∷ b) h = ap (λ t. x ∷ t) (take_all n b h)

-- A copy splits the bytes that lie ready.
held-copy_out :
    (n : ℕ) (r : ReadResult) (s : Input)
    → IsSound s
    → s.result ≡ some r
    → (copy_out n r s).0.0 ++ held (copy_out n r s).1 ≡ held s
unfolding copy_out end_read
held-copy_out n r s h e = grind (arith, append_nil, take-append-drop n r.b, take_all n r.b)

held-deliver : (n : ℕ) (s : Input) → IsSound s → (deliver n s).0.0 ++ held (deliver n s).1 ≡ held s
unfolding deliver
held-deliver n s h = elim (Option-cases s.result) [
  | inl e ↦ ground arith
  | inr (r, e) ↦ ground (arith, held-copy_out n r s h e)
]

held-fetch :
    (q : Option ReadResult) (s : Input)
    → IsSound s
    → s.result ≡ none
    → held (fetch q s) ≡ held s ++ arrives_in (start s).waiting (bytes_of q)
unfolding fetch
held-fetch q s h e = ground (
  arith,
  held-collect (land q (start s)) (land-IsSound q (start s) (start-IsSound s h)),
  held-land q (start s) (start-IsSound s h),
  held-start s h,
)

held-read_nothing : (s : Input) → held (read_nothing s).1 ≡ held s
unfolding read_nothing
held-read_nothing s = ground arith

pub fetch_ready : (q : Option ReadResult) (s : Input) → is_some s.result ≡ true → fetch q s ≡ s
unfolding fetch
fetch_ready q s h = ground arith

held-try_read :
    (n : ℕ) (q : Option ReadResult) (s : Input)
    → IsSound s
    → (try_read n q s).0.0 ++ held (try_read n q s).1 ≡ held s ++ supplied (read_event n q) s
unfolding try_read
held-try_read n q s h = ground (
  arith,
  append_nil (held s),
  held-collect s h,
  held-read_nothing (collect s),
  held-fetch q (collect s) (collect-IsSound s h),
  held-deliver n (fetch q (collect s)) (fetch-IsSound q (collect s) (collect-IsSound s h)),
  fetch_ready q (collect s),
)

held-wait_begin : (s : Input) → IsSound s → held (wait_begin s).1 ≡ held s
unfolding wait_begin
held-wait_begin s h = ground (arith, held-collect s h, held-start (collect s) (collect-IsSound s h))

held-wait_wake : (id : ℕ) (s : Input) → IsSound s → held (wait_wake id s) ≡ held s
unfolding wait_wake
held-wait_wake id s h = grind (arith, append_nil)

held-step :
    (e : Event) (s : Input) → IsSound s → (step e s).0 ++ held (step e s).1 ≡ held s ++ supplied e s
unfolding step pending_read_error
held-step (read_event n q) s h = held-try_read n q s h
held-step probe_event s h = held-collect s h ∙ sym (append_nil (held s))
held-step wait_event s h = held-wait_begin s h ∙ sym (append_nil (held s))
held-step (wake_event id) s h = held-wait_wake id s h ∙ sym (append_nil (held s))
held-step (landing r) s h = held-land (some r) s h

-- Whatever the order of the calls, the ends of reads and the wake-ups: from a sound state, the
-- bytes that the caller got followed by those that the adapter still holds are the bytes that it
-- held before followed by those that the reader returned, each once and in order.
pub run-bytes :
    (es : List Event) (s : Input)
    → IsSound s
    → (run es s).0 ++ held (run es s).1 ≡ held s ++ supplied_by es s
unfolding run
run-bytes [] s h = sym (append_nil (held s))
run-bytes (e ∷ es) s h =
    append_assoc (step e s).0 (run es (step e s).1).0 (held (run es (step e s).1).1)
    ∙ ap (λ t. (step e s).0 ++ t) (run-bytes es (step e s).1 (step-IsSound e s h))
    ∙ sym (append_assoc (step e s).0 (held (step e s).1) (supplied_by es (step e s).1))
    ∙ ap (λ t. t ++ supplied_by es (step e s).1) (held-step e s h)
    ∙ append_assoc (held s) (supplied e s) (supplied_by es (step e s).1)
