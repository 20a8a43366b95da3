-- ===== src/Streams/Input/Ends.antt =====
-- p2/io.go, `asyncInput`: errors and the end of the input.
use wasi.Prelude.{
  ◌≡◌, refl, ◌⊎◌, inl, inr, ℕ, suc, List, [], ◌∷◌, true, false, not, ◌&&◌, Option, none, some,
  is_some, arith, Option-cases, Bool-cases, ◌==◌,
}
use wasi.Abi.Errno.{Error, err_would_block}
use wasi.Host.{Bytes}
use wasi.Streams.Input.{
  ReadResult, Input, Event, read_event, probe_event, wait_event, wake_event, landing, start, land,
  collect, pending_read_error, read_nothing, end_read, copy_out, deliver, fetch, try_read,
  wait_begin, wait_wake, step, run,
}
use wasi.Streams.Input.Sound.{IsSound, collect-IsSound, fetch-IsSound}
use wasi.Streams.Input.Delivery.{held, fetch_ready}

-- What an error with the bytes `b` leaves behind.
abbrev pub IsAtEnd : Bytes → Error → Input → Type 0
IsAtEnd b e t =
    (b ≡ [])
    × (held t ≡ [])
    × ((t.closed ≡ true) ⊎ ((e ≡ err_would_block ∷ []) × (is_some t.waiting ≡ true)))

read_nothing-failed :
    (s : Input) (b : Bytes) (e : Error)
    → IsSound s
    → (read_nothing s).0 ≡ (b, some e)
    → IsAtEnd b e (read_nothing s).1
unfolding read_nothing
read_nothing-failed s b e h a = ground arith

copy_out-failed :
    (n : ℕ) (r : ReadResult) (s : Input) (b : Bytes) (e : Error)
    → IsSound s
    → s.result ≡ some r
    → (copy_out n r s).0 ≡ (b, some e)
    → IsAtEnd b e (copy_out n r s).1
unfolding copy_out end_read
copy_out-failed n r s b e h f a = ground arith

-- After `fetch`, a result lies ready or a read is still in flight.
fetched :
    (q : Option ReadResult) (s : Input)
    → IsSound s
    → s.closed ≡ false
    → (fetch q s).result ≡ none
    → (held (fetch q s) ≡ []) × (is_some (fetch q s).waiting ≡ true)
unfolding fetch start land collect
fetched q s h c f = ground arith

still_reading :
    (q : Option ReadResult) (s : Input)
    → IsSound s
    → (not (is_some s.result) && s.closed) ≡ false
    → (fetch q s).result ≡ none
    → (held (fetch q s) ≡ []) × (is_some (fetch q s).waiting ≡ true)
still_reading q s h o f = elim (Bool-cases s.closed) [
  | inl c ↦ ground (arith, fetch_ready q s, h.ended c)
  | inr c ↦ fetched q s h c f
]

deliver-failed :
    (n : ℕ) (s : Input) (b : Bytes) (e : Error)
    → IsSound s
    → (s.result ≡ none → (held s ≡ []) × (is_some s.waiting ≡ true))
    → (deliver n s).0 ≡ (b, some e)
    → IsAtEnd b e (deliver n s).1
unfolding deliver
deliver-failed n s b e h w a = elim (Option-cases s.result) [
  | inl f ↦ ground (arith, w f)
  | inr (r, f) ↦ ground (arith, copy_out-failed n r s b e h f)
]

-- An error that a read answers with comes without bytes and after all of them: nothing is held any
-- more, and the input is closed, or the answer is that it would block and a read is in flight.
pub try_read-failed :
    (n : ℕ) (q : Option ReadResult) (s : Input) (b : Bytes) (e : Error)
    → IsSound s
    → (try_read n q s).0 ≡ (b, some e)
    → (b ≡ [])
      × (held (try_read n q s).1 ≡ [])
      × (((try_read n q s).1.closed ≡ true)
          ⊎ ((e ≡ err_would_block ∷ []) × (is_some (try_read n q s).1.waiting ≡ true)))
unfolding try_read
try_read-failed n q s b e h a =
    let t = collect s in
    let sound = collect-IsSound s h in
    elim (Bool-cases (n == 0)) [
      | inl z ↦ ground (arith, read_nothing-failed t b e sound)
      | inr z ↦ elim (Bool-cases (not (is_some t.result) && t.closed)) [
        | inl c ↦ ground (arith, sound.ended)
        | inr o ↦ ground (
          arith,
          deliver-failed n (fetch q t) b e (fetch-IsSound q t sound)
              (λ f. still_reading q t sound o f),
        )
      ]
    ]

-- A closed input stays closed and empty, starts no read, and answers every read with the end.
closed-step : (e : Event) (s : Input) → IsSound s → s.closed ≡ true → step e s ≡ ([], s)
unfolding step pending_read_error try_read collect read_nothing deliver fetch start land wait_begin
    wait_wake
closed-step (read_event n q) s h c = ground arith
closed-step probe_event s h c = ground arith
closed-step wait_event s h c = ground arith
closed-step (wake_event id) s h c = ground arith
closed-step (landing r) s h c = ground arith

closed-run : (es : List Event) (s : Input) → IsSound s → s.closed ≡ true → run es s ≡ ([], s)
unfolding run
closed-run [] s h c = refl
closed-run (e ∷ es) s h c = rw (closed-step e s h c) (rw (closed-run es s h c) refl)

collect_twice : (s : Input) → collect (collect s) ≡ collect s
unfolding collect
collect_twice s = ground arith

collected : (n : ℕ) (q : Option ReadResult) (s : Input) → try_read n q (collect s) ≡ try_read n q s
unfolding try_read
collected n q s = rw (collect_twice s) refl

collect-wait_wake : (id : ℕ) (s : Input) → collect (wait_wake id s) ≡ collect s
unfolding collect wait_wake
collect-wait_wake id s = ground arith

woken :
    (n id : ℕ) (q : Option ReadResult) (s : Input) → try_read n q (wait_wake id s) ≡ try_read n q s
unfolding try_read
woken n id q s = rw (collect-wait_wake id s) refl

failing :
    (n : ℕ) (q : Option ReadResult) (s : Input)
    → (pending_read_error s).0 ≡ true
    → is_some (try_read (suc n) q s).0.1 ≡ true
unfolding pending_read_error try_read deliver copy_out end_read fetch
failing n q s h = ground arith

-- Asking whether an error is pending, and waking from a wait, take nothing from the reader: every
-- read answers and leaves what it would have without them. The answer `true` means that a read of
-- at least one byte answers with an error at once.
pub probe_lem :
    (n id : ℕ) (q : Option ReadResult) (s : Input)
    → (try_read n q (pending_read_error s).1 ≡ try_read n q s)
      × (try_read n q (wait_wake id s) ≡ try_read n q s)
      × ((pending_read_error s).0 ≡ true → is_some (try_read (suc n) q s).0.1 ≡ true)
unfolding pending_read_error
probe_lem n id q s = (collected n q s, woken n id q s, failing n q s)
