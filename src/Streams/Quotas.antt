-- ===== src/Streams/Quotas.antt =====
-- p2/io.go, the functions of `hostState` on streams: the quotas, and streams that failed.
use wasi.Prelude.{
  ◌≡◌, ℕ, ◌≤◌, ◌<◌, ◌^◌, ◌%◌, List, [], ◌∷◌, Bool, true, false, ◌||◌, Option, none, some, length,
  leb, arith, ◌==◌,
}
use wasi.Abi.Errno.{Error}
use wasi.Table.Map.{insert, delete, lookup-insert, lookup-delete, length-insert, length-delete-le}
use wasi.Streams.Permits.{
  HostState, closed, add_error, stream_failure, output_closed, output_failure, probe_write_permit,
  wait_writable, wait_stdin_readable, add_pollable, consume_write_permit,
}
use wasi.Streams.PermitRuns.{
  Event, probed, consumed, failed, waited, stdin_waited, subscribed, error_dropped,
  pollable_dropped, output_dropped, step, run,
}

insert-le :
    {V : Type 0} (k limit : ℕ) (v : V) (m : List (ℕ × V))
    → length m ≤ limit
    → limit < 2 ^ 32
    → leb limit (length m % 2 ^ 32) ≡ false
    → length (insert k v m) ≤ limit
insert-le k limit v m h w f = ground (arith, length-insert k v m)

delete-le :
    {V : Type 0} (k limit : ℕ) (m : List (ℕ × V)) → length m ≤ limit → length (delete k m) ≤ limit
delete-le k limit m h = omega (arith, length-delete-le k m)

module _ {P : Type 0} where
  -- Never more errors and pollables than the limits allow.
  pub record IsWithinQuota (s : HostState P) : Type 0 where
    pub few_errors : length s.errors ≤ s.limits.max_errors
    pub few_pollables : length s.pollables ≤ s.limits.max_pollables
    pub words : (s.limits.max_errors < 2 ^ 32) × (s.limits.max_pollables < 2 ^ 32)

  add_error-IsWithinQuota :
      (err : Error) (s : HostState P) → IsWithinQuota s → IsWithinQuota (add_error err s).1
  unfolding add_error
  add_error-IsWithinQuota err s h =
      ground (arith, insert-le s.next_error s.limits.max_errors err s.errors h.few_errors)

  stream_failure-IsWithinQuota :
      (err : Error) (s : HostState P) → IsWithinQuota s → IsWithinQuota (stream_failure err s).1
  unfolding stream_failure
  stream_failure-IsWithinQuota err s h = ground (arith, add_error-IsWithinQuota err s h)

  output_failure-IsWithinQuota :
      (rep : ℕ) (err : Error) (s : HostState P)
      → IsWithinQuota s
      → IsWithinQuota (output_failure rep err s).1
  unfolding output_failure
  output_failure-IsWithinQuota rep err s h =
      let marked : IsWithinQuota (record s { output_failed = insert rep true s.output_failed }) =
        record { few_errors = h.few_errors; few_pollables = h.few_pollables; words = h.words } in
      ground (
        arith,
        stream_failure-IsWithinQuota err
            (record s { output_failed = insert rep true s.output_failed }) marked,
      )

  step-IsWithinQuota : (e : Event P) (s : HostState P) → IsWithinQuota s → IsWithinQuota (step e s)
  unfolding step probe_write_permit consume_write_permit wait_writable wait_stdin_readable
      add_pollable
  step-IsWithinQuota (probed rep permit none) s h = ground arith
  step-IsWithinQuota (probed rep permit (some err)) s h = ground arith
  step-IsWithinQuota (consumed rep n) s h = ground arith
  step-IsWithinQuota (failed rep err) s h = output_failure-IsWithinQuota rep err s h
  step-IsWithinQuota (waited rep result canceled) s h = grind (arith, output_failure-IsWithinQuota)
  step-IsWithinQuota (stdin_waited result canceled) s h =
      grind (arith, stream_failure-IsWithinQuota)
  step-IsWithinQuota (subscribed v) s h =
      ground (arith, insert-le s.next_pollable s.limits.max_pollables v s.pollables h.few_pollables)
  step-IsWithinQuota (error_dropped rep) s h =
      ground (arith, delete-le rep s.limits.max_errors s.errors h.few_errors)
  step-IsWithinQuota (pollable_dropped rep) s h =
      ground (arith, delete-le rep s.limits.max_pollables s.pollables h.few_pollables)
  step-IsWithinQuota (output_dropped rep) s h = ground arith

  -- No run of calls takes more errors or pollables than the quotas, which are 32-bit words.
  pub run-IsWithinQuota :
      (es : List (Event P)) (s : HostState P) → IsWithinQuota s → IsWithinQuota (run es s)
  unfolding run
  run-IsWithinQuota [] s h = h
  run-IsWithinQuota (e ∷ es) s h = run-IsWithinQuota es (step e s) (step-IsWithinQuota e s h)

  output_failure-output_closed :
      (rep other : ℕ) (err : Error) (s : HostState P)
      → output_closed rep s ≡ true
      → output_closed rep (output_failure other err s).1 ≡ true
  unfolding output_failure output_closed stream_failure add_error
  output_failure-output_closed rep other err s h =
      ground (arith, lookup-insert other rep true s.output_failed)

  failed_at_first :
      (rep : ℕ) (err : Error) (s : HostState P)
      → output_closed rep (output_failure rep err s).1 ≡ true
  unfolding output_failure output_closed stream_failure add_error
  failed_at_first rep err s = ground (arith, lookup-insert rep rep true s.output_failed)

  -- The output handle `rep` is dropped in a step.
  abbrev pub drops : ℕ → Event P → Bool
  drops rep (output_dropped other) = other == rep
  drops rep _ = false

  abbrev pub drops_any : ℕ → List (Event P) → Bool
  drops_any rep [] = false
  drops_any rep (e ∷ es) = drops rep e || drops_any rep es

  stays_closed :
      (rep : ℕ) (e : Event P) (s : HostState P)
      → drops rep e ≡ false
      → output_closed rep s ≡ true
      → output_closed rep (step e s) ≡ true
  unfolding step output_closed probe_write_permit consume_write_permit wait_writable
      wait_stdin_readable add_pollable stream_failure add_error
  stays_closed rep (probed other permit none) s d h = ground arith
  stays_closed rep (probed other permit (some err)) s d h = ground arith
  stays_closed rep (consumed other n) s d h = ground arith
  stays_closed rep (failed other err) s d h = output_failure-output_closed rep other err s h
  stays_closed rep (waited other result canceled) s d h =
      grind (arith, output_failure-output_closed)
  stays_closed rep (stdin_waited result canceled) s d h = ground arith
  stays_closed rep (subscribed v) s d h = ground arith
  stays_closed rep (error_dropped other) s d h = h
  stays_closed rep (pollable_dropped other) s d h = h
  stays_closed rep (output_dropped other) s d h =
      ground (arith, lookup-delete other rep s.output_failed)

  run-stays_closed :
      (rep : ℕ) (es : List (Event P)) (s : HostState P)
      → drops_any rep es ≡ false
      → output_closed rep s ≡ true
      → output_closed rep (run es s) ≡ true
  unfolding run
  run-stays_closed rep [] s d h = h
  run-stays_closed rep (e ∷ es) s d h =
      run-stays_closed rep es (step e s) (ground arith) (stays_closed rep e s (ground arith) h)

  refuses :
      (rep : ℕ) (later : Error) (result canceled : Option Error) (t : HostState P)
      → output_closed rep t ≡ true
      → (output_failure rep later t ≡ (closed, t))
        × (wait_writable rep result canceled t ≡ (some closed, t))
  unfolding output_failure wait_writable
  refuses rep later result canceled t h = ground arith

  -- A stream that failed once is closed until its handle is dropped: whatever calls follow, another
  -- failure and a wait answer that it is closed, and change nothing.
  pub output_failure-closed :
      (rep : ℕ) (first later : Error) (result canceled : Option Error) (es : List (Event P))
      (s : HostState P)
      → drops_any rep es ≡ false
      → let t = run es (output_failure rep first s).1 in
        (output_failure rep later t ≡ (closed, t))
        × (wait_writable rep result canceled t ≡ (some closed, t))
  output_failure-closed rep first later result canceled es s d =
      let t = (output_failure rep first s).1 in
      refuses rep later result canceled (run es t)
        (run-stays_closed rep es t d (failed_at_first rep first s))
