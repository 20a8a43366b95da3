-- ===== src/Streams/Probe.antt =====
-- p2/io.go, `pollSafeOutput`: the wrapper of a host's own output stream. The stream is a parameter,
-- a record of calls on a world that only it knows; nothing is assumed of what a call returns.
use wasi.Prelude.{
  ◌≡◌, ℕ, Bool, true, false, not, ◌||◌, Option, none, some, is_some, arith, ◌==◌, if◌then◌else◌,
}
use wasi.Abi.Errno.{Error}
use wasi.Host.{Bytes}

-- The interface OutputStream; the waiting of a call is part of it.
pub record OutputStream (W : Type 0) : Type 0 where
  pub check_write : W → ℕ × Option Error × W
  pub try_write : Bytes → W → Option Error × W
  pub begin_flush : W → Option Error × W
  pub wait_writable : W → Option Error × W

pub record Safe : Type 0 where
  pub permit : ℕ
  pub pending : Option Error

abbrev pub fresh : Safe
fresh = record { permit = 0; pending = none }

unfoldable pub take_pending : Safe → (ℕ × Option Error) × Safe
take_pending s = ((s.permit, s.pending), fresh)

module _ {W : Type 0} (stream : OutputStream W) where
  unfoldable pub check_write : Safe → W → (ℕ × Option Error) × Safe × W
  unfolding take_pending
  check_write s w =
      let ((permit, pending), t) = take_pending s in
      elim pending [
        | some e ↦ ((0, some e), t, w)
        | none ↦
            if not (permit == 0)
            then ((permit, none), t, w)
            else let (n, e, v) = stream.check_write w in ((n, e), t, v)
      ]

  -- What TryWrite and BeginFlush share: a pending error comes first, a pending permit is dropped.
  unfoldable pub after_pending : (W → Option Error × W) → Safe → W → Option Error × Safe × W
  unfolding take_pending
  after_pending call s w =
      let ((permit, pending), t) = take_pending s in
      elim pending [ some e ↦ (some e, t, w) | none ↦ let (e, v) = call w in (e, t, v) ]

  unfoldable pub try_write : Bytes → Safe → W → Option Error × Safe × W
  unfolding after_pending
  try_write p s w = after_pending (stream.try_write p) s w

  unfoldable pub begin_flush : Safe → W → Option Error × Safe × W
  unfolding after_pending
  begin_flush s w = after_pending stream.begin_flush s w

  unfoldable pub wait_writable : Safe → W → Option Error × Safe × W
  wait_writable s w = elim s.pending [
    | some e ↦ (some e, record s { pending = none }, w)
    | none ↦
        if not (s.permit == 0)
        then (none, s, w)
        else let (e, v) = stream.wait_writable w in (e, s, v)
  ]

  abbrev is_ready : Safe → Bool
  is_ready s = is_some s.pending || not (s.permit == 0)

  -- The branch of pollReady that asks the stream.
  abbrev pub asked : ℕ → Option Error → Safe
  asked n (some e) = record { permit = 0; pending = some e }
  asked n none = record { permit = n; pending = none }

  unfoldable pub poll_ready : Safe → W → Bool × Safe × W
  poll_ready s w =
      if is_ready s
      then (true, s, w)
      else let (n, e, v) = stream.check_write w in (is_some e || not (n == 0), asked n e, v)

  -- pollWait after its wait, which may have run beside other calls; `canceled` is ctx.Err().
  unfoldable pub poll_waited : Option Error → Option Error → Safe → Option Error × Safe
  poll_waited none canceled s = (none, s)
  poll_waited (some e) (some c) s = (some e, s)
  poll_waited (some e) none s =
      (none, record s { pending = if is_some s.pending then s.pending else some e })

  unfoldable pub poll_wait : Option Error → Safe → W → Option Error × Safe × W
  unfolding poll_waited
  poll_wait canceled s w =
      if is_ready s
      then (none, s, w)
      else let (e, v) = stream.wait_writable w in let (a, t) = poll_waited e canceled s in (a, t, v)

  -- A probe of a fresh wrapper asks the stream once. Where it answers `true`, the next CheckWrite
  -- gives what the stream answered, with no call of the stream, and leaves the wrapper fresh;
  -- another probe in between changes nothing. Where it answers `false`, nothing is pending.
  pub poll_ready_lem :
      (w : W)
      → let (n, e, v) = stream.check_write w in
        let (ready, s, u) = poll_ready fresh w in
        (u ≡ v)
        × (ready ≡ true → check_write s u ≡ ((if is_some e then 0 else n, e), fresh, v))
        × (ready ≡ true → poll_ready s u ≡ (true, s, u))
        × (ready ≡ false → (s ≡ fresh) × (n ≡ 0) × (e ≡ none))
  unfolding poll_ready check_write
  poll_ready_lem w = ground arith

  -- The error of a probe reaches the next call, whichever it is, and that call does not reach the
  -- stream.
  pub poll_ready-failed :
      (w : W) (e : Error) (p : Bytes)
      → (stream.check_write w).1 ≡ some e
      → let (ready, s, u) = poll_ready fresh w in
        (ready ≡ true)
        × (check_write s u ≡ ((0, some e), fresh, u))
        × (try_write p s u ≡ (some e, fresh, u))
        × (begin_flush s u ≡ (some e, fresh, u))
        × (wait_writable s u ≡ (some e, fresh, u))
  unfolding poll_ready check_write try_write begin_flush after_pending wait_writable
  poll_ready-failed w e p h = ground arith
