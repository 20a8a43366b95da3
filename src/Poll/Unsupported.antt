-- ===== src/Poll/Unsupported.antt =====
-- internal/core/poll.go: streams whose type cannot tell whether they are ready.
use wasi.Prelude.{◌≡◌, refl, ap, ℕ, suc, [], ◌∷◌, false, none, some}
use mathlib.Core.Bool.{decide}
use wasi.Abi.Errno.{is, poll_unsupported, wasi_enotsup}
use wasi.Host.{custom}
use wasi.Table.{FdEntry}
use wasi.Exec.{Plugin, Machine, ok, err, pure, host, on_option, fail, ◌>>=◌, ◌>>◌}
use wasi.Poll.{
  PollSubscription, ready_subscriptions, check_subscription, renew_code, stream_file_error,
  object_error, stream_ready, object_ready, stream_object,
}
use wasi.Poll.Wait
use wasi.Poll.Wait.{waiters, wait_code}
use wasi.Poll.Oneoff
use wasi.Poll.Oneoff.{wait_round, poll_until}

code_of_unsupported : wait_code (poll_unsupported ∷ []) ≡ wasi_enotsup
unfolding wait_code is decide
code_of_unsupported = refl

-- A subscription for writing to a writer that is no file.
abbrev pub writing_to : FdEntry → ℕ → PollSubscription
writing_to f n = record {
  userdata = 0;
  typ = 2;
  entry = some (record f { file = none; writer = some (custom n) });
  due = 0;
  clock = false;
  code = 0;
}

module _ {W : Type 0} (e : Plugin W) (n : ℕ) (f : FdEntry) where
  no_waiters :
      e.host.poll.is_pollable n ≡ false
      → e.host.poll.has_bytes n ≡ false
      → waiters e (writing_to f n ∷ []) ≡ none
  unfolding waiters Wait.waiter Wait.object_waiter stream_object
  no_waiters dumb closed_ = rw dumb (rw closed_ refl)

  not_ready :
      (s : Machine W)
      → e.host.poll.is_pollable n ≡ false
      → e.host.poll.has_bytes n ≡ false
      → ready_subscriptions e 0 (writing_to f n ∷ []) 0 s ≡ (ok (writing_to f n ∷ [], []), s)
  unfolding ready_subscriptions check_subscription renew_code stream_file_error object_error
      stream_ready object_ready stream_object pure host on_option ◌>>=◌
  not_ready s dumb closed_ = rw dumb (rw closed_ refl)

  round_fails :
      (s : Machine W) (now : ℕ)
      → waiters e (writing_to f n ∷ []) ≡ none
      → wait_round e none
          (record { subs = writing_to f n ∷ []; ready = []; elapsed = 0; measured_at = now })
          s
        ≡ (err (wait_code (poll_unsupported ∷ [])), s)
  unfolding wait_round Wait.wait_subscriptions pure on_option fail ◌>>=◌ ◌>>◌
  round_fails s now nobody = rw nobody refl

  -- A poll without a deadline for a writer that is no file, is no Pollable and has no Bytes ends
  -- with ENOTSUP, from every state and with any number of rounds but none.
  pub poll_until-unsupported :
      (rounds : ℕ) (s : Machine W)
      → e.host.poll.is_pollable n ≡ false
      → e.host.poll.has_bytes n ≡ false
      → (poll_until e (suc rounds) (writing_to f n ∷ []) none s).0 ≡ err wasi_enotsup
  unfolding poll_until Oneoff.poll_loop host ◌>>=◌
  poll_until-unsupported rounds s dumb closed_ =
      let t = (host e.host.poll.now s).1 in
      rw (not_ready t dumb closed_) (
        rw (round_fails t (e.host.poll.now s.world).0 (no_waiters dumb closed_))
          (ap err code_of_unsupported))
