-- ===== src/Examples/Polling.antt =====
-- A poll of the example host's plugin for a clock whose time has run down (internal/core/poll.go).
use wasi.Prelude.{◌≡◌, refl, ℕ, ◌≤◌, [], ◌∷◌, ◌++◌, true, none, some, length, replicate}
use wasi.Memory.{Mem, le32}
use wasi.Memory
use wasi.Clock
use wasi.Exec.{Machine, Params, ok, u32}
use wasi.Exec
use wasi.Fd.Entry
use wasi.Poll
use wasi.Poll.{PollSubscription}
use wasi.Poll.Oneoff
use wasi.Poll.Oneoff.{Round, poll_until, poll_oneoff}
use wasi.Poll.Counts.{poll_oneoff-counts}
use wasi.Poll.AtOnce.{Returns, poll_until-Returns}
use wasi.Examples.Setting.{plugin, words}
use wasi.Examples.Runs.{guest}

-- Clock 1, no timeout, at 0; the events go to 48, their count to 80.
abbrev poll_guest : Machine ℕ
poll_guest = record guest { mem = replicate 16 0 ++ (1 ∷ replicate 67 0) }

abbrev poll_request : Params
poll_request = words (0 ∷ 48 ∷ 1 ∷ 80 ∷ [])

polled : (poll_oneoff plugin 0 poll_request poll_guest).0 ≡ ok tt
unfolding poll_oneoff Oneoff.poll_ranges Oneoff.poll_until Oneoff.poll_loop Oneoff.report
    Oneoff.write_events Oneoff.write_event Poll.parse_loop Poll.parse_subscription
    Poll.clock_subscription Poll.check_clock Poll.ready_subscriptions Poll.check_subscription
    Exec.pure Exec.host Exec.gets Exec.stop_if Exec.store Exec.on_option Exec.fail Entry.memory
    Entry.copy_to Memory.overlay Memory.put_le32 Clock.clock_value Exec.◌>>=◌ Exec.◌>>◌
polled = refl

poll_oneoff-counts_example :
    (count : ℕ) × (le32 (poll_oneoff plugin 0 poll_request poll_guest).1.mem 80 ≡ some count)
    × (1 ≤ count)
    × (count ≤ 1)
poll_oneoff-counts_example = poll_oneoff-counts plugin 0 poll_request poll_guest polled

abbrev expired : PollSubscription
expired = record { userdata = 5; typ = 0; entry = none; due = 0; clock = true; code = 0 }

poll_until-Returns_example :
    Returns (λ round. 1 ≤ length round.ready) (poll_until plugin 0 (expired ∷ []) (some 0))
poll_until-Returns_example = poll_until-Returns plugin 0 (expired ∷ []) (some 0) refl
