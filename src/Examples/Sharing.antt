-- ===== src/Examples/Sharing.antt =====
-- Two instances of the example host's plugin (internal/core/fs.go, `stateFor`): the first takes the
-- initial state, the second gets its own; one call of the first comes again, and a third ends.
use wasi.Prelude.{ℕ, true, ◌≡◌, ◌≢◌, refl, List, [], ◌∷◌, some, arith}
use wasi.Host.{done}
use wasi.Table.Map
use wasi.Table.Map.{lookup, insert}
use wasi.Callers
use wasi.Callers.{Event, calls, ends, react_all, initial_guard}
use wasi.Callers.Ownership.{states-apart, react_all-Owned, initial-Owned}
use wasi.Imports.{Binding, cap_fd_write, callback}
use wasi.Imports.Isolation.{callback-spares}
use wasi.Dispatch.{HandlerId}
use wasi.Table.Initial
use wasi.Table.Initial.{make_fs, stream_entry}
use wasi.Examples.Setting.{small_host, read_only, plugin, words}
use wasi.Examples.Runs.{guest_table}

abbrev events : List Event
events =
    calls (some (done 7))
    ∷ calls (some (done 8))
    ∷ calls (some (done 7))
    ∷ calls (some (done 9))
    ∷ ends 9
    ∷ []

first :
    lookup 7 (react_all small_host read_only events (initial_guard guest_table) 101).0.states
    ≡ some 0
unfolding lookup insert Map.delete react_all Callers.react initial_guard Callers.state_for
    Callers.state_with Callers.resolve_state Callers.state_of Callers.claim Callers.own
    Callers.own_made Callers.usable Callers.close_instance Callers.close_fs guest_table make_fs
    Initial.close_entries Initial.close_option Initial.add_mounts Initial.sort_mounts
    Initial.insert_mount Initial.with_streams Initial.open_mount Initial.open_absolute
    Initial.opened_directory Initial.checked_directory Initial.add_directory Initial.directory_entry
    Initial.descriptor_limit stream_entry Initial.mount_rights Initial.mount_inherited
    Initial.bytes_lt
first = refl

second :
    lookup 8 (react_all small_host read_only events (initial_guard guest_table) 101).0.states
    ≡ some 1
unfolding lookup insert Map.delete react_all Callers.react initial_guard Callers.state_for
    Callers.state_with Callers.resolve_state Callers.state_of Callers.claim Callers.own
    Callers.own_made Callers.usable Callers.close_instance Callers.close_fs guest_table make_fs
    Initial.close_entries Initial.close_option Initial.add_mounts Initial.sort_mounts
    Initial.insert_mount Initial.with_streams Initial.open_mount Initial.open_absolute
    Initial.opened_directory Initial.checked_directory Initial.add_directory Initial.directory_entry
    Initial.descriptor_limit stream_entry Initial.mount_rights Initial.mount_inherited
    Initial.bytes_lt
second = refl

states-apart_example : ◌≢◌ {A = ℕ} 0 1
states-apart_example =
    states-apart small_host read_only guest_table events 101 7 8 0 1 (λ e. absurd (omega arith))
      first second

abbrev fd_write_binding : Binding
fd_write_binding = record {
  name = "fd_write";
  handler = HandlerId.dispatch_fd_write;
  signature = 0;
  errno = true;
  cap = cap_fd_write;
}

abbrev shared : Callers.Guard
shared = (react_all small_host read_only events (initial_guard guest_table) 101).0

-- Instance 7 writes to a descriptor while 8 has the state at 1.
callback-spares_example :
    (lookup 8
        (callback plugin 0 fd_write_binding (some (done 7)) (words (3 ∷ [])) [] shared 105).2.states
      ≡ some 1)
    × (lookup 1
          (callback plugin 0 fd_write_binding (some (done 7)) (words (3 ∷ [])) [] shared 105).2.heap
        ≡ lookup 1 shared.heap)
callback-spares_example =
    callback-spares plugin 0 8 1 shared fd_write_binding 7 (words (3 ∷ [])) [] 105
      (react_all-Owned small_host read_only events (initial_guard guest_table) 101
        (initial-Owned small_host read_only guest_table))
      (omega arith) second
