-- ===== src/Examples/Runs.antt =====
-- A guest of the example host: its table, and the call of `path_open` with which it opens "a" below
-- its mount for reading.
use wasi.Prelude.{ℕ, ◌≡◌, refl, true, none, some, [], ◌∷◌, from_option}
use wasi.Abi.Rights.{
  right_fd_read_dir, right_fd_write, right_fd_filestat_get, right_poll_fd_read_write,
  directory_read_rights, file_read_rights, union,
}
use wasi.Host.{custom}
use wasi.Table.{FdEntry, FsState, alloc, scan}
use wasi.Table.Map.{lookup, insert}
use wasi.Table.Initial
use wasi.Table.Initial.{make_fs, stream_entry}
use wasi.Exec
use wasi.Exec.{Machine, Result, ok, Params}
use wasi.Dispatch.{HandlerId, call}
use wasi.Fd.Entry
use wasi.Memory
use wasi.Paths
use wasi.Walk
use wasi.PathHandlers
use wasi.PathHandlers.Open
use wasi.PathHandlers.Open.{path_open}
use wasi.Examples.Setting.{plugin, read_only, small_host, memory_image, words}

abbrev pub no_entry : FdEntry
no_entry = record {
  file = none;
  reader = none;
  writer = none;
  mount = [];
  root = [];
  preopen = [];
  flags = 0;
  rights = 0;
  inheriting = 0;
  dir_iter = none;
  dir_cookie = 0;
  dir_issued = 0;
}

abbrev no_table : FsState
no_table = record { fds = []; next_fd = 0; max_fds = 0; cancelled = true; closed = true }

-- The table of a guest of the read-only configuration.
unfoldable pub guest_table : FsState
unfolding make_fs Initial.add_mounts Initial.sort_mounts Initial.insert_mount Initial.with_streams
    Initial.open_mount Initial.open_absolute Initial.opened_directory Initial.checked_directory
    Initial.add_directory Initial.directory_entry Initial.descriptor_limit insert stream_entry
    Initial.mount_rights Initial.mount_inherited Initial.bytes_lt
guest_table = from_option (make_fs small_host read_only true 100).0 no_table

pub guest_table-made : make_fs small_host read_only true 100 ≡ (some guest_table, 101)
unfolding make_fs Initial.add_mounts Initial.sort_mounts Initial.insert_mount Initial.with_streams
    Initial.open_mount Initial.open_absolute Initial.opened_directory Initial.checked_directory
    Initial.add_directory Initial.directory_entry Initial.descriptor_limit insert stream_entry
    Initial.mount_rights Initial.mount_inherited Initial.bytes_lt guest_table
guest_table-made = refl

-- Its entries of stdout and of the mount, and a descriptor that is not there.
abbrev pub out_entry : FdEntry
out_entry = record no_entry {
  writer = some (custom 1);
  rights = union (right_fd_filestat_get ∷ right_poll_fd_read_write ∷ right_fd_write ∷ []);
}

abbrev pub mount_entry : FdEntry
mount_entry = record no_entry {
  file = some 100;
  mount = 47 ∷ 104 ∷ [];
  root = 47 ∷ 104 ∷ [];
  preopen = 47 ∷ 103 ∷ [];
  rights = directory_read_rights;
  inheriting = union (directory_read_rights ∷ file_read_rights ∷ []);
}

pub guest_table-out : lookup 1 guest_table.fds ≡ some out_entry
unfolding make_fs Initial.add_mounts Initial.sort_mounts Initial.insert_mount Initial.with_streams
    Initial.open_mount Initial.open_absolute Initial.opened_directory Initial.checked_directory
    Initial.add_directory Initial.directory_entry Initial.descriptor_limit insert stream_entry
    Initial.mount_rights Initial.mount_inherited Initial.bytes_lt guest_table lookup
guest_table-out = refl

pub guest_table-mount : lookup 3 guest_table.fds ≡ some mount_entry
unfolding make_fs Initial.add_mounts Initial.sort_mounts Initial.insert_mount Initial.with_streams
    Initial.open_mount Initial.open_absolute Initial.opened_directory Initial.checked_directory
    Initial.add_directory Initial.directory_entry Initial.descriptor_limit insert stream_entry
    Initial.mount_rights Initial.mount_inherited Initial.bytes_lt guest_table lookup
guest_table-mount = refl

abbrev pub guest : Machine ℕ
guest = record { fs = guest_table; mem = memory_image; world = 101 }

-- fd 3, following links, "a", no oflags, the right to list it, none to pass on, result at 8.
abbrev pub open_request : Params
open_request = words (3 ∷ 1 ∷ 32 ∷ 1 ∷ 0 ∷ right_fd_read_dir ∷ 0 ∷ 0 ∷ 8 ∷ [])

abbrev pub no_rounds : ℕ
no_rounds = 0

-- The caller after the call.
unfoldable pub opened : Machine ℕ
opened = (call plugin no_rounds HandlerId.dispatch_path_open open_request guest).1

abbrev pub new_entry : FdEntry
new_entry = record {
  file = some 101;
  reader = none;
  writer = none;
  mount = 47 ∷ 104 ∷ [];
  root = 47 ∷ 104 ∷ [];
  preopen = [];
  flags = 0;
  rights = right_fd_read_dir;
  inheriting = 0;
  dir_iter = none;
  dir_cookie = 0;
  dir_issued = 0;
}

-- It has the descriptor 4.
pub opened-found : lookup 4 opened.fs.fds ≡ some new_entry
unfolding opened guest_table call path_open lookup Exec.◌>>=◌ Exec.◌>>◌ Exec.attempt Exec.on_option
    Exec.stop_if Exec.pure Exec.fail Exec.host Exec.lift Exec.gets Exec.check Exec.store
    Exec.on_error Exec.on_result PathHandlers.resolve_text PathHandlers.path_text
    PathHandlers.resolve PathHandlers.text_of Entry.entry Entry.require Entry.require_file
    Entry.stat Entry.host_io Entry.io_code Entry.memory Entry.alloc_entry Paths.bytes_eq
    Paths.path_escapes Paths.escapes_from Paths.moves_of Paths.move_of Paths.split
    Paths.extend_first Paths.trim_right_slash Paths.cons_trimmed Paths.ends_with_slash
    Memory.guest_bytes Memory.has_nul Memory.put_le32 Open.check_request Open.check_effects
    Open.open_resolved Open.open_file Open.check_kind Open.install Open.opened_entry Open.open_flags
    Open.access_mode Open.host_write Open.rights_for Walk.open_at Walk.on_io alloc scan insert
opened-found = refl

-- The call succeeded.
pub opened-ok : (call plugin no_rounds HandlerId.dispatch_path_open open_request guest).0 ≡ ok tt
unfolding guest_table call path_open lookup Exec.◌>>=◌ Exec.◌>>◌ Exec.attempt Exec.on_option
    Exec.stop_if Exec.pure Exec.fail Exec.host Exec.lift Exec.gets Exec.check Exec.store
    Exec.on_error Exec.on_result PathHandlers.resolve_text PathHandlers.path_text
    PathHandlers.resolve PathHandlers.text_of Entry.entry Entry.require Entry.require_file
    Entry.stat Entry.host_io Entry.io_code Entry.memory Entry.alloc_entry Paths.bytes_eq
    Paths.path_escapes Paths.escapes_from Paths.moves_of Paths.move_of Paths.split
    Paths.extend_first Paths.trim_right_slash Paths.cons_trimmed Paths.ends_with_slash
    Memory.guest_bytes Memory.has_nul Memory.put_le32 Open.check_request Open.check_effects
    Open.open_resolved Open.open_file Open.check_kind Open.install Open.opened_entry Open.open_flags
    Open.access_mode Open.host_write Open.rights_for Walk.open_at Walk.on_io alloc scan insert
opened-ok = refl
