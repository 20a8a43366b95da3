-- ===== src/Examples/Instances.antt =====
-- The theorems at concrete inputs: the guest of the example host (internal/core).
use wasi.Prelude.{
  ◌^◌, ◌-◌, subst, if◌then◌else◌, ◌≡◌, ◌≢◌, ◌↔◌, ◌⊎◌, refl, true, false, some, List, [], ◌∷◌, ◌++◌,
  arith,
}
use wasi.Abi.Errno.{wasi_ok, wasi_enotcapable, errno, eagain}
use wasi.Abi.Rights.{right_path_create_file}
use wasi.Table.{FsState, require_code, alloc, scan}
use wasi.Table.Map.{lookup, insert}
use wasi.Table.Alloc.{alloc_lem, Allocated}
use wasi.Abi.Codes.{errno-ok}
use wasi.Clock.{system_realtime}
use wasi.Clock.Laws.{Tells, system_realtime_exact}
use wasi.Host.{pos}
use wasi.Paths.{path_escapes, dot_dot, rename_leaf, ends_with_slash, slash}
use wasi.Text.Clean.{join}
use wasi.Host.{Bytes}
use wasi.Paths.Depth.{path_escapes_lem, StaysInside}
use wasi.Paths.Leaf.{rename_leaf_lem}
use wasi.Fd.Manage.{fd_close, fd_renumber}
use wasi.Exec.{Params}
use wasi.Abi.Rights.{right_fd_read_dir}
use wasi.Fd.Stat.{fd_fdstat_set_rights}
use wasi.Fd.Lowering.{Lowers, Lowered, fd_fdstat_set_rights_lem}
use wasi.Fd.Closing.{Closed, Moved, fd_close-Closed, fd_renumber-Moved}
use wasi.Table.Initial.{make_fs, descriptor_limit}
use wasi.Exec.{ok, err}
use wasi.Dispatch.{HandlerId}
use wasi.Sound.{Bounds, IsSound}
use wasi.Sound.Run.{Reach, Step, Reach-IsSound}
use wasi.Sound.Initial.{SoundTable, make_fs-SoundTable}
use wasi.Sound.ReadOnly.{ReadOnly-refused, read_authority, ReadOnly-Covers}
use wasi.Examples.Setting.{plugin, read_only, small_host, memory_image, words}
use wasi.Examples.Runs.{
  guest, guest_table, guest_table-made, open_request, no_rounds, opened, opened-found, new_entry,
  no_entry, out_entry, mount_entry, guest_table-out, guest_table-mount,
}

open_reached : Reach plugin no_rounds guest opened
unfolding opened
open_reached =
    Reach.next (Reach.start guest) (Step.called guest HandlerId.dispatch_path_open open_request)

-- The descriptor that `path_open` gave must not create files.
ReadOnly-refused_example : require_code new_entry right_path_create_file ≡ wasi_enotcapable
ReadOnly-refused_example =
    ReadOnly-refused plugin no_rounds read_only true 100 101 guest_table memory_image opened 4
      new_entry right_path_create_file ((refl, refl), tt) (omega arith) guest_table-made
      open_reached opened-found (λ e. absurd (cc)) refl (λ e. absurd (omega arith))

abbrev bounds : Bounds
bounds = record { authority = read_authority; max_fds = 8; memory_size = 64 }

-- What `make_fs` sets up for the example's configuration.
make_fs-SoundTable_example :
    SoundTable bounds memory_image (make_fs small_host read_only true 100).0
unfolding descriptor_limit
make_fs-SoundTable_example =
    make_fs-SoundTable read_only bounds memory_image (ReadOnly-Covers read_only ((refl, refl), tt))
      small_host true 100 refl (omega arith) refl

guest-IsSound : IsSound bounds guest.fs guest.mem
guest-IsSound =
    subst (λ r. SoundTable bounds memory_image r.0) guest_table-made make_fs-SoundTable_example

-- The caller after `path_open`.
Reach-IsSound_example : IsSound bounds opened.fs opened.mem
Reach-IsSound_example = Reach-IsSound plugin no_rounds guest opened open_reached guest-IsSound

-- A table whose counter is at the end of the 32-bit words, which is taken: it goes on at 0.
abbrev full_end : FsState
full_end = record guest_table {
  fds = (2 ^ 32 - 1, no_entry) ∷ [];
  next_fd = 2 ^ 32 - 1;
  max_fds = 8;
}

abbrev wrapped : FsState
wrapped = record full_end { fds = (2 ^ 32 - 1, no_entry) ∷ (0, out_entry) ∷ []; next_fd = 1 }

full_end-alloc : alloc full_end out_entry ≡ some (0, wrapped)
unfolding alloc scan lookup insert
full_end-alloc = refl

alloc_lem_example : Allocated full_end out_entry 0 wrapped
alloc_lem_example =
    alloc_lem full_end out_entry 0 wrapped (omega arith) (omega arith) full_end-alloc

fd_close-Closed_example :
    Closed 3 guest.fs guest.mem
      (fd_close plugin (words (3 ∷ [])) guest).1.fs
      (fd_close plugin (words (3 ∷ [])) guest).1.mem
fd_close-Closed_example =
    fd_close-Closed plugin (words (3 ∷ [])) guest mount_entry guest_table-mount

fd_renumber-Moved_example :
    ((fd_renumber plugin (words (3 ∷ 1 ∷ [])) guest).0 ≡ ok tt)
    × Moved 3 1 mount_entry guest (fd_renumber plugin (words (3 ∷ 1 ∷ [])) guest).1
fd_renumber-Moved_example =
    fd_renumber-Moved plugin (words (3 ∷ 1 ∷ [])) guest mount_entry out_entry guest_table-mount
      guest_table-out (λ e. absurd (omega arith)) (omega arith)

-- "a/../.."
abbrev climbing : List Bytes
climbing = (97 ∷ []) ∷ dot_dot ∷ dot_dot ∷ []

path_escapes_lem_example : (path_escapes (join climbing) ≡ false) ↔ StaysInside climbing
unfolding wasi.Paths.Split.has_slash
path_escapes_lem_example = path_escapes_lem climbing (refl, (refl, (refl, tt)))

-- "a/b//" with the leaf "b"
rename_leaf_lem_example :
    rename_leaf (97 ∷ 47 ∷ 98 ∷ 47 ∷ 47 ∷ []) (98 ∷ [])
    ≡ (if ends_with_slash (97 ∷ 47 ∷ 98 ∷ 47 ∷ 47 ∷ []) then (98 ∷ []) ++ slash else 98 ∷ [])
rename_leaf_lem_example = rename_leaf_lem (97 ∷ 47 ∷ 98 ∷ 47 ∷ 47 ∷ []) (98 ∷ [])

system_realtime_exact_example : Tells (pos 18446744074) 5 (system_realtime (pos 18446744074) 5)
system_realtime_exact_example = system_realtime_exact (pos 18446744074) 5 (omega arith)

errno-ok_example : errno (some (eagain ∷ [])) ≢ wasi_ok
errno-ok_example = errno-ok (eagain ∷ [])

-- The right to list the mount is kept, every other one is given up.
abbrev lowering : Params
lowering = words (3 ∷ right_fd_read_dir ∷ 0 ∷ [])

fd_fdstat_set_rights_lem_example :
    (((fd_fdstat_set_rights plugin lowering guest).0 ≡ ok tt)
      × Lowers lowering mount_entry
      × Lowered lowering mount_entry guest (fd_fdstat_set_rights plugin lowering guest).1)
    ⊎ ((fd_fdstat_set_rights plugin lowering guest ≡ (err wasi_enotcapable, guest))
        × (¬ (Lowers lowering mount_entry)))
fd_fdstat_set_rights_lem_example =
    fd_fdstat_set_rights_lem plugin lowering guest mount_entry guest_table-mount
