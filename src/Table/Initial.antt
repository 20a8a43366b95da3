-- ===== src/Table/Initial.antt =====
-- `makeFS` of internal/core/fs.go: the streams, and one directory for each mount in the order of
-- their guest paths. On Linux `openPreopen` ignores its flag and `hostMountRoot` returns the host
-- path. An error is reported without its text.
use wasi.Prelude.{
  ℕ, ◌+◌, ◌%◌, ◌^◌, Bool, true, false, Option, none, some, List, [], ◌∷◌, bit_or, ltb, leb, ◌==◌,
  length, if◌then◌else◌,
}
use wasi.Abi.Rights.{
  union, right_fd_read, right_fd_write, right_fd_filestat_get, right_poll_fd_read_write,
  right_path_open, right_path_filestat_set_size, right_path_filestat_set_times,
  right_fd_filestat_set_times, directory_read_rights, file_read_rights, file_write_rights,
  directory_mutation_rights,
}
use wasi.Host.{Bytes, Host, Stream, Io, done, failed, FileInfo}
use wasi.Config.{Config, Preopen}
use wasi.Table.{FdEntry, FsState}
use wasi.Table.Map.{insert}

-- An entry of a stream.
unfoldable pub stream_entry : Option Stream → Option Stream → ℕ → FdEntry
stream_entry reader writer rights = record {
  file = none;
  reader = reader;
  writer = writer;
  mount = [];
  root = [];
  preopen = [];
  flags = 0;
  rights = bit_or (bit_or right_fd_filestat_get right_poll_fd_read_write) rights;
  inheriting = 0;
  dir_iter = none;
  dir_cookie = 0;
  dir_issued = 0;
}

-- if test { rights |= granted }
abbrev pub granting : Bool → ℕ → ℕ
granting test granted = if test then granted else 0

unfoldable pub mount_rights : Preopen → ℕ
mount_rights m = union (
    granting m.read directory_read_rights
    ∷ granting m.write (
        union (
          right_path_open ∷ right_path_filestat_set_size ∷ right_path_filestat_set_times
          ∷ right_fd_filestat_set_times ∷ []))
    ∷ granting m.mutate_directory directory_mutation_rights
    ∷ [])

unfoldable pub mount_inherited : Preopen → ℕ
mount_inherited m = union (
    granting m.read (union (directory_read_rights ∷ file_read_rights ∷ []))
    ∷ granting m.write (
        union (
          file_write_rights ∷ right_path_open ∷ right_path_filestat_set_size
          ∷ right_path_filestat_set_times ∷ []))
    ∷ granting m.mutate_directory directory_mutation_rights
    ∷ [])

unfoldable pub directory_entry : Preopen → Bytes → ℕ → FdEntry
directory_entry m host file = record {
  file = some file;
  reader = none;
  writer = none;
  mount = host;
  root = host;
  preopen = m.guest_path;
  flags = 0;
  rights = mount_rights m;
  inheriting = mount_inherited m;
  dir_iter = none;
  dir_cookie = 0;
  dir_issued = 0;
}

-- Go's < on strings.
unfoldable pub bytes_lt : Bytes → Bytes → Bool
bytes_lt s [] = false
bytes_lt [] (d ∷ t) = true
bytes_lt (c ∷ s) (d ∷ t) = let rest = bytes_lt s t in if c == d then rest else ltb c d

unfoldable pub insert_mount : Preopen → List Preopen → List Preopen
insert_mount m [] = m ∷ []
insert_mount m (n ∷ ns) =
    let rest = n ∷ insert_mount m ns in
    if bytes_lt n.guest_path m.guest_path then rest else m ∷ n ∷ ns

-- sort.Slice by guest path.
unfoldable pub sort_mounts : List Preopen → List Preopen
sort_mounts [] = []
sort_mounts (m ∷ ms) = insert_mount m (sort_mounts ms)

-- maxFDs: at least the three streams.
unfoldable pub descriptor_limit : ℕ → ℕ
descriptor_limit max_open_files =
    let limit = if max_open_files == 0 then 1024 else max_open_files in
    if ltb limit 3 then 3 else limit

unfoldable pub with_streams : Config → FsState
unfolding insert
with_streams cfg = record {
  fds = insert 2 (stream_entry none cfg.stderr right_fd_write) (
      insert 1 (stream_entry none cfg.stdout right_fd_write)
        (insert 0 (stream_entry cfg.stdin none right_fd_read) []));
  next_fd = 3;
  max_fds = descriptor_limit cfg.max_open_files;
  cancelled = false;
  closed = false;
}

-- s.fds[fd] = ..., fd being s.nextFD++
unfoldable pub add_directory : FsState → FdEntry → FsState
add_directory s f = record s { fds = insert s.next_fd f s.fds; next_fd = (s.next_fd + 1) % 2 ^ 32 }

-- The path, the file and its directory of one mount, or `none` where the host refuses one. A file
-- that is no directory is closed again.
module _ {W : Type 0} (h : Host W) where
  unfoldable pub checked_directory : Bytes → ℕ → Io FileInfo → W → Option (Bytes × ℕ) × W
  checked_directory path file (failed error) w = let (_, w') = h.close file w in (none, w')
  checked_directory path file (done info) w =
      if info.mode.is_dir
      then (some (path, file), w)
      else let (_, w') = h.close file w in (none, w')

  unfoldable pub opened_directory : Bytes → Io ℕ → W → Option (Bytes × ℕ) × W
  opened_directory path (failed error) w = (none, w)
  opened_directory path (done file) w =
      let (info, w') = h.stat file w in checked_directory path file info w'

  unfoldable pub open_absolute : Io Bytes → W → Option (Bytes × ℕ) × W
  open_absolute (failed error) w = (none, w)
  open_absolute (done path) w = let (r, w') = h.open_preopen path w in opened_directory path r w'

  unfoldable pub open_mount : Preopen → W → Option (Bytes × ℕ) × W
  open_mount m w = let (r, w') = h.abs m.host_path w in open_absolute r w'

  -- closeFS(s): the files of the table; the streams have none.
  unfoldable pub close_option : Option ℕ → W → W
  close_option none w = w
  close_option (some file) w = (h.close file w).1

  unfoldable pub close_entries : List (ℕ × FdEntry) → W → W
  close_entries [] w = w
  close_entries ((fd, f) ∷ fds) w =
      close_entries fds (close_option f.file (close_option f.dir_iter w))

  -- The loop over the mounts. `none` is the error of the strict mode; otherwise a mount that cannot
  -- be opened is left out.
  unfoldable pub add_mounts : Bool → List Preopen → FsState → W → Option FsState × W
  add_mounts strict [] s w = (some s, w)
  add_mounts strict (m ∷ ms) s w =
      if leb s.max_fds (length s.fds)
      then (if strict then (none, close_entries s.fds w) else (some s, w))
      else let (found, w') = open_mount m w in
        elim found [
          | none ↦ if strict then (none, close_entries s.fds w') else add_mounts strict ms s w'
          | some (path, file) ↦
              add_mounts strict ms (add_directory s (directory_entry m path file)) w'
        ]

  unfoldable pub make_fs : Config → Bool → W → Option FsState × W
  make_fs cfg strict w = add_mounts strict (sort_mounts cfg.mounts) (with_streams cfg) w
