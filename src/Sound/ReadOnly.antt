-- ===== src/Sound/ReadOnly.antt =====
-- What a configuration without writable mounts means for a guest, from `makeFS` on to what `require`
-- says of its descriptors (internal/core/fs.go).
use wasi.Prelude.{
  ℕ, ◌^◌, ◌<◌, ◌≡◌, ◌≢◌, refl, sym, ap, subst, ◌∙◌, Bool, true, false, Option, some, List, [], ◌∷◌,
  All, length, bit_and, bit_or, if◌then◌else◌, arith,
}
use wasi.Prelude.Bits.{IsSubset, bit_and_comm, bit_and_assoc, bit_and_zero_left}
use wasi.Abi.Errno.{wasi_enotcapable}
use wasi.Abi.Rights.{
  directory_read_rights, file_read_rights, right_fd_read, right_fd_write, right_fd_filestat_get,
  union,
}
use wasi.Host.{Bytes, Stream}
use wasi.Config.{Config, Preopen}
use wasi.Paths.{bytes_eq}
use wasi.Table.{FdEntry, FsState, require_code}
use wasi.Table.Map.{lookup}
use wasi.Table.Initial.{
  stream_entry, directory_entry, mount_rights, mount_inherited, descriptor_limit, make_fs,
}
use wasi.Exec.{Plugin, Machine}
use wasi.Memory.{Mem}
use wasi.Sound.{Bounds, IsSound, IsConfined}
use wasi.Sound.Initial.{Covers, SoundTable, make_fs-SoundTable}
use wasi.Sound.Run.{Reach, Reach-IsSound}

-- No mount may be written or changed.
abbrev pub ReadOnly : Config → Type 0
ReadOnly cfg = All (λ (m : Preopen). (m.write ≡ false) × (m.mutate_directory ≡ false)) cfg.mounts

abbrev pub read_rights : ℕ
read_rights = bit_or directory_read_rights file_read_rights

-- The streams, which have the empty mount, may also be written.
abbrev pub read_authority : Bytes → ℕ
read_authority path =
    if bytes_eq path []
    then union (read_rights ∷ right_fd_write ∷ right_fd_filestat_get ∷ [])
    else read_rights

-- What a mount grants that may only be read, against the authority of the streams and of a mount.
read_grant :
    (read streams : Bool)
    → IsSubset (union ((if read then directory_read_rights else 0) ∷ 0 ∷ 0 ∷ [])) (
        if streams
        then union (read_rights ∷ right_fd_write ∷ right_fd_filestat_get ∷ [])
        else read_rights)
      × IsSubset (union ((if read then read_rights else 0) ∷ 0 ∷ 0 ∷ [])) (
          if streams
          then union (read_rights ∷ right_fd_write ∷ right_fd_filestat_get ∷ [])
          else read_rights)
read_grant true true = (refl, refl)
read_grant true false = (refl, refl)
read_grant false true = (refl, refl)
read_grant false false = (refl, refl)

directory-IsConfined :
    (m : Preopen) (path : Bytes) (file : ℕ)
    → (m.write ≡ false) × (m.mutate_directory ≡ false)
    → IsConfined read_authority (directory_entry m path file)
unfolding directory_entry mount_rights mount_inherited
directory-IsConfined m path file (w, d) = record {
  base = rw (w, d) (read_grant m.read (bytes_eq path [])).0;
  inherited = rw (w, d) (read_grant m.read (bytes_eq path [])).1;
}

streams-IsConfined :
    (reader writer : Option Stream)
    → IsConfined read_authority (stream_entry reader writer right_fd_read)
      × IsConfined read_authority (stream_entry reader writer right_fd_write)
unfolding stream_entry bytes_eq
streams-IsConfined reader writer =
    (record { base = refl; inherited = refl }, record { base = refl; inherited = refl })

-- A right outside a word that bounds the rights is refused.
require-refused :
    (f : FdEntry) (bound right : ℕ)
    → IsSubset f.rights bound
    → bit_and bound right ≡ 0
    → right ≢ 0
    → require_code f right ≡ wasi_enotcapable
require-refused f bound right within apart some_right =
    let nothing : bit_and f.rights right ≡ 0 =
      ap (λ x. bit_and x right) (sym within)
      ∙ bit_and_assoc f.rights bound right
      ∙ ap (λ x. bit_and f.rights x) apart
      ∙ bit_and_comm f.rights 0
      ∙ bit_and_zero_left f.rights in
    ground (arith, nothing)

mounts-IsConfined :
    (ms : List Preopen)
    → All (λ (m : Preopen). (m.write ≡ false) × (m.mutate_directory ≡ false)) ms
    → All
        (λ m. (path : Bytes) (file : ℕ) → IsConfined read_authority (directory_entry m path file))
        ms
mounts-IsConfined [] plain = tt
mounts-IsConfined (m ∷ ms) (plain, rest) =
    ((λ path file. directory-IsConfined m path file plain), mounts-IsConfined ms rest)

-- Below a mount only the reading rights are there.
mount_authority : (path : Bytes) → path ≢ [] → read_authority path ≡ read_rights
unfolding bytes_eq
mount_authority [] given = absurd (given refl)
mount_authority (c ∷ path) given = refl

pub ReadOnly-Covers : (cfg : Config) → ReadOnly cfg → Covers read_authority cfg
ReadOnly-Covers cfg plain = record {
  streams = streams-IsConfined;
  mounts = mounts-IsConfined cfg.mounts plain;
}

module _ {W : Type 0} (e : Plugin W) (rounds : ℕ) where
  -- Under a configuration that lets no mount be written or changed, from the table that `make_fs`
  -- sets up and through any reachable state of the caller, `require` refuses every descriptor below
  -- a mount every right that is not one of the reading rights.
  pub ReadOnly-refused :
      (cfg : Config) (strict : Bool) (w w' : W) (fs : FsState) (mem : Mem) (s : Machine W) (fd : ℕ)
      (f : FdEntry) (right : ℕ)
      → ReadOnly cfg
      → cfg.max_open_files < 2 ^ 32
      → make_fs e.host cfg strict w ≡ (some fs, w')
      → Reach e rounds (record { fs = fs; mem = mem; world = w' }) s
      → lookup fd s.fs.fds ≡ some f
      → f.mount ≢ []
      → bit_and read_rights right ≡ 0
      → right ≢ 0
      → require_code f right ≡ wasi_enotcapable
  ReadOnly-refused cfg strict w w' fs mem s fd f right plain word made reach found below apart
        some_right =
      let b : Bounds = record {
        authority = read_authority;
        max_fds = descriptor_limit cfg.max_open_files;
        memory_size = length mem;
      } in
      let initial : IsSound b fs mem =
        subst (SoundTable b mem) (ap (λ r. r.0) made) (
          make_fs-SoundTable cfg b mem (ReadOnly-Covers cfg plain) e.host strict w refl word
            refl) in
      let within = ((Reach-IsSound e rounds _ s reach initial).confined fd f found).base in
      require-refused f read_rights right
        (subst (IsSubset f.rights) (mount_authority f.mount below) within) apart some_right
