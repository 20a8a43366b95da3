-- ===== src/Sound/Initial.antt =====
-- The table that `makeFS` of internal/core/fs.go sets up satisfies the invariant, for every
-- authority that covers what the configuration grants.
use wasi.Prelude.{
  ℕ, ◌^◌, ◌<◌, ◌≡◌, sym, Bool, true, false, Bool-cases, Option-cases, Option, none, some, List, [],
  ◌∷◌, length, leb, ◌==◌, inl, inr, arith, subst,
}
use mathlib.Core.Option.{some-injective as some_injective}
use wasi.Prelude.{All}
use wasi.Host.{Bytes, Host, Stream}
use wasi.Memory.{Mem}
use wasi.Config.{Config, Preopen}
use wasi.Abi.Rights.{right_fd_read, right_fd_write}
use wasi.Table.{FdEntry, FsState}
use wasi.Table.Map.{lookup, insert, length-insert}
use wasi.Table.Initial.{
  stream_entry, directory_entry, insert_mount, sort_mounts, descriptor_limit, with_streams,
  add_directory, open_mount, add_mounts, make_fs, bytes_lt,
}
use wasi.Sound.{Bounds, IsSound, IsConfined}
use wasi.Sound.Rules.{insert_cases}

-- What the configuration grants lies within the authority: that of the streams, and that of each
-- mount at whatever path it has.
pub record Covers (authority : Bytes → ℕ) (cfg : Config) : Type 0 where
  pub streams :
      (reader writer : Option Stream)
      → IsConfined authority (stream_entry reader writer right_fd_read)
        × IsConfined authority (stream_entry reader writer right_fd_write)
  pub mounts :
      All
        (λ m. (path : Bytes) (file : ℕ) → IsConfined authority (directory_entry m path file))
        cfg.mounts

module _ {b : Bounds} {mem : Mem} where
  -- One more entry, where the quota has room.
  insert-IsSound :
      (s : FsState) (fd next : ℕ) (f : FdEntry)
      → IsSound b s mem
      → IsConfined b.authority f
      → length s.fds < s.max_fds
      → next < 2 ^ 32
      → IsSound b (record s { fds = insert fd f s.fds; next_fd = next }) mem
  insert-IsSound s fd next f h c room word = record {
    confined = λ j g found. elim (insert_cases fd j f s.fds found) [
      | inl same ↦ subst (IsConfined b.authority) same c
      | inr before ↦ h.confined j g before
    ];
    limit = h.limit;
    word_limit = h.word_limit;
    quota = ground (arith, length-insert fd f s.fds, h.limit);
    next_word = word;
    size = h.size;
  }

  add_directory-IsSound :
      (s : FsState) (f : FdEntry)
      → IsSound b s mem
      → IsConfined b.authority f
      → length s.fds < s.max_fds
      → IsSound b (add_directory s f) mem
  unfolding add_directory
  add_directory-IsSound s f h c room = insert-IsSound s s.next_fd _ f h c room (omega arith)

insert_mount-All :
    (P : Preopen → Type 0) (m : Preopen) (ms : List Preopen)
    → P m
    → All P ms
    → All P (insert_mount m ms)
unfolding insert_mount
insert_mount-All P m [] pm pms = (pm, tt)
insert_mount-All P m (n ∷ ns) pm (pn, pns) =
    elim (Bool-cases (bytes_lt n.guest_path m.guest_path)) [
      | inl before ↦ rw before (pn, insert_mount-All P m ns pm pns)
      | inr behind ↦ rw behind (pm, (pn, pns))
    ]

sort_mounts-All : (P : Preopen → Type 0) (ms : List Preopen) → All P ms → All P (sort_mounts ms)
unfolding sort_mounts
sort_mounts-All P [] pms = tt
sort_mounts-All P (m ∷ ms) (pm, pms) = insert_mount-All P m _ pm (sort_mounts-All P ms pms)

-- A table that was set up is sound.
abbrev pub SoundTable : Bounds → Mem → Option FsState → Type 0
SoundTable b mem none = Unit
SoundTable b mem (some s) = IsSound b s mem

module _ {W : Type 0} (host : Host W) {b : Bounds} {mem : Mem} where
  add_mounts-SoundTable :
      (strict : Bool) (ms : List Preopen) (s : FsState) (w : W)
      → All
          (λ m. (path : Bytes) (file : ℕ) → IsConfined b.authority (directory_entry m path file))
          ms
      → IsSound b s mem
      → SoundTable b mem (add_mounts host strict ms s w).0
  unfolding add_mounts
  add_mounts-SoundTable strict [] s w granted h = h
  add_mounts-SoundTable true (m ∷ ms) s w (grant, granted) h =
      elim (Bool-cases (leb s.max_fds (length s.fds))) [
        | inl full ↦ rw full tt
        | inr room ↦ rw room (elim (Option-cases (open_mount host m w).0) [
          | inl refused ↦ rw refused tt
          | inr ((path, file), opened) ↦ rw opened (
              add_mounts-SoundTable true ms _ (open_mount host m w).1 granted (
                add_directory-IsSound s (directory_entry m path file) h (grant path file)
                  (ground arith)))
        ])
      ]
  add_mounts-SoundTable false (m ∷ ms) s w (grant, granted) h =
      elim (Bool-cases (leb s.max_fds (length s.fds))) [
        | inl full ↦ rw full h
        | inr room ↦ rw room (elim (Option-cases (open_mount host m w).0) [
          | inl refused ↦
              rw refused (add_mounts-SoundTable false ms s (open_mount host m w).1 granted h)
          | inr ((path, file), opened) ↦ rw opened (
              add_mounts-SoundTable false ms _ (open_mount host m w).1 granted (
                add_directory-IsSound s (directory_entry m path file) h (grant path file)
                  (ground arith)))
        ])
      ]

lookup-All :
    (P : FdEntry → Type 0) (fds : List (ℕ × FdEntry)) (fd : ℕ) (f : FdEntry)
    → All (λ x. P x.1) fds
    → lookup fd fds ≡ some f
    → P f
unfolding lookup
lookup-All P [] fd f pfds found = absurd (cc)
lookup-All P ((j, g) ∷ fds) fd f (pg, pfds) found = elim (Bool-cases (j == fd)) [
  | inl same ↦ subst P (some_injective g f (rw same at found)) pg
  | inr other ↦ lookup-All P fds fd f pfds (rw other at found)
]

module _ (cfg : Config) (b : Bounds) (mem : Mem) (covers : Covers b.authority cfg) where
  with_streams-IsSound :
      b.max_fds ≡ descriptor_limit cfg.max_open_files
      → cfg.max_open_files < 2 ^ 32
      → b.memory_size ≡ length mem
      → IsSound b (with_streams cfg) mem
  unfolding with_streams descriptor_limit insert
  with_streams-IsSound limit word size = record {
    confined = λ fd f. lookup-All (IsConfined b.authority) (with_streams cfg).fds fd f (
      (covers.streams cfg.stdin none).0,
      ((covers.streams none cfg.stdout).1, ((covers.streams none cfg.stderr).1, tt)),
    );
    limit = sym limit;
    word_limit = ground arith;
    quota = ground arith;
    next_word = omega arith;
    size = sym size;
  }

  -- A table that `make_fs` sets up for a guest, with any memory, is sound for every authority that
  -- covers what the configuration grants, and within the limit of the configuration.
  pub make_fs-SoundTable :
      {W : Type 0} (host : Host W) (strict : Bool) (w : W)
      → b.max_fds ≡ descriptor_limit cfg.max_open_files
      → cfg.max_open_files < 2 ^ 32
      → b.memory_size ≡ length mem
      → SoundTable b mem (make_fs host cfg strict w).0
  unfolding make_fs
  make_fs-SoundTable host strict w limit word size =
      add_mounts-SoundTable host strict (sort_mounts cfg.mounts) (with_streams cfg) w
        (sort_mounts-All _ cfg.mounts covers.mounts) (with_streams-IsSound limit word size)
