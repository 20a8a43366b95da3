-- ===== src/Sound.antt =====
-- The invariant of a caller's table and memory that every handler keeps, with the rules for the
-- steps that handlers are made of.
pub mod Rules
pub mod Calls
pub mod FdRules
pub mod StatRules
pub mod WalkRules
pub mod TableRules
pub mod ProcessRules
pub mod PathRules
pub mod OpenRules
pub mod Initial
pub mod Run
pub mod ReadOnly
use wasi.Prelude.{ℕ, ◌^◌, ◌≤◌, ◌<◌, ◌≡◌, length, some}
use wasi.Prelude.Bits.{IsSubset}
use wasi.Host.{Bytes}
use wasi.Memory.{Mem}
use wasi.Table.{FdEntry, FsState}
use wasi.Table.Map.{lookup}

-- What a caller may have: rights for each host mount (streams have the empty one), descriptors, and
-- bytes of memory.
pub record Bounds : Type 0 where
  pub authority : Bytes → ℕ
  pub max_fds : ℕ
  pub memory_size : ℕ

-- An entry whose rights, also those for what is opened below it, lie within the authority of its
-- mount.
pub record IsConfined (authority : Bytes → ℕ) (f : FdEntry) : Type 0 where
  pub base : IsSubset f.rights (authority f.mount)
  pub inherited : IsSubset f.inheriting (authority f.mount)

pub record IsSound (b : Bounds) (fs : FsState) (mem : Mem) : Type 0 where
  pub confined : (fd : ℕ) (f : FdEntry) → lookup fd fs.fds ≡ some f → IsConfined b.authority f
  pub limit : fs.max_fds ≡ b.max_fds
  pub word_limit : b.max_fds < 2 ^ 32
  pub quota : length fs.fds ≤ b.max_fds
  pub next_word : fs.next_fd < 2 ^ 32
  pub size : length mem ≡ b.memory_size
