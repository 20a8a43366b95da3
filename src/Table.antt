-- ===== src/Table.antt =====
-- The descriptor table of a guest: `fsState` and `fdEntry` of internal/core/fs.go. An entry lies in
-- one slot of one table, so the pointer to it is the slot, and a write through the pointer is a
-- write to the slot.
pub mod Map
pub mod Alloc
pub mod Initial
use wasi.Prelude.{
  ℕ, zero, suc, ◌+◌, ◌%◌, ◌^◌, List, Option, none, some, Bool, length, leb, bit_and, ◌==◌,
  if◌then◌else◌,
}
use wasi.Abi.Errno.{wasi_ok, wasi_emfile, wasi_enotcapable}
use wasi.Host.{Bytes, Stream}
use Map.{lookup, insert}

pub record FdEntry : Type 0 where
  pub file : Option ℕ
  pub reader : Option Stream
  pub writer : Option Stream
  pub mount : Bytes
  pub root : Bytes
  pub preopen : Bytes
  pub flags : ℕ
  pub rights : ℕ
  pub inheriting : ℕ
  pub dir_iter : Option ℕ
  pub dir_cookie : ℕ
  pub dir_issued : ℕ

-- `cancelled` is what the cancel function of the poll context has done.
pub record FsState : Type 0 where
  pub fds : List (ℕ × FdEntry)
  pub next_fd : ℕ
  pub max_fds : ℕ
  pub cancelled : Bool
  pub closed : Bool

-- for fds[fd] != nil { fd++ }, in 32 bits. Each round that does not end the loop meets another
-- entry, so a table of `n` entries needs `n` rounds.
unfoldable pub scan : ℕ → List (ℕ × FdEntry) → ℕ → ℕ
scan zero fds fd = fd
scan (suc fuel) fds fd = elim (lookup fd fds) [
  | none ↦ fd
  | some _ ↦ scan fuel fds ((fd + 1) % 2 ^ 32)
]

-- The new table and the descriptor, or `wasiEMfile`.
unfoldable pub alloc : FsState → FdEntry → Option (ℕ × FsState)
alloc s entry =
    if leb s.max_fds (length s.fds)
    then none
    else let fd = scan (length s.fds) s.fds s.next_fd in
      some (fd, record s { fds = insert fd entry s.fds; next_fd = (fd + 1) % 2 ^ 32 })

-- The code that `require` returns.
abbrev pub require_code : FdEntry → ℕ → ℕ
require_code f right = if bit_and f.rights right == right then wasi_ok else wasi_enotcapable
