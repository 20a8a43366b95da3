-- ===== src/Fd/Entry.antt =====
-- What every handler does with its descriptor: `entry`, `require`, `alloc` of internal/core/fs.go,
-- and the writes to an entry and to its slot. The fields of an entry are written through a pointer
-- in the source; here the entry is written back to its slot.
use wasi.Prelude.{ℕ, Option, none, some, List, ◌⊎◌, inl, inr}
use wasi.Abi.Errno.{Error, errno, wasi_ok, wasi_ebadf, wasi_emfile}
use wasi.Memory.{Mem, overlay}
use wasi.Memory.Iovecs.{Buf, iovecs}
use wasi.Table.{FdEntry, alloc, require_code}
use wasi.Table.Map.{lookup, insert, update, delete}
use wasi.Host.{Io, FileInfo, done, failed}
use wasi.Exec.{Plugin, Exec, ok, err, ◌>>=◌, ◌>>◌, on_option, pure, fail, host, gets, lift, check}

module _ {W : Type 0} where
  -- `wasiEBadf` for a descriptor that is not in the table.
  unfoldable pub entry : ℕ → Exec W FdEntry
  entry fd s = elim (lookup fd s.fs.fds) [ none ↦ (err wasi_ebadf, s) | some f ↦ (ok f, s) ]

  unfoldable pub require : FdEntry → ℕ → Exec W (Unit {0})
  require f right = check (require_code f right)

  -- Both at once, as most handlers begin.
  unfoldable pub entry_with : ℕ → ℕ → Exec W FdEntry
  entry_with fd right = do f ← entry fd; require f right; pure f

  -- A write to fields of the entry of `fd`, through the pointer.
  unfoldable pub write_entry : ℕ → FdEntry → Exec W (Unit {0})
  write_entry fd f s = (ok tt, record s { fs = record s.fs { fds = update fd f s.fs.fds } })

  -- e.fs.fds[fd] = f
  unfoldable pub set_entry : ℕ → FdEntry → Exec W (Unit {0})
  set_entry fd f s = (ok tt, record s { fs = record s.fs { fds = insert fd f s.fs.fds } })

  -- delete(e.fs.fds, fd)
  unfoldable pub delete_entry : ℕ → Exec W (Unit {0})
  delete_entry fd s = (ok tt, record s { fs = record s.fs { fds = delete fd s.fs.fds } })

  -- if f.file == nil { code = ... }, and the file otherwise.
  unfoldable pub require_file : FdEntry → ℕ → Exec W ℕ
  require_file f code = on_option f.file (fail code) pure

  unfoldable pub alloc_entry : FdEntry → Exec W ℕ
  alloc_entry f s = elim (alloc s.fs f) [
    | none ↦ (err wasi_emfile, s)
    | some (fd, fs) ↦ (ok fd, record s { fs = fs })
  ]

  -- copy(mem[off:], bytes)
  unfoldable pub copy_to : ℕ → List ℕ → Exec W (Unit {0})
  copy_to off bytes s = (ok tt, record s { mem = overlay s.mem off bytes })

  unfoldable pub memory : Exec W Mem
  memory = gets (λ s. s.mem)

-- A result of the host, or the code of its error.
unfoldable pub io_code : {A : Type 0} → Io A → ℕ ⊎ A
io_code (done a) = inr a
io_code (failed error) = inl (errno (some error))

module _ {W : Type 0} where
  -- A call of the host that ends the handler with the code of its error.
  unfoldable pub host_io : {A : Type 0} → (W → Io A × W) → Exec W A
  host_io call = do r ← host call; lift (io_code r)

  unfoldable pub host_check : (W → Option Error × W) → Exec W (Unit {0})
  host_check call = do error ← host call; check (errno error)

module _ {W : Type 0} (e : Plugin W) where
  -- The code of closing a file; `wasiOK` where there is none.
  unfoldable pub close_optional : Option ℕ → Exec W ℕ
  close_optional none = pure wasi_ok
  close_optional (some h) = do error ← host (e.host.close h); pure (errno error)

  unfoldable pub guest_iovecs : ℕ → ℕ → Exec W (List Buf)
  guest_iovecs ptr count = do mem ← memory; lift (iovecs e.cfg.max_iovecs mem ptr count)

  unfoldable pub stat : ℕ → Exec W FileInfo
  stat file = host_io (e.host.stat file)
