-- ===== src/Fd/Closing.antt =====
-- What `fdClose` (internal/core/core.go) and `fdRenumber` (internal/core/fs.go) do to the table.
use wasi.Prelude.{
  ℕ, ◌^◌, ◌<◌, ◌≡◌, ◌≢◌, refl, sym, ◌∙◌, subst, false, Option, none, some, ◌==◌, if◌then◌else◌,
  arith,
}
use wasi.Abi.Errno.{wasi_ok}
use wasi.Memory.{Mem}
use wasi.Table.{FdEntry, FsState}
use wasi.Table.Map.{lookup, insert, delete, lookup-insert, lookup-delete}
use wasi.Exec.{Plugin, Machine, Params, Result, ok, u32, ◌>>=◌, ◌>>◌, pure, host, check}
use wasi.Exec.Keeps.{Keeps-check}
use wasi.Fd.Entry.{close_optional, set_entry, delete_entry}
use wasi.Fd.Steps.{entry_found, stop_if_passed}
use wasi.Fd.Manage.{fd_close, fd_renumber}

-- The table with `fd` closed: the slot is free, every other slot is as it was, and so is the rest of
-- the record, its counter, limit and flags, and the memory.
pub record Closed (fd : ℕ) (fs : FsState) (mem : Mem) (fs' : FsState) (mem' : Mem) : Type 0 where
  pub gone : lookup fd fs'.fds ≡ none
  pub others : (j : ℕ) → j ≢ fd → lookup j fs'.fds ≡ lookup j fs.fds
  pub rest_kept : fs' ≡ record fs { fds = fs'.fds }
  pub mem_kept : mem' ≡ mem

-- The table with the entry of `from` moved to `to`.
pub record Moved {W : Type 0} (from to : ℕ) (f : FdEntry) (s t : Machine W) : Type 0 where
  pub arrived : lookup to t.fs.fds ≡ some f
  pub gone : lookup from t.fs.fds ≡ none
  pub others : (j : ℕ) → j ≢ from → j ≢ to → lookup j t.fs.fds ≡ lookup j s.fs.fds
  pub rest_kept : t.fs ≡ record s.fs { fds = t.fs.fds }
  pub mem_kept : t.mem ≡ s.mem

module _ {W : Type 0} (e : Plugin W) where
  delete-Closed :
      (fd : ℕ) (s : Machine W)
      → Closed fd s.fs s.mem (record s.fs { fds = delete fd s.fs.fds }) s.mem
  delete-Closed fd s = record {
    gone = ground (arith, lookup-delete fd fd s.fs.fds);
    others = λ j other. ground (arith, lookup-delete fd j s.fs.fds);
    rest_kept = refl;
    mem_kept = refl;
  }

  Closed-after :
      (fd : ℕ) (iter file : Option ℕ) (s : Machine W)
      → let t =
          ((do
            dir_code ← close_optional e iter
            close_code ← close_optional e file
            delete_entry fd
            check (if dir_code == wasi_ok then close_code else dir_code))
            s).1 in
        Closed fd s.fs s.mem t.fs t.mem
  unfolding close_optional delete_entry ◌>>=◌ ◌>>◌ pure host
  Closed-after fd none none s = (Keeps-check {Q = Closed fd s.fs s.mem} _).at _ (delete-Closed fd s)
  Closed-after fd none (some h) s =
      (Keeps-check {Q = Closed fd s.fs s.mem} _).at _ (delete-Closed fd s)
  Closed-after fd (some i) none s =
      (Keeps-check {Q = Closed fd s.fs s.mem} _).at _ (delete-Closed fd s)
  Closed-after fd (some i) (some h) s =
      (Keeps-check {Q = Closed fd s.fs s.mem} _).at _ (delete-Closed fd s)

  -- `fd_close` of an open descriptor frees its slot whatever closing its files returns. No other slot
  -- changes, nor does anything else of the table's record (counter, limit, flags), nor the memory.
  pub fd_close-Closed :
      (p : Params) (s : Machine W) (f : FdEntry)
      → lookup (u32 (p 0)) s.fs.fds ≡ some f
      → Closed (u32 (p 0)) s.fs s.mem (fd_close e p s).1.fs (fd_close e p s).1.mem
  unfolding fd_close
  fd_close-Closed p s f found =
      subst (λ (r : Result Unit × Machine W). Closed (u32 (p 0)) s.fs s.mem r.1.fs r.1.mem)
        (sym (entry_found (u32 (p 0)) _ s f found)) (Closed-after (u32 (p 0)) f.dir_iter f.file s)

  Moved-after :
      (from to : ℕ) (f : FdEntry) (iter file : Option ℕ) (s : Machine W)
      → from ≢ to
      → let r =
          (if from == to then pure tt else (do
            close_optional e iter
            close_optional e file
            set_entry to f
            delete_entry from))
            s in
        (r.0 ≡ ok tt) × Moved from to f s r.1
  unfolding close_optional set_entry delete_entry ◌>>=◌ ◌>>◌ pure host
  Moved-after from to f iter file s apart =
      let no : (from == to) ≡ false = ground arith in rw no (by_files iter file)
    where
      move :
          (w : W)
          → Moved from to f s (record s {
            fs = record s.fs { fds = delete from (insert to f s.fs.fds) };
            world = w;
          })
      move w = record {
        arrived =
            ground
              (arith, lookup-delete from to (insert to f s.fs.fds), lookup-insert to to f s.fs.fds);
        gone = ground (arith, lookup-delete from from (insert to f s.fs.fds));
        others = λ j a b.
            ground
              (arith, lookup-delete from j (insert to f s.fs.fds), lookup-insert to j f s.fs.fds);
        rest_kept = refl;
        mem_kept = refl;
      }

      by_files :
          (iter file : Option ℕ)
          → let r =
              (do close_optional e iter; close_optional e file; set_entry to f; delete_entry from)
                s in
            (r.0 ≡ ok tt) × Moved from to f s r.1
      by_files none none = (refl, move _)
      by_files none (some h) = (refl, move _)
      by_files (some i) none = (refl, move _)
      by_files (some i) (some h) = (refl, move _)

  -- `fd_renumber` between two different open descriptors, the target below 2^31, succeeds whatever
  -- closing the old target returns: the target has the entry, the source is free, and no other
  -- entry, nothing else of the table's record, and no memory has changed.
  pub fd_renumber-Moved :
      (p : Params) (s : Machine W) (f old : FdEntry)
      → lookup (u32 (p 0)) s.fs.fds ≡ some f
      → lookup (u32 (p 1)) s.fs.fds ≡ some old
      → u32 (p 0) ≢ u32 (p 1)
      → u32 (p 1) < 2 ^ 31
      → ((fd_renumber e p s).0 ≡ ok tt) × Moved (u32 (p 0)) (u32 (p 1)) f s (fd_renumber e p s).1
  unfolding fd_renumber
  fd_renumber-Moved p s f old found there apart small =
      subst (λ (r : Result Unit × Machine W). (r.0 ≡ ok tt) × Moved (u32 (p 0)) (u32 (p 1)) f s r.1)
        (sym (
          entry_found (u32 (p 0)) _ s f found
          ∙ stop_if_passed _ _ _ s (ground arith)
          ∙ entry_found (u32 (p 1)) _ s old there))
        (Moved-after (u32 (p 0)) (u32 (p 1)) f old.dir_iter old.file s apart)
