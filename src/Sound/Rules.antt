-- ===== src/Sound/Rules.antt =====
-- The invariant over the single steps of internal/core/fs.go: reads and writes of the table, writes
-- to the memory, `alloc`.
use wasi.Prelude.{
  ℕ, ◌≤◌, ◌≡◌, sym, ap, ◌∙◌, none, some, Option, Option-cases, length, arith, inl, inr, List, ◌⊎◌,
  subst,
}
use native.Mathlib.Decide.{ℕ_discrete}
use mathlib.Core.Option.{some-injective as some_injective}
use wasi.Memory.{Mem, put_le32, put_le64}
use wasi.Memory.Laws.{length-overlay, length-put_le32, length-put_le64}
use wasi.Table.{FdEntry, FsState, alloc}
use wasi.Table.Alloc.{alloc_lem, alloc-some}
use wasi.Table.Map.{
  lookup, insert, lookup-insert, update, delete, lookup-update, lookup-delete, length-update,
  length-delete-le,
}
use wasi.Exec.{Plugin, Machine, Exec, ◌>>=◌, store}
use wasi.Exec.Keeps.{Keeps, Keeps-bind, keeps_rules}
use wasi.Fd.Entry.{
  entry, require, entry_with, write_entry, delete_entry, alloc_entry, copy_to, memory,
  close_optional, guest_iovecs,
}
use wasi.Sound.{Bounds, IsSound, IsConfined}

-- An entry after an update is the new one, or one that was there.
update_cases :
    (k j : ℕ) (v : FdEntry) (m : List (ℕ × FdEntry)) {w : FdEntry}
    → lookup j (update k v m) ≡ some w
    → (v ≡ w) ⊎ (lookup j m ≡ some w)
update_cases k j v m h = ground (arith, lookup-update k j v m)

-- An entry after an insertion is the new one, or one that was there.
pub insert_cases :
    (k j : ℕ) (v : FdEntry) (m : List (ℕ × FdEntry)) {w : FdEntry}
    → lookup j (insert k v m) ≡ some w
    → (v ≡ w) ⊎ (lookup j m ≡ some w)
insert_cases k j v m h = ground (arith, lookup-insert k j v m)

module _ {b : Bounds} {fs : FsState} {mem : Mem} (h : IsSound b fs mem) where
  pub resize : {mem' : Mem} → length mem' ≡ length mem → IsSound b fs mem'
  resize e = record {
    confined = h.confined;
    limit = h.limit;
    word_limit = h.word_limit;
    quota = h.quota;
    next_word = h.next_word;
    size = e ∙ h.size;
  }

  -- Another table, with the counter as it was.
  pub refill :
      (fds : List (ℕ × FdEntry))
      → ((fd : ℕ) (f : FdEntry) → lookup fd fds ≡ some f → IsConfined b.authority f)
      → length fds ≤ length fs.fds
      → IsSound b (record fs { fds = fds }) mem
  refill fds confined fewer = record {
    confined = confined;
    limit = h.limit;
    word_limit = h.word_limit;
    quota = omega (arith, h.quota);
    next_word = h.next_word;
    size = h.size;
  }

  alloc-IsSound :
      (f : FdEntry) (fd : ℕ) (fs' : FsState)
      → IsConfined b.authority f
      → alloc fs f ≡ some (fd, fs')
      → IsSound b fs' mem
  alloc-IsSound f fd fs' c e =
      let (room, at, new) = alloc-some fs f fd fs' e in
      let a = alloc_lem fs f fd fs' (omega (arith, h.limit, h.word_limit)) h.next_word e in
      record {
        confined = λ j g found. elim (ℕ_discrete j fd) [
          | yes same ↦
              subst (IsConfined b.authority)
                (some_injective f g
                  (sym a.bound ∙ subst (λ x. lookup x fs'.fds ≡ some g) same found))
                c
          | no other ↦ h.confined j g (sym (a.others j other) ∙ found)
        ];
        limit = (rw new h.limit);
        word_limit = h.word_limit;
        quota = omega (arith, a.within, ap (λ (x : FsState). x.max_fds) new, h.limit);
        next_word = rw new (omega arith);
        size = h.size;
      }

module _ {W : Type 0} {b : Bounds} where
  -- A write of `putLe32` or `putLe64` keeps the size of the memory.
  pub store_word-IsSound : (off v : ℕ) → Keeps {W = W} (IsSound b) (store (λ m. put_le32 m off v))
  unfolding store
  store_word-IsSound off v = record {
    at = λ s h. elim (Option-cases (put_le32 s.mem off v)) [
      | inl e ↦ rw (e, store) h
      | inr (mem, e) ↦ rw (e, store) (resize h (length-put_le32 s.mem off v mem e))
    ];
  }

  pub store_long-IsSound : (off v : ℕ) → Keeps {W = W} (IsSound b) (store (λ m. put_le64 m off v))
  unfolding store
  store_long-IsSound off v = record {
    at = λ s h. elim (Option-cases (put_le64 s.mem off v)) [
      | inl e ↦ rw (e, store) h
      | inr (mem, e) ↦ rw (e, store) (resize h (length-put_le64 s.mem off v mem e))
    ];
  }

  pub copy_to-IsSound : (off : ℕ) (bytes : List ℕ) → Keeps {W = W} (IsSound b) (copy_to off bytes)
  unfolding copy_to
  copy_to-IsSound off bytes = record { at = λ s h. resize h (length-overlay s.mem off bytes) }

  -- An entry may be changed to any confined one.
  pub write_entry-IsSound :
      (fd : ℕ) (f : FdEntry)
      → IsConfined b.authority f
      → Keeps {W = W} (IsSound b) (write_entry fd f)
  unfolding write_entry
  write_entry-IsSound fd f c = record {
    at = λ s h.
        refill h (update fd f s.fs.fds) (λ j g e. changed s h j g e)
          (omega (arith, length-update fd f s.fs.fds));
  }
    where
      changed :
          (s : Machine W) (h : IsSound b s.fs s.mem) (j : ℕ) (g : FdEntry)
          → lookup j (update fd f s.fs.fds) ≡ some g
          → IsConfined b.authority g
      changed s h j g e = elim (update_cases fd j f s.fs.fds e) [
        | inl same ↦ subst (IsConfined b.authority) same c
        | inr old ↦ h.confined j g old
      ]

  pub delete_entry-IsSound : (fd : ℕ) → Keeps {W = W} (IsSound b) (delete_entry fd)
  unfolding delete_entry
  delete_entry-IsSound fd = record {
    at = λ s h.
        refill h (delete fd s.fs.fds)
          (λ j f e. h.confined j f (ground (arith, lookup-delete fd j s.fs.fds)))
          (length-delete-le fd s.fs.fds);
  }

  pub alloc_entry-IsSound :
      (f : FdEntry) → IsConfined b.authority f → Keeps {W = W} (IsSound b) (alloc_entry f)
  unfolding alloc_entry
  alloc_entry-IsSound f c = record {
    at = λ s h. elim (Option-cases (alloc s.fs f)) [
      | inl e ↦ rw (e, alloc_entry) h
      | inr ((fd, fs), e) ↦ rw (e, alloc_entry) (alloc-IsSound h f fd fs c e)
    ];
  }

  -- What follows `entry` works on a confined entry.
  pub entry-bind-IsSound :
      {A : Type 0} (fd : ℕ) (k : FdEntry → Exec W A)
      → ((f : FdEntry) → IsConfined b.authority f → Keeps (IsSound b) (k f))
      → Keeps (IsSound b) (entry fd >>= k)
  unfolding entry ◌>>=◌
  entry-bind-IsSound fd k kk = record {
    at = λ s h. elim (Option-cases (lookup fd s.fs.fds)) [
      | inl e ↦ rw (e, entry) h
      | inr (f, e) ↦ rw (e, entry) ((kk f (h.confined fd f e)).at s h)
    ];
  }

  pub require-IsSound : (f : FdEntry) (right : ℕ) → Keeps {W = W} (IsSound b) (require f right)
  unfolding require
  require-IsSound f right = search keeps_rules

  pub entry-IsSound : (fd : ℕ) → Keeps {W = W} (IsSound b) (entry fd)
  unfolding entry
  entry-IsSound fd = record {
    at = λ s h. elim (Option-cases (lookup fd s.fs.fds)) [
      | inl e ↦ rw (e, entry) h
      | inr (f, e) ↦ rw (e, entry) h
    ];
  }

  pub entry_with-IsSound : (fd right : ℕ) → Keeps {W = W} (IsSound b) (entry_with fd right)
  unfolding entry_with
  entry_with-IsSound fd right = search (keeps_rules, entry-IsSound, require-IsSound)

  pub memory-IsSound : Keeps {W = W} (IsSound b) memory
  unfolding memory
  memory-IsSound = search keeps_rules

  pub close_optional-IsSound :
      (e : Plugin W) (h : Option ℕ) → Keeps (IsSound b) (close_optional e h)
  unfolding close_optional
  close_optional-IsSound e none = search keeps_rules
  close_optional-IsSound e (some h) = search keeps_rules

  pub guest_iovecs-IsSound :
      (e : Plugin W) (ptr count : ℕ) → Keeps (IsSound b) (guest_iovecs e ptr count)
  unfolding guest_iovecs
  guest_iovecs-IsSound e ptr count = search (keeps_rules, memory-IsSound)

pub ruleset sound_rules = (
  keeps_rules, store_word-IsSound, store_long-IsSound, copy_to-IsSound, delete_entry-IsSound,
  entry-IsSound, require-IsSound, entry_with-IsSound, memory-IsSound, close_optional-IsSound,
  guest_iovecs-IsSound,
)
