-- ===== src/Sound/TableRules.antt =====
-- The handlers that move an entry between slots, or an iterator in an entry, keep the invariant:
-- `fdRenumber` and `fdReaddir` of internal/core/fs.go.
use Prim.Native.Nat.{min}
use wasi.Prelude.{
  ℕ, ◌-◌, ◌%◌, ◌^◌, take, leb, ltb, zero, suc, ◌+◌, ◌≡◌, ◌∙◌, List, [], ◌∷◌, Bool, true, false,
  Option, Option-cases, inl, inr, none, some, if◌then◌else◌, ◌==◌, length, arith, subst,
}
use wasi.Host.{Bytes}
use wasi.Paths.{dot, dot_dot}
use wasi.Table.{FdEntry}
use wasi.Table.Map.{lookup, insert, delete, length-insert, lookup-delete, length-delete-le}
use wasi.Exec.{Plugin, Exec, Params, Machine, ◌>>=◌, ◌>>◌, u32, pure, host, on_option}
use wasi.Exec.Keeps.{Keeps, Keeps-bind, Keeps-then, Keeps-if, Keeps-pure, Keeps-host_pair}
use wasi.Exec.Gives.{
  Gives, Gives-pure, Gives-fail, Gives-if, Gives-then, Gives-next, Gives-bind, Gives-on_option,
}
use wasi.Sound.{Bounds, IsSound, IsConfined}
use wasi.Sound.Rules.{write_entry-IsSound, refill, insert_cases}
use wasi.Sound.Calls.{call_rules, entry-bind, entry_with-Gives, stat-IsSound}
use wasi.Sound.WalkRules.{open_at-IsSound, open_metadata_at-IsSound}
use wasi.Fd.Entry.{write_entry, set_entry, entry, close_optional, delete_entry, copy_to, stat}
use wasi.Fd.Manage.{fd_renumber}
use wasi.Fd.Readdir.{
  DirectoryEntry, directory_entry_info, skip_directory_entries, position_directory, read_name,
  next_entry, issue, readdir_loop, fd_readdir, dirent,
}

-- What `next_entry` has found comes with a confined entry.
abbrev Found : (Bytes → ℕ) → Option (DirectoryEntry × FdEntry) → Type 0
Found authority none = Unit
Found authority (some (d, f)) = IsConfined authority f

module _ {W : Type 0} {b : Bounds} where
  -- An entry that replaces the one of an open descriptor.
  replace :
      (s : Machine W) (fd : ℕ) (f old : FdEntry)
      → IsSound b s.fs s.mem
      → IsConfined b.authority f
      → lookup fd s.fs.fds ≡ some old
      → IsSound b (record s.fs { fds = insert fd f s.fs.fds }) s.mem
  replace s fd f old h c there =
      let size : length (insert fd f s.fs.fds) ≡ length s.fs.fds =
        length-insert fd f s.fs.fds ∙ (rw there) in
      refill h (insert fd f s.fs.fds)
        (λ j g found. elim (insert_cases fd j f s.fs.fds found) [
          | inl same ↦ subst (IsConfined b.authority) same c
          | inr before ↦ h.confined j g before
        ])
        (omega (arith, size))

  -- What follows `entry` may use that the descriptor is open.
  entry_found-bind :
      {A : Type 0} (fd : ℕ) (k : FdEntry → Exec W A)
      → ((s : Machine W) (f : FdEntry)
          → IsSound b s.fs s.mem
          → lookup fd s.fs.fds ≡ some f
          → IsSound b (k f s).1.fs (k f s).1.mem)
      → Keeps (IsSound b) (entry fd >>= k)
  unfolding entry ◌>>=◌
  entry_found-bind fd k kk = record {
    at = λ s h. elim (Option-cases (lookup fd s.fs.fds)) [
      | inl e ↦ rw (e, entry) h
      | inr (f, e) ↦ rw (e, entry) (kk s f h e)
    ];
  }

  free :
      (s : Machine W) (fd : ℕ)
      → IsSound b s.fs s.mem
      → IsSound b (record s.fs { fds = delete fd s.fs.fds }) s.mem
  free s fd h =
      refill h (delete fd s.fs.fds)
        (λ j f found. h.confined j f (ground (arith, lookup-delete fd j s.fs.fds)))
        (length-delete-le fd s.fs.fds)

module _ {W : Type 0} (e : Plugin W) {b : Bounds} where
  -- The move itself, from a table where `to` is open.
  moved :
      (same : Bool) (to from : ℕ) (f old : FdEntry) (iter file : Option ℕ) (s : Machine W)
      → IsSound b s.fs s.mem
      → IsConfined b.authority f
      → lookup to s.fs.fds ≡ some old
      → let end =
          ((if same then pure tt else (do
            close_optional e iter
            close_optional e file
            set_entry to f
            delete_entry from))
            s).1 in
        IsSound b end.fs end.mem
  unfolding ◌>>=◌ ◌>>◌ close_optional set_entry delete_entry pure host
  moved true to from f old iter file s h c there = h
  moved false to from f old none none s h c there =
      free (record s { fs = record s.fs { fds = insert to f s.fs.fds } }) from
        (replace s to f old h c there)
  moved false to from f old (some iter) none s h c there =
      free (record s { fs = record s.fs { fds = insert to f s.fs.fds } }) from
        (replace s to f old h c there)
  moved false to from f old none (some file) s h c there =
      free (record s { fs = record s.fs { fds = insert to f s.fs.fds } }) from
        (replace s to f old h c there)
  moved false to from f old (some iter) (some file) s h c there =
      free (record s { fs = record s.fs { fds = insert to f s.fs.fds } }) from
        (replace s to f old h c there)

  pub fd_renumber-IsSound : (p : Params) → Keeps (IsSound b) (fd_renumber e p)
  unfolding fd_renumber
  fd_renumber-IsSound p = entry-bind _ _ (λ f c. Keeps-then _ _ (search call_rules) (
      entry_found-bind _ _ (λ s old h there.
        moved (u32 (p 0) == u32 (p 1)) (u32 (p 1)) (u32 (p 0)) f old old.dir_iter old.file s h c
          there)))

  -- What follows a write of the iterator's fields works on a confined entry again.
  write_directory-IsSound :
      (fd : ℕ) (f : FdEntry) (iter : Option ℕ) (cookie issued : ℕ)
      → IsConfined b.authority f
      → Keeps {W = W}
          (IsSound b)
          (write_entry fd (record f { dir_iter = iter; dir_cookie = cookie; dir_issued = issued }))
  write_directory-IsSound fd f iter cookie issued c =
      write_entry-IsSound fd _ (record { base = c.base; inherited = c.inherited })

  directory_entry_info-IsSound :
      (file : ℕ) (name : Bytes) → Keeps (IsSound b) (directory_entry_info e file name)
  unfolding directory_entry_info
  directory_entry_info-IsSound file name = search (call_rules, open_metadata_at-IsSound) depth 20

  skip_directory_entries-Gives :
      (rounds fd : ℕ) (f : FdEntry) (iter remaining : ℕ)
      → IsConfined b.authority f
      → Gives
          (IsSound b)
          (IsConfined b.authority)
          (skip_directory_entries e rounds fd f iter remaining)
  unfolding skip_directory_entries
  skip_directory_entries-Gives zero fd f iter remaining c = Gives-pure f c
  skip_directory_entries-Gives (suc rounds) fd f iter remaining c =
      Gives-if _ _ _ (Gives-pure f c) (
        Gives-then _ _ (Keeps-host_pair _) (λ (names, error).
          let c' : IsConfined b.authority
              (record f { dir_cookie = (f.dir_cookie + length names) % 2 ^ 64 }) =
            record { base = c.base; inherited = c.inherited } in
          Gives-next _ _ (write_directory-IsSound fd f f.dir_iter _ f.dir_issued c) (
            Gives-on_option _ _ _
              (Gives-if _ _ _ (Gives-pure _ c')
                (skip_directory_entries-Gives rounds fd _ iter _ c'))
              (λ fault. Gives-if _ _ _ (Gives-pure _ c') (Gives-fail _)))))

  position_directory-Gives :
      (fd : ℕ) (f : FdEntry) (file cookie : ℕ)
      → IsConfined b.authority f
      → Gives (IsSound b) (IsConfined b.authority) (position_directory e fd f file cookie)
  unfolding position_directory
  position_directory-Gives fd f file cookie c = Gives-if _ _ _ (Gives-fail _) (
      Gives-if _ _ _ (Gives-pure f c) (
        Gives-next _ _ (search call_rules) (
          Gives-then _ _ (open_at-IsSound e _ _ _ _) (λ iter.
            Gives-next _ _ (write_directory-IsSound fd f _ _ f.dir_issued c) (
              skip_directory_entries-Gives cookie fd _ iter _
                (record { base = c.base; inherited = c.inherited }))))))

  read_name-Gives :
      (fd : ℕ) (f : FdEntry) (file i : ℕ) (names : List Bytes)
      → IsConfined b.authority f
      → Gives (IsSound b) (Found b.authority) (read_name e fd f file i names)
  unfolding read_name
  read_name-Gives fd f file i [] c = Gives-pure none tt
  read_name-Gives fd f file i (name ∷ names) c =
      Gives-next _ _ (write_directory-IsSound fd f f.dir_iter _ f.dir_issued c) (
        Gives-then _ _ (directory_entry_info-IsSound file name)
          (λ info. Gives-pure _ (record { base = c.base; inherited = c.inherited })))

  next_entry-Gives :
      (fd : ℕ) (f : FdEntry) (file i : ℕ)
      → IsConfined b.authority f
      → Gives (IsSound b) (Found b.authority) (next_entry e fd f file i)
  unfolding next_entry
  next_entry-Gives fd f file i c = Gives-if (i == 0) _ _ (stat_named dot) (
      Gives-if (i == 1) _ _ (stat_named dot_dot) (
        Gives-on_option f.dir_iter _ _ (Gives-pure none tt) (λ iter.
          Gives-then _ _ (Keeps-host_pair (e.host.read_dir iter 1)) (λ (names, error).
            Gives-on_option error _ _ (read_name-Gives fd f file i names c)
              (λ fault. Gives-if _ _ _ (Gives-pure none tt) (Gives-fail _))))))
    where
      stat_named :
          (name : Bytes)
          → Gives
              (IsSound b)
              (Found b.authority)
              (stat e file >>= λ info. pure (some (record { name = name; info = info }, f)))
      stat_named name =
          Gives-then _ _ (stat-IsSound e file)
            (λ info. Gives-pure (some (record { name = name; info = info }, f)) c)

  issue-Gives :
      (fd : ℕ) (f : FdEntry) (i n : ℕ)
      → IsConfined b.authority f
      → Gives (IsSound b) (IsConfined b.authority) (issue e fd f i n)
  unfolding issue
  issue-Gives fd f i n c =
      Gives-if _ _ _
        (Gives-next _ _ (write_directory-IsSound fd f f.dir_iter f.dir_cookie _ c)
          (Gives-pure _ (record { base = c.base; inherited = c.inherited })))
        (Gives-pure f c)

  -- What `readdir_loop` does with what it has found; `more` are the rounds that follow.
  Found-entry-IsSound :
      (fd buf len i used : ℕ) (more : FdEntry → ℕ → Exec W ℕ)
      → ((g : FdEntry) (n : ℕ) → IsConfined b.authority g → Keeps (IsSound b) (more g n))
      → (found : Option (DirectoryEntry × FdEntry)) → Found b.authority found
      → Keeps (IsSound b) (
          on_option found (pure used) (λ (d, f').
            let rec = dirent i d.info d.name in
            let n = min (length rec) (len - used) in
            if leb len used then pure used else do
              copy_to (u32 (buf + used)) (take n rec)
              g ← issue e fd f' i n
              if ltb n (length rec) then pure (used + n) else more g (used + n)))
  unfolding on_option
  Found-entry-IsSound fd buf len i used more km none v = Keeps-pure _
  Found-entry-IsSound fd buf len i used more km (some (d, f)) c = Keeps-if _ _ _ (Keeps-pure _) (
      Keeps-then _ _ (search call_rules) (
        Gives-bind _ _ (issue-Gives fd f i _ c)
          (λ g c'. Keeps-if _ _ _ (Keeps-pure _) (km g _ c'))))

  readdir_loop-IsSound :
      (rounds fd : ℕ) (f : FdEntry) (file buf len i used : ℕ)
      → IsConfined b.authority f
      → Keeps (IsSound b) (readdir_loop e rounds fd f file buf len i used)
  unfolding readdir_loop
  readdir_loop-IsSound zero fd f file buf len i used c = Keeps-pure _
  readdir_loop-IsSound (suc rounds) fd f file buf len i used c =
      Gives-bind _ _ (next_entry-Gives fd f file i c) (
        Found-entry-IsSound fd buf len i used
          (λ g n. readdir_loop e rounds fd g file buf len ((i + 1) % 2 ^ 64) n)
          (λ g n c'. readdir_loop-IsSound rounds fd g file buf len ((i + 1) % 2 ^ 64) n c'))

  pub fd_readdir-IsSound : (p : Params) → Keeps (IsSound b) (fd_readdir e p)
  unfolding fd_readdir
  fd_readdir-IsSound p = Gives-bind _ _ (entry_with-Gives _ _) (λ f c.
      Keeps-bind _ _ (search call_rules) (λ file. Keeps-bind _ _ (search call_rules) (λ mem.
        Keeps-then _ _ (search call_rules) (
          Keeps-then _ _ (search call_rules) (
            Gives-bind _ _ (position_directory-Gives (u32 (p 0)) f file (p 3) c) (λ g c'.
              Keeps-bind _ _ (readdir_loop-IsSound _ _ g file _ _ _ _ c')
                (λ used. search call_rules)))))))
