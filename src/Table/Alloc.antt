-- ===== src/Table/Alloc.antt =====
-- `alloc` of internal/core/fs.go: the search for a free descriptor, also where the 32-bit counter
-- wraps round, and the new entry.
use wasi.Prelude.{
  ℕ, zero, suc, ◌+◌, ◌%◌, ◌^◌, ◌≤◌, ◌<◌, ◌≡◌, ◌≢◌, ◌↔◌, refl, sym, ◌∙◌, inl, inr, List, [], ◌∷◌,
  none, some, Option-cases, length, arith,
}
use wasi.Table.{FdEntry, FsState, scan, alloc}
use wasi.Table.Map.{
  lookup, insert, delete, lookup-insert, lookup-delete, length-delete-lt, length-insert,
}

abbrev Fds : Type 0
Fds = List (ℕ × FdEntry)

module _ (k : ℕ) (fds : Fds) (g : ℕ) where
  scan_stop : lookup g fds ≡ none → scan (suc k) fds g ≡ g
  unfolding scan
  scan_stop free = rw (free, scan)

  scan_on :
      (v : FdEntry) → lookup g fds ≡ some v → scan (suc k) fds g ≡ scan k fds ((g + 1) % 2 ^ 32)
  unfolding scan
  scan_on v taken = rw (taken, scan)

lookup-delete_ne : (x g : ℕ) (fds : Fds) → x ≢ g → lookup g (delete x fds) ≡ lookup g fds
lookup-delete_ne x g fds h = ground (arith, lookup-delete x g fds)

-- The search does not look at an entry outside its window, and does not return one.
scan-delete :
    (k : ℕ) (fds : Fds) (x g : ℕ)
    → ((j : ℕ) → j ≤ k → x ≢ (g + j) % 2 ^ 32)
    → g < 2 ^ 32
    → (scan k fds g ≡ scan k (delete x fds) g) × (scan k fds g ≢ x)
scan-delete zero fds x g apart h = unfold scan in (refl, λ e. apart 0 (omega arith) (omega arith))
scan-delete (suc k) fds x g apart h =
    let other : x ≢ g = λ e. apart 0 (omega arith) (omega arith) in
    let same = lookup-delete_ne x g fds other in
    elim (Option-cases (lookup g fds)) [
      | inl free ↦ (
        scan_stop k fds g free ∙ sym (scan_stop k (delete x fds) g (same ∙ free)),
        λ e. other (sym e ∙ scan_stop k fds g free),
      )
      | inr (v, taken) ↦
          let later =
            scan-delete k fds x ((g + 1) % 2 ^ 32)
              (λ j hj e. apart (j + 1) (omega arith) (omega arith)) (omega arith) in
          (
            scan_on k fds g v taken ∙ later.0 ∙ sym (scan_on k (delete x fds) g v (same ∙ taken)),
            λ e. later.1 (sym (scan_on k fds g v taken) ∙ e),
          )
    ]

-- With at most `k` entries in the table, `k` rounds find a free descriptor.
scan_free :
    (k : ℕ) (fds : Fds) (g : ℕ)
    → length fds ≤ k
    → k < 2 ^ 32
    → g < 2 ^ 32
    → lookup (scan k fds g) fds ≡ none
scan_free zero [] g h wide small = unfold lookup in refl
scan_free zero (x ∷ fds) g h wide small = absurd (omega arith)
scan_free (suc k) fds g h wide small = elim (Option-cases (lookup g fds)) [
  | inl free ↦ rw (scan_stop k fds g free) free
  | inr (v, taken) ↦
      let next = (g + 1) % 2 ^ 32 in
      let skip = scan-delete k fds g next (λ j hj e. absurd (omega arith)) (omega arith) in
      let found =
        scan_free k (delete g fds) next (omega (arith, length-delete-lt g v fds taken))
          (omega arith) (omega arith) in
      rw (scan_on k fds g v taken)
        (sym (lookup-delete_ne g (scan k fds next) fds (λ e. skip.1 (sym e))) ∙ (rw skip.0 found))
]

scan-lt : (k : ℕ) (fds : Fds) (g : ℕ) → g < 2 ^ 32 → scan k fds g < 2 ^ 32
unfolding scan
scan-lt zero fds g h = h
scan-lt (suc k) fds g h = elim (Option-cases (lookup g fds)) [
  | inl free ↦ rw (scan_stop k fds g free) h
  | inr (v, taken) ↦ rw (scan_on k fds g v taken) (scan-lt k fds ((g + 1) % 2 ^ 32) (omega arith))
]

-- What a successful `alloc` has done, from a table below its limit.
pub record Allocated (s : FsState) (entry : FdEntry) (fd : ℕ) (s' : FsState) : Type 0 where
  pub was_free : lookup fd s.fds ≡ none
  pub word : fd < 2 ^ 32
  pub bound : lookup fd s'.fds ≡ some entry
  pub others : (j : ℕ) → j ≢ fd → lookup j s'.fds ≡ lookup j s.fds
  pub grown : length s'.fds ≡ suc (length s.fds)
  pub within : length s'.fds ≤ s'.max_fds

pub alloc-some :
    (s : FsState) (entry : FdEntry) (fd : ℕ) (s' : FsState)
    → alloc s entry ≡ some (fd, s')
    → (length s.fds < s.max_fds)
      × (fd ≡ scan (length s.fds) s.fds s.next_fd)
      × (s' ≡ record s { fds = insert fd entry s.fds; next_fd = (fd + 1) % 2 ^ 32 })
unfolding alloc
alloc-some s entry fd s' e = ground arith

-- In a table whose limit and counter are 32-bit words, a successful `alloc` binds a free
-- descriptor to the entry, keeps every other binding, and stays within the limit.
pub alloc_lem :
    (s : FsState) (entry : FdEntry) (fd : ℕ) (s' : FsState)
    → s.max_fds < 2 ^ 32
    → s.next_fd < 2 ^ 32
    → alloc s entry ≡ some (fd, s')
    → Allocated s entry fd s'
alloc_lem s entry fd s' wide word e =
    let (room, at, new) = alloc-some s entry fd s' e in
    let free : lookup fd s.fds ≡ none =
      rw at (scan_free (length s.fds) s.fds s.next_fd (omega arith) (omega arith) word) in
    let sized : length (insert fd entry s.fds) ≡ suc (length s.fds) =
      length-insert fd entry s.fds ∙ (rw free) in
    record {
      was_free = free;
      word = rw at (scan-lt (length s.fds) s.fds s.next_fd word);
      bound = rw new (ground (arith, lookup-insert fd fd entry s.fds));
      others = λ j h. rw new (ground (arith, lookup-insert fd j entry s.fds));
      grown = rw new sized;
      within = rw new (omega (arith, sized));
    }

-- `alloc` fails exactly at the limit.
pub alloc_full :
    (s : FsState) (entry : FdEntry) → (alloc s entry ≡ none) ↔ (s.max_fds ≤ length s.fds)
unfolding alloc
alloc_full s entry = ground arith
