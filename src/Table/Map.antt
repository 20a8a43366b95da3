-- ===== src/Table/Map.antt =====
-- Go's map[uint32]T as an association list. The program looks at its size and its entries, never at
-- an order.
use wasi.Prelude.{
  ℕ, suc, ◌≤◌, ◌≡◌, refl, List, [], ◌∷◌, Option, none, some, length, arith, ◌==◌, if◌then◌else◌,
  is_some,
}

module _ {ℓ} {V : Type ℓ} where
  unfoldable pub lookup : ℕ → List (ℕ × V) → Option V
  lookup fd [] = none
  lookup fd ((at, f) ∷ fds) = if at == fd then some f else lookup fd fds

  unfoldable pub insert : ℕ → V → List (ℕ × V) → List (ℕ × V)
  insert fd f [] = (fd, f) ∷ []
  insert fd f ((at, g) ∷ fds) = if at == fd then (fd, f) ∷ fds else (at, g) ∷ insert fd f fds

  -- A write through a pointer to the value at `fd`: a value that is no longer there stays away.
  unfoldable pub update : ℕ → V → List (ℕ × V) → List (ℕ × V)
  update fd f [] = []
  update fd f ((at, g) ∷ fds) = if at == fd then (fd, f) ∷ fds else (at, g) ∷ update fd f fds

  unfoldable pub delete : ℕ → List (ℕ × V) → List (ℕ × V)
  delete k [] = []
  delete k ((j, v) ∷ m) = let rest = delete k m in if j == k then rest else (j, v) ∷ rest

  pub lookup-insert :
      (fd other : ℕ) (f : V) (fds : List (ℕ × V))
      → lookup other (insert fd f fds) ≡ (if fd == other then some f else lookup other fds)
  unfolding lookup insert
  lookup-insert fd other f [] = refl
  lookup-insert fd other f ((at, g) ∷ fds) = ground (arith, lookup-insert fd other f fds)

  pub lookup-update :
      (k j : ℕ) (v : V) (m : List (ℕ × V))
      → lookup j (update k v m)
        ≡ (if k == j then (if is_some (lookup j m) then some v else none) else lookup j m)
  unfolding lookup update
  lookup-update k j v [] = ground arith
  lookup-update k j v ((i, w) ∷ m) = ground (arith, lookup-update k j v m)

  pub length-update : (k : ℕ) (v : V) (m : List (ℕ × V)) → length (update k v m) ≡ length m
  unfolding update
  length-update k v [] = refl
  length-update k v ((j, w) ∷ m) = ground (arith, length-update k v m)

  pub lookup-delete :
      (k j : ℕ) (m : List (ℕ × V)) → lookup j (delete k m) ≡ (if k == j then none else lookup j m)
  unfolding lookup delete
  lookup-delete k j [] = ground arith
  lookup-delete k j ((i, w) ∷ m) = ground (arith, lookup-delete k j m)

  pub length-delete-le : (k : ℕ) (m : List (ℕ × V)) → length (delete k m) ≤ length m
  unfolding delete
  length-delete-le k [] = omega arith
  length-delete-le k ((j, v) ∷ m) = ground (arith, length-delete-le k m)

  -- Deleting a key that is there makes the map smaller.
  pub length-delete-lt :
      (k : ℕ) (v : V) (m : List (ℕ × V))
      → lookup k m ≡ some v
      → suc (length (delete k m)) ≤ length m
  unfolding lookup delete
  length-delete-lt k v [] h = cc
  length-delete-lt k v ((j, w) ∷ m) h = ground (arith, length-delete-lt k v m, length-delete-le k m)

  -- An insertion adds one entry, or replaces one.
  pub length-insert :
      (k : ℕ) (v : V) (m : List (ℕ × V))
      → length (insert k v m) ≡ (if is_some (lookup k m) then length m else suc (length m))
  unfolding lookup insert
  length-insert k v [] = refl
  length-insert k v ((j, w) ∷ m) = ground (arith, length-insert k v m)
