-- ===== src/Paths/Depth.antt =====
-- `pathEscapes` of internal/core/fs.go against what it means: a path escapes its directory exactly
-- when some first parts of it climb more often than they go down.
use wasi.Prelude.{
  ℕ, zero, suc, ◌+◌, ◌≤◌, ◌≡◌, ◌↔◌, refl, Bool, true, false, not, ◌&&◌, ◌==◌, if◌then◌else◌, List,
  [], ◌∷◌, take, All, arith,
}
use wasi.Host.{Bytes}
use wasi.Paths.{
  Move, stay, up, down, escapes_from, move_of, moves_of, split, bytes_eq, path_escapes,
}
use wasi.Paths.Split.{Plain, split-join}
use wasi.Text.Clean.{join}

-- How often the moves go down and up.
descents : List Move → ℕ
descents [] = 0
descents (down ∷ ms) = suc (descents ms)
descents (stay ∷ ms) = descents ms
descents (up ∷ ms) = descents ms

climbs : List Move → ℕ
climbs [] = 0
climbs (up ∷ ms) = suc (climbs ms)
climbs (stay ∷ ms) = climbs ms
climbs (down ∷ ms) = climbs ms

-- The first `k` moves do not climb out of a directory at the given depth.
abbrev MovesInside : ℕ → List Move → Type 0
MovesInside depth moves = (k : ℕ) → climbs (take k moves) ≤ depth + descents (take k moves)

escapes_inside :
    (depth : ℕ) (moves : List Move) → escapes_from depth moves ≡ false → MovesInside depth moves
unfolding escapes_from climbs descents
escapes_inside depth [] h zero = omega arith
escapes_inside depth [] h (suc k) = omega arith
escapes_inside depth (m ∷ ms) h zero = omega arith
escapes_inside depth (stay ∷ ms) h (suc k) = escapes_inside depth ms h k
escapes_inside zero (up ∷ ms) h (suc k) = absurd (cc)
escapes_inside (suc depth) (up ∷ ms) h (suc k) = omega (arith, escapes_inside depth ms h k)
escapes_inside depth (down ∷ ms) h (suc k) = omega (arith, escapes_inside (suc depth) ms h k)

inside_escapes :
    (depth : ℕ) (moves : List Move) → MovesInside depth moves → escapes_from depth moves ≡ false
unfolding escapes_from climbs descents
inside_escapes depth [] h = refl
inside_escapes depth (stay ∷ ms) h = inside_escapes depth ms (λ k. h (suc k))
inside_escapes zero (up ∷ ms) h = absurd (omega (arith, h 1))
inside_escapes (suc depth) (up ∷ ms) h = inside_escapes depth ms (λ k. omega (arith, h (suc k)))
inside_escapes depth (down ∷ ms) h = inside_escapes (suc depth) ms (λ k. omega (arith, h (suc k)))

-- A part climbs if it is "..", and goes down if it is a name: neither empty, nor ".", nor "..".
abbrev pub is_parent : Bytes → Bool
is_parent [] = false
is_parent (a ∷ []) = false
is_parent (a ∷ b ∷ []) = (a == 46) && (b == 46)
is_parent (a ∷ b ∷ c ∷ s) = false

abbrev pub goes_down : Bytes → Bool
goes_down [] = false
goes_down (a ∷ []) = not (a == 46)
goes_down (a ∷ b ∷ []) = not ((a == 46) && (b == 46))
goes_down (a ∷ b ∷ c ∷ s) = true

abbrev pub parents : List Bytes → ℕ
parents [] = 0
parents (part ∷ parts) = (if is_parent part then 1 else 0) + parents parts

abbrev pub names : List Bytes → ℕ
names [] = 0
names (part ∷ parts) = (if goes_down part then 1 else 0) + names parts

-- However many first parts are taken, they do not climb more often than they go down.
abbrev pub StaysInside : List Bytes → Type 0
StaysInside parts = (k : ℕ) → parents (take k parts) ≤ names (take k parts)

move_of-kind :
    (part : Bytes) (moves : List Move)
    → (climbs (move_of part ∷ moves) ≡ (if is_parent part then 1 else 0) + climbs moves)
      × (descents (move_of part ∷ moves) ≡ (if goes_down part then 1 else 0) + descents moves)
unfolding move_of bytes_eq climbs descents
move_of-kind [] moves = ground arith
move_of-kind (a ∷ []) moves = ground arith
move_of-kind (a ∷ b ∷ []) moves = ground arith
move_of-kind (a ∷ b ∷ c ∷ s) moves = ground arith

moves_of-counts :
    (k : ℕ) (parts : List Bytes)
    → (climbs (take k (moves_of parts)) ≡ parents (take k parts))
      × (descents (take k (moves_of parts)) ≡ names (take k parts))
unfolding moves_of climbs descents
moves_of-counts zero parts = (refl, refl)
moves_of-counts (suc k) [] = (refl, refl)
moves_of-counts (suc k) (part ∷ parts) =
    let (higher, deeper) = move_of-kind part (take k (moves_of parts)) in
    let (above, below) = moves_of-counts k parts in
    (omega (arith, higher, above), omega (arith, deeper, below))

inside_parts : (parts : List Bytes) → (escapes_from 0 (moves_of parts) ≡ false) ↔ StaysInside parts
inside_parts parts = (
  λ stays k. omega (arith, escapes_inside 0 (moves_of parts) stays k, moves_of-counts k parts),
  λ inside.
      inside_escapes 0 (moves_of parts) (λ k. omega (arith, inside k, moves_of-counts k parts)),
)

-- A path is the join of its parts by slashes, no part with a slash in it. `path_escapes` accepts it
-- exactly when, however many first parts are taken, those that are ".." are no more than the names
-- among them: the parts that are neither empty nor "." nor "..".
pub path_escapes_lem :
    (parts : List Bytes) → All Plain parts → (path_escapes (join parts) ≡ false) ↔ StaysInside parts
unfolding path_escapes escapes_from moves_of split join move_of bytes_eq
path_escapes_lem [] all = (λ stays k. empty k, λ inside. refl)
  where
    empty : (k : ℕ) → parents (take k []) ≤ names (take k [])
    empty zero = omega arith
    empty (suc k) = omega arith
path_escapes_lem (part ∷ parts) all = rw (split-join part parts all) (inside_parts (part ∷ parts))
