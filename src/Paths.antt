-- ===== src/Paths.antt =====
-- The lexical side of guest paths on Linux: `pathEscapes`, the path tests of `resolve`, the split of
-- `openParent`, and `renameLeaf`, of internal/core/fs.go. A path is its bytes; 47 is the slash and
-- 46 the dot.
pub mod Depth
pub mod Leaf
pub mod Split
use wasi.Prelude.{
  ℕ, zero, suc, ◌+◌, ◌-◌, take, drop, Bool, true, false, ◌&&◌, Option, none, some, List, [], ◌∷◌,
  ◌++◌, length, ◌==◌, if◌then◌else◌,
}
use wasi.Host.{Bytes}

unfoldable pub bytes_eq : Bytes → Bytes → Bool
bytes_eq [] [] = true
bytes_eq [] (d ∷ t) = false
bytes_eq (c ∷ s) [] = false
bytes_eq (c ∷ s) (d ∷ t) = (c == d) && bytes_eq s t

abbrev pub dot : Bytes
dot = 46 ∷ []

abbrev pub dot_dot : Bytes
dot_dot = 46 ∷ 46 ∷ []

-- A byte in front of the first part.
unfoldable pub extend_first : ℕ → List Bytes → List Bytes
extend_first c [] = (c ∷ []) ∷ []
extend_first c (part ∷ parts) = (c ∷ part) ∷ parts

-- The parts between slashes, as the loops over `start` and `end` of the source visit them. Behind a
-- final slash this has one more part, an empty one, which those loops would skip.
unfoldable pub split : Bytes → List Bytes
split [] = [] ∷ []
split (c ∷ s) = let parts = split s in if c == 47 then [] ∷ parts else extend_first c parts

-- What one part does to the depth.
pub data Move : Type 0 where
  stay up down : Move

unfoldable pub move_of : Bytes → Move
move_of part =
    if bytes_eq part []
    then stay
    else if bytes_eq part dot
    then stay
    else if bytes_eq part dot_dot
    then up
    else down

-- The loop at a depth that is not negative: it returns as soon as the depth would become so.
unfoldable pub escapes_from : ℕ → List Move → Bool
escapes_from depth [] = false
escapes_from depth (stay ∷ moves) = escapes_from depth moves
escapes_from zero (up ∷ moves) = true
escapes_from (suc depth) (up ∷ moves) = escapes_from depth moves
escapes_from depth (down ∷ moves) = escapes_from (suc depth) moves

unfoldable pub moves_of : List Bytes → List Move
moves_of [] = []
moves_of (part ∷ parts) = move_of part ∷ moves_of parts

unfoldable pub path_escapes : Bytes → Bool
path_escapes guest = escapes_from zero (moves_of (split guest))

-- strings.HasPrefix(s, "/")
abbrev pub starts_with_slash : Bytes → Bool
starts_with_slash [] = false
starts_with_slash (c ∷ s) = c == 47

-- strings.HasSuffix(s, "/")
unfoldable pub ends_with_slash : Bytes → Bool
ends_with_slash [] = false
ends_with_slash (c ∷ []) = c == 47
ends_with_slash (c ∷ d ∷ s) = ends_with_slash (d ∷ s)

-- c before the rest, where a slash before an empty rest is dropped.
unfoldable pub cons_trimmed : ℕ → Bytes → Bytes
cons_trimmed c [] = if c == 47 then [] else c ∷ []
cons_trimmed c (d ∷ s) = c ∷ d ∷ s

-- strings.TrimRight(s, "/")
unfoldable pub trim_right_slash : Bytes → Bytes
trim_right_slash [] = []
trim_right_slash (c ∷ s) = cons_trimmed c (trim_right_slash s)

unfoldable pub extend_before : ℕ → Bytes → Option (Bytes × Bytes) → Option (Bytes × Bytes)
extend_before c s (some (before, leaf)) = some (c ∷ before, leaf)
extend_before c s none = if c == 47 then some ([], s) else none

-- The text before and behind the last slash, by strings.LastIndexByte.
unfoldable pub split_last : Bytes → Option (Bytes × Bytes)
split_last [] = none
split_last (c ∷ s) = extend_before c s (split_last s)

-- An empty parent is the directory itself.
unfoldable pub parent_of : Bytes → Bytes
parent_of [] = dot
parent_of (c ∷ s) = c ∷ s

-- The parent and the leaf of `openParent`.
unfoldable pub parent_and_leaf : Bytes → Bytes × Bytes
parent_and_leaf name = elim (split_last name) [
  | none ↦ (dot, name)
  | some (before, leaf) ↦ (parent_of before, leaf)
]

abbrev pub slash : Bytes
slash = 47 ∷ []

-- strings.LastIndexByte(s, '/'), where there is one.
unfoldable pub last_slash : Bytes → Option ℕ
last_slash [] = none
last_slash (c ∷ s) = elim (last_slash s) [
  | none ↦ if c == 47 then some 0 else none
  | some i ↦ some (suc i)
]

-- The index behind the slash: LastIndexByte's result and one.
unfoldable pub part_start : Option ℕ → ℕ
part_start none = 0
part_start (some i) = suc i

-- s[start:end]
unfoldable pub subtext : ℕ → ℕ → Bytes → Bytes
subtext start end s = drop start (take end s)

-- The loop of `renameLeaf` at `end`; at 0, or at the -1 that follows a part at the start of the text,
-- it ends. The rounds are no part of the code: where they are used up there is no text.
unfoldable pub rename_loop : ℕ → ℕ → Bytes → Bytes → Bytes
unfolding bytes_eq last_slash part_start subtext
rename_loop zero end original leaf = []
rename_loop (suc rounds) zero original leaf = leaf ++ slash
rename_loop (suc rounds) (suc before) original leaf =
    let end = suc before in
    let start = part_start (last_slash (take end original)) in
    let rest = rename_loop rounds (start - 1) original leaf in
    if bytes_eq (subtext start end original) leaf then subtext start (end + 1) original else rest

unfoldable pub rename_leaf : Bytes → Bytes → Bytes
unfolding rename_loop ends_with_slash
rename_leaf original leaf =
    if ends_with_slash original
    then (if bytes_eq leaf dot
        then dot ++ slash
        else rename_loop (length original) (length original - 1) original leaf)
    else leaf
