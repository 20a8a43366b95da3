-- ===== src/Under/Falls.antt =====
-- One pass of the walk of p2/path.go over the parts of a name: how it ends, and how many parent steps
-- the name holds with which it starts again.
use wasi.Prelude.{
  ℕ, suc, ◌≤◌, ◌<◌, ◌≡◌, refl, ap, Bool, true, false, Bool-cases, Option, none, some, inl, inr,
  List, [], ◌∷◌, ◌++◌, All, arith,
}
use wasi.Abi.Errno.{Error, eloop}
use wasi.Host.{Bytes, Host, Io, done, failed, FileInfo}
use wasi.Paths.{Move, stay, up, down, move_of, split, bytes_eq, dot, dot_dot}
use wasi.Text.Clean.{clean, dir, join}
use wasi.Walk.{moves_with}
use wasi.Walk.Confined.{Single}
use wasi.Paths.Split.{split-slash, Plain}
use wasi.Under.{
  File, Walked, opened, informed, refused, unfinished, Turn, ended, restart, expanded, Request,
  parent_turn, link_turn, informed_or, opened_or, shut, follow_link, metadata_turn, opened_turn,
  last_turn, stat_turn, last_part, here, entered, walk_parts, parts_of,
}
use wasi.Under.Names.{
  ups, ups-append, ups-Single, ups-join, clean-Single, dir-Single, join-Single, All-append,
}

abbrev pub is_finished : Walked → Bool
is_finished (opened file) = true
is_finished (informed info) = true
is_finished (refused error) = true
is_finished unfinished = false

-- A turn that has a result, follows a link, or leaves fewer than `n` parent steps.
abbrev pub Falls : ℕ → Turn → Type 0
Falls n (ended walked) = is_finished walked ≡ true
Falls n (restart name) = ups (split name) < n
Falls n (expanded name) = Unit

Falls-weaken : (m n : ℕ) (turn : Turn) → m ≤ n → Falls m turn → Falls n turn
Falls-weaken m n (ended walked) le falls = falls
Falls-weaken m n (restart name) le falls = omega arith
Falls-weaken m n (expanded name) le falls = tt

-- A part and its move, as `moves_with` pairs them.
abbrev Named : Move → Bytes → Type 0
Named stay part = bytes_eq part dot_dot ≡ false
Named up part = bytes_eq part dot_dot ≡ true
Named down part = bytes_eq part dot_dot ≡ false

abbrev Moved : Move × Bytes → Type 0
Moved (move, part) = Plain part × Named move part

not_dot_dot-dot : (part : Bytes) → bytes_eq part dot ≡ true → bytes_eq part dot_dot ≡ false
unfolding bytes_eq
not_dot_dot-dot [] e = refl
not_dot_dot-dot (c ∷ []) e = ground arith
not_dot_dot-dot (c ∷ d ∷ s) e = absurd (ground arith)

not_dot_dot-empty : (part : Bytes) → bytes_eq part [] ≡ true → bytes_eq part dot_dot ≡ false
unfolding bytes_eq
not_dot_dot-empty [] e = refl
not_dot_dot-empty (c ∷ s) e = absurd (ground arith)

move_of-Named : (part : Bytes) → Named (move_of part) part
unfolding move_of
move_of-Named part = elim (Bool-cases (bytes_eq part [])) [
  | inl empty ↦ rw empty (not_dot_dot-empty part empty)
  | inr e ↦ elim (Bool-cases (bytes_eq part dot)) [
    | inl here ↦ rw (e, here) (not_dot_dot-dot part here)
    | inr e' ↦ elim (Bool-cases (bytes_eq part dot_dot)) [
      | inl above ↦ rw (e, e', above) above
      | inr below ↦ rw (e, e', below) below
    ]
  ]
]

pub moves_with-Moved : (parts : List Bytes) → All Plain parts → All Moved (moves_with parts)
unfolding moves_with
moves_with-Moved [] all = tt
moves_with-Moved (part ∷ parts) (plain, all) =
    ((plain, move_of-Named part), moves_with-Moved parts all)

pub parts_of-moves_with : (parts : List Bytes) → parts_of (moves_with parts) ≡ parts
unfolding parts_of moves_with
parts_of-moves_with [] = refl
parts_of-moves_with (part ∷ parts) = ap (λ rest. part ∷ rest) (parts_of-moves_with parts)

parts_of-Plain : (parts : List (Move × Bytes)) → All Moved parts → All Plain (parts_of parts)
unfolding parts_of
parts_of-Plain [] all = tt
parts_of-Plain ((move, part) ∷ parts) ((plain, named), all) = (plain, parts_of-Plain parts all)

-- Behind a parent step: those of the rest are left.
parent_turn-Falls :
    (before : List Bytes) (rest : List (Move × Bytes))
    → All Single before
    → All Moved rest
    → Falls (suc (ups (parts_of rest))) (parent_turn before rest)
unfolding parent_turn
parent_turn-Falls before rest single moved =
    let prefix = clean (join before) in
    elim (Bool-cases (bytes_eq prefix dot)) [
      | inl e ↦ rw e refl
      | inr e ↦
          let left = dir-Single prefix (clean-Single (join before) (join-Single before single)) in
          rw e (
            rw (split-slash (dir prefix) (join (parts_of rest))) (
              omega (
                arith,
                ups-append (split (dir prefix)) (split (join (parts_of rest))),
                ups-Single (split (dir prefix)) left,
                ups-join (parts_of rest) (parts_of-Plain rest moved),
              )))
    ]

link_turn-Falls :
    (n : ℕ) (before : List Bytes) (rest : List (Move × Bytes)) (error : Error) (r : Io Bytes)
    → Falls n (link_turn before rest error r)
unfolding link_turn
link_turn-Falls n before rest error (failed e) = refl
link_turn-Falls n before rest error (done target) = ground arith

informed_or-finished : (r : Io FileInfo) → is_finished (informed_or r) ≡ true
unfolding informed_or
informed_or-finished (done info) = refl
informed_or-finished (failed error) = refl

opened_or-finished : (name : Bytes) (r : Io ℕ) → is_finished (opened_or name r) ≡ true
unfolding opened_or
opened_or-finished name (done k) = refl
opened_or-finished name (failed error) = refl

module _ {W : Type 0} (h : Host W) (q : Request W) where
  abbrev pub FallsIn : ℕ → Turn × W → Type 0
  FallsIn n (turn, w) = Falls n turn

  follow_link-Falls :
      (n : ℕ) (cur : File) (before : List Bytes) (part : Bytes) (rest : List (Move × Bytes))
      (error : Error) (w : W)
      → FallsIn n (follow_link h q cur before part rest error w)
  unfolding follow_link
  follow_link-Falls n cur before part rest error w =
      ground (arith, link_turn-Falls n before rest error (h.readlinkat cur.fd part 4096 w).0)

  metadata_turn-Falls :
      (n : ℕ) (cur : File) (before : List Bytes) (part : Bytes) (next : File) (r : Io FileInfo)
      (w : W)
      → FallsIn n (metadata_turn h q cur before part next r w)
  unfolding metadata_turn
  metadata_turn-Falls n cur before part next (failed error) w = refl
  metadata_turn-Falls n cur before part next (done info) w =
      ground (arith, follow_link-Falls n cur before part [] (eloop ∷ []) (shut h next w))

  opened_turn-Falls :
      (n : ℕ) (cur : File) (before : List Bytes) (part : Bytes) (next : File) (w : W)
      → FallsIn n (opened_turn h q cur before part next w)
  unfolding opened_turn
  opened_turn-Falls n cur before part next w =
      ground (
        arith,
        metadata_turn-Falls n cur before part next (h.stat next.fd w).0 (h.stat next.fd w).1,
      )

  last_turn-Falls :
      (n : ℕ) (name : Bytes) (cur : File) (before : List Bytes) (part : Bytes) (r : Io ℕ) (w : W)
      → FallsIn n (last_turn h q name cur before part r w)
  unfolding last_turn
  last_turn-Falls n name cur before part (failed error) w =
      follow_link-Falls n cur before part [] error w
  last_turn-Falls n name cur before part (done k) w = opened_turn-Falls n cur before part _ w

  stat_turn-Falls :
      (n : ℕ) (cur : File) (before : List Bytes) (part : Bytes) (r : Io FileInfo) (w : W)
      → FallsIn n (stat_turn h q cur before part r w)
  unfolding stat_turn
  stat_turn-Falls n cur before part (failed error) w = refl
  stat_turn-Falls n cur before part (done info) w =
      ground (arith, follow_link-Falls n cur before part [] (eloop ∷ []) w)

  last_part-Falls :
      (n : ℕ) (stat : Option (File → Bytes → W → Io FileInfo × W)) (name : Bytes) (cur : File)
      (before : List Bytes) (part : Bytes) (w : W)
      → FallsIn n (last_part h q stat name cur before part w)
  unfolding last_part
  last_part-Falls n (some stat) name cur before part w = stat_turn-Falls n cur before part _ _
  last_part-Falls n none name cur before part w = last_turn-Falls n name cur before part _ _

  here-finished :
      (stat : Option (File → Bytes → W → Io FileInfo × W)) (name : Bytes) (cur : File) (w : W)
      → is_finished (here h q stat name cur w).0 ≡ true
  unfolding here
  here-finished (some stat) name cur w = informed_or-finished _
  here-finished none name cur w = opened_or-finished _ _

  entered-Falls :
      (n : ℕ) (descend : File → W → Turn × W) (cur : File) (before : List Bytes) (part : Bytes)
      (rest : List (Move × Bytes)) (r : Io ℕ) (w : W)
      → ((file : File) (w : W) → FallsIn n (descend file w))
      → FallsIn n (entered h q descend cur before part rest r w)
  unfolding entered
  entered-Falls n descend cur before part rest (failed error) w deeper =
      follow_link-Falls n cur before part rest error w
  entered-Falls n descend cur before part rest (done k) w deeper = deeper _ _

  pub walk_parts-Falls :
      (n : ℕ) (name : Bytes) (cur : File) (before : List Bytes) (parts : List (Move × Bytes))
      (w : W)
      → ups (parts_of parts) ≤ n
      → All Single before
      → All Moved parts
      → FallsIn n (walk_parts h q name cur before parts w)
  unfolding walk_parts parts_of
  walk_parts-Falls n name cur before [] w few single moved = here-finished q.stat_leaf name cur w
  walk_parts-Falls n name cur before ((stay, part) ∷ rest) w few single ((plain, named), moved) =
      walk_parts-Falls n name cur (before ++ (part ∷ [])) rest w (ground arith)
        (All-append Single before (part ∷ []) single ((plain, named), tt)) moved
  walk_parts-Falls n name cur before ((up, part) ∷ rest) w few single ((plain, named), moved) =
      Falls-weaken (suc (ups (parts_of rest))) n (parent_turn before rest) (ground arith)
        (parent_turn-Falls before rest single moved)
  walk_parts-Falls n name cur before ((down, part) ∷ []) w few single moved =
      last_part-Falls n q.stat_leaf name cur before part w
  walk_parts-Falls n name cur before ((down, part) ∷ next ∷ rest) w few single
        ((plain, named), moved) =
      entered-Falls n _ cur before part (next ∷ rest) _ _ (λ file w.
        walk_parts-Falls n name file (before ++ (part ∷ [])) (next ∷ rest) w (ground arith)
          (All-append Single before (part ∷ []) single ((plain, named), tt)) moved)
