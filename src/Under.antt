-- ===== src/Under.antt =====
-- Opening a guest path of Preview 2 below a directory (p2/path.go and p2/path_linux.go): openat2, or
-- a walk that starts again from the directory at every parent step and at every link.
pub mod Confined
mod Names
pub mod Falls
pub mod Ends
use wasi.Prelude.{
  ℕ, zero, suc, Bool, true, false, not, ◌&&◌, ◌||◌, Option, none, some, List, [], ◌∷◌, ◌++◌,
  bit_and, bit_or, ◌==◌, leb, length, if◌then◌else◌,
}
use wasi.Abi.Errno.{Error, is, eperm, einval, eloop, enoent, enametoolong, enosys, e2big, exdev}
use wasi.Abi.Filetype.{FileMode}
use wasi.Host.{Bytes, Io, done, failed, FileInfo, Host}
use wasi.Host.Linux.{o_creat, o_excl, o_nofollow, o_cloexec, o_path, secure_resolve}
use wasi.Paths.{Move, stay, up, down, bytes_eq, dot, split, starts_with_slash}
use wasi.Text.Clean.{clean, dir, join}
use wasi.Walk.{leaf_flags, directory_flags, moves_with, falls_back}

-- An *os.File: its descriptor and its Name().
pub record File : Type 0 where
  pub fd : ℕ
  pub name : Bytes

-- A pathWalkResult, or the error beside it. `unfinished` is no result of the code: the rounds that
-- the walk was given were not enough.
pub data Walked : Type 0 where
  opened : File → Walked
  informed : FileInfo → Walked
  refused : Error → Walked
  unfinished : Walked

-- What one pass over the parts comes to: a result, or `continue resolve` with a new name, behind a
-- parent step or behind a link.
pub data Turn : Type 0 where
  ended : Walked → Turn
  restart : Bytes → Turn
  expanded : Bytes → Turn

unfoldable pub descriptor_file_name : File → Bytes → Bytes
descriptor_file_name base name = if bytes_eq name dot then base.name else base.name ++ (47 ∷ name)

unfoldable pub has_zero : Bytes → Bool
has_zero [] = false
has_zero (c ∷ s) = (c == 0) || has_zero s

-- strings.Join(parts, "/") of the parts, without what moves they make.
unfoldable pub parts_of : List (Move × Bytes) → List Bytes
parts_of [] = []
parts_of ((move, part) ∷ parts) = part ∷ parts_of parts

-- The name behind a parent step: the first parts lose their last one.
unfoldable pub parent_turn : List Bytes → List (Move × Bytes) → Turn
parent_turn before rest =
    let prefix = clean (join before) in
    if bytes_eq prefix dot
    then ended (refused (eperm ∷ []))
    else restart (dir prefix ++ (47 ∷ join (parts_of rest)))

unfoldable pub with_rest : Bytes → List (Move × Bytes) → Bytes
with_rest name [] = name
with_rest name (part ∷ rest) = name ++ (47 ∷ join (parts_of (part ∷ rest)))

-- What readlink gave.
unfoldable pub link_turn : List Bytes → List (Move × Bytes) → Error → Io Bytes → Turn
link_turn before rest open_error (failed error) =
    ended (refused (if is error eperm then error else open_error))
link_turn before rest open_error (done target) =
    if length target == 4096
    then ended (refused (enametoolong ∷ []))
    else if starts_with_slash target
    then ended (refused (eperm ∷ []))
    else if bytes_eq target []
    then ended (refused (enoent ∷ []))
    else expanded (with_rest (clean (join before) ++ (47 ∷ target)) rest)

unfoldable pub is_last : List (Move × Bytes) → Bool
is_last [] = true
is_last (part ∷ rest) = false

unfoldable pub exclusive : ℕ → Bool
exclusive flags = bit_and flags (bit_or o_creat o_excl) == bit_or o_creat o_excl

unfoldable pub informed_or : Io FileInfo → Walked
informed_or (done info) = informed info
informed_or (failed error) = refused error

unfoldable pub opened_or : Bytes → Io ℕ → Walked
opened_or name (done k) = opened (record { fd = k; name = name })
opened_or name (failed error) = refused error

-- The arguments of walkUnder but for the name, which changes.
pub record Request (W : Type 0) : Type 0 where
  pub base : File
  pub flags : ℕ
  pub mode : ℕ
  pub follow : Bool
  pub stat_leaf : Option (File → Bytes → W → Io FileInfo × W)

module _ {W : Type 0} (h : Host W) where
  unfoldable pub shut : File → W → W
  shut file w = (h.close file.fd w).1

  -- A part that did not open as itself: a link is expanded.
  unfoldable pub follow_link :
      Request W → File → List Bytes → Bytes → List (Move × Bytes) → Error → W → Turn × W
  follow_link q cur before part rest open_error w =
      if is_last rest && (not q.follow || exclusive q.flags)
      then (ended (refused open_error), shut cur w)
      else let (r, w1) = h.readlinkat cur.fd part 4096 w in
        (link_turn before rest open_error r, shut cur w1)

  -- A metadata handle of the last part, after its Stat.
  unfoldable pub metadata_turn :
      Request W → File → List Bytes → Bytes → File → Io FileInfo → W → Turn × W
  metadata_turn q cur before part next (failed error) w =
      (ended (refused error), shut cur (shut next w))
  metadata_turn q cur before part next (done info) w =
      if info.mode.symlink
      then follow_link q cur before part [] (eloop ∷ []) (shut next w)
      else (ended (opened next), shut cur w)

  unfoldable pub opened_turn : Request W → File → List Bytes → Bytes → File → W → Turn × W
  opened_turn q cur before part next w =
      if q.follow && not (bit_and q.flags o_path == 0)
      then (let (r, w1) = h.stat next.fd w in metadata_turn q cur before part next r w1)
      else (ended (opened next), shut cur w)

  unfoldable pub last_turn : Request W → Bytes → File → List Bytes → Bytes → Io ℕ → W → Turn × W
  last_turn q name cur before part (failed error) w = follow_link q cur before part [] error w
  last_turn q name cur before part (done k) w =
      opened_turn q cur before part (record { fd = k; name = descriptor_file_name q.base name }) w

  unfoldable pub stat_turn : Request W → File → List Bytes → Bytes → Io FileInfo → W → Turn × W
  stat_turn q cur before part (failed error) w = (ended (refused error), shut cur w)
  stat_turn q cur before part (done info) w =
      if not q.follow || not info.mode.symlink
      then (ended (informed info), shut cur w)
      else follow_link q cur before part [] (eloop ∷ []) w

  -- The last part, by `stat_leaf` where there is one.
  unfoldable pub last_part :
      Request W
      → Option (File → Bytes → W → Io FileInfo × W)
      → Bytes
      → File
      → List Bytes
      → Bytes
      → W
      → Turn × W
  last_part q (some stat) name cur before part w =
      let (r, w1) = stat cur part w in stat_turn q cur before part r w1
  last_part q none name cur before part w =
      let (r, w1) = h.openat cur.fd part (leaf_flags q.flags) q.mode w in
      last_turn q name cur before part r w1

  -- The end of the parts: the directory itself.
  unfoldable pub here :
      Request W → Option (File → Bytes → W → Io FileInfo × W) → Bytes → File → W → Walked × W
  here q (some stat) name cur w = let (r, w1) = stat cur dot w in (informed_or r, shut cur w1)
  here q none name cur w =
      let (r, w1) = h.openat cur.fd dot (leaf_flags q.flags) q.mode w in
      let file_name =
        if bytes_eq (clean name) dot then q.base.name else descriptor_file_name q.base name in
      (opened_or file_name r, shut cur w1)

  -- A directory on the way: `descend` goes on below it.
  unfoldable pub entered :
      Request W
      → (File → W → Turn × W)
      → File
      → List Bytes
      → Bytes
      → List (Move × Bytes)
      → Io ℕ
      → W
      → Turn × W
  entered q descend cur before part rest (failed error) w =
      follow_link q cur before part rest error w
  entered q descend cur before part rest (done k) w =
      descend (record { fd = k; name = part }) (shut cur w)

  -- The loop over the parts, from the directory `cur`, which the parts `before` have led to.
  unfoldable pub walk_parts :
      Request W → Bytes → File → List Bytes → List (Move × Bytes) → W → Turn × W
  walk_parts q name cur before [] w = let (r, w1) = here q q.stat_leaf name cur w in (ended r, w1)
  walk_parts q name cur before ((stay, part) ∷ rest) w =
      walk_parts q name cur (before ++ (part ∷ [])) rest w
  walk_parts q name cur before ((up, part) ∷ rest) w = (parent_turn before rest, shut cur w)
  walk_parts q name cur before ((down, part) ∷ []) w =
      last_part q q.stat_leaf name cur before part w
  walk_parts q name cur before ((down, part) ∷ next ∷ rest) w =
      let (r, w1) = h.openat cur.fd part directory_flags 0 w in
      entered q (λ file. walk_parts q name file (before ++ (part ∷ [])) (next ∷ rest)) cur before
        part (next ∷ rest) r w1

  -- The end of a pass: `again` resolves a new name, with the links that may still be followed.
  unfoldable pub resolve : (ℕ → Bytes → W → Walked × W) → ℕ → Turn × W → Walked × W
  resolve again left (ended walked, w) = (walked, w)
  resolve again left (restart name, w) = again left name w
  resolve again zero (expanded name, w) = (refused (eloop ∷ []), w)
  resolve again (suc left) (expanded name, w) = again left name w

  unfoldable pub walk_from :
      Request W → (ℕ → Bytes → W → Walked × W) → ℕ → Bytes → Io ℕ → W → Walked × W
  walk_from q again left name (failed error) w = (refused error, w)
  walk_from q again left name (done k) w =
      let cur : File = record { fd = k; name = q.base.name } in
      resolve again left (walk_parts q name cur [] (moves_with (split name)) w)

  -- `left` counts the links that may still be followed; `rounds` bounds the passes.
  unfoldable pub walk_rounds : Request W → ℕ → ℕ → Bytes → W → Walked × W
  walk_rounds q zero left name w = (unfinished, w)
  walk_rounds q (suc rounds) left name w =
      let (r, w1) = h.dup q.base.fd w in walk_from q (walk_rounds q rounds) left name r w1

  unfoldable pub walk_under : ℕ → Request W → Bytes → W → Walked × W
  walk_under rounds q name w = walk_rounds q rounds 40 name w

  unfoldable pub open_under_walk : ℕ → File → Bytes → ℕ → ℕ → Bool → W → Walked × W
  open_under_walk rounds base name flags mode follow w =
      walk_under rounds
        (record { base = base; flags = flags; mode = mode; follow = follow; stat_leaf = none }) name
        w

  unfoldable pub after_openat2 : ℕ → File → Bytes → ℕ → ℕ → Bool → Io ℕ → W → Walked × W
  after_openat2 rounds base name flags mode follow (done k) w =
      (opened (record { fd = k; name = descriptor_file_name base name }), w)
  after_openat2 rounds base name flags mode follow (failed error) w =
      if falls_back error
      then open_under_walk rounds base name flags mode follow w
      else (refused (if is error exdev then eperm ∷ [] else error), w)

  unfoldable pub platform_open_under_path_flags : ℕ → File → Bytes → ℕ → ℕ → Bool → W → Walked × W
  platform_open_under_path_flags rounds base name flags mode follow w =
      let flags' = if follow then flags else bit_or flags o_nofollow in
      let mode' = if bit_and flags' o_creat == 0 then 0 else mode in
      let (r, w1) = h.openat2 base.fd name (bit_or flags' o_cloexec) mode' secure_resolve w in
      after_openat2 rounds base name flags' mode' follow r w1

  unfoldable pub open_under_path_flags : ℕ → File → Bytes → ℕ → ℕ → ℕ → W → Walked × W
  open_under_path_flags rounds base name flags mode path_flags w =
      if not (leb path_flags 1)
      then (refused (einval ∷ []), w)
      else if has_zero name || starts_with_slash name
      then (refused (eperm ∷ []), w)
      else platform_open_under_path_flags rounds base (if bytes_eq name [] then dot else name) flags
          mode (path_flags == 1) w
