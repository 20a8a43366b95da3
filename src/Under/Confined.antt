-- ===== src/Under/Confined.antt =====
-- Where `openUnderPathFlags` of p2/path.go can lead: by the kernel's RESOLVE_BENEATH, or by the walk
-- that hands the host one name at a time, from a directory that it has opened itself.
use wasi.Prelude.{
  ℕ, zero, suc, ◌≡◌, refl, subst, ap, Bool, Option, none, some, List, [], ◌∷◌, ◌++◌, All, ◌==◌,
  if◌then◌else◌, bit_or, bit_and, arith,
}
use wasi.Abi.Errno.{Error, eloop}
use wasi.Host.{Bytes, Host, Io, done, failed, FileInfo}
use wasi.Host.Linux.{o_rdonly, o_directory, o_creat, o_nofollow, o_cloexec, secure_resolve}
use wasi.Paths.{Move, stay, up, down, split, bytes_eq, dot}
use wasi.Walk.{leaf_flags, moves_with}
use wasi.Walk.Confined.{Confining, Fine, Fine-of, Single, dot-Single, Part, moves_with-All}
use wasi.Paths.Split.{split-All}
use wasi.Under.{
  File, Walked, opened, informed, refused, unfinished, Turn, ended, restart, expanded, Request,
  parent_turn, link_turn, informed_or, opened_or, shut, follow_link, metadata_turn, opened_turn,
  last_turn, stat_turn, last_part, here, entered, walk_parts, resolve, walk_from, walk_rounds,
  walk_under, open_under_walk, after_openat2, platform_open_under_path_flags, open_under_path_flags,
}

module _ (Inside : ℕ → Type 0) (Described : FileInfo → Type 0) where
  -- What a result says: its file is inside, or its description is of a file that is.
  abbrev pub Within : Walked → Type 0
  Within (opened file) = Inside file.fd
  Within (informed info) = Described info
  Within (refused error) = Unit
  Within unfinished = Unit

  abbrev WithinTurn : Turn → Type 0
  WithinTurn (ended walked) = Within walked
  WithinTurn (restart name) = Unit
  WithinTurn (expanded name) = Unit

  abbrev Vouched : {W : Type 0} → Option (File → Bytes → W → Io FileInfo × W) → Type 0
  Vouched none = Unit
  Vouched {W} (some stat) =
      (cur : File) (name : Bytes) (w : W)
      → Inside cur.fd
      → Single name
      → Fine Described (stat cur name w).0

  link_turn-Within :
      (before : List Bytes) (rest : List (Move × Bytes)) (error : Error) (r : Io Bytes)
      → WithinTurn (link_turn before rest error r)
  unfolding link_turn
  link_turn-Within before rest error (failed e) = tt
  link_turn-Within before rest error (done target) = ground arith

  parent_turn-Within :
      (before : List Bytes) (rest : List (Move × Bytes)) → WithinTurn (parent_turn before rest)
  unfolding parent_turn
  parent_turn-Within before rest = ground arith

  module _ {W : Type 0} (h : Host W) (confining : Confining h Inside) (q : Request W) where
    abbrev Kept : Turn × W → Type 0
    Kept (turn, w) = WithinTurn turn

    openat-Fine :
        (cur : File) (part : Bytes) (flags mode : ℕ) (w : W)
        → Inside cur.fd
        → Single part
        → Fine Inside (h.openat cur.fd part (leaf_flags flags) mode w).0
    openat-Fine cur part flags mode w inside single =
        Fine-of Inside (h.openat cur.fd part (leaf_flags flags) mode)
          (λ k w w'. confining.openat cur.fd k part flags mode w w' inside single) w

    follow_link-Within :
        (cur : File) (before : List Bytes) (part : Bytes) (rest : List (Move × Bytes))
        (error : Error) (w : W)
        → Kept (follow_link h q cur before part rest error w)
    unfolding follow_link
    follow_link-Within cur before part rest error w =
        ground (arith, link_turn-Within before rest error (h.readlinkat cur.fd part 4096 w).0)

    metadata_turn-Within :
        (cur : File) (before : List Bytes) (part : Bytes) (next : File) (r : Io FileInfo) (w : W)
        → Inside next.fd
        → Kept (metadata_turn h q cur before part next r w)
    unfolding metadata_turn
    metadata_turn-Within cur before part next (failed error) w inside = tt
    metadata_turn-Within cur before part next (done info) w inside =
        ground (arith, follow_link-Within cur before part [] (eloop ∷ []) (shut h next w))

    opened_turn-Within :
        (cur : File) (before : List Bytes) (part : Bytes) (next : File) (w : W)
        → Inside next.fd
        → Kept (opened_turn h q cur before part next w)
    unfolding opened_turn
    opened_turn-Within cur before part next w inside = ground (
      arith,
      metadata_turn-Within cur before part next (h.stat next.fd w).0 (h.stat next.fd w).1 inside,
    )

    last_turn-Within :
        (name : Bytes) (cur : File) (before : List Bytes) (part : Bytes) (r : Io ℕ) (w : W)
        → Fine Inside r
        → Kept (last_turn h q name cur before part r w)
    unfolding last_turn
    last_turn-Within name cur before part (failed error) w fine =
        follow_link-Within cur before part [] error w
    last_turn-Within name cur before part (done k) w fine =
        opened_turn-Within cur before part _ w fine

    stat_turn-Within :
        (cur : File) (before : List Bytes) (part : Bytes) (r : Io FileInfo) (w : W)
        → Fine Described r
        → Kept (stat_turn h q cur before part r w)
    unfolding stat_turn
    stat_turn-Within cur before part (failed error) w fine = tt
    stat_turn-Within cur before part (done info) w fine =
        ground (arith, follow_link-Within cur before part [] (eloop ∷ []) w)

    last_part-Within :
        (stat : Option (File → Bytes → W → Io FileInfo × W)) (name : Bytes) (cur : File)
        (before : List Bytes) (part : Bytes) (w : W)
        → Vouched stat
        → Inside cur.fd
        → Single part
        → Kept (last_part h q stat name cur before part w)
    unfolding last_part
    last_part-Within (some stat) name cur before part w vouched inside single =
        stat_turn-Within cur before part _ _ (vouched cur part w inside single)
    last_part-Within none name cur before part w vouched inside single =
        last_turn-Within name cur before part _ _ (openat-Fine cur part _ _ w inside single)

    informed_or-Within : (r : Io FileInfo) → Fine Described r → Within (informed_or r)
    unfolding informed_or
    informed_or-Within (done info) fine = fine
    informed_or-Within (failed error) fine = tt

    opened_or-Within : (name : Bytes) (r : Io ℕ) → Fine Inside r → Within (opened_or name r)
    unfolding opened_or
    opened_or-Within name (done k) fine = fine
    opened_or-Within name (failed error) fine = tt

    here-Within :
        (stat : Option (File → Bytes → W → Io FileInfo × W)) (name : Bytes) (cur : File) (w : W)
        → Vouched stat
        → Inside cur.fd
        → Within (here h q stat name cur w).0
    unfolding here
    here-Within (some stat) name cur w vouched inside =
        informed_or-Within _ (vouched cur dot w inside dot-Single)
    here-Within none name cur w vouched inside =
        opened_or-Within _ _ (openat-Fine cur dot _ _ w inside dot-Single)

    entered-Within :
        (descend : File → W → Turn × W) (cur : File) (before : List Bytes) (part : Bytes)
        (rest : List (Move × Bytes)) (r : Io ℕ) (w : W)
        → ((file : File) (w : W) → Inside file.fd → Kept (descend file w))
        → Fine Inside r
        → Kept (entered h q descend cur before part rest r w)
    unfolding entered
    entered-Within descend cur before part rest (failed error) w deeper fine =
        follow_link-Within cur before part rest error w
    entered-Within descend cur before part rest (done k) w deeper fine = deeper _ _ fine

    module _ (vouched : Vouched q.stat_leaf) where
      walk_parts-Within :
          (name : Bytes) (cur : File) (before : List Bytes) (parts : List (Move × Bytes)) (w : W)
          → Inside cur.fd
          → All Part parts
          → Kept (walk_parts h q name cur before parts w)
      unfolding walk_parts
      walk_parts-Within name cur before [] w inside plain =
          here-Within q.stat_leaf name cur w vouched inside
      walk_parts-Within name cur before ((stay, part) ∷ rest) w inside (now, plain) =
          walk_parts-Within name cur (before ++ (part ∷ [])) rest w inside plain
      walk_parts-Within name cur before ((up, part) ∷ rest) w inside plain =
          parent_turn-Within before rest
      walk_parts-Within name cur before ((down, part) ∷ []) w inside ((now, named), plain) =
          last_part-Within q.stat_leaf name cur before part w vouched inside (now, named refl)
      walk_parts-Within name cur before ((down, part) ∷ next ∷ rest) w inside
            ((now, named), plain) =
          entered-Within _ cur before part (next ∷ rest) _ _
            (λ file w within.
              walk_parts-Within name file (before ++ (part ∷ [])) (next ∷ rest) w within plain)
            (openat-Fine cur part (bit_or o_rdonly o_directory) 0 w inside (now, named refl))

      resolve-Within :
          (again : ℕ → Bytes → W → Walked × W) (left : ℕ) (end : Turn × W)
          → ((left : ℕ) (name : Bytes) (w : W) → Within (again left name w).0)
          → Kept end
          → Within (resolve h again left end).0
      unfolding resolve
      resolve-Within again left (ended walked, w) later kept = kept
      resolve-Within again left (restart name, w) later kept = later left name w
      resolve-Within again zero (expanded name, w) later kept = tt
      resolve-Within again (suc left) (expanded name, w) later kept = later left name w

      walk_from-Within :
          (again : ℕ → Bytes → W → Walked × W) (left : ℕ) (name : Bytes) (r : Io ℕ) (w : W)
          → ((left : ℕ) (name : Bytes) (w : W) → Within (again left name w).0)
          → Fine Inside r
          → Within (walk_from h q again left name r w).0
      unfolding walk_from
      walk_from-Within again left name (failed error) w later fine = tt
      walk_from-Within again left name (done k) w later fine = resolve-Within again left _ later (
          walk_parts-Within name _ [] (moves_with (split name)) w fine
            (moves_with-All (split name) (split-All name)))

      walk_rounds-Within :
          Inside q.base.fd
          → (rounds left : ℕ) (name : Bytes) (w : W) → Within (walk_rounds h q rounds left name w).0
      unfolding walk_rounds
      walk_rounds-Within inside zero left name w = tt
      walk_rounds-Within inside (suc rounds) left name w =
          walk_from-Within (walk_rounds h q rounds) left name _ _ (walk_rounds-Within inside rounds)
            (Fine-of Inside (h.dup q.base.fd) (λ k w w'. confining.dup q.base.fd k w w' inside) w)

module _ {W : Type 0} (h : Host W) (Inside : ℕ → Type 0) (confining : Confining h Inside) where
  abbrev WithinFile : Walked → Type 0
  WithinFile walked = Within Inside (λ info. Unit) walked

  module _ (rounds : ℕ) (base : File) (inside : Inside base.fd) where
    open_under_walk-Within :
        (name : Bytes) (flags mode : ℕ) (follow : Bool) (w : W)
        → WithinFile (open_under_walk h rounds base name flags mode follow w).0
    unfolding open_under_walk walk_under
    open_under_walk-Within name flags mode follow w =
        walk_rounds-Within Inside (λ info. Unit) h confining _ tt inside rounds 40 name w

    after_openat2-Within :
        (name : Bytes) (flags mode : ℕ) (follow : Bool) (r : Io ℕ) (w : W)
        → Fine Inside r
        → WithinFile (after_openat2 h rounds base name flags mode follow r w).0
    unfolding after_openat2
    after_openat2-Within name flags mode follow (done k) w fine = fine
    after_openat2-Within name flags mode follow (failed error) w fine =
        ground (arith, open_under_walk-Within name flags mode follow w)

    platform_open_under_path_flags-Within :
        (name : Bytes) (flags mode : ℕ) (follow : Bool) (w : W)
        → WithinFile (platform_open_under_path_flags h rounds base name flags mode follow w).0
    unfolding platform_open_under_path_flags
    platform_open_under_path_flags-Within name flags mode follow w =
        let flags' = if follow then flags else bit_or flags o_nofollow in
        let mode' = if bit_and flags' o_creat == 0 then 0 else mode in
        after_openat2-Within name flags' mode' follow _ _ (
          Fine-of Inside (h.openat2 base.fd name (bit_or flags' o_cloexec) mode' secure_resolve)
            (λ k w w'. confining.openat2 base.fd k name _ _ w w' inside) w)

    open_under_path_flags-Within :
        (name : Bytes) (flags mode path_flags : ℕ) (w : W)
        → WithinFile (open_under_path_flags h rounds base name flags mode path_flags w).0
    unfolding open_under_path_flags
    open_under_path_flags-Within name flags mode path_flags w =
        let name' = if bytes_eq name [] then dot else name in
        ground (arith, platform_open_under_path_flags-Within name' flags mode (path_flags == 1) w)

    -- Whatever path, flags, links and number of rounds: the file that openUnderPathFlags returns for
    -- a directory inside a tree is inside the tree, on a host whose single steps stay there.
    pub open_under_path_flags-Inside :
        (name : Bytes) (flags mode path_flags : ℕ) (w w' : W) (file : File)
        → open_under_path_flags h rounds base name flags mode path_flags w ≡ (opened file, w')
        → Inside file.fd
    open_under_path_flags-Inside name flags mode path_flags w w' file given =
        subst WithinFile (ap (λ r. r.0) given)
          (open_under_path_flags-Within name flags mode path_flags w)
