-- ===== src/Walk/Confined.antt =====
-- Where `openAt` of internal/core/fs_linux.go can lead: by the kernel's RESOLVE_BENEATH, or by the
-- walk that hands the host one name at a time.
use wasi.Prelude.{
  ℕ, zero, suc, ◌≡◌, refl, subst, ap, Bool, false, List, [], ◌∷◌, All, ◌==◌, if◌then◌else◌, bit_or,
  bit_and, arith,
}
use wasi.Abi.Errno.{Error}
use wasi.Host.{Bytes, Host, Io, done, failed}
use wasi.Host.Linux.{o_rdonly, o_directory, o_creat, o_cloexec, secure_resolve}
use wasi.Memory.{Mem}
use wasi.Table.{FsState}
use wasi.Paths.{Move, stay, up, down, move_of, split, bytes_eq, dot, dot_dot}
use wasi.Exec.{Plugin, Machine, Exec, ok, host}
use wasi.Exec.Keeps.{Keeps}
use wasi.Exec.Gives.{
  Gives, Value, Right, Gives-pure, Gives-fail, Gives-if, Gives-then, Gives-next, Gives-lift,
  Gives-bind-Gives,
}
use wasi.Fd.Entry.{io_code}
use wasi.Paths.Split.{has_slash, split-All}
use wasi.Walk.{
  capability_code, leaf_flags, directory_flags, moves_with, on_io, closing, open_leaf,
  after_readlink, open_last, walk_loop, open_at_walk_fd, open_at_walk, open_at,
}

-- One name of a directory: no slash in it, and not "..".
abbrev pub Single : Bytes → Type 0
Single name = (has_slash name ≡ false) × (bytes_eq name dot_dot ≡ false)

pub dot-Single : Single dot
unfolding bytes_eq has_slash
dot-Single = (refl, refl)

-- What the walk relies on of the host, for a set of descriptors: the files of a directory tree. A
-- copy of a descriptor is in it, and so is what openat opens at a single name that it does not
-- follow, and what openat2 opens at any path under RESOLVE_BENEATH.
pub record Confining {W : Type 0} (h : Host W) (Inside : ℕ → Type 0) : Type 0 where
  pub dup : (fd k : ℕ) (w w' : W) → Inside fd → h.dup fd w ≡ (done k, w') → Inside k
  pub openat :
      (fd k : ℕ) (name : Bytes) (flags mode : ℕ) (w w' : W)
      → Inside fd
      → Single name
      → h.openat fd name (leaf_flags flags) mode w ≡ (done k, w')
      → Inside k
  pub openat2 :
      (fd k : ℕ) (name : Bytes) (flags mode : ℕ) (w w' : W)
      → Inside fd
      → h.openat2 fd name flags mode secure_resolve w ≡ (done k, w')
      → Inside k

-- A part and what it does to the depth, as the walk meets them.
abbrev pub Part : Move × Bytes → Type 0
Part (m, part) = (has_slash part ≡ false) × (m ≡ down → bytes_eq part dot_dot ≡ false)

move_of-down : (part : Bytes) → move_of part ≡ down → bytes_eq part dot_dot ≡ false
unfolding move_of
move_of-down part h = ground arith

pub moves_with-All :
    (parts : List Bytes) → All (λ part. has_slash part ≡ false) parts → All Part (moves_with parts)
unfolding moves_with
moves_with-All [] plain = tt
moves_with-All (part ∷ parts) (plain, rest) =
    ((plain, move_of-down part), moves_with-All parts rest)

-- Nothing is asked of the table or of the memory.
abbrev Anything : FsState → Mem → Type 0
Anything fs mem = Unit

anything : {W A : Type 0} (m : Exec W A) → Keeps Anything m
anything m = record { at = λ s h. tt }

-- A property of the value, where the host's call succeeded.
abbrev pub Fine : {A : Type 0} → (A → Type 0) → Io A → Type 0
Fine P (done a) = P a
Fine P (failed error) = Unit

module _ {A : Type 0} (P : A → Type 0) where
  capability_code-Right : (r : Io A) → Fine P r → Right P (capability_code r)
  unfolding capability_code
  capability_code-Right (done a) p = p
  capability_code-Right (failed error) p = tt

  io_code-Right : (r : Io A) → Fine P r → Right P (io_code r)
  unfolding io_code
  io_code-Right (done a) p = p
  io_code-Right (failed error) p = tt

module _ {W A : Type 0} (P : A → Type 0) where
  host-Gives : (call : W → A × W) → ((w : W) → P (call w).0) → Gives Anything P (host call)
  unfolding host
  host-Gives call p = record { at = λ s h. (tt, p s.world) }

  closing-Gives :
      (e : Plugin W) (fds : List ℕ) (m : Exec W A)
      → Gives Anything P m
      → Gives Anything P (closing e fds m)
  unfolding closing
  closing-Gives e fds m g = record { at = λ s h. (tt, (g.at s tt).1) }

  -- What holds of a value that the host may have given holds of the value that it gave.
  pub Fine-of :
      (call : W → Io A × W)
      → ((a : A) (w w' : W) → call w ≡ (done a, w') → P a)
      → (w : W) → Fine P (call w).0
  Fine-of call p w = by_result (call w).0 (call w).1 refl
    where
      by_result : (r : Io A) (w' : W) → call w ≡ (r, w') → Fine P r
      by_result (done a) w' given = p a w w' given
      by_result (failed error) w' given = tt

module _ {W A B : Type 0} {P : A → Type 0} {R : B → Type 0} where
  on_io-Gives :
      (r : Io A) (n : Error → Exec W B) (f : A → Exec W B)
      → Fine P r
      → ((error : Error) → Gives Anything R (n error))
      → ((a : A) → P a → Gives Anything R (f a))
      → Gives Anything R (on_io r n f)
  unfolding on_io
  on_io-Gives (done a) n f p gn gf = gf a p
  on_io-Gives (failed error) n f p gn gf = gn error

module _ {W : Type 0} (e : Plugin W) (Inside : ℕ → Type 0)
    (confining : Confining e.host Inside) where
  open_leaf-Gives :
      (cur : ℕ) (part : Bytes) (flags mode : ℕ)
      → Inside cur
      → Single part
      → Gives Anything Inside (open_leaf e cur part flags mode)
  unfolding open_leaf
  open_leaf-Gives cur part flags mode inside single =
      Gives-bind-Gives _ _
        (host-Gives (Fine Inside) (e.host.openat cur part (leaf_flags flags) mode) (
          Fine-of Inside (e.host.openat cur part (leaf_flags flags) mode)
            (λ k w w'. confining.openat cur k part flags mode w w' inside single)))
        (λ r fine. Gives-lift _ (capability_code-Right Inside r fine))

  module _ (follow : ℕ → Bytes → Exec W ℕ)
      (followed : (fd : ℕ) (target : Bytes)
        → Inside fd
        → Gives Anything Inside (follow fd target)) where
    after_readlink-Gives :
        (cur : ℕ) (r : Io Bytes) (otherwise : Exec W ℕ)
        → Inside cur
        → Gives Anything Inside otherwise
        → Gives Anything Inside (after_readlink e (follow cur) r otherwise)
    unfolding after_readlink
    after_readlink-Gives cur (done target) otherwise inside go =
        Gives-if _ _ _ (Gives-fail _) (followed cur target inside)
    after_readlink-Gives cur (failed error) otherwise inside go = Gives-if _ _ _ (Gives-fail _) go

    open_last-Gives :
        (cur : ℕ) (part : Bytes) (flags mode : ℕ)
        → Inside cur
        → Single part
        → Gives Anything Inside (open_last e follow cur part flags mode)
    unfolding open_last
    open_last-Gives cur part flags mode inside single =
        let leaf = open_leaf-Gives cur part flags mode inside single in
        Gives-if _ _ _ (Gives-then _ _ (anything _) (λ r. after_readlink-Gives cur r _ inside leaf))
          leaf

    walk_loop-Gives :
        (flags mode : ℕ) (retain : Bool) (cur : ℕ) (parents : List ℕ) (parts : List (Move × Bytes))
        → Inside cur
        → All Inside parents
        → All Part parts
        → Gives Anything Inside (walk_loop e follow flags mode retain cur parents parts)
    unfolding walk_loop
    walk_loop-Gives flags mode retain cur parents [] inside above plain =
        closing-Gives Inside e _ _ (open_leaf-Gives cur dot flags mode inside dot-Single)
    walk_loop-Gives flags mode retain cur parents ((stay, part) ∷ parts) inside above
          (here, plain) =
        walk_loop-Gives flags mode retain cur parents parts inside above plain
    walk_loop-Gives flags mode retain cur [] ((up, part) ∷ parts) inside above plain =
        closing-Gives Inside e _ _ (Gives-fail _)
    walk_loop-Gives flags mode retain cur (parent ∷ parents) ((up, part) ∷ parts) inside
          (next_inside, above) (here, plain) =
        Gives-next _ _ (anything _)
          (walk_loop-Gives flags mode retain parent parents parts next_inside above plain)
    walk_loop-Gives flags mode retain cur parents ((down, part) ∷ []) inside above
          ((here, named), plain) =
        closing-Gives Inside e _ _ (open_last-Gives cur part flags mode inside (here, named refl))
    walk_loop-Gives flags mode retain cur parents ((down, part) ∷ next ∷ parts) inside above
          ((here, named), plain) =
        Gives-if _ _ _ (closing-Gives Inside e _ _ (Gives-fail _)) (
          Gives-bind-Gives _ _
            (host-Gives (Fine Inside) (e.host.openat cur part directory_flags 0) (
              Fine-of Inside (e.host.openat cur part directory_flags 0) (λ k w w'.
                confining.openat cur k part (bit_or o_rdonly o_directory) 0 w w' inside
                  (here, named refl))))
            (λ r fine.
              on_io-Gives r _ _ fine (λ error. closing-Gives Inside e _ _ (Gives-fail _))
                (λ child child_inside.
                  Gives-if _ _ _
                    (walk_loop-Gives flags mode retain child (cur ∷ parents) (next ∷ parts)
                      child_inside (inside, above) plain)
                    (Gives-next _ _ (anything _) (
                      walk_loop-Gives flags mode retain child parents (next ∷ parts) child_inside
                        above plain)))))

  open_at_walk_fd-Gives :
      (left root : ℕ) (name : Bytes) (flags mode : ℕ)
      → Inside root
      → Gives Anything Inside (open_at_walk_fd e left root name flags mode)
  unfolding open_at_walk_fd
  open_at_walk_fd-Gives zero root name flags mode inside = Gives-fail _
  open_at_walk_fd-Gives (suc left) root name flags mode inside = Gives-next _ _ (anything _) (
      Gives-bind-Gives _ _
        (host-Gives (Fine Inside) (e.host.dup root)
          (Fine-of Inside (e.host.dup root) (λ k w w'. confining.dup root k w w' inside)))
        (λ r fine.
          Gives-bind-Gives _ _ (Gives-lift _ (io_code-Right Inside r fine)) (λ cur cur_inside.
            walk_loop-Gives _ (λ fd target. open_at_walk_fd-Gives left fd target flags mode) flags
              mode _ cur [] (moves_with (split name)) cur_inside tt
              (moves_with-All (split name) (split-All name)))))

  open_at-Gives :
      (root : ℕ) (name : Bytes) (flags mode : ℕ)
      → Inside root
      → Gives Anything Inside (open_at e root name flags mode)
  unfolding open_at open_at_walk
  open_at-Gives root name flags mode inside =
      let mode' = if bit_and flags o_creat == 0 then 0 else mode in
      let flags' = bit_or flags o_cloexec in
      Gives-bind-Gives _ _
        (host-Gives (Fine Inside) (e.host.openat2 root name flags' mode' secure_resolve) (
          Fine-of Inside (e.host.openat2 root name flags' mode' secure_resolve)
            (λ k w w'. confining.openat2 root k name flags' mode' w w' inside)))
        (λ r fine.
          on_io-Gives r _ _ fine
            (λ error.
              Gives-if _ _ _ (open_at_walk_fd-Gives 41 root name flags mode' inside) (Gives-fail _))
            (λ k k_inside. Gives-pure k k_inside))

  -- Whatever path, flags and links: a descriptor that `open_at` returns for a directory inside a
  -- tree is inside the tree, on a host whose single steps stay there.
  pub open_at-Inside :
      (root : ℕ) (name : Bytes) (flags mode : ℕ) (s s' : Machine W) (k : ℕ)
      → Inside root
      → open_at e root name flags mode s ≡ (ok k, s')
      → Inside k
  open_at-Inside root name flags mode s s' k inside opened =
      subst (Value Inside) (ap (λ r. r.0) opened)
        ((open_at-Gives root name flags mode inside).at s tt).1
