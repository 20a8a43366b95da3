-- ===== src/Sound/WalkRules.antt =====
-- Opening a path below a directory (`openAt` of internal/core/fs_linux.go) touches neither the
-- table nor the memory.
use wasi.Prelude.{ℕ, zero, suc, Bool, List, [], ◌∷◌}
use wasi.Abi.Errno.{Error}
use wasi.Host.{Bytes, Io, done, failed}
use wasi.Paths.{Move, stay, up, down}
use wasi.Exec.{Plugin, Exec}
use wasi.Exec.Keeps.{Keeps, Keeps-then}
use wasi.Sound.{Bounds, IsSound}
use wasi.Sound.Calls.{call_rules}
use wasi.Walk.{
  on_io, close_all_fds, closing, open_leaf, after_readlink, open_last, walk_loop, open_at_walk_fd,
  open_at_walk, open_at, open_metadata_at,
}

module _ {W : Type 0} {b : Bounds} {A B : Type 0} where
  on_io-IsSound :
      (r : Io A) (n : Error → Exec W B) (f : A → Exec W B)
      → ((error : Error) → Keeps (IsSound b) (n error))
      → ((a : A) → Keeps (IsSound b) (f a))
      → Keeps (IsSound b) (on_io r n f)
  unfolding on_io
  on_io-IsSound (done a) n f kn kf = kf a
  on_io-IsSound (failed error) n f kn kf = kn error

module _ {W : Type 0} (e : Plugin W) {b : Bounds} where
  close_all_fds-IsSound : (fds : List ℕ) → Keeps (IsSound b) (close_all_fds e fds)
  unfolding close_all_fds
  close_all_fds-IsSound [] = search call_rules
  close_all_fds-IsSound (fd ∷ fds) = Keeps-then _ _ (search call_rules) (close_all_fds-IsSound fds)

  pub closing-IsSound :
      {A : Type 0} (fds : List ℕ) (m : Exec W A)
      → Keeps (IsSound b) m
      → Keeps (IsSound b) (closing e fds m)
  unfolding closing
  closing-IsSound fds m km = record {
    at = λ s h. (close_all_fds-IsSound fds).at (m s).1 (km.at s h);
  }

  open_leaf-IsSound :
      (cur : ℕ) (part : Bytes) (flags mode : ℕ)
      → Keeps (IsSound b) (open_leaf e cur part flags mode)
  unfolding open_leaf
  open_leaf-IsSound cur part flags mode = search call_rules

  after_readlink-IsSound :
      (follow : Bytes → Exec W ℕ) (r : Io Bytes) (otherwise : Exec W ℕ)
      → ((target : Bytes) → Keeps (IsSound b) (follow target))
      → Keeps (IsSound b) otherwise
      → Keeps (IsSound b) (after_readlink e follow r otherwise)
  unfolding after_readlink
  after_readlink-IsSound follow (done target) otherwise kf ko = search call_rules
  after_readlink-IsSound follow (failed error) otherwise kf ko = search call_rules

  module _ (follow : ℕ → Bytes → Exec W ℕ)
      (kf : (fd : ℕ) (target : Bytes) → Keeps (IsSound b) (follow fd target)) where
    open_last-IsSound :
        (cur : ℕ) (part : Bytes) (flags mode : ℕ)
        → Keeps (IsSound b) (open_last e follow cur part flags mode)
    unfolding open_last
    open_last-IsSound cur part flags mode =
        search (call_rules, open_leaf-IsSound, after_readlink-IsSound) depth 20

    walk_loop-IsSound :
        (flags mode : ℕ) (retain : Bool) (cur : ℕ) (parents : List ℕ) (parts : List (Move × Bytes))
        → Keeps (IsSound b) (walk_loop e follow flags mode retain cur parents parts)
    unfolding walk_loop
    walk_loop-IsSound flags mode retain cur parents [] =
        closing-IsSound _ _ (open_leaf-IsSound cur _ flags mode)
    walk_loop-IsSound flags mode retain cur parents ((stay, part) ∷ parts) =
        walk_loop-IsSound flags mode retain cur parents parts
    walk_loop-IsSound flags mode retain cur [] ((up, part) ∷ parts) =
        search (call_rules, closing-IsSound)
    walk_loop-IsSound flags mode retain cur (parent ∷ parents) ((up, part) ∷ parts) =
        Keeps-then _ _ (search call_rules)
          (walk_loop-IsSound flags mode retain parent parents parts)
    walk_loop-IsSound flags mode retain cur parents ((down, part) ∷ []) =
        closing-IsSound _ _ (open_last-IsSound cur part flags mode)
    walk_loop-IsSound flags mode retain cur parents ((down, part) ∷ next ∷ parts) =
        search
          (
            call_rules,
            closing-IsSound,
            on_io-IsSound,
            λ (child : ℕ) (above : List ℕ).
                walk_loop-IsSound flags mode retain child above (next ∷ parts),
          )
          depth 20

  open_at_walk_fd-IsSound :
      (left root : ℕ) (name : Bytes) (flags mode : ℕ)
      → Keeps (IsSound b) (open_at_walk_fd e left root name flags mode)
  unfolding open_at_walk_fd
  open_at_walk_fd-IsSound zero root name flags mode = search call_rules
  open_at_walk_fd-IsSound (suc left) root name flags mode =
      search
        (
          call_rules,
          walk_loop-IsSound,
          λ (fd : ℕ) (target : Bytes). open_at_walk_fd-IsSound left fd target flags mode,
        )
        depth 20

  open_at_walk-IsSound :
      (root : ℕ) (name : Bytes) (flags mode : ℕ)
      → Keeps (IsSound b) (open_at_walk e root name flags mode)
  unfolding open_at_walk
  open_at_walk-IsSound root name flags mode = open_at_walk_fd-IsSound 41 root name flags mode

  pub open_at-IsSound :
      (root : ℕ) (name : Bytes) (flags mode : ℕ)
      → Keeps (IsSound b) (open_at e root name flags mode)
  unfolding open_at
  open_at-IsSound root name flags mode =
      search (call_rules, on_io-IsSound, open_at_walk-IsSound) depth 20

  pub open_metadata_at-IsSound :
      (root : ℕ) (name : Bytes) (follow : Bool)
      → Keeps (IsSound b) (open_metadata_at e root name follow)
  unfolding open_metadata_at
  open_metadata_at-IsSound root name follow = open_at-IsSound _ _ _ _

pub ruleset walk_rules = (call_rules, closing-IsSound, open_at-IsSound, open_metadata_at-IsSound)
