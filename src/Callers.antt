-- ===== src/Callers.antt =====
-- The callers of the plugin: `stateFor`, `closeFS`, `closeInstance` and `closeAll` of
-- internal/core/fs.go, over the fields of `fsGuard`. A pointer to a state is its place in a heap, so
-- that two callers may be seen to share one. Each function runs under the guard's lock, and is one
-- step; a state's own lock is held while its fields are read and written.
pub mod Ownership
use wasi.Prelude.{
  ℕ, suc, Bool, true, false, ◌||◌, not, Option, none, some, List, [], ◌∷◌, ◌⊎◌, inl, inr,
  if◌then◌else◌,
}
use wasi.Abi.Errno.{wasi_ebadf, wasi_eperm, wasi_eio}
use wasi.Host.{Host, Io, done, failed}
use wasi.Config.{Config}
use wasi.Table.{FsState}
use wasi.Table.Map.{lookup, insert, delete}
use wasi.Table.Initial.{make_fs, close_entries}

-- `states` is the map of instances, `initial` the plugin's `fs`. `next` is the place that the next
-- state will have.
pub record Guard : Type 0 where
  pub states : List (ℕ × ℕ)
  pub initial : Option ℕ
  pub claimed : Bool
  pub closed : Bool
  pub heap : List (ℕ × FsState)
  pub next : ℕ

-- The state at a place, if it has not been closed.
unfoldable pub usable : Guard → ℕ → ℕ ⊎ ℕ
usable g place = elim (lookup place g.heap) [
  | none ↦ inl wasi_ebadf
  | some fs ↦ if fs.closed then inl wasi_ebadf else inr place
]

-- The first caller takes the initial state.
unfoldable pub claim : ℕ → ℕ → Guard → Guard
claim identity place g = record g { states = insert identity place g.states; claimed = true }

-- A later caller takes a new one.
unfoldable pub own : ℕ → FsState → Guard → Guard
own identity fs g = record g {
  states = insert identity g.next g.states;
  heap = insert g.next fs g.heap;
  next = suc g.next;
}

module _ {W : Type 0} where
  unfoldable pub own_made : ℕ → Guard → Option FsState × W → (ℕ ⊎ ℕ) × Guard × W
  own_made identity g (none, w) = (inl wasi_eio, g, w)
  own_made identity g (some fs, w) = (usable (own identity fs g) g.next, own identity fs g, w)

module _ {W : Type 0} (h : Host W) (cfg : Config) where
  -- A caller that is known has its state; otherwise it gets one.
  unfoldable pub state_of : ℕ → ℕ → Guard → W → (ℕ ⊎ ℕ) × Guard × W
  state_of identity initial g w = elim (lookup identity g.states) [
    | some place ↦ (usable g place, g, w)
    | none ↦
        if not g.claimed
        then (usable (claim identity initial g) initial, claim identity initial g, w)
        else own_made identity g (make_fs h cfg true w)
  ]

  -- `resolved` is what the resolver says of the caller, `none` where there is no resolver. The result
  -- is the place of the state, or the code.
  unfoldable pub resolve_state : Option (Io ℕ) → ℕ → Guard → W → (ℕ ⊎ ℕ) × Guard × W
  resolve_state none initial g w = (usable g initial, g, w)
  resolve_state (some (failed error)) initial g w = (inl wasi_eperm, g, w)
  resolve_state (some (done identity)) initial g w = state_of identity initial g w

  unfoldable pub state_with : Option (Io ℕ) → Option ℕ → Guard → W → (ℕ ⊎ ℕ) × Guard × W
  state_with resolved none g w = (inl wasi_ebadf, g, w)
  state_with resolved (some initial) g w =
      if g.closed then (inl wasi_ebadf, g, w) else resolve_state resolved initial g w

  unfoldable pub state_for : Option (Io ℕ) → Guard → W → (ℕ ⊎ ℕ) × Guard × W
  state_for resolved g w = state_with resolved g.initial g w

  -- closeFS: the files of the table are closed, and the table is dropped.
  unfoldable pub close_fs : ℕ → Guard → W → Guard × W
  close_fs place g w = elim (lookup place g.heap) [
    | none ↦ (g, w)
    | some fs ↦ (
      record g {
        heap = insert place (record fs { fds = []; cancelled = true; closed = true }) g.heap;
      },
      close_entries h fs.fds w,
    )
  ]

  unfoldable pub close_instance : ℕ → Guard → W → Guard × W
  close_instance identity g w = elim (lookup identity g.states) [
    | none ↦ (record g { states = delete identity g.states }, w)
    | some place ↦ close_fs place (record g { states = delete identity g.states }) w
  ]

  unfoldable pub close_states : List (ℕ × ℕ) → Guard → W → Guard × W
  close_states [] g w = (g, w)
  close_states ((identity, place) ∷ states) g w =
      let (g', w') = close_fs place g w in close_states states g' w'

  unfoldable pub close_initial : Option ℕ → Guard → W → Guard × W
  close_initial none g w = (g, w)
  close_initial (some place) g w = close_fs place g w

  -- The initial state, and then every other: closing it once more finds an empty table.
  unfoldable pub close_all : Guard → W → Guard × W
  close_all g w =
      let (g', w') =
        close_initial g.initial (record g { states = []; initial = none; closed = true }) w in
      close_states g.states g' w'

-- What happens to a guard: a call of some caller, the end of an instance, or the end of the plugin.
pub data Event : Type 0 where
  calls : Option (Io ℕ) → Event
  ends : ℕ → Event
  stops : Event

module _ {W : Type 0} (h : Host W) (cfg : Config) where
  unfoldable pub react : Event → Guard → W → Guard × W
  react (calls resolved) g w = let (result, g', w') = state_for h cfg resolved g w in (g', w')
  react (ends identity) g w = close_instance h cfg identity g w
  react stops g w = close_all h cfg g w

  unfoldable pub react_all : List Event → Guard → W → Guard × W
  react_all [] g w = (g, w)
  react_all (event ∷ events) g w = let (g', w') = react event g w in react_all events g' w'

-- `resetFS` and `initFS`, with the table that `makeFS` has set up.
unfoldable pub initial_guard : FsState → Guard
initial_guard fs = record {
  states = [];
  initial = some 0;
  claimed = false;
  closed = false;
  heap = (0, fs) ∷ [];
  next = 1;
}
