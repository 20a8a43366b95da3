-- ===== src/Imports/Isolation.antt =====
-- internal/core/core.go, `callback`, with `stateFor` of internal/core/fs.go: what a call of one
-- instance does to the tables of others.
use wasi.Prelude.{
  ◌≡◌, ◌≢◌, refl, sym, ap, ◌∙◌, ℕ, Bool, true, false, not, Option, none, some, ◌⊎◌, inl, inr,
  Option-cases, arith, if◌then◌else◌,
}
use wasi.Abi.Errno.{wasi_ebadf}
use wasi.Host.{Host, done}
use wasi.Config.{Config}
use wasi.Memory.{Mem}
use wasi.Table.{FsState}
use wasi.Table.Initial.{make_fs}
use wasi.Table.Map.{lookup, insert, lookup-insert}
use wasi.Exec.{Plugin, Params}
use wasi.Callers.{
  Guard, usable, claim, own, own_made, state_of, resolve_state, state_with, state_for,
}
use wasi.Callers.Ownership.{Owned}
use wasi.Dispatch.{HandlerId}
use wasi.Imports.{Binding, run_at, call_at, callback}

-- A place that was found is not `q`.
abbrev Elsewhere : ℕ → ℕ ⊎ ℕ → Type 0
Elsewhere q (inl code) = Unit
Elsewhere q (inr place) = place ≢ q

-- The instance `j` keeps its state `q`, with the table that it has in `g`.
abbrev Spared : ℕ → ℕ → Guard → Guard → Type 0
Spared j q g g' = (lookup j g'.states ≡ some q) × (lookup q g'.heap ≡ lookup q g.heap)

usable-Elsewhere : (q place : ℕ) (g : Guard) → place ≢ q → Elsewhere q (usable g place)
unfolding usable
usable-Elsewhere q place g apart = elim (Option-cases (lookup place g.heap)) [
  | inl e ↦ rw (e, usable) tt
  | inr (fs, e) ↦ rw (e, usable) (at_fs fs.closed)
]
  where
    at_fs : (b : Bool) → Elsewhere q (if b then inl wasi_ebadf else inr place)
    at_fs true = tt
    at_fs false = apart

module _ {W : Type 0} (j q : ℕ) (g : Guard) where
  abbrev Spares : (ℕ ⊎ ℕ) × Guard × W → Type 0
  Spares r = Spared j q g r.1 × Elsewhere q r.0

  Spares-if :
      (b : Bool) (r t : (ℕ ⊎ ℕ) × Guard × W)
      → (b ≡ true → Spares r)
      → (b ≡ false → Spares t)
      → Spares (if b then r else t)
  Spares-if true r t hr ht = hr refl
  Spares-if false r t hr ht = ht refl

module _ {W : Type 0} (host : Host W) (cfg : Config) (i j q : ℕ) (g : Guard) where
  own_made-Spares :
      (made : Option FsState × W)
      → Owned g
      → i ≢ j
      → lookup j g.states ≡ some q
      → Spares {W = W} j q g (own_made i g made)
  unfolding own_made own
  own_made-Spares (none, w) h apart has = ((has, refl), tt)
  own_made-Spares (some fs, w) h apart has = (
    (
      ground (arith, lookup-insert i j g.next g.states),
      ground (arith, lookup-insert g.next q fs g.heap, h.given j q has),
    ),
    usable-Elsewhere q g.next (own i fs g) (λ same. omega (arith, h.given j q has)),
  )

  claim-Spares :
      (initial : ℕ) (w : W)
      → Owned g
      → i ≢ j
      → lookup j g.states ≡ some q
      → g.initial ≡ some initial
      → g.claimed ≡ false
      → Spares {W = W} j q g (usable (claim i initial g) initial, claim i initial g, w)
  unfolding claim
  claim-Spares initial w h apart has at fresh = (
    (ground (arith, lookup-insert i j initial g.states), refl),
    usable-Elsewhere q initial (claim i initial g)
        (λ same. h.unclaimed j q fresh has (rw at (ap some same))),
  )

  state_of-Spares :
      (initial : ℕ) (w : W)
      → Owned g
      → i ≢ j
      → lookup j g.states ≡ some q
      → g.initial ≡ some initial
      → Spares j q g (state_of host cfg i initial g w)
  unfolding state_of
  state_of-Spares initial w h apart has at = elim (Option-cases (lookup i g.states)) [
    | inr (place, known) ↦
        rw (known, state_of)
          (
            (has, refl),
            usable-Elsewhere q place g
                (λ same. apart (h.single i j place known (has ∙ ap some (sym same)))),
          )
    | inl new ↦
        rw (new, state_of)
          (Spares-if j q g (not g.claimed) _ _
            (λ fresh. claim-Spares initial w h apart has at (ground arith))
            (λ taken. own_made-Spares (make_fs host cfg true w) h apart has))
  ]

  state_with-Spares :
      (initial : Option ℕ) (w : W)
      → Owned g
      → i ≢ j
      → lookup j g.states ≡ some q
      → g.initial ≡ initial
      → Spares j q g (state_with host cfg (some (done i)) initial g w)
  unfolding state_with resolve_state
  state_with-Spares none w h apart has at = ((has, refl), tt)
  state_with-Spares (some initial) w h apart has at =
      Spares-if j q g g.closed _ _ (λ over. ((has, refl), tt))
        (λ running. state_of-Spares initial w h apart has at)

module _ {W : Type 0} (e : Plugin W) (rounds : ℕ) (j q : ℕ) (g : Guard) where
  run_at-Spared :
      (handler : HandlerId) (p : Params) (place : ℕ) (mem : Mem) (g' : Guard) (w : W)
      → Spared j q g g'
      → place ≢ q
      → Spared j q g (run_at e rounds handler p place mem g' w).2
  unfolding run_at
  run_at-Spared handler p place mem g' w (has, same) apart =
      elim (Option-cases (lookup place g'.heap)) [
        | inl f ↦ rw (f, run_at) (has, same)
        | inr (fs, f) ↦ rw (f, run_at) (has, written _)
      ]
    where
      written : (fs : FsState) → lookup q (insert place fs g'.heap) ≡ lookup q g.heap
      written fs = ground (arith, lookup-insert place q fs g'.heap)

  call_at-Spared :
      (handler : HandlerId) (p : Params) (found : ℕ ⊎ ℕ) (mem : Mem) (g' : Guard) (w : W)
      → Spared j q g g'
      → Elsewhere q found
      → Spared j q g (call_at e rounds handler p found mem g' w).2
  unfolding call_at
  call_at-Spared handler p (inl code) mem g' w spared at = spared
  call_at-Spared handler p (inr place) mem g' w spared at =
      run_at-Spared handler p place mem g' w spared at

  -- A call by one instance, of any function of the table of imports and however it ends, leaves
  -- another instance with its own state, and the descriptor table in it as it was.
  pub callback-spares :
      (b : Binding) (i : ℕ) (p : Params) (mem : Mem) (w : W)
      → Owned g
      → i ≢ j
      → lookup j g.states ≡ some q
      → (lookup j (callback e rounds b (some (done i)) p mem g w).2.states ≡ some q)
        × (lookup q (callback e rounds b (some (done i)) p mem g w).2.heap ≡ lookup q g.heap)
  unfolding callback state_for
  callback-spares b i p mem w h apart has =
      let found = state_with-Spares e.host e.cfg i j q g g.initial w h apart has refl in
      call_at-Spared b.handler p _ mem _ _ found.0 found.1
