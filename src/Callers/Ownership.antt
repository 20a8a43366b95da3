-- ===== src/Callers/Ownership.antt =====
-- Which caller has which state: `stateFor`, `closeInstance` and `closeAll` of internal/core/fs.go.
use wasi.Prelude.{
  ℕ, ◌<◌, ◌≡◌, ◌≢◌, refl, sym, ap, ◌∙◌, Bool, true, false, Option, none, some, List, [], ◌∷◌, inl,
  inr, ◌⊎◌, Option-cases, arith, not, if◌then◌else◌,
}
use wasi.Host.{Host, Io, done, failed}
use wasi.Config.{Config}
use wasi.Table.{FsState}
use wasi.Table.Initial.{make_fs}
use wasi.Table.Map.{lookup, delete, lookup-insert, lookup-delete}
use wasi.Callers.{
  Guard, claim, own, own_made, state_of, resolve_state, state_for, state_with, close_fs,
  close_instance, close_states, close_initial, close_all, react, react_all, initial_guard, Event,
  calls, ends, stops,
}

-- No state has two callers, every state is at a place that has been given out, and the initial one
-- has no caller before it is claimed.
pub record Owned (g : Guard) : Type 0 where
  pub single :
      (i j place : ℕ) → lookup i g.states ≡ some place → lookup j g.states ≡ some place → i ≡ j
  pub given : (i place : ℕ) → lookup i g.states ≡ some place → place < g.next
  pub initial_given : (place : ℕ) → g.initial ≡ some place → place < g.next
  pub unclaimed :
      (i place : ℕ) → g.claimed ≡ false → lookup i g.states ≡ some place → g.initial ≢ some place

module _ (g : Guard) (h : Owned g) where
  claim-Owned :
      (identity initial : ℕ)
      → lookup identity g.states ≡ none
      → g.initial ≡ some initial
      → g.claimed ≡ false
      → Owned (claim identity initial g)
  unfolding claim
  claim-Owned identity initial new at fresh = record {
    single = λ i j place hi hj. ground (
      arith,
      lookup-insert identity i initial g.states,
      lookup-insert identity j initial g.states,
      h.single i j place,
      h.unclaimed i initial,
      h.unclaimed j initial,
    );
    given = λ i place hi. ground (
      arith,
      lookup-insert identity i initial g.states,
      h.given i place,
      h.initial_given initial at,
    );
    initial_given = h.initial_given;
    unclaimed = λ i place claimed. absurd (cc);
  }

  own-Owned :
      (identity : ℕ) (fs : FsState)
      → lookup identity g.states ≡ none
      → g.claimed ≡ true
      → Owned (own identity fs g)
  unfolding own
  own-Owned identity fs new taken = record {
    single = λ i j place hi hj. ground (
      arith,
      lookup-insert identity i g.next g.states,
      lookup-insert identity j g.next g.states,
      h.single i j place,
      h.given i place,
      h.given j place,
    );
    given = λ i place hi. ground (arith, lookup-insert identity i g.next g.states, h.given i place);
    initial_given = λ place e. ground (arith, h.initial_given place e);
    unclaimed = λ i place claimed. absurd (cc);
  }

  forget-Owned : (identity : ℕ) → Owned (record g { states = delete identity g.states })
  forget-Owned identity = record {
    single = λ i j place hi hj. ground (
      arith,
      lookup-delete identity i g.states,
      lookup-delete identity j g.states,
      h.single i j place,
    );
    given = λ i place hi. ground (arith, lookup-delete identity i g.states, h.given i place);
    initial_given = h.initial_given;
    unclaimed =
        λ i place c hi. h.unclaimed i place c (ground (arith, lookup-delete identity i g.states));
  }

Owned-if :
    {W : Type 0} (b : Bool) (r t : (ℕ ⊎ ℕ) × Guard × W)
    → (b ≡ true → Owned r.1)
    → (b ≡ false → Owned t.1)
    → Owned (if b then r else t).1
Owned-if true r t hr ht = hr refl
Owned-if false r t hr ht = ht refl

module _ {W : Type 0} (host : Host W) (cfg : Config) where
  own_made-Owned :
      (identity : ℕ) (g : Guard) (made : Option FsState × W)
      → Owned g
      → lookup identity g.states ≡ none
      → g.claimed ≡ true
      → Owned (own_made identity g made).1
  unfolding own_made
  own_made-Owned identity g (none, w) h new taken = h
  own_made-Owned identity g (some fs, w) h new taken = own-Owned g h identity fs new taken

  state_of-Owned :
      (identity initial : ℕ) (g : Guard) (w : W)
      → Owned g
      → g.initial ≡ some initial
      → Owned (state_of host cfg identity initial g w).1
  unfolding state_of
  state_of-Owned identity initial g w h at = elim (Option-cases (lookup identity g.states)) [
    | inr (place, known) ↦ rw (known, state_of) h
    | inl new ↦
        rw (new, state_of)
          (Owned-if (not g.claimed) _ _
            (λ fresh. claim-Owned g h identity initial new at (ground arith))
            (λ taken. own_made-Owned identity g (make_fs host cfg true w) h new (ground arith)))
  ]

  resolve_state-Owned :
      (resolved : Option (Io ℕ)) (initial : ℕ) (g : Guard) (w : W)
      → Owned g
      → g.initial ≡ some initial
      → Owned (resolve_state host cfg resolved initial g w).1
  unfolding resolve_state
  resolve_state-Owned none initial g w h at = h
  resolve_state-Owned (some (failed error)) initial g w h at = h
  resolve_state-Owned (some (done identity)) initial g w h at =
      state_of-Owned identity initial g w h at

  state_with-Owned :
      (resolved : Option (Io ℕ)) (initial : Option ℕ) (g : Guard) (w : W)
      → Owned g
      → g.initial ≡ initial
      → Owned (state_with host cfg resolved initial g w).1
  unfolding state_with
  state_with-Owned resolved none g w h at = h
  state_with-Owned resolved (some initial) g w h at =
      Owned-if g.closed _ _ (λ over. h) (λ running. resolve_state-Owned resolved initial g w h at)

  state_for-Owned :
      (resolved : Option (Io ℕ)) (g : Guard) (w : W)
      → Owned g
      → Owned (state_for host cfg resolved g w).1
  unfolding state_for
  state_for-Owned resolved g w h = state_with-Owned resolved g.initial g w h refl

  close_fs-Owned : (place : ℕ) (g : Guard) (w : W) → Owned g → Owned (close_fs host cfg place g w).0
  unfolding close_fs
  close_fs-Owned place g w h = elim (Option-cases (lookup place g.heap)) [
    | inl unknown ↦ rw (unknown, close_fs) h
    | inr (fs, found) ↦
        rw (found, close_fs)
          (record {
            single = h.single;
            given = h.given;
            initial_given = h.initial_given;
            unclaimed = h.unclaimed;
          })
  ]

  close_instance-Owned :
      (identity : ℕ) (g : Guard) (w : W) → Owned g → Owned (close_instance host cfg identity g w).0
  unfolding close_instance
  close_instance-Owned identity g w h = elim (Option-cases (lookup identity g.states)) [
    | inl unknown ↦ rw (unknown, close_instance) (forget-Owned g h identity)
    | inr (place, known) ↦
        rw (known, close_instance) (close_fs-Owned place _ w (forget-Owned g h identity))
  ]

  close_states-Owned :
      (states : List (ℕ × ℕ)) (g : Guard) (w : W)
      → Owned g
      → Owned (close_states host cfg states g w).0
  unfolding close_states
  close_states-Owned [] g w h = h
  close_states-Owned ((identity, place) ∷ states) g w h =
      close_states-Owned states _ _ (close_fs-Owned place g w h)

  close_initial-Owned :
      (initial : Option ℕ) (g : Guard) (w : W)
      → Owned g
      → Owned (close_initial host cfg initial g w).0
  unfolding close_initial
  close_initial-Owned none g w h = h
  close_initial-Owned (some place) g w h = close_fs-Owned place g w h

  stopped-Owned : (g : Guard) → Owned (record g { states = []; initial = none; closed = true })
  unfolding lookup
  stopped-Owned g = record {
    single = λ i j place hi hj. absurd (cc);
    given = λ i place hi. absurd (cc);
    initial_given = λ place e. absurd (cc);
    unclaimed = λ i place c hi. absurd (cc);
  }

  close_all-Owned : (g : Guard) (w : W) → Owned (close_all host cfg g w).0
  unfolding close_all
  close_all-Owned g w =
      close_states-Owned g.states _ _ (close_initial-Owned g.initial _ w (stopped-Owned g))

  pub react-Owned :
      (event : Event) (g : Guard) (w : W) → Owned g → Owned (react host cfg event g w).0
  unfolding react
  react-Owned (calls resolved) g w h = state_for-Owned resolved g w h
  react-Owned (ends identity) g w h = close_instance-Owned identity g w h
  react-Owned stops g w h = close_all-Owned g w

  pub react_all-Owned :
      (events : List Event) (g : Guard) (w : W) → Owned g → Owned (react_all host cfg events g w).0
  unfolding react_all
  react_all-Owned [] g w h = h
  react_all-Owned (event ∷ events) g w h = react_all-Owned events _ _ (react-Owned event g w h)

  pub initial-Owned : (fs : FsState) → Owned (initial_guard fs)
  unfolding initial_guard lookup
  initial-Owned fs = record {
    single = λ i j place hi hj. absurd (cc);
    given = λ i place hi. absurd (cc);
    initial_given = λ place e. ground arith;
    unclaimed = λ i place c hi. absurd (cc);
  }

  -- After any calls of callers, ends of instances and stops of the plugin, from the guard that
  -- `initFS` sets up: two different instances that have states have different ones.
  pub states-apart :
      (fs : FsState) (events : List Event) (w : W) (i j p q : ℕ)
      → i ≢ j
      → lookup i (react_all host cfg events (initial_guard fs) w).0.states ≡ some p
      → lookup j (react_all host cfg events (initial_guard fs) w).0.states ≡ some q
      → p ≢ q
  states-apart fs events w i j p q apart hi hj same = apart (
      (react_all-Owned events (initial_guard fs) w (initial-Owned fs)).single i j p hi
        (hj ∙ ap some (sym same)))
