-- ===== src/Under/Ends.antt =====
-- How the walk of p2/path.go ends: a pass that starts again behind a parent step has one parent step
-- less to resolve, and links are followed 40 times at most.
use wasi.Prelude.{ℕ, zero, suc, ◌+◌, ◌<◌, ◌≡◌, refl, true, [], arith}
use wasi.Host.{Bytes, Host, Io, done, failed}
use wasi.Paths.{split}
use wasi.Walk.{moves_with}
use wasi.Walk.Confined.{}
use wasi.Paths.Split.{split-All}
use wasi.Under.{
  Turn, ended, restart, expanded, Request, resolve, walk_from, walk_rounds, walk_under,
}
use wasi.Under.Names.{ups}
use wasi.Under.Falls.{is_finished, FallsIn, walk_parts-Falls, moves_with-Moved, parts_of-moves_with}

suc_plus : (m n : ℕ) → suc m + n ≡ suc (m + n)
suc_plus m n = omega arith

module _ {W : Type 0} (h : Host W) (q : Request W) where
  -- Some number of passes is enough.
  abbrev Ends : ℕ → Bytes → W → Type 0
  Ends left name w =
      (rounds : ℕ) × ((more : ℕ)
        → is_finished (walk_rounds h q (rounds + more) left name w).0 ≡ true)

  abbrev EndsFrom : ℕ → Turn × W → Type 0
  EndsFrom left end =
      (rounds : ℕ) × ((more : ℕ)
        → is_finished (resolve h (walk_rounds h q (rounds + more)) left end).0 ≡ true)

  resolve-EndsFrom :
      (n left : ℕ) (end : Turn × W)
      → ((name : Bytes) (w : W) → ups (split name) < n → Ends left name w)
      → ((fewer : ℕ) (name : Bytes) (w : W) → fewer < left → Ends fewer name w)
      → FallsIn h q n end
      → EndsFrom left end
  unfolding resolve
  resolve-EndsFrom n left (ended walked, w) again deeper falls = (0, λ more. falls)
  resolve-EndsFrom n left (restart name, w) again deeper falls = again name w falls
  resolve-EndsFrom n zero (expanded name, w) again deeper falls = (0, λ more. refl)
  resolve-EndsFrom n (suc left) (expanded name, w) again deeper falls =
      deeper left name w (omega arith)

  walk_from-Ends :
      (left : ℕ) (name : Bytes) (r : Io ℕ) (w : W)
      → ((name' : Bytes) (w : W) → ups (split name') < ups (split name) → Ends left name' w)
      → ((fewer : ℕ) (name : Bytes) (w : W) → fewer < left → Ends fewer name w)
      → (rounds : ℕ) × ((more : ℕ)
          → is_finished (walk_from h q (walk_rounds h q (rounds + more)) left name r w).0 ≡ true)
  unfolding walk_from
  walk_from-Ends left name (failed error) w again deeper = (0, λ more. refl)
  walk_from-Ends left name (done k) w again deeper =
      resolve-EndsFrom (ups (split name)) left _ again deeper (
        walk_parts-Falls h q (ups (split name)) name _ [] (moves_with (split name)) w
          (rw (parts_of-moves_with (split name)) (omega arith)) tt
          (moves_with-Moved (split name) (split-All name)))

  Ends-below :
      (n left : ℕ)
      → ((fewer : ℕ) (name : Bytes) (w : W) → fewer < left → Ends fewer name w)
      → (name : Bytes) (w : W) → ups (split name) < n
      → Ends left name w
  unfolding walk_rounds
  Ends-below zero left deeper name w few = absurd (omega arith)
  Ends-below (suc n) left deeper name w few =
      let (rounds, finished) =
        walk_from-Ends left name (h.dup q.base.fd w).0 (h.dup q.base.fd w).1
          (λ name' w fewer. Ends-below n left deeper name' w (omega arith)) deeper in
      (suc rounds, λ more. rw (suc_plus rounds more) (finished more))

  walk_rounds-Ends : (bound left : ℕ) (name : Bytes) (w : W) → left < bound → Ends left name w
  walk_rounds-Ends zero left name w small = absurd (omega arith)
  walk_rounds-Ends (suc bound) left name w small =
      Ends-below (suc (ups (split name))) left
        (λ fewer name w less. walk_rounds-Ends bound fewer name w (omega arith)) name w
        (omega arith)

  -- Whatever the host answers, there is a number of passes from which on walkUnder comes to a file, a
  -- description or an error.
  pub walk_under-finished :
      (name : Bytes) (w : W)
      → (rounds : ℕ) × ((more : ℕ) → is_finished (walk_under h (rounds + more) q name w).0 ≡ true)
  unfolding walk_under
  walk_under-finished name w = walk_rounds-Ends 41 40 name w (omega arith)
