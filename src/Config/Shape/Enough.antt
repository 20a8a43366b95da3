-- ===== src/Config/Shape/Enough.antt =====
-- internal/core/core.go, `validateConfigJSON`: the reading of every text ends.
use wasi.Prelude.{
  ◌≡◌, refl, ap, ◌∙◌, ℕ, zero, suc, ◌*◌, ◌≤◌, ◌<◌, List, [], ◌∷◌, Option, none, some, length, leb,
  Bool-cases, inl, inr, arith, if◌then◌else◌,
}
use Prim.Native.Nat.{min}
use wasi.Config.Shape.{
  Token, Kind, Task, value, object_rest, array_rest, has_more, item_of, max_items, begin,
  end_object, end_array, next_field, then_read, after_begin, after_key, at_item, read_with, read,
}

abbrev Reader : Type 0
Reader = Task → List Token → Option (List Token)

-- The rounds that a task may need.
abbrev pub need : Task → List Token → ℕ
need (value kind) tokens = suc (2 * length tokens)
need (object_rest kind seen) tokens = suc (suc (2 * length tokens))
need (array_rest kind count) tokens = suc (suc (2 * length tokens))

-- A reader that succeeds has taken a token.
abbrev Shrinks : Reader → Type 0
Shrinks r =
    (task : Task) (tokens rest : List Token)
    → r task tokens ≡ some rest
    → length rest < length tokens

next_field-lt :
    (kind : Kind) (seen : ℕ) (tokens : List Token) (r : Kind × ℕ × List Token)
    → next_field kind seen tokens ≡ some r
    → length r.2 < length tokens
unfolding next_field
next_field-lt kind seen tokens r h = ground arith

end_object-lt :
    (kind : Kind) (seen : ℕ) (tokens rest : List Token)
    → end_object kind seen tokens ≡ some rest
    → length rest < length tokens
unfolding end_object
end_object-lt kind seen tokens rest h = ground arith

end_array-lt :
    (tokens rest : List Token) → end_array tokens ≡ some rest → length rest < length tokens
unfolding end_array
end_array-lt tokens rest h = ground arith

then_read-lt :
    (r : Reader) (task : Task) (o : Option (List Token)) (n : ℕ) (rest : List Token)
    → Shrinks r
    → ((tokens : List Token) → o ≡ some tokens → length tokens < n)
    → then_read r task o ≡ some rest
    → length rest < n
then_read-lt r task none n rest s b h = cc
then_read-lt r task (some tokens) n rest s b h = omega (arith, s task tokens rest h, b tokens refl)

module _ (r : Reader) (s : Shrinks r) where
  after_begin-lt :
      (o : Option (Option Task)) (tokens rest : List Token)
      → after_begin r o tokens ≡ some rest
      → length rest ≤ length tokens
  after_begin-lt none tokens rest h = cc
  after_begin-lt (some none) tokens rest h = ground arith
  after_begin-lt (some (some task)) tokens rest h = omega (arith, s task tokens rest h)

  after_key-lt :
      (kind : Kind) (o : Option (Kind × ℕ × List Token)) (n : ℕ) (rest : List Token)
      → ((k : Kind × ℕ × List Token) → o ≡ some k → length k.2 < n)
      → after_key r kind o ≡ some rest
      → length rest < n
  after_key-lt kind none n rest b h = cc
  after_key-lt kind (some (child, now, behind)) n rest b h =
      then_read-lt r (object_rest kind now) (r (value child) behind) n rest s
        (λ tokens e. omega (arith, s (value child) behind tokens e, b (child, now, behind) refl)) h

  at_item-lt :
      (kind : Kind) (count : ℕ) (tokens rest : List Token)
      → at_item r kind count tokens ≡ some rest
      → length rest < length tokens
  at_item-lt kind count tokens rest h = elim (Bool-cases (leb (max_items kind) count)) [
    | inl full ↦ ground arith
    | inr free ↦
        then_read-lt r (array_rest kind (suc count)) (r (value (item_of kind)) tokens)
          (length tokens) rest s (λ behind e. s (value (item_of kind)) tokens behind e)
          (ground arith)
  ]

  read_with-Shrinks : Shrinks (read_with r)
  unfolding read_with
  read_with-Shrinks (value kind) [] rest h = cc
  read_with-Shrinks (value kind) (t ∷ tokens) rest h =
      omega (arith, after_begin-lt (begin kind t) tokens rest h)
  read_with-Shrinks (object_rest kind seen) tokens rest h = elim (Bool-cases (has_more tokens)) [
    | inl more ↦
        after_key-lt kind (next_field kind seen tokens) (length tokens) rest
          (next_field-lt kind seen tokens) (ground arith)
    | inr done ↦ end_object-lt kind seen tokens rest (ground arith)
  ]
  read_with-Shrinks (array_rest kind count) tokens rest h = elim (Bool-cases (has_more tokens)) [
    | inl more ↦ at_item-lt kind count tokens rest (ground arith)
    | inr done ↦ end_array-lt tokens rest (ground arith)
  ]

read-Shrinks : (n : ℕ) → Shrinks (read n)
unfolding read
read-Shrinks zero task tokens rest h = cc
read-Shrinks (suc n) task tokens rest h =
    read_with-Shrinks (read n) (read-Shrinks n) task tokens rest h

module _ (r t : Reader) (s : Shrinks r) (k : ℕ)
    (agree : (task : Task) (tokens : List Token)
      → need task tokens ≤ k
      → r task tokens ≡ t task tokens) where
  any_need :
      (task : Task) (tokens : List Token) → suc (suc (2 * length tokens)) ≤ k → need task tokens ≤ k
  any_need (value kind) tokens h = omega arith
  any_need (object_rest kind seen) tokens h = h
  any_need (array_rest kind count) tokens h = h

  after_begin-agree :
      (o : Option (Option Task)) (tokens : List Token)
      → suc (suc (2 * length tokens)) ≤ k
      → after_begin r o tokens ≡ after_begin t o tokens
  after_begin-agree none tokens h = refl
  after_begin-agree (some none) tokens h = refl
  after_begin-agree (some (some task)) tokens h = agree task tokens (any_need task tokens h)

  then_read-agree :
      (task : Task) (o : Option (List Token))
      → ((tokens : List Token) → o ≡ some tokens → need task tokens ≤ k)
      → then_read r task o ≡ then_read t task o
  then_read-agree task none b = refl
  then_read-agree task (some tokens) b = agree task tokens (b tokens refl)

  after_key-agree :
      (kind : Kind) (o : Option (Kind × ℕ × List Token)) (n : ℕ)
      → ((f : Kind × ℕ × List Token) → o ≡ some f → length f.2 < n)
      → 2 * n ≤ k
      → after_key r kind o ≡ after_key t kind o
  after_key-agree kind none n b h = refl
  after_key-agree kind (some (child, now, behind)) n b h =
      then_read-agree (object_rest kind now) (r (value child) behind)
        (λ tokens e. omega (arith, s (value child) behind tokens e, b (child, now, behind) refl))
      ∙ ap (then_read t (object_rest kind now))
          (agree (value child) behind (omega (arith, b (child, now, behind) refl)))

  at_item-agree :
      (kind : Kind) (count : ℕ) (tokens : List Token)
      → suc (2 * length tokens) ≤ k
      → at_item r kind count tokens ≡ at_item t kind count tokens
  at_item-agree kind count tokens h =
      ap (λ o. if leb (max_items kind) count then none else o)
        (then_read-agree (array_rest kind (suc count)) (r (value (item_of kind)) tokens)
            (λ behind e. omega (arith, s (value (item_of kind)) tokens behind e))
          ∙ ap (then_read t (array_rest kind (suc count))) (agree (value (item_of kind)) tokens h))

  read_with-agree :
      (task : Task) (tokens : List Token)
      → need task tokens ≤ suc k
      → read_with r task tokens ≡ read_with t task tokens
  unfolding read_with
  read_with-agree (value kind) [] h = refl
  read_with-agree (value kind) (u ∷ tokens) h =
      after_begin-agree (begin kind u) tokens (omega arith)
  read_with-agree (object_rest kind seen) tokens h =
      ap (λ o. if has_more tokens then o else end_object kind seen tokens)
        (after_key-agree kind (next_field kind seen tokens) (length tokens)
          (next_field-lt kind seen tokens) (omega arith))
  read_with-agree (array_rest kind count) tokens h =
      ap (λ o. if has_more tokens then o else end_array tokens)
        (at_item-agree kind count tokens (omega arith))

pub read-agree :
    (n m : ℕ) (task : Task) (tokens : List Token)
    → need task tokens ≤ n
    → need task tokens ≤ m
    → read n task tokens ≡ read m task tokens
unfolding read
read-agree zero m (value kind) tokens h k = absurd (omega arith)
read-agree zero m (object_rest kind seen) tokens h k = absurd (omega arith)
read-agree zero m (array_rest kind count) tokens h k = absurd (omega arith)
read-agree (suc n) zero (value kind) tokens h k = absurd (omega arith)
read-agree (suc n) zero (object_rest kind seen) tokens h k = absurd (omega arith)
read-agree (suc n) zero (array_rest kind count) tokens h k = absurd (omega arith)
read-agree (suc n) (suc m) task tokens h k =
    read_with-agree (read n) (read m) (read-Shrinks n) (min n m)
      (λ other behind f. read-agree n m other behind (omega (arith, f)) (omega (arith, f))) task
      tokens (omega arith)
