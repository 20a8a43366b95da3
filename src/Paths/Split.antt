-- ===== src/Paths/Split.antt =====
-- The parts of a path between its slashes, and a path as the join of its parts.
use wasi.Prelude.{
  ℕ, ◌≡◌, refl, ap, Bool, false, ◌||◌, Bool-cases, inl, inr, List, [], ◌∷◌, ◌++◌, All, ◌==◌, arith,
}
use wasi.Host.{Bytes}
use wasi.Paths.{split, extend_first}
use wasi.Text.Clean.{join}

unfoldable pub has_slash : Bytes → Bool
has_slash [] = false
has_slash (c ∷ s) = (c == 47) || has_slash s

abbrev pub Plain : Bytes → Type 0
Plain part = has_slash part ≡ false

extend_first-All :
    (c : ℕ) (parts : List Bytes)
    → (c == 47) ≡ false
    → All Plain parts
    → All Plain (extend_first c parts)
unfolding extend_first has_slash
extend_first-All c [] plain all = (rw plain refl, tt)
extend_first-All c (part ∷ parts) plain (here, there) = (rw (plain, here) refl, there)

pub split-All : (name : Bytes) → All Plain (split name)
unfolding split has_slash
split-All [] = (refl, tt)
split-All (c ∷ s) = elim (Bool-cases (c == 47)) [
  | inl slash ↦ rw slash (refl, split-All s)
  | inr plain ↦ rw plain (extend_first-All c (split s) plain (split-All s))
]

split-cons : (s : Bytes) → (part : Bytes) × (parts : List Bytes) × (split s ≡ part ∷ parts)
unfolding split extend_first
split-cons [] = ([], [], refl)
split-cons (c ∷ s) = elim (Bool-cases (c == 47)) [
  | inl slash ↦ ([], split s, rw slash refl)
  | inr plain ↦ let (part, parts, e) = split-cons s in (c ∷ part, parts, rw plain (rw e refl))
]

pub split-slash : (s t : Bytes) → split (s ++ (47 ∷ t)) ≡ split s ++ split t
unfolding split extend_first
split-slash [] t = refl
split-slash (c ∷ s) t = elim (Bool-cases (c == 47)) [
  | inl slash ↦ rw slash (ap (λ parts. [] ∷ parts) (split-slash s t))
  | inr plain ↦ let (part, parts, e) = split-cons s in rw plain (rw (split-slash s t) (rw e refl))
]

pub split-plain : (part : Bytes) → has_slash part ≡ false → split part ≡ part ∷ []
unfolding split has_slash extend_first
split-plain [] plain = refl
split-plain (c ∷ s) plain = elim (Bool-cases (c == 47)) [
  | inl slash ↦ absurd (ground arith)
  | inr other ↦ rw other (rw (split-plain s (ground arith)) refl)
]

-- A join of parts without slashes has just these parts.
pub split-join :
    (part : Bytes) (parts : List Bytes)
    → All Plain (part ∷ parts)
    → split (join (part ∷ parts)) ≡ part ∷ parts
unfolding join
split-join part [] (plain, all) = split-plain part plain
split-join part (next ∷ parts) (plain, all) =
    rw (split-slash part (join (next ∷ parts)))
      (rw (split-plain part plain) (ap (λ rest. part ∷ rest) (split-join next parts all)))
