-- ===== src/Config/Shape/Bits.antt =====
-- The bits of the fields that an object has had, in `validateConfigJSON` of internal/core/core.go:
-- at most eight, so what holds of them is looked up for every set of them.
use wasi.Prelude.{
  ℕ, zero, suc, ◌<◌, ◌≡◌, ◌≢◌, refl, Bool, true, false, not, ◌&&◌, ◌||◌, Bool-cases, inl, inr, List,
  [], ◌∷◌, ltb, bit_and, bit_or, ◌==◌, arith,
}

abbrev all_below : ℕ → (ℕ → Bool) → Bool
all_below zero test = true
all_below (suc n) test = test n && all_below n test

all_below-at : (n : ℕ) (test : ℕ → Bool) → all_below n test ≡ true → (k : ℕ) → k < n → test k ≡ true
all_below-at zero test h k lt = absurd (omega arith)
all_below-at (suc n) test h k lt = elim (Bool-cases (k == n)) [
  | inl last ↦ let same : k ≡ n = ground arith in rw same (ground arith)
  | inr before ↦ all_below-at n test (ground arith) k (ground arith)
]

abbrev pub is_in : ℕ → List ℕ → Bool
is_in b [] = false
is_in b (c ∷ bits) = (b == c) || is_in b bits

abbrev every : List ℕ → (ℕ → Bool) → Bool
every [] test = true
every (b ∷ bits) test = test b && every bits test

every-at :
    (bits : List ℕ) (test : ℕ → Bool)
    → every bits test ≡ true
    → (b : ℕ) → is_in b bits ≡ true
    → test b ≡ true
every-at [] test h b e = absurd (cc)
every-at (c ∷ bits) test h b e = elim (Bool-cases (b == c)) [
  | inl here ↦ let same : b ≡ c = ground arith in rw same (ground arith)
  | inr later ↦ every-at bits test (ground arith) b (ground arith)
]

-- The bits of the fields of an object.
abbrev pub bits : List ℕ
bits = 1 ∷ 2 ∷ 4 ∷ 8 ∷ 16 ∷ 32 ∷ 64 ∷ 128 ∷ []

abbrev pub has : ℕ → ℕ → Bool
has seen b = not (bit_and seen b == 0)

abbrev adds : ℕ → ℕ → Bool
adds seen b = ltb (bit_or seen b) 256 && has (bit_or seen b) b

abbrev keeps : ℕ → ℕ → ℕ → Bool
keeps seen b c = not (has seen c) || has (bit_or seen b) c

abbrev no_other : ℕ → ℕ → ℕ → Bool
no_other seen b c = has seen c || ((b == c) || not (has (bit_or seen b) c))

abbrev both : ℕ → Bool
both seen = not (bit_and seen 3 == 3) || (has seen 1 && has seen 2)

adds-all : all_below 256 (λ seen. every bits (adds seen)) ≡ true
adds-all = refl

keeps-all : all_below 256 (λ seen. every bits (λ b. every bits (keeps seen b))) ≡ true
keeps-all = refl

no_other-all : all_below 256 (λ seen. every bits (λ b. every bits (no_other seen b))) ≡ true
no_other-all = refl

both-all : all_below 256 both ≡ true
both-all = refl

at_bit :
    (test : ℕ → ℕ → Bool)
    → all_below 256 (λ seen. every bits (test seen)) ≡ true
    → (seen b : ℕ) → seen < 256
    → is_in b bits ≡ true
    → test seen b ≡ true
at_bit test h seen b lt e =
    every-at bits (test seen) (all_below-at 256 (λ s. every bits (test s)) h seen lt) b e

module _ (seen b : ℕ) (lt : seen < 256) (e : is_in b bits ≡ true) where
  pub bit_or-lt : bit_or seen b < 256
  bit_or-lt = ground (arith, at_bit adds adds-all seen b lt e)

  pub has-bit_or : has (bit_or seen b) b ≡ true
  has-bit_or = ground (arith, at_bit adds adds-all seen b lt e)

  pub has-bit_or-kept :
      (c : ℕ) → is_in c bits ≡ true → has (bit_or seen b) c ≡ false → has seen c ≡ false
  has-bit_or-kept c e' h =
      let kept =
        every-at bits (keeps seen b) (at_bit (λ s d. every bits (keeps s d)) keeps-all seen b lt e)
          c e' in
      ground arith

  pub has-bit_or-other :
      (c : ℕ) → is_in c bits ≡ true → b ≢ c → has seen c ≡ false → has (bit_or seen b) c ≡ false
  has-bit_or-other c e' apart h =
      let other =
        every-at bits (no_other seen b)
          (at_bit (λ s d. every bits (no_other s d)) no_other-all seen b lt e) c e' in
      ground arith

pub has-both :
    (seen : ℕ)
    → seen < 256
    → (bit_and seen 3 == 3) ≡ true
    → (has seen 1 ≡ true) × (has seen 2 ≡ true)
has-both seen lt h = ground (arith, all_below-at 256 both both-all seen lt)

abbrev required : ℕ → Bool
required seen = not (has seen 1 && has seen 2) || (bit_and seen 3 == 3)

required-all : all_below 256 required ≡ true
required-all = refl

pub both-has :
    (seen : ℕ) → seen < 256 → has seen 1 ≡ true → has seen 2 ≡ true → (bit_and seen 3 == 3) ≡ true
both-has seen lt one two = ground (arith, all_below-at 256 required required-all seen lt)

pub has-kept :
    (seen b c : ℕ)
    → seen < 256
    → is_in b bits ≡ true
    → is_in c bits ≡ true
    → has seen c ≡ true
    → has (bit_or seen b) c ≡ true
has-kept seen b c lt e e' h =
    let kept =
      every-at bits (keeps seen b) (at_bit (λ s d. every bits (keeps s d)) keeps-all seen b lt e) c
        e' in
    ground arith
