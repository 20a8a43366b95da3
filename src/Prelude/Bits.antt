-- ===== src/Prelude/Bits.antt =====
-- The bit masks of the program: `&` and `&^` on words, with the laws that make `&` a meet and
-- `a &^ b == 0` an order, at every width. They come from the recursion on binary digits that the
-- native operation stands for.
use Prim.Native.Nat.{
  ℕ, zero, suc, ◌+◌, ◌-◌, ◌*◌, ◌/◌, ◌%◌, ◌≤◌, min, digits, bit_and, bit_and-bitwise,
}
use mathlib.Core.Path.{◌≡◌, refl, sym, ap, ◌∙◌}
use native.Mathlib.Omega.{arith}

abbrev meet_digits : ℕ → ℕ → ℕ → ℕ
meet_digits n a b = digits (λ _. zero) min n a b

-- Any count of digits that covers the first number gives the same result.
meet_digits-enough : (n a b : ℕ) (m : ℕ) → a ≤ n → a ≤ m → meet_digits n a b ≡ meet_digits m a b
meet_digits-enough zero zero b zero h k = refl
meet_digits-enough zero zero b (suc m) h k = refl
meet_digits-enough zero (suc a) b m h k = absurd (omega arith)
meet_digits-enough (suc n) zero b zero h k = refl
meet_digits-enough (suc n) zero b (suc m) h k = refl
meet_digits-enough (suc n) (suc a) b zero h k = absurd (omega arith)
meet_digits-enough (suc n) (suc a) b (suc m) h k =
    omega (arith, meet_digits-enough n (suc a / 2) (b / 2) m (omega arith) (omega arith))

pub bit_and_zero_left : (b : ℕ) → bit_and 0 b ≡ 0
bit_and_zero_left b = bit_and-bitwise 0 b

pub bit_and_unfold : (a b : ℕ) → bit_and a b ≡ 2 * bit_and (a / 2) (b / 2) + min (a % 2) (b % 2)
bit_and_unfold zero b = omega (arith, bit_and_zero_left b, bit_and_zero_left (b / 2))
bit_and_unfold (suc a) b = omega (
  arith,
  bit_and-bitwise (suc a) b,
  bit_and-bitwise (suc a / 2) (b / 2),
  meet_digits-enough a (suc a / 2) (b / 2) (suc a / 2) (omega arith) (omega arith),
)

comm_fuel : (n a b : ℕ) → a ≤ n → b ≤ n → bit_and a b ≡ bit_and b a
comm_fuel zero zero zero h k = refl
comm_fuel zero zero (suc b) h k = absurd (omega arith)
comm_fuel zero (suc a) b h k = absurd (omega arith)
comm_fuel (suc n) a b h k = omega (
  arith,
  bit_and_unfold a b,
  bit_and_unfold b a,
  comm_fuel n (a / 2) (b / 2) (omega arith) (omega arith),
)

pub bit_and_comm : (a b : ℕ) → bit_and a b ≡ bit_and b a
bit_and_comm a b = comm_fuel (a + b) a b (omega arith) (omega arith)

le_fuel : (n a b : ℕ) → a ≤ n → bit_and a b ≤ a
le_fuel zero zero b h = omega (arith, bit_and_zero_left b)
le_fuel zero (suc a) b h = absurd (omega arith)
le_fuel (suc n) a b h = omega (arith, bit_and_unfold a b, le_fuel n (a / 2) (b / 2) (omega arith))

pub bit_and-le : (a b : ℕ) → bit_and a b ≤ a
bit_and-le a b = le_fuel a a b (omega arith)

idem_fuel : (n a : ℕ) → a ≤ n → bit_and a a ≡ a
idem_fuel zero zero h = refl
idem_fuel zero (suc a) h = absurd (omega arith)
idem_fuel (suc n) a h = omega (arith, bit_and_unfold a a, idem_fuel n (a / 2) (omega arith))

pub bit_and_self : (a : ℕ) → bit_and a a ≡ a
bit_and_self a = idem_fuel a a (omega arith)

half_of_meet :
    (a b : ℕ)
    → (bit_and a b / 2 ≡ bit_and (a / 2) (b / 2)) × (bit_and a b % 2 ≡ min (a % 2) (b % 2))
half_of_meet a b = omega (arith, bit_and_unfold a b)

assoc_fuel : (n a b c : ℕ) → a ≤ n → bit_and (bit_and a b) c ≡ bit_and a (bit_and b c)
assoc_fuel zero zero b c h =
    ap (λ t. bit_and t c) (bit_and_zero_left b)
    ∙ bit_and_zero_left c
    ∙ sym (bit_and_zero_left (bit_and b c))
assoc_fuel zero (suc a) b c h = absurd (omega arith)
assoc_fuel (suc n) a b c h = omega (
  arith,
  bit_and_unfold (bit_and a b) c,
  bit_and_unfold a (bit_and b c),
  ap (λ t. bit_and t (c / 2)) (half_of_meet a b).0,
  ap (λ t. bit_and (a / 2) t) (half_of_meet b c).0,
  (half_of_meet a b).1,
  (half_of_meet b c).1,
  assoc_fuel n (a / 2) (b / 2) (c / 2) (omega arith),
)

pub bit_and_assoc : (a b c : ℕ) → bit_and (bit_and a b) c ≡ bit_and a (bit_and b c)
bit_and_assoc a b c = assoc_fuel a a b c (omega arith)

-- Go's `a &^ b`: the bits of `a` that `b` lacks. They are what is left of `a` without `a & b`.
abbrev pub and_not : ℕ → ℕ → ℕ
and_not a b = a - bit_and a b

-- Every bit of `a` is one of `b`.
abbrev pub IsSubset : ℕ → ℕ → Type 0
IsSubset a b = bit_and a b ≡ a

-- The test `a &^ b == 0` of the source is the order.
pub subset_of_and_not : (a b : ℕ) → and_not a b ≡ 0 → IsSubset a b
subset_of_and_not a b h = omega (arith, bit_and-le a b)

pub subset_refl : (a : ℕ) → IsSubset a a
subset_refl = bit_and_self

pub subset_trans : (a b c : ℕ) → IsSubset a b → IsSubset b c → IsSubset a c
subset_trans a b c h k = ap (λ t. bit_and t c) (sym h) ∙ bit_and_assoc a b c ∙ ap (bit_and a) k ∙ h

pub subset_meet_left : (a b : ℕ) → IsSubset (bit_and a b) a
subset_meet_left a b =
    bit_and_comm (bit_and a b) a
    ∙ sym (bit_and_assoc a a b)
    ∙ ap (λ t. bit_and t b) (bit_and_self a)
