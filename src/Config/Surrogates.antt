-- ===== src/Config/Surrogates.antt =====
-- internal/core/core.go: `validateConfigSurrogateEscapes` and `configJSONEscapeCodeUnit`. The loop
-- over an index is a recursion on the rest of the text, with the bytes that `i += n` skips.
use wasi.Prelude.{
  ℕ, zero, suc, ◌+◌, ◌-◌, ◌*◌, Bool, true, false, not, ◌&&◌, [], ◌∷◌, Option, none, some, drop, leb,
  ◌==◌, if◌then◌else◌,
}
use wasi.Host.{Bytes}

-- A digit of either case.
unfoldable pub hex_digit : ℕ → Option ℕ
hex_digit c =
    if leb 48 c && leb c 57
    then some (c - 48)
    else if leb 97 c && leb c 102
    then some (c - 97 + 10)
    else if leb 65 c && leb c 70
    then some (c - 65 + 10)
    else none

abbrev pub shift_in : Option ℕ → Option ℕ → Option ℕ
shift_in none digit = none
shift_in (some value) none = none
shift_in (some value) (some digit) = some (value * 16 + digit)

-- The four digits behind "\u"; none where the text goes on otherwise.
unfoldable pub escape_code_unit : Bytes → Option ℕ
unfolding hex_digit
escape_code_unit (backslash ∷ u ∷ a ∷ b ∷ c ∷ d ∷ rest) =
    if (backslash == 92) && (u == 117)
    then shift_in
        (shift_in (shift_in (shift_in (some 0) (hex_digit a)) (hex_digit b)) (hex_digit c))
        (hex_digit d)
    else none
escape_code_unit _ = none

abbrev pub is_high : ℕ → Bool
is_high v = leb 0xd800 v && leb v 0xdbff

abbrev pub is_low : ℕ → Bool
is_low v = leb 0xdc00 v && leb v 0xdfff

abbrev pub is_low_unit : Option ℕ → Bool
is_low_unit none = false
is_low_unit (some v) = is_low v

-- What follows a code unit whose escape begins the text: how many bytes to skip behind its
-- backslash, or none for an unpaired surrogate.
unfoldable pub after_unit : Option ℕ → Bytes → Option ℕ
unfolding escape_code_unit
after_unit none text = some 0
after_unit (some first) text =
    if is_high first
    then if is_low_unit (escape_code_unit (drop 6 text)) then some 11 else none
    else if is_low first
    then none
    else some 5

-- A backslash in a string, before `rest`.
unfoldable pub after_backslash : Bytes → Option ℕ
unfolding after_unit
after_backslash [] = some 0
after_backslash (c ∷ rest) =
    if c == 117 then after_unit (escape_code_unit (92 ∷ c ∷ rest)) (92 ∷ c ∷ rest) else some 1

abbrev pub with_string : Bool → Option ℕ → Option (ℕ × Bool)
with_string in_string none = none
with_string in_string (some skip) = some (skip, in_string)

-- One round: the bytes to skip and the new `inString`, or none for the error.
unfoldable pub round : Bool → ℕ → Bytes → Option (ℕ × Bool)
unfolding after_backslash
round in_string c rest =
    if c == 34
    then some (0, not in_string)
    else if (c == 92) && in_string
    then with_string in_string (after_backslash rest)
    else some (0, in_string)

unfoldable pub scan : ℕ → Bool → Bytes → Bool
unfolding round
scan skip in_string [] = true
scan (suc skip) in_string (c ∷ rest) = scan skip in_string rest
scan zero in_string (c ∷ rest) = elim (round in_string c rest) [
  | none ↦ false
  | some (skip, now) ↦ scan skip now rest
]

-- `true` where the source returns no error.
unfoldable pub validate_config_surrogate_escapes : Bytes → Bool
unfolding scan
validate_config_surrogate_escapes raw = scan 0 false raw
