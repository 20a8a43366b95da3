-- ===== src/Config/Escapes.antt =====
-- internal/core/core.go, `validateConfigSurrogateEscapes`, on a string of escaped code units.
use wasi.Prelude.{
  ◌≡◌, refl, ap, ◌∙◌, ℕ, ◌+◌, ◌/◌, ◌%◌, ◌<◌, Bool, true, false, not, ◌&&◌, List, [], ◌∷◌, Option,
  none, some, All, ltb, ◌==◌, arith, if◌then◌else◌,
}
use wasi.Host.{Bytes}
use wasi.Config.Surrogates.{
  hex_digit, escape_code_unit, is_high, is_low, is_low_unit, after_unit, after_backslash,
  with_string, round, scan, validate_config_surrogate_escapes,
}

abbrev pub hex_char : ℕ → ℕ
hex_char d = if ltb d 10 then 48 + d else 87 + d

-- The escape of a code unit before a text.
abbrev pub escape : ℕ → Bytes → Bytes
escape v text =
    92
    ∷ 117
    ∷ hex_char (v / 4096)
    ∷ hex_char (v / 256 % 16)
    ∷ hex_char (v / 16 % 16)
    ∷ hex_char (v % 16)
    ∷ text

abbrev pub escape_all : List ℕ → Bytes → Bytes
escape_all [] text = text
escape_all (v ∷ vs) text = escape v (escape_all vs text)

-- A JSON string that has every code unit escaped.
abbrev pub quoted : List ℕ → Bytes
quoted units = 34 ∷ escape_all units (34 ∷ [])

-- A code unit whose upper six bits are 110110 leads a pair of surrogates, and one whose upper six bits
-- are 110111 ends it.
abbrev leads : ℕ → Bool
leads v = v / 1024 == 54

abbrev ends : ℕ → Bool
ends v = v / 1024 == 55

-- A surrogate that leads a pair has one that ends it behind it, and one that ends a pair has one that
-- leads it before it.
abbrev pub is_paired : List ℕ → Bool
is_paired [] = true
is_paired (v ∷ []) = not (leads v) && not (ends v)
is_paired (v ∷ w ∷ units) =
    if leads v then ends w && is_paired units else not (ends v) && is_paired (w ∷ units)

-- The same by the tests of the code.
abbrev tests_pair : List ℕ → Bool
tests_pair [] = true
tests_pair (v ∷ []) = not (is_high v) && not (is_low v)
tests_pair (v ∷ w ∷ units) =
    if is_high v then is_low w && tests_pair units else not (is_low v) && tests_pair (w ∷ units)

is_high-leads : (v : ℕ) → is_high v ≡ leads v
is_high-leads v = ground arith

is_low-ends : (v : ℕ) → is_low v ≡ ends v
is_low-ends v = ground arith

tests_pair-is_paired : (units : List ℕ) → tests_pair units ≡ is_paired units
tests_pair-is_paired [] = refl
tests_pair-is_paired (v ∷ []) = rw (is_high-leads v, is_low-ends v) refl
tests_pair-is_paired (v ∷ w ∷ units) =
    ap (λ b. if is_high v then is_low w && b else not (is_low v) && tests_pair (w ∷ units))
      (tests_pair-is_paired units)
    ∙ ap (λ b. if is_high v then is_low w && is_paired units else not (is_low v) && b)
        (tests_pair-is_paired (w ∷ units))
    ∙ rw (is_high-leads v, is_low-ends v, is_low-ends w) refl

hex_digit-hex_char : (d : ℕ) → d < 16 → hex_digit (hex_char d) ≡ some d
unfolding hex_digit
hex_digit-hex_char d h = ground arith

escape_code_unit-escape :
    (v : ℕ) (text : Bytes) → v < 65536 → escape_code_unit (escape v text) ≡ some v
unfolding escape_code_unit
escape_code_unit-escape v text h =
    rw
      (
        hex_digit-hex_char (v / 4096) (omega arith),
        hex_digit-hex_char (v / 256 % 16) (omega arith),
        hex_digit-hex_char (v / 16 % 16) (omega arith),
        hex_digit-hex_char (v % 16) (omega arith),
      )
      (ap some (omega arith))

-- The rest of a string after a backslash, by what is skipped of it.
abbrev go_on : Option ℕ → Bytes → Bool
go_on none rest = false
go_on (some skip) rest = scan skip true rest

go_on-cases :
    (high next low : Bool) (a b c d : ℕ) (text : Bytes)
    → go_on
        (if high then (if next then some 11 else none) else if low then none else some 5)
        (117 ∷ a ∷ b ∷ c ∷ d ∷ text)
      ≡ (if high
          then (if next then scan 6 true text else false)
          else if low
          then false
          else scan 0 true text)
unfolding scan
go_on-cases true true low a b c d text = refl
go_on-cases true false low a b c d text = refl
go_on-cases false next true a b c d text = refl
go_on-cases false next false a b c d text = refl

scan-backslash :
    (a b c d : ℕ) (text : Bytes)
    → scan 0 true (92 ∷ 117 ∷ a ∷ b ∷ c ∷ d ∷ text)
      ≡ go_on
          (after_unit
            (escape_code_unit (92 ∷ 117 ∷ a ∷ b ∷ c ∷ d ∷ text))
            (92 ∷ 117 ∷ a ∷ b ∷ c ∷ d ∷ text))
          (117 ∷ a ∷ b ∷ c ∷ d ∷ text)
unfolding scan round after_backslash
scan-backslash a b c d text = chosen (
    after_unit (escape_code_unit (92 ∷ 117 ∷ a ∷ b ∷ c ∷ d ∷ text))
      (92 ∷ 117 ∷ a ∷ b ∷ c ∷ d ∷ text))
  where
    chosen :
        (o : Option ℕ)
        → (elim (with_string true o) as (λ _. Bool) [
          | none ↦ false
          | some (skip, now) ↦ scan skip now (117 ∷ a ∷ b ∷ c ∷ d ∷ text)
        ])
          ≡ go_on o (117 ∷ a ∷ b ∷ c ∷ d ∷ text)
    chosen none = refl
    chosen (some skip) = refl

-- One escape in a string, before a text.
scan-escape :
    (v : ℕ) (text : Bytes)
    → v < 65536
    → scan 0 true (escape v text) ≡ (
        if is_high v
        then (if is_low_unit (escape_code_unit text) then scan 6 true text else false)
        else if is_low v
        then false
        else scan 0 true text)
unfolding after_unit
scan-escape v text h =
    scan-backslash (hex_char (v / 4096)) (hex_char (v / 256 % 16)) (hex_char (v / 16 % 16))
      (hex_char (v % 16)) text
    ∙ ap
        (λ o. go_on (after_unit o (escape v text)) (
          117
          ∷ hex_char (v / 4096)
          ∷ hex_char (v / 256 % 16)
          ∷ hex_char (v / 16 % 16)
          ∷ hex_char (v % 16)
          ∷ text))
        (escape_code_unit-escape v text h)
    ∙ go_on-cases (is_high v) (is_low_unit (escape_code_unit text)) (is_low v) (hex_char (v / 4096))
        (hex_char (v / 256 % 16)) (hex_char (v / 16 % 16)) (hex_char (v % 16)) text

end_of_text : scan 0 true (34 ∷ []) ≡ true
unfolding scan round
end_of_text = refl

lone_quote : escape_code_unit (34 ∷ []) ≡ none
unfolding escape_code_unit
lone_quote = refl

skip_escape : (v : ℕ) (text : Bytes) → scan 6 true (escape v text) ≡ scan 0 true text
unfolding scan
skip_escape v text = refl

-- The branches of `scan-escape` against those of `tests_pair`.
branches :
    (high low next x y p q : Bool)
    → x ≡ p
    → y ≡ q
    → (if high then (if next then x else false) else if low then false else y)
      ≡ (if high then next && p else not low && q)
branches true low true x y p q e f = e
branches true low false x y p q e f = refl
branches false true next x y p q e f = refl
branches false false next x y p q e f = f

scan-escape_all :
    (units : List ℕ)
    → All (λ v. v < 65536) units
    → scan 0 true (escape_all units (34 ∷ [])) ≡ tests_pair units
scan-escape_all [] h = end_of_text
scan-escape_all (v ∷ []) (h, _) =
    scan-escape v (34 ∷ []) h
    ∙ ap
        (λ o.
          if is_high v
          then (if is_low_unit o then scan 6 true (34 ∷ []) else false)
          else if is_low v
          then false
          else scan 0 true (34 ∷ []))
        lone_quote
    ∙ alone (is_high v) (is_low v) _ end_of_text
  where
    alone :
        (high low y : Bool)
        → y ≡ true
        → (if high then false else if low then false else y) ≡ (not high && not low)
    alone true low y e = refl
    alone false true y e = refl
    alone false false y e = e
scan-escape_all (v ∷ w ∷ units) (h, (k, all)) =
    let text = escape_all units (34 ∷ []) in
    scan-escape v (escape w text) h
    ∙ ap
        (λ o.
          if is_high v
          then (if is_low_unit o then scan 6 true (escape w text) else false)
          else if is_low v
          then false
          else scan 0 true (escape w text))
        (escape_code_unit-escape w text k)
    ∙ branches (is_high v) (is_low v) (is_low w) _ _ (tests_pair units) (tests_pair (w ∷ units))
        (skip_escape w text ∙ scan-escape_all units all) (scan-escape_all (w ∷ units) (k, all))

-- A JSON string of escaped code units is accepted exactly when its surrogates are paired.
pub validate_config_surrogate_escapes_lem :
    (units : List ℕ)
    → All (λ v. v < 65536) units
    → validate_config_surrogate_escapes (quoted units) ≡ is_paired units
unfolding validate_config_surrogate_escapes scan round
validate_config_surrogate_escapes_lem units h = scan-escape_all units h ∙ tests_pair-is_paired units
