-- ===== src/Text/Utf8.antt =====
-- unicode/utf8: the runes of a string. A byte that begins no rune counts as one rune by itself.
use wasi.Prelude.{ℕ, zero, suc, ◌-◌, Bool, false, ◌&&◌, [], ◌∷◌, leb, ltb, ◌==◌, if◌then◌else◌}
use wasi.Host.{Bytes}

abbrev between : ℕ → ℕ → ℕ → Bool
between lo c hi = leb lo c && leb c hi

abbrev continues : ℕ → Bool
continues c = between 0x80 c 0xbf

-- The second bytes that may follow a first byte of three or four.
abbrev second_ok : ℕ → ℕ → Bool
second_ok first c =
    if first == 0xe0
    then between 0xa0 c 0xbf
    else if first == 0xed
    then between 0x80 c 0x9f
    else if first == 0xf0
    then between 0x90 c 0xbf
    else if first == 0xf4
    then between 0x80 c 0x8f
    else continues c

-- How many bytes a first byte asks for; 0 for one that begins no rune.
abbrev asked : ℕ → ℕ
asked c =
    if ltb c 0x80
    then 1
    else if between 0xc2 c 0xdf
    then 2
    else if between 0xe0 c 0xef
    then 3
    else if between 0xf0 c 0xf4
    then 4
    else 0

abbrev follows2 : Bytes → Bool
follows2 [] = false
follows2 (c ∷ s) = continues c

abbrev follows3 : ℕ → Bytes → Bool
follows3 first [] = false
follows3 first (c ∷ []) = false
follows3 first (c ∷ d ∷ s) = second_ok first c && continues d

abbrev follows4 : ℕ → Bytes → Bool
follows4 first [] = false
follows4 first (c ∷ []) = false
follows4 first (c ∷ d ∷ []) = false
follows4 first (c ∷ d ∷ e ∷ s) = second_ok first c && (continues d && continues e)

-- The bytes of the rune that begins with `c` and goes on in `s`; 0 where none does.
unfoldable pub rune_length : ℕ → Bytes → ℕ
rune_length c s =
    if asked c == 1
    then 1
    else if (asked c == 2) && follows2 s
    then 2
    else if (asked c == 3) && follows3 c s
    then 3
    else if (asked c == 4) && follows4 c s
    then 4
    else 0

-- Skips `skip` bytes and counts from there.
unfoldable pub count_from : ℕ → Bytes → ℕ
count_from skip [] = 0
count_from (suc skip) (c ∷ s) = count_from skip s
count_from zero (c ∷ s) = let n = rune_length c s in suc (count_from (n - 1) s)

-- utf8.RuneCountInString
unfoldable pub rune_count : Bytes → ℕ
unfolding count_from
rune_count s = count_from 0 s
