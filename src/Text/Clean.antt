-- ===== src/Text/Clean.antt =====
-- strings.Trim for a set of bytes, and runes written as UTF-8.
use tarion.Base.{
  ℕ, ◌+◌, ◌/◌, ◌%◌, ◌≤◌, Bool, ◌&&◌, ◌||◌, [], ◌∷◌, arith, ltb, leb, if◌then◌else◌, length,
}
use tarion.Text.{Text, is_empty}

-- The bytes from the first one that is not cut.
unfoldable pub trim_left : (ℕ → Bool) → Text → Text
trim_left cut [] = []
trim_left cut (b ∷ s) = let rest = trim_left cut s in if cut b then rest else b ∷ s

unfoldable pub trim_end : (ℕ → Bool) → Text → Text
trim_end cut [] = []
trim_end cut (b ∷ s) = let rest = trim_end cut s in if is_empty rest && cut b then [] else b ∷ rest

-- strings.Trim(s, cutset)
unfoldable pub trim_bytes : (ℕ → Bool) → Text → Text
trim_bytes cut s = trim_end cut (trim_left cut s)

-- strings.Builder.WriteRune: what is no Unicode scalar value is written as U+FFFD.
unfoldable pub rune_bytes : ℕ → Text
rune_bytes r =
    if ltb r 0x80
    then r ∷ []
    else if ltb r 0x800
    then (0xC0 + r / 64) ∷ (0x80 + r % 64) ∷ []
    else if leb 0xD800 r && leb r 0xDFFF || ltb 0x10FFFF r
    then 0xEF ∷ 0xBF ∷ 0xBD ∷ []
    else if ltb r 0x10000
    then (0xE0 + r / 4096) ∷ (0x80 + r / 64 % 64) ∷ (0x80 + r % 64) ∷ []
    else (0xF0 + r / 262144) ∷ (0x80 + r / 4096 % 64) ∷ (0x80 + r / 64 % 64) ∷ (0x80 + r % 64) ∷ []

pub length-trim_left-le : (cut : ℕ → Bool) (s : Text) → length (trim_left cut s) ≤ length s
unfolding trim_left
length-trim_left-le cut [] = omega arith
length-trim_left-le cut (b ∷ s) = ground (arith, length-trim_left-le cut s)

pub length-trim_end-le : (cut : ℕ → Bool) (s : Text) → length (trim_end cut s) ≤ length s
unfolding trim_end
length-trim_end-le cut [] = omega arith
length-trim_end-le cut (b ∷ s) = ground (arith, length-trim_end-le cut s)

pub length-trim_bytes-le : (cut : ℕ → Bool) (s : Text) → length (trim_bytes cut s) ≤ length s
unfolding trim_bytes
length-trim_bytes-le cut s =
    omega (arith, length-trim_end-le cut (trim_left cut s), length-trim_left-le cut s)

pub length-rune_bytes-le : (r : ℕ) → length (rune_bytes r) ≤ 4
unfolding rune_bytes
length-rune_bytes-le r = ground arith
