-- ===== src/Text/Trim.antt =====
-- `strings.TrimSpace`: the white space of Unicode, read at either end of the bytes.
use tarion.Base.{ℕ, zero, suc, ◌-◌, Bool, ◌&&◌, ◌||◌, [], ◌∷◌, leb, ◌==◌, if◌then◌else◌}
use mathlib.Core.List.{reverse}
use tarion.Text.{Text}

abbrev is_ascii_space : ℕ → Bool
is_ascii_space b = leb 9 b && leb b 13 || b == 32

-- The continuation bytes of the white space runes that take three bytes.
abbrev is_space3 : ℕ → ℕ → ℕ → Bool
is_space3 a b c =
    (a == 0xE1 && b == 0x9A && c == 0x80)
    || (a == 0xE2 && b == 0x80 && (leb 0x80 c && leb c 0x8A || c == 0xA8 || c == 0xA9 || c == 0xAF))
    || (a == 0xE2 && b == 0x81 && c == 0x9F)
    || (a == 0xE3 && b == 0x80 && c == 0x80)

abbrev is_space2 : ℕ → ℕ → Bool
is_space2 a b = a == 0xC2 && (b == 0x85 || b == 0xA0)

-- The width of the white space rune at the front, or 0.
space_width : Text → ℕ
space_width [] = 0
space_width (a ∷ []) = if is_ascii_space a then 1 else 0
space_width (a ∷ b ∷ []) = if is_ascii_space a then 1 else if is_space2 a b then 2 else 0
space_width (a ∷ b ∷ c ∷ s) =
    if is_ascii_space a then 1 else if is_space2 a b then 2 else if is_space3 a b c then 3 else 0

-- The same at the end, of the reversed bytes.
last_space_width : Text → ℕ
last_space_width [] = 0
last_space_width (a ∷ []) = if is_ascii_space a then 1 else 0
last_space_width (b ∷ a ∷ []) = if is_ascii_space b then 1 else if is_space2 a b then 2 else 0
last_space_width (c ∷ b ∷ a ∷ s) =
    if is_ascii_space c then 1 else if is_space2 b c then 2 else if is_space3 a b c then 3 else 0

-- Drops white space from the front, as `width` measures it; `skip` bytes belong to a rune that goes.
trim_front : (Text → ℕ) → ℕ → Text → Text
trim_front width skip [] = []
trim_front width (suc skip) (b ∷ s) = trim_front width skip s
trim_front width zero (b ∷ s) =
    let w = width (b ∷ s) in
    let trimmed = trim_front width (w - 1) s in if w == 0 then b ∷ s else trimmed

-- strings.TrimSpace
unfoldable pub trim_space : Text → Text
unfolding trim_front space_width last_space_width
trim_space s = reverse (trim_front last_space_width 0 (reverse (trim_front space_width 0 s)))
