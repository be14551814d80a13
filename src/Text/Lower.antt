-- ===== src/Text/Lower.antt =====
-- `strings.ToLower` and `strings.EqualFold`. Go lowers ASCII strings byte by byte; for any other
-- string it consults the Unicode tables, which are a parameter here.
use tarion.Base.{
  ℕ, ◌+◌, ◌≡◌, refl, Bool, true, ◌&&◌, [], ◌∷◌, map, arith, ltb, leb, if◌then◌else◌, Bool-cases,
  all_by,
}
use tarion.Text.{Text, str_eq}

pub record Unicode : Type 0 where
  -- `strings.Map(unicode.ToLower, s)`, for a string that is not all ASCII
  pub map_lower : Text → Text
  -- `unicode.IsLetter`, `unicode.IsDigit` and `unicode.IsControl` of a rune
  pub is_letter : ℕ → Bool
  pub is_digit : ℕ → Bool
  pub is_control : ℕ → Bool
  -- `strings.EqualFold`, for strings that are not both ASCII
  pub fold_equal : Text → Text → Bool

unfoldable pub is_ascii : Text → Bool
is_ascii s = all_by (λ b. ltb b 128) s

abbrev pub ascii_lower : ℕ → ℕ
ascii_lower b = if leb b'A' b && leb b b'Z' then b + 32 else b

unfoldable pub lower_bytes : Text → Text
lower_bytes s = map ascii_lower s

unfoldable pub to_lower : Unicode → Text → Text
to_lower u s = if is_ascii s then lower_bytes s else u.map_lower s

-- strings.EqualFold
unfoldable pub equal_fold : Unicode → Text → Text → Bool
equal_fold u s t =
    if is_ascii s && is_ascii t then str_eq (lower_bytes s) (lower_bytes t) else u.fold_equal s t

-- What is relied on of the tables: lower case is a fixed point of lowering.
abbrev pub LowersOnce : Unicode → Type 0
LowersOnce u = (s : Text) → to_lower u (u.map_lower s) ≡ u.map_lower s

lower_bytes-is_ascii : (s : Text) → is_ascii s ≡ true → is_ascii (lower_bytes s) ≡ true
unfolding is_ascii lower_bytes
lower_bytes-is_ascii [] h = refl
lower_bytes-is_ascii (b ∷ s) h = ground (arith, lower_bytes-is_ascii s)

lower_bytes_idem : (s : Text) → lower_bytes (lower_bytes s) ≡ lower_bytes s
unfolding lower_bytes
lower_bytes_idem [] = refl
lower_bytes_idem (b ∷ s) = ground (arith, lower_bytes_idem s)

pub to_lower_idem :
    (u : Unicode) → LowersOnce u → (s : Text) → to_lower u (to_lower u s) ≡ to_lower u s
unfolding to_lower
to_lower_idem u h s =
    ground (arith, lower_bytes-is_ascii s, lower_bytes_idem s, h s, Bool-cases (is_ascii s))
