-- ===== src/Text/Order.antt =====
-- Go's `<` on strings: byte by byte.
use tarion.Base.{◌≡◌, refl, Bool, true, false, not, ◌&&◌, ◌||◌, [], ◌∷◌, arith, ltb, ◌==◌}
use tarion.Text.{Text}

unfoldable pub str_lt : Text → Text → Bool
str_lt a [] = false
str_lt [] (b ∷ bs) = true
str_lt (a ∷ as') (b ∷ bs) = ltb a b || (a == b && str_lt as' bs)

-- `<=` is the negation of `<` the other way round.
abbrev pub str_le : Text → Text → Bool
str_le a b = not (str_lt b a)

pub str_lt_trans : (a b c : Text) → str_lt a b ≡ true → str_lt b c ≡ true → str_lt a c ≡ true
unfolding str_lt
str_lt_trans a b [] h k = ground arith
str_lt_trans a [] (z ∷ c) h k = ground arith
str_lt_trans [] (y ∷ b) (z ∷ c) h k = refl
str_lt_trans (x ∷ a) (y ∷ b) (z ∷ c) h k = ground (arith, str_lt_trans a b c)

pub str_lt_irrefl : (a : Text) → str_lt a a ≡ false
unfolding str_lt
str_lt_irrefl [] = refl
str_lt_irrefl (x ∷ a) = ground (arith, str_lt_irrefl a)

pub str_lt_connected : (a b : Text) → str_lt a b ≡ false → str_lt b a ≡ false → a ≡ b
unfolding str_lt
str_lt_connected [] [] h k = refl
str_lt_connected [] (y ∷ b) h k = cc
str_lt_connected (x ∷ a) [] h k = cc
str_lt_connected (x ∷ a) (y ∷ b) h k = ground (arith, str_lt_connected a b)
