-- ===== src/Text/Search.antt =====
-- `strings.HasPrefix`, `HasSuffix`, `Contains`, `TrimPrefix` and the like, over bytes.
use tarion.Base.{
  ◌-◌, ◌≡◌, refl, Bool, true, false, ◌&&◌, ◌||◌, [], ◌∷◌, ◌++◌, arith, leb, ◌==◌, if◌then◌else◌,
  length, drop, drop-append,
}
use tarion.Text.{Text, str_eq}

-- strings.HasPrefix(s, prefix)
unfoldable pub has_prefix : Text → Text → Bool
has_prefix s [] = true
has_prefix [] (p ∷ ps) = false
has_prefix (b ∷ s) (p ∷ ps) = b == p && has_prefix s ps

-- strings.HasSuffix(s, suffix)
unfoldable pub has_suffix : Text → Text → Bool
has_suffix s suffix =
    leb (length suffix) (length s) && str_eq (drop (length s - length suffix) s) suffix

-- strings.Contains(s, sub)
unfoldable pub contains : Text → Text → Bool
unfolding has_prefix
contains [] sub = has_prefix [] sub
contains (b ∷ s) sub = has_prefix (b ∷ s) sub || contains s sub

-- strings.TrimPrefix(s, prefix)
unfoldable pub trim_prefix : Text → Text → Text
trim_prefix s prefix = if has_prefix s prefix then drop (length prefix) s else s

pub has_prefix-append : (p s : Text) → has_prefix (p ++ s) p ≡ true
unfolding has_prefix
has_prefix-append [] [] = refl
has_prefix-append [] (b ∷ s) = refl
has_prefix-append (b ∷ p) s = ground (arith, has_prefix-append p s)

-- A string contains exactly what stands somewhere in it.
pub contains-append : (a sub b : Text) → contains (a ++ (sub ++ b)) sub ≡ true
unfolding contains
contains-append [] [] [] = refl
contains-append [] [] (y ∷ b) = ground arith
contains-append [] (x ∷ sub) b = ground (arith, has_prefix-append sub b)
contains-append (x ∷ a) sub b = ground (arith, contains-append a sub b)

pub trim_prefix-append : (p s : Text) → trim_prefix (p ++ s) p ≡ s
unfolding trim_prefix
trim_prefix-append p s = rw (has_prefix-append p s) (drop-append p s)

-- A string with a prefix is that prefix and the rest.
pub has_prefix-split : (s p : Text) → has_prefix s p ≡ true → s ≡ p ++ drop (length p) s
unfolding has_prefix
has_prefix-split s [] h = refl
has_prefix-split [] (c ∷ p) h = cc
has_prefix-split (b ∷ s) (c ∷ p) h = ground (arith, has_prefix-split s p)
