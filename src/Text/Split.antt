-- ===== src/Text/Split.antt =====
-- `strings.Split(s, sep)` for a separator of one byte, and `strings.Join`.
use tarion.Base.{ℕ, ◌≡◌, refl, ap, ◌∙◌, false, List, [], ◌∷◌, ◌++◌, arith, ◌==◌, if◌then◌else◌, All}
use tarion.Text.{Text}

-- Puts a byte in front of the first part.
abbrev pub cons_part : ℕ → List Text → List Text
cons_part b [] = (b ∷ []) ∷ []
cons_part b (p ∷ ps) = (b ∷ p) ∷ ps

unfoldable pub split : ℕ → Text → List Text
split sep [] = [] ∷ []
split sep (b ∷ s) = let rest = split sep s in if b == sep then [] ∷ rest else cons_part b rest

unfoldable pub join : ℕ → List Text → Text
join sep [] = []
join sep (p ∷ []) = p
join sep (p ∷ q ∷ ps) = p ++ (sep ∷ join sep (q ∷ ps))

-- No byte of a part is the separator.
abbrev pub Without : ℕ → Text → Type 0
Without sep s = All (λ b. (b == sep) ≡ false) s

split-append :
    (sep : ℕ) (p : Text) (s : Text) → Without sep p → split sep (p ++ (sep ∷ s)) ≡ p ∷ split sep s
unfolding split
split-append sep [] s h = ground arith
split-append sep (b ∷ p) s h = ground (arith, h.0, split-append sep p s h.1)

split-part : (sep : ℕ) (p : Text) → Without sep p → split sep p ≡ p ∷ []
unfolding split
split-part sep [] h = refl
split-part sep (b ∷ p) h = ground (arith, h.0, split-part sep p h.1)

-- Splitting what was joined gives the parts back.
pub split-join :
    (sep : ℕ) (p : Text) (ps : List Text)
    → All (Without sep) (p ∷ ps)
    → split sep (join sep (p ∷ ps)) ≡ p ∷ ps
unfolding join
split-join sep p [] h = split-part sep p h.0
split-join sep p (q ∷ ps) h =
    split-append sep p (join sep (q ∷ ps)) h.0 ∙ ap (◌∷◌ p) (split-join sep q ps h.1)
