-- ===== src/Storage/Lines.antt =====
-- The lines of a file, as internal/storage/sealed.go reads them back from what it writes.
use tarion.Base.{ℕ, ◌≡◌, refl, ap, ◌∙◌, Bool, false, not, List, [], ◌∷◌, ◌++◌, map, ◌==◌, keep, All}
use mathlib.Core.List.{append_assoc}
use tarion.Text.{Text, is_empty}
use tarion.Text.Clean.{trim_end}
use tarion.Text.Split.{split, join, Without, split-join}

abbrev pub is_cr : ℕ → Bool
is_cr b = b == 13

-- The lines of readRawLines.
unfoldable pub raw_lines : Text → List Text
raw_lines bytes = keep (λ l. not (is_empty l)) (map (trim_end is_cr) (split 10 bytes))

-- The body of a file of lines.
unfoldable pub body_of : List Text → Text
body_of [] = []
body_of (l ∷ ls) = join 10 (l ∷ ls) ++ (10 ∷ [])

-- A line that is not empty, has no newline, and does not end in a carriage return.
abbrev pub IsLine : Text → Type 0
IsLine l = (is_empty l ≡ false) × (Without 10 l × (trim_end is_cr l ≡ l))

join-end :
    (l : Text) (ls : List Text) → join 10 (l ∷ ls) ++ (10 ∷ []) ≡ join 10 ((l ∷ ls) ++ ([] ∷ []))
unfolding join
join-end l [] = refl
join-end l (k ∷ ls) =
    append_assoc l (10 ∷ join 10 (k ∷ ls)) (10 ∷ []) ∙ ap (λ s. l ++ (10 ∷ s)) (join-end k ls)

without : (ls : List Text) → All IsLine ls → All (Without 10) (ls ++ ([] ∷ []))
without [] h = (tt, tt)
without (l ∷ ls) h = (h.0.1.0, without ls h.1)

lines_kept :
    (ls : List Text)
    → All IsLine ls
    → keep (λ l. not (is_empty l)) (map (trim_end is_cr) (ls ++ ([] ∷ []))) ≡ ls
unfolding trim_end
lines_kept [] h = refl
lines_kept (l ∷ ls) h = rw (h.0.1.1, h.0.0) (ap (◌∷◌ l) (lines_kept ls h.1))

-- Lines that were written are read back.
pub raw_lines-body_of : (ls : List Text) → All IsLine ls → raw_lines (body_of ls) ≡ ls
unfolding raw_lines body_of split trim_end
raw_lines-body_of [] h = refl
raw_lines-body_of (l ∷ ls) h =
    let parts : split 10 (join 10 (l ∷ ls) ++ (10 ∷ [])) ≡ l ∷ (ls ++ ([] ∷ [])) =
      ap (split 10) (join-end l ls) ∙ split-join 10 l (ls ++ ([] ∷ [])) (without (l ∷ ls) h) in
    ap (λ ps. keep (λ l. not (is_empty l)) (map (trim_end is_cr) ps)) parts ∙ lines_kept (l ∷ ls) h
