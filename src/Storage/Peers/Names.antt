-- ===== src/Storage/Peers/Names.antt =====
-- Display names and texts of internal/storage/peers.go, made safe to show.
use tarion.Base.{
  ℕ, zero, suc, ◌*◌, ◌≤◌, Bool, ◌&&◌, ◌||◌, List, [], ◌∷◌, ◌++◌, arith, ltb, ◌==◌, if◌then◌else◌,
  length, take, length-append,
}
use tarion.Text.{Text}
use tarion.Text.Lower.{Unicode}
use tarion.Text.Utf8.{runes}
use tarion.Text.Trim.{trim_space}
use tarion.Text.Clean.{rune_bytes, trim_bytes, length-rune_bytes-le, length-trim_bytes-le}

unfoldable pub short : Text → Text
short id = if ltb 8 (length id) then take 8 id else id

abbrev pub max_name_runes : ℕ
max_name_runes = 32

unfoldable pub clean_rune : Unicode → ℕ → ℕ
clean_rune u r =
    if u.is_letter r || u.is_digit r || r == b'-' || r == b'_' || r == b'.'
    then r
    else if r == b' '
    then b' '
    else b'_'

-- The loop of CleanName, with `n` runes left to write.
unfoldable pub write_clean : Unicode → ℕ → List ℕ → Text
write_clean u zero rs = []
write_clean u (suc n) [] = []
write_clean u (suc n) (r ∷ rs) = rune_bytes (clean_rune u r) ++ write_clean u n rs

abbrev is_name_end : ℕ → Bool
is_name_end b = b == b' ' || b == b'.'

unfoldable pub clean_name : Unicode → Text → Text
clean_name u name = trim_bytes is_name_end (write_clean u max_name_runes (runes (trim_space name)))

-- strings.ReplaceAll(s, "\r\n", "\n")
unfoldable pub join_line_ends : Text → Text
join_line_ends [] = []
join_line_ends (a ∷ []) = a ∷ []
join_line_ends (a ∷ b ∷ s) =
    let rest = join_line_ends (b ∷ s) in if a == 13 && b == 10 then rest else a ∷ rest

-- What CleanText makes of a rune: no rune where it is dropped.
unfoldable pub clean_text_rune : Unicode → ℕ → List ℕ
clean_text_rune u r =
    if r == 10
    then 0x23CE ∷ []
    else if r == 9
    then b' ' ∷ []
    else if u.is_control r || r == 0x2028 || r == 0x2029
    then []
    else r ∷ []

runes_text : List ℕ → Text
runes_text [] = []
runes_text (r ∷ rs) = rune_bytes r ++ runes_text rs

write_text : Unicode → List ℕ → Text
unfolding runes_text
write_text u [] = []
write_text u (r ∷ rs) = runes_text (clean_text_rune u r) ++ write_text u rs

-- CleanText
unfoldable pub clean_text : Unicode → Text → Text
unfolding write_text
clean_text u s = write_text u (runes (join_line_ends s))

length-write_clean-le : (u : Unicode) (n : ℕ) (rs : List ℕ) → length (write_clean u n rs) ≤ 4 * n
unfolding write_clean
length-write_clean-le u zero rs = omega arith
length-write_clean-le u (suc n) [] = omega arith
length-write_clean-le u (suc n) (r ∷ rs) =
    let head = rune_bytes (clean_rune u r) in
    omega (
      arith,
      length-append head (write_clean u n rs),
      length-rune_bytes-le (clean_rune u r),
      length-write_clean-le u n rs,
    )

-- A clean name has at most 128 bytes.
pub length-clean_name-le : (u : Unicode) (name : Text) → length (clean_name u name) ≤ 128
unfolding clean_name
length-clean_name-le u name =
    let written = write_clean u max_name_runes (runes (trim_space name)) in
    omega (
      arith,
      length-trim_bytes-le is_name_end written,
      length-write_clean-le u max_name_runes (runes (trim_space name)),
    )
