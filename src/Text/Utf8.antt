-- ===== src/Text/Utf8.antt =====
-- Decoding of UTF-8 as Go's `range` over a string does it: an invalid byte is the rune U+FFFD, of
-- width one.
use tarion.Base.{
  ℕ, zero, suc, ◌+◌, ◌-◌, ◌*◌, ◌%◌, ◌≡◌, refl, Bool, true, false, ◌&&◌, List, [], ◌∷◌, arith, ltb,
  leb, ◌==◌, if◌then◌else◌, all_by,
}
use tarion.Text.{Text}

abbrev pub rune_error : ℕ
rune_error = 0xFFFD

-- A continuation byte.
abbrev is_cont : ℕ → Bool
is_cont b = leb 0x80 b && leb b 0xBF

-- One decoding step: the rune, its width, and whether the bytes were valid.
record Decoded : Type 0 where
  pub rune : ℕ
  pub width : ℕ
  pub valid : Bool

abbrev invalid : Decoded
invalid = record { rune = rune_error; width = 1; valid = false }

-- utf8.DecodeRune of a string that starts with these bytes. Two and three byte forms that would be
-- overlong, surrogates, and runes above U+10FFFF are refused by the range of the second byte.
second_low : ℕ → ℕ
second_low b0 = if b0 == 0xE0 then 0xA0 else if b0 == 0xF0 then 0x90 else 0x80

second_high : ℕ → ℕ
second_high b0 = if b0 == 0xED then 0x9F else if b0 == 0xF4 then 0x8F else 0xBF

decode_two : ℕ → Text → Decoded
decode_two b0 [] = invalid
decode_two b0 (b1 ∷ s) =
    if is_cont b1
    then record { rune = (b0 % 32) * 64 + b1 % 64; width = 2; valid = true }
    else invalid

decode_three : ℕ → Text → Decoded
unfolding second_low second_high
decode_three b0 (b1 ∷ b2 ∷ s) =
    if leb (second_low b0) b1 && leb b1 (second_high b0) && is_cont b2
    then record { rune = (b0 % 16) * 4096 + (b1 % 64) * 64 + b2 % 64; width = 3; valid = true }
    else invalid
decode_three b0 _ = invalid

decode_four : ℕ → Text → Decoded
unfolding second_low second_high
decode_four b0 (b1 ∷ b2 ∷ b3 ∷ s) =
    if leb (second_low b0) b1 && leb b1 (second_high b0) && is_cont b2 && is_cont b3
    then record {
      rune = (b0 % 8) * 262144 + (b1 % 64) * 4096 + (b2 % 64) * 64 + b3 % 64;
      width = 4;
      valid = true;
    }
    else invalid
decode_four b0 _ = invalid

decode_rune : ℕ → Text → Decoded
unfolding decode_two decode_three decode_four
decode_rune b0 s =
    if ltb b0 0x80
    then record { rune = b0; width = 1; valid = true }
    else if leb 0xC2 b0 && leb b0 0xDF
    then decode_two b0 s
    else if leb 0xE0 b0 && leb b0 0xEF
    then decode_three b0 s
    else if leb 0xF0 b0 && leb b0 0xF4
    then decode_four b0 s
    else invalid

-- `for _, r := range s`: `skip` bytes still belong to the rune before.
runes_from : ℕ → Text → List ℕ
unfolding decode_rune
runes_from skip [] = []
runes_from zero (b ∷ s) = let d = decode_rune b s in d.rune ∷ runes_from (d.width - 1) s
runes_from (suc skip) (b ∷ s) = runes_from skip s

unfoldable pub runes : Text → List ℕ
unfolding runes_from
runes s = runes_from 0 s

valid_from : ℕ → Text → Bool
unfolding decode_rune
valid_from skip [] = true
valid_from zero (b ∷ s) = let d = decode_rune b s in d.valid && valid_from (d.width - 1) s
valid_from (suc skip) (b ∷ s) = valid_from skip s

-- utf8.ValidString
unfoldable pub valid_string : Text → Bool
unfolding valid_from
valid_string s = valid_from 0 s

-- An ASCII string is its own runes.
pub runes_ascii : (s : Text) → all_by (λ b. ltb b 0x80) s ≡ true → runes s ≡ s
unfolding runes
runes_ascii [] h = refl
runes_ascii (b ∷ s) h = ground (arith, runes_ascii s)
