-- ===== src/Access/Invites.antt =====
-- The invites of server/access.go: a directory with one file for each unused code.
pub mod Once
pub mod Codes
use tarion.Base.{
  ℕ, zero, suc, ◌+◌, ◌-◌, ◌*◌, ◌/◌, ◌%◌, ◌^◌, Bool, true, false, not, ◌&&◌, ◌||◌, List, [], ◌∷◌,
  ◌++◌, map, ltb, leb, ◌==◌, if◌then◌else◌, length, take, drop, keep, all_by,
}
use tarion.Text.{Text, text, is_empty}
use tarion.Text.Lower.{is_ascii}
use tarion.Text.Sets.{member, add, remove_name}
use tarion.Text.Utf8.{runes}

abbrev pub invite_len : ℕ
invite_len = 16

abbrev pub is_invite_rune : ℕ → Bool
is_invite_rune r = leb b'A' r && leb r b'Z' || leb b'2' r && leb r b'7'

abbrev pub ascii_upper : ℕ → ℕ
ascii_upper b = if leb b'a' b && leb b b'z' then b - 32 else b

-- `strings.ToUpper`; a string that is not all ASCII goes through the Unicode tables, `map_upper`.
unfoldable pub to_upper : (Text → Text) → Text → Text
to_upper map_upper s = if is_ascii s then map ascii_upper s else map_upper s

abbrev pub is_code_byte : ℕ → Bool
is_code_byte b = not (b == b'-' || b == b' ')

-- The bare code of "ABCD-EFGH-..." in any case, or "" when it cannot be one.
unfoldable pub normalize_invite : (Text → Text) → Text → Text
normalize_invite map_upper code =
    let c = to_upper map_upper (keep is_code_byte code) in
    if length c == invite_len && all_by is_invite_rune (runes c) then c else []

unfoldable pub format_invite : Text → Text
format_invite c =
    take 4 c
    ++ (b'-' ∷ (take 4 (drop 4 c) ++ (b'-' ∷ (take 4 (drop 8 c) ++ (b'-' ∷ take 4 (drop 12 c))))))

abbrev pub base32_digit : ℕ → ℕ
base32_digit d = if ltb d 26 then b'A' + d else 24 + d

-- Eight digits for five bytes, the high ones first.
unfoldable pub base32_group : ℕ → Text
base32_group n =
    base32_digit (n / 2 ^ 35 % 32)
    ∷ base32_digit (n / 2 ^ 30 % 32)
    ∷ base32_digit (n / 2 ^ 25 % 32)
    ∷ base32_digit (n / 2 ^ 20 % 32)
    ∷ base32_digit (n / 2 ^ 15 % 32)
    ∷ base32_digit (n / 2 ^ 10 % 32)
    ∷ base32_digit (n / 2 ^ 5 % 32)
    ∷ base32_digit (n % 32)
    ∷ []

-- `base32.StdEncoding` without padding, of a whole number of groups of five bytes.
unfoldable pub invite_encoding : Text → Text
unfolding base32_group
invite_encoding (a ∷ b ∷ c ∷ d ∷ e ∷ s) =
    base32_group ((((a * 256 + b) * 256 + c) * 256 + d) * 256 + e) ++ invite_encoding s
invite_encoding _ = []

-- What creating a file for a code gives.
pub data Drawn : Type 0 where
  no_random cannot_create : Drawn
  bytes : Text → Drawn

-- How Create ends: with the codes, with an error, or still drawing when no draw is left.
pub data Created : Type 0 where
  codes_made : List Text → Created
  failed : Created
  drawing : Created

-- The loop of Create: the codes that are still to make, those made, and the draws to come. A draw
-- whose code exists is made again.
unfoldable pub create_loop : ℕ → List Text → List Drawn → List Text → Created × List Text
create_loop zero out draws dir = (codes_made out, dir)
create_loop (suc n) out [] dir = (drawing, dir)
create_loop (suc n) out (no_random ∷ draws) dir = (failed, dir)
create_loop (suc n) out (cannot_create ∷ draws) dir = (failed, dir)
create_loop (suc n) out (bytes b ∷ draws) dir =
    let code = invite_encoding b in
    let again = create_loop (suc n) out draws dir in
    let made = create_loop n (out ++ format_invite code ∷ []) draws (add code dir) in
    if member code dir then again else made

unfoldable pub create : ℕ → List Drawn → List Text → Created × List Text
create n draws dir = create_loop n [] draws dir

-- Consume uses up a code, and says whether it was valid.
unfoldable pub consume : (Text → Text) → List Text → Text → Bool × List Text
consume map_upper dir code =
    let c = normalize_invite map_upper code in
    if not (is_empty c) && member c dir then (true, remove_name c dir) else (false, dir)

-- Restore puts back a code that was consumed for a registration that then failed, if the file can be
-- written.
unfoldable pub restore : (Text → Text) → Bool → List Text → Text → List Text
restore map_upper written dir code =
    let c = normalize_invite map_upper code in
    if not (is_empty c) && written then add c dir else dir
