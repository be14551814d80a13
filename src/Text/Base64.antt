-- ===== src/Text/Base64.antt =====
-- `encoding/base64` in its raw standard form: six bits for each letter, and no padding. Decoding skips
-- the ends of lines, and does not look at the bits that are left over.
use tarion.Base.{
  ℕ, ◌+◌, ◌-◌, ◌*◌, ◌/◌, ◌%◌, ◌<◌, ◌≡◌, refl, sym, ap, ◌∙◌, subst, Bool, true, not, ◌&&◌, ◌||◌,
  Option, none, some, [], ◌∷◌, map, arith, ltb, leb, ◌==◌, if◌then◌else◌, keep, All, keep_same,
  All-map,
}
use mathlib.Core.Option
use tarion.Text.{Text, IsBytes}

unfoldable pub b64_digit : ℕ → ℕ
b64_digit d =
    if ltb d 26
    then 65 + d
    else if ltb d 52
    then 71 + d
    else if ltb d 62
    then d - 4
    else if d == 62
    then 43
    else 47

unfoldable pub b64_value : ℕ → Option ℕ
b64_value c =
    if leb 65 c && leb c 90
    then some (c - 65)
    else if leb 97 c && leb c 122
    then some (c - 71)
    else if leb 48 c && leb c 57
    then some (c + 4)
    else if c == 43
    then some 62
    else if c == 47
    then some 63
    else none

-- The groups of six bits.
unfoldable pub sextets : Text → Text
sextets [] = []
sextets (a ∷ []) = a / 4 ∷ (a % 4) * 16 ∷ []
sextets (a ∷ b ∷ []) = a / 4 ∷ ((a % 4) * 16 + b / 16) ∷ (b % 16) * 4 ∷ []
sextets (a ∷ b ∷ c ∷ s) =
    a / 4 ∷ ((a % 4) * 16 + b / 16) ∷ ((b % 16) * 4 + c / 64) ∷ c % 64 ∷ sextets s

-- The bytes of groups of six bits; a single group that is left over is an error.
unfoldable pub octets : Text → Option Text
octets [] = some []
octets (a ∷ []) = none
octets (a ∷ b ∷ []) = some ((a * 4 + b / 16) ∷ [])
octets (a ∷ b ∷ c ∷ []) = some ((a * 4 + b / 16) ∷ ((b % 16) * 16 + c / 4) ∷ [])
octets (a ∷ b ∷ c ∷ d ∷ s) =
    Option.map (λ r. (a * 4 + b / 16) ∷ ((b % 16) * 16 + c / 4) ∷ ((c % 4) * 64 + d) ∷ r) (octets s)

cons_value : Option ℕ → Option Text → Option Text
cons_value (some v) (some vs) = some (v ∷ vs)
cons_value _ _ = none

sextet_values : Text → Option Text
unfolding cons_value
sextet_values [] = some []
sextet_values (c ∷ s) = cons_value (b64_value c) (sextet_values s)

-- EncodeToString
unfoldable pub encode : Text → Text
encode s = map b64_digit (sextets s)

abbrev is_line_end : ℕ → Bool
is_line_end c = c == 10 || c == 13

octets_of : Option Text → Option Text
octets_of none = none
octets_of (some vs) = octets vs

-- DecodeString
unfoldable pub decode : Text → Option Text
unfolding sextet_values octets_of
decode s = elim (sextet_values (keep (λ c. not (is_line_end c)) s)) [
  | none ↦ none
  | some vs ↦ octets vs
]

octets-sextets : (s : Text) → IsBytes s → octets (sextets s) ≡ some s
unfolding octets sextets
octets-sextets [] h = refl
octets-sextets (a ∷ []) h = ap (λ x. some (x ∷ [])) (omega (arith, h.0))
octets-sextets (a ∷ b ∷ []) h =
    let e1 : a / 4 * 4 + ((a % 4) * 16 + b / 16) / 16 ≡ a = omega (arith, h.0, h.1.0) in
    let e2 : (((a % 4) * 16 + b / 16) % 16) * 16 + ((b % 16) * 4) / 4 ≡ b =
      omega (arith, h.0, h.1.0) in
    rw (e1, e2) refl
octets-sextets (a ∷ b ∷ c ∷ s) h =
    let e1 : a / 4 * 4 + ((a % 4) * 16 + b / 16) / 16 ≡ a = omega (arith, h.0, h.1.0) in
    let e2 : (((a % 4) * 16 + b / 16) % 16) * 16 + ((b % 16) * 4 + c / 64) / 4 ≡ b =
      omega (arith, h.0, h.1.0, h.1.1.0) in
    let e3 : (((b % 16) * 4 + c / 64) % 4) * 64 + c % 64 ≡ c = omega (arith, h.1.0, h.1.1.0) in
    rw (octets-sextets s h.1.1.1, e1, e2, e3) refl

abbrev IsSextets : Text → Type 0
IsSextets s = All (λ d. d < 64) s

sextets-IsSextets : (s : Text) → IsBytes s → IsSextets (sextets s)
unfolding sextets
sextets-IsSextets [] h = tt
sextets-IsSextets (a ∷ []) h = (omega (arith, h.0), (omega arith, tt))
sextets-IsSextets (a ∷ b ∷ []) h = (omega (arith, h.0), (omega (arith, h.1.0), (omega arith, tt)))
sextets-IsSextets (a ∷ b ∷ c ∷ s) h = (
  omega (arith, h.0),
  (omega (arith, h.1.0), (omega (arith, h.1.1.0), (omega arith, sextets-IsSextets s h.1.1.1))),
)

b64_value-b64_digit : (d : ℕ) → d < 64 → b64_value (b64_digit d) ≡ some d
unfolding b64_value b64_digit
b64_value-b64_digit d h = ground arith

sextet_values-digits : (s : Text) → IsSextets s → sextet_values (map b64_digit s) ≡ some s
unfolding sextet_values
sextet_values-digits [] h = refl
sextet_values-digits (d ∷ s) h = rw (b64_value-b64_digit d h.0, sextet_values-digits s h.1) refl

-- A letter of the alphabet is no end of line, no `$`, and no blank.
abbrev pub is_letter64 : ℕ → Bool
is_letter64 c = leb 43 c && leb c 122

b64_digit-letter : (d : ℕ) → d < 64 → is_letter64 (b64_digit d) ≡ true
unfolding b64_digit
b64_digit-letter d h = ground arith

digits_letters : (s : Text) → IsSextets s → All (λ c. is_letter64 c ≡ true) (map b64_digit s)
digits_letters [] h = tt
digits_letters (d ∷ s) h = (b64_digit-letter d h.0, digits_letters s h.1)

pub encode_letters : (s : Text) → IsBytes s → All (λ c. is_letter64 c ≡ true) (encode s)
unfolding encode
encode_letters s h = digits_letters (sextets s) (sextets-IsSextets s h)

not_line_end : (c : ℕ) → is_letter64 c ≡ true → not (is_line_end c) ≡ true
not_line_end c h = ground (arith, h)

decode_values :
    (s vs : Text)
    → keep (λ c. not (is_line_end c)) s ≡ s
    → sextet_values s ≡ some vs
    → decode s ≡ octets vs
unfolding decode octets_of
decode_values s vs k h =
    subst (λ t. octets_of (sextet_values t) ≡ octets vs) (sym k) (ap octets_of h)

-- Decoding what was encoded gives the bytes back.
pub decode-encode : (s : Text) → IsBytes s → decode (encode s) ≡ some s
unfolding encode
decode-encode s h =
    let kept =
      All-map (λ c. is_letter64 c ≡ true) (λ c. not (is_line_end c) ≡ true)
        (map b64_digit (sextets s)) not_line_end (encode_letters s h) in
    decode_values (encode s) (sextets s)
      (keep_same (λ c. not (is_line_end c)) (map b64_digit (sextets s)) kept)
      (sextet_values-digits (sextets s) (sextets-IsSextets s h))
    ∙ octets-sextets s h
