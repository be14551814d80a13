-- ===== src/Access/Invites/Codes.antt =====
-- The codes that Create makes are codes that Consume accepts.
use tarion.Base.{
  ℕ, zero, suc, ◌+◌, ◌*◌, ◌/◌, ◌%◌, ◌^◌, ◌≡◌, refl, sym, ap, ◌∙◌, subst, inl, inr, true, List, [],
  ◌∷◌, ◌++◌, map, arith, Bool-cases, length, take, drop, keep, all_by, All, All-append, keep-append,
  take-drop, length-drop, drop-drop, take_all, All-map,
}
use tarion.Text.{Text, str_eq_refl}
use tarion.Text.Lower.{is_ascii}
use tarion.Text.Sets.{member, add, member-add}
use tarion.Text.Utf8.{runes_ascii}
use tarion.Access.Invites.{
  is_invite_rune, ascii_upper, to_upper, is_code_byte, normalize_invite, format_invite,
  base32_digit, base32_group, invite_encoding, Drawn, bytes, no_random, cannot_create, Created,
  codes_made, failed, drawing, create_loop, create, consume,
}

abbrev pub AllDigits : Text → Type 0
AllDigits = All (λ b. is_invite_rune b ≡ true)

-- Sixteen digits of base 32.
abbrev pub IsCode : Text → Type 0
IsCode c = (length c ≡ 16) × AllDigits c

digit_ok : (n : ℕ) → is_invite_rune (base32_digit (n % 32)) ≡ true
digit_ok n = ground arith

group-AllDigits : (n : ℕ) (s : Text) → AllDigits s → AllDigits (base32_group n ++ s)
unfolding base32_group
group-AllDigits n s h = (
  digit_ok (n / 2 ^ 35),
  (
    digit_ok (n / 2 ^ 30),
    (
      digit_ok (n / 2 ^ 25),
      (
        digit_ok (n / 2 ^ 20),
        (digit_ok (n / 2 ^ 15), (digit_ok (n / 2 ^ 10), (digit_ok (n / 2 ^ 5), (digit_ok n, h)))),
      ),
    ),
  ),
)

is_ascii-AllDigits : (c : Text) → AllDigits c → is_ascii c ≡ true
unfolding is_ascii
is_ascii-AllDigits [] h = refl
is_ascii-AllDigits (b ∷ c) h = ground (arith, h.0, is_ascii-AllDigits c h.1)

upper-AllDigits : (c : Text) → AllDigits c → map ascii_upper c ≡ c
upper-AllDigits [] h = refl
upper-AllDigits (b ∷ c) h = ground (arith, h.0, upper-AllDigits c h.1)

all_digits : (c : Text) → AllDigits c → all_by is_invite_rune c ≡ true
all_digits [] h = refl
all_digits (b ∷ c) h = ground (arith, h.0, all_digits c h.1)

keep_digits : (c : Text) → AllDigits c → keep is_code_byte c ≡ c
keep_digits [] h = refl
keep_digits (b ∷ c) h = ground (arith, h.0, keep_digits c h.1)

AllDigits-take : (n : ℕ) (c : Text) → AllDigits c → AllDigits (take n c)
AllDigits-take zero c h = tt
AllDigits-take (suc n) [] h = tt
AllDigits-take (suc n) (b ∷ c) h = (h.0, AllDigits-take n c h.1)

AllDigits-drop : (n : ℕ) (c : Text) → AllDigits c → AllDigits (drop n c)
AllDigits-drop zero c h = h
AllDigits-drop (suc n) [] h = tt
AllDigits-drop (suc n) (b ∷ c) h = AllDigits-drop n c h.1

-- Dropping the hyphens of a formatted code.
keep-chunk :
    (n : ℕ) (c s : Text)
    → AllDigits c
    → keep is_code_byte (take n c ++ (b'-' ∷ s)) ≡ take n c ++ keep is_code_byte s
keep-chunk n c s h =
    keep-append is_code_byte (take n c) (b'-' ∷ s)
    ∙ ap (λ t. t ++ keep is_code_byte s) (keep_digits (take n c) (AllDigits-take n c h))

keep-format_invite : (c : Text) → IsCode c → keep is_code_byte (format_invite c) ≡ c
unfolding format_invite
keep-format_invite c (len, h) =
    let t = take 4 (drop 12 c) in
    let last : t ≡ drop 12 c = take_all 4 (drop 12 c) (omega (arith, len, length-drop 12 c)) in
    let c8 : take 4 (drop 8 c) ++ t ≡ drop 8 c =
      ap (λ s. take 4 (drop 8 c) ++ s) (last ∙ sym (drop-drop 4 8 c)) ∙ take-drop 4 (drop 8 c) in
    let c4 : take 4 (drop 4 c) ++ (take 4 (drop 8 c) ++ t) ≡ drop 4 c =
      ap (λ s. take 4 (drop 4 c) ++ s) (c8 ∙ sym (drop-drop 4 4 c)) ∙ take-drop 4 (drop 4 c) in
    keep-chunk 4 c (take 4 (drop 4 c) ++ (b'-' ∷ (take 4 (drop 8 c) ++ (b'-' ∷ t)))) h
    ∙ ap (λ s. take 4 c ++ s)
        (keep-chunk 4 (drop 4 c) (take 4 (drop 8 c) ++ (b'-' ∷ t)) (AllDigits-drop 4 c h)
          ∙ ap (λ s. take 4 (drop 4 c) ++ s)
              (keep-chunk 4 (drop 8 c) t (AllDigits-drop 8 c h)
                ∙ ap (λ s. take 4 (drop 8 c) ++ s)
                    (keep_digits t (AllDigits-take 4 (drop 12 c) (AllDigits-drop 12 c h))))
          ∙ c4)
    ∙ take-drop 4 c

-- A code, formatted, is normalized to itself.
pub normalize_invite-format_invite :
    (map_upper : Text → Text) (c : Text)
    → IsCode c
    → normalize_invite map_upper (format_invite c) ≡ c
unfolding normalize_invite to_upper is_ascii
normalize_invite-format_invite map_upper c (len, h) =
    let ascii = is_ascii-AllDigits c h in
    rw
      (
        keep-format_invite c (len, h),
        to_upper,
        ascii,
        upper-AllDigits c h,
        runes_ascii c ascii,
        all_digits c h,
        len,
      )
      refl

five-length : (s : Text) → length s ≡ 5 → length (invite_encoding s) ≡ 8
unfolding invite_encoding base32_group
five-length (a ∷ b ∷ c ∷ d ∷ e ∷ []) h = refl
five-length (a ∷ b ∷ c ∷ d ∷ e ∷ f ∷ s) h = absurd (omega (arith, h))
five-length [] h = absurd (omega (arith, h))
five-length (a ∷ []) h = absurd (omega (arith, h))
five-length (a ∷ b ∷ []) h = absurd (omega (arith, h))
five-length (a ∷ b ∷ c ∷ []) h = absurd (omega (arith, h))
five-length (a ∷ b ∷ c ∷ d ∷ []) h = absurd (omega (arith, h))

ten-length : (s : Text) → length s ≡ 10 → length (invite_encoding s) ≡ 16
unfolding invite_encoding base32_group
ten-length (a ∷ b ∷ c ∷ d ∷ e ∷ s) h = omega (arith, five-length s (omega (arith, h)))
ten-length [] h = absurd (omega (arith, h))
ten-length (a ∷ []) h = absurd (omega (arith, h))
ten-length (a ∷ b ∷ []) h = absurd (omega (arith, h))
ten-length (a ∷ b ∷ c ∷ []) h = absurd (omega (arith, h))
ten-length (a ∷ b ∷ c ∷ d ∷ []) h = absurd (omega (arith, h))

encoding-AllDigits : (s : Text) → AllDigits (invite_encoding s)
unfolding invite_encoding
encoding-AllDigits (a ∷ b ∷ c ∷ d ∷ e ∷ s) =
    group-AllDigits ((((a * 256 + b) * 256 + c) * 256 + d) * 256 + e) (invite_encoding s)
      (encoding-AllDigits s)
encoding-AllDigits [] = tt
encoding-AllDigits (a ∷ []) = tt
encoding-AllDigits (a ∷ b ∷ []) = tt
encoding-AllDigits (a ∷ b ∷ c ∷ []) = tt
encoding-AllDigits (a ∷ b ∷ c ∷ d ∷ []) = tt

-- Every draw that succeeds has ten bytes.
abbrev pub IsTen : Drawn → Type 0
IsTen (bytes b) = length b ≡ 10
IsTen no_random = Unit {0}
IsTen cannot_create = Unit {0}

-- What is to be shown of a formatted code: Consume accepts it, in this directory.
abbrev pub IsUsable : (Text → Text) → List Text → Text → Type 0
IsUsable map_upper dir code = (consume map_upper dir code).0 ≡ true

format_invite-IsUsable :
    (map_upper : Text → Text) (dir : List Text) (c : Text)
    → IsCode c
    → member c dir ≡ true
    → IsUsable map_upper dir (format_invite c)
unfolding consume
format_invite-IsUsable map_upper dir [] (len, h) m = absurd (omega (arith, len))
format_invite-IsUsable map_upper dir (b ∷ c) h m =
    rw (normalize_invite-format_invite map_upper (b ∷ c) h, m) refl

-- A code that is usable stays so when another is added.
IsUsable-add :
    (map_upper : Text → Text) (dir : List Text) (k code : Text)
    → IsUsable map_upper dir code
    → IsUsable map_upper (add k dir) code
unfolding consume
IsUsable-add map_upper dir k code h =
    ground (arith, h, member-add k (normalize_invite map_upper code) dir)

made_of : Created → List Text
made_of (codes_made out) = out
made_of failed = []
made_of drawing = []

-- What the loop makes is added to what it had.
create_loop-IsUsable :
    (map_upper : Text → Text) (n : ℕ) (out out' : List Text) (draws : List Drawn)
    (dir dir' : List Text)
    → All IsTen draws
    → All (IsUsable map_upper dir) out
    → create_loop n out draws dir ≡ (codes_made out', dir')
    → All (IsUsable map_upper dir') out'
unfolding create_loop made_of
create_loop-IsUsable map_upper zero out out' draws dir dir' t h e =
    subst (λ z. All (IsUsable map_upper z.1) (made_of z.0)) e h
create_loop-IsUsable map_upper (suc n) out out' [] dir dir' t h e = absurd (ground (arith, e))
create_loop-IsUsable map_upper (suc n) out out' (no_random ∷ draws) dir dir' t h e =
    absurd (ground (arith, e))
create_loop-IsUsable map_upper (suc n) out out' (cannot_create ∷ draws) dir dir' t h e =
    absurd (ground (arith, e))
create_loop-IsUsable map_upper (suc n) out out' (bytes b ∷ draws) dir dir' t h e =
    let code = invite_encoding b in
    elim (Bool-cases (member code dir)) [
      | inl m ↦
          create_loop-IsUsable map_upper (suc n) out out' draws dir dir' t.1 h
            (rw (m, create_loop) at e)
      | inr m ↦
          create_loop-IsUsable map_upper n (out ++ format_invite code ∷ []) out' draws
            (add code dir) dir' t.1
            (All-append (IsUsable map_upper (add code dir)) out (format_invite code ∷ [])
              (All-map (IsUsable map_upper dir) (IsUsable map_upper (add code dir)) out
                (IsUsable-add map_upper dir code) h)
              (
                format_invite-IsUsable map_upper (add code dir) code
                    (ten-length b t.0, encoding-AllDigits b)
                    (ground (arith, member-add code code dir, str_eq_refl code)),
                tt,
              ))
            (rw (m, create_loop) at e)
    ]

-- If all draws that succeed have ten bytes and Create returns codes, then Consume accepts every one
-- of them in the directory that Create leaves.
pub create-IsUsable :
    (map_upper : Text → Text) (n : ℕ) (out : List Text) (draws : List Drawn) (dir dir' : List Text)
    → All IsTen draws
    → create n draws dir ≡ (codes_made out, dir')
    → All (IsUsable map_upper dir') out
unfolding create
create-IsUsable map_upper n out draws dir dir' t e =
    create_loop-IsUsable map_upper n [] out draws dir dir' t tt e
