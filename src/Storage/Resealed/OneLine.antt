-- ===== src/Storage/Resealed/OneLine.antt =====
-- A line that is written while a key is set, and the lines of a file.
use tarion.Base.{
  ℕ, suc, ◌≡◌, refl, sym, ap, subst, true, false, some, List, [], ◌∷◌, ◌++◌, arith, ◌==◌, length,
  All, All-append, All-map, Result, ok, err, ok-injective,
}
use tarion.Text.{Text, IsBytes}
use tarion.Text.Base64
use tarion.Text.Base64.{is_letter64, encode_letters}
use tarion.Text.Search.{has_prefix, has_prefix-append}
use tarion.Text.Split.{Without}
use tarion.Vault.{Crypto, VaultError, nonce_size, line_prefix, seal_line, is_sealed_line}
use tarion.Vault.Opening.{open_line-seal_line, seal_line-seal}
use tarion.Storage.{StoreError, of_vault, or_unreadable, open_with, line_to_write, line_read}
use tarion.Text.Clean.{trim_end}
use tarion.Storage.Lines.{is_cr, IsLine}
use tarion.Storage.Reseal.{cons_line, open_lines, seal_lines}

-- A cipher text of bytes is bytes.
abbrev pub MakesBytes : Crypto → Type 0
MakesBytes c =
    (key nonce plain kind : Text)
    → IsBytes key
    → IsBytes plain
    → IsBytes (c.aead_seal key nonce plain kind)

-- The nonces that are drawn have 24 bytes.
abbrev pub AreNonces : (ℕ → Text) → Type 0
AreNonces nonce = (n : ℕ) → (length (nonce n) ≡ nonce_size) × IsBytes (nonce n)

pub IsBytes-append : (a b : Text) → IsBytes a → IsBytes b → IsBytes (a ++ b)
IsBytes-append [] b ha hb = hb
IsBytes-append (x ∷ a) b ha hb = (ha.0, IsBytes-append a b ha.1 hb)

pub of_vault-ok {ℓ} : {A : Type ℓ} (r : Result VaultError A) (a : A) → of_vault r ≡ ok a → r ≡ ok a
of_vault-ok (ok b) a h = ap ok (ok-injective h)
of_vault-ok (err e) a h = cc

sealed_line_read :
    (c : Crypto) (key nonce kind line sealed : Text)
    → MakesBytes c
    → IsBytes key
    → length nonce ≡ nonce_size
    → IsBytes nonce
    → IsBytes line
    → line_to_write c (some key) nonce kind line ≡ ok sealed
    → line_read c (some key) kind sealed ≡ ok line
unfolding line_to_write line_read open_with is_sealed_line
sealed_line_read c key nonce kind line sealed mb kb hn bn bl h =
    let h' = of_vault-ok (seal_line c nonce key kind line) sealed h in
    let bytes =
      IsBytes-append nonce (c.aead_seal key nonce line kind) bn (mb key nonce line kind kb bl) in
    let same = (seal_line-seal c nonce key kind line sealed h').1 in
    let prefix : has_prefix sealed line_prefix ≡ true =
      rw same (
        has_prefix-append line_prefix (Base64.encode (nonce ++ c.aead_seal key nonce line kind))) in
    rw prefix (
      ap (λ r. ok (or_unreadable r)) (open_line-seal_line c nonce key kind line sealed hn bytes h'))

trim_right_none : (s : Text) → All (λ b. is_cr b ≡ false) s → trim_end is_cr s ≡ s
unfolding trim_end
trim_right_none [] h = refl
trim_right_none (b ∷ s) h = ground (arith, trim_right_none s h.1, h.0)

letter_not_cr : (b : ℕ) → is_letter64 b ≡ true → is_cr b ≡ false
letter_not_cr b h = ground (arith, h)

letter_not_newline : (b : ℕ) → is_letter64 b ≡ true → (b == 10) ≡ false
letter_not_newline b h = ground (arith, h)

line_to_write-IsLine :
    (c : Crypto) (key nonce kind line sealed : Text)
    → MakesBytes c
    → IsBytes key
    → IsBytes nonce
    → IsBytes line
    → line_to_write c (some key) nonce kind line ≡ ok sealed
    → IsLine sealed
unfolding line_to_write
line_to_write-IsLine c key nonce kind line sealed mb kb bn bl h =
    let raw = nonce ++ c.aead_seal key nonce line kind in
    let bytes =
      IsBytes-append nonce (c.aead_seal key nonce line kind) bn (mb key nonce line kind kb bl) in
    let h' = of_vault-ok (seal_line c nonce key kind line) sealed h in
    let same = (seal_line-seal c nonce key kind line sealed h').1 in
    let letters = encode_letters raw bytes in
    let s = line_prefix ++ Base64.encode raw in
    let no_cr : All (λ b. is_cr b ≡ false) s =
      All-append (λ b. is_cr b ≡ false) line_prefix (Base64.encode raw)
        (refl, (refl, (refl, (refl, (refl, (refl, (refl, (refl, (refl, tt)))))))))
        (All-map (λ b. is_letter64 b ≡ true) (λ b. is_cr b ≡ false) (Base64.encode raw)
          letter_not_cr letters) in
    let no_newline : Without 10 s =
      All-append (λ b. (b == 10) ≡ false) line_prefix (Base64.encode raw)
        (refl, (refl, (refl, (refl, (refl, (refl, (refl, (refl, (refl, tt)))))))))
        (All-map (λ b. is_letter64 b ≡ true) (λ b. (b == 10) ≡ false) (Base64.encode raw)
          letter_not_newline letters) in
    subst (λ t. IsLine t) (sym same) (refl, (no_newline, trim_right_none s no_cr))

cons_line-ok :
    (l : Result StoreError Text) (ls : Result StoreError (List Text)) (r : List Text)
    → cons_line l ls ≡ ok r
    → (x : Text) × (xs : List Text) × ((l ≡ ok x) × ((ls ≡ ok xs) × (r ≡ x ∷ xs)))
cons_line-ok (err e) ls r h = cc
cons_line-ok (ok l) (err e) r h = cc
cons_line-ok (ok l) (ok ls) r h = (l, ls, (refl, (refl, sym (ok-injective h))))

-- Lines that are sealed for writing are lines, and open to what they were.
pub seal_lines-open_lines :
    (c : Crypto) (key : Text) (nonce : ℕ → Text) (n : ℕ) (kind : Text) (ls out : List Text)
    → MakesBytes c
    → IsBytes key
    → AreNonces nonce
    → All IsBytes ls
    → seal_lines c (some key) nonce n kind ls ≡ ok out
    → (open_lines c (some key) kind out ≡ ok ls) × All IsLine out
unfolding seal_lines open_lines
seal_lines-open_lines c key nonce n kind [] out mb kb nb lb h =
    subst (λ o. (open_lines c (some key) kind o ≡ ok []) × All IsLine o) (ok-injective h) (refl, tt)
seal_lines-open_lines c key nonce n kind (l ∷ ls) out mb kb nb lb h =
    let (x, xs, (hx, (hxs, same))) =
      cons_line-ok (line_to_write c (some key) (nonce n) kind l)
        (seal_lines c (some key) nonce (suc n) kind ls) out h in
    let one = sealed_line_read c key (nonce n) kind l x mb kb (nb n).0 (nb n).1 lb.0 hx in
    let (rest, lines) = seal_lines-open_lines c key nonce (suc n) kind ls xs mb kb nb lb.1 hxs in
    subst (λ o. (open_lines c (some key) kind o ≡ ok (l ∷ ls)) × All IsLine o) (sym same)
      (
        rw (one, rest) refl,
        (line_to_write-IsLine c key (nonce n) kind l x mb kb (nb n).1 lb.0 hx, lines),
      )
