-- ===== src/Vault/Opening.antt =====
-- What opens is exactly what was sealed, as a file and as a line.
use tarion.Base.{
  ◌+◌, ◌≡◌, refl, sym, ap, ◌∙◌, subst, ◌↔◌, inl, inr, true, false, Option, none, some, ◌++◌, arith,
  ltb, ◌==◌, Bool-cases, length, take, drop, length-append, length-take, take-append, drop-append,
  take-drop, ok,
}
use tarion.Text.{Text, str_eq, str_eq_iff, IsBytes}
use tarion.Text.Base64
use tarion.Text.Base64.{decode-encode}
use tarion.Text.Search.{trim_prefix-append}
use tarion.Vault.{
  Crypto, key_size, nonce_size, overhead, seal_magic, seal, is_sealed, or_damaged, open_sealed,
  line_prefix, line_of, seal_line, open_raw, open_line,
}

-- The nonce that stands in sealed bytes.
abbrev pub nonce_of : Text → Text
nonce_of bytes = take nonce_size (drop (length seal_magic) bytes)

abbrev pub sealed_with : Crypto → Text → Text → Text → Text → Text
sealed_with c nonce key kind plain = seal_magic ++ (nonce ++ c.aead_seal key nonce plain kind)

pub magic-is_sealed : (s : Text) → is_sealed (seal_magic ++ s) ≡ true
unfolding is_sealed str_eq
magic-is_sealed s = ground arith

is_sealed-split :
    (bytes : Text) → is_sealed bytes ≡ true → bytes ≡ seal_magic ++ drop (length seal_magic) bytes
unfolding is_sealed
is_sealed-split bytes h =
    let same : str_eq (take (length seal_magic) bytes) seal_magic ≡ true = ground (arith, h) in
    sym (take-drop (length seal_magic) bytes)
    ∙ ap (λ t. t ++ drop (length seal_magic) bytes)
        ((str_eq_iff (take (length seal_magic) bytes) seal_magic).0 same)

pub seal-key :
    (c : Crypto) (nonce key kind plain bytes : Text)
    → seal c nonce key kind plain ≡ ok bytes
    → (length key ≡ key_size) × (bytes ≡ sealed_with c nonce key kind plain)
unfolding seal
seal-key c nonce key kind plain bytes h = elim (Bool-cases (length key == key_size)) [
  | inl e ↦ (ground (arith, e), ground (arith, rw e at h))
  | inr e ↦ absurd (ground (arith, rw e at h))
]

-- The body has at least a nonce and a tag.
body_long :
    (c : Crypto) (nonce key kind plain : Text)
    → length nonce ≡ nonce_size
    → ltb (length (nonce ++ c.aead_seal key nonce plain kind)) (nonce_size + overhead) ≡ false
body_long c nonce key kind plain h = ground (
  arith,
  h,
  length-append nonce (c.aead_seal key nonce plain kind),
  c.length-seal key nonce plain kind,
)

pub open_body :
    (c : Crypto) (nonce key kind plain : Text)
    → length nonce ≡ nonce_size
    → length key ≡ key_size
    → open_sealed c key kind (sealed_with c nonce key kind plain) ≡ ok plain
unfolding open_sealed or_damaged
open_body c nonce key kind plain hn hk =
    let sealed = c.aead_seal key nonce plain kind in
    let t : take nonce_size (nonce ++ sealed) ≡ nonce =
      subst (λ n. take n (nonce ++ sealed) ≡ nonce) hn (take-append nonce sealed) in
    let d : drop nonce_size (nonce ++ sealed) ≡ sealed =
      subst (λ n. drop n (nonce ++ sealed) ≡ sealed) hn (drop-append nonce sealed) in
    let right_key : (length key == key_size) ≡ true = ground (arith, hk) in
    rw
      (
        magic-is_sealed (nonce ++ sealed),
        right_key,
        body_long c nonce key kind plain hn,
        t,
        d,
        c.open-seal key nonce plain kind,
      )
      refl

pub open_sealed-seal :
    (c : Crypto) (nonce key kind plain bytes : Text)
    → length nonce ≡ nonce_size
    → seal c nonce key kind plain ≡ ok bytes
    → open_sealed c key kind bytes ≡ ok plain
open_sealed-seal c nonce key kind plain bytes hn h =
    let (hk, same) = seal-key c nonce key kind plain bytes h in
    subst (λ b. open_sealed c key kind b ≡ ok plain) (sym same)
      (open_body c nonce key kind plain hn hk)

or_damaged-ok : (o : Option Text) (plain : Text) → or_damaged o ≡ ok plain → o ≡ some plain
unfolding or_damaged
or_damaged-ok none plain h = cc
or_damaged-ok (some p) plain h = cc

open_sound :
    (c : Crypto) (key kind bytes plain : Text)
    → open_sealed c key kind bytes ≡ ok plain
    → (length (nonce_of bytes) ≡ nonce_size) × (seal c (nonce_of bytes) key kind plain ≡ ok bytes)
unfolding open_sealed seal
open_sound c key kind bytes plain h =
    let body = drop (length seal_magic) bytes in
    elim (Bool-cases (is_sealed bytes)) [
      | inr e ↦ absurd (ground (arith, rw e at h))
      | inl e ↦ elim (Bool-cases (length key == key_size)) [
        | inr k ↦ absurd (ground (arith, rw (e, k) at h))
        | inl k ↦ elim (Bool-cases (ltb (length body) (nonce_size + overhead))) [
          | inl l ↦ absurd (ground (arith, rw (e, k, l) at h))
          | inr l ↦
              let opened =
                or_damaged-ok (c.aead_open key (take nonce_size body) (drop nonce_size body) kind)
                  plain (rw (e, k, l) at h) in
              let same =
                c.seal-open key (take nonce_size body) (drop nonce_size body) plain kind opened in
              let whole : bytes ≡ sealed_with c (nonce_of bytes) key kind plain =
                is_sealed-split bytes e
                ∙ ap (λ b. seal_magic ++ b)
                    (sym (take-drop nonce_size body) ∙ ap (λ b. take nonce_size body ++ b) same) in
              (ground (arith, length-take nonce_size body, l), rw k (ap ok (sym whole)))
        ]
      ]
    ]

-- Sealed bytes open to a plain text, with a key and a kind, exactly if Seal gives these bytes for
-- that text, key and kind with the nonce that stands in them, of 24 bytes.
pub open_sealed-seal_iff :
    (c : Crypto) (key kind bytes plain : Text)
    → (open_sealed c key kind bytes ≡ ok plain) ↔ (
        (length (nonce_of bytes) ≡ nonce_size)
        × (seal c (nonce_of bytes) key kind plain ≡ ok bytes))
open_sealed-seal_iff c key kind bytes plain = (
  open_sound c key kind bytes plain,
  λ h. open_sealed-seal c (nonce_of bytes) key kind plain bytes h.0 h.1,
)

pub seal_line-seal :
    (c : Crypto) (nonce key kind line sealed : Text)
    → seal_line c nonce key kind line ≡ ok sealed
    → (length key ≡ key_size)
      × (sealed ≡ line_prefix ++ Base64.encode (nonce ++ c.aead_seal key nonce line kind))
unfolding seal_line line_of seal
seal_line-seal c nonce key kind line sealed h = elim (Bool-cases (length key == key_size)) [
  | inl e ↦ (ground (arith, e), ground (arith, rw e at h))
  | inr e ↦ absurd (ground (arith, rw e at h))
]

-- If a line is sealed, with a nonce of 24 bytes and a cipher text of bytes, then the sealed line opens
-- to it with the same key and kind.
pub open_line-seal_line :
    (c : Crypto) (nonce key kind line sealed : Text)
    → length nonce ≡ nonce_size
    → IsBytes (nonce ++ c.aead_seal key nonce line kind)
    → seal_line c nonce key kind line ≡ ok sealed
    → open_line c key kind sealed ≡ ok line
unfolding open_line open_raw
open_line-seal_line c nonce key kind line sealed hn hb h =
    let raw = nonce ++ c.aead_seal key nonce line kind in
    let (hk, same) = seal_line-seal c nonce key kind line sealed h in
    subst (λ s. open_line c key kind s ≡ ok line) (sym same)
      (rw (trim_prefix-append line_prefix (Base64.encode raw), decode-encode raw hb)
        (open_body c nonce key kind line hn hk))
