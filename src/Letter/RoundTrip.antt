-- ===== src/Letter/RoundTrip.antt =====
-- What a sealed letter opens to, and for whom.
use tarion.Base.{
  ◌≡◌, refl, sym, ap, ◌∙◌, subst, inl, inr, true, some, arith, ◌==◌, if◌then◌else◌, Bool-cases,
  length, ok, err,
}
use tarion.Text.{Text, str_eq}
use tarion.Identity.{peer_id_of}
use tarion.Letter.{
  UnixTime, MailLetter, is_text, LetterCrypto, box_keys, signed, unsigned_letter, signed_letter,
  seal_letter, other_recipient, check_letter, open_plain, open_letter,
}

-- The checks on a letter with a right signature, but for its recipient.
check_right :
    (c : LetterCrypto) (recipient_id : Text) (l : MailLetter)
    → (l.version == 1) ≡ true
    → (length l.from_key == 32) ≡ true
    → c.verify l.from_key (signed l) l.sig ≡ true
    → check_letter c recipient_id (some l) ≡ (
        if str_eq l.to recipient_id
        then ok (l, peer_id_of c.sha256 l.from_key)
        else err other_recipient)
unfolding check_letter
check_right c recipient_id l v k s = elim (Bool-cases (str_eq l.to recipient_id)) [
  | inl e ↦ rw (v, k, s, e) refl
  | inr e ↦ rw (v, k, s, e) refl
]

right_signature :
    (c : LetterCrypto) (key : Text) (l : MailLetter)
    → l.from_key ≡ c.public_key key
    → c.verify l.from_key (signed (signed_letter c key l)) (c.sign key (signed l)) ≡ true
unfolding signed_letter signed
right_signature c key l h =
    subst (λ k. c.verify k (signed l) (c.sign key (signed l)) ≡ true) (sym h)
      (c.verify-sign key (signed l))

-- If the texts of a letter are valid UTF-8 and it is sealed for the box key of a device, then on
-- that device it opens, where it is addressed to the ID of the device, to the letter that was
-- signed, with the ID of its sender, and is refused where it is addressed to another.
pub open_letter-seal_letter :
    (c : LetterCrypto) (random key recipient from_name to id body sealed : Text) (sent : UnixTime)
    → is_text (unsigned_letter c key from_name to id sent body) ≡ true
    → seal_letter c random key from_name to (box_keys c recipient).0 id sent body ≡ some sealed
    → open_letter c recipient sealed ≡ (
        if str_eq to (peer_id_of c.sha256 (c.public_key recipient))
        then ok (
          signed_letter c key (unsigned_letter c key from_name to id sent body),
          peer_id_of c.sha256 (c.public_key key),
        )
        else err other_recipient)
unfolding open_letter open_plain seal_letter box_keys signed_letter unsigned_letter
open_letter-seal_letter c random key recipient from_name to id body sealed sent valid h =
    let l = unsigned_letter c key from_name to id sent body in
    let m = signed_letter c key l in
    let my_id = peer_id_of c.sha256 (c.public_key recipient) in
    let keys = box_keys c recipient in
    let opened : c.open_anonymous sealed keys.0 keys.1 ≡ some (c.to_json m) =
      c.open-seal_anonymous (c.to_json m) keys.1 random sealed h in
    let read : c.from_json (c.to_json m) ≡ some m = c.from-to_json m valid in
    let checks : check_letter c my_id (some m) ≡ (
        if str_eq to my_id
        then ok (m, peer_id_of c.sha256 (c.public_key key))
        else err other_recipient) =
      check_right c my_id m refl (ground (arith, c.length-public_key key))
        (right_signature c key l refl) in
    ap (open_plain c my_id) opened ∙ ap (check_letter c my_id) read ∙ checks
