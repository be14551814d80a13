-- ===== src/Letter/Examples.antt =====
-- A sealed letter at a concrete input, with keys that repeat a byte, boxes that are open, and fields
-- that stand behind their lengths.
use tarion.Base.{
  ℕ, zero, suc, ◌≡◌, refl, sym, ◌∙◌, true, Option, none, some, [], ◌∷◌, ◌++◌, if◌then◌else◌, length,
  take, drop, take-append, drop-append, ok, err,
}
use tarion.Text.{Text, text, str_eq, str_eq_refl}
use tarion.Text.Utf8.{valid_string}
use tarion.Vault.Examples.{fill, first, length-fill}
use tarion.Text.Lower.{lower_bytes}
use tarion.Access.Invites.{invite_encoding}
use tarion.Identity.{peer_id_of}
use tarion.Letter.{
  UnixTime, since_1970, before_1970, MailLetter, is_text, LetterCrypto, box_keys, unsigned_letter,
  signed_letter, seal_letter, other_recipient, open_letter,
}
use tarion.Letter.RoundTrip.{open_letter-seal_letter}

abbrev field : Text → Text → Text
field t s = length t ∷ (t ++ s)

abbrev with_field : Text → (Text → Text → Option MailLetter) → Option MailLetter
with_field [] k = none
with_field (n ∷ s) k = k (take n s) (drop n s)

abbrev time_of : ℕ → ℕ → UnixTime
time_of zero n = since_1970 n
time_of (suc k) n = before_1970 n

abbrev fields : MailLetter → Text
fields l = field l.id (field l.from (field l.from_key (field l.to (field l.body (field l.sig [])))))

abbrev packed_time : UnixTime → Text → Text
packed_time (since_1970 n) s = 0 ∷ n ∷ s
packed_time (before_1970 n) s = 1 ∷ n ∷ s

abbrev pack : MailLetter → Text
pack l = l.version ∷ packed_time l.ts (fields l)

abbrev read_fields : ℕ → UnixTime → Text → Option MailLetter
read_fields v t s = with_field s λ id s1. with_field s1 λ from s2. with_field s2 λ from_key s3.
    with_field s3 λ to s4. with_field s4 λ body s5. with_field s5 λ sig s6. some (record {
      version = v;
      id = id;
      ts = t;
      from = from;
      from_key = from_key;
      to = to;
      body = body;
      sig = sig;
    })

abbrev unpack : Text → Option MailLetter
unpack (v ∷ k ∷ n ∷ s) = read_fields v (time_of k n) s
unpack _ = none

pub read_fields-fields : (l : MailLetter) → read_fields l.version l.ts (fields l) ≡ some l
read_fields-fields l =
    rw
      (
        take-append l.id
            (field l.from (field l.from_key (field l.to (field l.body (field l.sig []))))),
        drop-append l.id
            (field l.from (field l.from_key (field l.to (field l.body (field l.sig []))))),
        take-append l.from (field l.from_key (field l.to (field l.body (field l.sig [])))),
        drop-append l.from (field l.from_key (field l.to (field l.body (field l.sig [])))),
        take-append l.from_key (field l.to (field l.body (field l.sig []))),
        drop-append l.from_key (field l.to (field l.body (field l.sig []))),
        take-append l.to (field l.body (field l.sig [])),
        drop-append l.to (field l.body (field l.sig [])),
        take-append l.body (field l.sig []),
        drop-append l.body (field l.sig []),
        take-append l.sig [],
      )
      refl

pub unpack-time :
    (v : ℕ) (t : UnixTime) (s : Text) → unpack (v ∷ packed_time t s) ≡ read_fields v t s
unpack-time v (since_1970 n) s = refl
unpack-time v (before_1970 n) s = refl

abbrev toy : LetterCrypto
toy = record {
  public_key = λ key. fill 32 (first key);
  seed = λ key. key;
  sign = λ key msg. fill 32 (first key);
  verify = λ pub_key msg sig. str_eq pub_key sig;
  sha512 = λ s. fill 64 (first s);
  sha256 = λ s. fill 32 (first s);
  x25519_base = λ priv. priv;
  seal_anonymous = λ plain pub_key random. some plain;
  open_anonymous = λ sealed pub_key priv. some sealed;
  to_json = pack;
  from_json = unpack;
  verify-sign = λ key msg. str_eq_refl (fill 32 (first key));
  length-public_key = λ key. length-fill 32 (first key);
  open-seal_anonymous = λ plain priv random sealed h. sym h;
  from-to_json = λ l h. unpack-time l.version l.ts (fields l) ∙ read_fields-fields l;
}

abbrev alice : Text
alice = text "a"

abbrev bob : Text
bob = text "b"

abbrev bob_id : Text
bob_id = peer_id_of toy.sha256 (toy.public_key bob)

abbrev draft : MailLetter
draft = unsigned_letter toy alice (text "Al") bob_id (text "m1") (since_1970 7) (text "hi")

are_texts : is_text draft ≡ true
unfolding unsigned_letter valid_string peer_id_of lower_bytes invite_encoding
are_texts = refl

abbrev sealed : Text
sealed = pack (signed_letter toy alice draft)

seal_draft :
    seal_letter toy [] alice
      (text "Al")
      bob_id
      (box_keys toy bob).0
      (text "m1")
      (since_1970 7)
      (text "hi")
    ≡ some sealed
unfolding seal_letter
seal_draft = refl

open_letter-seal_letter_example : open_letter toy bob sealed ≡ (
    if str_eq bob_id bob_id
    then ok (signed_letter toy alice draft, peer_id_of toy.sha256 (toy.public_key alice))
    else err other_recipient)
open_letter-seal_letter_example =
    open_letter-seal_letter toy [] alice bob (text "Al") bob_id (text "m1") (text "hi") sealed
      (since_1970 7) are_texts seal_draft
