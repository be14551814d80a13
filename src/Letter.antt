-- ===== src/Letter.antt =====
-- internal/mailbox/mailbox.go: letters that are signed by the sender and sealed for the recipient. The
-- keys and ciphers are parameters, and so is the JSON of a letter.
pub mod RoundTrip
pub mod Examples
use tarion.Base.{
  ℕ, zero, suc, ◌+◌, ◌*◌, ◌/◌, ◌%◌, ◌≡◌, Bool, true, not, ◌&&◌, ◌||◌, Option, none, some, [], ◌∷◌,
  ◌++◌, ◌==◌, if◌then◌else◌, length, take, Result, ok, err,
}
use tarion.Text.{Text, text, str_eq}
use tarion.Text.Hex
use tarion.Text.Split.{join}
use tarion.Text.Utf8.{valid_string}
use tarion.Server.Connections.{format_uint}
use tarion.Server.Login.{box_key_context}
use tarion.Identity.{peer_id_of}

-- A number of seconds from the start of 1970, or before it.
pub data UnixTime : Type 0 where
  since_1970 : ℕ → UnixTime
  before_1970 : ℕ → UnixTime

pub record MailLetter : Type 0 where
  pub version : ℕ
  pub id : Text
  pub ts : UnixTime
  pub from : Text
  pub from_key : Text
  pub to : Text
  pub body : Text
  pub sig : Text

-- JSON takes a string that is not valid UTF-8 to another one.
abbrev pub is_text : MailLetter → Bool
is_text l = valid_string l.id && (valid_string l.from && (valid_string l.to && valid_string l.body))

-- Ed25519: the public key and the seed of a private key, signing and verifying; SHA-512 and SHA-256;
-- X25519 with the base point; sealed boxes, which need a random source; and the JSON of a letter. A
-- signature of a key verifies with its public key, a box that is sealed for the public part of a private
-- key opens with both, and a letter of valid texts is read from its JSON.
pub record LetterCrypto : Type 0 where
  pub public_key : Text → Text
  pub seed : Text → Text
  pub sign : Text → Text → Text
  pub verify : Text → Text → Text → Bool
  pub sha512 : Text → Text
  pub sha256 : Text → Text
  pub x25519_base : Text → Text
  pub seal_anonymous : Text → Text → Text → Option Text
  pub open_anonymous : Text → Text → Text → Option Text
  pub to_json : MailLetter → Text
  pub from_json : Text → Option MailLetter
  pub verify-sign : (key msg : Text) → verify (public_key key) msg (sign key msg) ≡ true
  pub length-public_key : (key : Text) → length (public_key key) ≡ 32
  pub open-seal_anonymous :
      (plain priv random sealed : Text)
      → seal_anonymous plain (x25519_base priv) random ≡ some sealed
      → open_anonymous sealed (x25519_base priv) priv ≡ some plain
  pub from-to_json : (l : MailLetter) → is_text l ≡ true → from_json (to_json l) ≡ some l

-- The bits of a private key that are fixed: of the first byte and of the one after `n` more.
clamp_last : ℕ → Text → Text
clamp_last n [] = []
clamp_last zero (b ∷ s) = (b % 64 + 64) ∷ s
clamp_last (suc n) (b ∷ s) = b ∷ clamp_last n s

unfoldable pub clamp : Text → Text
unfolding clamp_last
clamp [] = []
clamp (b ∷ s) = (b / 8 * 8) ∷ clamp_last 30 s

-- BoxKeys: the public key and the private key.
unfoldable pub box_keys : LetterCrypto → Text → Text × Text
box_keys c key = let priv = clamp (take 32 (c.sha512 (c.seed key))) in (c.x25519_base priv, priv)

unfoldable pub sign_box_key : LetterCrypto → Text → Text → Text
sign_box_key c key box_pub = c.sign key (box_key_context ++ box_pub)

-- fmt.Sprint of a time.
unfoldable pub ts_text : UnixTime → Text
ts_text (since_1970 n) = format_uint n
ts_text (before_1970 n) = b'-' ∷ format_uint n

-- signed
unfoldable pub signed : MailLetter → Text
signed l = join 10 (
    text "tarion-letter-v1"
    ∷ l.id
    ∷ ts_text l.ts
    ∷ l.from
    ∷ Hex.encode l.from_key
    ∷ l.to
    ∷ l.body
    ∷ [])

-- The letter that Seal makes.
unfoldable pub unsigned_letter :
    LetterCrypto → Text → Text → Text → Text → UnixTime → Text → MailLetter
unsigned_letter c key from_name to_peer_id id sent body = record {
  version = 1;
  id = id;
  ts = sent;
  from = from_name;
  from_key = c.public_key key;
  to = to_peer_id;
  body = body;
  sig = [];
}

unfoldable pub signed_letter : LetterCrypto → Text → MailLetter → MailLetter
signed_letter c key l = record l { sig = c.sign key (signed l) }

-- Seal, with the random bytes that are read; none is an error of the box.
unfoldable pub seal_letter :
    LetterCrypto → Text → Text → Text → Text → Text → Text → UnixTime → Text → Option Text
seal_letter c random key from_name to_peer_id to_box_key id sent body =
    c.seal_anonymous
      (c.to_json (signed_letter c key (unsigned_letter c key from_name to_peer_id id sent body)))
      to_box_key random

pub data LetterError : Type 0 where
  not_for_device malformed bad_signature other_recipient : LetterError

check_letter : LetterCrypto → Text → Option MailLetter → Result LetterError (MailLetter × Text)
check_letter c recipient_id none = err malformed
check_letter c recipient_id (some l) =
    if not (l.version == 1)
      || not (length l.from_key == 32)
      || not (c.verify l.from_key (signed l) l.sig)
    then err bad_signature
    else if not (str_eq l.to recipient_id)
    then err other_recipient
    else ok (l, peer_id_of c.sha256 l.from_key)

open_plain : LetterCrypto → Text → Option Text → Result LetterError (MailLetter × Text)
unfolding check_letter
open_plain c recipient_id none = err not_for_device
open_plain c recipient_id (some plain) = check_letter c recipient_id (c.from_json plain)

-- Open, by the owner of a private key, whose ID is that of its public key.
unfoldable pub open_letter : LetterCrypto → Text → Text → Result LetterError (MailLetter × Text)
unfolding open_plain
open_letter c key sealed =
    let keys = box_keys c key in
    open_plain c (peer_id_of c.sha256 (c.public_key key)) (c.open_anonymous sealed keys.0 keys.1)
