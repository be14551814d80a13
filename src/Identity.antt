-- ===== src/Identity.antt =====
-- internal/identity/identity.go: the ID of a key, and how it is shown. The hash is an argument.
use tarion.Base.{List, [], ◌∷◌, ltb, if◌then◌else◌, length, take, Result, ok, err}
use tarion.Text.{Text}
use tarion.Text.Lower.{lower_bytes}
use tarion.Text.Split.{join}
use tarion.Access.Invites.{invite_encoding}

-- PeerID, with `sha256` for sha256.Sum256; the letters of base32 are lowered.
unfoldable pub peer_id_of : (Text → Text) → Text → Text
peer_id_of sha256 pub_key = lower_bytes (invite_encoding (take 20 (sha256 pub_key)))

-- Short
unfoldable pub short_id : Text → Text
short_id id = if ltb 8 (length id) then take 8 id else id

-- The groups of four of Fingerprint; the last one may be shorter.
unfoldable pub fingerprint_groups : Text → List Text
fingerprint_groups [] = []
fingerprint_groups (a ∷ []) = (a ∷ []) ∷ []
fingerprint_groups (a ∷ b ∷ []) = (a ∷ b ∷ []) ∷ []
fingerprint_groups (a ∷ b ∷ c ∷ []) = (a ∷ b ∷ c ∷ []) ∷ []
fingerprint_groups (a ∷ b ∷ c ∷ d ∷ s) = (a ∷ b ∷ c ∷ d ∷ []) ∷ fingerprint_groups s

-- Fingerprint
unfoldable pub fingerprint : Text → Text
fingerprint id = join 32 (fingerprint_groups id)

-- What a certificate of a peer holds: an Ed25519 key, or a key of another kind.
pub data CertKey : Type 0 where
  ed25519 : Text → CertKey
  other_key : CertKey

pub data CertError : Type 0 where
  no_certificate not_ed25519 : CertError

-- PubKeyFromCerts
unfoldable pub pub_key_from_certs : List CertKey → Result CertError Text
pub_key_from_certs [] = err no_certificate
pub_key_from_certs (ed25519 k ∷ cs) = ok k
pub_key_from_certs (other_key ∷ cs) = err not_ed25519

id_of_key : (Text → Text) → Result CertError Text → Result CertError Text
id_of_key sha256 (err e) = err e
id_of_key sha256 (ok k) = ok (peer_id_of sha256 k)

-- PeerIDFromCerts
unfoldable pub peer_id_from_certs : (Text → Text) → List CertKey → Result CertError Text
unfolding id_of_key
peer_id_from_certs sha256 cs = id_of_key sha256 (pub_key_from_certs cs)
