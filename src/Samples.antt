-- ===== src/Samples.antt =====
-- Concrete values for the parameters of the model, used where a theorem is applied to an input: Unicode
-- tables that know ASCII alone, and a password scheme that stores the password.
use tarion.Base.{ℕ, ◌≡◌, ap, Bool, true, false, ◌&&◌, ◌||◌, some, [], ◌∷◌, ltb, leb, length}
use tarion.Text.{Text, text, str_eq, str_eq_refl}
use tarion.Text.Lower.{Unicode, lower_bytes}
use tarion.Passwords.{ArgonParams, PasswordScheme}
use tarion.Net.{udp}
use tarion.Access.Bans.{no_path}
use tarion.Server.{Env, World, Session}

abbrev pub ascii_letter : ℕ → Bool
ascii_letter r = leb b'a' r && leb r b'z' || leb b'A' r && leb r b'Z'

abbrev pub ascii_tables : Unicode
ascii_tables = record {
  map_lower = lower_bytes;
  is_letter = ascii_letter;
  is_digit = λ r. leb b'0' r && leb r b'9';
  is_control = λ r. ltb r 32;
  fold_equal = λ s t. str_eq (lower_bytes s) (lower_bytes t);
}

pub plain_verify-hash :
    (pass salt : Text) (p : ArgonParams)
    → ◌≡◌ {A = Bool × Bool} (str_eq pass pass, false) (true, false)
plain_verify-hash pass salt p = ap (λ b. (b, false)) (str_eq_refl pass)

abbrev pub plain_scheme : PasswordScheme
plain_scheme = record {
  hash = λ pass salt p. pass;
  verify = λ stored pass p. (str_eq stored pass, false);
  verify-hash = plain_verify-hash;
}

abbrev pub low_cost : ArgonParams
low_cost = record { memory_kib = 1024; time = 1; threads = 1 }

-- Addresses are numbers of one digit, and every signature is right.
abbrev pub sample_env : Env
sample_env = record {
  unicode = ascii_tables;
  map_upper = λ s. s;
  is_ip = λ s. str_eq s (text "10.0.0.1");
  resolve_udp = λ s. some (10 ∷ 0 ∷ 0 ∷ 1 ∷ [], 9);
  udp_string = λ ip port. port ∷ ip;
  ed25519_verify = λ key msg sig. true;
  scheme = plain_scheme;
}

-- A moment in which everything can be written.
abbrev pub sample_world : World
sample_world = record {
  now = 1_000_000_000_000;
  accounts_written = true;
  invite_written = true;
  deletion_removed = true;
  mailbox_written = true;
  mailbox_removed = true;
  probe_written = true;
  salt = some [];
  letter_id = some (1 ∷ 2 ∷ 3 ∷ 4 ∷ 5 ∷ 6 ∷ 7 ∷ 8 ∷ 9 ∷ 10 ∷ 11 ∷ 12 ∷ []);
  relay_id = 1 ∷ 2 ∷ 3 ∷ 4 ∷ 5 ∷ 6 ∷ 7 ∷ 8 ∷ [];
  ban_file = no_path;
}

abbrev pub sample_session : Text → Text → Text → Session
sample_session id user peer_id = record {
  id = id;
  peer_id = peer_id;
  pub_key = peer_id;
  ip = text "10.0.0.1";
  addr = text "10.0.0.1:5";
  udp = udp (10 ∷ 0 ∷ 0 ∷ 1 ∷ []) (length id);
  user = user;
  local_addrs = [];
  public_addr = [];
  accept_relay = true;
  is_open = true;
}
