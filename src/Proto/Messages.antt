-- ===== src/Proto/Messages.antt =====
-- The requests, responses and pushes of internal/directory/proto.go, with their JSON names dropped.
use tarion.Base.{
  ℕ, Bool, true, false, not, ◌&&◌, ◌||◌, Option, none, some, List, [], ltb, leb, ◌==◌,
  if◌then◌else◌, length, all_by,
}
use tarion.Text.{Text, is_empty}
use tarion.Text.Utf8.{runes}
use tarion.Net.{split_host_port, atoi}
use tarion.Proto.{ErrorCode, Letter}
use tarion.Access.PasswordRules.{PasswordProblem}

-- `Request.Op`, a string in the source; any other string is `unknown_op`.
pub data Op : Type 0 where
  op_register op_login op_list op_lookup op_relay op_advertise op_probe : Op
  op_change_password op_delete_account : Op
  op_mailbox_key op_mailbox_put op_mailbox_fetch op_mailbox_ack unknown_op : Op

pub record Request : Type 0 where
  pub op : Op
  pub user : Text
  pub pass : Text
  pub new_pass : Text
  pub target : Text
  pub invite : Text
  pub local_addrs : List Text
  pub accept_relay : Bool
  pub public_addr : Text
  pub nonce : Text
  pub accept_mailbox : Bool
  pub box_key : Text
  pub box_sig : Text
  pub sealed : Text
  pub ids : List Text

abbrev pub empty_request : Op → Request
empty_request op = record {
  op = op;
  user = [];
  pass = [];
  new_pass = [];
  target = [];
  invite = [];
  local_addrs = [];
  accept_relay = false;
  public_addr = [];
  nonce = [];
  accept_mailbox = false;
  box_key = [];
  box_sig = [];
  sealed = [];
  ids = [];
}

-- `error` is `none` where the source has the empty string; `detail` says why a password is refused.
pub record Response : Type 0 where
  pub is_ok : Bool
  pub error : Option ErrorCode
  pub detail : Option PasswordProblem
  pub user : Text
  pub your_addr : Text
  pub users : List Text
  pub truncated : Bool
  pub addr : Text
  pub local_addrs : List Text
  pub peer_id : Text
  pub revoked : List Text
  pub relay : Text
  pub public_addr : Text
  pub pub_key : Text
  pub box_key : Text
  pub box_sig : Text
  pub letters : List Letter
  pub more : Bool
  pub mail : ℕ

abbrev pub empty_response : Response
empty_response = record {
  is_ok = false;
  error = none;
  detail = none;
  user = [];
  your_addr = [];
  users = [];
  truncated = false;
  addr = [];
  local_addrs = [];
  peer_id = [];
  revoked = [];
  relay = [];
  public_addr = [];
  pub_key = [];
  box_key = [];
  box_sig = [];
  letters = [];
  more = false;
  mail = 0;
}

-- A response of success with no other field.
abbrev pub accepted : Response
accepted = record empty_response { is_ok = true }

-- fail
abbrev pub fail : ErrorCode → Response
fail code = record empty_response { error = some code }

-- Push, one constructor for each type with the fields that it has.
pub data Push : Type 0 where
  push_punch : Text → Text → Text → List Text → Push
  push_revoked : List Text → Push
  push_relay : Text → Text → Text → Push
  push_mail : Push

is_host_byte : ℕ → Bool
is_host_byte r =
    leb b'a' r && leb r b'z'
    || leb b'A' r && leb r b'Z'
    || leb b'0' r && leb r b'9'
    || r == b'.'
    || r == b'-'

valid_port : Option ℕ → Bool
valid_port none = false
valid_port (some p) = leb 1 p && leb p 65535

valid_parts : (Text → Bool) → Option (Text × Text) → Bool
unfolding is_host_byte valid_port
valid_parts is_ip none = false
valid_parts is_ip (some (host, port)) =
    not (is_empty host)
    && (valid_port (atoi port) && (is_ip host || all_by is_host_byte (runes host)))

-- ValidPublicAddr: "host:port" with an IP or a DNS name and a port from 1 to 65535.
unfoldable pub valid_public_addr : (Text → Bool) → Text → Bool
unfolding valid_parts
valid_public_addr is_ip s =
    if ltb 255 (length s) then false else valid_parts is_ip (split_host_port s)
