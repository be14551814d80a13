-- ===== src/Firewall.antt =====
-- internal/firewall/firewall.go: whether the firewall of Windows lets messages in.
pub mod Decided
pub mod Examples
use tarion.Base.{
  ℕ, zero, ◌*◌, ◌^◌, Bool, true, false, not, ◌&&◌, ◌||◌, Option, none, some, List, [], ◌∷◌, ◌++◌,
  ltb, leb, ◌==◌, if◌then◌else◌, all_by,
}
use tarion.Text.{Text, text, str_eq, is_empty}
use tarion.Text.Lower.{Unicode, equal_fold}
use tarion.Text.Split.{split}
use tarion.Text.Trim.{trim_space}
use tarion.Net.{split_first, atoi}
use tarion.Server.Connections.{format_uint}

pub record Rule : Type 0 where
  pub app : Text
  pub ports : Text
  pub remote : Text
  pub action : ℕ

pub record Report : Type 0 where
  pub enabled : Bool
  pub default_block : Bool
  pub rules : List Rule

-- Why incoming messages are blocked.
pub data BlockReason : Type 0 where
  rule_for_all rule_for_us no_allow_rule : BlockReason

-- A Status that is known: blocked for a reason, or not.
pub data Status : Type 0 where
  open_port : Status
  blocked : BlockReason → Status

unfoldable pub any_remote : Rule → Bool
any_remote r = is_empty r.remote || str_eq r.remote (text "*")

-- strconv.Atoi, of a port_number that fits an int of 64 bits and is not below zero.
abbrev pub small : Option ℕ → Option ℕ
small none = none
small (some n) = if ltb n (2 ^ 63) then some n else none

port_number : Text → Option ℕ
port_number s = small (atoi (trim_space s))

in_range : ℕ → Option ℕ → Option ℕ → Bool
in_range port (some a) (some b) = leb a port && leb port b
in_range port _ _ = false

-- A range, or one port_number.
range_matches : ℕ → Text → Option (Text × Text) → Bool
unfolding port_number in_range
range_matches port p none = in_range port (port_number p) (port_number p)
range_matches port p (some (lo, hi)) = in_range port (port_number lo) (port_number hi)

-- One part of a list of ports.
unfoldable pub part_matches : Unicode → ℕ → Text → Bool
unfolding range_matches
part_matches u port part =
    let p = trim_space part in
    str_eq p (text "*")
    || (equal_fold u p (text "any") || range_matches port p (split_first b'-' p))

-- portMatches
unfoldable pub port_matches : Unicode → Text → ℕ → Bool
port_matches u list port = not (all_by (λ p. not (part_matches u port p)) (split b',' list))

-- The rule is about this program, this port, and every remote address.
unfoldable pub is_for_us : Unicode → Text → ℕ → Rule → Bool
is_for_us u exe port r =
    (is_empty r.app || equal_fold u r.app exe) && (any_remote r && port_matches u r.ports port)

-- The loop of Decide.
unfoldable pub decide_rules : Unicode → Text → ℕ → Bool → List Rule → Status
decide_rules u exe port allowed [] = if allowed then open_port else blocked no_allow_rule
decide_rules u exe port allowed (r ∷ rs) =
    let same = decide_rules u exe port allowed rs in
    let found_one = decide_rules u exe port true rs in
    if r.action == 0 && is_for_us u exe port r
    then blocked (if is_empty r.app then rule_for_all else rule_for_us)
    else if r.action == 1 && is_for_us u exe port r
    then found_one
    else same

-- Decide
unfoldable pub decide : Unicode → Report → Text → ℕ → Status
decide u report exe port =
    if not report.enabled || not report.default_block
    then open_port
    else decide_rules u exe port false report.rules

unfoldable pub rule_name : ℕ → Text
rule_name port = text "Tarion chat (UDP " ++ (format_uint port ++ text ")")

-- ApplyCommands
unfoldable pub apply_commands : Text → ℕ → Bool → List (List Text)
apply_commands exe port remove =
    let delete_all =
      text "advfirewall"
      ∷ text "firewall"
      ∷ text "delete"
      ∷ text "rule"
      ∷ text "name=all"
      ∷ text "dir=in"
      ∷ (text "program=" ++ exe)
      ∷ [] in
    let allow =
      text "advfirewall"
      ∷ text "firewall"
      ∷ text "add"
      ∷ text "rule"
      ∷ (text "name=" ++ rule_name port)
      ∷ text "dir=in"
      ∷ text "action=allow"
      ∷ text "protocol=UDP"
      ∷ (text "localport=" ++ format_uint port)
      ∷ (text "program=" ++ exe)
      ∷ text "profile=any"
      ∷ text "description=Lets peers reach Tarion's chat port. Added by: tarion firewall allow"
      ∷ [] in
    delete_all ∷ (if remove then [] else allow ∷ [])
