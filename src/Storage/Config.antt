-- ===== src/Storage/Config.antt =====
-- Config, contacts and the banned keys of internal/storage. A file is the value that it holds.
use tarion.Base.{
  ℕ, Bool, true, false, not, ◌&&◌, ◌||◌, Option, none, some, List, [], ◌∷◌, if◌then◌else◌, Result,
  ok, err,
}
use tarion.Text.{Text, text, str_eq, is_empty}
use tarion.Text.Lower.{Unicode, to_lower}
use tarion.Text.Sets.{add}

pub record Contact : Type 0 where
  pub contact_name : Text
  pub contact_addr : Text
  pub contact_id : Text

pub record Config : Type 0 where
  pub server_addr : Text
  pub server_id : Text
  pub username : Text
  pub password : Text
  pub invite : Text
  pub port : ℕ
  pub control_port : ℕ
  pub accept_rule : Text
  pub server_bans : Text
  pub relay : Text
  pub mailbox : Text
  pub public_addr : Text
  pub port_mapping : Text
  pub contacts : List Contact

-- Why PortMappingOff turns port forwarding off.
pub data MappingOff : Type 0 where
  turned_off own_addr relay_on no_server : MappingOff

unfoldable pub relay_enabled : Config → Bool
relay_enabled c = str_eq c.relay (text "on")

unfoldable pub mailbox_enabled : Config → Bool
mailbox_enabled c = str_eq c.mailbox (text "on")

unfoldable pub enforces_server_bans : Config → Bool
enforces_server_bans c = not (str_eq c.server_bans (text "off"))

unfoldable pub port_mapping_off : Config → Option MappingOff
unfolding relay_enabled
port_mapping_off c =
    if str_eq c.port_mapping (text "off")
    then some turned_off
    else if not (is_empty c.public_addr)
    then some own_addr
    else if not (str_eq c.port_mapping (text "on")) && relay_enabled c
    then some relay_on
    else if is_empty c.server_addr || is_empty c.username
    then some no_server
    else none

abbrev pub default_port : ℕ
default_port = 63426

unfoldable pub default_config : Config
default_config = record {
  server_addr = [];
  server_id = [];
  username = [];
  password = [];
  invite = [];
  port = default_port;
  control_port = 0;
  accept_rule = [];
  server_bans = [];
  relay = [];
  mailbox = [];
  public_addr = [];
  port_mapping = [];
  contacts = [];
}

-- config.json: no file, a file that cannot be read or is no config, or the config that it makes of the
-- default one.
pub data ConfigFile : Type 0 where
  no_config bad_config : ConfigFile
  config : Config → ConfigFile

pub data ConfigError : Type 0 where
  not_loaded not_saved : ConfigError

-- SaveConfig
unfoldable pub save_config : Bool → ConfigFile → Config → ConfigFile × Option ConfigError
save_config true file c = (config c, none)
save_config false file c = (file, some not_saved)

abbrev Loading : Type 0
Loading = Result ConfigError Config × ConfigFile

created : ConfigFile × Option ConfigError → Loading
unfolding default_config
created (file, none) = (ok default_config, file)
created (file, some e) = (err e, file)

-- LoadOrCreateConfig
unfoldable pub load_or_create : Bool → ConfigFile → Loading
unfolding created
load_or_create saved (config c) = (ok c, config c)
load_or_create saved bad_config = (err not_loaded, bad_config)
load_or_create saved no_config = created (save_config saved no_config default_config)

updated : (Config → Config) → Bool → Loading → ConfigFile × Option ConfigError
updated f saved (err e, file) = (file, some e)
updated f saved (ok c, file) = save_config saved file (f c)

-- UpdateConfig, whose two writes may fail.
unfoldable pub update_config :
    (Config → Config) → Bool → Bool → ConfigFile → ConfigFile × Option ConfigError
unfolding updated
update_config f created_ok saved file = updated f saved (load_or_create created_ok file)

-- LoadRevoked: the set of banned keys, in lower case; `none` is a file that is missing or no list.
unfoldable pub load_revoked : Unicode → Option (List Text) → List Text
load_revoked u none = []
load_revoked u (some []) = []
load_revoked u (some (k ∷ ks)) = add (to_lower u k) (load_revoked u (some ks))

-- SaveRevoked
unfoldable pub save_revoked : Bool → Option (List Text) → List Text → Option (List Text) × Bool
save_revoked true old keys = (some keys, true)
save_revoked false old keys = (old, false)
