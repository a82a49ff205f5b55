-- ===== src/Common/SocketUtils/Config.antt =====
-- common/socket_utils.h: `SocketCfg` and its print.
use electronic_trading_ecosy.Base.{Bool, false, [], ◌∷◌, if◌then◌else◌}
use electronic_trading_ecosy.Base.Int.{ℤ, negsuc}
use electronic_trading_ecosy.Base.Text.{Bytes, codes, stream}
use electronic_trading_ecosy.Common.Logging.{print_int}

pub record SocketCfg : Type 0 where
  pub ip : Bytes
  pub iface : Bytes
  pub port : ℤ
  pub is_udp : Bool
  pub is_listening : Bool
  pub needs_so_timestamp : Bool

abbrev pub default_cfg : SocketCfg
default_cfg = record {
  ip = [];
  iface = [];
  port = negsuc 0;
  is_udp = false;
  is_listening = false;
  needs_so_timestamp = false;
}

-- `<<` of a `bool`
abbrev print_bool : Bool → Bytes
print_bool b = if b then codes "1" else codes "0"

unfoldable pub socket_cfg_to_string : SocketCfg → Bytes
socket_cfg_to_string cfg = stream (
    codes "SocketCfg[ip:"
    ∷ cfg.ip
    ∷ codes " iface:"
    ∷ cfg.iface
    ∷ codes " port:"
    ∷ print_int cfg.port
    ∷ codes " is_udp:"
    ∷ print_bool cfg.is_udp
    ∷ codes " is_listening:"
    ∷ print_bool cfg.is_listening
    ∷ codes " needs_SO_timestamp:"
    ∷ print_bool cfg.needs_so_timestamp
    ∷ codes "]"
    ∷ [])
