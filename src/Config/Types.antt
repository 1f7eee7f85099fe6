-- ===== src/Config/Types.antt =====
-- The types and the defaults of meridian-relay/src/config.rs. Durations are in milliseconds; a path
-- is its text. The unix defaults come from meridian-relay/src/platform/unix.rs.
use ius.Base.{ℕ, ◌*◌, Bool, true, Option, none, List, []}
use ius.Base.Strings.{Text}
use ius.Base.Texts.{bytes}
use ius.Transport.{Endpoint, unix, tcp}

pub data Backend : Type 0 where
  usb relay : Backend

pub data LogFormat : Type 0 where
  text json : LogFormat

pub record ConfigFile : Type 0 where
  pub endpoint : Option Text
  pub socket_path : Option Text
  pub socket_mode : Option Text
  pub socket_group : Option Text
  pub pipe_security : Option Text
  pub lockdown_dir : Option Text
  pub require_pair_record : Option Bool
  pub scan_interval_ms : Option ℕ
  pub usb_timeout_ms : Option ℕ
  pub connect_timeout_ms : Option ℕ
  pub max_clients : Option ℕ
  pub read_workers : Option ℕ
  pub allowed_uids : Option (List ℕ)
  pub allowed_sids : Option (List Text)
  pub backend : Option Backend
  pub upstream : Option Text
  pub log_format : Option LogFormat

pub record DaemonArgs : Type 0 where
  pub config_path : Option Text
  pub endpoint : Option Text
  pub socket_path : Option Text
  pub socket_mode : Option Text
  pub socket_group : Option Text
  pub pipe_security : Option Text
  pub lockdown_dir : Option Text
  pub no_require_pair_record : Bool
  pub scan_interval_ms : Option ℕ
  pub usb_timeout_ms : Option ℕ
  pub connect_timeout_ms : Option ℕ
  pub max_clients : Option ℕ
  pub read_workers : Option ℕ
  pub allow_uids : List ℕ
  pub allow_sids : List Text
  pub backend : Backend
  pub upstream : Option Text
  pub log_format : LogFormat

pub record DaemonConfig (Addr : Type 0) : Type 0 where
  pub endpoint : Endpoint Addr
  pub endpoint_raw : Option Text
  pub socket_path : Text
  pub socket_mode : ℕ
  pub socket_group : Option Text
  pub pipe_security : Text
  pub lockdown_dir : Text
  pub require_pair_record : Bool
  pub scan_interval : ℕ
  pub usb_timeout : ℕ
  pub connect_timeout : ℕ
  pub max_clients : ℕ
  pub broadcast_capacity : ℕ
  pub read_workers : ℕ
  pub max_reassembly_bytes : ℕ
  pub max_packet_bytes : ℕ
  pub max_conn_buffer : ℕ
  pub client_read_buf : ℕ
  pub max_data_channel : ℕ
  pub connect_channel : ℕ
  pub allowed_uids : List ℕ
  pub allowed_sids : List Text
  pub backend : Backend
  pub upstream : Endpoint Addr
  pub upstream_raw : Option Text
  pub log_format : LogFormat

abbrev pub max_config_file_size : ℕ
max_config_file_size = 1024 * 1024

abbrev pub default_endpoint : Text
default_endpoint = bytes "/var/run/usbmuxd"

abbrev pub default_config_path : Text
default_config_path = bytes "/etc/meridian-relay.toml"

-- `default_upstream` stands for the address that the text 127.0.0.1:27015 parses to.
abbrev pub default_config : {Addr : Type 0} → Addr → DaemonConfig Addr
default_config default_upstream = record {
  endpoint = unix default_endpoint;
  endpoint_raw = none;
  socket_path = default_endpoint;
  socket_mode = 438;
  socket_group = none;
  pipe_security = [];
  lockdown_dir = bytes "/var/lib/lockdown";
  require_pair_record = true;
  scan_interval = 2000;
  usb_timeout = 5000;
  connect_timeout = 5000;
  max_clients = 256;
  broadcast_capacity = 256;
  read_workers = 3;
  max_reassembly_bytes = 1024 * 1024;
  max_packet_bytes = 16 * 1024 * 1024;
  max_conn_buffer = 1024 * 1024;
  client_read_buf = 16384;
  max_data_channel = 128;
  connect_channel = 16;
  allowed_uids = [];
  allowed_sids = [];
  backend = usb;
  upstream = tcp default_upstream;
  upstream_raw = none;
  log_format = LogFormat.text;
}
