-- ===== src/Program.antt =====
-- meridian-relay/src/main.rs: the flags, which endpoint the commands reach, what `daemon` starts,
-- and what `list`, `info` and `stats` show of what they get. Logging, the text of tables and the
-- calls into the system are not modelled.
pub mod Settings
pub mod Entry
use ius.Base.{
  ℕ, Bool, true, false, ◌||◌, Option, none, some, List, [], ◌∷◌, ◌++◌, map, if◌then◌else◌, Outcome,
  ok, err, ◌>>=◌, String,
}
use ius.Base.Strings.{Text}
use ius.Base.Texts.{bytes, bytes_eq}
use ius.Config.Types.{Backend, usb, relay, LogFormat, DaemonArgs, DaemonConfig, default_endpoint}
use ius.Config.Load.{ConfigError, Outside, from_sources, validate}
use ius.Protocol.Plist.{Plist}
use ius.Protocol.Messages.{get_string, get_unsigned}
use ius.Device.Listing.{Device}

-- The flags that all commands share.
pub record Cli : Type 0 where
  pub endpoint : Option Text
  pub socket_path : Option Text
  pub backend : Backend
  pub upstream : Option Text
  pub log_format : Text

-- The endpoint that a command reaches; none stands for the default.
unfoldable pub resolve_endpoint : Cli → Option Text
resolve_endpoint cli = elim cli.endpoint [
  | some e ↦ some e
  | none ↦ elim cli.socket_path [ none ↦ none | some p ↦ some (bytes "unix:" ++ p) ]
]

-- `main` falls back on the default of the platform.
unfoldable pub command_endpoint : Cli → Text
unfolding resolve_endpoint
command_endpoint cli = elim (resolve_endpoint cli) [ none ↦ default_endpoint | some e ↦ e ]

abbrev pub log_format_of : Text → LogFormat
log_format_of s = if bytes_eq s (bytes "json") then LogFormat.json else LogFormat.text

unfoldable pub make_daemon_args : Cli → DaemonArgs
make_daemon_args cli = record {
  config_path = none;
  endpoint = cli.endpoint;
  socket_path = cli.socket_path;
  socket_mode = none;
  socket_group = none;
  pipe_security = none;
  lockdown_dir = none;
  no_require_pair_record = false;
  scan_interval_ms = none;
  usb_timeout_ms = none;
  connect_timeout_ms = none;
  max_clients = none;
  read_workers = none;
  allow_uids = [];
  allow_sids = [];
  backend = cli.backend;
  upstream = cli.upstream;
  log_format = log_format_of cli.log_format;
}

-- What the `daemon` command goes on to.
pub data Started (Addr : Type 0) : Type 0 where
  printed : DaemonConfig Addr → Started Addr
  run_relay : DaemonConfig Addr → Started Addr
  run_daemon : DaemonConfig Addr → Started Addr

abbrev pub dispatch_backend : {Addr : Type 0} → Backend → DaemonConfig Addr → Started Addr
dispatch_backend relay config = run_relay config
dispatch_backend usb config = run_daemon config

unfoldable pub run_daemon_entry :
    {Addr : Type 0} → Outside Addr → Cli → (print : Bool) → Outcome ConfigError (Started Addr)
unfolding make_daemon_args from_sources validate
run_daemon_entry outside cli print = do
  config ← from_sources outside (make_daemon_args cli).config_path (make_daemon_args cli)
  valid ← validate config
  ok (if print then printed config else dispatch_backend config.backend config)

-- `list --json`: the devices, with their identifiers hidden on demand.
abbrev pub hide_udid : (hide_sensitive : Bool) → Device → Device
hide_udid hide_sensitive d = if hide_sensitive then record d { udid = bytes "redacted" } else d

unfoldable pub list_output : (hide_sensitive : Bool) → List Device → List Device
list_output hide_sensitive devices = map (hide_udid hide_sensitive) devices

abbrev pub prints_json : (json : Bool) (format : Text) → Bool
prints_json json format = json || bytes_eq format (bytes "json")

unfoldable pub find_udid : Text → List Device → Option Device
find_udid udid [] = none
find_udid udid (d ∷ ds) =
    let later = find_udid udid ds in if bytes_eq d.udid udid then some d else later

-- The device that `info` is about.
unfoldable pub info_device : Option Text → List Device → Outcome String Device
unfolding find_udid
info_device udid [] = err "no devices found"
info_device none (d ∷ ds) = ok d
info_device (some udid) (d ∷ ds) = elim (find_udid udid (d ∷ ds)) [
  | none ↦ err "device not found"
  | some found ↦ ok found
]

-- What `stats` prints for an answer.
pub data StatsLine : Type 0 where
  stats_json : Text → StatsLine
  stats_error : (status : ℕ) → StatsLine
  unexpected : StatsLine

unfoldable pub stats_line : (P : Plist) → P.Dictionary → StatsLine
stats_line P d = elim (get_string P d (bytes "Stats")) [
  | some s ↦ stats_json s
  | none ↦ elim (get_unsigned P d (bytes "Status")) [
    | some status ↦ stats_error status
    | none ↦ unexpected
  ]
]
