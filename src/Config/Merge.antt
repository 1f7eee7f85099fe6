-- ===== src/Config/Merge.antt =====
-- `merge_file` and `merge_args` of meridian-relay/src/config.rs. Warnings are not modelled.
use ius.Base.{ℕ, false, Option, none, some, ◌++◌, if◌then◌else◌, is_empty}
use ius.Base.Strings.{Text}
use ius.Base.Texts.{bytes}
use ius.Config.Types.{ConfigFile, DaemonArgs, DaemonConfig}
use ius.Config.Octal.{parse_octal}

-- `if let Some(v) = opt { field = v }`
abbrev pub or_keep {ℓ} : {A : Type ℓ} → Option A → A → A
or_keep none kept = kept
or_keep (some v) kept = v

-- `if let Some(v) = opt { field = Some(v) }`
abbrev pub or_keep_some {ℓ} : {A : Type ℓ} → Option A → Option A → Option A
or_keep_some none kept = kept
or_keep_some (some v) kept = some v

-- A socket path also sets the endpoint's text, after an endpoint has.
abbrev pub raw_endpoint : Option Text → Option Text → Option Text → Option Text
raw_endpoint endpoint (some p) kept = some (bytes "unix:" ++ p)
raw_endpoint endpoint none kept = or_keep_some endpoint kept

-- A mode that does not parse is passed over.
abbrev pub merged_mode : Option Text → ℕ → ℕ
merged_mode none kept = kept
merged_mode (some m) kept = or_keep (parse_octal m) kept

unfoldable pub merge_file : {Addr : Type 0} → DaemonConfig Addr → ConfigFile → DaemonConfig Addr
merge_file c file = record c {
  endpoint_raw = raw_endpoint file.endpoint file.socket_path c.endpoint_raw;
  socket_path = or_keep file.socket_path c.socket_path;
  socket_mode = merged_mode file.socket_mode c.socket_mode;
  socket_group = or_keep_some file.socket_group c.socket_group;
  pipe_security = or_keep file.pipe_security c.pipe_security;
  lockdown_dir = or_keep file.lockdown_dir c.lockdown_dir;
  require_pair_record = or_keep file.require_pair_record c.require_pair_record;
  scan_interval = or_keep file.scan_interval_ms c.scan_interval;
  usb_timeout = or_keep file.usb_timeout_ms c.usb_timeout;
  connect_timeout = or_keep file.connect_timeout_ms c.connect_timeout;
  max_clients = or_keep file.max_clients c.max_clients;
  read_workers = or_keep file.read_workers c.read_workers;
  allowed_uids = or_keep file.allowed_uids c.allowed_uids;
  allowed_sids = or_keep file.allowed_sids c.allowed_sids;
  backend = or_keep file.backend c.backend;
  upstream_raw = or_keep_some file.upstream c.upstream_raw;
  log_format = or_keep file.log_format c.log_format;
}

unfoldable pub merge_args : {Addr : Type 0} → DaemonConfig Addr → DaemonArgs → DaemonConfig Addr
merge_args c args = record c {
  endpoint_raw = raw_endpoint args.endpoint args.socket_path c.endpoint_raw;
  socket_path = or_keep args.socket_path c.socket_path;
  socket_mode = merged_mode args.socket_mode c.socket_mode;
  socket_group = or_keep_some args.socket_group c.socket_group;
  pipe_security = or_keep args.pipe_security c.pipe_security;
  lockdown_dir = or_keep args.lockdown_dir c.lockdown_dir;
  require_pair_record = if args.no_require_pair_record then false else c.require_pair_record;
  scan_interval = or_keep args.scan_interval_ms c.scan_interval;
  usb_timeout = or_keep args.usb_timeout_ms c.usb_timeout;
  connect_timeout = or_keep args.connect_timeout_ms c.connect_timeout;
  max_clients = or_keep args.max_clients c.max_clients;
  read_workers = or_keep args.read_workers c.read_workers;
  allowed_uids = if is_empty args.allow_uids then c.allowed_uids else args.allow_uids;
  allowed_sids = if is_empty args.allow_sids then c.allowed_sids else args.allow_sids;
  backend = args.backend;
  upstream_raw = or_keep_some args.upstream c.upstream_raw;
  log_format = args.log_format;
}
