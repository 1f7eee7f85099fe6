-- ===== src/Tests/Config.antt =====
-- Unit tests of meridian-relay/src/security.rs, daemon/transport.rs and config.rs, and instances of
-- the theorems about them.
use ius.Base.{
  ℕ, zero, suc, leb, ◌≡◌, refl, Bool, true, false, Option, none, some, [], ◌∷◌, All, ok, arith,
}
use ius.Base.Strings.{Text, trim, trim_start, trim_end, strip_prefix, contains_char, contains_dots}
use ius.Base.Texts.{bytes}
use ius.Security.{trim_udid, validate_udid, sanitize_udid_for_path}
use ius.Security.Udid.{IsPathSafe, sanitize_udid_for_path-IsPathSafe}
use ius.Transport.{unix, tcp, parse, parse_tcp, display_string}
use ius.Transport.Endpoints.{parse-display_string}
use ius.Config.Types.{ConfigFile, DaemonArgs, DaemonConfig, usb, relay, LogFormat, default_config}
use ius.Config.Octal.{parse_octal, from_octal, strip_0o, octal_digits}
use ius.Config.Load.{
  Outside, from_sources, load_file, finalize_endpoint, resolve_endpoint, resolve_upstream,
  parse_endpoint,
}
use ius.Config.Merge.{merge_args, merge_file}
use ius.Config.Layers.{IsLayered, from_sources-IsLayered}
use ius.Config.Local.{IsLocal, from_sources-IsLocal}

-- A text with a space before its trailing NUL keeps the space.
keeps_space : sanitize_udid_for_path (bytes "AB \0") ≡ some (bytes "AB ")
unfolding sanitize_udid_for_path validate_udid trim_udid trim trim_start trim_end contains_dots
    contains_char
keeps_space = refl

sanitize_udid_for_path-IsPathSafe_example : All IsPathSafe (bytes "AB ")
sanitize_udid_for_path-IsPathSafe_example =
    sanitize_udid_for_path-IsPathSafe (bytes "AB \0") (bytes "AB ") keeps_space

octal_modes :
    (parse_octal (bytes "0666") ≡ some 438)
    × (parse_octal (bytes "0o660") ≡ some 432)
    × (parse_octal (bytes "600") ≡ some 384)
    × (parse_octal (bytes "invalid") ≡ none)
unfolding parse_octal from_octal strip_0o octal_digits trim trim_start trim_end
octal_modes = (refl, refl, refl, refl)

-- The mode 0 is refused: its only digit is stripped.
octal_zero : parse_octal (bytes "0") ≡ none
unfolding parse_octal from_octal strip_0o octal_digits trim trim_start trim_end
octal_zero = refl

-- Addresses are numbers here, written in unary; the loopback ones are below 3.
abbrev unary : Text → Option ℕ
unary [] = some 0
unary (c ∷ s) = elim (unary s) [ none ↦ none | some n ↦ some (suc n) ]

abbrev show_unary : ℕ → Text
show_unary zero = []
show_unary (suc n) = 49 ∷ show_unary n

unary-show : (n : ℕ) → unary (show_unary n) ≡ some n
unary-show zero = refl
unary-show (suc n) = ground (arith, unary-show n)

abbrev low : ℕ → Bool
low n = leb n 2

tcp_parses : parse unary low (bytes "tcp:11") ≡ ok (tcp 2)
unfolding parse strip_prefix parse_tcp
tcp_parses = refl

parse-display_string_example : parse unary low (display_string show_unary (tcp 2)) ≡ ok (tcp 2)
parse-display_string_example =
    parse-display_string unary low show_unary (bytes "tcp:11") (tcp 2) unary-show tcp_parses

abbrev file : ConfigFile
file = record {
  endpoint = some (bytes "tcp:1");
  socket_path = none;
  socket_mode = some (bytes "0o660");
  socket_group = none;
  pipe_security = none;
  lockdown_dir = none;
  require_pair_record = none;
  scan_interval_ms = some 100;
  usb_timeout_ms = none;
  connect_timeout_ms = none;
  max_clients = some 7;
  read_workers = none;
  allowed_uids = some (5 ∷ []);
  allowed_sids = none;
  backend = some relay;
  upstream = none;
  log_format = none;
}

abbrev args : DaemonArgs
args = record {
  config_path = none;
  endpoint = none;
  socket_path = some (bytes "/tmp/s");
  socket_mode = none;
  socket_group = none;
  pipe_security = none;
  lockdown_dir = none;
  no_require_pair_record = true;
  scan_interval_ms = none;
  usb_timeout_ms = none;
  connect_timeout_ms = none;
  max_clients = some 9;
  read_workers = none;
  allow_uids = [];
  allow_sids = [];
  backend = usb;
  upstream = none;
  log_format = LogFormat.text;
}

abbrev outside : Outside ℕ
outside = record {
  parse_addr = unary;
  is_loopback = low;
  default_upstream = 0;
  exists = λ _. false;
  read_to_string = λ _. some [];
  from_toml = λ _. some file;
}

abbrev loaded : DaemonConfig ℕ
loaded = record (default_config 0) {
  endpoint = unix (bytes "/tmp/s");
  endpoint_raw = some (bytes "unix:/tmp/s");
  socket_path = bytes "/tmp/s";
  socket_mode = 432;
  require_pair_record = false;
  scan_interval = 100;
  max_clients = 9;
  allowed_uids = 5 ∷ [];
}

sources_load : from_sources outside (some []) args ≡ ok loaded
unfolding from_sources load_file finalize_endpoint resolve_endpoint resolve_upstream parse_endpoint
    parse strip_prefix merge_args merge_file parse_octal from_octal strip_0o octal_digits trim
    trim_start trim_end
sources_load = refl

from_sources-IsLayered_example : IsLayered file args (default_config 0) loaded
from_sources-IsLayered_example =
    from_sources-IsLayered outside [] [] file args loaded refl (omega arith) refl sources_load

from_sources-IsLocal_example : IsLocal outside loaded
from_sources-IsLocal_example = from_sources-IsLocal outside (some []) args loaded sources_load
