-- ===== src/Config/Load.antt =====
-- `finalize_endpoint`, `from_sources` and `validate` of meridian-relay/src/config.rs. The file
-- system, the TOML decoder and the socket addresses are parameters. Warnings, which change no
-- result, are not modelled.
use ius.Base.{
  ℕ, Bool, Option, none, some, ltb, nat_eq, if◌then◌else◌, Outcome, ok, err, ◌>>=◌, String,
}
use ius.Base.Strings.{Text, str_len}
use ius.Transport.{Endpoint, unix, named_pipe, tcp, ParseError, parse}
use ius.Config.Types.{
  ConfigFile, DaemonArgs, DaemonConfig, default_config, default_config_path, max_config_file_size,
}
use ius.Config.Merge.{merge_file, merge_args}

pub data ConfigError : Type 0 where
  read_failed : Text → ConfigError
  too_large : ℕ → ConfigError
  parse_failed : ConfigError
  bad_endpoint : ParseError → ConfigError
  invalid : String → ConfigError
  invalid_mode : ℕ → ConfigError

-- What the source reads from outside: files, TOML and socket addresses.
pub record Outside (Addr : Type 0) : Type 0 where
  pub parse_addr : Text → Option Addr
  pub is_loopback : Addr → Bool
  pub default_upstream : Addr
  pub exists : Text → Bool
  pub read_to_string : Text → Option Text
  pub from_toml : Text → Option ConfigFile

module _ {Addr : Type 0} (outside : Outside Addr) where
  unfoldable pub parse_endpoint : Text → Outcome ConfigError (Endpoint Addr)
  parse_endpoint raw = elim (parse outside.parse_addr outside.is_loopback raw) [
    | ok e ↦ ok e
    | err e ↦ err (bad_endpoint e)
  ]

  -- A unix endpoint is mirrored in the socket path.
  abbrev pub set_endpoint : DaemonConfig Addr → Endpoint Addr → DaemonConfig Addr
  set_endpoint c (unix p) = record c { endpoint = unix p; socket_path = p }
  set_endpoint c (named_pipe n) = record c { endpoint = named_pipe n }
  set_endpoint c (tcp a) = record c { endpoint = tcp a }

  unfoldable pub resolve_endpoint :
      DaemonConfig Addr → Option Text → Outcome ConfigError (DaemonConfig Addr)
  resolve_endpoint c none = ok c
  resolve_endpoint c (some raw) = do e ← parse_endpoint raw; ok (set_endpoint c e)

  unfoldable pub resolve_upstream :
      DaemonConfig Addr → Option Text → Outcome ConfigError (DaemonConfig Addr)
  resolve_upstream c none = ok c
  resolve_upstream c (some raw) = do e ← parse_endpoint raw; ok (record c { upstream = e })

  unfoldable pub finalize_endpoint : DaemonConfig Addr → Outcome ConfigError (DaemonConfig Addr)
  unfolding resolve_endpoint resolve_upstream
  finalize_endpoint c = do
    c' ← resolve_endpoint c c.endpoint_raw
    resolve_upstream c' c'.upstream_raw

  -- The file's layer; a file is read when it was named or the default one exists.
  unfoldable pub load_file :
      DaemonConfig Addr → Option Text → Outcome ConfigError (DaemonConfig Addr)
  unfolding merge_file
  load_file c none = ok c
  load_file c (some path) = elim (outside.read_to_string path) [
    | none ↦ err (read_failed path)
    | some content ↦
        if ltb max_config_file_size (str_len content)
        then err (too_large (str_len content))
        else elim (outside.from_toml content) [
          | none ↦ err parse_failed
          | some file ↦ ok (merge_file c file)
        ]
  ]

  abbrev pub config_file_path : Option Text → Option Text
  config_file_path (some p) = some p
  config_file_path none =
      if outside.exists default_config_path then some default_config_path else none

  unfoldable pub from_sources : Option Text → DaemonArgs → Outcome ConfigError (DaemonConfig Addr)
  unfolding load_file finalize_endpoint merge_args
  from_sources config_path args = do
    c ← load_file (default_config outside.default_upstream) (config_file_path config_path)
    finalize_endpoint (merge_args c args)

unfoldable pub validate : {Addr : Type 0} → DaemonConfig Addr → Outcome ConfigError (Unit {0})
validate c =
    if nat_eq c.max_clients 0
    then err (invalid "max_clients must be > 0")
    else if nat_eq c.read_workers 0
    then err (invalid "read_workers must be > 0")
    else if nat_eq c.scan_interval 0
    then err (invalid "scan_interval must be > 0")
    else if nat_eq c.usb_timeout 0
    then err (invalid "usb_timeout must be > 0")
    else if nat_eq c.connect_timeout 0
    then err (invalid "connect_timeout must be > 0")
    else if ltb c.max_packet_bytes 1024
    then err (invalid "max_packet_bytes must be >= 1024")
    else if nat_eq c.max_conn_buffer 0
    then err (invalid "max_conn_buffer must be > 0")
    else if ltb 511 c.socket_mode
    then err (invalid_mode c.socket_mode)
    else ok tt
