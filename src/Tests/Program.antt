-- ===== src/Tests/Program.antt =====
-- The flags of meridian-relay/src/main.rs and the enumeration of daemon/device_scanner.rs on
-- concrete inputs, and instances of the theorems about the daemon's start.
use ius.Base.{ℕ, leb, ◌≡◌, refl, true, false, none, some, [], ◌∷◌, ok, err}
use ius.Base.Strings.{Text, trim, trim_start, trim_end, strip_prefix}
use ius.Base.Texts.{bytes, bytes_eq}
use ius.Transport.{unix, parse}
use ius.Config.Types.{DaemonConfig, relay, LogFormat, default_config}
use ius.Config.Merge.{merge_args}
use ius.Config.Load.{
  Outside, from_sources, validate, load_file, finalize_endpoint, resolve_upstream, parse_endpoint,
}
use ius.Config.Load
use ius.Program
use ius.Program.{
  Cli, Started, run_relay, make_daemon_args, command_endpoint, run_daemon_entry, info_device,
  find_udid, list_output,
}
use ius.Program.Entry.{IsStarted, run_daemon_entry-IsStarted}
use ius.Device.Listing.{Device, ConnectionType}
use ius.Scanner.Enumerate.{Peripheral, udid_of, observations, enumerate_apple_devices}

abbrev outside : Outside ℕ
outside = record {
  parse_addr = λ _. none;
  is_loopback = λ n. leb n 2;
  default_upstream = 0;
  exists = λ _. false;
  read_to_string = λ _. none;
  from_toml = λ _. none;
}

abbrev cli : Cli
cli = record {
  endpoint = some (bytes "unix:/tmp/a");
  socket_path = none;
  backend = relay;
  upstream = none;
  log_format = bytes "json";
}

abbrev config : Text → DaemonConfig ℕ
config path = record (default_config 0) {
  endpoint = unix path;
  socket_path = path;
  backend = relay;
  log_format = LogFormat.json;
}

abbrev config_a : DaemonConfig ℕ
config_a = record (config (bytes "/tmp/a")) { endpoint_raw = some (bytes "unix:/tmp/a") }

a_starts : run_daemon_entry outside cli false ≡ ok (run_relay config_a)
unfolding run_daemon_entry from_sources load_file finalize_endpoint Load.resolve_endpoint
    resolve_upstream parse_endpoint parse strip_prefix merge_args make_daemon_args bytes_eq validate
a_starts = refl

run_daemon_entry-IsStarted_example : IsStarted outside cli false (run_relay config_a)
run_daemon_entry-IsStarted_example =
    run_daemon_entry-IsStarted outside cli false (run_relay config_a) a_starts

-- With both flags the daemon takes the socket path and the other commands the endpoint.
abbrev both : Cli
both = record cli { socket_path = some (bytes "/tmp/b") }

both_differ :
    (command_endpoint both ≡ bytes "unix:/tmp/a")
    × ((merge_args (default_config {Addr = ℕ} 0) (make_daemon_args both)).endpoint_raw
        ≡ some (bytes "unix:/tmp/b"))
unfolding command_endpoint Program.resolve_endpoint merge_args make_daemon_args
both_differ = (refl, refl)

abbrev device : Text → Device
device udid = record {
  udid = udid;
  device_id = 1;
  name = none;
  model = none;
  ios_version = none;
  build_version = none;
  connection_type = ConnectionType.usb;
}

info_finds :
    (info_device (some (66 ∷ [])) (device (65 ∷ []) ∷ device (66 ∷ []) ∷ [])
      ≡ ok (device (66 ∷ [])))
    × (info_device none (device (65 ∷ []) ∷ device (66 ∷ []) ∷ []) ≡ ok (device (65 ∷ [])))
    × (info_device (some (67 ∷ [])) (device (65 ∷ []) ∷ []) ≡ err "device not found")
unfolding info_device find_udid bytes_eq
info_finds = (refl, refl, refl)

abbrev phone : Text → Peripheral
phone serial = record {
  bus_number = 1;
  address = 4;
  device_descriptor = some (record { vendor_id = 0x05AC; product_id = 0x12A8 });
  opens = true;
  serial_number = some serial;
}

abbrev keyboard : Peripheral
keyboard = record (phone []) {
  device_descriptor = some (record { vendor_id = 0x046D; product_id = 1 });
}

enumerates :
    enumerate_apple_devices (some (some (keyboard ∷ phone (bytes " AB\0") ∷ [])))
    ≡ ok (
        record { usb_bus = 1; usb_address = 4; product_id = 0x12A8; udid = some (bytes "AB") } ∷ [])
unfolding enumerate_apple_devices observations udid_of trim trim_start trim_end
enumerates = refl

-- A NUL between spaces passes the test for a blank serial number, and leaves an empty one.
blank_serial : udid_of (phone (bytes " \0 ")) ≡ some []
unfolding udid_of trim trim_start trim_end
blank_serial = refl
