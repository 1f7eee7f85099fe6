-- ===== src/Tests/Clients.antt =====
-- Clients of meridian-relay/src/daemon/connection.rs, over the libraries in memory.
use ius.Base.{
  ℕ, ◌≢◌, ◌≡◌, ap, length, ◌⊎◌, refl, Bool, true, false, not, ◌&&◌, Option, none, some, List, [],
  ◌∷◌, ◌++◌, Outcome, ok, err, inl, inr, ℕ-eq, arith,
}
use ius.Base.Words.{Bytes}
use ius.Base.Strings.{Text}
use ius.Base.Texts.{bytes, bytes_eq, Bytes-eq}
use ius.Base.Assoc
use ius.Metrics
use ius.Metrics.{Metrics}
use ius.Security.{trim_udid}
use ius.Platform.{Directory}
use ius.Protocol.{RawPacket, PlistCodec}
use ius.Protocol.Messages.{make_stats_command}
use ius.Scanner.{DeviceScanner, UsbDevice, get_device_by_id}
use ius.Mux.Types.{ConnState}
use ius.Mux.Connections.{new_device}
use ius.Devices.Managed.{DeviceManager}
use ius.Devices.Dispatch.{taken}
use ius.Clients.Connects.{open_connection}
use ius.Device.Values.{connect_request}
use ius.Device.Requests.{counted_connect, handle_packet-connect_request}
use ius.Clients.Records.{
  plist_name, dashed, read_pair_record, has_pair_record, save_pair_record, delete_pair_record,
}
use ius.Clients.Records.RoundTrip.{read_pair_record-save_pair_record, delete_pair_record-metadata}
use ius.Clients.Serving.{proxying, Served, Around, Packet}
use ius.Clients.Commands.{handle_packet}
use ius.Clients.Commands.Files.{Touches, handle_packet-Touches}
use ius.Clients.Commands.Guards.{IsAdmitted, handle_packet-IsAdmitted}
use ius.Clients.Session.{IsHandled, handle_client_inner-IsHandled}
use ius.Tests.Library.{plist, plist-IsLawful, disk, disk-IsLawful, Disk, Entries}

abbrev empty_disk : Disk
empty_disk = record { made = false; files = [] }

-- The same identifier with its dash and without.
abbrev with_dash : Text
with_dash = bytes "00008110-000C694914F3801E"

abbrev without_dash : Text
without_dash = bytes "00008110000C694914F3801E"

abbrev saved : Disk
saved = record { made = true; files = (bytes "00008110-000C694914F3801E.plist", 7 ∷ []) ∷ [] }

save_with_dash : save_pair_record disk empty_disk with_dash (7 ∷ []) ≡ (saved, ok tt)
unfolding save_pair_record Assoc.insert Assoc.remove ius.Security.sanitize_udid_for_path
    ius.Security.validate_udid ius.Base.Strings.contains_dots ius.Base.Strings.contains_char
    ius.Base.Texts.bytes_eq
save_with_dash = refl

read_pair_record-save_pair_record_example :
    (read_pair_record disk saved without_dash ≡ ok (7 ∷ []))
    × (has_pair_record disk saved without_dash ≡ true)
unfolding Assoc.lookup dashed trim_udid ius.Base.Strings.contains_char ius.Base.Strings.split_at
read_pair_record-save_pair_record_example =
    read_pair_record-save_pair_record disk disk-IsLawful empty_disk saved with_dash without_dash
      (7 ∷ []) save_with_dash (inr (refl, refl))

abbrev two_forms : Disk
two_forms = record {
  made = true;
  files =
      (bytes "00008110-000C694914F3801E.plist", 7 ∷ [])
      ∷ (bytes "00008110000C694914F3801E.plist", 8 ∷ [])
      ∷ [];
}

-- Deleting under the form without the dash leaves the other file.
delete_pair_record-metadata_example :
    (Directory.metadata disk saved (plist_name (trim_udid without_dash)) ≡ false)
    × (Directory.metadata disk saved (plist_name (dashed (trim_udid without_dash))) ≡ (
        not (
          bytes_eq
            (plist_name (dashed (trim_udid without_dash)))
            (plist_name (trim_udid without_dash)))
        && Directory.metadata disk two_forms (plist_name (trim_udid without_dash))
        && Directory.metadata disk two_forms (plist_name (dashed (trim_udid without_dash)))))
    × ((name : Text)
        → name ≢ plist_name (trim_udid without_dash)
        → name ≢ plist_name (dashed (trim_udid without_dash))
        → (Directory.metadata disk saved name ≡ Directory.metadata disk two_forms name)
          × (Directory.read disk saved name ≡ Directory.read disk two_forms name))
unfolding Assoc.lookup dashed trim_udid delete_pair_record ius.Base.Strings.contains_char
    ius.Base.Strings.split_at ius.Base.Texts.bytes_eq Assoc.remove
delete_pair_record-metadata_example =
    delete_pair_record-metadata disk disk-IsLawful two_forms saved without_dash refl

-- An identifier with a dash has one file.
dashed_has_one_file :
    (plist_name (dashed (trim_udid with_dash)) ≡ plist_name (trim_udid with_dash))
    × (delete_pair_record disk saved with_dash ≡ (record saved { files = [] }, ok tt))
unfolding Assoc.lookup Assoc.remove dashed trim_udid delete_pair_record
    ius.Base.Strings.contains_char ius.Base.Strings.split_at ius.Base.Texts.bytes_eq
dashed_has_one_file = (refl, refl)

-- Device 1 is attached and managed, and can be connected to.
abbrev phone : UsbDevice
phone = record {
  device_id = 1;
  udid = with_dash;
  product_id = 0x12A8;
  usb_bus = 1;
  usb_address = 5;
}

abbrev scanner : DeviceScanner
scanner = record { devices = (1, phone) ∷ []; miss_counts = []; next_id = 2 }

abbrev manager : DeviceManager
manager = record {
  devices = (1, record { device_id = 1; refcount = 0 }) ∷ [];
  conn_mgr = record { devices = (1, new_device 1) ∷ [] };
}

abbrev around : Around plist disk
around = record {
  write = λ _. true;
  scanner = scanner;
  scanner_later = scanner;
  enqueued = taken;
  send = λ _. true;
  rounds = some ConnState.connected ∷ [];
  meanwhile = λ m. m;
  nanos = 1;
  random = 2;
  from_utf8 = λ b. some b;
  to_json = λ _. [];
  require_pair_record = true;
}

abbrev before : Served plist disk
before = record { manager = manager; metrics = Metrics.new; lockdown_dir = saved; written = [] }

abbrev connects : Packet plist disk
connects = connect_request plist 1

abbrev after : Served plist disk
after = (handle_packet plist disk around before connects).0

admitted : (handle_packet plist disk around before connects).1 ≡ proxying 1 1024
unfolding handle_packet ius.Protocol.Messages.get_string connect_request ius.Base.Texts.bytes_eq
    ius.Clients.Connects.handle_connect ius.Protocol.Messages.get_unsigned Assoc.lookup
    has_pair_record trim_udid ius.Devices.Dispatch.connect
    ius.Devices.Connecting.handle_connect_request ius.Mux.Connections.first_free Assoc.contains_key
    Assoc.adjust Assoc.insert
admitted = refl

handle_packet-IsAdmitted_example : IsAdmitted plist disk around saved [] connects 1 after
handle_packet-IsAdmitted_example =
    handle_packet-IsAdmitted plist disk around before connects 1 1024 admitted

handle_packet-Touches_example :
    Touches plist disk saved connects
      (handle_packet plist disk around before connects).0.lockdown_dir
handle_packet-Touches_example = handle_packet-Touches plist disk around before connects

handle_packet-connect_request_example :
    handle_packet plist disk around before (connect_request plist 1)
    ≡ open_connection plist disk around (counted_connect plist disk before) 1 1 62078
unfolding get_device_by_id Assoc.lookup ius.Clients.Connects.lacks_pair_record has_pair_record
    ius.Base.Texts.bytes_eq trim_udid
handle_packet-connect_request_example =
    handle_packet-connect_request plist plist-IsLawful disk around before 1 (omega arith)
      (λ e. omega arith) refl refl

-- A codec that knows one message, the request for statistics.
abbrev codec : PlistCodec Entries
codec = record {
  to_writer_xml = λ _. some (60 ∷ []);
  from_reader = λ _. some (make_stats_command plist 0).plist;
  from_bytes = λ _. some (make_stats_command plist 0).plist;
}

abbrev stream : Bytes
stream = 17 ∷ 0 ∷ 0 ∷ 0 ∷ 1 ∷ 0 ∷ 0 ∷ 0 ∷ 8 ∷ 0 ∷ 0 ∷ 0 ∷ 5 ∷ 0 ∷ 0 ∷ 0 ∷ 60 ∷ 1 ∷ 2 ∷ []

handle_client_inner-IsHandled_example :
    IsHandled plist disk codec 1024 20 (λ _. around) before stream
handle_client_inner-IsHandled_example =
    handle_client_inner-IsHandled plist disk codec 1024 20 (λ _. around) before stream (omega arith)
