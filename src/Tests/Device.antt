-- ===== src/Tests/Device.antt =====
-- The client side of meridian-relay on small inputs, over the libraries in memory.
use ius.Base.{ℕ, ◌≡◌, refl, true, Option, none, some, List, [], ◌∷◌, map, ok, err, arith}
use ius.Base.Texts.{bytes}
use ius.Scanner.{UsbDevice, detached}
use ius.Protocol.{PlistCodec}
use ius.Protocol.Messages.{make_device_list_response}
use ius.Device.Lockdown.{write_plist, Chunk, received, read_plist}
use ius.Device.Framing.{Delivers, read_plist-write_plist}
use ius.Device.Listing.{list_devices_from, resolve_first_device, watch_event}
use ius.Device.Answers.{
  as_listed, event, expected, list_devices_from-make_device_list_response,
  resolve_first_device-make_device_list_response, watch_event-event,
}
use ius.Device.Models.{model_name}
use ius.Tests.Library.{plist, plist-IsLawful, Entries, no_entries, dictionary}

abbrev codec : PlistCodec Entries
codec = record {
  to_writer_xml = λ _. some (60 ∷ 61 ∷ []);
  from_reader = λ _. some no_entries;
  from_bytes = λ _. some no_entries;
}

-- The frame in three pieces, the last of which goes on behind it.
abbrev pieces : List Chunk
pieces = received (0 ∷ 0 ∷ []) ∷ received (0 ∷ 2 ∷ 60 ∷ []) ∷ received (61 ∷ 9 ∷ []) ∷ []

read_plist-write_plist_example :
    (chunks' : List Chunk) × (read_plist plist codec (λ _. some (dictionary no_entries)) pieces
      ≡ (ok no_entries, chunks'))
    × Delivers chunks' (9 ∷ [])
unfolding write_plist
read_plist-write_plist_example =
    read_plist-write_plist plist codec (λ _. some (dictionary no_entries)) no_entries
      (dictionary no_entries) (60 ∷ 61 ∷ []) (0 ∷ 0 ∷ 0 ∷ 2 ∷ 60 ∷ 61 ∷ []) (9 ∷ []) pieces refl
      refl refl (omega arith) refl (refl, _, refl, (refl, _, refl, (refl, _, refl, refl)))

abbrev phone : UsbDevice
phone = record {
  device_id = 3;
  udid = bytes "AAAA";
  product_id = 0x12A8;
  usb_bus = 1;
  usb_address = 5;
}

list_devices_from-make_device_list_response_example :
    list_devices_from plist (make_device_list_response plist 1 (phone ∷ [])).plist
    ≡ ok (map as_listed (phone ∷ []))
list_devices_from-make_device_list_response_example =
    list_devices_from-make_device_list_response plist plist-IsLawful 1 (phone ∷ [])
      (omega arith, tt)

resolve_first_device-make_device_list_response_example :
    resolve_first_device plist (make_device_list_response plist 1 (phone ∷ [])).plist
    ≡ err "no devices connected"
resolve_first_device-make_device_list_response_example =
    resolve_first_device-make_device_list_response plist plist-IsLawful 1 (phone ∷ [])

watch_event-event_example :
    watch_event plist (some (bytes "BBBB")) (event plist (detached 3))
    ≡ ok (expected plist (some (bytes "BBBB")) (detached 3))
watch_event-event_example =
    watch_event-event plist plist-IsLawful (some (bytes "BBBB")) (detached 3) (omega arith)

-- A model of the table, and one that is not in it.
known_model : model_name (bytes "iPhone13,1") ≡ some (bytes "iPhone 12 mini")
unfolding model_name ius.Base.Texts.bytes_eq
known_model = refl

unknown_model : model_name (bytes "iPhone1,1") ≡ none
unfolding model_name ius.Base.Texts.bytes_eq
unknown_model = refl
