-- ===== src/Protocol/Messages.antt =====
-- The messages that meridian-relay/src/daemon/protocol.rs builds, over the property list library.
use ius.Base.{ℕ, Option, none, some, List, [], ◌∷◌, map}
use ius.Base.Strings.{Text}
use ius.Base.Texts.{bytes}
use ius.Scanner.{UsbDevice}
use ius.Protocol
use ius.Protocol.{RawPacket, xml_plist_version, plist_message_type}
use ius.Protocol.Plist.{Plist}

module _ (P : Plist) where
  -- A dictionary with the entries inserted one after the other.
  abbrev pub entries : List (Text × P.Value) → P.Dictionary → P.Dictionary
  entries [] d = d
  entries ((key, v) ∷ rest) d = entries rest (P.insert d key v)

  abbrev pub response : (tag : ℕ) → P.Dictionary → RawPacket P.Dictionary
  response tag d = Protocol.new d xml_plist_version plist_message_type tag

  unfoldable pub make_result_response : (tag number : ℕ) → RawPacket P.Dictionary
  make_result_response tag number = response tag (
      entries
        ((bytes "MessageType", P.of_string (bytes "Result"))
          ∷ (bytes "Number", P.of_integer number)
          ∷ [])
        P.new)

  -- The `props` of a device, in the device list and in an event.
  abbrev pub device_props : UsbDevice → P.Dictionary
  device_props dev =
      entries
        ((bytes "DeviceID", P.of_integer dev.device_id)
          ∷ (bytes "ConnectionType", P.of_string (bytes "USB"))
          ∷ (bytes "SerialNumber", P.of_string dev.udid)
          ∷ (bytes "ProductID", P.of_integer dev.product_id)
          ∷ (bytes "LocationID", P.of_integer 0)
          ∷ (bytes "Port", P.of_integer 0)
          ∷ [])
        P.new

  abbrev pub device_entry : UsbDevice → P.Value
  device_entry dev =
      P.of_dictionary
        (entries ((bytes "Properties", P.of_dictionary (device_props dev)) ∷ []) P.new)

  unfoldable pub make_device_list_response : (tag : ℕ) → List UsbDevice → RawPacket P.Dictionary
  make_device_list_response tag devices =
      response tag
        (entries ((bytes "DeviceList", P.of_array (map device_entry devices)) ∷ []) P.new)

  unfoldable pub make_attached_event : (tag : ℕ) → UsbDevice → RawPacket P.Dictionary
  make_attached_event tag device = response tag (
      entries
        ((bytes "MessageType", P.of_string (bytes "Attached"))
          ∷ (bytes "DeviceID", P.of_integer device.device_id)
          ∷ (bytes "Properties", P.of_dictionary (device_props device))
          ∷ [])
        P.new)

  unfoldable pub make_detached_event : (tag device_id : ℕ) → RawPacket P.Dictionary
  make_detached_event tag device_id = response tag (
      entries
        ((bytes "MessageType", P.of_string (bytes "Detached"))
          ∷ (bytes "DeviceID", P.of_integer device_id)
          ∷ [])
        P.new)

  unfoldable pub make_stats_response : (tag : ℕ) (json : Text) → RawPacket P.Dictionary
  make_stats_response tag json = response tag (
      entries
        ((bytes "MessageType", P.of_string (bytes "Result"))
          ∷ (bytes "Number", P.of_integer 0)
          ∷ (bytes "Stats", P.of_string json)
          ∷ [])
        P.new)

  unfoldable pub make_stats_command : (tag : ℕ) → RawPacket P.Dictionary
  make_stats_command tag =
      response tag (entries ((bytes "MessageType", P.of_string (bytes "MeridianStats")) ∷ []) P.new)

  -- Typed reads of an entry, as the handlers match on `get`.
  unfoldable pub get_string : P.Dictionary → Text → Option Text
  get_string d key = elim (P.get d key) [ none ↦ none | some v ↦ P.as_string v ]

  unfoldable pub get_unsigned : P.Dictionary → Text → Option ℕ
  get_unsigned d key = elim (P.get d key) [ none ↦ none | some v ↦ P.as_unsigned v ]

  unfoldable pub get_data : P.Dictionary → Text → Option (List ℕ)
  get_data d key = elim (P.get d key) [ none ↦ none | some v ↦ P.as_data v ]
