-- ===== src/Device/Listing.antt =====
-- What the commands of meridian-relay/src/device/detect.rs and monitor.rs, and the tunnel of
-- tunnel.rs, read in the answers of the daemon.
use ius.Base.{
  ℕ, zero, suc, ◌*◌, min, Bool, true, false, not, ◌||◌, Option, none, some, List, [], ◌∷◌, nat_eq,
  is_empty, if◌then◌else◌, Outcome, ok, err, String,
}
use ius.Base.Words.{u32}
use ius.Base.Strings.{Text}
use ius.Base.Texts.{bytes, bytes_eq}
use ius.Scanner.{or_zero}
use ius.Protocol.Plist.{Plist}
use ius.Protocol.Messages.{get_string, get_unsigned}

pub data ConnectionType : Type 0 where
  usb network : ConnectionType

-- `Device` of meridian-relay/src/device/mod.rs.
pub record Device : Type 0 where
  pub udid : Text
  pub device_id : ℕ
  pub name : Option Text
  pub model : Option Text
  pub ios_version : Option Text
  pub build_version : Option Text
  pub connection_type : ConnectionType

abbrev pub or_text : Text → Option Text → Text
or_text default none = default
or_text default (some s) = s

-- The line that is printed for an event.
pub data Line : Type 0 where
  attached_line detached_line : (udid : Text) (device_id : ℕ) → Line

module _ (P : Plist) where
  -- `get(key)` and a view of what is there.
  unfoldable pub get_dictionary : P.Dictionary → Text → Option P.Dictionary
  get_dictionary d key = elim (P.get d key) [ none ↦ none | some v ↦ P.as_dictionary v ]

  unfoldable pub get_array : P.Dictionary → Text → Option (List P.Value)
  get_array d key = elim (P.get d key) [ none ↦ none | some v ↦ P.as_array v ]

  -- A status other than 0 under the key Result.
  unfoldable pub has_failed : P.Dictionary → Bool
  has_failed d = elim (get_unsigned P d (bytes "Result")) [
    | none ↦ false
    | some status ↦ not (nat_eq status 0)
  ]

  unfoldable pub connection_type_of : P.Dictionary → ConnectionType
  connection_type_of props =
      let name = or_text (bytes "unknown") (get_string P props (bytes "ConnectionType")) in
      if bytes_eq name (bytes "USB") then usb else network

  unfoldable pub device_of : P.Dictionary → Device
  unfolding connection_type_of
  device_of props = record {
    udid = or_text [] (get_string P props (bytes "SerialNumber"));
    device_id = u32 (or_zero (get_unsigned P props (bytes "DeviceID")));
    name = none;
    model = get_string P props (bytes "ProductType");
    ios_version = none;
    build_version = none;
    connection_type = connection_type_of props;
  }

  -- An entry that is not a dictionary with properties is passed over.
  unfoldable pub devices_of : List P.Value → List Device
  unfolding device_of get_dictionary
  devices_of [] = []
  devices_of (entry ∷ entries) =
      let rest = devices_of entries in
      elim (P.as_dictionary entry) [
        | none ↦ rest
        | some d ↦ elim (get_dictionary d (bytes "Properties")) [
          | none ↦ rest
          | some props ↦ device_of props ∷ rest
        ]
      ]

  -- The answer to ListDevices.
  unfoldable pub list_devices_from : P.Dictionary → Outcome String (List Device)
  unfolding has_failed get_array devices_of
  list_devices_from d =
      if has_failed d then err "list devices failed" else elim (get_array d (bytes "DeviceList")) [
        | none ↦ err "DeviceList missing or not an array"
        | some entries ↦ ok (devices_of entries)
      ]

  abbrev pub first_entry : List P.Value → Option P.Dictionary
  first_entry [] = none
  first_entry (v ∷ vs) = P.as_dictionary v

  -- The same answer in the tunnel.
  unfoldable pub resolve_first_device : P.Dictionary → Outcome String ℕ
  unfolding get_array
  resolve_first_device d = elim (get_array d (bytes "DeviceList")) [
    | none ↦ err "no DeviceList in upstream reply"
    | some entries ↦ elim (first_entry entries) [
      | none ↦ err "no devices connected"
      | some entry ↦ elim (get_unsigned P entry (bytes "DeviceID")) [
        | none ↦ err "no devices connected"
        | some id ↦ ok (u32 id)
      ]
    ]
  ]

  abbrev pub passes : Option Text → Text → Bool
  passes none udid = true
  passes (some f) udid = bytes_eq f udid

  abbrev pub id_of : P.Dictionary → ℕ
  id_of d = u32 (or_zero (get_unsigned P d (bytes "DeviceID")))

  unfoldable pub attached_of : (udid_filter : Option Text) → P.Dictionary → Option Line
  unfolding get_dictionary
  attached_of udid_filter d = elim (get_dictionary d (bytes "Properties")) [
    | none ↦ none
    | some props ↦
        let udid = or_text [] (get_string P props (bytes "SerialNumber")) in
        if passes udid_filter udid then some (attached_line udid (id_of props)) else none
  ]

  unfoldable pub detached_of : (udid_filter : Option Text) → P.Dictionary → Option Line
  detached_of udid_filter d =
      let udid = or_text [] (get_string P d (bytes "SerialNumber")) in
      if is_empty udid || passes udid_filter udid then some (detached_line udid (id_of d)) else none

  -- A round of `try_connect_and_listen`: what is printed for a packet, if it goes on.
  unfoldable pub watch_event :
      (udid_filter : Option Text) → P.Dictionary → Outcome String (Option Line)
  unfolding has_failed attached_of detached_of
  watch_event udid_filter d =
      let message_type = or_text (bytes "Unknown") (get_string P d (bytes "MessageType")) in
      if has_failed d
      then err "listen failed"
      else if bytes_eq message_type (bytes "Attached")
      then ok (attached_of udid_filter d)
      else if bytes_eq message_type (bytes "Detached")
      then ok (detached_of udid_filter d)
      else ok none

-- The wait before the attempt number `n` to connect again, in milliseconds.
unfoldable pub backoff : ℕ → ℕ
backoff zero = 100
backoff (suc n) = min (backoff n * 2) 5000
