-- ===== src/Device/Answers.antt =====
-- What the client makes of the messages that the daemon builds.
use ius.Base.{
  ℕ, zero, suc, ◌*◌, ◌^◌, ◌≡◌, refl, ap, ◌∙◌, false, Option, none, some, List, [], ◌∷◌, All, map,
  min, if◌then◌else◌, ok, err, arith,
}
use ius.Base.Words.{IsU32, u32}
use ius.Base.Strings.{Text}
use ius.Base.Texts.{bytes, bytes_eq, Bytes-eq}
use ius.Scanner.{UsbDevice, DeviceChange, attached, detached}
use ius.Protocol.Plist.{Plist, IsLawful}
use ius.Protocol.Messages.{
  get_string, get_unsigned, device_props, device_entry, make_device_list_response,
  make_attached_event, make_detached_event,
}
use ius.Protocol.Views.{
  get_string-of_string, get_string-none, get_unsigned-of_integer, get_unsigned-none,
}
use ius.Device.Listing.{
  usb, Device, Line, attached_line, detached_line, get_dictionary, get_array, has_failed, device_of,
  devices_of, list_devices_from, resolve_first_device, passes, watch_event, attached_of,
  detached_of, connection_type_of, backoff,
}

-- The device as the client shows it.
abbrev pub as_listed : UsbDevice → Device
as_listed dev = record {
  udid = dev.udid;
  device_id = dev.device_id;
  name = none;
  model = none;
  ios_version = none;
  build_version = none;
  connection_type = usb;
}

module _ (P : Plist) where
  -- What a listener is told of a change, as the daemon tells it.
  abbrev pub event : DeviceChange → P.Dictionary
  event (attached dev) = (make_attached_event P 0 dev).plist
  event (detached device_id) = (make_detached_event P 0 device_id).plist

  -- What it then prints: of the arrivals those that pass its filter, and every departure, without
  -- an identifier.
  abbrev pub expected : (udid_filter : Option Text) → DeviceChange → Option Line
  expected udid_filter (attached dev) =
      if passes P udid_filter dev.udid then some (attached_line dev.udid dev.device_id) else none
  expected udid_filter (detached device_id) = some (detached_line [] device_id)

  abbrev pub HasId : DeviceChange → Type 0
  HasId (attached dev) = IsU32 dev.device_id
  HasId (detached device_id) = IsU32 device_id

module _ (P : Plist) (lawful : IsLawful P) where
  props-get :
      (dev : UsbDevice)
      → (P.get (device_props P dev) (bytes "SerialNumber") ≡ some (P.of_string dev.udid))
        × (P.get (device_props P dev) (bytes "DeviceID") ≡ some (P.of_integer dev.device_id))
        × (P.get (device_props P dev) (bytes "ConnectionType") ≡ some (P.of_string (bytes "USB")))
        × (P.get (device_props P dev) (bytes "ProductType") ≡ none)
  unfolding bytes_eq
  props-get dev =
      let skip = lawful.get-insert in
      (
        skip _ _ _ _ ∙ skip _ _ _ _ ∙ skip _ _ _ _ ∙ skip _ _ _ _,
        skip _ _ _ _ ∙ skip _ _ _ _ ∙ skip _ _ _ _ ∙ skip _ _ _ _ ∙ skip _ _ _ _ ∙ skip _ _ _ _,
        skip _ _ _ _ ∙ skip _ _ _ _ ∙ skip _ _ _ _ ∙ skip _ _ _ _ ∙ skip _ _ _ _,
        skip _ _ _ _
            ∙ skip _ _ _ _
            ∙ skip _ _ _ _
            ∙ skip _ _ _ _
            ∙ skip _ _ _ _
            ∙ skip _ _ _ _
            ∙ lawful.get-new _,
      )

  device_of-read :
      (d : P.Dictionary) (dev : UsbDevice)
      → IsU32 dev.device_id
      → get_string P d (bytes "SerialNumber") ≡ some dev.udid
      → get_unsigned P d (bytes "DeviceID") ≡ some dev.device_id
      → get_string P d (bytes "ConnectionType") ≡ some (bytes "USB")
      → get_string P d (bytes "ProductType") ≡ none
      → device_of P d ≡ as_listed dev
  unfolding device_of connection_type_of bytes_eq
  device_of-read d dev small serial id connection product =
      let same : u32 dev.device_id ≡ dev.device_id = omega (arith, small) in
      rw (serial, id, connection, product, same, device_of) refl

  device_of-device_props :
      (dev : UsbDevice) → IsU32 dev.device_id → device_of P (device_props P dev) ≡ as_listed dev
  device_of-device_props dev small =
      let (serial, id, connection, product) = props-get dev in
      device_of-read (device_props P dev) dev small (get_string-of_string P lawful _ _ _ serial)
        (get_unsigned-of_integer P lawful _ _ _ id) (get_string-of_string P lawful _ _ _ connection)
        (get_string-none P lawful _ _ product)

  get_dictionary-of_dictionary :
      (d e : P.Dictionary) (key : Text)
      → P.get d key ≡ some (P.of_dictionary e)
      → get_dictionary P d key ≡ some e
  unfolding get_dictionary
  get_dictionary-of_dictionary d e key h =
      rw (h, get_dictionary) (lawful.as_dictionary-of_dictionary e)

  devices_of-map :
      (devices : List UsbDevice)
      → All (λ (d : UsbDevice). IsU32 d.device_id) devices
      → devices_of P (map (device_entry P) devices) ≡ map as_listed devices
  unfolding devices_of bytes_eq
  devices_of-map [] small = refl
  devices_of-map (dev ∷ devices) (here, small) =
      let entry = P.insert P.new (bytes "Properties") (P.of_dictionary (device_props P dev)) in
      let props =
        get_dictionary-of_dictionary entry (device_props P dev) (bytes "Properties")
          (lawful.get-insert _ _ _ _) in
      rw
        (
          lawful.as_dictionary-of_dictionary entry,
          props,
          device_of-device_props dev here,
          devices_of-map devices small,
        )
        refl

  list-get :
      (tag : ℕ) (devices : List UsbDevice)
      → get_array P (make_device_list_response P tag devices).plist (bytes "DeviceList")
        ≡ some (map (device_entry P) devices)
  unfolding get_array make_device_list_response bytes_eq
  list-get tag devices =
      rw (lawful.get-insert, get_array) (lawful.as_array-of_array (map (device_entry P) devices))

  list_sound :
      (tag : ℕ) (devices : List UsbDevice)
      → has_failed P (make_device_list_response P tag devices).plist ≡ false
  unfolding has_failed make_device_list_response bytes_eq
  list_sound tag devices =
      rw
        (
          get_unsigned-none P lawful
              (P.insert P.new (bytes "DeviceList") (P.of_array (map (device_entry P) devices)))
              (bytes "Result") (lawful.get-insert _ _ _ _ ∙ lawful.get-new _),
          has_failed,
        )
        refl

  -- The devices that the daemon lists are the devices that the client then shows, in their order,
  -- if their ids are of 32 bits.
  pub list_devices_from-make_device_list_response :
      (tag : ℕ) (devices : List UsbDevice)
      → All (λ (d : UsbDevice). IsU32 d.device_id) devices
      → list_devices_from P (make_device_list_response P tag devices).plist
        ≡ ok (map as_listed devices)
  unfolding list_devices_from
  list_devices_from-make_device_list_response tag devices small =
      rw (list_sound tag devices, list-get tag devices, list_devices_from)
        (ap ok (devices_of-map devices small))

  -- The tunnel never finds a device in the daemon's list, whatever it lists: the id is not where
  -- the tunnel looks for it.
  pub resolve_first_device-make_device_list_response :
      (tag : ℕ) (devices : List UsbDevice)
      → resolve_first_device P (make_device_list_response P tag devices).plist
        ≡ err "no devices connected"
  unfolding resolve_first_device bytes_eq
  resolve_first_device-make_device_list_response tag [] =
      rw (list-get tag [], resolve_first_device) refl
  resolve_first_device-make_device_list_response tag (dev ∷ devices) =
      let entry = P.insert P.new (bytes "Properties") (P.of_dictionary (device_props P dev)) in
      rw (list-get tag (dev ∷ devices), resolve_first_device)
        (rw
          (
            lawful.as_dictionary-of_dictionary entry,
            get_unsigned-none P lawful entry (bytes "DeviceID")
                (lawful.get-insert _ _ _ _ ∙ lawful.get-new _),
          )
          refl)

  attached-read :
      (udid_filter : Option Text) (d props : P.Dictionary) (dev : UsbDevice)
      → IsU32 dev.device_id
      → get_unsigned P d (bytes "Result") ≡ none
      → get_string P d (bytes "MessageType") ≡ some (bytes "Attached")
      → get_dictionary P d (bytes "Properties") ≡ some props
      → get_string P props (bytes "SerialNumber") ≡ some dev.udid
      → get_unsigned P props (bytes "DeviceID") ≡ some dev.device_id
      → watch_event P udid_filter d ≡ ok (expected P udid_filter (attached dev))
  unfolding watch_event has_failed attached_of bytes_eq
  attached-read udid_filter d props dev small fine type has serial id =
      let same : u32 dev.device_id ≡ dev.device_id = omega (arith, small) in
      rw (fine, type, watch_event, has_failed) (rw (has, serial, id, same, attached_of) refl)

  detached-read :
      (udid_filter : Option Text) (d : P.Dictionary) (device_id : ℕ)
      → IsU32 device_id
      → get_unsigned P d (bytes "Result") ≡ none
      → get_string P d (bytes "MessageType") ≡ some (bytes "Detached")
      → get_string P d (bytes "SerialNumber") ≡ none
      → get_unsigned P d (bytes "DeviceID") ≡ some device_id
      → watch_event P udid_filter d ≡ ok (expected P udid_filter (detached device_id))
  unfolding watch_event has_failed detached_of bytes_eq
  detached-read udid_filter d device_id small fine type serial id =
      let same : u32 device_id ≡ device_id = omega (arith, small) in
      rw (fine, type, watch_event, has_failed) (rw (serial, id, same, detached_of) refl)

  -- A listener prints an arrival, with the serial number and the id that the daemon's event has,
  -- just if it has no filter or the filter is that serial number; it prints every departure with
  -- its id and no serial number, whatever the filter. The ids are of 32 bits.
  pub watch_event-event :
      (udid_filter : Option Text) (change : DeviceChange)
      → HasId P change
      → watch_event P udid_filter (event P change) ≡ ok (expected P udid_filter change)
  unfolding make_attached_event make_detached_event bytes_eq
  watch_event-event udid_filter (attached dev) small =
      let skip = lawful.get-insert in
      let d = event P (attached dev) in
      let (serial, id, connection, product) = props-get dev in
      attached-read udid_filter d (device_props P dev) dev small
        (get_unsigned-none P lawful d _
          (skip _ _ _ _ ∙ skip _ _ _ _ ∙ skip _ _ _ _ ∙ lawful.get-new _))
        (get_string-of_string P lawful d _ _ (skip _ _ _ _ ∙ skip _ _ _ _ ∙ skip _ _ _ _))
        (get_dictionary-of_dictionary d (device_props P dev) _ (skip _ _ _ _))
        (get_string-of_string P lawful _ _ _ serial) (get_unsigned-of_integer P lawful _ _ _ id)
  watch_event-event udid_filter (detached device_id) small =
      let skip = lawful.get-insert in
      let d = event P (detached device_id) in
      detached-read udid_filter d device_id small
        (get_unsigned-none P lawful d _ (skip _ _ _ _ ∙ skip _ _ _ _ ∙ lawful.get-new _))
        (get_string-of_string P lawful d _ _ (skip _ _ _ _ ∙ skip _ _ _ _))
        (get_string-none P lawful d _ (skip _ _ _ _ ∙ skip _ _ _ _ ∙ lawful.get-new _))
        (get_unsigned-of_integer P lawful d _ _ (skip _ _ _ _))

-- The waits between the attempts to connect again double from 100 ms on, up to 5 seconds.
pub backoff_doubles : (n : ℕ) → backoff n ≡ min (100 * 2 ^ n) 5000
unfolding backoff
backoff_doubles zero = refl
backoff_doubles (suc n) = omega (arith, backoff_doubles n)
