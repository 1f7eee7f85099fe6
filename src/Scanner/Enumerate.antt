-- ===== src/Scanner/Enumerate.antt =====
-- `enumerate_apple_devices` of meridian-relay/src/daemon/device_scanner.rs, over what libusb says of
-- the peripherals on the bus, and the names of the models.
use ius.Base.{
  ℕ, Bool, ◌&&◌, Option, none, some, List, [], ◌∷◌, nat_eq, leb, is_empty, if◌then◌else◌, Outcome,
  ok, err, String,
}
use ius.Base.Strings.{Text, trim, trim_start, trim_end}
use ius.Scanner.{ScanObservation}

abbrev pub apple_vendor_id : ℕ
apple_vendor_id = 0x05AC

pub record DeviceDescriptor : Type 0 where
  pub vendor_id : ℕ
  pub product_id : ℕ

-- The outcomes of the reads: the descriptor, the opening, and the serial number once it is open.
pub record Peripheral : Type 0 where
  pub bus_number : ℕ
  pub address : ℕ
  pub device_descriptor : Option DeviceDescriptor
  pub opens : Bool
  pub serial_number : Option Text

abbrev pub nul : ℕ → Bool
nul c = nat_eq c 0

-- The serial number without the white space around it and the NULs behind it, unless it is blank.
unfoldable pub udid_of : Peripheral → Option Text
unfolding trim trim_start trim_end
udid_of p =
    if p.opens
    then elim p.serial_number [
      | none ↦ none
      | some s ↦
          if is_empty (trim (trim_end nul (trim_start nul s)))
          then none
          else some (trim_end nul (trim s))
    ]
    else none

abbrev pub observation : Peripheral → DeviceDescriptor → ScanObservation
observation p desc = record {
  usb_bus = p.bus_number;
  usb_address = p.address;
  product_id = desc.product_id;
  udid = udid_of p;
}

unfoldable pub observations : List Peripheral → List ScanObservation
unfolding udid_of
observations [] = []
observations (p ∷ more) =
    let rest = observations more in
    elim p.device_descriptor [
      | none ↦ rest
      | some desc ↦
          if nat_eq desc.vendor_id apple_vendor_id then observation p desc ∷ rest else rest
    ]

-- The outer option is the USB context, the inner one the enumeration.
unfoldable pub enumerate_apple_devices :
    Option (Option (List Peripheral)) → Outcome String (List ScanObservation)
unfolding observations
enumerate_apple_devices none = err "no USB context available"
enumerate_apple_devices (some none) = err "failed to enumerate USB devices"
enumerate_apple_devices (some (some peripherals)) = ok (observations peripherals)

abbrev pub within : ℕ → ℕ → ℕ → Bool
within first last pid = leb first pid && leb pid last

unfoldable pub product_id_to_model : ℕ → String
product_id_to_model pid =
    if within 0x12A8 0x12AF pid
    then "iPhone 5s / SE (1st gen)"
    else if within 0x12B0 0x12B7 pid
    then "iPhone 6 / 6 Plus"
    else if within 0x12B8 0x12BF pid
    then "iPhone 6s / 6s Plus / SE (2nd gen)"
    else if within 0x12C0 0x12C7 pid
    then "iPhone 7 / 7 Plus"
    else if within 0x12C8 0x12CF pid
    then "iPhone 8 / 8 Plus / X"
    else if within 0x12D0 0x12D7 pid
    then "iPhone XR / XS / XS Max"
    else if within 0x12D8 0x12DF pid
    then "iPhone 11 / 11 Pro / 11 Pro Max"
    else if within 0x12E0 0x12E7 pid
    then "iPhone SE (2nd/3rd gen) / 12 mini / 12 / 12 Pro / 12 Pro Max"
    else if within 0x12E8 0x12EF pid
    then "iPhone 13 / 13 mini / 13 Pro / 13 Pro Max"
    else if within 0x12F0 0x12F7 pid
    then "iPhone 14 / 14 Plus / 14 Pro / 14 Pro Max"
    else if within 0x12F8 0x12FF pid
    then "iPhone 15 / 15 Plus / 15 Pro / 15 Pro Max"
    else if within 0x1300 0x1307 pid
    then "iPhone 16 / 16 Plus / 16 Pro / 16 Pro Max"
    else if within 0x1310 0x1317 pid
    then "iPad (various models)"
    else if within 0x1318 0x131F pid
    then "iPad Pro (various models)"
    else if within 0x1400 0x1407 pid
    then "iPod Touch (7th gen)"
    else "Unknown Apple Device"
