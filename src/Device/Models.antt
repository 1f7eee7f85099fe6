-- ===== src/Device/Models.antt =====
-- The table of models of meridian-relay/src/device/info.rs, and devices as
-- meridian-relay/src/device/mod.rs makes them from the scanner's.
use ius.Base.{Option, none, [], ◌∷◌}
use ius.Base.Strings.{Text}
use ius.Base.Texts.{bytes, Bytes-eq}
use ius.Base.Assoc
use ius.Base.Assoc.{Assoc}
use ius.Security.{trim_udid}
use ius.Scanner.{UsbDevice}
use ius.Clients.Records.{dashed}
use ius.Device.Listing.{Device, usb}

abbrev pub model_table : Assoc Text Text
model_table =
    (bytes "iPhone13,1", bytes "iPhone 12 mini")
    ∷ (bytes "iPhone13,2", bytes "iPhone 12")
    ∷ (bytes "iPhone13,3", bytes "iPhone 12 Pro")
    ∷ (bytes "iPhone13,4", bytes "iPhone 12 Pro Max")
    ∷ (bytes "iPhone14,4", bytes "iPhone 13 mini")
    ∷ (bytes "iPhone14,5", bytes "iPhone 13")
    ∷ (bytes "iPhone14,2", bytes "iPhone 13 Pro")
    ∷ (bytes "iPhone14,3", bytes "iPhone 13 Pro Max")
    ∷ (bytes "iPhone14,7", bytes "iPhone 14")
    ∷ (bytes "iPhone14,8", bytes "iPhone 14 Plus")
    ∷ (bytes "iPhone15,2", bytes "iPhone 14 Pro")
    ∷ (bytes "iPhone15,3", bytes "iPhone 14 Pro Max")
    ∷ (bytes "iPhone15,4", bytes "iPhone 15")
    ∷ (bytes "iPhone15,5", bytes "iPhone 15 Plus")
    ∷ (bytes "iPhone16,1", bytes "iPhone 15 Pro")
    ∷ (bytes "iPhone16,2", bytes "iPhone 15 Pro Max")
    ∷ (bytes "iPhone17,1", bytes "iPhone 16 Pro")
    ∷ (bytes "iPhone17,2", bytes "iPhone 16 Pro Max")
    ∷ (bytes "iPhone17,3", bytes "iPhone 16")
    ∷ (bytes "iPhone17,4", bytes "iPhone 16 Plus")
    ∷ (bytes "iPhone17,5", bytes "iPhone 16e")
    ∷ (bytes "iPad13,18", bytes "iPad (10th gen)")
    ∷ (bytes "iPad13,19", bytes "iPad (10th gen)")
    ∷ (bytes "iPad14,3", bytes "iPad Pro 11\" (4th gen)")
    ∷ (bytes "iPad14,4", bytes "iPad Pro 11\" (4th gen)")
    ∷ (bytes "iPad14,5", bytes "iPad Pro 12.9\" (6th gen)")
    ∷ (bytes "iPad14,6", bytes "iPad Pro 12.9\" (6th gen)")
    ∷ (bytes "iPad14,8", bytes "iPad Air 11\" (M2)")
    ∷ (bytes "iPad14,9", bytes "iPad Air 11\" (M2)")
    ∷ (bytes "iPad14,10", bytes "iPad Air 13\" (M2)")
    ∷ (bytes "iPad14,11", bytes "iPad Air 13\" (M2)")
    ∷ (bytes "iPad15,3", bytes "iPad Air 11\" (M3)")
    ∷ (bytes "iPad15,4", bytes "iPad Air 11\" (M3)")
    ∷ (bytes "iPad15,5", bytes "iPad Air 13\" (M3)")
    ∷ (bytes "iPad15,6", bytes "iPad Air 13\" (M3)")
    ∷ (bytes "iPad15,7", bytes "iPad mini (A17 Pro)")
    ∷ (bytes "iPad15,8", bytes "iPad mini (A17 Pro)")
    ∷ (bytes "iPad16,3", bytes "iPad Pro 11\" (M4)")
    ∷ (bytes "iPad16,4", bytes "iPad Pro 11\" (M4)")
    ∷ (bytes "iPad16,5", bytes "iPad Pro 13\" (M4)")
    ∷ (bytes "iPad16,6", bytes "iPad Pro 13\" (M4)")
    ∷ (bytes "iPod9,1", bytes "iPod touch (7th gen)")
    ∷ []

unfoldable pub model_name : (identifier : Text) → Option Text
unfolding Assoc.lookup
model_name identifier = Assoc.lookup identifier model_table

-- The same form as a pair record's second name.
unfoldable pub format_device_udid : (raw : Text) → Text
unfolding dashed trim_udid
format_device_udid raw = dashed (trim_udid raw)

unfoldable pub from_usb_device : UsbDevice → Device
unfolding format_device_udid
from_usb_device dev = record {
  udid = format_device_udid dev.udid;
  device_id = dev.device_id;
  name = none;
  model = none;
  ios_version = none;
  build_version = none;
  connection_type = usb;
}
