-- ===== src/Tests/Scanner.antt =====
-- The unit tests of meridian-relay/src/daemon/device_scanner.rs, and instances of its theorems.
use ius.Base.{◌≡◌, refl, none, some, [], ◌∷◌, ℕ-eq, ok, arith}
use ius.Base.Texts.{bytes, bytes_eq, pair-eq}
use ius.Base.Assoc
use ius.Scanner.{UsbDevice, ScanObservation, DeviceScanner, attached, detached, new, scan, find_at}
use ius.Scanner.Replay.{apply_changes, scan-apply_changes}
use ius.Scanner.Validity.{IsValid, new-IsValid, scan-IsValid}
use ius.Scanner.Flap.{detach_at_second_miss}

abbrev seen : ScanObservation
seen = record { usb_bus = 1; usb_address = 5; product_id = 0x12A8; udid = some (bytes "AAAA") }

abbrev unreadable : ScanObservation
unreadable = record seen { udid = none }

abbrev phone : UsbDevice
phone = record {
  device_id = 1;
  udid = bytes "AAAA";
  product_id = 0x12A8;
  usb_bus = 1;
  usb_address = 5;
}

abbrev attached_once : DeviceScanner
attached_once = record { devices = (1, phone) ∷ []; miss_counts = []; next_id = 2 }

first_scan : scan new (ok (seen ∷ [])) ≡ (attached_once, attached phone ∷ [])
unfolding scan find_at Assoc.insert Assoc.remove
first_scan = refl

attached_once-IsValid : IsValid attached_once
attached_once-IsValid = rw first_scan at (scan-IsValid new (seen ∷ []) new-IsValid (omega arith))

replaced :
    (scan attached_once (ok (record seen { udid = some (bytes "BBBB") } ∷ []))).1
    ≡ detached 1 ∷ attached (record phone { device_id = 2; udid = bytes "BBBB" }) ∷ []
unfolding scan find_at bytes_eq Assoc.insert Assoc.remove
replaced = refl

scan-apply_changes_example :
    (scan attached_once (ok [])).0.devices
    ≡ apply_changes (scan attached_once (ok [])).1 attached_once.devices
scan-apply_changes_example = scan-apply_changes attached_once (ok [])

scan-IsValid_example : IsValid (scan attached_once (ok (unreadable ∷ []))).0
scan-IsValid_example =
    scan-IsValid attached_once (unreadable ∷ []) attached_once-IsValid (omega arith)

detach_at_second_miss_example :
    (Assoc.lookup 1 (scan attached_once (ok [])).0.devices ≡ some phone)
    × (Assoc.lookup 1 (scan (scan attached_once (ok [])).0 (ok [])).0.devices ≡ none)
unfolding Assoc.lookup scan
detach_at_second_miss_example =
    detach_at_second_miss attached_once [] [] 1 phone attached_once-IsValid (omega arith)
      (omega arith) refl refl tt tt
