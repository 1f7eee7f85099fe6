-- ===== src/Scanner/Replay.antt =====
-- The changes that a scan reports, as a listener applies them.
use ius.Base.{
  ℕ, ◌≡◌, refl, sym, ap, ◌∙◌, Bool, true, false, Option, none, some, List, [], ◌∷◌, ◌++◌, ℕ-eq, ok,
  err, String, Outcome, arith,
}
use ius.Base.Words.{Bytes}
use ius.Base.Texts.{pair-eq}
use ius.Base.Assoc
use ius.Base.Assoc.{Assoc}
use ius.Scanner.{
  UsbDevice, DeviceChange, attached, detached, ScanObservation, DeviceScanner, find_at,
  observe_udid, observe, observe_all, check_missed, check_all, values, diff_devices, scan,
  observed_port, port_of, is_current,
}

-- What a listener makes of the events: it adds a device by its id, and takes one away.
unfoldable pub apply_changes : List DeviceChange → Assoc ℕ UsbDevice → Assoc ℕ UsbDevice
apply_changes [] m = m
apply_changes (attached d ∷ changes) m = apply_changes changes (Assoc.insert d.device_id d m)
apply_changes (detached id ∷ changes) m = apply_changes changes (Assoc.remove id m)

apply_changes-append :
    (xs ys : List DeviceChange) (m : Assoc ℕ UsbDevice)
    → apply_changes (xs ++ ys) m ≡ apply_changes ys (apply_changes xs m)
unfolding apply_changes
apply_changes-append [] ys m = refl
apply_changes-append (attached d ∷ xs) ys m = apply_changes-append xs ys _
apply_changes-append (detached id ∷ xs) ys m = apply_changes-append xs ys _

observe_udid-apply :
    (e : Option UsbDevice) (u : Option Bytes) (s : DeviceScanner) (o : ScanObservation)
    → (observe_udid e u s o).0.devices ≡ apply_changes (observe_udid e u s o).1 s.devices
unfolding observe_udid apply_changes
observe_udid-apply (some e) (some u) s o = ground arith
observe_udid-apply none (some u) s o = refl
observe_udid-apply none none s o = refl
observe_udid-apply (some e) none s o = refl

observe_all-apply :
    (s : DeviceScanner) (os : List ScanObservation)
    → (observe_all s os).0.devices ≡ apply_changes (observe_all s os).1 s.devices
unfolding observe_all
observe_all-apply s [] = unfold apply_changes in refl
observe_all-apply s (o ∷ os) =
    observe_all-apply (observe s o).0 os
    ∙ ap (apply_changes (observe_all (observe s o).0 os).1)
        (observe_udid-apply (find_at (observed_port o) s.devices) o.udid _ o)
    ∙ sym (apply_changes-append (observe s o).1 (observe_all (observe s o).0 os).1 s.devices)

check_missed-apply :
    (seen : Bool) (s : DeviceScanner) (d : UsbDevice)
    → (check_missed seen s d).0.devices ≡ apply_changes (check_missed seen s d).1 s.devices
unfolding check_missed apply_changes
check_missed-apply true s d = refl
check_missed-apply false s d = ground arith

check_all-apply :
    (current : List ScanObservation) (s : DeviceScanner) (ds : List UsbDevice)
    → (check_all current s ds).0.devices ≡ apply_changes (check_all current s ds).1 s.devices
unfolding check_all
check_all-apply current s [] = unfold apply_changes in refl
check_all-apply current s (d ∷ ds) =
    let r = check_missed (is_current current (port_of d)) s d in
    check_all-apply current r.0 ds
    ∙ ap (apply_changes (check_all current r.0 ds).1) (check_missed-apply _ s d)
    ∙ sym (apply_changes-append r.1 (check_all current r.0 ds).1 s.devices)

-- A listener that applies the reported changes to the devices that it knew has exactly the
-- scanner's new devices, whether the enumeration succeeded or not.
pub scan-apply_changes :
    (s : DeviceScanner) (seen : Outcome String (List ScanObservation))
    → (scan s seen).0.devices ≡ apply_changes (scan s seen).1 s.devices
unfolding scan
scan-apply_changes s (err e) = unfold apply_changes in refl
scan-apply_changes s (ok current) =
    unfold diff_devices in
    check_all-apply current (observe_all s current).0 (values (observe_all s current).0.devices)
    ∙ ap
        (apply_changes
          (check_all current (observe_all s current).0
            (values (observe_all s current).0.devices)).1)
        (observe_all-apply s current)
    ∙ sym (apply_changes-append (observe_all s current).1 _ s.devices)
