-- ===== src/Daemon/Scanning.antt =====
-- The scan task of meridian-relay/src/daemon/mod.rs: what a scan changes goes to the device manager
-- and to the listeners, and what is not managed is tried again.
use ius.Base.{◌%◌, ◌^◌, Bool, not, List, [], ◌∷◌, length, if◌then◌else◌, Outcome, String}
use ius.Metrics.{Metrics}
use ius.Scanner.{
  UsbDevice, DeviceChange, attached, detached, ScanObservation, DeviceScanner, scan, get_devices,
}
use ius.Devices.Managed.{DeviceManager, add_device, remove_device, is_managed}

-- Whether the USB interface of a device can be opened when it is tried.
abbrev pub Opens : Type 0
Opens = UsbDevice → Bool

unfoldable pub apply_change : Opens → DeviceManager → DeviceChange → DeviceManager
apply_change opens m (attached dev) = (add_device m (opens dev) dev.device_id).0
apply_change opens m (detached device_id) = remove_device m device_id

unfoldable pub apply_all : Opens → DeviceManager → List DeviceChange → DeviceManager
unfolding apply_change
apply_all opens m [] = m
apply_all opens m (change ∷ changes) = apply_all opens (apply_change opens m change) changes

-- A device that the scanner knows and the manager does not.
unfoldable pub retry : Opens → DeviceManager → UsbDevice → DeviceManager
retry opens m dev =
    if not (is_managed m dev.device_id) then (add_device m (opens dev) dev.device_id).0 else m

unfoldable pub reconcile : Opens → DeviceManager → List UsbDevice → DeviceManager
unfolding retry
reconcile opens m [] = m
reconcile opens m (dev ∷ devices) = reconcile opens (retry opens m dev) devices

pub record Scanned : Type 0 where
  pub scanner : DeviceScanner
  pub manager : DeviceManager
  pub metrics : Metrics
  -- What the broadcast channel was given.
  pub events : List DeviceChange

-- One turn of the loop, between two sleeps; `enumerated` is the USB bus. The tasks of the devices
-- run between its parts too: here it has the manager to itself.
unfoldable pub scan_round :
    (at_change at_retry : Opens)
    → Outcome String (List ScanObservation)
    → DeviceScanner
    → DeviceManager
    → Metrics
    → Scanned
unfolding apply_all reconcile
scan_round at_change at_retry enumerated s m metrics =
    let (s', changes) = scan s enumerated in
    record {
      scanner = s';
      manager = reconcile at_retry (apply_all at_change m changes) (get_devices s');
      metrics = record metrics { devices_attached = length (get_devices s') % 2 ^ 64 };
      events = changes;
    }
