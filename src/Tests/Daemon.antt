-- ===== src/Tests/Daemon.antt =====
-- The accept loop and the scan task of meridian-relay/src/daemon/mod.rs on small runs.
use ius.Base.{◌≤◌, refl, true, false, some, [], ◌∷◌, ok, ℕ-eq, arith}
use ius.Base.Texts.{bytes}
use ius.Base.Assoc
use ius.Metrics
use ius.Scanner.{UsbDevice, ScanObservation, scan, new}
use ius.Scanner.Validity.{new-IsValid}
use ius.Devices.Managed.{DeviceManager, is_managed}
use ius.Daemon.Admission.{
  Gate, open_gate, admit, enter, active, Reachable, started, stepped, admits, enters,
}
use ius.Daemon.Limit
use ius.Daemon.Limit.{Reachable-IsWithin}
use ius.Daemon.Scanning.{scan_round}
use ius.Daemon.Management.{IsReconciled, scan_round_manages}

-- With one permit, two connections come in and the first client is served.
abbrev gate : Gate
gate = open_gate 1 Metrics.new

abbrev served : Gate
served = record (admit (admit gate)) {
  metrics = enter (admit (admit gate)).metrics;
  clients = active ∷ [];
}

one_served : Reachable gate served
unfolding admit
one_served = stepped (stepped (stepped started admits) admits) (enters [] [] refl)

Reachable-IsWithin_example : Limit.IsWithin 1 served × (served.metrics.clients_active ≤ 1)
unfolding Metrics.new
Reachable-IsWithin_example = Reachable-IsWithin 1 Metrics.new served (omega arith) refl one_served

abbrev seen : ScanObservation
seen = record { usb_bus = 1; usb_address = 5; product_id = 0x12A8; udid = some (bytes "AAAA") }

abbrev phone : UsbDevice
phone = record {
  device_id = 1;
  udid = bytes "AAAA";
  product_id = 0x12A8;
  usb_bus = 1;
  usb_address = 5;
}

abbrev no_manager : DeviceManager
no_manager = record { devices = []; conn_mgr = record { devices = [] } }

-- The interface is busy when the device comes, and opens when it is tried again.
scan_round_manages_example :
    IsReconciled
      (λ _. false)
      (λ _. true)
      (scan new (ok (seen ∷ []))).1
      (scan new (ok (seen ∷ []))).0.devices
      no_manager
      (scan_round (λ _. false) (λ _. true) (ok (seen ∷ [])) new no_manager Metrics.new).manager
unfolding is_managed Assoc.contains_key Assoc.lookup
scan_round_manages_example =
    scan_round_manages (λ _. false) (λ _. true) (ok (seen ∷ [])) new no_manager Metrics.new
      new-IsValid (omega arith) (λ k h. absurd (ground (arith, h)))
