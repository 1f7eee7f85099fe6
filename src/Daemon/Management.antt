-- ===== src/Daemon/Management.antt =====
-- That a turn of the scan task leaves managed what the scanner knows, and nothing else.
use ius.Base.{
  ℕ, ℕ-eq, ◌||◌, ◌≡◌, ◌+◌, length, ok, err, Outcome, String, ◌⊎◌, inl, inr, true, some, List,
}
use ius.Base.Words.{IsU32}
use ius.Base.Assoc
use ius.Base.Assoc.{Assoc, IsMap, lookup-insert, lookup-remove}
use ius.Metrics.{Metrics}
use ius.Scanner.{UsbDevice, DeviceChange, ScanObservation, DeviceScanner, scan, get_devices, values}
use ius.Scanner.Validity.{IsValid, scan-IsValid}
use ius.Scanner.Replay.{scan-apply_changes}
use ius.Devices.Managed.{DeviceManager, is_managed}
use ius.Daemon.Reconciling.{
  IsWithin, IsOpened, opened_in, apply_all-IsWithin, reconcile_manages, reconcile-IsWithin,
  values-IsKnown, apply_all-opened, reconcile-IsOpened,
}
use ius.Daemon.Scanning.{Opens, apply_all, scan_round}

-- The ids that the enumeration can use up are there.
abbrev pub HasIds : DeviceScanner → Outcome String (List ScanObservation) → Type 0
HasIds s (ok current) = IsU32 (s.next_id + length current)
HasIds s (err e) = Unit

scan-IsValid_any :
    (s : DeviceScanner) (enumerated : Outcome String (List ScanObservation))
    → IsValid s
    → HasIds s enumerated
    → IsValid (scan s enumerated).0
unfolding scan
scan-IsValid_any s (ok current) v ids = scan-IsValid s current v ids
scan-IsValid_any s (err e) v ids = v

-- What a turn leaves, given the changes that it found and what the scanner then knows.
pub record IsReconciled (at_change at_retry : Opens) (changes : List DeviceChange)
    (known : Assoc ℕ UsbDevice) (before after : DeviceManager) : Type 0 where
  pub within : IsWithin after known
  pub manages :
      (k : ℕ) (d : UsbDevice)
      → Assoc.lookup k known ≡ some d
      → at_retry d ≡ true
      → is_managed after k ≡ true
  pub opened :
      (k : ℕ)
      → is_managed after k ≡ true
      → (is_managed before k || opened_in at_change changes k ≡ true) ⊎ IsOpened at_retry known k

-- Behind a turn of the scan task that has the device manager to itself, whether or not the bus could
-- be enumerated, if its device ids have not run out and it began with no device managed that the
-- scanner did not know: every device that the scanner now knows and whose interface opens when it is
-- tried again is managed; no device is managed that the scanner does not know; and a device is
-- managed only if it was before or if its interface opened, at its arrival or when it was tried
-- again.
pub scan_round_manages :
    (at_change at_retry : Opens) (enumerated : Outcome String (List ScanObservation))
    (s : DeviceScanner) (m : DeviceManager) (metrics : Metrics)
    → IsValid s
    → HasIds s enumerated
    → IsWithin m s.devices
    → IsReconciled at_change at_retry
        (scan s enumerated).1
        (scan s enumerated).0.devices
        m
        (scan_round at_change at_retry enumerated s m metrics).manager
unfolding scan_round get_devices
scan_round_manages at_change at_retry enumerated s m metrics v ids w =
    let (s', changes) = scan s enumerated in
    let v' = scan-IsValid_any s enumerated v ids in
    let m' = apply_all at_change m changes in
    let w' : IsWithin m' s'.devices =
      rw (scan-apply_changes s enumerated) (apply_all-IsWithin at_change changes m s.devices w) in
    let exact = values-IsKnown s'.devices s'.devices (λ k d l. l) v'.own_id v'.is_map in
    record {
      within = reconcile-IsWithin at_retry s'.devices (values s'.devices) m' exact w';
      manages = λ k d l o. reconcile_manages at_retry s'.devices m' k d l (v'.own_id k d l) o;
      opened = λ k h.
          elim (reconcile-IsOpened at_retry s'.devices (values s'.devices) m' k exact h) [
            | inl already ↦ inl (apply_all-opened at_change changes m k already)
            | inr retried ↦ inr retried
          ];
    }
