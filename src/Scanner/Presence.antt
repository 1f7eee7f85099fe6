-- ===== src/Scanner/Presence.antt =====
-- When a scan keeps a device, and when it gives it up.
use ius.Base.{
  ℕ, ◌+◌, ◌≡◌, refl, ◌∙◌, ◌≢◌, ◌⊎◌, inl, inr, Bool, true, false, Option, none, some, List, [], ◌∷◌,
  ℕ-eq, Option-cases, length, arith, All,
}
use ius.Base.Words.{Bytes, u32, IsU32}
use ius.Base.Texts.{bytes_eq_iff, pair-eq}
use ius.Base.Assoc
use ius.Base.Assoc.{Assoc, IsMap, lookup-insert, lookup-remove}
use ius.Scanner.{
  UsbDevice, ScanObservation, DeviceScanner, find_at, observe_udid, observe, observe_all,
  check_missed, check_all, observed_port, port_of, is_current, misses_at, Port, new_device,
}
use ius.Scanner.Validity.{IsValid, find_at-some, observe-IsValid}

-- An observation that does not show another device at the port of `d`.
abbrev pub IsHarmless : UsbDevice → ScanObservation → Type 0
IsHarmless d o = (observed_port o ≢ port_of d) ⊎ ((o.udid ≡ none) ⊎ (o.udid ≡ some d.udid))

observe-keeps :
    (s : DeviceScanner) (o : ScanObservation) (id : ℕ) (d : UsbDevice)
    → IsValid s
    → Assoc.lookup id s.devices ≡ some d
    → IsHarmless d o
    → Assoc.lookup id (observe s o).0.devices ≡ some d
unfolding observe
observe-keeps s o id d v l h = elim (Option-cases (find_at (observed_port o) s.devices)) [
  | inl free ↦ rw free (vacant o.udid)
  | inr (e, found) ↦
      rw found (occupied e (find_at-some (observed_port o) s.devices e v.is_map found) o.udid refl)
]
  where
    forgotten : DeviceScanner
    forgotten = record s { miss_counts = Assoc.remove (observed_port o) s.miss_counts }

    vacant :
        (u : Option Bytes) → Assoc.lookup id (observe_udid none u forgotten o).0.devices ≡ some d
    vacant none = l
    vacant (some u) =
        ground
          (arith, v.fresh id d l, lookup-insert s.next_id id (new_device s.next_id o u) s.devices)

    occupied :
        (e : UsbDevice)
        → (k : ℕ) × (Assoc.lookup k s.devices ≡ some e) × (port_of e ≡ observed_port o)
        → (u : Option Bytes) → o.udid ≡ u
        → Assoc.lookup id (observe_udid (some e) u forgotten o).0.devices ≡ some d
    occupied e (k, lk, at) none eu = l
    occupied e (k, lk, at) (some u) eu = ground (
      arith,
      v.fresh id d l,
      v.own_id k e lk,
      bytes_eq_iff e.udid u,
      lookup-insert s.next_id id (new_device s.next_id o u) (Assoc.remove e.device_id s.devices),
      lookup-remove e.device_id id s.devices,
    )

pub observe_all-keeps :
    (s : DeviceScanner) (os : List ScanObservation) (id : ℕ) (d : UsbDevice)
    → IsValid s
    → IsU32 (s.next_id + length os)
    → Assoc.lookup id s.devices ≡ some d
    → All (IsHarmless d) os
    → Assoc.lookup id (observe_all s os).0.devices ≡ some d
unfolding observe_all
observe_all-keeps s [] id d v small l h = l
observe_all-keeps s (o ∷ os) id d v small l (h, hs) =
    let (v', grown) = observe-IsValid s o v (omega arith) in
    observe_all-keeps (observe s o).0 os id d v' (omega arith) (observe-keeps s o id d v l h) hs

observe-misses :
    (s : DeviceScanner) (o : ScanObservation) (p : Port)
    → observed_port o ≢ p
    → Assoc.lookup p (observe s o).0.miss_counts ≡ Assoc.lookup p s.miss_counts
unfolding observe observe_udid
observe-misses s o p ne = ground (arith, lookup-remove (observed_port o) p s.miss_counts)

pub observe_all-misses :
    (s : DeviceScanner) (os : List ScanObservation) (p : Port)
    → All (λ o. observed_port o ≢ p) os
    → Assoc.lookup p (observe_all s os).0.miss_counts ≡ Assoc.lookup p s.miss_counts
unfolding observe_all
observe_all-misses s [] p h = refl
observe_all-misses s (o ∷ os) p (h, hs) =
    observe_all-misses (observe s o).0 os p hs ∙ observe-misses s o p h

-- Another device than `d`, at another port.
abbrev pub Apart : (id : ℕ) → UsbDevice → UsbDevice → Type 0
Apart id d e = (e.device_id ≢ id) × (port_of e ≢ port_of d)

-- What the detach loop leaves of `d` and of its counter.
pub record SameFor (id : ℕ) (p : Port) (s t : DeviceScanner) : Type 0 where
  pub device : Assoc.lookup id t.devices ≡ Assoc.lookup id s.devices
  pub misses : Assoc.lookup p t.miss_counts ≡ Assoc.lookup p s.miss_counts

check_missed-SameFor :
    (seen : Bool) (s : DeviceScanner) (id : ℕ) (d e : UsbDevice)
    → Apart id d e
    → SameFor id (port_of d) s (check_missed seen s e).0
unfolding check_missed
check_missed-SameFor true s id d e a = record { device = refl; misses = refl }
check_missed-SameFor false s id d e a = ground (
  arith,
  lookup-remove e.device_id id s.devices,
  lookup-remove (port_of e) (port_of d) s.miss_counts,
  lookup-insert (port_of e) (port_of d) (u32 (misses_at (port_of e) s.miss_counts + 1))
      s.miss_counts,
)

pub check_all-SameFor :
    (current : List ScanObservation) (s : DeviceScanner) (id : ℕ) (d : UsbDevice)
    (es : List UsbDevice)
    → All (Apart id d) es
    → SameFor id (port_of d) s (check_all current s es).0
unfolding check_all
check_all-SameFor current s id d [] a = record { device = refl; misses = refl }
check_all-SameFor current s id d (e ∷ es) (a, as') =
    let one = check_missed-SameFor (is_current current (port_of e)) s id d e a in
    let rest =
      check_all-SameFor current (check_missed (is_current current (port_of e)) s e).0 id d es as' in
    record { device = rest.device ∙ one.device; misses = rest.misses ∙ one.misses }
