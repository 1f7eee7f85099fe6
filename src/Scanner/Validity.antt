-- ===== src/Scanner/Validity.antt =====
-- The invariant of the scanner: one device for a port, ids never reused, counters below the limit.
use ius.Base.{
  ℕ, ◌+◌, ◌≤◌, ◌<◌, ◌≡◌, refl, sym, ap, ◌∙◌, ◌≢◌, inl, inr, Bool, true, false, Option, none, some,
  List, [], ◌∷◌, ℕ-eq, ok, Bool-cases, leb, leb→lt, length, arith,
}
use ius.Base.Words.{Bytes, u32, IsU32}
use ius.Base.Texts.{bytes_eq, pair-eq, pair_eq, pair_eq_iff}
use ius.Base.Assoc
use ius.Base.Assoc.{
  Assoc, IsMap, insert-IsMap, remove-IsMap, lookup-insert_cases, lookup-remove_cases,
}
use ius.Scanner.{
  UsbDevice, ScanObservation, DeviceScanner, new, find_at, observe_udid, observe, observe_all,
  check_missed, check_all, values, diff_devices, scan, observed_port, port_of, is_current,
  misses_at, detach_after_misses, Port, attach, new_device,
}

pub record IsValid (s : DeviceScanner) : Type 0 where
  pub is_map : IsMap s.devices
  pub own_id : (k : ℕ) (d : UsbDevice) → Assoc.lookup k s.devices ≡ some d → d.device_id ≡ k
  pub fresh : (k : ℕ) (d : UsbDevice) → Assoc.lookup k s.devices ≡ some d → k < s.next_id
  pub one_per_port :
      (j k : ℕ) (d e : UsbDevice)
      → Assoc.lookup j s.devices ≡ some d
      → Assoc.lookup k s.devices ≡ some e
      → port_of d ≡ port_of e
      → j ≡ k
  pub few_misses :
      (p : Port) (n : ℕ) → Assoc.lookup p s.miss_counts ≡ some n → n < detach_after_misses

pub new-IsValid : IsValid new
unfolding Assoc.lookup
new-IsValid = record {
  is_map = tt;
  own_id = λ k d e. cc;
  fresh = λ k d e. cc;
  one_per_port = λ j k d e l. cc;
  few_misses = λ p n e. cc;
}

pub find_at-none :
    (p : Port) (m : Assoc ℕ UsbDevice) (k : ℕ) (d : UsbDevice)
    → find_at p m ≡ none
    → Assoc.lookup k m ≡ some d
    → port_of d ≢ p
unfolding find_at Assoc.lookup
find_at-none p [] k d e l = cc
find_at-none p ((j, c) ∷ m) k d e l =
    ground (arith, find_at-none p m k d, pair_eq_iff (port_of c) p, pair_eq_iff (port_of d) p)

pub find_at-some :
    (p : Port) (m : Assoc ℕ UsbDevice) (d : UsbDevice)
    → IsMap m
    → find_at p m ≡ some d
    → (k : ℕ) × (Assoc.lookup k m ≡ some d) × (port_of d ≡ p)
unfolding find_at Assoc.lookup
find_at-some p [] d u e = cc
find_at-some p ((j, c) ∷ m) d (fresh, u) e = elim (Bool-cases (pair_eq (port_of c) p)) [
  | inl hit ↦ (j, ground arith, (pair_eq_iff (port_of d) p).0 (ground arith))
  | inr miss ↦ further (find_at-some p m d u (rw miss at e))
]
  where
    further :
        (k : ℕ) × (Assoc.lookup k m ≡ some d) × (port_of d ≡ p)
        → (k : ℕ) × (Assoc.lookup k ((j, c) ∷ m) ≡ some d) × (port_of d ≡ p)
    further (k, l, at) = (k, ground arith, at)

-- Taking a device away keeps the invariant; so does adding one at a free port under the next id.
remove-IsValid :
    (s : DeviceScanner) (id : ℕ)
    → IsValid s
    → IsValid (record s { devices = Assoc.remove id s.devices })
remove-IsValid s id v = record {
  is_map = remove-IsMap id s.devices v.is_map;
  own_id = λ k d l. v.own_id k d (lookup-remove_cases id k d s.devices l).1;
  fresh = λ k d l. v.fresh k d (lookup-remove_cases id k d s.devices l).1;
  one_per_port = λ j k d e l l'.
      v.one_per_port j k d e (lookup-remove_cases id j d s.devices l).1
        (lookup-remove_cases id k e s.devices l').1;
  few_misses = v.few_misses;
}

attach-IsValid :
    (s : DeviceScanner) (d : UsbDevice)
    → IsValid s
    → d.device_id ≡ s.next_id
    → IsU32 (s.next_id + 1)
    → ((k : ℕ) (e : UsbDevice) → Assoc.lookup k s.devices ≡ some e → port_of e ≢ port_of d)
    → IsValid (attach s d)
attach-IsValid s d v e small free = record {
  is_map = insert-IsMap d.device_id d s.devices v.is_map;
  own_id = λ k c l. elim (lookup-insert_cases d.device_id k d c s.devices l) [
    | inl (k', c') ↦ rw (k', c') refl
    | inr l' ↦ v.own_id k c l'
  ];
  fresh = λ k c l. elim (lookup-insert_cases d.device_id k d c s.devices l) [
    | inl (k', _) ↦ omega (arith, k', e)
    | inr l' ↦ omega (arith, v.fresh k c l')
  ];
  one_per_port = λ j k c c' l l' same. elim (lookup-insert_cases d.device_id j d c s.devices l) [
    | inl (j', here) ↦ elim (lookup-insert_cases d.device_id k d c' s.devices l') [
      | inl (k', _) ↦ j' ∙ sym k'
      | inr old ↦ absurd (free k c' old (sym same ∙ ap port_of here))
    ]
    | inr old ↦ elim (lookup-insert_cases d.device_id k d c' s.devices l') [
      | inl (_, here) ↦ absurd (free j c old (same ∙ ap port_of here))
      | inr old' ↦ v.one_per_port j k c c' old old' same
    ]
  ];
  few_misses = v.few_misses;
}

forget_misses-IsValid :
    (s : DeviceScanner) (p : Port)
    → IsValid s
    → IsValid (record s { miss_counts = Assoc.remove p s.miss_counts })
forget_misses-IsValid s p v = record {
  is_map = v.is_map;
  own_id = v.own_id;
  fresh = v.fresh;
  one_per_port = v.one_per_port;
  few_misses = λ q n l. v.few_misses q n (lookup-remove_cases p q n s.miss_counts l).1;
}

replace-IsValid :
    (s : DeviceScanner) (o : ScanObservation) (existing : UsbDevice) (udid : Bytes)
    → IsValid s
    → IsU32 (s.next_id + 1)
    → find_at (observed_port o) s.devices ≡ some existing
    → IsValid (
        attach
          (record s { devices = Assoc.remove existing.device_id s.devices })
          (new_device s.next_id o udid))
replace-IsValid s o existing udid v small found =
    let (id, l, at) = find_at-some (observed_port o) s.devices existing v.is_map found in
    attach-IsValid (record s { devices = Assoc.remove existing.device_id s.devices })
      (new_device s.next_id o udid) (remove-IsValid s existing.device_id v) refl small
      λ k e l' same.
        let (ne, old) = lookup-remove_cases existing.device_id k e s.devices l' in
        ne (v.one_per_port k id e existing old l (same ∙ sym at) ∙ sym (v.own_id id existing l))

observe_udid-IsValid :
    (found : Option UsbDevice) (u : Option Bytes) (s : DeviceScanner) (o : ScanObservation)
    → IsValid s
    → IsU32 (s.next_id + 1)
    → find_at (observed_port o) s.devices ≡ found
    → IsValid (observe_udid found u s o).0 × ((observe_udid found u s o).0.next_id ≤ s.next_id + 1)
unfolding observe_udid
observe_udid-IsValid (some existing) (some udid) s o v small found =
    elim (Bool-cases (bytes_eq existing.udid udid)) [
      | inl same ↦ rw same (v, omega arith)
      | inr other ↦ rw other (replace-IsValid s o existing udid v small found, omega arith)
    ]
observe_udid-IsValid none (some udid) s o v small found = (
  attach-IsValid s (new_device s.next_id o udid) v refl small
      (λ k e l. find_at-none (observed_port o) s.devices k e found l),
  omega arith,
)
observe_udid-IsValid none none s o v small found = (v, omega arith)
observe_udid-IsValid (some existing) none s o v small found = (v, omega arith)

pub observe-IsValid :
    (s : DeviceScanner) (o : ScanObservation)
    → IsValid s
    → IsU32 (s.next_id + 1)
    → IsValid (observe s o).0 × ((observe s o).0.next_id ≤ s.next_id + 1)
unfolding observe
observe-IsValid s o v small =
    observe_udid-IsValid (find_at (observed_port o) s.devices) o.udid
      (record s { miss_counts = Assoc.remove (observed_port o) s.miss_counts }) o
      (forget_misses-IsValid s (observed_port o) v) small refl

pub observe_all-IsValid :
    (s : DeviceScanner) (os : List ScanObservation)
    → IsValid s
    → IsU32 (s.next_id + length os)
    → IsValid (observe_all s os).0
unfolding observe_all
observe_all-IsValid s [] v small = v
observe_all-IsValid s (o ∷ os) v small =
    let (v', grown) = observe-IsValid s o v (omega arith) in
    observe_all-IsValid (observe s o).0 os v' (omega arith)

check_missed-IsValid :
    (seen : Bool) (s : DeviceScanner) (d : UsbDevice)
    → IsValid s
    → IsValid (check_missed seen s d).0
unfolding check_missed
check_missed-IsValid true s d v = v
check_missed-IsValid false s d v =
    elim (Bool-cases (leb detach_after_misses (u32 (misses_at (port_of d) s.miss_counts + 1)))) [
      | inl gone ↦ rw gone (forget_misses-IsValid _ (port_of d) (remove-IsValid s d.device_id v))
      | inr kept ↦ rw kept (record {
        is_map = v.is_map;
        own_id = v.own_id;
        fresh = v.fresh;
        one_per_port = v.one_per_port;
        few_misses = λ q n l. elim (lookup-insert_cases (port_of d) q _ n s.miss_counts l) [
          | inl (_, n') ↦ omega (arith, n', leb→lt _ _ kept)
          | inr l' ↦ v.few_misses q n l'
        ];
      })
    ]

check_all-IsValid :
    (current : List ScanObservation) (s : DeviceScanner) (ds : List UsbDevice)
    → IsValid s
    → IsValid (check_all current s ds).0
unfolding check_all
check_all-IsValid current s [] v = v
check_all-IsValid current s (d ∷ ds) v =
    check_all-IsValid current (check_missed (is_current current (port_of d)) s d).0 ds
      (check_missed-IsValid (is_current current (port_of d)) s d v)

-- A scan keeps the scanner valid while the 32-bit ids last: one device for a port, ids below the
-- next one, every miss counter below the limit.
pub scan-IsValid :
    (s : DeviceScanner) (current : List ScanObservation)
    → IsValid s
    → IsU32 (s.next_id + length current)
    → IsValid (scan s (ok current)).0
unfolding scan diff_devices
scan-IsValid s current v small =
    check_all-IsValid current (observe_all s current).0 (values (observe_all s current).0.devices)
      (observe_all-IsValid s current v small)
