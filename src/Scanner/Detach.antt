-- ===== src/Scanner/Detach.antt =====
-- Flap suppression: a device that a scan misses goes at its second miss in a row.
use ius.Base.{
  ℕ, ◌≡◌, refl, ap, ◌∙◌, ◌≢◌, ◌⊎◌, inl, inr, none, some, List, [], ◌∷◌, ◌++◌, ℕ-eq, nat_eq,
  Bool-cases, arith, All,
}
use ius.Base.Texts.{pair-eq, pair_eq, pair_eq_iff}
use ius.Base.Assoc
use ius.Base.Assoc.{Assoc, IsMap, lookup-insert, lookup-remove}
use ius.Scanner.{
  UsbDevice, ScanObservation, DeviceScanner, check_missed, check_all, values, port_of, is_current,
}
use ius.Scanner.Validity.{IsValid}
use ius.Scanner.Presence.{Apart, SameFor, check_all-SameFor}

-- What the invariant says of the entries of a map, seen from `d` under `id`.
abbrev pub Known : ℕ → UsbDevice → Assoc ℕ UsbDevice → Type 0
Known id d m =
    (k : ℕ) (e : UsbDevice)
    → Assoc.lookup k m ≡ some e
    → (e.device_id ≡ k) × ((k ≡ id) ⊎ (port_of e ≢ port_of d))

Known-tail :
    (id j : ℕ) (d c : UsbDevice) (m : Assoc ℕ UsbDevice)
    → Assoc.lookup j m ≡ none
    → Known id d ((j, c) ∷ m)
    → Known id d m
unfolding Assoc.lookup
Known-tail id j d c m fresh h k e l = h k e (ground arith)

values-Apart :
    (id : ℕ) (d : UsbDevice) (m : Assoc ℕ UsbDevice)
    → IsMap m
    → Known id d m
    → Assoc.lookup id m ≡ none
    → All (Apart id d) (values m)
unfolding Assoc.lookup
values-Apart id d [] u h l = tt
values-Apart id d ((j, c) ∷ m) (fresh, u) h l = (
  ground (arith, h j c (ground arith)),
  values-Apart id d m u (Known-tail id j d c m fresh h) (ground arith),
)

-- `d` stands once among the values, and all others are apart from it.
record Splits (id : ℕ) (d : UsbDevice) (es : List UsbDevice) : Type 0 where
  before : List UsbDevice
  after : List UsbDevice
  splits : es ≡ before ++ d ∷ after
  apart_before : All (Apart id d) before
  apart_after : All (Apart id d) after

values-Splits :
    (id : ℕ) (d : UsbDevice) (m : Assoc ℕ UsbDevice)
    → IsMap m
    → Known id d m
    → Assoc.lookup id m ≡ some d
    → Splits id d (values m)
unfolding Assoc.lookup
values-Splits id d [] u h l = cc
values-Splits id d ((j, c) ∷ m) (fresh, u) h l = elim (Bool-cases (nat_eq j id)) [
  | inl here ↦ record {
    before = [];
    after = values m;
    splits = ground arith;
    apart_before = tt;
    apart_after = values-Apart id d m u (Known-tail id j d c m fresh h) (ground arith);
  }
  | inr there ↦
      further (values-Splits id d m u (Known-tail id j d c m fresh h) (ground arith))
        (ground (arith, h j c (ground arith)))
]
  where
    further : Splits id d (values m) → Apart id d c → Splits id d (c ∷ values m)
    further s a = record {
      before = c ∷ s.before;
      after = s.after;
      splits = ap (◌∷◌ c) s.splits;
      apart_before = (a, s.apart_before);
      apart_after = s.apart_after;
    }

check_all-append :
    (current : List ScanObservation) (s : DeviceScanner) (xs ys : List UsbDevice)
    → (check_all current s (xs ++ ys)).0 ≡ (check_all current (check_all current s xs).0 ys).0
unfolding check_all
check_all-append current s [] ys = refl
check_all-append current s (x ∷ xs) ys =
    check_all-append current (check_missed (is_current current (port_of x)) s x).0 xs ys

-- The device and its counter after the loop: those of its own round.
pub check_all-own :
    (current : List ScanObservation) (s : DeviceScanner) (id : ℕ) (d : UsbDevice)
    → IsMap s.devices
    → Known id d s.devices
    → Assoc.lookup id s.devices ≡ some d
    → (t : DeviceScanner) × SameFor id (port_of d) s t
      × SameFor id
          (port_of d)
          (check_missed (is_current current (port_of d)) t d).0
          (check_all current s (values s.devices)).0
check_all-own current s id d u h l =
    let sp = values-Splits id d s.devices u h l in
    let t = (check_all current s sp.before).0 in
    let r = (check_missed (is_current current (port_of d)) t d).0 in
    let rest = check_all-SameFor current r id d sp.after sp.apart_after in
    let whole : (check_all current s (values s.devices)).0 ≡ (check_all current r sp.after).0 =
      rw sp.splits
        (check_all-append current s sp.before (d ∷ sp.after) ∙ (unfold check_all in refl)) in
    (t, check_all-SameFor current s id d sp.before sp.apart_before, rw whole rest)

pub IsValid-Known :
    (s : DeviceScanner) (id : ℕ) (d : UsbDevice)
    → IsValid s
    → Assoc.lookup id s.devices ≡ some d
    → Known id d s.devices
IsValid-Known s id d v l k e l' = elim (Bool-cases (pair_eq (port_of e) (port_of d))) [
  | inl same ↦ (
    v.own_id k e l',
    inl (v.one_per_port k id e d l' l ((pair_eq_iff (port_of e) (port_of d)).0 same)),
  )
  | inr other ↦ (v.own_id k e l', inr (λ p. cc ((pair_eq_iff (port_of e) (port_of d)).1 p)))
]
