-- ===== src/Daemon/Reconciling.antt =====
-- What the two loops of the scan task do to the set of the managed devices.
use ius.Base.{
  ℕ, ℕ-eq, nat_eq, ◌&&◌, ◌||◌, ◌≡◌, refl, subst, All, sym, ◌⊎◌, inl, inr, Bool, not, true, false,
  some, List, [], ◌∷◌, Bool-cases, arith,
}
use ius.Base.Assoc
use ius.Base.Assoc.{Assoc, IsMap, lookup-insert, lookup-remove}
use ius.Scanner.{UsbDevice, DeviceChange, attached, detached, values}
use ius.Scanner.Replay.{apply_changes}
use ius.Devices.Managed.{DeviceManager, add_device, remove_device, is_managed}
use ius.Daemon.Scanning.{Opens, apply_change, apply_all, retry, reconcile}

abbrev pub IsKnown : Assoc ℕ UsbDevice → ℕ → Type 0
IsKnown devices k = (d : UsbDevice) × (Assoc.lookup k devices ≡ some d)

-- No device is managed that is not among `devices`.
abbrev pub IsWithin : DeviceManager → Assoc ℕ UsbDevice → Type 0
IsWithin m devices = (k : ℕ) → is_managed m k ≡ true → IsKnown devices k

add_device-is_managed :
    (m : DeviceManager) (opened : Bool) (id k : ℕ)
    → is_managed (add_device m opened id).0 k ≡ (is_managed m k || (opened && nat_eq id k))
unfolding is_managed add_device Assoc.contains_key
add_device-is_managed m opened id k =
    ground (arith, lookup-insert id k (record { device_id = id; refcount = 0 }) m.devices)

remove_device-is_managed :
    (m : DeviceManager) (id k : ℕ)
    → is_managed (remove_device m id) k ≡ (not (nat_eq id k) && is_managed m k)
unfolding is_managed remove_device Assoc.contains_key
remove_device-is_managed m id k = ground (arith, lookup-remove id k m.devices)

apply_change-IsWithin :
    (opens : Opens) (m : DeviceManager) (devices : Assoc ℕ UsbDevice) (change : DeviceChange)
    → IsWithin m devices
    → IsWithin (apply_change opens m change) (apply_changes (change ∷ []) devices)
unfolding apply_change apply_changes
apply_change-IsWithin opens m devices (attached d) w k h =
    elim (Bool-cases (nat_eq d.device_id k)) [
      | inl same ↦ (d, ground (arith, same, lookup-insert d.device_id k d devices))
      | inr apart ↦
          let (c, l) =
            w k (ground (arith, h, apart, add_device-is_managed m (opens d) d.device_id k)) in
          (c, ground (arith, l, apart, lookup-insert d.device_id k d devices))
    ]
apply_change-IsWithin opens m devices (detached id) w k h =
    let e = remove_device-is_managed m id k in
    let (c, l) = w k (ground (arith, h, e)) in
    (c, ground (arith, h, e, l, lookup-remove id k devices))

apply_changes_step :
    (change : DeviceChange) (changes : List DeviceChange) (devices : Assoc ℕ UsbDevice)
    → apply_changes (change ∷ changes) devices
      ≡ apply_changes changes (apply_changes (change ∷ []) devices)
unfolding apply_changes
apply_changes_step (attached d) changes devices = refl
apply_changes_step (detached id) changes devices = refl

pub apply_all-IsWithin :
    (opens : Opens) (changes : List DeviceChange) (m : DeviceManager) (devices : Assoc ℕ UsbDevice)
    → IsWithin m devices
    → IsWithin (apply_all opens m changes) (apply_changes changes devices)
unfolding apply_all
apply_all-IsWithin opens [] m devices w = unfold apply_changes in w
apply_all-IsWithin opens (change ∷ changes) m devices w =
    rw (apply_changes_step change changes devices) (
      apply_all-IsWithin opens changes (apply_change opens m change) _
        (apply_change-IsWithin opens m devices change w))

retry-is_managed :
    (opens : Opens) (m : DeviceManager) (dev : UsbDevice) (k : ℕ)
    → is_managed (retry opens m dev) k ≡ (is_managed m k || (opens dev && nat_eq dev.device_id k))
unfolding retry
retry-is_managed opens m dev k = elim (Bool-cases (is_managed m dev.device_id)) [
  | inl there ↦ elim (Bool-cases (nat_eq dev.device_id k)) [
    | inl same ↦ ground (arith, there, same)
    | inr apart ↦ ground (arith, there, apart)
  ]
  | inr missing ↦ rw (missing) (add_device-is_managed m (opens dev) dev.device_id k)
]

reconcile-is_managed :
    (opens : Opens) (devices : List UsbDevice) (m : DeviceManager) (k : ℕ)
    → is_managed m k ≡ true
    → is_managed (reconcile opens m devices) k ≡ true
unfolding reconcile
reconcile-is_managed opens [] m k h = h
reconcile-is_managed opens (d ∷ ds) m k h =
    reconcile-is_managed opens ds (retry opens m d) k
      (ground (arith, h, retry-is_managed opens m d k))

-- A known device whose interface opens is managed behind the retries.
pub reconcile_manages :
    (opens : Opens) (devices : Assoc ℕ UsbDevice) (m : DeviceManager) (k : ℕ) (d : UsbDevice)
    → Assoc.lookup k devices ≡ some d
    → d.device_id ≡ k
    → opens d ≡ true
    → is_managed (reconcile opens m (values devices)) k ≡ true
unfolding reconcile Assoc.lookup
reconcile_manages opens [] m k d l own o = absurd (ground (arith, l))
reconcile_manages opens ((j, e) ∷ devices) m k d l own o = elim (Bool-cases (nat_eq j k)) [
  | inl here ↦
      let same : e ≡ d = ground (arith, l, here) in
      reconcile-is_managed opens (values devices) (retry opens m e) k
        (ground (arith, retry-is_managed opens m e k, same, own, o))
  | inr further ↦
      reconcile_manages opens devices (retry opens m e) k d (ground (arith, l, further)) own o
]

pub reconcile-IsWithin :
    (opens : Opens) (known : Assoc ℕ UsbDevice) (devices : List UsbDevice) (m : DeviceManager)
    → All (λ (d : UsbDevice). Assoc.lookup d.device_id known ≡ some d) devices
    → IsWithin m known
    → IsWithin (reconcile opens m devices) known
unfolding reconcile
reconcile-IsWithin opens known [] m all w = w
reconcile-IsWithin opens known (d ∷ ds) m (here, all) w =
    reconcile-IsWithin opens known ds (retry opens m d) all (λ k h.
      elim (Bool-cases (nat_eq d.device_id k)) [
        | inl same ↦ subst (IsKnown known) (ground (arith, same)) (d, here)
        | inr apart ↦ w k (ground (arith, h, apart, retry-is_managed opens m d k))
      ])

pub values-IsKnown :
    (known m : Assoc ℕ UsbDevice)
    → ((k : ℕ) (d : UsbDevice) → Assoc.lookup k m ≡ some d → Assoc.lookup k known ≡ some d)
    → ((k : ℕ) (d : UsbDevice) → Assoc.lookup k known ≡ some d → d.device_id ≡ k)
    → IsMap m
    → All (λ (d : UsbDevice). Assoc.lookup d.device_id known ≡ some d) (values m)
unfolding Assoc.lookup
values-IsKnown known [] into own u = tt
values-IsKnown known ((j, d) ∷ m) into own (fresh, u) =
    let here : Assoc.lookup j known ≡ some d = into j d (ground arith) in
    (
      subst (λ k. Assoc.lookup k known ≡ some d) (sym (own j d here)) here,
      values-IsKnown known m (λ k e l. into k e (ground (arith, l, fresh))) own u,
    )

-- Whether one of the changes is an arrival of this device at which its interface opened.
abbrev pub opened_in : Opens → List DeviceChange → ℕ → Bool
opened_in opens [] k = false
opened_in opens (attached d ∷ changes) k =
    opens d && nat_eq d.device_id k || opened_in opens changes k
opened_in opens (detached id ∷ changes) k = opened_in opens changes k

pub apply_all-opened :
    (opens : Opens) (changes : List DeviceChange) (m : DeviceManager) (k : ℕ)
    → is_managed (apply_all opens m changes) k ≡ true
    → is_managed m k || opened_in opens changes k ≡ true
unfolding apply_all apply_change
apply_all-opened opens [] m k h = ground (arith, h)
apply_all-opened opens (attached d ∷ changes) m k h = ground (
  arith,
  apply_all-opened opens changes (add_device m (opens d) d.device_id).0 k h,
  add_device-is_managed m (opens d) d.device_id k,
)
apply_all-opened opens (detached id ∷ changes) m k h = ground (
  arith,
  apply_all-opened opens changes (remove_device m id) k h,
  remove_device-is_managed m id k,
)

-- A known device whose interface opened.
abbrev pub IsOpened : Opens → Assoc ℕ UsbDevice → ℕ → Type 0
IsOpened opens known k = (d : UsbDevice) × (Assoc.lookup k known ≡ some d) × (opens d ≡ true)

pub reconcile-IsOpened :
    (opens : Opens) (known : Assoc ℕ UsbDevice) (devices : List UsbDevice) (m : DeviceManager)
    (k : ℕ)
    → All (λ (d : UsbDevice). Assoc.lookup d.device_id known ≡ some d) devices
    → is_managed (reconcile opens m devices) k ≡ true
    → (is_managed m k ≡ true) ⊎ IsOpened opens known k
unfolding reconcile
reconcile-IsOpened opens known [] m k all h = inl h
reconcile-IsOpened opens known (d ∷ ds) m k (here, all) h =
    elim (reconcile-IsOpened opens known ds (retry opens m d) k all h) [
      | inr later ↦ inr later
      | inl now ↦ elim (Bool-cases (opens d && nat_eq d.device_id k)) [
        | inl both ↦ inr (
          d,
          subst (λ j. Assoc.lookup j known ≡ some d) (ground (arith, both)) here,
          ground (arith, both),
        )
        | inr neither ↦ inl (ground (arith, now, neither, retry-is_managed opens m d k))
      ]
    ]
