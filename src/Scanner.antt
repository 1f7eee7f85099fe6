-- ===== src/Scanner.antt =====
-- meridian-relay/src/daemon/device_scanner.rs: which devices are attached, and what the listeners
-- are told. The outcome of `enumerate_apple_devices` (Enumerate) is an argument of `scan`.
pub mod Replay
pub mod Validity
pub mod Presence
pub mod Detach
pub mod Flap
pub mod Enumerate
use ius.Base.{
  ℕ, zero, suc, ◌+◌, ◌%◌, Bool, true, false, ◌&&◌, ◌||◌, Option, none, some, List, [], ◌∷◌, ◌++◌,
  map, any, ltb, leb, nat_eq, ℕ-eq, ◌==◌, if◌then◌else◌, Outcome, ok, err, String,
}
use ius.Base.Words.{u32}
use ius.Base.Strings.{Text}
use ius.Base.Texts.{bytes_eq, pair-eq}
use ius.Base.Assoc
use ius.Base.Assoc.{Assoc}

abbrev pub detach_after_misses : ℕ
detach_after_misses = 2

pub record UsbDevice : Type 0 where
  pub device_id : ℕ
  pub udid : Text
  pub product_id : ℕ
  pub usb_bus : ℕ
  pub usb_address : ℕ

pub data DeviceChange : Type 0 where
  attached : UsbDevice → DeviceChange
  detached : ℕ → DeviceChange

pub record ScanObservation : Type 0 where
  pub usb_bus : ℕ
  pub usb_address : ℕ
  pub product_id : ℕ
  pub udid : Option Text

-- A physical port: bus and address.
abbrev pub Port : Type 0
Port = ℕ × ℕ

abbrev pub port_of : UsbDevice → Port
port_of d = (d.usb_bus, d.usb_address)

abbrev pub observed_port : ScanObservation → Port
observed_port o = (o.usb_bus, o.usb_address)

-- The three `&mut` arguments of `diff_devices`, and the changes collected so far.
pub record DeviceScanner : Type 0 where
  pub devices : Assoc ℕ UsbDevice
  pub miss_counts : Assoc Port ℕ
  pub next_id : ℕ

abbrev pub new : DeviceScanner
new = record { devices = []; miss_counts = []; next_id = 1 }

-- `values().find(|d| d is at this port)`
unfoldable pub find_at : Port → Assoc ℕ UsbDevice → Option UsbDevice
find_at port [] = none
find_at port ((_, d) ∷ m) = if port_of d == port then some d else find_at port m

abbrev pub new_device : ℕ → ScanObservation → Text → UsbDevice
new_device device_id o udid = record {
  device_id = device_id;
  udid = udid;
  product_id = o.product_id;
  usb_bus = o.usb_bus;
  usb_address = o.usb_address;
}

abbrev pub attach : DeviceScanner → UsbDevice → DeviceScanner
attach s d = record s {
  devices = Assoc.insert d.device_id d s.devices;
  next_id = u32 (s.next_id + 1);
}

-- The `match (existing, &obs.udid)` of the attach loop.
unfoldable pub observe_udid :
    Option UsbDevice
    → Option Text
    → DeviceScanner
    → ScanObservation
    → DeviceScanner × List DeviceChange
observe_udid (some existing) (some udid) s o =
    let d = new_device s.next_id o udid in
    let replaced = record s { devices = Assoc.remove existing.device_id s.devices } in
    if bytes_eq existing.udid udid
    then (s, [])
    else (attach replaced d, detached existing.device_id ∷ attached d ∷ [])
observe_udid none (some udid) s o =
    let d = new_device s.next_id o udid in (attach s d, attached d ∷ [])
observe_udid none none s o = (s, [])
observe_udid (some existing) none s o = (s, [])

unfoldable pub observe : DeviceScanner → ScanObservation → DeviceScanner × List DeviceChange
unfolding observe_udid
observe s o =
    observe_udid (find_at (observed_port o) s.devices) o.udid
      (record s { miss_counts = Assoc.remove (observed_port o) s.miss_counts }) o

unfoldable pub observe_all :
    DeviceScanner → List ScanObservation → DeviceScanner × List DeviceChange
unfolding observe
observe_all s [] = (s, [])
observe_all s (o ∷ os) =
    let (s', changes) = observe s o in let (s'', more) = observe_all s' os in (s'', changes ++ more)

-- `entry(port).or_insert(0)`
abbrev pub or_zero : Option ℕ → ℕ
or_zero none = 0
or_zero (some n) = n

abbrev pub misses_at : Port → Assoc Port ℕ → ℕ
misses_at port m = or_zero (Assoc.lookup port m)

-- One known device in the detach loop; `seen` is whether its port is among the current ones.
unfoldable pub check_missed : Bool → DeviceScanner → UsbDevice → DeviceScanner × List DeviceChange
check_missed true s d = (s, [])
check_missed false s d =
    let misses = u32 (misses_at (port_of d) s.miss_counts + 1) in
    if leb detach_after_misses misses
    then (
      record s {
        devices = Assoc.remove d.device_id s.devices;
        miss_counts = Assoc.remove (port_of d) s.miss_counts;
      },
      detached d.device_id ∷ [],
    )
    else (record s { miss_counts = Assoc.insert (port_of d) misses s.miss_counts }, [])

abbrev pub is_current : List ScanObservation → Port → Bool
is_current current port = any (λ o. observed_port o == port) current

unfoldable pub check_all :
    List ScanObservation → DeviceScanner → List UsbDevice → DeviceScanner × List DeviceChange
unfolding check_missed
check_all current s [] = (s, [])
check_all current s (d ∷ ds) =
    let (s', changes) = check_missed (is_current current (port_of d)) s d in
    let (s'', more) = check_all current s' ds in (s'', changes ++ more)

-- The devices, as `values()` iterates over them.
abbrev pub values : Assoc ℕ UsbDevice → List UsbDevice
values [] = []
values ((_, d) ∷ m) = d ∷ values m

unfoldable pub diff_devices :
    DeviceScanner → List ScanObservation → DeviceScanner × List DeviceChange
unfolding observe_all check_all
diff_devices s current =
    let (s', changes) = observe_all s current in
    let (s'', more) = check_all current s' (values s'.devices) in (s'', changes ++ more)

-- `err` is a failed enumeration.
unfoldable pub scan :
    DeviceScanner → Outcome String (List ScanObservation) → DeviceScanner × List DeviceChange
unfolding diff_devices
scan s (ok current) = diff_devices s current
scan s (err e) = (s, [])

unfoldable pub get_devices : DeviceScanner → List UsbDevice
get_devices s = values s.devices

unfoldable pub get_device_by_id : DeviceScanner → ℕ → Option UsbDevice
get_device_by_id s id = Assoc.lookup id s.devices
