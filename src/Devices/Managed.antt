-- ===== src/Devices/Managed.antt =====
-- The managed devices of meridian-relay/src/daemon/device_manager.rs.
use ius.Base.{ℕ, ◌+◌, ◌-◌, Bool, List, [], ◌∷◌, ℕ-eq, if◌then◌else◌}
use ius.Base.Words.{Bytes, u32}
use ius.Base.Assoc
use ius.Base.Assoc.{Assoc}
use ius.Mux.Frame.{build_version_request}
use ius.Mux.Connections
use ius.Mux.Connections.{ConnectionManager}
use ius.Devices.Sending.{cleanup_device_connections}

pub record ManagedDevice : Type 0 where
  pub device_id : ℕ
  pub refcount : ℕ

-- The two maps of the manager.
pub record DeviceManager : Type 0 where
  pub devices : Assoc ℕ ManagedDevice
  pub conn_mgr : ConnectionManager

unfoldable pub increment_refcount : DeviceManager → ℕ → DeviceManager
increment_refcount m device_id = record m {
  devices = Assoc.adjust device_id (λ d. record d { refcount = u32 (d.refcount + 1) }) m.devices;
}

unfoldable pub decrement_refcount : DeviceManager → ℕ → DeviceManager
decrement_refcount m device_id = record m {
  devices = Assoc.adjust device_id (λ d. record d { refcount = d.refcount - 1 }) m.devices;
}

unfoldable pub is_managed : DeviceManager → ℕ → Bool
is_managed m device_id = Assoc.contains_key device_id m.devices

-- `opened` is whether the USB interface of the device could be opened. The version request is sent
-- whatever its outcome.
unfoldable pub add_device : DeviceManager → (opened : Bool) → ℕ → DeviceManager × List Bytes
unfolding Connections.add_device
add_device m opened device_id =
    let managed : ManagedDevice = record { device_id = device_id; refcount = 0 } in
    if Assoc.contains_key device_id m.devices
    then (m, [])
    else if opened
    then (
      record {
        devices = Assoc.insert device_id managed m.devices;
        conn_mgr = Connections.add_device m.conn_mgr device_id;
      },
      build_version_request ∷ [],
    )
    else (m, [])

unfoldable pub remove_device : DeviceManager → ℕ → DeviceManager
unfolding Connections.remove_device
remove_device m device_id = record {
  devices = Assoc.remove device_id m.devices;
  conn_mgr = Connections.remove_device m.conn_mgr device_id;
}

-- The task ends after this, and cleans up once more.
unfoldable pub handle_usb_disconnect : DeviceManager → ℕ → DeviceManager
unfolding cleanup_device_connections
handle_usb_disconnect m device_id = record {
  devices = Assoc.remove device_id m.devices;
  conn_mgr = cleanup_device_connections m.conn_mgr device_id;
}
