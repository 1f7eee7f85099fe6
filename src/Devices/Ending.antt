-- ===== src/Devices/Ending.antt =====
-- The end of a device, and the counting of its clients.
use mathlib.Core.Option
use ius.Base.{
  ℕ, ◌+◌, ◌-◌, ◌≡◌, inl, inr, false, Option, some, [], ◌∷◌, ◌++◌, ℕ-eq, nat_eq, if◌then◌else◌,
  Option-cases, arith,
}
use ius.Base.Words.{IsU32, u32}
use ius.Base.Assoc
use ius.Base.Assoc.{lookup-adjust, lookup-remove}
use ius.Mux.Types.{dead}
use ius.Mux.Connections.{ConnectionManager, MuxDevice, Connection, notify_one}
use ius.Mux.Connections.Delivery.{conn_at}
use ius.Devices.Sending.{cleanup_device_connections, kill, kill_all}
use ius.Devices.Validity.{lookup-kill_all}
use ius.Devices.Managed.{
  ManagedDevice, DeviceManager, increment_refcount, decrement_refcount, is_managed,
  handle_usb_disconnect,
}

-- After the cleanup every connection of the device is dead and its waiter woken once more, and
-- those of other devices are as they were.
pub conn_at-cleanup_device_connections :
    (m : ConnectionManager) (id j p : ℕ)
    → conn_at (cleanup_device_connections m id) j p
      ≡ (if nat_eq id j then Option.map kill (conn_at m j p) else conn_at m j p)
unfolding cleanup_device_connections
conn_at-cleanup_device_connections m id j p = elim (Option-cases (Assoc.lookup j m.devices)) [
  | inl missing ↦ ground (
    arith,
    lookup-adjust id j (λ (d : MuxDevice). record d { connections = kill_all d.connections })
        m.devices,
  )
  | inr (d, found) ↦ ground (
    arith,
    lookup-adjust id j (λ (d : MuxDevice). record d { connections = kill_all d.connections })
        m.devices,
    lookup-kill_all p d.connections,
  )
]

-- On a USB disconnect the device is managed no more and all of its connections are dead, each with
-- its waiter woken; every other device is managed as before, with the connections that it had.
pub handle_usb_disconnect_ends :
    (m : DeviceManager) (id j p : ℕ)
    → (is_managed (handle_usb_disconnect m id) j ≡ (if nat_eq id j then false else is_managed m j))
      × (conn_at (handle_usb_disconnect m id).conn_mgr j p ≡ (
          if nat_eq id j
          then Option.map
              (λ (c : Connection). record c {
                state = dead;
                data_notify = c.data_notify ++ notify_one ∷ [];
              })
              (conn_at m.conn_mgr j p)
          else conn_at m.conn_mgr j p))
unfolding handle_usb_disconnect is_managed Assoc.contains_key
handle_usb_disconnect_ends m id j p = (
  ground (arith, lookup-remove id j m.devices),
  conn_at-cleanup_device_connections m.conn_mgr id j p,
)

-- The clients of a device that its manager counts.
abbrev pub refcount_of : DeviceManager → ℕ → Option ℕ
refcount_of m id = Option.map (λ (d : ManagedDevice). d.refcount) (Assoc.lookup id m.devices)

-- While the count is below the 32-bit limit, a client that comes and goes leaves every device's
-- count as it was.
pub decrement_refcount-increment_refcount :
    (m : DeviceManager) (id j n : ℕ)
    → refcount_of m id ≡ some n
    → IsU32 (n + 1)
    → refcount_of (decrement_refcount (increment_refcount m id) id) j ≡ refcount_of m j
unfolding decrement_refcount increment_refcount
decrement_refcount-increment_refcount m id j n h small =
    elim (Option-cases (Assoc.lookup j m.devices)) [
      | inl missing ↦ ground (arith, again)
      | inr (d, found) ↦ ground (arith, again)
    ]
  where
    again : Assoc.lookup j (decrement_refcount (increment_refcount m id) id).devices ≡ (
        if nat_eq id j
        then Option.map
            (λ (d : ManagedDevice). record d { refcount = u32 (d.refcount + 1) - 1 })
            (Assoc.lookup j m.devices)
        else Assoc.lookup j m.devices)
    again = ground (
      arith,
      lookup-adjust id j (λ (d : ManagedDevice). record d { refcount = d.refcount - 1 })
          (increment_refcount m id).devices,
      lookup-adjust id j (λ (d : ManagedDevice). record d { refcount = u32 (d.refcount + 1) })
          m.devices,
    )
