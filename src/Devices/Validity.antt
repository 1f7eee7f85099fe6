-- ===== src/Devices/Validity.antt =====
-- The processing task keeps the connection table valid, whatever the device sends.
use mathlib.Core.Option
use ius.Base.{
  ℕ, ◌≡◌, refl, inl, inr, Bool, List, [], ◌∷◌, ℕ-eq, Bool-cases, Option-cases, Outcome-cases, arith,
}
use ius.Base.Words.{Bytes}
use ius.Base.Assoc
use ius.Base.Assoc.{Assoc, IsMap, adjust-IsMap, lookup-adjust-some}
use ius.Mux.Types.{TcpHeader, version_packet, control_packet, setup_packet, tcp_packet}
use ius.Mux.Frame.{parse_packet, parse_mux_header}
use ius.Mux.Reassembler.{PacketReassembler, feed}
use ius.Mux.Connections.{ConnectionManager, MuxDevice, Connection}
use ius.Mux.Connections.Validity.{
  IsValid, DeviceValid, ConnValid, connections-DeviceValid, handle_tcp_packet-IsValid,
}
use ius.Devices.Sending.{
  count_client_data, count_data, count_window_update, cleanup_device_connections, kill, kill_all,
}
use ius.Devices.Receiving.{
  Task, negotiate, on_version, track_rx_seq, on_tcp, process_device_packet, process_all,
  on_usb_data,
}

-- A write to one device.
pub change-IsValid :
    (max id : ℕ) (m : ConnectionManager) (f : MuxDevice → MuxDevice)
    → ((d : MuxDevice) → DeviceValid max d → DeviceValid max (f d))
    → IsValid max m
    → IsValid max (record { devices = Assoc.adjust id f m.devices })
change-IsValid max id m f keeps v = record {
  is_map = adjust-IsMap id f m.devices v.is_map;
  at_id = λ j e h. elim (lookup-adjust-some id j f e m.devices h) [
    | inl (_, d, l, same) ↦ rw same (keeps d (v.at_id id d l))
    | inr l ↦ v.at_id j e l
  ];
}

-- A write to one connection of a device.
change-DeviceValid :
    (max sport : ℕ) (d : MuxDevice) (f : Connection → Connection)
    → ((k : ℕ) (c : Connection) → ConnValid max k c → ConnValid max k (f c))
    → DeviceValid max d
    → DeviceValid max (record d { connections = Assoc.adjust sport f d.connections })
change-DeviceValid max sport d f keeps v = record {
  is_map = adjust-IsMap sport f d.connections v.is_map;
  at_port = λ j e h. elim (lookup-adjust-some sport j f e d.connections h) [
    | inl (same_port, c, l, same) ↦ rw (same_port, same) (keeps sport c (v.at_port sport c l))
    | inr l ↦ v.at_port j e l
  ];
}

count_data-ConnValid :
    (max k : ℕ) (payload : Bytes) (c : Connection)
    → ConnValid max k c
    → ConnValid max k (count_data payload c)
count_data-ConnValid max k payload c v = record {
  own_port = v.own_port;
  low = v.low;
  high = v.high;
  buffered = v.buffered;
  entered = v.entered;
}

-- Counting a sent data packet keeps the table valid, also one that changed since the packet was
-- built.
pub count_client_data-IsValid :
    (max : ℕ) (m : ConnectionManager) (device_id sport : ℕ) (payload : Bytes)
    → IsValid max m
    → IsValid max (count_client_data m device_id sport payload)
unfolding count_client_data
count_client_data-IsValid max m device_id sport payload v =
    change-IsValid max device_id m _
      (λ d w.
        connections-DeviceValid max
          (record d { connections = Assoc.adjust sport (count_data payload) d.connections }) _ refl
          (change-DeviceValid max sport d (count_data payload)
            (λ k c x. count_data-ConnValid max k payload c x) w))
      v

pub count_window_update-IsValid :
    (max : ℕ) (m : ConnectionManager) (device_id : ℕ)
    → IsValid max m
    → IsValid max (count_window_update m device_id)
unfolding count_window_update
count_window_update-IsValid max m device_id v =
    change-IsValid max device_id m _ (λ d w. connections-DeviceValid max d _ refl w) v

-- `kill_all` is the loop's writes on every entry.
pub lookup-kill_all :
    (sport : ℕ) (connections : Assoc ℕ Connection)
    → Assoc.lookup sport (kill_all connections) ≡ Option.map kill (Assoc.lookup sport connections)
unfolding kill_all Assoc.lookup
lookup-kill_all sport [] = refl
lookup-kill_all sport ((k, c) ∷ connections) = ground (arith, lookup-kill_all sport connections)

kill_all-IsMap :
    (connections : Assoc ℕ Connection) → IsMap connections → IsMap (kill_all connections)
unfolding kill_all
kill_all-IsMap [] h = tt
kill_all-IsMap ((k, c) ∷ connections) (fresh, h) =
    (ground (arith, lookup-kill_all k connections), kill_all-IsMap connections h)

kill-ConnValid : (max k : ℕ) (c : Connection) → ConnValid max k c → ConnValid max k (kill c)
kill-ConnValid max k c v = record {
  own_port = v.own_port;
  low = v.low;
  high = v.high;
  buffered = v.buffered;
  entered = inr (inr (inr refl));
}

kill_all-DeviceValid :
    (max : ℕ) (d : MuxDevice)
    → DeviceValid max d
    → DeviceValid max (record d { connections = kill_all d.connections })
kill_all-DeviceValid max d v = record {
  is_map = kill_all-IsMap d.connections v.is_map;
  at_port = λ k c h. elim (Option-cases (Assoc.lookup k d.connections)) [
    | inl missing ↦ ground (arith, lookup-kill_all k d.connections)
    | inr (old, found) ↦
        let same : c ≡ kill old = ground (arith, lookup-kill_all k d.connections) in
        rw same (kill-ConnValid max k old (v.at_port k old found))
  ];
}

pub cleanup_device_connections-IsValid :
    (max : ℕ) (m : ConnectionManager) (device_id : ℕ)
    → IsValid max m
    → IsValid max (cleanup_device_connections m device_id)
unfolding cleanup_device_connections
cleanup_device_connections-IsValid max m device_id v =
    change-IsValid max device_id m _ (λ d w. kill_all-DeviceValid max d w) v

pub track_rx_seq-IsValid :
    (max device_id : ℕ) (m : ConnectionManager) (packet : Bytes)
    → IsValid max m
    → IsValid max (track_rx_seq device_id m packet)
unfolding track_rx_seq
track_rx_seq-IsValid max device_id m packet v = elim (Outcome-cases (parse_mux_header packet)) [
  | inr (_, bad) ↦ rw (bad, track_rx_seq) v
  | inl (header, good) ↦ elim (Bool-cases header.is_v2) [
    | inr v1 ↦ rw (good, track_rx_seq, v1) v
    | inl v2 ↦
        rw (good, track_rx_seq, v2)
          (change-IsValid max device_id m _ (λ d w. connections-DeviceValid max d _ refl w) v)
  ]
]

on_tcp-IsValid :
    (max device_id : ℕ) (t : Task) (packet : Bytes) (header : TcpHeader) (payload : Bytes)
    → IsValid max t.manager
    → IsValid max (on_tcp device_id t packet header payload max).manager
unfolding on_tcp
on_tcp-IsValid max device_id t packet header payload v =
    handle_tcp_packet-IsValid max (track_rx_seq device_id t.manager packet) device_id header payload
      t.metrics (track_rx_seq-IsValid max device_id t.manager packet v)

pub negotiate-IsValid :
    (max device_id : ℕ) (m : ConnectionManager) (major : ℕ)
    → IsValid max m
    → IsValid max (record { devices = Assoc.adjust device_id (negotiate major) m.devices })
negotiate-IsValid max device_id m major v =
    change-IsValid max device_id m (negotiate major)
      (λ d w. connections-DeviceValid max d (negotiate major d) refl w) v

on_version-IsValid :
    (send : Bytes → Bool) (max device_id : ℕ) (t : Task) (major : ℕ)
    → IsValid max t.manager
    → IsValid max (on_version send device_id t major).manager
unfolding on_version
on_version-IsValid send max device_id t major v = negotiate-IsValid max device_id t.manager major v

process_device_packet-IsValid :
    (send : Bytes → Bool) (max device_id : ℕ) (t : Task) (packet : Bytes)
    → IsValid max t.manager
    → IsValid max (process_device_packet send device_id t packet max).manager
unfolding process_device_packet
process_device_packet-IsValid send max device_id t packet v =
    elim (Outcome-cases (parse_packet packet)) [
      | inr (_, bad) ↦ rw (bad, process_device_packet) v
      | inl (version_packet major minor, good) ↦
          rw (good, process_device_packet) (on_version-IsValid send max device_id t major v)
      | inl (control_packet payload, good) ↦ rw (good, process_device_packet) v
      | inl (setup_packet, good) ↦ rw (good, process_device_packet) v
      | inl (tcp_packet header payload, good) ↦
          rw (good, process_device_packet) (on_tcp-IsValid max device_id t packet header payload v)
    ]

process_all-IsValid :
    (send : Bytes → Bool) (max device_id : ℕ) (t : Task) (packets : List Bytes)
    → IsValid max t.manager
    → IsValid max (process_all send device_id t packets max).manager
unfolding process_all
process_all-IsValid send max device_id t [] v = v
process_all-IsValid send max device_id t (packet ∷ packets) v =
    process_all-IsValid send max device_id (process_device_packet send device_id t packet max)
      packets (process_device_packet-IsValid send max device_id t packet v)

-- Whatever bytes come from USB, in whatever pieces, the connection table stays valid: no connection
-- buffers more than its cap.
pub on_usb_data-IsValid :
    (send : Bytes → Bool) (max device_id : ℕ) (r : PacketReassembler) (t : Task) (raw_data : Bytes)
    → IsValid max t.manager
    → IsValid max (on_usb_data send device_id r t raw_data max).1.manager
unfolding on_usb_data
on_usb_data-IsValid send max device_id r t raw_data v =
    process_all-IsValid send max device_id _ (feed r raw_data).1 v
