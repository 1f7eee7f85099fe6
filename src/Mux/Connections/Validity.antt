-- ===== src/Mux/Connections/Validity.antt =====
-- The invariant of the connection table, and that each method keeps it.
use ius.Base.{
  ℕ, ◌≤◌, ◌<◌, ◌≡◌, refl, ◌⊎◌, inl, inr, some, ℕ-eq, Bool-cases, Option-cases, length,
  length-append, arith,
}
use ius.Base.Words.{Bytes}
use ius.Base.Assoc
use ius.Base.Assoc.{
  Assoc, IsMap, insert-IsMap, remove-IsMap, adjust-IsMap, lookup-insert_cases, lookup-remove_cases,
  lookup-adjust_cases,
}
use ius.Metrics.{Metrics}
use ius.Mux.Types.{ConnState, syn_sent, connected, close_wait, dead, TcpHeader}
use ius.Mux.Connections.{
  Connection, MuxDevice, ConnectionManager, empty, new_device, add_device, remove_device,
  first_free, port_count, new_connection, start_connect, conn_key, handle_on_conn, on_syn_ack,
  on_data, handle_tcp_packet,
}
use ius.Mux.Connections.Ports.{first_free-IsFirstFree}

-- The states that the daemon ever gives a connection: the six others are never entered.
abbrev pub IsEntered : ConnState → Type 0
IsEntered s = (s ≡ syn_sent) ⊎ ((s ≡ connected) ⊎ ((s ≡ close_wait) ⊎ (s ≡ dead)))

-- `max` is the cap on a connection's inbound buffer.
pub record ConnValid (max key : ℕ) (c : Connection) : Type 0 where
  pub own_port : c.source_port ≡ key
  pub low : 1024 ≤ key
  pub high : key < 65535
  pub buffered : length c.ib_buf ≤ max
  pub entered : IsEntered c.state

pub record DeviceValid (max : ℕ) (d : MuxDevice) : Type 0 where
  pub is_map : IsMap d.connections
  pub at_port : (k : ℕ) (c : Connection) → Assoc.lookup k d.connections ≡ some c → ConnValid max k c

pub record IsValid (max : ℕ) (m : ConnectionManager) : Type 0 where
  pub is_map : IsMap m.devices
  pub at_id : (id : ℕ) (d : MuxDevice) → Assoc.lookup id m.devices ≡ some d → DeviceValid max d

pub empty-IsValid : (max : ℕ) → IsValid max empty
unfolding Assoc.lookup
empty-IsValid max = record { is_map = tt; at_id = λ id d e. cc }

new_device-DeviceValid : (max id : ℕ) → DeviceValid max (new_device id)
unfolding Assoc.lookup
new_device-DeviceValid max id = record { is_map = tt; at_port = λ k c e. cc }

-- Writing a valid device over one of the table.
pub adjust-IsValid :
    (max id : ℕ) (m : ConnectionManager) (d : MuxDevice)
    → IsValid max m
    → DeviceValid max d
    → IsValid max (record { devices = Assoc.adjust id (λ _. d) m.devices })
adjust-IsValid max id m d v w = record {
  is_map = adjust-IsMap id (λ _. d) m.devices v.is_map;
  at_id = λ j e h. elim (lookup-adjust_cases id j d e m.devices h) [
    | inl (_, e') ↦ rw e' w
    | inr l ↦ v.at_id j e l
  ];
}

pub connections-DeviceValid :
    (max : ℕ) (d e : MuxDevice)
    → e.connections ≡ d.connections
    → DeviceValid max d
    → DeviceValid max e
connections-DeviceValid max d e same v = record {
  is_map = rw same v.is_map;
  at_port = λ k c h. v.at_port k c (rw same at h);
}

pub adjust-DeviceValid :
    (max key : ℕ) (d : MuxDevice) (c : Connection)
    → DeviceValid max d
    → ConnValid max key c
    → DeviceValid max (record d { connections = Assoc.adjust key (λ _. c) d.connections })
adjust-DeviceValid max key d c v w = record {
  is_map = adjust-IsMap key (λ _. c) d.connections v.is_map;
  at_port = λ j e h. elim (lookup-adjust_cases key j c e d.connections h) [
    | inl (j', e') ↦ rw (j', e') w
    | inr l ↦ v.at_port j e l
  ];
}

insert-DeviceValid :
    (max key : ℕ) (d : MuxDevice) (c : Connection)
    → DeviceValid max d
    → ConnValid max key c
    → DeviceValid max (record d { connections = Assoc.insert key c d.connections })
insert-DeviceValid max key d c v w = record {
  is_map = insert-IsMap key c d.connections v.is_map;
  at_port = λ j e h. elim (lookup-insert_cases key j c e d.connections h) [
    | inl (j', e') ↦ rw (j', e') w
    | inr l ↦ v.at_port j e l
  ];
}

-- A device that is added is valid, and one that is there keeps its connections.
pub add_device-IsValid :
    (max : ℕ) (m : ConnectionManager) (id : ℕ) → IsValid max m → IsValid max (add_device m id)
unfolding add_device
add_device-IsValid max m id v = elim (Bool-cases (Assoc.contains_key id m.devices)) [
  | inl there ↦ rw there v
  | inr free ↦ rw free (record {
    is_map = insert-IsMap id (new_device id) m.devices v.is_map;
    at_id = λ j e h. elim (lookup-insert_cases id j (new_device id) e m.devices h) [
      | inl (_, e') ↦ rw e' (new_device-DeviceValid max id)
      | inr l ↦ v.at_id j e l
    ];
  })
]

pub remove_device-IsValid :
    (max : ℕ) (m : ConnectionManager) (id : ℕ) → IsValid max m → IsValid max (remove_device m id)
unfolding remove_device
remove_device-IsValid max m id v = record {
  is_map = remove-IsMap id m.devices v.is_map;
  at_id = λ j e h. v.at_id j e (lookup-remove_cases id j e m.devices h).1;
}

new_connection-ConnValid :
    (max sport dport tag : ℕ) (m : Assoc ℕ Connection)
    → first_free port_count 1024 m ≡ some sport
    → ConnValid max sport (new_connection sport dport tag)
unfolding new_connection
new_connection-ConnValid max sport dport tag m e =
    let f = first_free-IsFirstFree port_count 1024 m e in
    record {
      own_port = refl;
      low = f.above;
      high = omega (arith, f.below);
      buffered = omega arith;
      entered = inl refl;
    }

-- `start_connect` keeps the table valid, whether it finds the device and a port or not.
pub start_connect-IsValid :
    (max : ℕ) (m : ConnectionManager) (device_id dport tag : ℕ)
    → IsValid max m
    → IsValid max (start_connect m device_id dport tag).0
unfolding start_connect
start_connect-IsValid max m device_id dport tag v =
    elim (Option-cases (Assoc.lookup device_id m.devices)) [
      | inl missing ↦ rw (missing, start_connect) v
      | inr (d, found) ↦ elim (Option-cases (first_free port_count 1024 d.connections)) [
        | inl full ↦ rw (found, full, start_connect) v
        | inr (sport, free) ↦
            rw (found, free, start_connect)
              (adjust-IsValid max device_id m _ v (
                insert-DeviceValid max sport d _ (v.at_id device_id d found)
                  (new_connection-ConnValid max sport dport tag d.connections free)))
      ]
    ]

-- What the flag tests do to the connection of a packet, as far as the invariant is concerned.
pub handle_on_conn-ConnValid :
    (max key device_id : ℕ) (d : MuxDevice) (c : Connection) (h : TcpHeader) (payload : Bytes)
    (metrics : Metrics)
    → ConnValid max key c
    → ConnValid max key (handle_on_conn device_id d c h payload metrics max).conn
      × ((handle_on_conn device_id d c h payload metrics max).device.connections ≡ d.connections)
unfolding handle_on_conn on_syn_ack on_data
handle_on_conn-ConnValid max key device_id d c h payload metrics v =
    ground (arith, length-append c.ib_buf payload)

-- Handling a packet keeps the connection table valid: connections stand under their own source
-- ports, in states that the code sets, with no more than the maximum buffered.
pub handle_tcp_packet-IsValid :
    (max : ℕ) (m : ConnectionManager) (device_id : ℕ) (h : TcpHeader) (payload : Bytes)
    (metrics : Metrics)
    → IsValid max m
    → IsValid max (handle_tcp_packet m device_id h payload metrics max).manager
unfolding handle_tcp_packet
handle_tcp_packet-IsValid max m device_id h payload metrics v =
    elim (Option-cases (Assoc.lookup device_id m.devices)) [
      | inl missing ↦ rw (missing, handle_tcp_packet) v
      | inr (d, found) ↦ elim (Option-cases (conn_key h d.connections)) [
        | inl stray ↦ rw (found, stray, handle_tcp_packet) v
        | inr (key, k) ↦ elim (Option-cases (Assoc.lookup key d.connections)) [
          | inl gone ↦ rw (found, k, gone, handle_tcp_packet) v
          | inr (c, l) ↦
              let w = v.at_id device_id d found in
              let (c', same) =
                handle_on_conn-ConnValid max key device_id d c h payload metrics
                  (w.at_port key c l) in
              rw (found, k, l, handle_tcp_packet)
                (adjust-IsValid max device_id m _ v
                  (adjust-DeviceValid max key _ _ (connections-DeviceValid max d _ same w) c'))
        ]
      ]
    ]
