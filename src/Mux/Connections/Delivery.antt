-- ===== src/Mux/Connections/Delivery.antt =====
-- What a packet of the device does to the connection that it belongs to, and to the others.
use ius.Base.{ℕ, ◌≡◌, refl, ◌&&◌, Option, none, some, ℕ-eq, nat_eq, if◌then◌else◌, arith}
use ius.Base.Words.{Bytes}
use ius.Base.Assoc
use ius.Base.Assoc.{Assoc, lookup-adjust}
use ius.Metrics.{Metrics}
use ius.Mux.Types.{TcpHeader}
use ius.Mux.Connections.{
  Connection, MuxDevice, ConnectionManager, Handled, handle_on_conn, store, handle_tcp_packet,
}
use ius.Mux.Connections.Ports.{conn_key_exact}
use ius.Mux.Connections.Validity.{IsValid, handle_on_conn-ConnValid}

-- The connection under a port of a device.
abbrev pub conn_at : ConnectionManager → ℕ → ℕ → Option Connection
conn_at m id port = elim (Assoc.lookup id m.devices) [
  | none ↦ none
  | some d ↦ Assoc.lookup port d.connections
]

-- A packet from the port that connection `c` of device `d` was made to, addressed to `c`.
pub record Addresses (m : ConnectionManager) (id : ℕ) (h : TcpHeader) (d : MuxDevice)
    (c : Connection) : Type 0 where
  pub device : Assoc.lookup id m.devices ≡ some d
  pub conn : Assoc.lookup h.dest_port d.connections ≡ some c
  pub peer : c.dest_port ≡ h.source_port

conn_at-store :
    (m : ConnectionManager) (id key j port : ℕ) (r : Handled) (d : MuxDevice) (c : Connection)
    → Assoc.lookup id m.devices ≡ some d
    → Assoc.lookup key d.connections ≡ some c
    → r.device.connections ≡ d.connections
    → conn_at (store m id key r).manager j port
      ≡ (if nat_eq id j && nat_eq key port then some r.conn else conn_at m j port)
conn_at-store m id key j port r d c found l same = ground (
  arith,
  lookup-adjust id j
      (λ (_ : MuxDevice). record r.device {
        connections = Assoc.adjust key (λ _. r.conn) r.device.connections;
      })
      m.devices,
  lookup-adjust key port (λ (_ : Connection). r.conn) r.device.connections,
)

module _ (max : ℕ) (m : ConnectionManager) (id : ℕ) (h : TcpHeader) (d : MuxDevice) (c : Connection)
    (payload : Bytes) (metrics : Metrics) (v : IsValid max m) (a : Addresses m id h d c) where
  handle_tcp_packet-store :
      handle_tcp_packet m id h payload metrics max
      ≡ store m id h.dest_port (handle_on_conn id d c h payload metrics max)
  unfolding handle_tcp_packet
  handle_tcp_packet-store =
      let w = v.at_id id d a.device in
      rw (
        a.device,
        conn_key_exact h d.connections c w.is_map (λ k e l. (w.at_port k e l).own_port) a.conn
            a.peer,
        a.conn,
        handle_tcp_packet,
      )

  -- In a valid table a packet to a connection from its peer port changes that connection as the
  -- flag tests say, and no other of this or another device.
  pub handle_tcp_packet_routes :
      (j port : ℕ)
      → (conn_at (handle_tcp_packet m id h payload metrics max).manager j port ≡ (
          if nat_eq id j && nat_eq h.dest_port port
          then some (handle_on_conn id d c h payload metrics max).conn
          else conn_at m j port))
        × ((handle_tcp_packet m id h payload metrics max).events
            ≡ (handle_on_conn id d c h payload metrics max).events)
        × ((handle_tcp_packet m id h payload metrics max).send_queue
            ≡ (handle_on_conn id d c h payload metrics max).send_queue)
        × ((handle_tcp_packet m id h payload metrics max).metrics
            ≡ (handle_on_conn id d c h payload metrics max).metrics)
  handle_tcp_packet_routes j port = rw handle_tcp_packet-store (
    conn_at-store m id h.dest_port j port (handle_on_conn id d c h payload metrics max) d c a.device
        a.conn
        (handle_on_conn-ConnValid max h.dest_port id d c h payload metrics
          ((v.at_id id d a.device).at_port h.dest_port c a.conn)).1,
    refl,
    refl,
    refl,
  )
