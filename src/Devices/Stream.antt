-- ===== src/Devices/Stream.antt =====
-- What the device reads of the data that a client sends, and how the connection counts it.
use mathlib.Core.List.{flatten}
use mathlib.Core.Option
use ius.Base.{
  ℕ, ◌+◌, ◌%◌, ◌≡◌, refl, ap, ◌∙◌, ◌⊎◌, inl, inr, Bool, false, ◌&&◌, some, List, [], ◌∷◌, ◌++◌,
  ℕ-eq, nat_eq, ltb, if◌then◌else◌, Bool-cases, Option-cases, length, length-append, append_assoc,
  append-nil, ok, arith,
}
use ius.Base.Words.{Bytes, u32, IsU32, wrapping_add16, wrapping_add32}
use ius.Base.Assoc
use ius.Base.Assoc.{lookup-adjust}
use ius.Metrics.{Metrics}
use ius.Mux.Types.{connected, tcp_packet}
use ius.Mux.Frame.{parse_packet}
use ius.Mux.Frame.RoundTrip.{
  segment_header, parse_packet-build_tcp_packet_v2, parse_packet-build_tcp_packet_v1,
}
use ius.Mux.Connections.{ConnectionManager, MuxDevice, Connection}
use ius.Mux.Connections.Delivery.{conn_at}
use ius.Mux.Connections.Acknowledge.{FitsWire}
use ius.Devices.Sending.{
  client_data_packet, data_packet, count_data, count_client_data, send_client_data,
}

-- A connected connection under its own port.
pub record IsOpen (m : ConnectionManager) (id sport : ℕ) (d : MuxDevice) (c : Connection)
    : Type 0 where
  pub device : Assoc.lookup id m.devices ≡ some d
  pub conn : Assoc.lookup sport d.connections ≡ some c
  pub own_port : c.source_port ≡ sport
  pub state : c.state ≡ connected

client_data_packet-IsOpen :
    (m : ConnectionManager) (id sport : ℕ) (d : MuxDevice) (c : Connection) (payload : Bytes)
    → IsOpen m id sport d c
    → client_data_packet m id sport payload ≡ some (data_packet d c sport payload)
unfolding client_data_packet
client_data_packet-IsOpen m id sport d c payload o =
    rw (o.device, o.conn, client_data_packet, o.state)

parse_packet-data_packet :
    (d : MuxDevice) (c : Connection) (payload : Bytes)
    → FitsWire d c
    → IsU32 c.tx_ack
    → IsU32 (36 + length payload)
    → parse_packet (data_packet d c c.source_port payload)
      ≡ ok (tcp_packet (segment_header c.source_port c.dest_port c.tx_seq c.tx_ack 16 512) payload)
parse_packet-data_packet d c payload f ha hl = elim (Bool-cases (ltb d.version 2)) [
  | inl v1 ↦ rw v1 (
      parse_packet-build_tcp_packet_v1 c.source_port c.dest_port c.tx_seq c.tx_ack 16 512
        (some payload) f.source_port f.dest_port f.conn_seq ha (omega arith) (omega arith)
        (omega arith) (f.unmagic v1))
  | inr v2 ↦ rw v2 (
      parse_packet-build_tcp_packet_v2 d.tx_seq d.rx_seq c.source_port c.dest_port c.tx_seq c.tx_ack
        16 512 (some payload) f.tx_seq f.rx_seq f.source_port f.dest_port f.conn_seq ha
        (omega arith) (omega arith) hl)
]

pub conn_at-count_client_data :
    (m : ConnectionManager) (id sport j p : ℕ) (payload : Bytes)
    → conn_at (count_client_data m id sport payload) j p ≡ (
        if nat_eq id j && nat_eq sport p
        then Option.map (count_data payload) (conn_at m j p)
        else conn_at m j p)
unfolding count_client_data
conn_at-count_client_data m id sport j p payload = elim (Option-cases (Assoc.lookup j m.devices)) [
  | inl missing ↦ ground (
    arith,
    lookup-adjust id j
        (λ (d : MuxDevice). record d {
          tx_seq = wrapping_add16 d.tx_seq 1;
          connections = Assoc.adjust sport (count_data payload) d.connections;
        })
        m.devices,
  )
  | inr (d, found) ↦ ground (
    arith,
    lookup-adjust id j
        (λ (d : MuxDevice). record d {
          tx_seq = wrapping_add16 d.tx_seq 1;
          connections = Assoc.adjust sport (count_data payload) d.connections;
        })
        m.devices,
    lookup-adjust sport p (count_data payload) d.connections,
  )
]

-- The sequence number and the sent bytes advanced by a payload.
abbrev pub advanced : Bytes → Connection → Connection
advanced payload c = record c {
  tx_seq = (c.tx_seq + length payload) % 4294967296;
  ob_buf = c.ob_buf ++ payload;
}

pub count_data-advanced :
    (payload : Bytes) (c : Connection) → count_data payload c ≡ advanced payload c
count_data-advanced payload c =
    ap (λ (n : ℕ). record c { tx_seq = n; ob_buf = c.ob_buf ++ payload }) same
  where
    same : wrapping_add32 c.tx_seq (u32 (length payload)) ≡ (c.tx_seq + length payload) % 4294967296
    same = omega arith

conn_at-advanced :
    (m : ConnectionManager) (id sport j p : ℕ) (payload : Bytes)
    → conn_at (count_client_data m id sport payload) j p ≡ (
        if nat_eq id j && nat_eq sport p
        then Option.map (advanced payload) (conn_at m j p)
        else conn_at m j p)
conn_at-advanced m id sport j p payload = elim (Option-cases (conn_at m j p)) [
  | inl missing ↦ ground (arith, conn_at-count_client_data m id sport j p payload)
  | inr (c, found) ↦
      ground
        (arith, conn_at-count_client_data m id sport j p payload, count_data-advanced payload c)
]

-- What sending a payload on connection `c` of device `d` does.
pub record IsSent (m : ConnectionManager) (id : ℕ) (d : MuxDevice) (c : Connection)
    (payload : Bytes) (after : ConnectionManager) (sent : List Bytes) : Type 0 where
  pub packet : Bytes
  pub only : sent ≡ packet ∷ []
  pub parses :
      parse_packet packet
      ≡ ok (tcp_packet (segment_header c.source_port c.dest_port c.tx_seq c.tx_ack 16 512) payload)
  pub conns :
      (j p : ℕ)
      → conn_at after j p ≡ (
          if nat_eq id j && nat_eq c.source_port p
          then Option.map (advanced payload) (conn_at m j p)
          else conn_at m j p)

-- With wire fields within their widths and, on a device before version 2, two ports that do not
-- spell a magic, a payload for a connected connection goes out as one packet, which parses to the
-- payload under the connection's sequence number, and that number and the sent bytes of this
-- connection alone advance by the payload; or the send fails and the table is as it was.
pub send_client_data-IsSent :
    (send : Bytes → Bool) (m : ConnectionManager) (id sport : ℕ) (d : MuxDevice) (c : Connection)
    (payload : Bytes) (metrics : Metrics)
    → IsOpen m id sport d c
    → FitsWire d c
    → IsU32 c.tx_ack
    → IsU32 (36 + length payload)
    → (IsSent m id d c payload
        (send_client_data send m id sport payload metrics).manager
        (send_client_data send m id sport payload metrics).sent)
      ⊎ ((send_client_data send m id sport payload metrics).manager ≡ m)
        × (send (data_packet d c sport payload) ≡ false)
unfolding send_client_data
send_client_data-IsSent send m id sport d c payload metrics o f ha hl =
    elim (Bool-cases (send (data_packet d c sport payload))) [
      | inr failed ↦ inr (
        rw (client_data_packet-IsOpen m id sport d c payload o, send_client_data, failed),
        failed,
      )
      | inl good ↦ inl (
          rw (client_data_packet-IsOpen m id sport d c payload o, send_client_data, good)
            (record {
              packet = data_packet d c sport payload;
              only = refl;
              parses = rw (← o.own_port) (parse_packet-data_packet d c payload f ha hl);
              conns = λ j p. rw o.own_port (conn_at-advanced m id sport j p payload);
            }))
    ]

-- The table after successful sends of the payloads.
unfoldable pub count_all : ConnectionManager → (id sport : ℕ) → List Bytes → ConnectionManager
count_all m id sport [] = m
count_all m id sport (payload ∷ payloads) =
    count_all (count_client_data m id sport payload) id sport payloads

count_all-count_data :
    (m : ConnectionManager) (id sport : ℕ) (c : Connection) (payloads : List Bytes)
    → IsU32 c.tx_seq
    → conn_at m id sport ≡ some c
    → conn_at (count_all m id sport payloads) id sport ≡ some (count_data (flatten payloads) c)
unfolding count_all flatten
count_all-count_data m id sport c [] h l =
    l ∙ ap some (ap (λ (p : ℕ × Bytes). record c { tx_seq = p.0; ob_buf = p.1 }) (same c h))
  where
    same :
        (c : Connection)
        → IsU32 c.tx_seq
        → ◌≡◌ {A = ℕ × Bytes} (c.tx_seq, c.ob_buf) (wrapping_add32 c.tx_seq 0, c.ob_buf ++ [])
    same c h = ground (arith, append-nil c.ob_buf)
count_all-count_data m id sport c (payload ∷ payloads) h l =
    count_all-count_data (count_client_data m id sport payload) id sport (count_data payload c)
      payloads (omega arith) (ground (arith, conn_at-count_client_data m id sport id sport payload))
    ∙ ap some (ap (λ (p : ℕ × Bytes). record c { tx_seq = p.0; ob_buf = p.1 }) joined)
  where
    joined :
        ◌≡◌ {A = ℕ × Bytes}
          (
            wrapping_add32
                (wrapping_add32 c.tx_seq (u32 (length payload)))
                (u32 (length (flatten payloads))),
            (c.ob_buf ++ payload) ++ flatten payloads,
          )
          (
            wrapping_add32 c.tx_seq (u32 (length (payload ++ flatten payloads))),
            c.ob_buf ++ (payload ++ flatten payloads),
          )
    joined = λ i. (seqs i, append_assoc c.ob_buf payload (flatten payloads) i)
      where
        seqs :
            wrapping_add32
              (wrapping_add32 c.tx_seq (u32 (length payload)))
              (u32 (length (flatten payloads)))
            ≡ wrapping_add32 c.tx_seq (u32 (length (payload ++ flatten payloads)))
        seqs = omega (arith, length-append payload (flatten payloads))

-- Payloads counted one after the other leave the sequence number where their concatenation would,
-- modulo 2^32, and the concatenation behind the bytes sent before.
pub count_all-flatten :
    (m : ConnectionManager) (id sport : ℕ) (c : Connection) (payloads : List Bytes)
    → IsU32 c.tx_seq
    → conn_at m id sport ≡ some c
    → conn_at (count_all m id sport payloads) id sport ≡ some (advanced (flatten payloads) c)
count_all-flatten m id sport c payloads h l =
    count_all-count_data m id sport c payloads h l
    ∙ ap some (count_data-advanced (flatten payloads) c)
