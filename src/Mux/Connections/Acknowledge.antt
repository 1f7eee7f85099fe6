-- ===== src/Mux/Connections/Acknowledge.antt =====
-- The acknowledgement that answers a data segment, as the device parses it.
use ius.Base.{
  ℕ, ◌+◌, ◌*◌, ◌-◌, ◌≤◌, ◌≡◌, refl, ◌≢◌, ◌⊎◌, inl, inr, none, true, List, [], ◌∷◌, ◌++◌, length,
  length-append, ltb, le→ltb, Bool-cases, ok, arith,
}
use ius.Base.Words.{Bytes, u32, IsU16, IsU32, wrapping_add32}
use ius.Metrics.{Metrics}
use ius.Mux.Types.{TcpHeader, tcp_packet}
use ius.Mux.Frame.{parse_packet, scaled_window}
use ius.Mux.Frame.RoundTrip.{
  segment_header, parse_packet-build_tcp_packet_v2, parse_packet-build_tcp_packet_v1,
}
use ius.Mux.Frame.Window.{scaled_window_bounds}
use ius.Mux.Connections.{
  Connection, MuxDevice, ConnectionManager, ack_packet, on_data, handle_tcp_packet,
}
use ius.Mux.Connections.Validity.{IsValid}
use ius.Mux.Connections.Delivery.{Addresses, handle_tcp_packet_routes}
use ius.Mux.Connections.Stream.{IsData, handle_on_conn-IsData}

-- The fields that go on the wire fit their widths, and a v1 frame cannot be taken for a v2 one.
pub record FitsWire (d : MuxDevice) (c : Connection) : Type 0 where
  pub tx_seq : IsU16 d.tx_seq
  pub rx_seq : IsU16 d.rx_seq
  pub source_port : IsU16 c.source_port
  pub dest_port : IsU16 c.dest_port
  pub conn_seq : IsU32 c.tx_seq
  pub unmagic :
      ltb d.version 2 ≡ true
      → (c.dest_port ≢ 0xFACE) ⊎ ((c.source_port ≢ 0xFEED) × (c.source_port ≢ 0xFACE))

parse_packet-ack_packet :
    (d : MuxDevice) (c : Connection) (window : ℕ)
    → FitsWire d c
    → IsU32 c.tx_ack
    → IsU16 window
    → parse_packet (ack_packet d c window)
      ≡ ok (tcp_packet (segment_header c.source_port c.dest_port c.tx_seq c.tx_ack 16 window) [])
parse_packet-ack_packet d c window f ha hw = elim (Bool-cases (ltb d.version 2)) [
  | inl v1 ↦ rw v1 (
      parse_packet-build_tcp_packet_v1 c.source_port c.dest_port c.tx_seq c.tx_ack 16 window none
        f.source_port f.dest_port f.conn_seq ha (omega arith) hw (omega arith) (f.unmagic v1))
  | inr v2 ↦ rw v2 (
      parse_packet-build_tcp_packet_v2 d.tx_seq d.rx_seq c.source_port c.dest_port c.tx_seq c.tx_ack
        16 window none f.tx_seq f.rx_seq f.source_port f.dest_port f.conn_seq ha (omega arith) hw
        (omega arith))
]

-- What the device reads in the answer to a data segment.
pub record IsAcknowledged (max : ℕ) (c : Connection) (h : TcpHeader) (payload : Bytes)
    (queue : List Bytes) : Type 0 where
  pub window : ℕ
  pub packet : Bytes
  pub only : queue ≡ packet ∷ []
  pub parses :
      parse_packet packet
      ≡ ok (
          tcp_packet
            (segment_header c.source_port c.dest_port c.tx_seq
              (wrapping_add32 h.seq (u32 (length payload)))
              16
              window)
            [])
  pub window_fits : length c.ib_buf + length payload + window * 256 ≤ max

on_data-IsAcknowledged :
    (max id : ℕ) (d : MuxDevice) (c : Connection) (h : TcpHeader) (payload : Bytes)
    (metrics : Metrics)
    → FitsWire d c
    → length c.ib_buf + length payload ≤ max
    → IsAcknowledged max c h payload (on_data id d c h payload metrics max).send_queue
unfolding on_data
on_data-IsAcknowledged max id d c h payload metrics f fits =
    let w = scaled_window (max - length (c.ib_buf ++ payload)) in
    let c' = record c {
      tx_ack = wrapping_add32 h.seq (u32 (length payload));
      ib_buf = c.ib_buf ++ payload;
    } in
    let (free, small, _) = scaled_window_bounds (max - length (c.ib_buf ++ payload)) in
    rw (le→ltb max (length c.ib_buf + length payload) fits) (record {
      window = w;
      packet = ack_packet d c' w;
      only = refl;
      parses =
          parse_packet-ack_packet d c' w
            (record {
              tx_seq = f.tx_seq;
              rx_seq = f.rx_seq;
              source_port = f.source_port;
              dest_port = f.dest_port;
              conn_seq = f.conn_seq;
              unmagic = f.unmagic;
            })
            (omega arith) (omega (arith, small));
      window_fits = omega (arith, free, length-append c.ib_buf payload);
    })

-- A data segment that fits the buffer of a valid table's connection is answered by one packet, which
-- parses to an acknowledgement of the segment's last byte, and whose window promises no more than
-- the buffer has left: if the fields that go on the wire fit their widths and, on a device before
-- version 2, the two ports do not spell a magic.
pub handle_tcp_packet-IsAcknowledged :
    (max : ℕ) (m : ConnectionManager) (id : ℕ) (h : TcpHeader) (d : MuxDevice) (c : Connection)
    (payload : Bytes) (metrics : Metrics)
    → IsValid max m
    → Addresses m id h d c
    → IsData h payload
    → FitsWire d c
    → length c.ib_buf + length payload ≤ max
    → IsAcknowledged max c h payload (handle_tcp_packet m id h payload metrics max).send_queue
handle_tcp_packet-IsAcknowledged max m id h d c payload metrics v a s f fits =
    rw
      (
        (handle_tcp_packet_routes max m id h d c payload metrics v a id h.dest_port).2,
        handle_on_conn-IsData id d c h payload metrics max s,
      )
      (on_data-IsAcknowledged max id d c h payload metrics f fits)
