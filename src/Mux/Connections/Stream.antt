-- ===== src/Mux/Connections/Stream.antt =====
-- A run of data segments to one connection.
use ius.Base.{
  ℕ, ◌+◌, ◌≤◌, ◌≡◌, refl, sym, ap, ◌∙◌, inl, inr, false, ◌&&◌, some, List, [], ◌∷◌, ◌++◌,
  append_assoc, append-nil, ℕ-eq, nat_eq_iff, Option-cases, length, length-append, le→ltb, is_empty,
  arith,
}
use ius.Base.Words.{Bytes}
use ius.Base.Assoc
use ius.Metrics.{Metrics}
use ius.Mux.Types.{TcpHeader, flags, has_flag, tcp_syn, tcp_ack_flag, tcp_rst, tcp_fin}
use ius.Mux.Connections.{
  Connection, MuxDevice, ConnectionManager, handle_on_conn, on_data, handle_tcp_packet,
}
use ius.Mux.Connections.Validity.{IsValid, handle_tcp_packet-IsValid}
use ius.Mux.Connections.Delivery.{conn_at, Addresses, handle_tcp_packet_routes}

-- A segment that carries data and neither opens nor closes a connection.
pub record IsData (h : TcpHeader) (payload : Bytes) : Type 0 where
  pub no_syn_ack : (has_flag (flags h) tcp_syn && has_flag (flags h) tcp_ack_flag) ≡ false
  pub no_rst : has_flag (flags h) tcp_rst ≡ false
  pub no_fin : has_flag (flags h) tcp_fin ≡ false
  pub carries : is_empty payload ≡ false

pub handle_on_conn-IsData :
    (id : ℕ) (d : MuxDevice) (c : Connection) (h : TcpHeader) (payload : Bytes) (metrics : Metrics)
    (max : ℕ)
    → IsData h payload
    → handle_on_conn id d c h payload metrics max ≡ on_data id d c h payload metrics max
unfolding handle_on_conn
handle_on_conn-IsData id d c h payload metrics max s =
    rw (s.no_syn_ack, s.no_rst, s.no_fin, s.carries)

conn_at-some :
    (m : ConnectionManager) (id : ℕ) (h : TcpHeader) (c : Connection)
    → conn_at m id h.dest_port ≡ some c
    → c.dest_port ≡ h.source_port
    → (d : MuxDevice) × Addresses m id h d c
conn_at-some m id h c e p = elim (Option-cases (Assoc.lookup id m.devices)) [
  | inl missing ↦ ground arith
  | inr (d, found) ↦ (d, record { device = found; conn = ground arith; peer = p })
]

-- The packets handled one after the other.
abbrev pub Segment : Type 0
Segment = TcpHeader × Bytes

unfoldable pub deliver :
    ConnectionManager → ℕ → Metrics → ℕ → List Segment → ConnectionManager × Metrics
deliver m id metrics max [] = (m, metrics)
deliver m id metrics max ((h, payload) ∷ rest) =
    let r = handle_tcp_packet m id h payload metrics max in deliver r.manager id r.metrics max rest

-- Segments of data from port `peer` of the device to port `port`.
abbrev pub AreData : (peer port : ℕ) → List Segment → Type 0
AreData peer port [] = Unit
AreData peer port ((h, payload) ∷ rest) =
    (h.dest_port ≡ port) × (h.source_port ≡ peer) × IsData h payload × AreData peer port rest

abbrev pub payloads : List Segment → Bytes
payloads [] = []
payloads ((h, payload) ∷ rest) = payload ++ payloads rest

on_data-buffered :
    (id : ℕ) (d : MuxDevice) (c : Connection) (h : TcpHeader) (payload : Bytes) (metrics : Metrics)
    (max : ℕ)
    → length c.ib_buf + length payload ≤ max
    → ((on_data id d c h payload metrics max).conn.ib_buf ≡ c.ib_buf ++ payload)
      × ((on_data id d c h payload metrics max).conn.dest_port ≡ c.dest_port)
      × ((on_data id d c h payload metrics max).conn.state ≡ c.state)
      × ((on_data id d c h payload metrics max).metrics ≡ metrics)
unfolding on_data
on_data-buffered id d c h payload metrics max fits =
    rw (le→ltb max (length c.ib_buf + length payload) fits) (refl, refl, refl, refl)

pub deliver_one :
    (max : ℕ) (m : ConnectionManager) (id port : ℕ) (c : Connection) (h : TcpHeader)
    (payload : Bytes) (metrics : Metrics)
    → IsValid max m
    → conn_at m id port ≡ some c
    → h.dest_port ≡ port
    → h.source_port ≡ c.dest_port
    → IsData h payload
    → length c.ib_buf + length payload ≤ max
    → (c' : Connection) × (conn_at (handle_tcp_packet m id h payload metrics max).manager id port
        ≡ some c')
      × (c'.ib_buf ≡ c.ib_buf ++ payload)
      × (c'.dest_port ≡ c.dest_port)
      × (c'.state ≡ c.state)
      × ((handle_tcp_packet m id h payload metrics max).metrics ≡ metrics)
deliver_one max m id port c h payload metrics v at to_port from_peer s fits =
    let (d, a) = conn_at-some m id h c (rw to_port at) (sym from_peer) in
    let (buffered, peer, state, counted) = on_data-buffered id d c h payload metrics max fits in
    let (conn, _, _, counters) =
      handle_tcp_packet_routes max m id h d c payload metrics v a id port in
    let opened = handle_on_conn-IsData id d c h payload metrics max s in
    (
      (on_data id d c h payload metrics max).conn,
      conn ∙ rw (opened, (nat_eq_iff id id).1 refl, (nat_eq_iff h.dest_port port).1 to_port),
      buffered,
      peer,
      state,
      counters ∙ rw opened counted,
    )

-- While the buffer has room, a run of data segments to a connection leaves their bytes in its
-- buffer, in order and behind what was there; the state and the metrics stay.
pub deliver_in_order :
    (max : ℕ) (m : ConnectionManager) (id port : ℕ) (c : Connection) (metrics : Metrics)
    (segments : List Segment)
    → IsValid max m
    → conn_at m id port ≡ some c
    → AreData c.dest_port port segments
    → length c.ib_buf + length (payloads segments) ≤ max
    → (c' : Connection) × (conn_at (deliver m id metrics max segments).0 id port ≡ some c')
      × (c'.ib_buf ≡ c.ib_buf ++ payloads segments)
      × (c'.state ≡ c.state)
      × ((deliver m id metrics max segments).1 ≡ metrics)
unfolding deliver
deliver_in_order max m id port c metrics [] v at s fits =
    (c, at, sym (append-nil c.ib_buf), refl, refl)
deliver_in_order max m id port c metrics ((h, payload) ∷ rest) v at (to_port, from_peer, s, more)
      fits =
    let (c', at', buffered, peer, state, counted) =
      deliver_one max m id port c h payload metrics v at to_port from_peer s
        (omega (arith, length-append payload (payloads rest))) in
    let (c'', at'', all, state', counted') =
      deliver_in_order max (handle_tcp_packet m id h payload metrics max).manager id port c'
        (handle_tcp_packet m id h payload metrics max).metrics rest
        (handle_tcp_packet-IsValid max m id h payload metrics v) at' (rw peer more)
        (omega (
          arith,
          ap length buffered,
          length-append c.ib_buf payload,
          length-append payload (payloads rest),
        )) in
    (
      c'',
      at'',
      all ∙ rw (buffered, append_assoc c.ib_buf payload (payloads rest)),
      state' ∙ state,
      counted' ∙ counted,
    )
