-- ===== src/Clients/Proxy.antt =====
-- What reaches the client of the bytes that the device sends, with the drains of the proxy between
-- the packets in any order.
use ius.Base.{
  ℕ, ◌+◌, ◌≤◌, ◌≡◌, refl, sym, ap, ◌∙◌, inl, inr, some, List, [], ◌∷◌, ◌++◌, ℕ-eq, Option-cases,
  length, length-append, append_assoc, append-nil, arith,
}
use ius.Base.Words.{Bytes}
use ius.Base.Assoc
use ius.Base.Assoc.{
  lookup-adjust, adjust-IsMap, remove-IsMap, lookup-remove_cases, lookup-adjust-some,
}
use ius.Metrics.{Metrics}
use ius.Mux.Types.{TcpHeader, connected}
use ius.Mux.Connections.{ConnectionManager, MuxDevice, Connection, handle_tcp_packet}
use ius.Mux.Connections.Validity.{
  IsValid, ConnValid, adjust-IsValid, adjust-DeviceValid, handle_tcp_packet-IsValid,
}
use ius.Mux.Connections.Delivery.{conn_at}
use ius.Mux.Connections.Stream.{IsData, deliver_one}
use ius.Clients.{Round, ended, took, take_from, drain_inbound}

take_from-ConnValid :
    (max k : ℕ) (c : Connection) → ConnValid max k c → ConnValid max k (take_from c).1
take_from-ConnValid max k c v = record {
  own_port = ground (arith, v.own_port);
  low = v.low;
  high = v.high;
  buffered = ground (arith, v.buffered);
  entered = ground (arith, v.entered);
}

-- A drain keeps the connection table valid.
pub drain_inbound-IsValid :
    (max : ℕ) (m : ConnectionManager) (id sport : ℕ)
    → IsValid max m
    → IsValid max (drain_inbound m id sport).0
unfolding drain_inbound
drain_inbound-IsValid max m id sport v = elim (Option-cases (Assoc.lookup id m.devices)) [
  | inl missing ↦ rw (missing, drain_inbound) v
  | inr (d, found) ↦ elim (Option-cases (Assoc.lookup sport d.connections)) [
    | inl missing ↦ rw (found, missing, drain_inbound) v
    | inr (c, l) ↦
        let w = v.at_id id d found in
        rw (found, l, drain_inbound)
          (adjust-IsValid max id m _ v (
            adjust-DeviceValid max sport d (take_from c).1 w
              (take_from-ConnValid max sport c (w.at_port sport c l))))
  ]
]

drained :
    (m : ConnectionManager) (id sport : ℕ) (c : Connection)
    → conn_at m id sport ≡ some c
    → c.state ≡ connected
    → ((drain_inbound m id sport).1 ≡ took c.ib_buf)
      × (conn_at (drain_inbound m id sport).0 id sport ≡ some (record c { ib_buf = [] }))
unfolding drain_inbound
drained m id sport c at up = elim (Option-cases (Assoc.lookup id m.devices)) [
  | inl missing ↦ ground arith
  | inr (d, found) ↦
      let l : Assoc.lookup sport d.connections ≡ some c = ground arith in
      (
        rw (found, l, drain_inbound, up) refl,
        rw (found, l, drain_inbound)
            (ground (
              arith,
              lookup-adjust id id
                  (λ (_ : MuxDevice). record d {
                    connections = Assoc.adjust sport (λ _. (take_from c).1) d.connections;
                  })
                  m.devices,
              lookup-adjust sport sport (λ (_ : Connection). (take_from c).1) d.connections,
            )),
      )
]

-- A packet from the device, or a drain by the proxy.
pub data Event : Type 0 where
  segment : TcpHeader → Bytes → Event
  drain : Event

abbrev pub taken : Round → Bytes
taken (ended _) = []
taken (took bytes) = bytes

-- The table after the events, and all that the drains took.
unfoldable pub relay :
    ConnectionManager → (id sport : ℕ) → Metrics → ℕ → List Event → ConnectionManager × Bytes
relay m id sport metrics max [] = (m, [])
relay m id sport metrics max (segment h payload ∷ events) =
    let r = handle_tcp_packet m id h payload metrics max in
    relay r.manager id sport r.metrics max events
relay m id sport metrics max (drain ∷ events) =
    let (m', round) = drain_inbound m id sport in
    let (last, later) = relay m' id sport metrics max events in (last, taken round ++ later)

-- Data segments from port `peer` to port `port`, each of which finds room behind the `buffered`
-- bytes that the drains have left.
abbrev pub FindRoom : (max peer port buffered : ℕ) → List Event → Type 0
FindRoom max peer port buffered [] = Unit
FindRoom max peer port buffered (segment h payload ∷ events) =
    (h.dest_port ≡ port)
    × (h.source_port ≡ peer)
    × IsData h payload
    × (buffered + length payload ≤ max)
    × FindRoom max peer port (buffered + length payload) events
FindRoom max peer port buffered (drain ∷ events) = FindRoom max peer port 0 events

abbrev pub received : List Event → Bytes
received [] = []
received (segment h payload ∷ events) = payload ++ received events
received (drain ∷ events) = received events

-- With the data packets of a connected connection and the proxy's drains in any order, and room for
-- each packet when it comes, what the drains took and what is still buffered is what was buffered
-- and then received: no byte is lost, repeated or moved.
pub relay_in_order :
    (max : ℕ) (m : ConnectionManager) (id port : ℕ) (c : Connection) (metrics : Metrics)
    (events : List Event)
    → IsValid max m
    → conn_at m id port ≡ some c
    → c.state ≡ connected
    → FindRoom max c.dest_port port (length c.ib_buf) events
    → (c' : Connection) × (conn_at (relay m id port metrics max events).0 id port ≡ some c')
      × ((relay m id port metrics max events).1 ++ c'.ib_buf ≡ c.ib_buf ++ received events)
unfolding relay
relay_in_order max m id port c metrics [] v at up room = (c, at, sym (append-nil c.ib_buf))
relay_in_order max m id port c metrics (segment h payload ∷ events) v at up
      (to_port, from_peer, s, fits, room) =
    let (c', at', buffered, peer, state, counted) =
      deliver_one max m id port c h payload metrics v at to_port from_peer s fits in
    let (c'', at'', all) =
      relay_in_order max (handle_tcp_packet m id h payload metrics max).manager id port c'
        (handle_tcp_packet m id h payload metrics max).metrics events
        (handle_tcp_packet-IsValid max m id h payload metrics v) at' (state ∙ up)
        (rw (peer, buffered, length-append c.ib_buf payload) room) in
    (c'', at'', all ∙ rw (buffered, append_assoc c.ib_buf payload (received events)))
relay_in_order max m id port c metrics (drain ∷ events) v at up room =
    let (round, at') = drained m id port c at up in
    let (c'', at'', all) =
      relay_in_order max (drain_inbound m id port).0 id port (record c { ib_buf = [] }) metrics
        events (drain_inbound-IsValid max m id port v) at' up room in
    (
      c'',
      at'',
      ap
            (λ (r : Round).
              (taken r ++ (relay (drain_inbound m id port).0 id port metrics max events).1)
              ++ c''.ib_buf)
            round
          ∙ append_assoc c.ib_buf (relay (drain_inbound m id port).0 id port metrics max events).1
              c''.ib_buf
          ∙ ap (λ (bytes : Bytes). c.ib_buf ++ bytes) all,
    )
