-- ===== src/Devices/Requests.antt =====
-- What a connect request sends, counts and leaves behind.
use ius.Base.{
  ℕ, ◌≡◌, refl, ap, ◌∙◌, ◌≢◌, ◌⊎◌, inl, inr, Bool, Option, none, some, List, [], ◌∷◌, ltb, ℕ-eq,
  Bool-cases, Option-cases, Outcome, ok, err, Outcome-cases, arith,
}
use ius.Base.Words.{Bytes, IsU16}
use ius.Base.Assoc
use ius.Base.Assoc.{lookup-adjust, lookup-insert}
use ius.Metrics.{Metrics, fetch_add}
use ius.Mux.Types.{ConnState, MuxError, tcp_packet}
use ius.Mux.Frame.{parse_packet}
use ius.Mux.Frame.RoundTrip.{
  segment_header, parse_packet-build_tcp_packet_v2, parse_packet-build_tcp_packet_v1,
}
use ius.Mux.Connections.{
  ConnectionManager, MuxDevice, Connection, start_connect, new_connection, first_free, port_count,
}
use ius.Mux.Connections.Ports.{first_free-IsFirstFree}
use ius.Mux.Connections.Delivery.{conn_at}
use ius.Devices.Connecting.{
  ConnectRequest, ConnectError, prepare_syn, send_syn, begin_connect, bump_v2, syn_packet,
  await_connect, finish_connect, handle_connect_request,
}

-- One failure more exactly when the reply is an error.
abbrev pub failures : Outcome ConnectError ℕ → Metrics → ℕ
failures (ok _) metrics = metrics.connect_failures
failures (err _) metrics = fetch_add metrics.connect_failures 1

finish_connect-failures :
    (port : Outcome ConnectError ℕ) (rounds : List (Option ConnState)) (metrics : Metrics)
    → ((finish_connect port rounds metrics).1.connect_failures
        ≡ failures (finish_connect port rounds metrics).0 metrics)
      × ((finish_connect port rounds metrics).1.connects_total ≡ metrics.connects_total)
unfolding finish_connect
finish_connect-failures (err e) rounds metrics = (refl, refl)
finish_connect-failures (ok sport) rounds metrics =
    elim (Outcome-cases (await_connect sport rounds)) [
      | inl (p, good) ↦ rw (good, finish_connect) (refl, refl)
      | inr (e, bad) ↦ rw (bad, finish_connect) (refl, refl)
    ]

-- On every path of a connect request, the requests are counted once, and the failures once exactly
-- when the reply is an error.
pub handle_connect_request-failures :
    (send : Bytes → Bool) (m : ConnectionManager) (req : ConnectRequest) (metrics : Metrics)
    (rounds : List (Option ConnState))
    → ((handle_connect_request send m req metrics rounds).0.metrics.connect_failures
        ≡ failures (handle_connect_request send m req metrics rounds).1 metrics)
      × ((handle_connect_request send m req metrics rounds).0.metrics.connects_total
          ≡ fetch_add metrics.connects_total 1)
unfolding handle_connect_request
handle_connect_request-failures send m req metrics rounds =
    let (f, t) =
      finish_connect-failures (begin_connect send m req).port rounds
        (record metrics { connects_total = fetch_add metrics.connects_total 1 }) in
    (
      f
          ∙ again
              (finish_connect (begin_connect send m req).port rounds
                (record metrics { connects_total = fetch_add metrics.connects_total 1 })).0,
      t,
    )
  where
    again :
        (reply : Outcome ConnectError ℕ)
        → failures reply (record metrics { connects_total = fetch_add metrics.connects_total 1 })
          ≡ failures reply metrics
    again (ok _) = refl
    again (err _) = refl

conn_at-bump_v2 :
    (m : ConnectionManager) (id j p : ℕ) (d : MuxDevice)
    → Assoc.lookup id m.devices ≡ some d
    → conn_at (record { devices = Assoc.adjust id (λ _. bump_v2 d) m.devices }) j p ≡ conn_at m j p
conn_at-bump_v2 m id j p d l =
    ground (arith, lookup-adjust id j (λ (_ : MuxDevice). bump_v2 d) m.devices)

send_syn-conn_at :
    (send : Bytes → Bool) (m : ConnectionManager) (id sport j p : ℕ)
    → conn_at (send_syn send m id sport).manager j p ≡ conn_at m j p
unfolding send_syn prepare_syn
send_syn-conn_at send m id sport j p = elim (Option-cases (Assoc.lookup id m.devices)) [
  | inl missing ↦ rw (missing, send_syn, prepare_syn) refl
  | inr (d, found) ↦ elim (Option-cases (Assoc.lookup sport d.connections)) [
    | inl missing ↦ rw (found, missing, send_syn, prepare_syn) refl
    | inr (c, l) ↦ rw (found, l, send_syn, prepare_syn) (conn_at-bump_v2 m id j p d found)
  ]
]

-- A request changes the connections as `start_connect` does, whatever becomes of its SYN and of the
-- wait: on a timeout, a refusal or a failed send the new connection keeps its port.
pub handle_connect_request-conn_at :
    (send : Bytes → Bool) (m : ConnectionManager) (req : ConnectRequest) (metrics : Metrics)
    (rounds : List (Option ConnState)) (j p : ℕ)
    → conn_at (handle_connect_request send m req metrics rounds).0.manager j p
      ≡ conn_at (start_connect m req.device_id req.dport req.tag).0 j p
unfolding handle_connect_request begin_connect
handle_connect_request-conn_at send m req metrics rounds j p =
    elim (Outcome-cases (start_connect m req.device_id req.dport req.tag).1) [
      | inr (e, bad) ↦ rw (bad, begin_connect) refl
      | inl (sport, good) ↦
          rw (good, begin_connect)
            (send_syn-conn_at send (start_connect m req.device_id req.dport req.tag).0 req.device_id
              sport j p)
    ]

-- The SYN of a connection, as the device parses it.
pub parse_packet-syn_packet :
    (d : MuxDevice) (c : Connection) (sport : ℕ)
    → IsU16 d.tx_seq
    → IsU16 d.rx_seq
    → IsU16 sport
    → IsU16 c.dest_port
    → (c.dest_port ≢ 0xFACE) ⊎ ((sport ≢ 0xFEED) × (sport ≢ 0xFACE))
    → parse_packet (syn_packet d c sport)
      ≡ ok (tcp_packet (segment_header sport c.dest_port 0 0 2 512) [])
parse_packet-syn_packet d c sport ht hr hs hd ports = elim (Bool-cases (ltb d.version 2)) [
  | inl v1 ↦ rw v1 (
      parse_packet-build_tcp_packet_v1 sport c.dest_port 0 0 2 512 none hs hd (omega arith)
        (omega arith) (omega arith) (omega arith) (omega arith) ports)
  | inr v2 ↦ rw v2 (
      parse_packet-build_tcp_packet_v2 d.tx_seq d.rx_seq sport c.dest_port 0 0 2 512 none ht hr hs
        hd (omega arith) (omega arith) (omega arith) (omega arith) (omega arith))
]

send_syn-sent :
    (send : Bytes → Bool) (m : ConnectionManager) (id sport : ℕ) (d : MuxDevice) (c : Connection)
    → Assoc.lookup id m.devices ≡ some d
    → Assoc.lookup sport d.connections ≡ some c
    → (send_syn send m id sport).sent ≡ syn_packet d c sport ∷ []
unfolding send_syn prepare_syn
send_syn-sent send m id sport d c found l = rw (found, l, send_syn, prepare_syn) refl

-- The device in the table after a connection was opened on it.
abbrev opened_device : MuxDevice → ConnectRequest → ℕ → MuxDevice
opened_device d req sport = record d {
  connections = Assoc.insert sport (new_connection sport req.dport req.tag) d.connections;
}

start_connect-free :
    (m : ConnectionManager) (req : ConnectRequest) (d : MuxDevice) (sport : ℕ)
    → Assoc.lookup req.device_id m.devices ≡ some d
    → first_free port_count 1024 d.connections ≡ some sport
    → start_connect m req.device_id req.dport req.tag ≡ (
      record { devices = Assoc.adjust req.device_id (λ _. opened_device d req sport) m.devices },
      ok sport,
    )
unfolding start_connect
start_connect-free m req d sport found free = rw (found, free, start_connect) refl

begin_connect-packet :
    (send : Bytes → Bool) (m : ConnectionManager) (req : ConnectRequest) (d : MuxDevice) (sport : ℕ)
    → Assoc.lookup req.device_id m.devices ≡ some d
    → first_free port_count 1024 d.connections ≡ some sport
    → (begin_connect send m req).sent
      ≡ syn_packet d (new_connection sport req.dport req.tag) sport ∷ []
unfolding begin_connect
begin_connect-packet send m req d sport found free =
    let started = start_connect-free m req d sport found free in
    rw (ap (λ (r : ConnectionManager × Outcome MuxError ℕ). r.1) started, begin_connect)
      (ap
          (λ (r : ConnectionManager × Outcome MuxError ℕ).
            (send_syn send r.0 req.device_id sport).sent)
          started
        ∙ send_syn-sent send
            (record {
              devices = Assoc.adjust req.device_id (λ _. opened_device d req sport) m.devices;
            })
            req.device_id sport (opened_device d req sport) (new_connection sport req.dport req.tag)
            (ground (
              arith,
              lookup-adjust req.device_id req.device_id
                  (λ (_ : MuxDevice). opened_device d req sport) m.devices,
            ))
            (ground (
              arith,
              lookup-insert sport sport (new_connection sport req.dport req.tag) d.connections,
            )))

-- On a device with a free port, a request sends one packet, which parses to a SYN from the lowest
-- free port to the requested one, if that is not 0xFACE and the wire fields are within their
-- widths.
pub begin_connect_sends_syn :
    (send : Bytes → Bool) (m : ConnectionManager) (req : ConnectRequest) (d : MuxDevice) (sport : ℕ)
    → Assoc.lookup req.device_id m.devices ≡ some d
    → first_free port_count 1024 d.connections ≡ some sport
    → IsU16 d.tx_seq
    → IsU16 d.rx_seq
    → IsU16 req.dport
    → req.dport ≢ 0xFACE
    → (packet : Bytes) × ((begin_connect send m req).sent ≡ packet ∷ [])
      × (parse_packet packet ≡ ok (tcp_packet (segment_header sport req.dport 0 0 2 512) []))
unfolding new_connection
begin_connect_sends_syn send m req d sport found free ht hr hd hp =
    let in_range = first_free-IsFirstFree port_count 1024 d.connections free in
    (
      syn_packet d (new_connection sport req.dport req.tag) sport,
      begin_connect-packet send m req d sport found free,
      parse_packet-syn_packet d (new_connection sport req.dport req.tag) sport ht hr
          (omega (arith, in_range.below)) hd (inl hp),
    )
