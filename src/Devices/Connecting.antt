-- ===== src/Devices/Connecting.antt =====
-- `handle_connect_request` of meridian-relay/src/daemon/device_manager.rs: open a connection, send
-- its SYN, and wait. The rounds of the wait are the states that they read, up to the timeout.
use ius.Base.{
  ℕ, ◌/◌, ◌^◌, Bool, Option, none, some, List, [], ◌∷◌, ltb, ℕ-eq, if◌then◌else◌, Outcome, ok, err,
}
use ius.Base.Words.{Bytes, u16, wrapping_add16}
use ius.Base.Assoc
use ius.Metrics.{Metrics, fetch_add}
use ius.Mux.Types.{ConnState, MuxError, tcp_syn, initial_window}
use ius.Mux.Frame.{build_tcp_packet}
use ius.Mux.Connections.{ConnectionManager, MuxDevice, Connection, start_connect, v2_seqs}
use ius.Devices.Types.{Io}

pub data ConnectError : Type 0 where
  connect_failed : MuxError → ConnectError
  device_not_found connection_not_found syn_send_failed : ConnectError
  connect_timeout connection_refused connection_dead : ConnectError

pub record ConnectRequest : Type 0 where
  pub device_id : ℕ
  pub dport : ℕ
  pub tag : ℕ

abbrev pub bump_v2 : MuxDevice → MuxDevice
bump_v2 d = record d { tx_seq = if ltb d.version 2 then d.tx_seq else wrapping_add16 d.tx_seq 1 }

abbrev pub syn_packet : MuxDevice → Connection → ℕ → Bytes
syn_packet d c sport =
    build_tcp_packet (v2_seqs d) sport c.dest_port 0 0 tcp_syn (u16 (initial_window / 2 ^ 8)) none

-- The SYN and the table with its packet counted, under the second lock.
unfoldable pub prepare_syn :
    ConnectionManager → (device_id sport : ℕ) → Outcome ConnectError (ConnectionManager × Bytes)
prepare_syn m device_id sport = elim (Assoc.lookup device_id m.devices) [
  | none ↦ err device_not_found
  | some d ↦ elim (Assoc.lookup sport d.connections) [
    | none ↦ err connection_not_found
    | some c ↦ ok (
      record { devices = Assoc.adjust device_id (λ _. bump_v2 d) m.devices },
      syn_packet d c sport,
    )
  ]
]

-- `none` is a round in which the connection was not in the table.
unfoldable pub await_connect : ℕ → List (Option ConnState) → Outcome ConnectError ℕ
await_connect sport [] = err connect_timeout
await_connect sport (some ConnState.connected ∷ rounds) = ok sport
await_connect sport (some ConnState.refused ∷ rounds) = err connection_refused
await_connect sport (some ConnState.dead ∷ rounds) = err connection_dead
await_connect sport (_ ∷ rounds) = await_connect sport rounds

-- What the request leaves at once, before the wait, and the port that the wait is for.
pub record Begun : Type 0 where
  pub manager : ConnectionManager
  pub sent : List Bytes
  pub port : Outcome ConnectError ℕ

unfoldable pub send_syn : (send : Bytes → Bool) → ConnectionManager → (device_id sport : ℕ) → Begun
unfolding prepare_syn
send_syn send m device_id sport = elim (prepare_syn m device_id sport) [
  | err e ↦ record { manager = m; sent = []; port = err e }
  | ok (m', packet) ↦ record {
    manager = m';
    sent = packet ∷ [];
    port = if send packet then ok sport else err syn_send_failed;
  }
]

unfoldable pub begin_connect : (send : Bytes → Bool) → ConnectionManager → ConnectRequest → Begun
unfolding start_connect send_syn
begin_connect send m req =
    let (m', started) = start_connect m req.device_id req.dport req.tag in
    elim started [
      | err e ↦ record { manager = m'; sent = []; port = err (connect_failed e) }
      | ok sport ↦ send_syn send m' req.device_id sport
    ]

abbrev pub count_failure : Metrics → Metrics
count_failure metrics = record metrics { connect_failures = fetch_add metrics.connect_failures 1 }

-- The reply and the counters; the table changes no more by this request.
unfoldable pub finish_connect :
    Outcome ConnectError ℕ → List (Option ConnState) → Metrics → Outcome ConnectError ℕ × Metrics
unfolding await_connect
finish_connect (err e) rounds metrics = (err e, count_failure metrics)
finish_connect (ok sport) rounds metrics = elim (await_connect sport rounds) [
  | ok p ↦ (ok p, metrics)
  | err e ↦ (err e, count_failure metrics)
]

unfoldable pub handle_connect_request :
    (send : Bytes → Bool)
    → ConnectionManager
    → ConnectRequest
    → Metrics
    → List (Option ConnState)
    → Io × Outcome ConnectError ℕ
unfolding begin_connect finish_connect
handle_connect_request send m req metrics rounds =
    let b = begin_connect send m req in
    let counted = record metrics { connects_total = fetch_add metrics.connects_total 1 } in
    let (reply, metrics') = finish_connect b.port rounds counted in
    (record { manager = b.manager; metrics = metrics'; sent = b.sent }, reply)
