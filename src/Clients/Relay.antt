-- ===== src/Clients/Relay.antt =====
-- `proxy_connection` and `proxy_loop` of meridian-relay/src/daemon/connection.rs. What happens
-- around the loop is given turn by turn: what the other tasks do to the connection table, and the
-- outcomes of the stream and of the channel to the device's task.
pub mod Messages
pub mod Fidelity
use ius.Base.{
  ℕ, Bool, Option, none, some, List, [], ◌∷◌, ◌++◌, length, is_empty, if◌then◌else◌, Outcome, ok,
  err, String,
}
use ius.Base.Words.{Bytes}
use ius.Metrics.{Metrics, fetch_add}
use ius.Mux.Connections.{ConnectionManager, get_data_notify}
use ius.Clients.{ended, took, drain_inbound, remove_connection}

-- `MuxOutMsg`, as far as the proxy sends it.
pub data MuxOutMsg : Type 0 where
  data_message : (sport : ℕ) (payload : Bytes) → MuxOutMsg
  window_update : (sport : ℕ) → MuxOutMsg

-- How `select!` ends; no bytes stand for `Ok(0)`.
pub data Waited : Type 0 where
  notified : Waited
  read_bytes : Bytes → Waited
  read_failed : String → Waited

pub record Turn : Type 0 where
  pub around : ConnectionManager → ConnectionManager
  pub write_all : Outcome String (Unit {0})
  pub is_open : Bool
  pub waited : Waited

-- The reads and the writes of the stream, and what was sent, from the first to the last.
pub record Relay : Type 0 where
  pub manager : ConnectionManager
  pub metrics : Metrics
  pub read : List Bytes
  pub written : List Bytes
  pub sent : List MuxOutMsg

pub data Progress : Type 0 where
  going : Progress
  done : Outcome String (Unit {0}) → Progress

unfoldable pub send : (is_open : Bool) → MuxOutMsg → Relay → Relay × Progress
send is_open message s =
    if is_open
    then (record s { sent = s.sent ++ message ∷ [] }, going)
    else (s, done (err "data channel send failed"))

unfoldable pub write_out : (sport : ℕ) → Turn → Bytes → Relay → Relay × Progress
unfolding send
write_out sport t data' s =
    let counted = record s {
      metrics = record s.metrics {
        client_tx_bytes = fetch_add s.metrics.client_tx_bytes (length data');
      };
    } in
    elim t.write_all [
      | err e ↦ (counted, done (err e))
      | ok _ ↦
          send t.is_open (window_update sport)
            (record counted { written = s.written ++ data' ∷ [] })
    ]

unfoldable pub wait : (sport : ℕ) → Turn → Relay → Relay × Progress
unfolding send
wait sport t s = elim t.waited [
  | notified ↦ (s, going)
  | read_failed e ↦ (s, done (err e))
  | read_bytes data' ↦
      if is_empty data'
      then (s, done (ok tt))
      else send t.is_open (data_message sport data') (record s {
        read = s.read ++ data' ∷ [];
        metrics = record s.metrics {
          client_rx_bytes = fetch_add s.metrics.client_rx_bytes (length data');
        };
      })
]

unfoldable pub proxy_turn : (device_id sport : ℕ) → Turn → Relay → Relay × Progress
unfolding write_out wait
proxy_turn device_id sport t s =
    let (m, round) = drain_inbound (t.around s.manager) device_id sport in
    let drained = record s { manager = m } in
    elim round [
      | ended o ↦ (drained, done o)
      | took data' ↦
          if is_empty data' then wait sport t drained else write_out sport t data' drained
    ]

unfoldable pub proxy_loop : (device_id sport : ℕ) → List Turn → Relay → Relay × Progress
unfolding proxy_turn
proxy_loop device_id sport [] s = (s, going)
proxy_loop device_id sport (t ∷ turns) s =
    let (s', progress) = proxy_turn device_id sport t s in
    let later = proxy_loop device_id sport turns s' in
    elim progress [ done o ↦ (s', done o) | going ↦ later ]

-- `later` is what the other tasks do to the table before the clean-up.
unfoldable pub proxy_connection :
    (device_id sport : ℕ)
    → List Turn
    → (later : ConnectionManager → ConnectionManager) → Relay
    → Relay × Progress
unfolding proxy_loop get_data_notify remove_connection
proxy_connection device_id sport turns later s = elim (get_data_notify s.manager device_id sport) [
  | none ↦ (s, done (err "connection not found"))
  | some _ ↦
      let (s', progress) = proxy_loop device_id sport turns s in
      elim progress [
        | going ↦ (s', going)
        | done o ↦
            (record s' { manager = remove_connection (later s'.manager) device_id sport }, done o)
      ]
]
