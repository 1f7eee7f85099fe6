-- ===== src/Tests/Relay.antt =====
-- The proxy of meridian-relay/src/daemon/connection.rs on a connection that has three bytes
-- buffered, and instances of its theorems.
use ius.Base.{◌≡◌, refl, none, List, [], ◌∷◌, ok, err, true}
use ius.Base.Assoc
use ius.Metrics
use ius.Mux.Types.{ConnState}
use ius.Mux.Connections.{ConnectionManager, Connection, new_device, get_data_notify}
use ius.Mux.Connections.Delivery.{conn_at}
use ius.Clients.{drain_inbound}
use ius.Clients.Relay.{
  Relay, Turn, Waited, notified, read_bytes, data_message, window_update, done, send, write_out,
  wait, proxy_turn, proxy_loop, proxy_connection,
}
use ius.Clients.Relay.Messages.{payloads, updates, total}
use ius.Clients.Relay.Fidelity.{IsRelayed, proxy_loop-IsRelayed, proxy_connection-removed}

abbrev conn : Connection
conn = record {
  source_port = 1024;
  dest_port = 62078;
  state = ConnState.connected;
  tx_seq = 1;
  tx_ack = 1;
  ib_buf = 1 ∷ 2 ∷ 3 ∷ [];
  ob_buf = [];
  data_notify = [];
  tag = 5;
}

abbrev table : ConnectionManager
table = record { devices = (1, record (new_device 1) { connections = (1024, conn) ∷ [] }) ∷ [] }

abbrev start : Relay
start = record { manager = table; metrics = Metrics.new; read = []; written = []; sent = [] }

abbrev turn : Waited → Turn
turn w = record { around = λ m. m; write_all = ok tt; is_open = true; waited = w }

-- The buffer goes out, the client sends two bytes, the task is woken in vain, the client is gone.
abbrev turns : List Turn
turns = turn notified ∷ turn (read_bytes (7 ∷ 8 ∷ [])) ∷ turn notified ∷ turn (read_bytes []) ∷ []

abbrev last : Relay
last = (proxy_loop 1 1024 turns start).0

relays :
    (last.written ≡ (1 ∷ 2 ∷ 3 ∷ []) ∷ [])
    × (last.sent ≡ window_update 1024 ∷ data_message 1024 (7 ∷ 8 ∷ []) ∷ [])
    × ((proxy_loop 1 1024 turns start).1 ≡ done (ok tt))
unfolding proxy_loop proxy_turn wait write_out send drain_inbound Assoc.lookup Assoc.adjust
relays = (refl, refl, refl)

start-IsRelayed : IsRelayed 1024 Metrics.new start
unfolding payloads updates total Metrics.new
start-IsRelayed = record {
  passed_on = refl;
  reopened = refl;
  nothing_else = refl;
  rx = refl;
  tx = refl;
}

proxy_loop-IsRelayed_example : IsRelayed 1024 Metrics.new (proxy_loop 1 1024 turns start).0
unfolding proxy_loop proxy_turn wait write_out send drain_inbound Assoc.lookup Assoc.adjust
proxy_loop-IsRelayed_example =
    proxy_loop-IsRelayed 1 1024 Metrics.new turns start start-IsRelayed refl

-- A client whose stream breaks while the buffer is written.
abbrev broken : List Turn
broken = record (turn notified) { write_all = err "broken pipe" } ∷ []

breaks : (proxy_connection 1 1024 broken (λ m. m) start).1 ≡ done (err "broken pipe")
unfolding proxy_connection get_data_notify proxy_loop proxy_turn write_out drain_inbound
    Assoc.lookup Assoc.adjust
breaks = refl

proxy_connection-removed_example :
    conn_at (proxy_connection 1 1024 broken (λ m. m) start).0.manager 1 1024 ≡ none
proxy_connection-removed_example =
    proxy_connection-removed 1 1024 broken (λ m. m) start (err "broken pipe") breaks
