-- ===== src/Tests/Connections.antt =====
-- Runs of the connection table of meridian-relay/src/daemon/mux.rs, and instances of its theorems.
use ius.Base.{ℕ, ◌≡◌, refl, none, some, List, [], ◌∷◌, ◌⊎◌, inl, ok, err, arith}
use ius.Base.Words.{Bytes}
use ius.Base.Assoc
use ius.Metrics
use ius.Metrics.{Metrics}
use ius.Mux.Types.{ConnState, TcpHeader, flags, has_flag, connected_event, invalid_state, text}
use ius.Mux.Connections.{
  ConnectionManager, MuxDevice, Connection, empty, add_device, start_connect, new_device,
  first_free, port_count, handle_tcp_packet, handle_on_conn, on_syn_ack, conn_key,
}
use ius.Mux.Connections.Validity.{
  IsValid, empty-IsValid, add_device-IsValid, start_connect-IsValid, handle_tcp_packet-IsValid,
}
use ius.Mux.Connections.Delivery.{conn_at, Addresses, handle_tcp_packet_routes}
use ius.Mux.Connections.Stream.{IsData, Segment}
use ius.Mux.Connections.Acknowledge.{IsAcknowledged, handle_tcp_packet-IsAcknowledged}
use ius.Mux.Connections.Opening.{IsOpened, start_connect-IsOpened}

-- Device 1 with one connection, from port 1024 to port 62078 of the device.
abbrev conn : Connection
conn = record {
  source_port = 1024;
  dest_port = 62078;
  state = ConnState.syn_sent;
  tx_seq = 0;
  tx_ack = 0;
  ib_buf = [];
  ob_buf = [];
  data_notify = [];
  tag = 5;
}

abbrev device : MuxDevice
device = record (new_device 1) { connections = (1024, conn) ∷ [] }

abbrev table : ConnectionManager
table = record { devices = (1, device) ∷ [] }

opened_table : (start_connect (add_device empty 1) 1 62078 5).0 ≡ table
unfolding start_connect add_device Assoc.lookup Assoc.insert Assoc.adjust Assoc.contains_key
    first_free
opened_table = refl

table-IsValid : IsValid 4096 table
table-IsValid = rw opened_table at (
    start_connect-IsValid 4096 (add_device empty 1) 1 62078 5
      (add_device-IsValid 4096 empty 1 (empty-IsValid 4096)))

abbrev syn_ack : TcpHeader
syn_ack = record {
  source_port = 62078;
  dest_port = 1024;
  seq = 0;
  ack = 1;
  offset_flags = 0x5012;
  window = 512;
}

abbrev data_header : TcpHeader
data_header = record syn_ack { seq = 1; offset_flags = 0x5010 }

table-Addresses : Addresses table 1 data_header device conn
unfolding Assoc.lookup
table-Addresses = record { device = refl; conn = refl; peer = refl }

data_header-IsData : (payload : Bytes) (b : ℕ) → IsData data_header (b ∷ payload)
unfolding has_flag flags
data_header-IsData payload b = record {
  no_syn_ack = refl;
  no_rst = refl;
  no_fin = refl;
  carries = refl;
}

handle_tcp_packet-IsValid_example :
    IsValid 4096 (handle_tcp_packet table 1 syn_ack [] Metrics.new 4096).manager
handle_tcp_packet-IsValid_example =
    handle_tcp_packet-IsValid 4096 table 1 syn_ack [] Metrics.new table-IsValid

-- The SYN-ACK connects, and is acknowledged.
syn_ack_connects :
    (handle_tcp_packet table 1 syn_ack [] Metrics.new 4096).events ≡ connected_event 1 1024 5 ∷ []
unfolding handle_tcp_packet handle_on_conn on_syn_ack conn_key Assoc.lookup has_flag flags
syn_ack_connects = refl

handle_tcp_packet_routes_example :
    (conn_at (handle_tcp_packet table 1 data_header (7 ∷ []) Metrics.new 4096).manager 1 1024
      ≡ some (handle_on_conn 1 device conn data_header (7 ∷ []) Metrics.new 4096).conn)
    × ((handle_tcp_packet table 1 data_header (7 ∷ []) Metrics.new 4096).events
        ≡ (handle_on_conn 1 device conn data_header (7 ∷ []) Metrics.new 4096).events)
    × ((handle_tcp_packet table 1 data_header (7 ∷ []) Metrics.new 4096).send_queue
        ≡ (handle_on_conn 1 device conn data_header (7 ∷ []) Metrics.new 4096).send_queue)
    × ((handle_tcp_packet table 1 data_header (7 ∷ []) Metrics.new 4096).metrics
        ≡ (handle_on_conn 1 device conn data_header (7 ∷ []) Metrics.new 4096).metrics)
handle_tcp_packet_routes_example =
    handle_tcp_packet_routes 4096 table 1 data_header device conn (7 ∷ []) Metrics.new table-IsValid
      table-Addresses 1 1024

abbrev segments : List Segment
segments = (data_header, 7 ∷ 8 ∷ []) ∷ (record data_header { seq = 3 }, 9 ∷ []) ∷ []

handle_tcp_packet-IsAcknowledged_example :
    IsAcknowledged 4096 conn data_header
      (7 ∷ [])
      (handle_tcp_packet table 1 data_header (7 ∷ []) Metrics.new 4096).send_queue
handle_tcp_packet-IsAcknowledged_example =
    handle_tcp_packet-IsAcknowledged 4096 table 1 data_header device conn (7 ∷ []) Metrics.new
      table-IsValid table-Addresses (data_header-IsData [] 7)
      (record {
        tx_seq = omega arith;
        rx_seq = omega arith;
        source_port = omega arith;
        dest_port = omega arith;
        conn_seq = omega arith;
        unmagic = λ _. inl (omega arith);
      })
      (omega arith)

start_connect-IsOpened_example :
    ((sport : ℕ) × ((start_connect table 1 80 6).1 ≡ ok sport)
      × IsOpened table 1 80 6 sport device (start_connect table 1 80 6).0)
    ⊎ ((start_connect table 1 80 6 ≡ (table, err (invalid_state (text "no available ports"))))
        × (first_free port_count 1024 device.connections ≡ none))
unfolding Assoc.lookup
start_connect-IsOpened_example = start_connect-IsOpened table 1 80 6 device refl
