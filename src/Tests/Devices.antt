-- ===== src/Tests/Devices.antt =====
-- Runs of the processing task of meridian-relay/src/daemon/device_manager.rs and of the proxy of
-- daemon/connection.rs, and instances of the theorems about them.
use mathlib.Core.Option
use ius.Base.{ℕ, ◌≡◌, ◌⊎◌, refl, inl, Bool, true, false, some, List, [], ◌∷◌, ◌++◌, ok, ℕ-eq, arith}
use ius.Base.Words.{Bytes}
use ius.Base.Assoc
use ius.Metrics
use ius.Metrics.{Metrics, fetch_add}
use ius.Mux.Types.{connected, TcpHeader, flags, has_flag, tcp_packet}
use ius.Mux.Frame.{parse_packet}
use ius.Mux.Frame.RoundTrip.{segment_header}
use ius.Mux.Connections.{
  ConnectionManager, MuxDevice, Connection, empty, add_device, start_connect, new_connection,
  new_device, first_free, handle_tcp_packet, handle_on_conn, on_syn_ack, conn_key, find_key,
}
use ius.Mux.Connections.Validity.{
  IsValid, empty-IsValid, add_device-IsValid, start_connect-IsValid, handle_tcp_packet-IsValid,
}
use ius.Mux.Connections.Delivery.{conn_at}
use ius.Mux.Connections.Stream.{IsData}
use ius.Mux.Connections.Acknowledge.{FitsWire}
use ius.Devices.Sending.{send_client_data, kill, data_packet}
use ius.Devices.Stream.{IsOpen, IsSent, send_client_data-IsSent}
use ius.Devices.Connecting.{ConnectRequest, begin_connect, handle_connect_request}
use ius.Devices.Requests.{handle_connect_request-conn_at, begin_connect_sends_syn}
use ius.Devices.Managed.{DeviceManager, is_managed, handle_usb_disconnect}
use ius.Devices.Ending.{handle_usb_disconnect_ends}
use ius.Clients.Proxy.{Event, segment, drain, relay, relay_in_order}

abbrev some_bytes : Bytes
some_bytes = 1 ∷ 2 ∷ 3 ∷ []

abbrev always : Bytes → Bool
always packet = true

-- Device 1 with a connected connection from port 1024 to port 62078 of the device.
abbrev up : Connection
up = record (new_connection 1024 62078 5) { state = connected; tx_ack = 1 }

abbrev device : MuxDevice
device = record (new_device 1) { connections = (1024, up) ∷ [] }

abbrev table : ConnectionManager
table = record { devices = (1, device) ∷ [] }

table-IsOpen : IsOpen table 1 1024 device up
unfolding Assoc.lookup new_connection
table-IsOpen = record { device = refl; conn = refl; own_port = refl; state = refl }

table-FitsWire : FitsWire device up
unfolding new_connection
table-FitsWire = record {
  tx_seq = omega arith;
  rx_seq = omega arith;
  source_port = omega arith;
  dest_port = omega arith;
  conn_seq = omega arith;
  unmagic = λ _. inl (omega arith);
}

send_client_data-IsSent_example :
    (IsSent table 1 device up some_bytes
      (send_client_data always table 1 1024 some_bytes Metrics.new).manager
      (send_client_data always table 1 1024 some_bytes Metrics.new).sent)
    ⊎ (((send_client_data always table 1 1024 some_bytes Metrics.new).manager ≡ table)
        × (always (data_packet device up 1024 some_bytes) ≡ false))
unfolding new_connection
send_client_data-IsSent_example =
    send_client_data-IsSent always table 1 1024 device up some_bytes Metrics.new table-IsOpen
      table-FitsWire (omega arith) (omega arith)

abbrev request : ConnectRequest
request = record { device_id = 1; dport = 80; tag = 6 }

handle_connect_request-conn_at_example :
    conn_at (handle_connect_request always table request Metrics.new []).0.manager 1 1025
    ≡ conn_at (start_connect table 1 80 6).0 1 1025
handle_connect_request-conn_at_example =
    handle_connect_request-conn_at always table request Metrics.new [] 1 1025

begin_connect_sends_syn_example :
    (packet : Bytes) × ((begin_connect always table request).sent ≡ packet ∷ [])
    × (parse_packet packet ≡ ok (tcp_packet (segment_header 1025 80 0 0 2 512) []))
unfolding Assoc.lookup first_free Assoc.contains_key
begin_connect_sends_syn_example =
    begin_connect_sends_syn always table request device 1025 refl refl (omega arith) (omega arith)
      (omega arith) (omega arith)

abbrev managed : DeviceManager
managed = record { devices = (1, record { device_id = 1; refcount = 3 }) ∷ []; conn_mgr = table }

handle_usb_disconnect_ends_example :
    (is_managed (handle_usb_disconnect managed 1) 1 ≡ false)
    × (conn_at (handle_usb_disconnect managed 1).conn_mgr 1 1024
        ≡ Option.map kill (conn_at table 1 1024))
handle_usb_disconnect_ends_example = handle_usb_disconnect_ends managed 1 1 1024

abbrev data_header : TcpHeader
data_header = record {
  source_port = 62078;
  dest_port = 1024;
  seq = 1;
  ack = 1;
  offset_flags = 0x5010;
  window = 512;
}

-- The connection came up through its SYN-ACK, so the table is valid.
abbrev syn_ack : TcpHeader
syn_ack = record data_header { seq = 0; offset_flags = 0x5012 }

connected_table :
    (handle_tcp_packet
      (start_connect (add_device empty 1) 1 62078 5).0
      1
      syn_ack
      []
      Metrics.new
      4096).manager
    ≡ record { devices = (1, record device { tx_seq = 2 }) ∷ [] }
unfolding handle_tcp_packet handle_on_conn on_syn_ack conn_key find_key start_connect add_device
    Assoc.lookup Assoc.insert Assoc.remove Assoc.adjust Assoc.contains_key first_free has_flag flags
connected_table = refl

abbrev live : ConnectionManager
live = record { devices = (1, record device { tx_seq = 2 }) ∷ [] }

live-IsValid : IsValid 4096 live
live-IsValid = rw connected_table at (
    handle_tcp_packet-IsValid 4096 (start_connect (add_device empty 1) 1 62078 5).0 1 syn_ack []
      Metrics.new
      (start_connect-IsValid 4096 (add_device empty 1) 1 62078 5
        (add_device-IsValid 4096 empty 1 (empty-IsValid 4096))))

data_header-IsData : (payload : Bytes) (b : ℕ) → IsData data_header (b ∷ payload)
unfolding has_flag flags
data_header-IsData payload b = record {
  no_syn_ack = refl;
  no_rst = refl;
  no_fin = refl;
  carries = refl;
}

abbrev events : List Event
events = segment data_header (7 ∷ 8 ∷ []) ∷ drain ∷ segment data_header (9 ∷ []) ∷ []

relay_in_order_example :
    (c : Connection) × (conn_at (relay live 1 1024 Metrics.new 4096 events).0 1 1024 ≡ some c)
    × ((relay live 1 1024 Metrics.new 4096 events).1 ++ c.ib_buf ≡ 7 ∷ 8 ∷ 9 ∷ [])
unfolding Assoc.lookup new_connection
relay_in_order_example =
    relay_in_order 4096 live 1 1024 up Metrics.new events live-IsValid refl refl (
      refl,
      refl,
      data_header-IsData (8 ∷ []) 7,
      omega arith,
      (refl, refl, data_header-IsData [] 9, omega arith, tt),
    )
