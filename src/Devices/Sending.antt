-- ===== src/Devices/Sending.antt =====
-- `send_client_data`, `send_window_update` and `cleanup_device_connections` of
-- meridian-relay/src/daemon/device_manager.rs. Each of the first two reads the table under one lock
-- and counts the packet under a second one, and is two functions here, so that the table may change
-- between them; the third composes them with no change between.
use ius.Base.{
  ℕ, ◌-◌, ◌/◌, ◌^◌, Bool, true, false, Option, none, some, [], ◌∷◌, ◌++◌, length, ℕ-eq,
  if◌then◌else◌,
}
use ius.Base.Words.{Bytes, u16, u32, wrapping_add16, wrapping_add32}
use ius.Base.Assoc
use ius.Base.Assoc.{Assoc}
use ius.Metrics.{Metrics}
use ius.Mux.Types.{ConnState, is_active, dead, tcp_ack_flag, initial_window}
use ius.Mux.Frame.{build_tcp_packet, scaled_window}
use ius.Mux.Connections.{ConnectionManager, MuxDevice, Connection, notify_one, v2_seqs}
use ius.Devices.Types.{Io, io, count_tx}

abbrev pub is_connected : ConnState → Bool
is_connected ConnState.connected = true
is_connected _ = false

-- The connection of a port, with its device.
abbrev pub find_conn : ConnectionManager → ℕ → ℕ → Option (MuxDevice × Connection)
find_conn m device_id sport = elim (Assoc.lookup device_id m.devices) [
  | none ↦ none
  | some d ↦ elim (Assoc.lookup sport d.connections) [ none ↦ none | some c ↦ some (d, c) ]
]

abbrev pub data_packet : MuxDevice → Connection → ℕ → Bytes → Bytes
data_packet d c sport payload =
    build_tcp_packet (v2_seqs d) sport c.dest_port c.tx_seq c.tx_ack tcp_ack_flag
      (u16 (initial_window / 2 ^ 8)) (some payload)

unfoldable pub client_data_packet : ConnectionManager → (device_id sport : ℕ) → Bytes → Option Bytes
client_data_packet m device_id sport payload = elim (find_conn m device_id sport) [
  | none ↦ none
  | some (d, c) ↦ if is_connected c.state then some (data_packet d c sport payload) else none
]

abbrev pub count_data : Bytes → Connection → Connection
count_data payload c = record c {
  tx_seq = wrapping_add32 c.tx_seq (u32 (length payload));
  ob_buf = c.ob_buf ++ payload;
}

unfoldable pub count_client_data :
    ConnectionManager → (device_id sport : ℕ) → Bytes → ConnectionManager
count_client_data m device_id sport payload = record {
  devices =
      Assoc.adjust device_id
        (λ d. record d {
          tx_seq = wrapping_add16 d.tx_seq 1;
          connections = Assoc.adjust sport (count_data payload) d.connections;
        })
        m.devices;
}

unfoldable pub send_client_data :
    (send : Bytes → Bool) → ConnectionManager → (device_id sport : ℕ) → Bytes → Metrics → Io
unfolding client_data_packet count_client_data
send_client_data send m device_id sport payload metrics =
    elim (client_data_packet m device_id sport payload) [
      | none ↦ io m metrics
      | some packet ↦ record {
        manager = if send packet then count_client_data m device_id sport payload else m;
        metrics = count_tx metrics packet;
        sent = packet ∷ [];
      }
    ]

unfoldable pub window_update_packet :
    ConnectionManager → (device_id sport max_conn_buffer : ℕ) → Option Bytes
window_update_packet m device_id sport max_conn_buffer = elim (find_conn m device_id sport) [
  | none ↦ none
  | some (d, c) ↦
      if is_active c.state
      then some (
          build_tcp_packet (v2_seqs d) sport c.dest_port c.tx_seq c.tx_ack tcp_ack_flag
            (scaled_window (max_conn_buffer - length c.ib_buf)) none)
      else none
]

unfoldable pub count_window_update : ConnectionManager → ℕ → ConnectionManager
count_window_update m device_id = record {
  devices = Assoc.adjust device_id (λ d. record d { tx_seq = wrapping_add16 d.tx_seq 1 }) m.devices;
}

unfoldable pub send_window_update :
    (send : Bytes → Bool) → ConnectionManager → (device_id sport max_conn_buffer : ℕ) → Metrics → Io
unfolding window_update_packet count_window_update
send_window_update send m device_id sport max_conn_buffer metrics =
    elim (window_update_packet m device_id sport max_conn_buffer) [
      | none ↦ io m metrics
      | some packet ↦ record {
        manager = if send packet then count_window_update m device_id else m;
        metrics = count_tx metrics packet;
        sent = packet ∷ [];
      }
    ]

abbrev pub kill : Connection → Connection
kill c = record c { state = dead; data_notify = c.data_notify ++ notify_one ∷ [] }

-- The loop over the keys writes every entry once.
unfoldable pub kill_all : Assoc ℕ Connection → Assoc ℕ Connection
kill_all [] = []
kill_all ((sport, c) ∷ connections) = (sport, kill c) ∷ kill_all connections

unfoldable pub cleanup_device_connections : ConnectionManager → ℕ → ConnectionManager
unfolding kill_all
cleanup_device_connections m device_id = record {
  devices =
      Assoc.adjust device_id (λ d. record d { connections = kill_all d.connections }) m.devices;
}
