-- ===== src/Devices/Receiving.antt =====
-- `process_device_packet` of meridian-relay/src/daemon/device_manager.rs, and the branch of the
-- processing task that feeds bytes from USB to it.
use ius.Base.{ℕ, Bool, true, List, [], ◌∷◌, ◌++◌, length, leb, ℕ-eq, if◌then◌else◌, ok, err}
use ius.Base.Words.{Bytes}
use ius.Base.Assoc
use ius.Metrics.{Metrics, fetch_add}
use ius.Mux.Types.{
  version_packet, control_packet, setup_packet, tcp_packet, TcpHeader, active, ConnectionEvent,
  disconnected,
}
use ius.Mux.Frame.{parse_packet, parse_mux_header, build_setup_packet}
use ius.Mux.Reassembler.{PacketReassembler, feed}
use ius.Mux.Connections.{ConnectionManager, MuxDevice, handle_tcp_packet}
use ius.Devices.Types.{count_tx}

-- The variables of a processing task, with the table and the counters that it shares.
pub record Task : Type 0 where
  pub version_negotiated : Bool
  pub manager : ConnectionManager
  pub metrics : Metrics
  pub sent : List Bytes

abbrev pub negotiate : ℕ → MuxDevice → MuxDevice
negotiate major d = record d { version = if leb 2 major then 2 else 1; state = active; tx_seq = 1 }

-- A refused SETUP leaves the flag alone, and the version is set all the same.
unfoldable pub on_version : (send : Bytes → Bool) → ℕ → Task → ℕ → Task
on_version send device_id t major = record t {
  version_negotiated =
      if leb 2 major
      then (if send (build_setup_packet 0 0xFFFF) then true else t.version_negotiated)
      else true;
  manager = record { devices = Assoc.adjust device_id (negotiate major) t.manager.devices };
  sent = if leb 2 major then t.sent ++ build_setup_packet 0 0xFFFF ∷ [] else t.sent;
}

-- `rx_seq` of a v2 header is kept for the frames to come.
unfoldable pub track_rx_seq : ℕ → ConnectionManager → Bytes → ConnectionManager
track_rx_seq device_id m packet = elim (parse_mux_header packet) [
  | err _ ↦ m
  | ok header ↦
      if header.is_v2
      then record {
        devices = Assoc.adjust device_id (λ d. record d { rx_seq = header.rx_seq }) m.devices;
      }
      else m
]

unfoldable pub send_queued : Metrics → List Bytes → Metrics
send_queued metrics [] = metrics
send_queued metrics (packet ∷ queue) = send_queued (count_tx metrics packet) queue

unfoldable pub count_events : Metrics → List ConnectionEvent → Metrics
count_events metrics [] = metrics
count_events metrics (disconnected _ _ ∷ events) =
    count_events (record metrics { rsts_received = fetch_add metrics.rsts_received 1 }) events
count_events metrics (_ ∷ events) = count_events metrics events

unfoldable pub on_tcp : ℕ → Task → Bytes → TcpHeader → Bytes → ℕ → Task
unfolding track_rx_seq handle_tcp_packet send_queued count_events
on_tcp device_id t packet header payload max_conn_buffer =
    let r =
      handle_tcp_packet (track_rx_seq device_id t.manager packet) device_id header payload t.metrics
        max_conn_buffer in
    record t {
      manager = r.manager;
      metrics = count_events (send_queued r.metrics r.send_queue) r.events;
      sent = t.sent ++ r.send_queue;
    }

unfoldable pub process_device_packet : (send : Bytes → Bool) → ℕ → Task → Bytes → ℕ → Task
unfolding parse_packet on_version on_tcp
process_device_packet send device_id t packet max_conn_buffer = elim (parse_packet packet) [
  | err _ ↦ record t {
    metrics = record t.metrics { parse_errors = fetch_add t.metrics.parse_errors 1 };
  }
  | ok (version_packet major minor) ↦ on_version send device_id t major
  | ok (control_packet payload) ↦ t
  | ok setup_packet ↦ t
  | ok (tcp_packet header payload) ↦ on_tcp device_id t packet header payload max_conn_buffer
]

unfoldable pub process_all : (send : Bytes → Bool) → ℕ → Task → List Bytes → ℕ → Task
unfolding process_device_packet
process_all send device_id t [] max_conn_buffer = t
process_all send device_id t (packet ∷ packets) max_conn_buffer =
    process_all send device_id (process_device_packet send device_id t packet max_conn_buffer)
      packets max_conn_buffer

-- `usb_rx.recv()` returned bytes.
unfoldable pub on_usb_data :
    (send : Bytes → Bool) → ℕ → PacketReassembler → Task → Bytes → ℕ → PacketReassembler × Task
unfolding feed process_all
on_usb_data send device_id r t raw_data max_conn_buffer =
    let (r', packets) = feed r raw_data in
    let counted = record t {
      metrics = record t.metrics {
        usb_rx_bytes = fetch_add t.metrics.usb_rx_bytes (length raw_data);
      };
    } in
    (r', process_all send device_id counted packets max_conn_buffer)
