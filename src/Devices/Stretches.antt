-- ===== src/Devices/Stretches.antt =====
-- The processing task of a device of meridian-relay/src/daemon/device_manager.rs, cut where it gives
-- other tasks a turn: at its select, between two packets of a read, and around each lock on the
-- connection table that it takes for a packet.
pub mod Soundness
pub mod Alone
use ius.Base.{ℕ, Bool, true, false, List, [], ◌∷◌, ◌++◌, length, leb, ℕ-eq, if◌then◌else◌, ok, err}
use ius.Base.Words.{Bytes}
use ius.Base.Assoc
use ius.Metrics.{Metrics, fetch_add}
use ius.Mux.Types.{
  version_packet, control_packet, setup_packet, tcp_packet, TcpHeader, ConnectionEvent,
}
use ius.Mux.Frame.{parse_packet, build_setup_packet}
use ius.Mux.Reassembler.{PacketReassembler, feed}
use ius.Mux.Connections.{ConnectionManager, handle_tcp_packet}
use ius.Devices.Types.{count_tx}
use ius.Devices.Receiving.{negotiate, track_rx_seq, count_events}

-- Where a task stands, with the packets of the read that it has still to take: at its select;
-- between packets; behind SETUP and before the lock for the version; behind the lock for `rx_seq`
-- and before the one in `handle_tcp_packet`; behind that one, with packets to send.
pub data Stretch : Type 0 where
  idle : Stretch
  processing : (packets : List Bytes) → Stretch
  negotiating : (major : ℕ) (packets : List Bytes) → Stretch
  handling : (header : TcpHeader) (payload : Bytes) (packets : List Bytes) → Stretch
  sending : (queue : List Bytes) (events : List ConnectionEvent) (packets : List Bytes) → Stretch

-- The variables of one task, and what it has sent to its device.
pub record DeviceTask : Type 0 where
  pub device_id : ℕ
  pub reassembler : PacketReassembler
  pub version_negotiated : Bool
  pub phase : Stretch
  pub sent : List Bytes

abbrev pub new_task : (device_id limit : ℕ) → DeviceTask
new_task device_id limit = record {
  device_id = device_id;
  reassembler = record { max_buffer = limit; buffers = [] };
  version_negotiated = false;
  phase = idle;
  sent = [];
}

-- What all tasks share.
pub record Shared : Type 0 where
  pub manager : ConnectionManager
  pub metrics : Metrics

-- The branch of the select for bytes from USB, up to its first packet.
unfoldable pub receive : Shared → DeviceTask → Bytes → Shared × DeviceTask
unfolding feed
receive s t raw_data = (
  record s {
    metrics = record s.metrics {
      usb_rx_bytes = fetch_add s.metrics.usb_rx_bytes (length raw_data);
    };
  },
  record t {
    reassembler = (feed t.reassembler raw_data).0;
    phase = processing (feed t.reassembler raw_data).1;
  },
)

-- SETUP for version 2; its failure leaves the flag alone.
abbrev pub sends_setup : (send : Bytes → Bool) → ℕ → List Bytes → DeviceTask → DeviceTask
sends_setup send major packets t = record t {
  version_negotiated =
      if leb 2 major
      then (if send (build_setup_packet 0 0xFFFF) then true else t.version_negotiated)
      else true;
  sent = if leb 2 major then t.sent ++ build_setup_packet 0 0xFFFF ∷ [] else t.sent;
  phase = negotiating major packets;
}

-- `process_device_packet` up to its first lock, or to the end where it takes none; for a TCP packet
-- with the lock for `rx_seq`.
unfoldable pub begin_packet :
    (send : Bytes → Bool) → Shared → DeviceTask → Bytes → List Bytes → Shared × DeviceTask
unfolding parse_packet track_rx_seq
begin_packet send s t packet packets = elim (parse_packet packet) [
  | err _ ↦ (
    record s { metrics = record s.metrics { parse_errors = fetch_add s.metrics.parse_errors 1 } },
    record t { phase = processing packets },
  )
  | ok (version_packet major minor) ↦ (s, sends_setup send major packets t)
  | ok (control_packet payload) ↦ (s, record t { phase = processing packets })
  | ok setup_packet ↦ (s, record t { phase = processing packets })
  | ok (tcp_packet header payload) ↦ (
    record s { manager = track_rx_seq t.device_id s.manager packet },
    record t { phase = handling header payload packets },
  )
]

-- The next stretch of a task between two reads.
unfoldable pub advance :
    (send : Bytes → Bool) (max_conn_buffer : ℕ)
    → Shared
    → DeviceTask
    → Stretch
    → Shared × DeviceTask
unfolding begin_packet handle_tcp_packet count_events
advance send max_conn_buffer s t idle = (s, t)
advance send max_conn_buffer s t (processing []) = (s, record t { phase = idle })
advance send max_conn_buffer s t (processing (packet ∷ packets)) =
    begin_packet send s t packet packets
advance send max_conn_buffer s t (negotiating major packets) = (
  record s {
    manager = record { devices = Assoc.adjust t.device_id (negotiate major) s.manager.devices };
  },
  record t { phase = processing packets },
)
advance send max_conn_buffer s t (handling header payload packets) =
    let r = handle_tcp_packet s.manager t.device_id header payload s.metrics max_conn_buffer in
    (
      record { manager = r.manager; metrics = r.metrics },
      record t { phase = sending r.send_queue r.events packets },
    )
advance send max_conn_buffer s t (sending (packet ∷ queue) events packets) = (
  record s { metrics = count_tx s.metrics packet },
  record t { sent = t.sent ++ packet ∷ []; phase = sending queue events packets },
)
advance send max_conn_buffer s t (sending [] events packets) =
    (record s { metrics = count_events s.metrics events }, record t { phase = processing packets })
