-- ===== src/Devices/Types.antt =====
-- What the operations of meridian-relay/src/daemon/device_manager.rs leave behind.
use ius.Base.{List, [], length}
use ius.Base.Words.{Bytes}
use ius.Metrics.{Metrics, fetch_add}
use ius.Mux.Connections.{ConnectionManager}

-- The connection table, the counters, and the packets given to `usb.send`, the failed ones too.
pub record Io : Type 0 where
  pub manager : ConnectionManager
  pub metrics : Metrics
  pub sent : List Bytes

abbrev pub io : ConnectionManager → Metrics → Io
io m metrics = record { manager = m; metrics = metrics; sent = [] }

-- `metrics.usb_tx_bytes.fetch_add(pkt.len())`
abbrev pub count_tx : Metrics → Bytes → Metrics
count_tx metrics packet = record metrics {
  usb_tx_bytes = fetch_add metrics.usb_tx_bytes (length packet);
}
