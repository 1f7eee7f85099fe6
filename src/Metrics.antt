-- ===== src/Metrics.antt =====
-- meridian-relay/src/metrics.rs. A counter is its 64-bit pattern: `fetch_add` and `fetch_sub`
-- wrap, and the `AtomicI64` counters are read as two's complement. The start time and the JSON
-- form are not modelled; the uptime is an argument of `snapshot`.
use ius.Base.{ℕ, ◌+◌, ◌-◌, ◌%◌, ◌^◌}

pub record Metrics : Type 0 where
  pub clients_accepted : ℕ
  pub clients_rejected : ℕ
  pub clients_active : ℕ
  pub commands_total : ℕ
  pub list_devices_total : ℕ
  pub listens_active : ℕ
  pub connects_total : ℕ
  pub connect_failures : ℕ
  pub proxies_started : ℕ
  pub proxies_ended : ℕ
  pub usb_tx_bytes : ℕ
  pub usb_rx_bytes : ℕ
  pub client_tx_bytes : ℕ
  pub client_rx_bytes : ℕ
  pub devices_attached : ℕ
  pub parse_errors : ℕ
  pub pair_reads : ℕ
  pub pair_writes : ℕ
  pub pair_deletes : ℕ
  pub rsts_received : ℕ
  pub overflow_rejections : ℕ

unfoldable pub new : Metrics
new = record {
  clients_accepted = 0;
  clients_rejected = 0;
  clients_active = 0;
  commands_total = 0;
  list_devices_total = 0;
  listens_active = 0;
  connects_total = 0;
  connect_failures = 0;
  proxies_started = 0;
  proxies_ended = 0;
  usb_tx_bytes = 0;
  usb_rx_bytes = 0;
  client_tx_bytes = 0;
  client_rx_bytes = 0;
  devices_attached = 0;
  parse_errors = 0;
  pair_reads = 0;
  pair_writes = 0;
  pair_deletes = 0;
  rsts_received = 0;
  overflow_rejections = 0;
}

-- `fetch_add(n)` and `fetch_sub(1)` on a 64-bit counter.
abbrev pub fetch_add : ℕ → ℕ → ℕ
fetch_add counter n = (counter + n) % 2 ^ 64

abbrev pub fetch_sub_one : ℕ → ℕ
fetch_sub_one counter = (counter + 2 ^ 64 - 1) % 2 ^ 64

pub record StatsSnapshot : Type 0 where
  pub uptime_secs : ℕ
  pub counters : Metrics

unfoldable pub snapshot : ℕ → Metrics → StatsSnapshot
snapshot uptime_secs m = record { uptime_secs = uptime_secs; counters = m }

-- `ListenGuard::new` and its `Drop`.
unfoldable pub listen_guard_new : Metrics → Metrics
listen_guard_new m = record m { listens_active = fetch_add m.listens_active 1 }

unfoldable pub listen_guard_drop : Metrics → Metrics
listen_guard_drop m = record m { listens_active = fetch_sub_one m.listens_active }
