-- ===== src/Mux/Connections.antt =====
-- `ConnectionManager` of meridian-relay/src/daemon/mux.rs. A method takes the table and returns
-- it changed: each holds the write lock throughout. `data_notify` records the calls of `Notify`.
pub mod Ports
pub mod Validity
pub mod Delivery
pub mod Stream
pub mod Acknowledge
pub mod Opening
use Prim.Native.Nat.{min}
use ius.Base.{
  ℕ, zero, suc, ◌+◌, ◌-◌, Bool, true, false, not, ◌&&◌, ◌||◌, Option, none, some, List, [], ◌∷◌,
  ◌++◌, ltb, nat_eq, ℕ-eq, if◌then◌else◌, is_empty, length, Outcome, ok, err,
}
use ius.Base.Words.{Bytes, u32, wrapping_add16, wrapping_add32}
use ius.Base.Assoc
use ius.Base.Assoc.{Assoc}
use ius.Metrics.{Metrics, fetch_add}
use ius.Mux.Types.{
  DeviceState, idle, ConnState, syn_sent, connected, close_wait, dead, MuxError, invalid_state,
  Message, text, ConnectionEvent, connected_event, data_ready, disconnected, error_event, TcpHeader,
  flags, has_flag, tcp_syn, tcp_ack_flag, tcp_rst, tcp_fin,
}
use ius.Mux.Frame.{build_tcp_packet, scaled_window}

pub data Wake : Type 0 where
  notify_waiters notify_one : Wake

pub record Connection : Type 0 where
  pub source_port : ℕ
  pub dest_port : ℕ
  pub state : ConnState
  pub tx_seq : ℕ
  pub tx_ack : ℕ
  pub ib_buf : Bytes
  pub ob_buf : Bytes
  pub data_notify : List Wake
  pub tag : ℕ

pub record MuxDevice : Type 0 where
  pub device_id : ℕ
  pub connections : Assoc ℕ Connection
  pub version : ℕ
  pub state : DeviceState
  pub tx_seq : ℕ
  pub rx_seq : ℕ

pub record ConnectionManager : Type 0 where
  pub devices : Assoc ℕ MuxDevice

abbrev pub empty : ConnectionManager
empty = record { devices = [] }

abbrev pub new_device : ℕ → MuxDevice
new_device device_id = record {
  device_id = device_id;
  connections = [];
  version = 1;
  state = idle;
  tx_seq = 1;
  rx_seq = 1;
}

unfoldable pub add_device : ConnectionManager → ℕ → ConnectionManager
add_device m device_id =
    if Assoc.contains_key device_id m.devices
    then m
    else record { devices = Assoc.insert device_id (new_device device_id) m.devices }

unfoldable pub remove_device : ConnectionManager → ℕ → ConnectionManager
remove_device m device_id = record { devices = Assoc.remove device_id m.devices }

unfoldable pub get_data_notify : ConnectionManager → ℕ → ℕ → Option (List Wake)
get_data_notify m device_id sport = elim (Assoc.lookup device_id m.devices) [
  | none ↦ none
  | some d ↦ elim (Assoc.lookup sport d.connections) [ none ↦ none | some c ↦ some c.data_notify ]
]

-- `(p..p + n).find(|p| !connections.contains_key(p))`
unfoldable pub first_free : ℕ → ℕ → Assoc ℕ Connection → Option ℕ
first_free zero p connections = none
first_free (suc n) p connections =
    let rest = first_free n (p + 1) connections in
    if Assoc.contains_key p connections then rest else some p

-- `1024u16..65535` holds this many ports, the last of them 65534.
abbrev pub port_count : ℕ
port_count = 65535 - 1024

unfoldable pub new_connection : (sport dport tag : ℕ) → Connection
new_connection sport dport tag = record {
  source_port = sport;
  dest_port = dport;
  state = syn_sent;
  tx_seq = 0;
  tx_ack = 0;
  ib_buf = [];
  ob_buf = [];
  data_notify = [];
  tag = tag;
}

unfoldable pub start_connect :
    ConnectionManager → (device_id dport tag : ℕ) → ConnectionManager × Outcome MuxError ℕ
unfolding new_connection
start_connect m device_id dport tag = elim (Assoc.lookup device_id m.devices) [
  | none ↦ (m, err (invalid_state (text "device not found")))
  | some device ↦ elim (first_free port_count 1024 device.connections) [
    | none ↦ (m, err (invalid_state (text "no available ports")))
    | some sport ↦
        let conn = new_connection sport dport tag in
        let device' = record device { connections = Assoc.insert sport conn device.connections } in
        (record { devices = Assoc.adjust device_id (λ _. device') m.devices }, ok sport)
  ]
]

-- `keys().find(|k| test(get(k)))`
unfoldable pub find_key : (Connection → Bool) → Assoc ℕ Connection → Option ℕ
find_key test [] = none
find_key test ((k, c) ∷ m) = if test c then some k else find_key test m

abbrev pub matches_exactly : TcpHeader → Connection → Bool
matches_exactly h c = nat_eq c.source_port h.dest_port && nat_eq c.dest_port h.source_port

abbrev pub matches_loosely : TcpHeader → Connection → Bool
matches_loosely h c = nat_eq c.source_port h.source_port || nat_eq c.dest_port h.source_port

unfoldable pub conn_key : TcpHeader → Assoc ℕ Connection → Option ℕ
unfolding find_key
conn_key h connections = elim (find_key (matches_exactly h) connections) [
  | some k ↦ some k
  | none ↦ find_key (matches_loosely h) connections
]

-- The sequence numbers of a v2 header; none below protocol version 2.
abbrev pub v2_seqs : MuxDevice → Option (ℕ × ℕ)
v2_seqs d = if ltb d.version 2 then none else some (d.tx_seq, d.rx_seq)

pub record Handled : Type 0 where
  pub device : MuxDevice
  pub conn : Connection
  pub metrics : Metrics
  pub events : List ConnectionEvent
  pub send_queue : List Bytes

-- The acknowledgement that the device is sent, and the count of packets with it.
abbrev pub ack_packet : MuxDevice → Connection → ℕ → Bytes
ack_packet d c window =
    build_tcp_packet (v2_seqs d) c.source_port c.dest_port c.tx_seq c.tx_ack tcp_ack_flag window
      none

abbrev pub count_packet : MuxDevice → MuxDevice
count_packet d = record d { tx_seq = wrapping_add16 d.tx_seq 1 }

unfoldable pub on_syn_ack : (device_id : ℕ) → MuxDevice → Connection → TcpHeader → Metrics → Handled
on_syn_ack device_id d c h metrics =
    let c' = record c { state = connected; tx_ack = wrapping_add32 h.seq 1 } in
    record {
      device = count_packet d;
      conn = c';
      metrics = metrics;
      events = connected_event device_id c.source_port c.tag ∷ [];
      send_queue = ack_packet d c' 65535 ∷ [];
    }

abbrev close_with : ConnState → (device_id : ℕ) → MuxDevice → Connection → Metrics → Handled
close_with s device_id d c metrics = record {
  device = d;
  conn = record c { state = s };
  metrics = metrics;
  events = disconnected device_id c.source_port ∷ [];
  send_queue = [];
}

unfoldable pub on_data :
    (device_id : ℕ) → MuxDevice → Connection → TcpHeader → Bytes → Metrics → ℕ → Handled
on_data device_id d c h payload metrics max_conn_buffer =
    let buffered = c.ib_buf ++ payload in
    let c' = record c { tx_ack = wrapping_add32 h.seq (u32 (length payload)); ib_buf = buffered } in
    let free = max_conn_buffer - length buffered in
    if ltb max_conn_buffer (length c.ib_buf + length payload)
    then record {
      device = d;
      conn = c;
      metrics = record metrics { overflow_rejections = fetch_add metrics.overflow_rejections 1 };
      events = [];
      send_queue = [];
    }
    else record {
      device = count_packet d;
      conn = record c' { data_notify = c.data_notify ++ notify_waiters ∷ [] };
      metrics = metrics;
      events = data_ready device_id c.source_port ∷ [];
      send_queue = ack_packet d c' (scaled_window free) ∷ [];
    }

-- The ladder of flag tests on the connection that the packet belongs to.
unfoldable pub handle_on_conn :
    (device_id : ℕ) → MuxDevice → Connection → TcpHeader → Bytes → Metrics → ℕ → Handled
handle_on_conn device_id d c h payload metrics max_conn_buffer =
    if has_flag (flags h) tcp_syn && has_flag (flags h) tcp_ack_flag
    then on_syn_ack device_id d c h metrics
    else if has_flag (flags h) tcp_rst
    then close_with dead device_id d c metrics
    else if has_flag (flags h) tcp_fin
    then close_with close_wait device_id d c metrics
    else if not (is_empty payload)
    then on_data device_id d c h payload metrics max_conn_buffer
    else record { device = d; conn = c; metrics = metrics; events = []; send_queue = [] }

pub record Reply : Type 0 where
  pub manager : ConnectionManager
  pub metrics : Metrics
  pub events : List ConnectionEvent
  pub send_queue : List Bytes

-- The device with its changed connection goes back into the table.
abbrev pub store : ConnectionManager → ℕ → ℕ → Handled → Reply
store m device_id key r = record {
  manager = record {
    devices =
        Assoc.adjust device_id
          (λ _. record r.device {
            connections = Assoc.adjust key (λ _. r.conn) r.device.connections;
          })
          m.devices;
  };
  metrics = r.metrics;
  events = r.events;
  send_queue = r.send_queue;
}

abbrev pub untouched : ConnectionManager → Metrics → List ConnectionEvent → Reply
untouched m metrics events = record {
  manager = m;
  metrics = metrics;
  events = events;
  send_queue = [];
}

-- `get_mut(&key).unwrap()` cannot fail: the key was found in the same map (`Ports`).
unfoldable pub handle_tcp_packet :
    ConnectionManager → (device_id : ℕ) → TcpHeader → Bytes → Metrics → ℕ → Reply
handle_tcp_packet m device_id h payload metrics max_conn_buffer =
    elim (Assoc.lookup device_id m.devices) [
      | none ↦ untouched m metrics []
      | some d ↦ elim (conn_key h d.connections) [
        | none ↦ untouched m metrics (error_event device_id h.source_port "unknown connection" ∷ [])
        | some key ↦ elim (Assoc.lookup key d.connections) [
          | none ↦ untouched m metrics []
          | some c ↦
              store m device_id key (handle_on_conn device_id d c h payload metrics max_conn_buffer)
        ]
      ]
    ]
