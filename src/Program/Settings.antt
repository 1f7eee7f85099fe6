-- ===== src/Program/Settings.antt =====
-- The settings that the command line of meridian-relay/src/main.rs leaves alone.
use ius.Base.{◌≡◌, refl, sym, ◌∙◌, subst}
use ius.Config.Types.{DaemonConfig}
use ius.Config.Merge.{merge_args}
use ius.Config.Layers.{IsResolved}
use ius.Config.Sizes.{SameSizes}
use ius.Program.{Cli, make_daemon_args}

-- All settings but the endpoints, the socket path, the upstream, the backend and the log format are
-- the same.
pub record SameSettings {Addr : Type 0} (l c : DaemonConfig Addr) : Type 0 where
  pub socket_mode : c.socket_mode ≡ l.socket_mode
  pub socket_group : c.socket_group ≡ l.socket_group
  pub pipe_security : c.pipe_security ≡ l.pipe_security
  pub lockdown_dir : c.lockdown_dir ≡ l.lockdown_dir
  pub require_pair_record : c.require_pair_record ≡ l.require_pair_record
  pub scan_interval : c.scan_interval ≡ l.scan_interval
  pub usb_timeout : c.usb_timeout ≡ l.usb_timeout
  pub connect_timeout : c.connect_timeout ≡ l.connect_timeout
  pub max_clients : c.max_clients ≡ l.max_clients
  pub read_workers : c.read_workers ≡ l.read_workers
  pub allowed_uids : c.allowed_uids ≡ l.allowed_uids
  pub allowed_sids : c.allowed_sids ≡ l.allowed_sids
  pub broadcast_capacity : c.broadcast_capacity ≡ l.broadcast_capacity
  pub max_reassembly_bytes : c.max_reassembly_bytes ≡ l.max_reassembly_bytes
  pub max_packet_bytes : c.max_packet_bytes ≡ l.max_packet_bytes
  pub max_conn_buffer : c.max_conn_buffer ≡ l.max_conn_buffer
  pub client_read_buf : c.client_read_buf ≡ l.client_read_buf
  pub max_data_channel : c.max_data_channel ≡ l.max_data_channel
  pub connect_channel : c.connect_channel ≡ l.connect_channel

pub resolved-SameSettings :
    {Addr : Type 0} (cli : Cli) (l c : DaemonConfig Addr)
    → IsResolved (merge_args l (make_daemon_args cli)) c
    → SameSettings l c
unfolding merge_args make_daemon_args
resolved-SameSettings cli l c r =
    subst (λ x. SameSettings l x) (sym r.only)
      (record {
        socket_mode = refl;
        socket_group = refl;
        pipe_security = refl;
        lockdown_dir = refl;
        require_pair_record = refl;
        scan_interval = refl;
        usb_timeout = refl;
        connect_timeout = refl;
        max_clients = refl;
        read_workers = refl;
        allowed_uids = refl;
        allowed_sids = refl;
        broadcast_capacity = refl;
        max_reassembly_bytes = refl;
        max_packet_bytes = refl;
        max_conn_buffer = refl;
        client_read_buf = refl;
        max_data_channel = refl;
        connect_channel = refl;
      })

pub sizes_of :
    {Addr : Type 0} {base : DaemonConfig Addr} (l c : DaemonConfig Addr)
    → SameSettings l c
    → SameSizes base l
    → SameSizes base c
sizes_of l c h k = record {
  broadcast_capacity = h.broadcast_capacity ∙ k.broadcast_capacity;
  max_reassembly_bytes = h.max_reassembly_bytes ∙ k.max_reassembly_bytes;
  max_packet_bytes = h.max_packet_bytes ∙ k.max_packet_bytes;
  max_conn_buffer = h.max_conn_buffer ∙ k.max_conn_buffer;
  client_read_buf = h.client_read_buf ∙ k.client_read_buf;
  max_data_channel = h.max_data_channel ∙ k.max_data_channel;
  connect_channel = h.connect_channel ∙ k.connect_channel;
}
