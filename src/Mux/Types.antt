-- ===== src/Mux/Types.antt =====
-- The constants and the types of meridian-relay/src/daemon/mux.rs. A `String` that the source
-- formats from numbers is a constructor of `Message` with those numbers.
use Prim.Native.Nat.{bit_and}
use ius.Base.{ℕ, ◌/◌, ◌^◌, String, Bool, true, false, not, nat_eq, if◌then◌else◌}
use ius.Base.Words.{Bytes, u8}

abbrev pub header_size : ℕ
header_size = 8

abbrev pub header_version : ℕ
header_version = 0

abbrev pub header_control : ℕ
header_control = 1

abbrev pub header_setup : ℕ
header_setup = 2

abbrev pub header_tcp : ℕ
header_tcp = 6

abbrev pub tcp_fin : ℕ
tcp_fin = 0x001

abbrev pub tcp_syn : ℕ
tcp_syn = 0x002

abbrev pub tcp_rst : ℕ
tcp_rst = 0x004

abbrev pub tcp_psh : ℕ
tcp_psh = 0x008

abbrev pub tcp_ack_flag : ℕ
tcp_ack_flag = 0x010

abbrev pub initial_window : ℕ
initial_window = 131072

pub data DeviceState : Type 0 where
  idle active : DeviceState

pub data ConnState : Type 0 where
  syn_sent syn_ack_received established connected refused : ConnState
  fin_wait1 close_wait closing closed dead : ConnState

unfoldable pub is_active : ConnState → Bool
is_active ConnState.established = true
is_active ConnState.connected = true
is_active ConnState.close_wait = true
is_active _ = false

pub data Message : Type 0 where
  text : String → Message
  too_short : ℕ → Message
  inconsistent_length : ℕ → ℕ → ℕ → Message

pub data MuxError : Type 0 where
  invalid_header invalid_version invalid_state io_error usb_error channel_error : Message → MuxError
  unsupported_version unsupported_protocol : ℕ → MuxError

pub data ConnectionEvent : Type 0 where
  connected_event : (device_id sport tag : ℕ) → ConnectionEvent
  refused_event : (device_id sport tag : ℕ) → ConnectionEvent
  data_ready : (device_id sport : ℕ) → ConnectionEvent
  disconnected : (device_id sport : ℕ) → ConnectionEvent
  error_event : (device_id sport : ℕ) → String → ConnectionEvent

pub record MuxHeader : Type 0 where
  pub protocol : ℕ
  pub length : ℕ
  pub is_v2 : Bool
  pub tx_seq : ℕ
  pub rx_seq : ℕ

unfoldable pub header_len : MuxHeader → ℕ
header_len h = if h.is_v2 then 16 else 8

pub record TcpHeader : Type 0 where
  pub source_port : ℕ
  pub dest_port : ℕ
  pub seq : ℕ
  pub ack : ℕ
  pub offset_flags : ℕ
  pub window : ℕ

unfoldable pub offset : TcpHeader → ℕ
offset h = u8 (bit_and (h.offset_flags / 2 ^ 12) 0x0f)

unfoldable pub flags : TcpHeader → ℕ
flags h = bit_and h.offset_flags 0x0ff

-- `flags & mask != 0`
unfoldable pub has_flag : ℕ → ℕ → Bool
has_flag f mask = not (nat_eq (bit_and f mask) 0)

pub record TcpPacket : Type 0 where
  pub header : TcpHeader
  pub payload : Bytes

pub data MuxPacket : Type 0 where
  version_packet : (major minor : ℕ) → MuxPacket
  control_packet : Bytes → MuxPacket
  setup_packet : MuxPacket
  tcp_packet : TcpHeader → Bytes → MuxPacket
