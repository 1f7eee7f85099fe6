-- ===== src/Mux/Frame.antt =====
-- Building and parsing mux frames: the free functions of meridian-relay/src/daemon/mux.rs.
-- Additions on u32 wrap, as in the release profile.
pub mod RoundTrip
pub mod Mismatch
pub mod Window
use Prim.Native.Nat.{bit_and, bit_or, min}
use ius.Base.{
  ℕ, ◌+◌, ◌/◌, ◌*◌, ◌^◌, Bool, ◌&&◌, ◌||◌, Option, none, some, [], ◌∷◌, ◌++◌, ltb, nat_eq,
  if◌then◌else◌, length, get_or, take, drop, Outcome, ok, err, ◌>>=◌,
}
use ius.Base.Words.{Bytes, u8, u16, u32, be16, be32, from_be16, from_be32, wrapping_add16}
use ius.Mux.Types.{
  header_version, header_control, header_setup, header_tcp, text, too_short, inconsistent_length,
  MuxError, invalid_header, unsupported_protocol, MuxHeader, header_len, TcpHeader, TcpPacket,
  MuxPacket, version_packet, control_packet, setup_packet, tcp_packet,
}

-- `u16::from_be_bytes` and `u32::from_be_bytes` of the bytes from index `i` on.
abbrev pub be16_at : Bytes → ℕ → ℕ
be16_at xs i = from_be16 (get_or xs i 0) (get_or xs (i + 1) 0)

abbrev pub be32_at : Bytes → ℕ → ℕ
be32_at xs i =
    from_be32 (get_or xs i 0) (get_or xs (i + 1) 0) (get_or xs (i + 2) 0) (get_or xs (i + 3) 0)

-- The two magics, 0xFEEDFACE and 0xFACEFACE.
abbrev pub is_magic : ℕ → Bool
is_magic m = nat_eq m 0xFEED_FACE || nat_eq m 0xFACE_FACE

unfoldable pub parse_mux_header : Bytes → Outcome MuxError MuxHeader
parse_mux_header xs =
    if ltb (length xs) 8
    then err (invalid_header (too_short (length xs)))
    else let is_v2 = (if ltb (length xs) 12 then Bool.false else is_magic (be32_at xs 8)) in
      let with_seqs = is_v2 && (if ltb (length xs) 16 then Bool.false else Bool.true) in
      ok (record {
        protocol = be32_at xs 0;
        length = be32_at xs 4;
        is_v2 = is_v2;
        tx_seq = if with_seqs then be16_at xs 12 else 0;
        rx_seq = if with_seqs then be16_at xs 14 else 0;
      })

unfoldable pub parse_tcp_header : Bytes → Outcome MuxError TcpHeader
parse_tcp_header xs =
    if ltb (length xs) 20
    then err (invalid_header (text "too short"))
    else ok (record {
      source_port = be16_at xs 0;
      dest_port = be16_at xs 2;
      seq = be32_at xs 4;
      ack = be32_at xs 8;
      offset_flags = be16_at xs 12;
      window = be16_at xs 14;
    })

unfoldable pub parse_tcp_packet : Bytes → Outcome MuxError TcpPacket
unfolding parse_tcp_header
parse_tcp_packet xs = do
  header ← parse_tcp_header xs
  ok (record { header = header; payload = drop 20 xs })

-- The `match header.protocol` of `parse_packet`.
unfoldable pub parse_payload : ℕ → Bytes → Outcome MuxError MuxPacket
parse_payload protocol payload =
    if nat_eq protocol header_version
    then ok (
        version_packet (if ltb (length payload) 4 then 0 else be32_at payload 0)
          (if ltb (length payload) 8 then 0 else be32_at payload 4))
    else if nat_eq protocol header_control
    then ok (control_packet payload)
    else if nat_eq protocol header_setup
    then ok setup_packet
    else if nat_eq protocol header_tcp
    then (if ltb (length payload) 20
        then err (invalid_header (text "TCP packet too short"))
        else do header ← parse_tcp_header payload; ok (tcp_packet header (drop 20 payload)))
    else err (unsupported_protocol protocol)

-- `&data[start..end]`
abbrev pub slice : Bytes → ℕ → ℕ → Bytes
slice xs start end = drop start (take end xs)

unfoldable pub parse_packet : Bytes → Outcome MuxError MuxPacket
unfolding header_len
parse_packet xs = do
  header ← parse_mux_header xs
  if ltb (length xs) header.length || ltb header.length (header_len header)
      then err (invalid_header (inconsistent_length header.length (length xs) (header_len header)))
      else parse_payload header.protocol (slice xs (header_len header) header.length)

-- `TcpPacketExt::to_bytes`
unfoldable pub to_bytes : TcpPacket → Bytes
to_bytes p =
    be16 p.header.source_port
    ++ (be16 p.header.dest_port
        ++ (be32 p.header.seq
            ++ (be32 p.header.ack
                ++ (be16 p.header.offset_flags ++ (be16 p.header.window ++ (0 ∷ 0 ∷ p.payload))))))

unfoldable pub build_control_result : ℕ → ℕ → Bytes
build_control_result tag status =
    0
    ∷ 0
    ∷ 0
    ∷ 0
    ∷ 0
    ∷ 0
    ∷ 0
    ∷ 12
    ∷ 0
    ∷ 0
    ∷ 0
    ∷ 1
    ∷ status
    ∷ 0
    ∷ 0
    ∷ 0
    ∷ u8 (tag / 2 ^ 24)
    ∷ u8 (tag / 2 ^ 16)
    ∷ u8 (tag / 2 ^ 8)
    ∷ u8 tag
    ∷ 0
    ∷ 0
    ∷ 0
    ∷ 0
    ∷ []

unfoldable pub build_setup_connect : ℕ → ℕ → Bytes
build_setup_connect source_port dest_port =
    0
    ∷ 0
    ∷ 0
    ∷ 2
    ∷ 0
    ∷ 0
    ∷ 0
    ∷ 17
    ∷ 0xFE
    ∷ 0xED
    ∷ 0xFA
    ∷ 0xCE
    ∷ 0
    ∷ 0
    ∷ 0
    ∷ 0
    ∷ 0
    ∷ 0
    ∷ 0
    ∷ 1
    ∷ 7
    ∷ u8 (source_port / 2 ^ 8)
    ∷ u8 source_port
    ∷ u8 (dest_port / 2 ^ 8)
    ∷ u8 dest_port
    ∷ []

unfoldable pub build_mux_frame : ℕ → Option (ℕ × ℕ) → Bytes → Bytes
build_mux_frame protocol (some (tx, rx)) payload =
    be32 protocol
    ++ (be32 (u32 (16 + u32 (length payload)))
        ++ (be32 0xFEED_FACE ++ (be16 tx ++ (be16 rx ++ payload))))
build_mux_frame protocol none payload =
    be32 protocol ++ (be32 (u32 (8 + u32 (length payload))) ++ payload)

unfoldable pub build_version_request : Bytes
unfolding build_mux_frame
build_version_request = build_mux_frame header_version none (be32 2 ++ (be32 0 ++ be32 0))

unfoldable pub build_setup_packet : ℕ → ℕ → Bytes
unfolding build_mux_frame
build_setup_packet tx_seq rx_seq = build_mux_frame header_setup (some (tx_seq, rx_seq)) (0x07 ∷ [])

unfoldable pub build_mux_header : ℕ → ℕ → Bytes
build_mux_header protocol total = be32 protocol ++ be32 total

-- `(0x5u16 << 12) | (0x0FFF & flags)`
unfoldable pub pack_offset_flags : ℕ → ℕ
pack_offset_flags f = bit_or (u16 (0x5 * 2 ^ 12)) (bit_and 0x0fff f)

abbrev pub payload_bytes : Option Bytes → Bytes
payload_bytes none = []
payload_bytes (some xs) = xs

-- The TCP header and payload that `build_tcp_packet` wraps in a mux frame.
unfoldable pub tcp_segment : (sport dport tcp_seq tcp_ack f window : ℕ) → Option Bytes → Bytes
tcp_segment sport dport tcp_seq tcp_ack f window payload =
    be16 sport
    ++ (be16 dport
        ++ (be32 tcp_seq
            ++ (be32 tcp_ack
                ++ (be16 (pack_offset_flags f)
                    ++ (be16 window ++ (0 ∷ 0 ∷ 0 ∷ 0 ∷ payload_bytes payload))))))

unfoldable pub build_tcp_packet :
    Option (ℕ × ℕ) → (sport dport tcp_seq tcp_ack f window : ℕ) → Option Bytes → Bytes
unfolding build_mux_frame tcp_segment
build_tcp_packet v2 sport dport tcp_seq tcp_ack f window payload =
    build_mux_frame header_tcp v2 (tcp_segment sport dport tcp_seq tcp_ack f window payload)

unfoldable pub build_control_packet : Option (ℕ × ℕ) → Bytes → Bytes
unfolding build_mux_frame
build_control_packet v2 payload = build_mux_frame header_control v2 payload

unfoldable pub build_packet : ℕ → Bytes → Bytes
build_packet protocol xs = be32 protocol ++ (be32 (u32 (length xs)) ++ xs)

unfoldable pub increment_seq : ℕ → ℕ
increment_seq seq = wrapping_add16 seq 1

unfoldable pub scaled_window : ℕ → ℕ
scaled_window free_bytes = u16 (min (free_bytes / 2 ^ 8) 65535)
