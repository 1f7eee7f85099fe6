-- ===== src/Mux/Frame/RoundTrip.antt =====
-- Parsing what the frame builders wrote.
use ius.Base.{
  ℕ, ◌+◌, ◌≤◌, ◌<◌, ◌≡◌, refl, ◌∙◌, true, false, Option, none, some, ◌++◌, ltb, le→ltb, lt→ltb,
  ltb→le, tests, Bool-cases, length, ok, drop-take, arith, ◌⊎◌, ◌≢◌, inl, inr, nat_eq, nat_eq_iff,
}
use ius.Base.Table.{all_below, all_below_sound}
use ius.Base.Words.{Bytes, IsU16, IsU32, u32, be16, be32}
use ius.Mux.Types.{TcpHeader, tcp_packet}
use ius.Mux.Frame.{
  parse_mux_header, parse_payload, parse_packet, build_mux_frame, build_tcp_packet, tcp_segment,
  pack_offset_flags, payload_bytes, is_magic, be32_at, parse_tcp_header,
}

-- A payload whose first four bytes are none of the two magics. A v1 frame has no other mark.
abbrev pub LacksMagic : Bytes → Type 0
LacksMagic payload = (length payload < 4) ⊎ (is_magic (be32_at payload 0) ≡ false)

abbrev pub segment_header : (sport dport tcp_seq tcp_ack f window : ℕ) → TcpHeader
segment_header sport dport tcp_seq tcp_ack f window = record {
  source_port = sport;
  dest_port = dport;
  seq = tcp_seq;
  ack = tcp_ack;
  offset_flags = 20480 + f;
  window = window;
}

parse_mux_header-frame_v2 :
    (protocol tx rx : ℕ) (payload : Bytes)
    → IsU32 protocol
    → IsU16 tx
    → IsU16 rx
    → IsU32 (16 + length payload)
    → parse_mux_header (build_mux_frame protocol (some (tx, rx)) payload)
      ≡ ok (record {
        protocol = protocol;
        length = 16 + length payload;
        is_v2 = true;
        tx_seq = tx;
        rx_seq = rx;
      })
unfolding parse_mux_header build_mux_frame
parse_mux_header-frame_v2 protocol tx rx payload hp ht hr hl = ground arith

parse_mux_header-frame_v1 :
    (protocol : ℕ) (payload : Bytes)
    → IsU32 protocol
    → IsU32 (8 + length payload)
    → LacksMagic payload
    → parse_mux_header (build_mux_frame protocol none payload)
      ≡ ok (record {
        protocol = protocol;
        length = 8 + length payload;
        is_v2 = false;
        tx_seq = 0;
        rx_seq = 0;
      })
unfolding parse_mux_header build_mux_frame
parse_mux_header-frame_v1 protocol payload hp hl hm = elim (Bool-cases (ltb (length payload) 4)) [
  | inl few ↦
      rw
        (
          lt→ltb (length (header ++ payload)) 12 (omega tests),
          le→ltb (length (header ++ payload)) 8 (omega arith),
        )
        (ground arith)
  | inr many ↦
      rw
        (
          le→ltb (length (header ++ payload)) 12 (omega tests),
          le→ltb (length (header ++ payload)) 8 (omega arith),
          no_magic hm (ltb→le _ _ many),
        )
        (ground arith)
]
  where
    header : Bytes
    header = be32 protocol ++ be32 (u32 (8 + u32 (length payload)))

    no_magic : LacksMagic payload → 4 ≤ length payload → is_magic (be32_at payload 0) ≡ false
    no_magic (inl few) many = absurd (omega arith)
    no_magic (inr e) many = e

pub parse_packet-frame_v2 :
    (protocol tx rx : ℕ) (payload : Bytes)
    → IsU32 protocol
    → IsU16 tx
    → IsU16 rx
    → IsU32 (16 + length payload)
    → parse_packet (build_mux_frame protocol (some (tx, rx)) payload)
      ≡ parse_payload protocol payload
unfolding parse_packet build_mux_frame
parse_packet-frame_v2 protocol tx rx payload hp ht hr hl = rw (
  parse_mux_header-frame_v2 protocol tx rx payload hp ht hr hl,
  le→ltb (length (build_mux_frame protocol (some (tx, rx)) payload)) (16 + length payload)
      (omega arith),
  le→ltb (16 + length payload) 16 (omega arith),
  drop-take
      (be32 protocol
        ++ (be32 (u32 (16 + u32 (length payload))) ++ (be32 0xFEED_FACE ++ (be16 tx ++ be16 rx))))
      payload 16 (16 + length payload) refl (omega arith),
)

pub parse_packet-frame_v1 :
    (protocol : ℕ) (payload : Bytes)
    → IsU32 protocol
    → IsU32 (8 + length payload)
    → LacksMagic payload
    → parse_packet (build_mux_frame protocol none payload) ≡ parse_payload protocol payload
unfolding parse_packet build_mux_frame
parse_packet-frame_v1 protocol payload hp hl hm = rw (
  parse_mux_header-frame_v1 protocol payload hp hl hm,
  le→ltb (length (build_mux_frame protocol none payload)) (8 + length payload) (omega arith),
  le→ltb (8 + length payload) 8 (omega arith),
  drop-take (be32 protocol ++ be32 (u32 (8 + u32 (length payload)))) payload 8 (8 + length payload)
      refl (omega arith),
)

-- The flags word of a segment: data offset 5, and the low twelve bits of the flags.
offset_flags_table : all_below (λ f. nat_eq (pack_offset_flags f) (20480 + f)) 4096 ≡ true
unfolding all_below pack_offset_flags
offset_flags_table = refl

pub pack_offset_flags-add : (f : ℕ) → f < 4096 → pack_offset_flags f ≡ 20480 + f
pack_offset_flags-add f h = (nat_eq_iff _ _).0 (all_below_sound _ 4096 f h offset_flags_table)

parse_payload_segment :
    (sport dport tcp_seq tcp_ack f window : ℕ) (payload : Option Bytes)
    → IsU16 sport
    → IsU16 dport
    → IsU32 tcp_seq
    → IsU32 tcp_ack
    → f < 4096
    → IsU16 window
    → parse_payload 6 (tcp_segment sport dport tcp_seq tcp_ack f window payload)
      ≡ ok
          (tcp_packet (segment_header sport dport tcp_seq tcp_ack f window) (payload_bytes payload))
unfolding parse_payload parse_tcp_header tcp_segment
parse_payload_segment sport dport tcp_seq tcp_ack f window payload hs hd hq ha hf hw =
    ground (arith, pack_offset_flags-add f hf)

ports_lack_magic :
    (sport dport tcp_seq tcp_ack f window : ℕ) (payload : Option Bytes)
    → IsU16 sport
    → IsU16 dport
    → (dport ≢ 0xFACE) ⊎ ((sport ≢ 0xFEED) × (sport ≢ 0xFACE))
    → is_magic (be32_at (tcp_segment sport dport tcp_seq tcp_ack f window payload) 0) ≡ false
unfolding tcp_segment
ports_lack_magic sport dport tcp_seq tcp_ack f window payload hs hd ports = ground arith

-- A v2 frame that build_tcp_packet wrote from values within their widths parses back to its header,
-- with data offset 5, and to its payload.
pub parse_packet-build_tcp_packet_v2 :
    (tx rx sport dport tcp_seq tcp_ack f window : ℕ) (payload : Option Bytes)
    → IsU16 tx
    → IsU16 rx
    → IsU16 sport
    → IsU16 dport
    → IsU32 tcp_seq
    → IsU32 tcp_ack
    → f < 4096
    → IsU16 window
    → IsU32 (36 + length (payload_bytes payload))
    → parse_packet (build_tcp_packet (some (tx, rx)) sport dport tcp_seq tcp_ack f window payload)
      ≡ ok
          (tcp_packet (segment_header sport dport tcp_seq tcp_ack f window) (payload_bytes payload))
unfolding build_tcp_packet
parse_packet-build_tcp_packet_v2 tx rx sport dport tcp_seq tcp_ack f window payload ht hr hs hd hq
      ha hf hw hl =
    parse_packet-frame_v2 6 tx rx (tcp_segment sport dport tcp_seq tcp_ack f window payload)
      (omega arith) ht hr (unfold tcp_segment in omega arith)
    ∙ parse_payload_segment sport dport tcp_seq tcp_ack f window payload hs hd hq ha hf hw

-- A v1 frame that build_tcp_packet wrote from values within their widths parses back to its header
-- and payload, unless its ports spell one of the two magics.
pub parse_packet-build_tcp_packet_v1 :
    (sport dport tcp_seq tcp_ack f window : ℕ) (payload : Option Bytes)
    → IsU16 sport
    → IsU16 dport
    → IsU32 tcp_seq
    → IsU32 tcp_ack
    → f < 4096
    → IsU16 window
    → IsU32 (28 + length (payload_bytes payload))
    → (dport ≢ 0xFACE) ⊎ ((sport ≢ 0xFEED) × (sport ≢ 0xFACE))
    → parse_packet (build_tcp_packet none sport dport tcp_seq tcp_ack f window payload)
      ≡ ok
          (tcp_packet (segment_header sport dport tcp_seq tcp_ack f window) (payload_bytes payload))
unfolding build_tcp_packet
parse_packet-build_tcp_packet_v1 sport dport tcp_seq tcp_ack f window payload hs hd hq ha hf hw hl
      ports =
    parse_packet-frame_v1 6 (tcp_segment sport dport tcp_seq tcp_ack f window payload) (omega arith)
      (unfold tcp_segment in omega arith)
      (inr (ports_lack_magic sport dport tcp_seq tcp_ack f window payload hs hd ports))
    ∙ parse_payload_segment sport dport tcp_seq tcp_ack f window payload hs hd hq ha hf hw
