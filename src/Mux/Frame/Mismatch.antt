-- ===== src/Mux/Frame/Mismatch.antt =====
-- Frames whose builder and parser disagree about the layout.
use ius.Base.{
  ℕ, ◌≡◌, ◌⊎◌, none, ltb, le→ltb, lt→ltb, tests, Bool-cases, inl, inr, if◌then◌else◌, length, drop,
  ok, err, arith,
}
use ius.Base.Words.{IsU16, IsU32}
use ius.Mux.Types.{TcpPacket, text, invalid_header}
use ius.Mux.Frame.{
  parse_packet, parse_mux_header, parse_payload, parse_tcp_packet, build_tcp_packet,
  build_mux_frame, to_bytes,
}

-- The fields of a TCP header fit their widths.
pub record FitsHeader (p : TcpPacket) : Type 0 where
  pub source_port : IsU16 p.header.source_port
  pub dest_port : IsU16 p.header.dest_port
  pub seq : IsU32 p.header.seq
  pub ack : IsU32 p.header.ack
  pub offset_flags : IsU16 p.header.offset_flags
  pub window : IsU16 p.header.window

-- `to_bytes` writes 18 bytes of header where the parser skips 20: two bytes of the payload are
-- lost, and a payload of fewer than two bytes is refused.
pub parse_tcp_packet-to_bytes :
    (p : TcpPacket)
    → FitsHeader p
    → parse_tcp_packet (to_bytes p) ≡ (
        if ltb (length p.payload) 2
        then err (invalid_header (text "too short"))
        else ok (record p { payload = drop 2 p.payload }))
unfolding parse_tcp_packet to_bytes
parse_tcp_packet-to_bytes p f = elim (Bool-cases (ltb (length p.payload) 2)) [
  | inl few ↦ rw (few, lt→ltb (length (to_bytes p)) 20 (unfold to_bytes in omega tests))
  | inr many ↦
      rw (many, le→ltb (length (to_bytes p)) 20 (unfold to_bytes in omega tests))
        (ground (arith, f.source_port, f.dest_port, f.seq, f.ack, f.offset_flags, f.window))
]

-- A v1 segment without payload between ports that spell a magic is taken for a v2 frame and
-- refused.
pub parse_packet-magic_ports :
    (sport tcp_seq tcp_ack f window : ℕ)
    → (sport ≡ 0xFEED) ⊎ (sport ≡ 0xFACE)
    → parse_packet (build_tcp_packet none sport 0xFACE tcp_seq tcp_ack f window none)
      ≡ err (invalid_header (text "TCP packet too short"))
unfolding build_tcp_packet build_mux_frame parse_packet parse_mux_header parse_payload
parse_packet-magic_ports sport tcp_seq tcp_ack f window (inl e) = rw e
parse_packet-magic_ports sport tcp_seq tcp_ack f window (inr e) = rw e
