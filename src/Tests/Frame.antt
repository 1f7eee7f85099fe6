-- ===== src/Tests/Frame.antt =====
-- Unit tests of meridian-relay/src/daemon/mux.rs, and instances of the theorems about frames.
use ius.Base.{◌≡◌, refl, none, some, true, [], ◌∷◌, inl, ok, arith}
use ius.Mux.Types.{version_packet, tcp_packet, TcpPacket}
use ius.Mux.Frame.{
  parse_packet, parse_mux_header, parse_payload, parse_tcp_packet, to_bytes, build_version_request,
  build_tcp_packet, build_setup_packet,
}
use ius.Mux.Frame.RoundTrip.{
  segment_header, parse_packet-build_tcp_packet_v2, parse_packet-build_tcp_packet_v1,
}
use ius.Mux.Frame.Mismatch.{parse_tcp_packet-to_bytes}

version_request_parses : parse_packet build_version_request ≡ ok (version_packet 2 0)
unfolding parse_packet parse_mux_header parse_payload build_version_request
version_request_parses = refl

setup_packet_header :
    parse_mux_header (build_setup_packet 0 0xFFFF)
    ≡ ok (record { protocol = 2; length = 17; is_v2 = true; tx_seq = 0; rx_seq = 0xFFFF })
unfolding parse_mux_header build_setup_packet
setup_packet_header = refl

parse_packet-build_tcp_packet_v2_example :
    parse_packet (build_tcp_packet (some (42, 21)) 1100 62078 1 77 16 512 (some (7 ∷ 8 ∷ [])))
    ≡ ok (tcp_packet (segment_header 1100 62078 1 77 16 512) (7 ∷ 8 ∷ []))
parse_packet-build_tcp_packet_v2_example =
    parse_packet-build_tcp_packet_v2 42 21 1100 62078 1 77 16 512 (some (7 ∷ 8 ∷ [])) (omega arith)
      (omega arith) (omega arith) (omega arith) (omega arith) (omega arith) (omega arith)
      (omega arith) (omega arith)

parse_packet-build_tcp_packet_v1_example :
    parse_packet (build_tcp_packet none 1100 62078 1 77 16 512 (some (7 ∷ 8 ∷ [])))
    ≡ ok (tcp_packet (segment_header 1100 62078 1 77 16 512) (7 ∷ 8 ∷ []))
parse_packet-build_tcp_packet_v1_example =
    parse_packet-build_tcp_packet_v1 1100 62078 1 77 16 512 (some (7 ∷ 8 ∷ [])) (omega arith)
      (omega arith) (omega arith) (omega arith) (omega arith) (omega arith) (omega arith)
      (inl (omega arith))

abbrev five_bytes : TcpPacket
five_bytes = record { header = segment_header 80 50 1 2 2 0; payload = 1 ∷ 2 ∷ 3 ∷ 4 ∷ 5 ∷ [] }

parse_tcp_packet-to_bytes_example :
    parse_tcp_packet (to_bytes five_bytes) ≡ ok (record five_bytes { payload = 3 ∷ 4 ∷ 5 ∷ [] })
parse_tcp_packet-to_bytes_example = parse_tcp_packet-to_bytes five_bytes (omega arith)
