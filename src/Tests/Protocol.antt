-- ===== src/Tests/Protocol.antt =====
-- A packet of the client protocol, meridian-relay/src/daemon/protocol.rs, over a codec that puts a
-- tag in front of bytes.
use ius.Base.{◌≡◌, refl, Option, none, some, [], ◌∷◌, ◌++◌, ok, arith}
use ius.Base.Words.{Bytes}
use ius.Protocol.{RawPacket, PlistCodec, new, write_to, read_packet}
use ius.Protocol.RoundTrip.{read_packet-write_to}

abbrev untag : Bytes → Option Bytes
untag [] = none
untag (b ∷ body) = some body

abbrev codec : PlistCodec Bytes
codec = record {
  to_writer_xml = λ plist. some (60 ∷ plist);
  from_reader = untag;
  from_bytes = untag;
}

abbrev packet : RawPacket Bytes
packet = new (1 ∷ 2 ∷ []) 1 8 77

read_packet-write_to_example :
    (written : Bytes) × (write_to codec packet ≡ some written)
    × (read_packet codec (written ++ 9 ∷ []) 1024 ≡ ok (record packet { size = 19 }, 9 ∷ []))
read_packet-write_to_example =
    read_packet-write_to codec packet (60 ∷ 1 ∷ 2 ∷ []) (9 ∷ []) 1024 refl refl (omega arith)
      (omega arith) (omega arith) (omega arith) (omega arith) (omega arith)
