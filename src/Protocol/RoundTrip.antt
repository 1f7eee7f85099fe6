-- ===== src/Protocol/RoundTrip.antt =====
-- Reading what was written.
use ius.Base.{
  ℕ, ◌+◌, ◌-◌, ◌≤◌, ◌≡◌, refl, ◌≢◌, some, ◌++◌, le→ltb, length, length-append, get_or, take_all,
  drop_all, ok, arith,
}
use ius.Base.Words.{Bytes, u32, le32, IsU32}
use ius.Protocol.{RawPacket, PlistCodec, write_to, parse_body, read_packet, le32_at}

module _ {Plist : Type 0} (codec : PlistCodec Plist) where
  -- The header of a written packet, word by word, and its body.
  abbrev frame : RawPacket Plist → Bytes → Bytes
  frame p body =
      le32 (u32 (length body + 16)) ++ (le32 p.version ++ (le32 p.message ++ (le32 p.tag ++ body)))

  frame-words :
      (p : RawPacket Plist) (body rest : Bytes)
      → IsU32 (length body + 16)
      → IsU32 p.version
      → IsU32 p.message
      → IsU32 p.tag
      → (le32_at (frame p body ++ rest) 0 ≡ length body + 16)
        × (le32_at (frame p body ++ rest) 4 ≡ p.version)
        × (le32_at (frame p body ++ rest) 8 ≡ p.message)
        × (le32_at (frame p body ++ rest) 12 ≡ p.tag)
  frame-words p body rest hl hv hm ht = (omega arith, omega arith, omega arith, omega arith)

  parse_body-xml :
      (body : Bytes) (plist : Plist)
      → codec.from_bytes body ≡ some plist
      → get_or body 0 0 ≢ 98
      → parse_body codec body ≡ ok plist
  unfolding parse_body
  parse_body-xml body plist e h = ground arith

  -- A client packet that was written is read back, with its size filled in and the rest of the
  -- stream left alone, when its fields fit 32 bits, its body is within the limit, and the XML
  -- parser undoes the XML writer on a body that does not begin with the letter b.
  pub read_packet-write_to :
      (p : RawPacket Plist) (body rest : Bytes) (max : ℕ)
      → codec.to_writer_xml p.plist ≡ some body
      → codec.from_bytes body ≡ some p.plist
      → get_or body 0 0 ≢ 98
      → IsU32 (length body + 16)
      → IsU32 p.version
      → IsU32 p.message
      → IsU32 p.tag
      → length body ≤ max
      → (written : Bytes) × (write_to codec p ≡ some written)
        × (read_packet codec (written ++ rest) max
            ≡ ok (record p { size = length body + 16 }, rest))
  unfolding write_to read_packet
  read_packet-write_to p body rest max w r b hl hv hm ht small =
      let (s, v, m, t) = frame-words p body rest hl hv hm ht in
      (
        frame p body,
        rw (w, write_to) refl,
        rw
            (
              le→ltb (length (frame p body ++ rest)) 16 (omega arith),
              s,
              le→ltb (length body + 16) 16 (omega arith),
              le→ltb max (length body + 16 - 16) (omega arith),
              le→ltb (length (body ++ rest)) (length body + 16 - 16)
                  (omega (arith, length-append body rest)),
              same,
              take_all body rest,
              parse_body-xml body p.plist r b,
              v,
              m,
              t,
              s,
              same,
              drop_all body rest,
            )
            refl,
      )
    where
      same : length body + 16 - 16 ≡ length body
      same = omega arith
