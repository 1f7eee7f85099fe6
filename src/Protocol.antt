-- ===== src/Protocol.antt =====
-- The packets of the client protocol, meridian-relay/src/daemon/protocol.rs: a header of four
-- little-endian words and a property list. The property list codec is a parameter, and the stream
-- is the bytes that it delivers until it ends.
pub mod RoundTrip
pub mod Plist
pub mod ResultCode
pub mod Messages
pub mod Views
use ius.Base.{
  ℕ, ◌+◌, ◌*◌, ◌-◌, Bool, true, false, not, ◌&&◌, Option, none, some, List, [], ◌∷◌, ◌++◌, ltb,
  nat_eq, if◌then◌else◌, is_empty, length, get_or, take, drop, Outcome, ok, err,
}
use ius.Base.Words.{Bytes, u32, le32, from_le32}

abbrev pub xml_plist_version : ℕ
xml_plist_version = 1

abbrev pub plist_message_type : ℕ
plist_message_type = 8

pub record RawPacket (Plist : Type 0) : Type 0 where
  pub size : ℕ
  pub version : ℕ
  pub message : ℕ
  pub tag : ℕ
  pub plist : Plist

abbrev pub new : {Plist : Type 0} → Plist → (version message tag : ℕ) → RawPacket Plist
new plist version message tag = record {
  size = 0;
  version = version;
  message = message;
  tag = tag;
  plist = plist;
}

pub data ReadError : Type 0 where
  unexpected_eof : ReadError
  size_too_small body_too_large : ℕ → ReadError
  binary_parse_error xml_parse_error : ReadError

pub record PlistCodec (Plist : Type 0) : Type 0 where
  pub to_writer_xml : Plist → Option Bytes
  pub from_reader : Bytes → Option Plist
  pub from_bytes : Bytes → Option Plist

-- `u32::from_le_bytes` of the bytes from index `i` on.
abbrev pub le32_at : Bytes → ℕ → ℕ
le32_at xs i =
    from_le32 (get_or xs i 0) (get_or xs (i + 1) 0) (get_or xs (i + 2) 0) (get_or xs (i + 3) 0)

module _ {Plist : Type 0} (codec : PlistCodec Plist) where
  -- The bytes that are written; nothing is, when the property list cannot be encoded.
  unfoldable pub write_to : RawPacket Plist → Option Bytes
  write_to p = elim (codec.to_writer_xml p.plist) [
    | none ↦ none
    | some body ↦ some (
        le32 (u32 (length body + 16))
        ++ (le32 p.version ++ (le32 p.message ++ (le32 p.tag ++ body))))
  ]

  -- A body that begins with the letter b is a binary property list.
  unfoldable pub parse_body : Bytes → Outcome ReadError Plist
  parse_body body =
      if not (is_empty body) && nat_eq (get_or body 0 0) 98
      then elim (codec.from_reader body) [ none ↦ err binary_parse_error | some plist ↦ ok plist ]
      else elim (codec.from_bytes body) [ none ↦ err xml_parse_error | some plist ↦ ok plist ]

  -- The packet, and what of the stream was not read.
  unfoldable pub read_packet :
      Bytes → (max_packet_bytes : ℕ) → Outcome ReadError (RawPacket Plist × Bytes)
  unfolding parse_body
  read_packet stream max_packet_bytes =
      let size = le32_at stream 0 in
      let body_size = size - 16 in
      if ltb (length stream) 16
      then err unexpected_eof
      else if ltb size 16
      then err (size_too_small size)
      else if ltb max_packet_bytes body_size
      then err (body_too_large body_size)
      else if ltb (length (drop 16 stream)) body_size
      then err unexpected_eof
      else elim (parse_body (take body_size (drop 16 stream))) [
        | err e ↦ err e
        | ok plist ↦ ok (
          record {
            size = size;
            version = le32_at stream 4;
            message = le32_at stream 8;
            tag = le32_at stream 12;
            plist = plist;
          },
          drop body_size (drop 16 stream),
        )
      ]
