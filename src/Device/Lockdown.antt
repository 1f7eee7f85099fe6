-- ===== src/Device/Lockdown.antt =====
-- The framing of meridian-relay/src/device/lockdown.rs: a big-endian length and a property list. A
-- channel is what its reads will bring, in the pieces in which they bring it.
use ius.Base.{
  ℕ, ◌-◌, ◌*◌, Option, none, some, List, [], ◌∷◌, ◌++◌, is_empty, leb, ltb, nat_eq, length, take,
  drop, get_or, if◌then◌else◌, Outcome, ok, err,
}
use ius.Base.Words.{Bytes, u32, be32, from_be32}
use ius.Protocol.{PlistCodec}
use ius.Protocol.Plist.{Plist}

abbrev pub max_lockdown_response : ℕ
max_lockdown_response = 1024 * 1024

-- What one wait for bytes comes to. No bytes are the end of the channel.
pub data Chunk : Type 0 where
  received : Bytes → Chunk
  failed timed_out : Chunk

pub data LockdownError : Type 0 where
  encode_failed write_failed read_timed_out read_failed closed_mid_frame : LockdownError
  frame_too_large : ℕ → LockdownError
  not_a_dictionary parse_failed : LockdownError

-- The bytes of a read that had room for `room`, and what a later read finds of them.
abbrev pub keep : Bytes → List Chunk → List Chunk
keep [] chunks = chunks
keep (b ∷ bytes) chunks = received (b ∷ bytes) ∷ chunks

abbrev pub prepend :
    Bytes → Outcome LockdownError Bytes × List Chunk → Outcome LockdownError Bytes × List Chunk
prepend bytes (err e, rest) = (err e, rest)
prepend bytes (ok more, rest) = (ok (bytes ++ more), rest)

-- The loop until `missing` bytes are there, and what the channel still brings behind it.
unfoldable pub read_exact_timeout :
    List Chunk → (missing : ℕ) → Outcome LockdownError Bytes × List Chunk
read_exact_timeout [] missing = (if nat_eq missing 0 then ok [] else err closed_mid_frame, [])
read_exact_timeout (timed_out ∷ chunks) missing =
    if nat_eq missing 0 then (ok [], timed_out ∷ chunks) else (err read_timed_out, chunks)
read_exact_timeout (failed ∷ chunks) missing =
    if nat_eq missing 0 then (ok [], failed ∷ chunks) else (err read_failed, chunks)
read_exact_timeout (received bytes ∷ chunks) missing =
    let later = read_exact_timeout chunks (missing - length bytes) in
    if nat_eq missing 0
    then (ok [], received bytes ∷ chunks)
    else if is_empty bytes
    then (err closed_mid_frame, chunks)
    else if leb missing (length bytes)
    then (ok (take missing bytes), keep (drop missing bytes) chunks)
    else prepend bytes later

module _ (P : Plist) (codec : PlistCodec P.Dictionary) where
  -- The frame; the dictionary is encoded as a value.
  unfoldable pub write_plist : P.Dictionary → Option Bytes
  write_plist d = elim (codec.to_writer_xml d) [
    | none ↦ none
    | some body ↦ some (be32 (u32 (length body)) ++ body)
  ]

  -- `from_bytes` is the decoder of any value.
  unfoldable pub parse_response :
      (from_bytes : Bytes → Option P.Value) → Bytes → Outcome LockdownError P.Dictionary
  parse_response from_bytes body = elim (from_bytes body) [
    | none ↦ err parse_failed
    | some v ↦ elim (P.as_dictionary v) [ none ↦ err not_a_dictionary | some d ↦ ok d ]
  ]

  unfoldable pub read_plist :
      (from_bytes : Bytes → Option P.Value)
      → List Chunk
      → Outcome LockdownError P.Dictionary × List Chunk
  unfolding read_exact_timeout parse_response
  read_plist from_bytes chunks =
      let (head, chunks') = read_exact_timeout chunks 4 in
      elim head [
        | err e ↦ (err e, chunks')
        | ok b ↦
            let total = from_be32 (get_or b 0 0) (get_or b 1 0) (get_or b 2 0) (get_or b 3 0) in
            let (body, rest) = read_exact_timeout chunks' total in
            if ltb max_lockdown_response total
            then (err (frame_too_large total), chunks')
            else elim body [
              | err e ↦ (err e, rest)
              | ok bytes ↦ (parse_response from_bytes bytes, rest)
            ]
      ]
