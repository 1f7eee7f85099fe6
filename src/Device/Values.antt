-- ===== src/Device/Values.antt =====
-- The requests of meridian-relay/src/device/lockdown.rs: the connection to lockdown through the
-- endpoint, the session, and the values of keys. TLS is a parameter.
use ius.Base.{
  ℕ, ◌+◌, ◌*◌, ◌/◌, Bool, true, false, Option, none, some, List, [], ◌∷◌, is_empty, nat_eq,
  if◌then◌else◌, Outcome, ok, err, String,
}
use ius.Base.Words.{Bytes, u8}
use ius.Base.Strings.{Text}
use ius.Base.Texts.{bytes}
use ius.Protocol.{RawPacket, PlistCodec, read_packet}
use ius.Protocol.Plist.{Plist}
use ius.Protocol.Messages.{entries, get_string, get_unsigned, get_data}
use ius.Protocol
use ius.Clients.Connects.{lockdown_port}
use ius.Device.Lockdown.{Chunk, write_plist, read_plist}

-- `u16::to_be` on a little-endian machine.
abbrev pub to_be : ℕ → ℕ
to_be n = u8 n * 256 + u8 (n / 256)

-- The endpoint and the libraries around the client: the endpoint's answer to a packet on a
-- connection of its own, if it could be reached and written to; how the rest of such an answer
-- comes in; whether a write to lockdown succeeds; the encoding and decoding of property lists; the
-- channel behind a TLS handshake; `{:?}` of a value.
pub record World (P : Plist) : Type 0 where
  pub exchange : RawPacket P.Dictionary → Option Bytes
  pub chunked : Bytes → List Chunk
  pub write : Bytes → Bool
  pub codec : PlistCodec P.Dictionary
  pub from_bytes : Bytes → Option P.Value
  pub tls_upgrade : P.Dictionary → List Chunk → Option (List Chunk)
  pub debug : P.Value → Text

module _ (P : Plist) where
  unfoldable pub connect_request : (device_id : ℕ) → RawPacket P.Dictionary
  connect_request device_id =
      Protocol.new
        (entries P
          ((bytes "ClientVersion", P.of_integer 7)
            ∷ (bytes "MessageType", P.of_string (bytes "Connect"))
            ∷ (bytes "DeviceID", P.of_integer device_id)
            ∷ (bytes "PortNumber", P.of_integer (to_be lockdown_port))
            ∷ (bytes "ProgName", P.of_string (bytes "meridian-relay"))
            ∷ (bytes "kLibUSBMuxVersion", P.of_integer 3)
            ∷ [])
          P.new)
        Protocol.xml_plist_version Protocol.plist_message_type 1

  abbrev pub or_one : Option ℕ → ℕ
  or_one none = 1
  or_one (some n) = n

  -- The channel to lockdown is the rest of the stream.
  unfoldable pub connect_lockdown : World P → (device_id : ℕ) → Outcome String (List Chunk)
  unfolding connect_request
  connect_lockdown w device_id = elim (w.exchange (connect_request device_id)) [
    | none ↦ err "endpoint unreachable"
    | some stream ↦ elim (read_packet w.codec stream (64 * 1024)) [
      | err _ ↦ err "no answer"
      | ok (resp, rest) ↦
          if nat_eq (or_one (get_unsigned P resp.plist (bytes "Number"))) 0
          then ok (w.chunked rest)
          else err "Connect to lockdown failed"
    ]
  ]

  unfoldable pub mux_read_pair_record : World P → (udid : Text) → Option P.Dictionary
  mux_read_pair_record w udid =
      let request =
        Protocol.new
          (entries P
            ((bytes "MessageType", P.of_string (bytes "ReadPairRecord"))
              ∷ (bytes "PairRecordID", P.of_string udid)
              ∷ [])
            P.new)
          Protocol.xml_plist_version Protocol.plist_message_type 2 in
      elim (w.exchange request) [
        | none ↦ none
        | some stream ↦ elim (read_packet w.codec stream (16 * 1024 * 1024)) [
          | err _ ↦ none
          | ok (resp, _) ↦ elim (get_data P resp.plist (bytes "PairRecordData")) [
            | none ↦ none
            | some contents ↦ elim (w.from_bytes contents) [
              | none ↦ none
              | some rec ↦ P.as_dictionary rec
            ]
          ]
        ]
      ]

  -- A request and its answer on the channel.
  unfoldable pub ask :
      World P → P.Dictionary → List Chunk → Outcome String P.Dictionary × List Chunk
  unfolding write_plist read_plist
  ask w request chan = elim (write_plist P w.codec request) [
    | none ↦ (err "encode failed", chan)
    | some frame ↦
        let (answer, chan') = read_plist P w.codec w.from_bytes chan in
        if w.write frame
        then elim answer [ err _ ↦ (err "read failed", chan') | ok d ↦ (ok d, chan') ]
        else (err "write failed", chan)
  ]

  abbrev pub shown : World P → P.Value → Text
  shown w v = elim (P.as_string v) [ none ↦ w.debug v | some s ↦ s ]

  unfoldable pub value_of : World P → P.Dictionary → Option Text
  value_of w resp = elim (get_string P resp (bytes "Error")) [
    | some _ ↦ none
    | none ↦ elim (P.get resp (bytes "Value")) [ none ↦ none | some v ↦ some (shown w v) ]
  ]

  unfoldable pub get_value_raw :
      World P → (key : Text) → List Chunk → Outcome String (Option Text) × List Chunk
  unfolding ask value_of
  get_value_raw w key chan =
      let request =
        entries P
          ((bytes "Request", P.of_string (bytes "GetValue"))
            ∷ (bytes "Key", P.of_string key)
            ∷ (bytes "Label", P.of_string (bytes "meridian-relay"))
            ∷ [])
          P.new in
      let (answer, chan') = ask w request chan in
      elim answer [ err e ↦ (err e, chan') | ok resp ↦ (ok (value_of w resp), chan') ]

  abbrev pub or_false : Option Bool → Bool
  or_false none = false
  or_false (some b) = b

  abbrev pub session_request : (host_id system_buid : Text) → P.Dictionary
  session_request host_id system_buid =
      entries P
        ((bytes "Label", P.of_string (bytes "meridian-relay"))
          ∷ (bytes "Request", P.of_string (bytes "StartSession"))
          ∷ (bytes "ProtocolVersion", P.of_string (bytes "2"))
          ∷ (bytes "HostID", P.of_string host_id)
          ∷ (bytes "SystemBUID", P.of_string system_buid)
          ∷ [])
        P.new

  abbrev pub enable_ssl : P.Dictionary → Bool
  enable_ssl resp = elim (P.get resp (bytes "EnableSessionSSL")) [
    | none ↦ false
    | some v ↦ or_false (P.as_boolean v)
  ]

  unfoldable pub start_session :
      World P → (pair_record : P.Dictionary) → List Chunk → Outcome String Bool × List Chunk
  unfolding ask
  start_session w pair_record chan = elim (get_string P pair_record (bytes "HostID")) [
    | none ↦ (err "pair record missing HostID", chan)
    | some host_id ↦ elim (get_string P pair_record (bytes "SystemBUID")) [
      | none ↦ (err "pair record missing SystemBUID", chan)
      | some system_buid ↦
          let (answer, chan') = ask w (session_request host_id system_buid) chan in
          elim answer [
            | err e ↦ (err e, chan')
            | ok resp ↦ elim (get_string P resp (bytes "Error")) [
              | some _ ↦ (err "StartSession failed", chan')
              | none ↦ (ok (enable_ssl resp), chan')
            ]
          ]
    ]
  ]

  -- The loop over the keys; a key that has no value, or whose request fails, is left out.
  unfoldable pub get_all : World P → (keys : List Text) → List Chunk → List (Text × Text)
  unfolding get_value_raw
  get_all w [] chan = []
  get_all w (key ∷ keys) chan =
      let (answer, chan') = get_value_raw w key chan in
      let rest = get_all w keys chan' in
      elim answer [
        | err _ ↦ rest
        | ok value ↦ elim value [ none ↦ rest | some v ↦ (key, v) ∷ rest ]
      ]

  abbrev pub some_values : List (Text × Text) → String → Outcome String (List (Text × Text))
  some_values out message = if is_empty out then err message else ok out

  unfoldable pub get_value :
      World P
      → (device_id : ℕ) (keys : List Text) (udid : Text) → Outcome String (List (Text × Text))
  unfolding connect_lockdown mux_read_pair_record start_session get_all
  get_value w device_id keys udid = elim (connect_lockdown w device_id) [
    | err e ↦ err e
    | ok chan ↦ elim (mux_read_pair_record w udid) [
      | none ↦ some_values (get_all w keys chan) "no pair record and device refused"
      | some record' ↦
          let (started, chan') = start_session w record' chan in
          elim started [
            | err e ↦ err e
            | ok false ↦ some_values (get_all w keys chan') "lockdown returned no values"
            | ok true ↦ elim (w.tls_upgrade record' chan') [
              | none ↦ err "TLS upgrade failed"
              | some secured ↦ some_values (get_all w keys secured) "lockdown returned no values"
            ]
          ]
    ]
  ]
