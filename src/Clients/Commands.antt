-- ===== src/Clients/Commands.antt =====
-- The commands of a client: `handle_client_inner` of meridian-relay/src/daemon/connection.rs behind
-- `read_packet`. The proxy and the event loop that two of the commands enter are apart.
pub mod Branches
pub mod Replies
pub mod Guards
pub mod Files
use ius.Base.{
  ℕ, ℕ-eq, ◌+◌, ◌*◌, ◌/◌, ◌%◌, ◌^◌, Bool, true, false, not, ◌&&◌, Option, none, some, List, [], ◌∷◌,
  ◌++◌, ltb, nat_eq, length, if◌then◌else◌, Outcome, ok, err, String,
}
use ius.Base.Words.{Bytes, u16, u32, u8}
use ius.Base.Strings.{Text}
use ius.Base.Texts.{bytes, bytes_eq}
use ius.Metrics.{Metrics, fetch_add}
use ius.Mux.Types.{ConnState}
use ius.Platform.{Directory}
use ius.Security.{validate_udid}
use ius.Scanner.{DeviceScanner, or_zero, get_devices, get_device_by_id}
use ius.Devices.Managed.{DeviceManager, increment_refcount, decrement_refcount}
use ius.Devices.Dispatch.{Enqueued, connect}
use ius.Protocol.{RawPacket}
use ius.Protocol.ResultCode
use ius.Protocol.Plist.{Plist}
use ius.Protocol.Messages.{
  entries, response, make_result_response, make_device_list_response, make_stats_response,
  get_string, get_unsigned, get_data,
}
use ius.Clients.Records.{
  has_pair_record, read_pair_record, save_pair_record, delete_pair_record, get_or_create_buid,
}
use ius.Clients.Serving.{
  Flow, continuing, listening, returned, proxying, Served, Around, Packet, answer, answer_anyway,
  written_to, result,
}
use ius.Clients.Connects.{handle_connect}

abbrev pub max_pair_record_bytes : ℕ
max_pair_record_bytes = 4 * 1024 * 1024

module _ (P : Plist) (D : Directory) where
  unfoldable pub list_devices : Around P D → Served P D → (tag : ℕ) → Served P D × Flow
  unfolding answer
  list_devices a s tag =
      let counted = record s.metrics {
        list_devices_total = fetch_add s.metrics.list_devices_total 1;
      } in
      answer P D a (record s { metrics = counted })
        (make_device_list_response P tag (get_devices a.scanner)) continuing

  unfoldable pub handle_read_buid : Around P D → Served P D → (tag : ℕ) → Served P D × Flow
  unfolding answer get_or_create_buid
  handle_read_buid a s tag =
      let (dir, buid) = get_or_create_buid D a.from_utf8 a.nanos a.random s.lockdown_dir in
      answer P D a (record s { lockdown_dir = dir })
        (response P tag (entries P ((bytes "BUID", P.of_string buid) ∷ []) P.new)) continuing

  unfoldable pub handle_read_record : Around P D → Served P D → Packet P D → Served P D × Flow
  unfolding answer answer_anyway read_pair_record
  handle_read_record a s packet =
      let bad = answer_anyway P D s (result P D packet.tag ResultCode.bad_command) in
      let counted = record s.metrics { pair_reads = fetch_add s.metrics.pair_reads 1 } in
      elim (get_string P packet.plist (bytes "PairRecordID")) [
        | none ↦ bad
        | some id ↦ elim (validate_udid id) [
          | err _ ↦ bad
          | ok _ ↦ elim (read_pair_record D s.lockdown_dir id) [
            | err _ ↦ answer_anyway P D s (result P D packet.tag ResultCode.bad_device)
            | ok contents ↦
                answer P D a (record s { metrics = counted })
                  (response P packet.tag
                    (entries P ((bytes "PairRecordData", P.of_data contents) ∷ []) P.new))
                  continuing
          ]
        ]
      ]

  unfoldable pub handle_save_record : Around P D → Served P D → Packet P D → Served P D × Flow
  unfolding answer answer_anyway save_pair_record
  handle_save_record a s packet =
      let bad = answer_anyway P D s (result P D packet.tag ResultCode.bad_command) in
      let counted = record s.metrics { pair_writes = fetch_add s.metrics.pair_writes 1 } in
      elim (get_string P packet.plist (bytes "PairRecordID")) [
        | none ↦ bad
        | some id ↦ elim (get_data P packet.plist (bytes "PairRecordData")) [
          | none ↦ bad
          | some contents ↦
              let (dir, outcome) = save_pair_record D s.lockdown_dir id contents in
              if ltb max_pair_record_bytes (length contents) then bad else elim (validate_udid id) [
                | err _ ↦ bad
                | ok _ ↦ elim outcome [
                  | err _ ↦
                      answer_anyway P D (record s { lockdown_dir = dir })
                        (result P D packet.tag ResultCode.bad_command)
                  | ok _ ↦
                      answer P D a (record s { lockdown_dir = dir; metrics = counted })
                        (result P D packet.tag ResultCode.ok) continuing
                ]
              ]
        ]
      ]

  unfoldable pub handle_delete_record : Around P D → Served P D → Packet P D → Served P D × Flow
  unfolding answer answer_anyway delete_pair_record
  handle_delete_record a s packet =
      let bad = answer_anyway P D s (result P D packet.tag ResultCode.bad_command) in
      let counted = record s.metrics { pair_deletes = fetch_add s.metrics.pair_deletes 1 } in
      elim (get_string P packet.plist (bytes "PairRecordID")) [
        | none ↦ bad
        | some id ↦ elim (validate_udid id) [
          | err _ ↦ bad
          | ok _ ↦
              let (dir, outcome) = delete_pair_record D s.lockdown_dir id in
              elim outcome [
                | err _ ↦
                    answer_anyway P D (record s { lockdown_dir = dir })
                      (result P D packet.tag ResultCode.bad_command)
                | ok _ ↦
                    answer P D a (record s { lockdown_dir = dir; metrics = counted })
                      (result P D packet.tag ResultCode.ok) continuing
              ]
        ]
      ]

  unfoldable pub dispatch :
      Around P D → Served P D → Packet P D → (message_type : Text) → Served P D × Flow
  unfolding list_devices handle_read_buid handle_read_record handle_save_record handle_delete_record
      answer
  dispatch a s packet message_type =
      if bytes_eq message_type (bytes "ListDevices")
      then list_devices a s packet.tag
      else if bytes_eq message_type (bytes "Listen")
      then answer P D a s (result P D packet.tag ResultCode.ok) listening
      else if bytes_eq message_type (bytes "Connect")
      then handle_connect P D a s packet
      else if bytes_eq message_type (bytes "ReadBUID")
      then handle_read_buid a s packet.tag
      else if bytes_eq message_type (bytes "ReadPairRecord")
      then handle_read_record a s packet
      else if bytes_eq message_type (bytes "SavePairRecord")
      then handle_save_record a s packet
      else if bytes_eq message_type (bytes "DeletePairRecord")
      then handle_delete_record a s packet
      else if bytes_eq message_type (bytes "MeridianStats")
      then answer P D a s (make_stats_response P packet.tag (a.to_json s.metrics)) continuing
      else answer P D a s (result P D packet.tag ResultCode.bad_command) continuing

  unfoldable pub handle_packet : Around P D → Served P D → Packet P D → Served P D × Flow
  unfolding dispatch answer
  handle_packet a s packet =
      let s' = record s {
        metrics = record s.metrics { commands_total = fetch_add s.metrics.commands_total 1 };
      } in
      elim (get_string P packet.plist (bytes "MessageType")) [
        | none ↦ answer P D a s' (result P D packet.tag ResultCode.bad_command) continuing
        | some message_type ↦ dispatch a s' packet message_type
      ]
