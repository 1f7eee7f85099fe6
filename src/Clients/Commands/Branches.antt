-- ===== src/Clients/Commands/Branches.antt =====
-- The ends of the three commands on pair records: what holds at each of them holds of the command.
use ius.Base.{
  ◌≡◌, ◌≤◌, inl, inr, Option-cases, Outcome-cases, if_split, if_both, Bool, some, [], ◌∷◌, ok, ltb,
  length, ltb→le,
}
use ius.Base.Words.{Bytes}
use ius.Base.Strings.{Text}
use ius.Base.Texts.{bytes, bytes_eq, bytes_eq_iff}
use ius.Metrics.{Metrics, fetch_add}
use ius.Scanner.{get_devices}
use ius.Platform.{Directory}
use ius.Security.{validate_udid}
use ius.Protocol.Plist.{Plist}
use ius.Protocol.Messages.{
  entries, response, make_device_list_response, make_stats_response, get_string, get_data,
}
use ius.Clients.Records.{get_or_create_buid, read_pair_record, save_pair_record, delete_pair_record}
use ius.Clients.Serving.{
  Flow, continuing, listening, Served, Around, Packet, answer, answer_anyway, result,
}
use ius.Clients.Commands.{
  max_pair_record_bytes, handle_read_record, handle_save_record, handle_delete_record, list_devices,
  handle_read_buid, dispatch,
}
use ius.Clients.Connects.{handle_connect}

module _ {ℓ} (P : Plist) (D : Directory) (a : Around P D) (s : Served P D) (packet : Packet P D)
    (Q : Served P D × Flow → Type ℓ) where
  -- The identifier that a command names, if it is a good one.
  abbrev pub IsNamed : Text → Type 0
  IsNamed id =
      (get_string P packet.plist (bytes "PairRecordID") ≡ some id) × (validate_udid id ≡ ok tt)

  abbrev pub counted_read : Metrics
  counted_read = record s.metrics { pair_reads = fetch_add s.metrics.pair_reads 1 }

  pub read_record_branches :
      Q (answer_anyway P D s (result P D packet.tag 1))
      → Q (answer_anyway P D s (result P D packet.tag 2))
      → ((id : Text) (contents : Bytes)
          → IsNamed id
          → read_pair_record D s.lockdown_dir id ≡ ok contents
          → Q (
              answer P D a
                (record s { metrics = counted_read })
                (response P packet.tag
                  (entries P ((bytes "PairRecordData", P.of_data contents) ∷ []) P.new))
                continuing))
      → Q (handle_read_record P D a s packet)
  unfolding handle_read_record
  read_record_branches bad absent found =
      elim (Option-cases (get_string P packet.plist (bytes "PairRecordID"))) [
        | inl missing ↦ rw (missing, handle_read_record) bad
        | inr (id, given) ↦ elim (Outcome-cases (validate_udid id)) [
          | inr (e, refused) ↦ rw (given, refused, handle_read_record) bad
          | inl (_, good) ↦ elim (Outcome-cases (read_pair_record D s.lockdown_dir id)) [
            | inr (e, failed) ↦ rw (given, good, failed, handle_read_record) absent
            | inl (contents, reads) ↦
                rw (given, good, reads, handle_read_record) (found id contents (given, good) reads)
          ]
        ]
      ]

  abbrev pub counted_write : Metrics
  counted_write = record s.metrics { pair_writes = fetch_add s.metrics.pair_writes 1 }

  pub save_record_branches :
      Q (answer_anyway P D s (result P D packet.tag 1))
      → ((id : Text) (contents : Bytes)
          → IsNamed id
          → Q (
              answer_anyway P D
                (record s { lockdown_dir = (save_pair_record D s.lockdown_dir id contents).0 })
                (result P D packet.tag 1)))
      → ((id : Text) (contents : Bytes)
          → IsNamed id
          → get_data P packet.plist (bytes "PairRecordData") ≡ some contents
          → length contents ≤ max_pair_record_bytes
          → (save_pair_record D s.lockdown_dir id contents).1 ≡ ok tt
          → Q (
              answer P D a
                (record s {
                  lockdown_dir = (save_pair_record D s.lockdown_dir id contents).0;
                  metrics = counted_write;
                })
                (result P D packet.tag 0)
                continuing))
      → Q (handle_save_record P D a s packet)
  unfolding handle_save_record
  save_record_branches bad failed saved =
      elim (Option-cases (get_string P packet.plist (bytes "PairRecordID"))) [
        | inl missing ↦ rw (missing, handle_save_record) bad
        | inr (id, given) ↦ elim (Option-cases (get_data P packet.plist (bytes "PairRecordData"))) [
          | inl missing ↦ rw (given, missing, handle_save_record) bad
          | inr (contents, held) ↦
              rw (given, held, handle_save_record)
                (if_split Q (ltb max_pair_record_bytes (length contents)) (λ _. bad)
                  (λ short. elim (Outcome-cases (validate_udid id)) [
                    | inr (e, refused) ↦ rw (refused) bad
                    | inl (_, good) ↦
                        rw (good)
                          (elim (Outcome-cases (save_pair_record D s.lockdown_dir id contents).1) [
                            | inr (e, failure) ↦ rw (failure) (failed id contents (given, good))
                            | inl (_, done) ↦ rw (done) (
                                saved id contents (given, good) held
                                  (ltb→le max_pair_record_bytes (length contents) short) done)
                          ])
                  ]))
        ]
      ]

  abbrev pub counted_delete : Metrics
  counted_delete = record s.metrics { pair_deletes = fetch_add s.metrics.pair_deletes 1 }

  pub delete_record_branches :
      Q (answer_anyway P D s (result P D packet.tag 1))
      → ((id : Text)
          → IsNamed id
          → Q (
              answer_anyway P D
                (record s { lockdown_dir = (delete_pair_record D s.lockdown_dir id).0 })
                (result P D packet.tag 1)))
      → ((id : Text)
          → IsNamed id
          → (delete_pair_record D s.lockdown_dir id).1 ≡ ok tt
          → Q (
              answer P D a
                (record s {
                  lockdown_dir = (delete_pair_record D s.lockdown_dir id).0;
                  metrics = counted_delete;
                })
                (result P D packet.tag 0)
                continuing))
      → Q (handle_delete_record P D a s packet)
  unfolding handle_delete_record
  delete_record_branches bad failed deleted =
      elim (Option-cases (get_string P packet.plist (bytes "PairRecordID"))) [
        | inl missing ↦ rw (missing, handle_delete_record) bad
        | inr (id, given) ↦ elim (Outcome-cases (validate_udid id)) [
          | inr (e, refused) ↦ rw (given, refused, handle_delete_record) bad
          | inl (_, good) ↦ elim (Outcome-cases (delete_pair_record D s.lockdown_dir id).1) [
            | inr (e, failure) ↦
                rw (given, good, failure, handle_delete_record) (failed id (given, good))
            | inl (_, done) ↦
                rw (given, good, done, handle_delete_record) (deleted id (given, good) done)
          ]
        ]
      ]

  abbrev pub counted_list : Metrics
  counted_list = record s.metrics { list_devices_total = fetch_add s.metrics.list_devices_total 1 }

  abbrev pub buid_of : D.State × Text
  buid_of = get_or_create_buid D a.from_utf8 a.nanos a.random s.lockdown_dir

  pub dispatch_branches :
      (message_type : Text)
      → Q (
          answer P D a
            (record s { metrics = counted_list })
            (make_device_list_response P packet.tag (get_devices a.scanner))
            continuing)
      → Q (answer P D a s (result P D packet.tag 0) listening)
      → (message_type ≡ bytes "Connect" → Q (handle_connect P D a s packet))
      → Q (
          answer P D a
            (record s { lockdown_dir = buid_of.0 })
            (response P packet.tag (entries P ((bytes "BUID", P.of_string buid_of.1) ∷ []) P.new))
            continuing)
      → (message_type ≡ bytes "ReadPairRecord" → Q (handle_read_record P D a s packet))
      → (message_type ≡ bytes "SavePairRecord" → Q (handle_save_record P D a s packet))
      → (message_type ≡ bytes "DeletePairRecord" → Q (handle_delete_record P D a s packet))
      → Q (answer P D a s (make_stats_response P packet.tag (a.to_json s.metrics)) continuing)
      → Q (answer P D a s (result P D packet.tag 1) continuing)
      → Q (dispatch P D a s packet message_type)
  unfolding dispatch list_devices handle_read_buid
  dispatch_branches message_type listed listening' connects identified reads saves deletes stats
        unknown =
      let is : Text → Bool = λ name. bytes_eq message_type name in
      if_both Q (is (bytes "ListDevices")) listed (
        if_both Q (is (bytes "Listen")) listening' (
          if_split Q (is (bytes "Connect")) (λ e. connects ((bytes_eq_iff _ _).0 e))
            (λ _. if_both Q (is (bytes "ReadBUID")) identified (
              if_split Q (is (bytes "ReadPairRecord")) (λ e. reads ((bytes_eq_iff _ _).0 e))
                (λ _.
                  if_split Q (is (bytes "SavePairRecord")) (λ e. saves ((bytes_eq_iff _ _).0 e))
                    (λ _.
                      if_split Q (is (bytes "DeletePairRecord"))
                        (λ e. deletes ((bytes_eq_iff _ _).0 e))
                        (λ _. if_both Q (is (bytes "MeridianStats")) stats unknown)))))))
