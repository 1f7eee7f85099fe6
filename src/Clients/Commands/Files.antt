-- ===== src/Clients/Commands/Files.antt =====
-- What a client's command may change in the lockdown directory.
use ius.Base.{
  Option, ℕ, ap, ◌≡◌, ◌∙◌, inl, inr, ℕ-eq, not, if_both, some, ok, Option-cases, nat_eq, arith,
}
use ius.Base.Words.{Bytes}
use ius.Base.Strings.{Text}
use ius.Base.Texts.{bytes}
use ius.Metrics.{fetch_add}
use ius.Platform.{Directory}
use ius.Security.{validate_udid}
use ius.Protocol.Plist.{Plist}
use ius.Protocol.Messages.{get_string}
use ius.Clients.Records.{save_pair_record, delete_pair_record, get_or_create_buid}
use ius.Clients.Serving.{Flow, Served, Around, Packet, answer, answer_anyway}
use ius.Clients.Connects.{
  handle_connect, open_connection, start_proxy, connect_device_id, connect_port, knows,
  lacks_pair_record,
}
use ius.Clients.Commands.Branches.{
  read_record_branches, save_record_branches, delete_record_branches, dispatch_branches,
}
use ius.Clients.Commands.{dispatch, handle_packet}

module _ (P : Plist) (D : Directory) where
  -- How a command may leave the lockdown directory.
  pub data Touches (dir : D.State) (packet : Packet P D) : D.State → Type 0 where
    untouched : Touches dir packet dir
    identified :
        (from_utf8 : Bytes → Option Text) (nanos random : ℕ)
        → Touches dir packet (get_or_create_buid D from_utf8 nanos random dir).0
    saved :
        (id : Text) (contents : Bytes)
        → get_string P packet.plist (bytes "MessageType") ≡ some (bytes "SavePairRecord")
        → get_string P packet.plist (bytes "PairRecordID") ≡ some id
        → validate_udid id ≡ ok tt
        → Touches dir packet (save_pair_record D dir id contents).0
    deleted :
        (id : Text)
        → get_string P packet.plist (bytes "MessageType") ≡ some (bytes "DeletePairRecord")
        → get_string P packet.plist (bytes "PairRecordID") ≡ some id
        → validate_udid id ≡ ok tt
        → Touches dir packet (delete_pair_record D dir id).0

  open_connection-lockdown_dir :
      (a : Around P D) (s : Served P D) (tag device_id port : ℕ)
      → (open_connection P D a s tag device_id port).0.lockdown_dir ≡ s.lockdown_dir
  unfolding open_connection start_proxy answer
  open_connection-lockdown_dir a s tag device_id port = ground arith

  abbrev Leaves : (dir : D.State) (packet : Packet P D) → Served P D × Flow → Type 0
  Leaves dir packet r = Touches dir packet r.0.lockdown_dir

  connect-Touches :
      (a : Around P D) (s : Served P D) (packet : Packet P D)
      → Leaves s.lockdown_dir packet (handle_connect P D a s packet)
  unfolding handle_connect answer
  connect-Touches a s packet =
      let Q = Leaves s.lockdown_dir packet in
      let device_id = connect_device_id P D packet.plist in
      let port = connect_port P D packet.plist in
      let s' : Served P D = record s {
        metrics = record s.metrics { connects_total = fetch_add s.metrics.connects_total 1 };
      } in
      if_both Q (nat_eq device_id 0) untouched (
        if_both Q (nat_eq port 0) untouched (
          if_both Q (not (knows P D a.scanner device_id)) untouched (
            if_both Q (lacks_pair_record P D a s' device_id port) untouched
              (rw (open_connection-lockdown_dir a s' packet.tag device_id port) untouched))))

  dispatch-Touches :
      (a : Around P D) (s : Served P D) (packet : Packet P D) (message_type : Text)
      → get_string P packet.plist (bytes "MessageType") ≡ some message_type
      → Leaves s.lockdown_dir packet (dispatch P D a s packet message_type)
  unfolding answer answer_anyway
  dispatch-Touches a s packet message_type given =
      let Q = Leaves s.lockdown_dir packet in
      dispatch_branches P D a s packet Q message_type untouched untouched
        (λ _. connect-Touches a s packet) (identified a.from_utf8 a.nanos a.random)
        (λ _. read_record_branches P D a s packet Q untouched untouched (λ _ _ _ _. untouched))
        (λ same.
          save_record_branches P D a s packet Q untouched
            (λ id contents (named, good). saved id contents (given ∙ ap some same) named good)
            (λ id contents (named, good) _ _ _.
              saved id contents (given ∙ ap some same) named good))
        (λ same.
          delete_record_branches P D a s packet Q untouched
            (λ id (named, good). deleted id (given ∙ ap some same) named good)
            (λ id (named, good) _. deleted id (given ∙ ap some same) named good))
        untouched untouched

  -- The lockdown directory changes by a command only as the identifier of the host is made, or as
  -- SavePairRecord and DeletePairRecord change it for an identifier that passed the check.
  pub handle_packet-Touches :
      (a : Around P D) (s : Served P D) (packet : Packet P D)
      → Touches s.lockdown_dir packet (handle_packet P D a s packet).0.lockdown_dir
  unfolding handle_packet answer
  handle_packet-Touches a s packet =
      elim (Option-cases (get_string P packet.plist (bytes "MessageType"))) [
        | inl missing ↦ rw (missing, handle_packet) untouched
        | inr (message_type, given) ↦
            rw (given, handle_packet) (dispatch-Touches a _ packet message_type given)
      ]
