-- ===== src/Clients/Commands/Replies.antt =====
-- That every packet of a client is answered once.
use ius.Base.{
  ℕ, ◌≡◌, refl, inl, inr, not, if_both, List, [], ◌∷◌, ◌++◌, Outcome-cases, Bool-cases,
  Option-cases, arith, nat_eq,
}
use ius.Base.Strings.{Text}
use ius.Base.Texts.{bytes}
use ius.Metrics.{fetch_add}
use ius.Platform.{Directory}
use ius.Protocol.Plist.{Plist}
use ius.Protocol.Messages.{
  make_result_response, make_device_list_response, make_stats_response, get_string,
}
use ius.Devices.Dispatch.{connect}
use ius.Clients.Serving.{
  Flow, continuing, listening, Served, Around, Packet, answer, answer_anyway, result,
}
use ius.Clients.Connects.{
  handle_connect, open_connection, start_proxy, connect_device_id, connect_port, knows,
  lacks_pair_record,
}
use ius.Clients.Commands.Branches.{
  read_record_branches, save_record_branches, delete_record_branches, dispatch_branches,
}
use ius.Clients.Commands.{
  handle_read_record, handle_save_record, handle_delete_record, dispatch, handle_packet,
}

module _ (P : Plist) (D : Directory) where
  -- One packet was written behind those written before, with the tag of the command.
  pub record IsAnswered (before : List (Packet P D)) (tag : ℕ) (r : Served P D × Flow)
      : Type 0 where
    pub reply : Packet P D
    pub written : r.0.written ≡ before ++ reply ∷ []
    pub tagged : reply.tag ≡ tag
    pub version : reply.version ≡ 1
    pub message : reply.message ≡ 8

  result-IsAnswered_anyway :
      (s s' : Served P D) (tag number : ℕ)
      → s'.written ≡ s.written
      → IsAnswered s.written tag (answer_anyway P D s' (result P D tag number))
  unfolding answer_anyway make_result_response
  result-IsAnswered_anyway s s' tag number same = record {
    reply = result P D tag number;
    written = rw same refl;
    tagged = refl;
    version = refl;
    message = refl;
  }

  answer-IsAnswered :
      (a : Around P D) (s s' : Served P D) (p : Packet P D) (next : Flow)
      → s'.written ≡ s.written
      → p.version ≡ 1
      → p.message ≡ 8
      → IsAnswered s.written p.tag (answer P D a s' p next)
  unfolding answer
  answer-IsAnswered a s s' p next same version message = record {
    reply = p;
    written = rw same refl;
    tagged = refl;
    version = version;
    message = message;
  }

  result-IsAnswered :
      (a : Around P D) (s s' : Served P D) (tag number : ℕ) (next : Flow)
      → s'.written ≡ s.written
      → IsAnswered s.written tag (answer P D a s' (result P D tag number) next)
  unfolding answer make_result_response
  result-IsAnswered a s s' tag number next same = record {
    reply = result P D tag number;
    written = rw same refl;
    tagged = refl;
    version = refl;
    message = refl;
  }

  read_record-IsAnswered :
      (a : Around P D) (s : Served P D) (packet : Packet P D)
      → IsAnswered s.written packet.tag (handle_read_record P D a s packet)
  read_record-IsAnswered a s packet =
      read_record_branches P D a s packet (IsAnswered s.written packet.tag)
        (result-IsAnswered_anyway s s packet.tag 1 refl)
        (result-IsAnswered_anyway s s packet.tag 2 refl)
        (λ id contents named reads. answer-IsAnswered a s _ _ continuing refl refl refl)

  save_record-IsAnswered :
      (a : Around P D) (s : Served P D) (packet : Packet P D)
      → IsAnswered s.written packet.tag (handle_save_record P D a s packet)
  save_record-IsAnswered a s packet =
      save_record_branches P D a s packet (IsAnswered s.written packet.tag)
        (result-IsAnswered_anyway s s packet.tag 1 refl)
        (λ id contents named. result-IsAnswered_anyway s _ packet.tag 1 refl)
        (λ id contents named held short saved. result-IsAnswered a s _ packet.tag 0 continuing refl)

  delete_record-IsAnswered :
      (a : Around P D) (s : Served P D) (packet : Packet P D)
      → IsAnswered s.written packet.tag (handle_delete_record P D a s packet)
  delete_record-IsAnswered a s packet =
      delete_record_branches P D a s packet (IsAnswered s.written packet.tag)
        (result-IsAnswered_anyway s s packet.tag 1 refl)
        (λ id named. result-IsAnswered_anyway s _ packet.tag 1 refl)
        (λ id named deleted. result-IsAnswered a s _ packet.tag 0 continuing refl)

  start_proxy-written :
      (a : Around P D) (s : Served P D) (id sport : ℕ)
      → (start_proxy P D a s id sport).0.written ≡ s.written
  unfolding start_proxy
  start_proxy-written a s id sport = ground arith

  open_connection-IsAnswered :
      (a : Around P D) (s : Served P D) (tag id port : ℕ)
      → IsAnswered s.written tag (open_connection P D a s tag id port)
  unfolding open_connection make_result_response
  open_connection-IsAnswered a s tag id port =
      let c = connect a.send a.rounds a.enqueued s.manager s.metrics id port tag in
      elim (Outcome-cases c.reply) [
        | inr (e, failed) ↦
            rw (failed, open_connection) (result-IsAnswered a s _ tag 3 continuing refl)
        | inl (sport, opened) ↦ elim (Bool-cases (a.write (result P D tag 0))) [
          | inr lost ↦
              rw (opened, lost, open_connection)
                (record {
                  reply = result P D tag 0;
                  written = refl;
                  tagged = refl;
                  version = refl;
                  message = refl;
                })
          | inl through ↦
              rw (opened, through, open_connection)
                (record {
                  reply = result P D tag 0;
                  written = start_proxy-written a _ id sport;
                  tagged = refl;
                  version = refl;
                  message = refl;
                })
        ]
      ]

  connect-IsAnswered :
      (a : Around P D) (s : Served P D) (packet : Packet P D)
      → IsAnswered s.written packet.tag (handle_connect P D a s packet)
  unfolding handle_connect
  connect-IsAnswered a s packet =
      let Q = IsAnswered s.written packet.tag in
      let id = connect_device_id P D packet.plist in
      let port = connect_port P D packet.plist in
      let s' : Served P D = record s {
        metrics = record s.metrics { connects_total = fetch_add s.metrics.connects_total 1 };
      } in
      if_both Q (nat_eq id 0) (result-IsAnswered a s s' packet.tag 2 continuing refl) (
        if_both Q (nat_eq port 0) (result-IsAnswered a s s' packet.tag 1 continuing refl) (
          if_both Q (not (knows P D a.scanner id))
            (result-IsAnswered a s s' packet.tag 2 continuing refl)
            (if_both Q (lacks_pair_record P D a s' id port)
              (result-IsAnswered a s s' packet.tag 8 continuing refl)
              (open_connection-IsAnswered a s' packet.tag id port))))

  dispatch-IsAnswered :
      (a : Around P D) (s : Served P D) (packet : Packet P D) (message_type : Text)
      → IsAnswered s.written packet.tag (dispatch P D a s packet message_type)
  unfolding make_device_list_response make_stats_response
  dispatch-IsAnswered a s packet message_type =
      dispatch_branches P D a s packet (IsAnswered s.written packet.tag) message_type
        (answer-IsAnswered a s _ _ continuing refl refl refl)
        (result-IsAnswered a s s packet.tag 0 listening refl) (λ _. connect-IsAnswered a s packet)
        (answer-IsAnswered a s _ _ continuing refl refl refl)
        (λ _. read_record-IsAnswered a s packet) (λ _. save_record-IsAnswered a s packet)
        (λ _. delete_record-IsAnswered a s packet)
        (answer-IsAnswered a s _ _ continuing refl refl refl)
        (result-IsAnswered a s s packet.tag 1 continuing refl)

  -- Every packet of a client, whatever it asks for and whatever fails, is answered by one packet,
  -- which has its tag and the version and type of a property list message.
  pub handle_packet-IsAnswered :
      (a : Around P D) (s : Served P D) (packet : Packet P D)
      → IsAnswered s.written packet.tag (handle_packet P D a s packet)
  unfolding handle_packet
  handle_packet-IsAnswered a s packet =
      elim (Option-cases (get_string P packet.plist (bytes "MessageType"))) [
        | inl missing ↦
            rw (missing, handle_packet) (result-IsAnswered a s _ packet.tag 1 continuing refl)
        | inr (message_type, given) ↦
            rw (given, handle_packet) (dispatch-IsAnswered a _ packet message_type)
      ]
