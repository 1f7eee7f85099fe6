-- ===== src/Clients/Commands/Guards.antt =====
-- What holds when a client's command opens a connection, or touches the lockdown directory.
use ius.Base.{
  ℕ, ap, List, ◌≡◌, ◌∙◌, subst, sym, ◌≢◌, refl, inl, inr, ℕ-eq, not, true, false, if_both, if_split,
  some, [], ◌∷◌, ◌++◌, ok, Outcome-cases, Bool-cases, Option-cases, nat_eq, arith,
}
use ius.Base.Assoc
use ius.Base.Strings.{Text}
use ius.Base.Texts.{bytes}
use ius.Metrics.{Metrics, fetch_add}
use ius.Platform.{Directory}
use ius.Scanner.{UsbDevice, get_device_by_id}
use ius.Protocol.Plist.{Plist}
use ius.Protocol.Messages.{get_string}
use ius.Devices.Dispatch.{connect}
use ius.Clients.Records.{has_pair_record}
use ius.Clients.Serving.{
  Flow, continuing, listening, proxying, Served, Around, Packet, answer, answer_anyway, result,
}
use ius.Clients.Connects.{
  handle_connect, open_connection, start_proxy, connect_device_id, connect_port, knows,
  lacks_pair_record,
}
use ius.Clients.Commands.Branches.{
  read_record_branches, save_record_branches, delete_record_branches, dispatch_branches,
}
use ius.Clients.Commands.{dispatch, handle_packet}

module _ (P : Plist) (D : Directory) where
  -- `before` is the handler's state when the connection is asked for.
  pub record IsOpened (a : Around P D) (s : Served P D) (tag id port sport : ℕ) (r : Served P D)
      : Type 0 where
    pub opened :
        (connect a.send a.rounds a.enqueued s.manager s.metrics id port tag).reply ≡ ok sport
    pub told : a.write (result P D tag 0) ≡ true
    pub written : r.written ≡ s.written ++ result P D tag 0 ∷ []

  no_proxy :
      {C : Type 0} (a : Around P D) (s : Served P D) (p : Packet P D) (id sport : ℕ)
      → (answer P D a s p continuing).1 ≡ proxying id sport
      → C
  unfolding answer
  no_proxy a s p id sport h = absurd (ground (arith, h))

  not_listening :
      {C : Type 0} (a : Around P D) (s : Served P D) (p : Packet P D) (id sport : ℕ)
      → (answer P D a s p listening).1 ≡ proxying id sport
      → C
  unfolding answer
  not_listening a s p id sport h = absurd (ground (arith, h))

  -- What a start of the relay says of the connection that it is for.
  abbrev Opens :
      (a : Around P D) (s : Served P D) (tag device_id port id sport : ℕ)
      → Served P D × Flow
      → Type 0
  Opens a s tag device_id port id sport r =
      r.1 ≡ proxying id sport → (device_id ≡ id) × IsOpened a s tag device_id port sport r.0

  start_proxy-Opens :
      (a : Around P D) (s s' : Served P D) (tag device_id port sport id sport' : ℕ)
      → s'.written ≡ s.written ++ result P D tag 0 ∷ []
      → a.write (result P D tag 0) ≡ true
      → (connect a.send a.rounds a.enqueued s.manager s.metrics device_id port tag).reply ≡ ok sport
      → Opens a s tag device_id port id sport' (start_proxy P D a s' device_id sport)
  unfolding start_proxy
  start_proxy-Opens a s s' tag device_id port sport id sport' written told opened =
      if_both (Opens a s tag device_id port id sport')
        (Assoc.contains_key device_id (a.meanwhile s'.manager).devices)
        (λ h. (
          ground (arith, h),
          record { opened = opened ∙ ground (arith, h); told = told; written = written },
        ))
        (λ h. absurd (ground (arith, h)))

  open_connection-Opens :
      (a : Around P D) (s : Served P D) (tag device_id port id sport : ℕ)
      → Opens a s tag device_id port id sport (open_connection P D a s tag device_id port)
  unfolding open_connection
  open_connection-Opens a s tag device_id port id sport =
      let c = connect a.send a.rounds a.enqueued s.manager s.metrics device_id port tag in
      elim (Outcome-cases c.reply) [
        | inr (e, failed) ↦
            let metrics : Metrics = record c.metrics {
              connect_failures = fetch_add c.metrics.connect_failures 1;
            } in
            rw (failed, open_connection)
              (no_proxy a (record s { manager = c.manager; metrics = metrics }) (result P D tag 3)
                id sport)
        | inl (sport', opened) ↦ elim (Bool-cases (a.write (result P D tag 0))) [
          | inr lost ↦ rw (opened, lost, open_connection) (λ h. absurd (ground (arith, h)))
          | inl told ↦
              rw (opened, told, open_connection)
                (start_proxy-Opens a s _ tag device_id port sport' id sport refl told opened)
        ]
      ]

  -- What a client must have asked for, and what must have been so, for a relay to start.
  pub record IsAdmitted (a : Around P D) (dir : D.State) (before : List (Packet P D))
      (packet : Packet P D) (id : ℕ) (r : Served P D) : Type 0 where
    pub asked : get_string P packet.plist (bytes "MessageType") ≡ some (bytes "Connect")
    pub device : connect_device_id P D packet.plist ≡ id
    pub device_given : id ≢ 0
    pub port_given : connect_port P D packet.plist ≢ 0
    pub known : knows P D a.scanner id ≡ true
    pub paired :
        (d : UsbDevice)
        → connect_port P D packet.plist ≡ 62078
        → a.require_pair_record ≡ true
        → get_device_by_id a.scanner_later id ≡ some d
        → has_pair_record D dir d.udid ≡ true
    pub written : r.written ≡ before ++ result P D packet.tag 0 ∷ []
    pub told : a.write (result P D packet.tag 0) ≡ true

  lacks_pair_record-false :
      (a : Around P D) (s : Served P D) (id port : ℕ) (d : UsbDevice)
      → lacks_pair_record P D a s id port ≡ false
      → port ≡ 62078
      → a.require_pair_record ≡ true
      → get_device_by_id a.scanner_later id ≡ some d
      → has_pair_record D s.lockdown_dir d.udid ≡ true
  unfolding lacks_pair_record
  lacks_pair_record-false a s id port d h at_port required found = ground (arith, h, found)

  abbrev Admits :
      (a : Around P D) (s : Served P D) (packet : Packet P D) (id sport : ℕ)
      → Served P D × Flow
      → Type 0
  Admits a s packet id sport r =
      r.1 ≡ proxying id sport → IsAdmitted a s.lockdown_dir s.written packet id r.0

  connect-Admits :
      (a : Around P D) (s : Served P D) (packet : Packet P D) (id sport : ℕ)
      → get_string P packet.plist (bytes "MessageType") ≡ some (bytes "Connect")
      → Admits a s packet id sport (handle_connect P D a s packet)
  unfolding handle_connect
  connect-Admits a s packet id sport asked =
      let Q = Admits a s packet id sport in
      let device_id = connect_device_id P D packet.plist in
      let port = connect_port P D packet.plist in
      let s' : Served P D = record s {
        metrics = record s.metrics { connects_total = fetch_add s.metrics.connects_total 1 };
      } in
      if_split Q (nat_eq device_id 0) (λ _. no_proxy a s' (result P D packet.tag 2) id sport)
        (λ nonzero.
          if_split Q (nat_eq port 0) (λ _. no_proxy a s' (result P D packet.tag 1) id sport)
            (λ some_port.
              if_split Q (not (knows P D a.scanner device_id))
                (λ _. no_proxy a s' (result P D packet.tag 2) id sport)
                (λ known.
                  if_split Q (lacks_pair_record P D a s' device_id port)
                    (λ _. no_proxy a s' (result P D packet.tag 8) id sport)
                    (λ paired h.
                      let (same, o) =
                        open_connection-Opens a s' packet.tag device_id port id sport h in
                      record {
                        asked = asked;
                        device = same;
                        device_given = ground (arith, nonzero, same);
                        port_given = ground (arith, some_port);
                        known =
                            subst (λ i. knows P D a.scanner i ≡ true) same (ground (arith, known));
                        paired = λ d at_port required found.
                            lacks_pair_record-false a s' device_id port d paired at_port required (
                              subst (λ i. get_device_by_id a.scanner_later i ≡ some d) (sym same)
                                found);
                        written = o.written;
                        told = o.told;
                      }))))

  no_proxy_anyway :
      {C : Type 0} (s : Served P D) (p : Packet P D) (id sport : ℕ)
      → (answer_anyway P D s p).1 ≡ proxying id sport
      → C
  unfolding answer_anyway
  no_proxy_anyway s p id sport h = absurd (ground (arith, h))

  dispatch-Admits :
      (a : Around P D) (s : Served P D) (packet : Packet P D) (message_type : Text) (id sport : ℕ)
      → get_string P packet.plist (bytes "MessageType") ≡ some message_type
      → Admits a s packet id sport (dispatch P D a s packet message_type)
  dispatch-Admits a s packet message_type id sport given =
      let Q = Admits a s packet id sport in
      dispatch_branches P D a s packet Q message_type (no_proxy a _ _ id sport)
        (not_listening a _ _ id sport)
        (λ same. connect-Admits a s packet id sport (given ∙ ap some same))
        (no_proxy a _ _ id sport)
        (λ _.
          read_record_branches P D a s packet Q (no_proxy_anyway _ _ id sport)
            (no_proxy_anyway _ _ id sport) (λ _ _ _ _. no_proxy a _ _ id sport))
        (λ _.
          save_record_branches P D a s packet Q (no_proxy_anyway _ _ id sport)
            (λ _ _ _. no_proxy_anyway _ _ id sport) (λ _ _ _ _ _ _. no_proxy a _ _ id sport))
        (λ _.
          delete_record_branches P D a s packet Q (no_proxy_anyway _ _ id sport)
            (λ _ _. no_proxy_anyway _ _ id sport) (λ _ _ _. no_proxy a _ _ id sport))
        (no_proxy a _ _ id sport) (no_proxy a _ _ id sport)

  -- A relay starts only for a Connect of a device that the scanner knows and a port other than 0,
  -- and behind the reply 0. For the lockdown port under `require_pair_record` it starts only with a
  -- pair record of the device, unless the scanner no longer knows the device when the handler looks
  -- it up again for this test.
  pub handle_packet-IsAdmitted :
      (a : Around P D) (s : Served P D) (packet : Packet P D) (id sport : ℕ)
      → (handle_packet P D a s packet).1 ≡ proxying id sport
      → IsAdmitted a s.lockdown_dir s.written packet id (handle_packet P D a s packet).0
  unfolding handle_packet
  handle_packet-IsAdmitted a s packet id sport =
      let s' : Served P D = record s {
        metrics = record s.metrics { commands_total = fetch_add s.metrics.commands_total 1 };
      } in
      elim (Option-cases (get_string P packet.plist (bytes "MessageType"))) [
        | inl missing ↦
            rw (missing, handle_packet) (no_proxy a s' (result P D packet.tag 1) id sport)
        | inr (message_type, given) ↦
            rw (given, handle_packet) (dispatch-Admits a _ packet message_type id sport given)
      ]
