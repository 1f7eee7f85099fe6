-- ===== src/Device/Requests.antt =====
-- What the daemon reads in the requests of its own client, meridian-relay/src/device/lockdown.rs.
use ius.Base.{ℕ, ◌≡◌, ◌≢◌, refl, ap, ◌∙◌, true, false, some, nat_eq, arith}
use ius.Base.Words.{IsU32, u16, u32}
use ius.Base.Texts.{bytes, bytes_eq, Bytes-eq}
use ius.Metrics.{fetch_add}
use ius.Platform.{Directory}
use ius.Scanner.{or_zero}
use ius.Protocol.Plist.{Plist, IsLawful}
use ius.Protocol.Messages.{get_string}
use ius.Protocol.Views.{get_string-of_string, get_unsigned-of_integer}
use ius.Clients.Serving.{Served, Around, Packet}
use ius.Clients.Connects.{
  connect_device_id, connect_port, knows, lacks_pair_record, open_connection, handle_connect,
  from_be,
}
use ius.Clients.Commands.{handle_packet, dispatch}
use ius.Device.Values.{connect_request, to_be}

-- The handler's state when a connection is asked for: the command and the connect are counted.
abbrev pub counted_connect : (P : Plist) (D : Directory) → Served P D → Served P D
counted_connect P D s = record s {
  metrics = record s.metrics {
    commands_total = fetch_add s.metrics.commands_total 1;
    connects_total = fetch_add s.metrics.connects_total 1;
  };
}

abbrev connect_counted : (P : Plist) (D : Directory) → Served P D → Served P D
connect_counted P D s = record s {
  metrics = record s.metrics { connects_total = fetch_add s.metrics.connects_total 1 };
}

-- A Connect that passes all guards opens the connection.
handle_connect_passes :
    (P : Plist) (D : Directory) (a : Around P D) (s : Served P D) (packet : Packet P D)
    (id port : ℕ)
    → connect_device_id P D packet.plist ≡ id
    → connect_port P D packet.plist ≡ port
    → nat_eq id 0 ≡ false
    → nat_eq port 0 ≡ false
    → knows P D a.scanner id ≡ true
    → lacks_pair_record P D a (connect_counted P D s) id port ≡ false
    → handle_connect P D a s packet
      ≡ open_connection P D a (connect_counted P D s) packet.tag id port
unfolding handle_connect
handle_connect_passes P D a s packet id port is_id is_port id' port' known paired =
    rw (is_id, is_port, id', port', known, paired, handle_connect) refl

handle_packet_connects :
    (P : Plist) (D : Directory) (a : Around P D) (s : Served P D) (packet : Packet P D)
    → get_string P packet.plist (bytes "MessageType") ≡ some (bytes "Connect")
    → handle_packet P D a s packet
      ≡ handle_connect P D a
          (record s {
            metrics = record s.metrics { commands_total = fetch_add s.metrics.commands_total 1 };
          })
          packet
unfolding handle_packet dispatch bytes_eq
handle_packet_connects P D a s packet asked = rw (asked, handle_packet) refl

module _ (P : Plist) (lawful : IsLawful P) where
  abbrev built : (id : ℕ) → P.Dictionary
  built id = (connect_request P id).plist

  -- The entries that the daemon looks for.
  built-get :
      (id : ℕ)
      → (P.get (built id) (bytes "MessageType") ≡ some (P.of_string (bytes "Connect")))
        × (P.get (built id) (bytes "DeviceID") ≡ some (P.of_integer id))
        × (P.get (built id) (bytes "PortNumber") ≡ some (P.of_integer (to_be 62078)))
  unfolding connect_request bytes_eq
  built-get id =
      let skip = lawful.get-insert in
      (
        skip _ _ _ _ ∙ skip _ _ _ _ ∙ skip _ _ _ _ ∙ skip _ _ _ _ ∙ skip _ _ _ _,
        skip _ _ _ _ ∙ skip _ _ _ _ ∙ skip _ _ _ _ ∙ skip _ _ _ _,
        skip _ _ _ _ ∙ skip _ _ _ _ ∙ skip _ _ _ _,
      )

  -- The request of the client names its device and the lockdown port, as the daemon reads it: on a
  -- device that is known and paired the daemon opens a connection to just that port, for any id but
  -- 0 of 32 bits.
  pub handle_packet-connect_request :
      (D : Directory) (a : Around P D) (s : Served P D) (id : ℕ)
      → IsU32 id
      → id ≢ 0
      → knows P D a.scanner id ≡ true
      → lacks_pair_record P D a (counted_connect P D s) id 62078 ≡ false
      → handle_packet P D a s (connect_request P id)
        ≡ open_connection P D a (counted_connect P D s) 1 id 62078
  unfolding connect_request
  handle_packet-connect_request D a s id small given known paired =
      let (asked, device, port) = built-get id in
      let asked' =
        get_string-of_string P lawful (built id) (bytes "MessageType") (bytes "Connect") asked in
      let device' = get_unsigned-of_integer P lawful (built id) (bytes "DeviceID") id device in
      let port' =
        get_unsigned-of_integer P lawful (built id) (bytes "PortNumber") (to_be 62078) port in
      handle_packet_connects P D a s (connect_request P id) asked'
      ∙ handle_connect_passes P D a _ (connect_request P id) id 62078
          (ap (λ o. u32 (or_zero o)) device' ∙ omega (arith, small))
          (ap (λ o. from_be (u16 (or_zero o))) port') (ground (arith, given)) refl known paired
