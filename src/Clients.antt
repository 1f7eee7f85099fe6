-- ===== src/Clients.antt =====
-- The client's side of a connection in meridian-relay/src/daemon/connection.rs: who is let in, and
-- what the proxy takes from the connection table. Streams and channels stand by their outcomes.
pub mod Proxy
pub mod Relay
pub mod Records
pub mod Serving
pub mod Connects
pub mod Commands
pub mod Session
use ius.Base.{
  ℕ, Bool, true, false, not, Option, none, some, List, [], ◌∷◌, ℕ-eq, nat_eq, any, is_empty,
  if◌then◌else◌, Outcome, ok, err, String,
}
use ius.Base.Words.{Bytes}
use ius.Base.Strings.{Text}
use ius.Base.Texts.{bytes_eq}
use ius.Base.Assoc
use ius.Security.{PeerCredentials}
use ius.Mux.Types.{ConnState}
use ius.Mux.Connections.{ConnectionManager, MuxDevice, Connection}

-- `PeerIdentity` of meridian-relay/src/platform/mod.rs.
pub record PeerIdentity : Type 0 where
  pub credentials : Option PeerCredentials
  pub sid : Option Text

-- The allow lists are those of the configuration. The texts of SIDs are compared by code points.
unfoldable pub peer_is_allowed :
    PeerIdentity → (allowed_uids : List ℕ) (allowed_sids : List Text) → Bool
peer_is_allowed peer allowed_uids allowed_sids =
    if not (is_empty allowed_uids)
    then elim peer.credentials [ none ↦ false | some creds ↦ any (nat_eq creds.uid) allowed_uids ]
    else if not (is_empty allowed_sids)
    then elim peer.sid [ none ↦ false | some sid ↦ any (λ s. bytes_eq s sid) allowed_sids ]
    else true

-- What one round of `proxy_loop` does before it waits: it ends, or takes what is buffered; no bytes
-- stand for `None`.
pub data Round : Type 0 where
  ended : Outcome String (Unit {0}) → Round
  took : Bytes → Round

abbrev pub take_from : Connection → Round × Connection
take_from c = elim c.state [
  | ConnState.dead ↦ (ended (ok tt), c)
  | ConnState.connected ↦ (took c.ib_buf, record c { ib_buf = [] })
  | _ ↦ (ended (err "connection not connected"), c)
]

unfoldable pub drain_inbound : ConnectionManager → (device_id sport : ℕ) → ConnectionManager × Round
drain_inbound m device_id sport = elim (Assoc.lookup device_id m.devices) [
  | none ↦ (m, ended (err "device not found"))
  | some d ↦ elim (Assoc.lookup sport d.connections) [
    | none ↦ (m, ended (err "connection not found"))
    | some c ↦ (
      record {
        devices =
            Assoc.adjust device_id
              (λ _. record d {
                connections = Assoc.adjust sport (λ _. (take_from c).1) d.connections;
              })
              m.devices;
      },
      (take_from c).0,
    )
  ]
]

-- The clean-up behind the loop, whatever its result.
unfoldable pub remove_connection : ConnectionManager → (device_id sport : ℕ) → ConnectionManager
remove_connection m device_id sport = record {
  devices =
      Assoc.adjust device_id (λ d. record d { connections = Assoc.remove sport d.connections })
        m.devices;
}
