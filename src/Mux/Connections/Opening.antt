-- ===== src/Mux/Connections/Opening.antt =====
-- What `start_connect` opens.
use ius.Base.{
  ℕ, ◌≡◌, ◌⊎◌, inl, inr, ◌&&◌, none, some, ℕ-eq, nat_eq, ok, err, if◌then◌else◌, Option-cases,
  arith,
}
use ius.Base.Assoc
use ius.Base.Assoc.{lookup-adjust, lookup-insert}
use ius.Mux.Types.{invalid_state, text}
use ius.Mux.Connections.{
  MuxDevice, ConnectionManager, start_connect, new_connection, first_free, port_count,
}
use ius.Mux.Connections.Ports.{IsFirstFree, first_free-IsFirstFree}
use ius.Mux.Connections.Delivery.{conn_at}

-- The table after a connection was opened on port `sport` of device `d`.
pub record IsOpened (m : ConnectionManager) (id dport tag sport : ℕ) (d : MuxDevice)
    (after : ConnectionManager) : Type 0 where
  pub port : IsFirstFree port_count 1024 d.connections sport
  pub conns :
      (j p : ℕ)
      → conn_at after j p ≡ (
          if nat_eq id j && nat_eq sport p
          then some (new_connection sport dport tag)
          else conn_at m j p)

insert_opens :
    (m : ConnectionManager) (id dport tag sport j p : ℕ) (d : MuxDevice)
    → Assoc.lookup id m.devices ≡ some d
    → conn_at
        (record {
          devices =
              Assoc.adjust id
                (λ _. record d {
                  connections = Assoc.insert sport (new_connection sport dport tag) d.connections;
                })
                m.devices;
        })
        j
        p
      ≡ (if nat_eq id j && nat_eq sport p
          then some (new_connection sport dport tag)
          else conn_at m j p)
insert_opens m id dport tag sport j p d found = ground (
  arith,
  lookup-adjust id j
      (λ (_ : MuxDevice). record d {
        connections = Assoc.insert sport (new_connection sport dport tag) d.connections;
      })
      m.devices,
  lookup-insert sport p (new_connection sport dport tag) d.connections,
)

-- On a known device start_connect returns the lowest free port from 1024 to 65534 and opens a
-- connection there and nowhere else, or, with every port taken, fails and changes nothing.
pub start_connect-IsOpened :
    (m : ConnectionManager) (id dport tag : ℕ) (d : MuxDevice)
    → Assoc.lookup id m.devices ≡ some d
    → ((sport : ℕ) × ((start_connect m id dport tag).1 ≡ ok sport)
        × IsOpened m id dport tag sport d (start_connect m id dport tag).0)
      ⊎ ((start_connect m id dport tag ≡ (m, err (invalid_state (text "no available ports"))))
          × (first_free port_count 1024 d.connections ≡ none))
unfolding start_connect
start_connect-IsOpened m id dport tag d found =
    elim (Option-cases (first_free port_count 1024 d.connections)) [
      | inl full ↦ inr (rw (found, full, start_connect), full)
      | inr (sport, free) ↦ inl (
        sport,
        rw (found, free, start_connect),
        rw (found, free, start_connect)
            (record {
              port = first_free-IsFirstFree port_count 1024 d.connections free;
              conns = λ j p. insert_opens m id dport tag sport j p d found;
            }),
      )
    ]
