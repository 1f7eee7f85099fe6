-- ===== src/Devices/Stretches/Soundness.antt =====
-- That the stretches of a task, and the tasks beside it, keep the table and the reassembler sound.
use ius.Base.{
  ℕ, ◌≤◌, ◌≡◌, refl, subst, Bool, List, [], ◌∷◌, length, ok, Option-cases, Outcome-cases, inl, inr,
  ℕ-eq, arith,
}
use ius.Base.Words.{Bytes}
use ius.Base.Assoc
use ius.Base.Assoc.{Assoc, remove-IsMap, lookup-remove_cases, lookup-insert, lookup-insert_cases}
use ius.Mux.Types.{version_packet, control_packet, setup_packet, tcp_packet}
use ius.Mux.Frame.{parse_packet}
use ius.Mux.Reassembler.{feed}
use ius.Mux.Reassembler.Stream.{feed-le-max_buffer}
use ius.Mux.Connections.{ConnectionManager, MuxDevice}
use ius.Mux.Connections.Validity.{
  IsValid, DeviceValid, connections-DeviceValid, adjust-IsValid, handle_tcp_packet-IsValid,
}
use ius.Devices.Stretches.{
  Stretch, idle, processing, negotiating, handling, sending, DeviceTask, Shared, receive,
  begin_packet, advance,
}
use ius.Devices.Connecting.{prepare_syn, bump_v2}
use ius.Clients.{remove_connection}
use ius.Devices.Validity.{change-IsValid, track_rx_seq-IsValid, negotiate-IsValid}

-- The reassembler of a task is within the limit, which stays.
pub record IsLimited (limit : ℕ) (t : DeviceTask) : Type 0 where
  pub limited : t.reassembler.max_buffer ≡ limit
  pub buffer : length t.reassembler.buffers ≤ limit

pub prepare_syn-IsValid :
    (max id sport : ℕ) (m m' : ConnectionManager) (packet : Bytes)
    → prepare_syn m id sport ≡ ok (m', packet)
    → IsValid max m
    → IsValid max m'
unfolding prepare_syn
prepare_syn-IsValid max id sport m m' packet e v = elim (Option-cases (Assoc.lookup id m.devices)) [
  | inl missing ↦ ground arith
  | inr (d, found) ↦ elim (Option-cases (Assoc.lookup sport d.connections)) [
    | inl missing ↦ ground arith
    | inr (c, l) ↦
        let same : record { devices = Assoc.adjust id (λ _. bump_v2 d) m.devices } ≡ m' =
          ground arith in
        rw same at (
          adjust-IsValid max id m (bump_v2 d) v
            (connections-DeviceValid max d (bump_v2 d) refl (v.at_id id d found)))
  ]
]

remove-DeviceValid :
    (max sport : ℕ) (d : MuxDevice)
    → DeviceValid max d
    → DeviceValid max (record d { connections = Assoc.remove sport d.connections })
remove-DeviceValid max sport d v = record {
  is_map = remove-IsMap sport d.connections v.is_map;
  at_port = λ k c l. v.at_port k c (lookup-remove_cases sport k c d.connections l).1;
}

pub remove_connection-IsValid :
    (max : ℕ) (m : ConnectionManager) (id sport : ℕ)
    → IsValid max m
    → IsValid max (remove_connection m id sport)
unfolding remove_connection
remove_connection-IsValid max m id sport v =
    change-IsValid max id m _ (λ d w. remove-DeviceValid max sport d w) v

begin_packet-IsSound :
    (send : Bytes → Bool) (max limit : ℕ) (s : Shared) (t : DeviceTask) (packet : Bytes)
    (packets : List Bytes)
    → IsValid max s.manager
    → IsLimited limit t
    → IsValid max (begin_packet send s t packet packets).0.manager
      × IsLimited limit (begin_packet send s t packet packets).1
unfolding begin_packet
begin_packet-IsSound send max limit s t packet packets v l =
    elim (Outcome-cases (parse_packet packet)) [
      | inr (_, bad) ↦
          rw (bad, begin_packet) (v, (record { limited = l.limited; buffer = l.buffer }))
      | inl (version_packet major minor, good) ↦
          rw (good, begin_packet) (v, (record { limited = l.limited; buffer = l.buffer }))
      | inl (control_packet payload, good) ↦
          rw (good, begin_packet) (v, (record { limited = l.limited; buffer = l.buffer }))
      | inl (setup_packet, good) ↦
          rw (good, begin_packet) (v, (record { limited = l.limited; buffer = l.buffer }))
      | inl (tcp_packet header payload, good) ↦
          rw (good, begin_packet)
            (
              track_rx_seq-IsValid max t.device_id s.manager packet v,
              (record { limited = l.limited; buffer = l.buffer }),
            )
    ]

pub advance-IsSound :
    (send : Bytes → Bool) (max limit : ℕ) (s : Shared) (t : DeviceTask) (phase : Stretch)
    → IsValid max s.manager
    → IsLimited limit t
    → IsValid max (advance send max s t phase).0.manager
      × IsLimited limit (advance send max s t phase).1
unfolding advance
advance-IsSound send max limit s t idle v l = (v, l)
advance-IsSound send max limit s t (processing []) v l =
    (v, record { limited = l.limited; buffer = l.buffer })
advance-IsSound send max limit s t (processing (packet ∷ packets)) v l =
    begin_packet-IsSound send max limit s t packet packets v l
advance-IsSound send max limit s t (negotiating major packets) v l = (
  negotiate-IsValid max t.device_id s.manager major v,
  record { limited = l.limited; buffer = l.buffer },
)
advance-IsSound send max limit s t (handling header payload packets) v l = (
  handle_tcp_packet-IsValid max s.manager t.device_id header payload s.metrics v,
  record { limited = l.limited; buffer = l.buffer },
)
advance-IsSound send max limit s t (sending (packet ∷ queue) events packets) v l =
    (v, record { limited = l.limited; buffer = l.buffer })
advance-IsSound send max limit s t (sending [] events packets) v l =
    (v, record { limited = l.limited; buffer = l.buffer })

pub receive-IsLimited :
    (limit : ℕ) (s : Shared) (t : DeviceTask) (raw_data : Bytes)
    → IsLimited limit t
    → IsLimited limit (receive s t raw_data).1
unfolding receive
receive-IsLimited limit s t raw_data l =
    let (small, kept) = feed-le-max_buffer t.reassembler raw_data in
    record {
      limited = rw kept l.limited;
      buffer =
          subst (λ (n : ℕ). length (feed t.reassembler raw_data).0.buffers ≤ n) l.limited small;
    }

pub receive-manager :
    (s : Shared) (t : DeviceTask) (raw_data : Bytes) → (receive s t raw_data).0.manager ≡ s.manager
unfolding receive
receive-manager s t raw_data = refl
