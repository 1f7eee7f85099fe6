-- ===== src/Devices/Stretches/Alone.antt =====
-- With no other task between them, the stretches for a read of meridian-relay/src/daemon/
-- device_manager.rs do what its code does from top to bottom.
use ius.Base.{
  ℕ, ◌≡◌, refl, sym, subst, Bool, List, [], ◌∷◌, ◌++◌, append_assoc, append-nil, inl, inr,
  Outcome-cases,
}
use ius.Base.Words.{Bytes}
use ius.Mux.Types.{version_packet, control_packet, setup_packet, tcp_packet, ConnectionEvent}
use ius.Mux.Frame.{parse_packet}
use ius.Mux.Reassembler.{feed}
use ius.Mux.Connections.{handle_tcp_packet}
use ius.Devices.Types.{count_tx}
use ius.Devices.Receiving.{
  Task, process_device_packet, process_all, on_usb_data, on_version, on_tcp, track_rx_seq,
  send_queued, count_events,
}
use ius.Devices.Stretches.{
  Stretch, idle, processing, handling, sending, DeviceTask, Shared, receive, begin_packet, advance,
  sends_setup,
}

-- Stretches of one task after each other.
pub data Alone (send : Bytes → Bool) (max : ℕ) (s : Shared) (t : DeviceTask)
    : Shared → DeviceTask → Type 0 where
  stays : Alone send max s t s t
  moves :
      (s' : Shared) (t' : DeviceTask)
      → Alone send max s t s' t'
      → Alone send max s t (advance send max s' t' t'.phase).0 (advance send max s' t' t'.phase).1

module _ (send : Bytes → Bool) (max : ℕ) where
  one :
      (s : Shared) (t : DeviceTask)
      → Alone send max s t (advance send max s t t.phase).0 (advance send max s t t.phase).1
  one s t = moves s t stays

  joined :
      (s₀ s₁ : Shared) (t₀ t₁ : DeviceTask) (s₂ : Shared) (t₂ : DeviceTask)
      → Alone send max s₀ t₀ s₁ t₁
      → Alone send max s₁ t₁ s₂ t₂
      → Alone send max s₀ t₀ s₂ t₂
  joined s₀ s₁ t₀ t₁ _ _ before stays = before
  joined s₀ s₁ t₀ t₁ _ _ before (moves s t after) = moves s t (joined s₀ s₁ t₀ t₁ s t before after)

  -- The view of the two states that the undivided code has.
  abbrev pub whole : Shared → DeviceTask → Task
  whole s t = record {
    version_negotiated = t.version_negotiated;
    manager = s.manager;
    metrics = s.metrics;
    sent = t.sent;
  }

  abbrev pub shared_of : Task → Shared
  shared_of w = record { manager = w.manager; metrics = w.metrics }

  abbrev pub task_of : DeviceTask → Task → Stretch → DeviceTask
  task_of t w phase = record t {
    version_negotiated = w.version_negotiated;
    sent = w.sent;
    phase = phase;
  }

  sends :
      (s : Shared) (t : DeviceTask) (queue : List Bytes) (events : List ConnectionEvent)
      (packets : List Bytes)
      → Alone send max s
          (record t { phase = sending queue events packets })
          (record s { metrics = count_events (send_queued s.metrics queue) events })
          (record t { sent = t.sent ++ queue; phase = processing packets })
  unfolding advance send_queued
  sends s t [] events packets =
      subst
        (λ (sent : List Bytes).
          Alone send max s (record t { phase = sending [] events packets })
            (record s { metrics = count_events s.metrics events })
            (record t { sent = sent; phase = processing packets }))
        (sym (append-nil t.sent)) (one s (record t { phase = sending [] events packets }))
  sends s t (packet ∷ queue) events packets =
      let s' : Shared = record s { metrics = count_tx s.metrics packet } in
      let t' : DeviceTask = record t { sent = t.sent ++ packet ∷ [] } in
      subst
        (λ (sent : List Bytes).
          Alone send max s (record t { phase = sending (packet ∷ queue) events packets })
            (record s {
              metrics = count_events (send_queued (count_tx s.metrics packet) queue) events;
            })
            (record t { sent = sent; phase = processing packets }))
        (append_assoc t.sent (packet ∷ []) queue)
        (joined s s' (record t { phase = sending (packet ∷ queue) events packets })
          (record t' { phase = sending queue events packets }) _ _
          (one s (record t { phase = sending (packet ∷ queue) events packets }))
          (sends s' t' queue events packets))

  -- Behind the first stretch of a packet.
  begun :
      (s s' : Shared) (t t' : DeviceTask) (packet : Bytes) (packets : List Bytes)
      → begin_packet send s (record t { phase = processing (packet ∷ packets) }) packet packets
        ≡ (s', t')
      → Alone send max s (record t { phase = processing (packet ∷ packets) }) s' t'
  unfolding advance
  begun s s' t t' packet packets e =
      subst
        (λ (r : Shared × DeviceTask).
          Alone send max s (record t { phase = processing (packet ∷ packets) }) r.0 r.1)
        e (one s (record t { phase = processing (packet ∷ packets) }))

  -- One packet.
  process_packet :
      (s : Shared) (t : DeviceTask) (packet : Bytes) (packets : List Bytes)
      → Alone send max s
          (record t { phase = processing (packet ∷ packets) })
          (shared_of (process_device_packet send t.device_id (whole s t) packet max))
          (task_of t
            (process_device_packet send t.device_id (whole s t) packet max)
            (processing packets))
  unfolding process_device_packet advance begin_packet on_version on_tcp
  process_packet s t packet packets =
      let t₀ : DeviceTask = record t { phase = processing (packet ∷ packets) } in
      elim (Outcome-cases (parse_packet packet)) [
        | inr (_, bad) ↦
            rw (bad, process_device_packet)
              (begun s _ t _ packet packets (rw (bad, begin_packet) refl))
        | inl (version_packet major minor, good) ↦
            rw (good, process_device_packet)
              (moves s (sends_setup send major packets t₀)
                (begun s _ t _ packet packets (rw (good, begin_packet) refl)))
        | inl (control_packet payload, good) ↦
            rw (good, process_device_packet)
              (begun s _ t _ packet packets (rw (good, begin_packet) refl))
        | inl (setup_packet, good) ↦
            rw (good, process_device_packet)
              (begun s _ t _ packet packets (rw (good, begin_packet) refl))
        | inl (tcp_packet header payload, good) ↦
            let s₁ : Shared = record s { manager = track_rx_seq t.device_id s.manager packet } in
            let t₁ : DeviceTask = record t { phase = handling header payload packets } in
            let r = handle_tcp_packet s₁.manager t.device_id header payload s.metrics max in
            let s₂ : Shared = record { manager = r.manager; metrics = r.metrics } in
            rw (good, process_device_packet)
              (joined s s₂ t₀ (record t { phase = sending r.send_queue r.events packets }) _ _
                (moves s₁ t₁ (begun s _ t _ packet packets (rw (good, begin_packet) refl)))
                (sends s₂ t r.send_queue r.events packets))
      ]

  process_packets :
      (s : Shared) (t : DeviceTask) (packets : List Bytes)
      → Alone send max s
          (record t { phase = processing packets })
          (shared_of (process_all send t.device_id (whole s t) packets max))
          (task_of t (process_all send t.device_id (whole s t) packets max) idle)
  unfolding process_all advance
  process_packets s t [] = one s (record t { phase = processing [] })
  process_packets s t (packet ∷ packets) =
      let w = process_device_packet send t.device_id (whole s t) packet max in
      joined s (shared_of w) (record t { phase = processing (packet ∷ packets) })
        (task_of t w (processing packets)) _ _ (process_packet s t packet packets)
        (process_packets (shared_of w) (task_of t w (processing packets)) packets)

  -- A task that has received bytes comes, by its own stretches, to where `on_usb_data` is.
  pub receive-on_usb_data :
      (s : Shared) (t : DeviceTask) (raw_data : Bytes)
      → Alone send max
          (receive s t raw_data).0
          (receive s t raw_data).1
          (shared_of (on_usb_data send t.device_id t.reassembler (whole s t) raw_data max).1)
          (record (task_of t
            (on_usb_data send t.device_id t.reassembler (whole s t) raw_data max).1
            idle) {
              reassembler = (on_usb_data send t.device_id t.reassembler (whole s t) raw_data max).0;
            })
  unfolding receive on_usb_data
  receive-on_usb_data s t raw_data =
      process_packets (receive s t raw_data).0 (receive s t raw_data).1
        (feed t.reassembler raw_data).1
