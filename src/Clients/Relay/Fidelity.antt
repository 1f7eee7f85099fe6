-- ===== src/Clients/Relay/Fidelity.antt =====
-- What the loop of the proxy has passed on at each of its turns, and what it leaves behind.
use ius.Base.{
  ℕ, ◌+◌, ◌≡◌, refl, ap, ◌∙◌, inl, inr, Bool, true, false, none, List, [], ◌∷◌, ◌++◌, ℕ-eq,
  Option-cases, Outcome-cases, Bool-cases, ◌⊎◌, append-nil, length, length-append, is_empty,
  Outcome, ok, err, String, arith,
}
use ius.Base.Words.{Bytes}
use ius.Base.Assoc
use ius.Base.Assoc.{lookup-adjust, lookup-remove}
use ius.Metrics.{Metrics, fetch_add}
use ius.Mux.Connections.{ConnectionManager, MuxDevice, get_data_notify}
use ius.Mux.Connections.Delivery.{conn_at}
use ius.Clients.{Round, ended, took, drain_inbound, remove_connection}
use ius.Clients.Relay.Messages.{
  payloads, updates, total, payloads-append, updates-append, total-append, payload_own,
}
use ius.Clients.Relay.{
  data_message, window_update, Waited, notified, read_bytes, read_failed, Turn, Relay, Progress,
  going, done, send, write_out, wait, proxy_turn, proxy_loop, proxy_connection,
}

-- One message for each read and each write, the reads in their order, and the counters moved by
-- the bytes of both.
pub record IsRelayed (sport : ℕ) (before : Metrics) (s : Relay) : Type 0 where
  pub passed_on : payloads sport s.sent ≡ s.read
  pub reopened : updates sport s.sent ≡ length s.written
  pub nothing_else : length s.sent ≡ length s.read + length s.written
  pub rx : s.metrics.client_rx_bytes ≡ fetch_add before.client_rx_bytes (total s.read)
  pub tx : s.metrics.client_tx_bytes ≡ fetch_add before.client_tx_bytes (total s.written)

abbrev pub is_error : Progress → Bool
is_error going = false
is_error (done (ok _)) = false
is_error (done (err _)) = true

add_twice : (start a b : ℕ) → fetch_add (fetch_add start a) b ≡ fetch_add start (a + b)
add_twice start a b = omega arith

updated-IsRelayed :
    (sport : ℕ) (before : Metrics) (data' : Bytes) (s : Relay)
    → IsRelayed sport before s
    → IsRelayed sport before (record s {
      written = s.written ++ data' ∷ [];
      sent = s.sent ++ window_update sport ∷ [];
      metrics = record s.metrics {
        client_tx_bytes = fetch_add s.metrics.client_tx_bytes (length data');
      };
    })
unfolding payloads updates total
updated-IsRelayed sport before data' s h = record {
  passed_on =
      payloads-append sport s.sent (window_update sport ∷ [])
      ∙ append-nil (payloads sport s.sent)
      ∙ h.passed_on;
  reopened = ground (
    arith,
    h.reopened,
    updates-append sport s.sent (window_update sport ∷ []),
    length-append s.written (data' ∷ []),
  );
  nothing_else = ground (
    arith,
    h.nothing_else,
    length-append s.sent (window_update sport ∷ []),
    length-append s.written (data' ∷ []),
  );
  rx = h.rx;
  tx =
      ap (λ x. fetch_add x (length data')) h.tx
      ∙ add_twice before.client_tx_bytes (total s.written) (length data')
      ∙ ap (fetch_add before.client_tx_bytes) (omega (arith, total-append s.written (data' ∷ [])));
}

sent-IsRelayed :
    (sport : ℕ) (before : Metrics) (data' : Bytes) (s : Relay)
    → IsRelayed sport before s
    → IsRelayed sport before (record s {
      read = s.read ++ data' ∷ [];
      sent = s.sent ++ data_message sport data' ∷ [];
      metrics = record s.metrics {
        client_rx_bytes = fetch_add s.metrics.client_rx_bytes (length data');
      };
    })
unfolding payloads updates total
sent-IsRelayed sport before data' s h = record {
  passed_on =
      payloads-append sport s.sent (data_message sport data' ∷ [])
      ∙ ap (λ xs. payloads sport s.sent ++ xs) (payload_own sport data')
      ∙ ap (λ xs. xs ++ data' ∷ []) h.passed_on;
  reopened =
      ground (arith, h.reopened, updates-append sport s.sent (data_message sport data' ∷ []));
  nothing_else = ground (
    arith,
    h.nothing_else,
    length-append s.sent (data_message sport data' ∷ []),
    length-append s.read (data' ∷ []),
  );
  rx =
      ap (λ x. fetch_add x (length data')) h.rx
      ∙ add_twice before.client_rx_bytes (total s.read) (length data')
      ∙ ap (fetch_add before.client_rx_bytes) (omega (arith, total-append s.read (data' ∷ [])));
  tx = h.tx;
}

write_out-IsRelayed :
    (sport : ℕ) (before : Metrics) (t : Turn) (data' : Bytes) (s : Relay)
    → IsRelayed sport before s
    → is_error (write_out sport t data' s).1 ≡ false
    → IsRelayed sport before (write_out sport t data' s).0
unfolding write_out send
write_out-IsRelayed sport before t data' s h fine = elim (Outcome-cases t.write_all) [
  | inr (e, bad) ↦ ground (arith, rw (bad, write_out) at fine)
  | inl (u, good) ↦ elim (Bool-cases t.is_open) [
    | inl is_open ↦ rw (good, is_open, write_out, send) (updated-IsRelayed sport before data' s h)
    | inr closed ↦ ground (arith, rw (good, closed, write_out, send) at fine)
  ]
]

Waited-cases :
    (w : Waited)
    → (w ≡ notified)
      ⊎ ((data' : Bytes) × (w ≡ read_bytes data'))
      ⊎ ((e : String) × (w ≡ read_failed e))
Waited-cases notified = inl refl
Waited-cases (read_bytes data') = inr (inl (data', refl))
Waited-cases (read_failed e) = inr (inr (e, refl))

wait-IsRelayed :
    (sport : ℕ) (before : Metrics) (t : Turn) (s : Relay)
    → IsRelayed sport before s
    → is_error (wait sport t s).1 ≡ false
    → IsRelayed sport before (wait sport t s).0
unfolding wait send
wait-IsRelayed sport before t s h fine = elim (Waited-cases t.waited) [
  | inl woken ↦ rw (woken, wait) h
  | inr (inl (data', got)) ↦ elim (Bool-cases (is_empty data')) [
    | inl nothing ↦ rw (got, nothing, wait) h
    | inr some_bytes ↦ elim (Bool-cases t.is_open) [
      | inl is_open ↦
          rw (got, some_bytes, is_open, wait, send) (sent-IsRelayed sport before data' s h)
      | inr closed ↦ ground (arith, rw (got, some_bytes, closed, wait, send) at fine)
    ]
  ]
  | inr (inr (e, failed)) ↦ rw (failed, wait) h
]

lookup-remove_connection :
    (m : ConnectionManager) (id sport : ℕ) → conn_at (remove_connection m id sport) id sport ≡ none
unfolding remove_connection
lookup-remove_connection m id sport = elim (Option-cases (Assoc.lookup id m.devices)) [
  | inl missing ↦ ground (
    arith,
    missing,
    lookup-adjust id id
        (λ (d : MuxDevice). record d { connections = Assoc.remove sport d.connections }) m.devices,
  )
  | inr (d, found) ↦ ground (
    arith,
    found,
    lookup-adjust id id
        (λ (d : MuxDevice). record d { connections = Assoc.remove sport d.connections }) m.devices,
    lookup-remove sport sport d.connections,
  )
]

no_notify-none :
    (m : ConnectionManager) (id sport : ℕ)
    → get_data_notify m id sport ≡ none
    → conn_at m id sport ≡ none
unfolding get_data_notify
no_notify-none m id sport missing = ground arith

Round-cases :
    (r : Round) → ((o : Outcome String (Unit {0})) × (r ≡ ended o)) ⊎ ((b : Bytes) × (r ≡ took b))
Round-cases (ended o) = inl (o, refl)
Round-cases (took b) = inr (b, refl)

Progress-cases : (p : Progress) → (p ≡ going) ⊎ ((o : Outcome String (Unit {0})) × (p ≡ done o))
Progress-cases going = inl refl
Progress-cases (done o) = inr (o, refl)

with_manager-IsRelayed :
    (sport : ℕ) (before : Metrics) (m : ConnectionManager) (s : Relay)
    → IsRelayed sport before s
    → IsRelayed sport before (record s { manager = m })
with_manager-IsRelayed sport before m s h = record {
  passed_on = h.passed_on;
  reopened = h.reopened;
  nothing_else = h.nothing_else;
  rx = h.rx;
  tx = h.tx;
}

proxy_turn-IsRelayed :
    (id sport : ℕ) (before : Metrics) (t : Turn) (s : Relay)
    → IsRelayed sport before s
    → is_error (proxy_turn id sport t s).1 ≡ false
    → IsRelayed sport before (proxy_turn id sport t s).0
unfolding proxy_turn
proxy_turn-IsRelayed id sport before t s h fine =
    let (m, round) = drain_inbound (t.around s.manager) id sport in
    let drained = record s { manager = m } in
    let k = with_manager-IsRelayed sport before m s h in
    elim (Round-cases round) [
      | inl (o, over) ↦ rw (over, proxy_turn) k
      | inr (data', bytes) ↦ elim (Bool-cases (is_empty data')) [
        | inl nothing ↦
            rw (bytes, nothing, proxy_turn)
              (wait-IsRelayed sport before t drained k (rw (bytes, nothing, proxy_turn) at fine))
        | inr something ↦
            rw (bytes, something, proxy_turn)
              (write_out-IsRelayed sport before t data' drained k
                (rw (bytes, something, proxy_turn) at fine))
      ]
    ]

-- As long as the proxy runs, and when it comes to its end without an error, whatever the other
-- tasks do to the table: each read from the client has become one message with the same bytes, in
-- the order of the reads, each write to the client one window update, there is no other message,
-- and the two counters have moved by the bytes read and written.
pub proxy_loop-IsRelayed :
    (id sport : ℕ) (before : Metrics) (turns : List Turn) (s : Relay)
    → IsRelayed sport before s
    → is_error (proxy_loop id sport turns s).1 ≡ false
    → IsRelayed sport before (proxy_loop id sport turns s).0
unfolding proxy_loop
proxy_loop-IsRelayed id sport before [] s h fine = h
proxy_loop-IsRelayed id sport before (t ∷ turns) s h fine =
    let (s', progress) = proxy_turn id sport t s in
    elim (Progress-cases progress) [
      | inl goes ↦
          rw (goes, proxy_loop)
            (proxy_loop-IsRelayed id sport before turns s'
              (proxy_turn-IsRelayed id sport before t s h (rw goes refl))
              (rw (goes, proxy_loop) at fine))
      | inr (o, over) ↦
          rw (over, proxy_loop)
            (proxy_turn-IsRelayed id sport before t s h (rw over (rw (over, proxy_loop) at fine)))
    ]

-- When the proxy of a connection comes to its end, with or without an error, the connection is no
-- longer in the table and its port is free.
pub proxy_connection-removed :
    (id sport : ℕ) (turns : List Turn) (later : ConnectionManager → ConnectionManager) (s : Relay)
    (o : Outcome String (Unit {0}))
    → (proxy_connection id sport turns later s).1 ≡ done o
    → conn_at (proxy_connection id sport turns later s).0.manager id sport ≡ none
unfolding proxy_connection
proxy_connection-removed id sport turns later s o over =
    elim (Option-cases (get_data_notify s.manager id sport)) [
      | inl missing ↦ rw (missing, proxy_connection) (no_notify-none s.manager id sport missing)
      | inr (notify, found) ↦
          let (s', progress) = proxy_loop id sport turns s in
          elim (Progress-cases progress) [
            | inl goes ↦ ground (arith, rw (found, goes, proxy_connection) at over)
            | inr (o', ends) ↦
                rw (found, ends, proxy_connection)
                  (lookup-remove_connection (later s'.manager) id sport)
          ]
    ]
