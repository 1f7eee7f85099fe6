-- ===== src/Daemon/Admission.antt =====
-- The accept loops of meridian-relay/src/daemon/mod.rs and relay.rs with the tasks that they spawn:
-- `handle_client` of connection.rs and `handle_relay_client`. The semaphore is the number of its
-- free permits.
use ius.Base.{ℕ, zero, suc, ◌≡◌, Bool, Option, none, some, List, [], ◌∷◌, ◌++◌, if◌then◌else◌}
use ius.Metrics.{Metrics, fetch_add, fetch_sub_one}

-- `clients_accepted` and `clients_active` at the start of a handler.
unfoldable pub enter : Metrics → Metrics
enter m = record m {
  clients_accepted = fetch_add m.clients_accepted 1;
  clients_active = fetch_add m.clients_active 1;
}

-- A peer that is not allowed.
unfoldable pub reject : Metrics → Metrics
reject m = record m {
  clients_rejected = fetch_add m.clients_rejected 1;
  clients_active = fetch_sub_one m.clients_active;
}

unfoldable pub exit : Metrics → Metrics
exit m = record m { clients_active = fetch_sub_one m.clients_active }

-- `inner` is what `handle_client_inner` counts.
unfoldable pub handle_client : (allowed : Bool) (inner : Metrics → Metrics) → Metrics → Metrics
unfolding enter reject exit
handle_client allowed inner m = if allowed then exit (inner (enter m)) else reject (enter m)

-- `copied` are the byte counts of `copy_bidirectional`, if it succeeds.
unfoldable pub splice : (copied : Option (ℕ × ℕ)) → Metrics → Metrics
splice none m = m
splice (some (a_to_b, b_to_a)) m = record m {
  client_rx_bytes = fetch_add m.client_rx_bytes a_to_b;
  client_tx_bytes = fetch_add m.client_tx_bytes b_to_a;
}

-- `connected` is whether the upstream could be reached.
unfoldable pub handle_relay_client :
    (allowed connected : Bool) (copied : Option (ℕ × ℕ)) → Metrics → Metrics
unfolding enter reject exit splice
handle_relay_client allowed connected copied m =
    let m' = enter m in
    let counted = record m' { connects_total = fetch_add m'.connects_total 1 } in
    if allowed then if connected then exit (splice copied counted) else exit m' else reject m'

-- Where a spawned task is: before its handler, in it, and behind it with the permit still held.
pub data Phase : Type 0 where
  spawned active leaving : Phase

pub record Gate : Type 0 where
  pub permits : ℕ
  pub metrics : Metrics
  pub clients : List Phase

abbrev pub open_gate : (max_clients : ℕ) → Metrics → Gate
open_gate max_clients metrics = record { permits = max_clients; metrics = metrics; clients = [] }

-- A connection that was accepted: `try_acquire_owned`, and the task or the refusal.
unfoldable pub admit : Gate → Gate
admit g = elim g.permits [
  | zero ↦ record g {
    metrics = record g.metrics { clients_rejected = fetch_add g.metrics.clients_rejected 1 };
  }
  | suc n ↦ record g { permits = n; clients = spawned ∷ g.clients }
]

-- One step of the loop or of a task; the tasks' order is free. `counts` is what a handler or
-- another task counts in the meantime.
pub data Step (g : Gate) : Gate → Type 0 where
  admits : Step g (admit g)
  enters :
      (others more : List Phase)
      → g.clients ≡ others ++ spawned ∷ more
      → Step g (record g { metrics = enter g.metrics; clients = others ++ active ∷ more })
  rejects :
      (others more : List Phase)
      → g.clients ≡ others ++ active ∷ more
      → Step g (record g { metrics = reject g.metrics; clients = others ++ leaving ∷ more })
  exits :
      (others more : List Phase)
      → g.clients ≡ others ++ active ∷ more
      → Step g (record g { metrics = exit g.metrics; clients = others ++ leaving ∷ more })
  releases :
      (others more : List Phase)
      → g.clients ≡ others ++ leaving ∷ more
      → Step g (record g { permits = suc g.permits; clients = others ++ more })
  counts :
      (metrics : Metrics)
      → metrics.clients_active ≡ g.metrics.clients_active
      → Step g (record g { metrics = metrics })

-- What a run of steps reaches.
pub data Reachable (start : Gate) : Gate → Type 0 where
  started : Reachable start start
  stepped : {g h : Gate} → Reachable start g → Step g h → Reachable start h
