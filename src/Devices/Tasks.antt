-- ===== src/Devices/Tasks.antt =====
-- The processing tasks of all devices, and the tasks beside them, as a step relation on what they
-- share. A step is one stretch of code that no other task can cut: what a task does under one lock
-- on the connection table, or what it does without one. So a run is any interleaving of such
-- stretches, of any number of tasks.
use ius.Base.{
  ℕ, ◌≡◌, refl, subst, Bool, [], none, some, ok, inl, inr, ℕ-eq, nat_eq, Bool-cases, arith,
}
use ius.Base.Words.{Bytes}
use ius.Base.Assoc
use ius.Base.Assoc.{Assoc, remove-IsMap, lookup-remove_cases, lookup-insert, lookup-insert_cases}
use ius.Metrics.{Metrics}
use ius.Mux.Connections.{ConnectionManager, empty, add_device, remove_device, start_connect}
use ius.Mux.Connections.Validity.{
  IsValid, empty-IsValid, add_device-IsValid, remove_device-IsValid, start_connect-IsValid,
}
use ius.Devices.Sending.{count_client_data, count_window_update, cleanup_device_connections}
use ius.Devices.Stretches.{idle, DeviceTask, new_task, Shared, receive, advance}
use ius.Devices.Stretches.Soundness.{
  IsLimited, prepare_syn-IsValid, remove_connection-IsValid, advance-IsSound, receive-IsLimited,
  receive-manager,
}
use ius.Devices.Connecting.{prepare_syn}
use ius.Clients.{drain_inbound, remove_connection}
use ius.Clients.Proxy.{drain_inbound-IsValid}
use ius.Devices.Validity.{
  count_client_data-IsValid, count_window_update-IsValid, cleanup_device_connections-IsValid,
}

-- The tasks stand under numbers of their own: a device that is added again gets a new task, while
-- the old one may still run.
pub record State : Type 0 where
  pub shared : Shared
  pub tasks : Assoc ℕ DeviceTask

abbrev pub with_manager : State → ConnectionManager → State
with_manager s m = record s { shared = record s.shared { manager = m } }

abbrev pub with_task : State → ℕ → Shared × DeviceTask → State
with_task s n (shared, t) = record { shared = shared; tasks = Assoc.insert n t s.tasks }

-- Task number n runs and stands at its select.
pub record Waits (s : State) (n : ℕ) (t : DeviceTask) : Type 0 where
  pub runs : Assoc.lookup n s.tasks ≡ some t
  pub waits : t.phase ≡ idle

pub data Step (max limit : ℕ) : State → State → Type 0 where
  task_started :
      (s : State) (n id : ℕ)
      → Assoc.lookup n s.tasks ≡ none
      → Step max limit s (with_task s n (s.shared, new_task id limit))
  task_ended :
      (s : State) (n : ℕ) (t : DeviceTask)
      → Waits s n t
      → Step max limit s (record s { tasks = Assoc.remove n s.tasks })
  received :
      (s : State) (n : ℕ) (t : DeviceTask) (raw_data : Bytes)
      → Waits s n t
      → Step max limit s (with_task s n (receive s.shared t raw_data))
  advanced :
      (s : State) (n : ℕ) (t : DeviceTask) (send : Bytes → Bool)
      → Assoc.lookup n s.tasks ≡ some t
      → Step max limit s (with_task s n (advance send max s.shared t t.phase))
  -- Behind a packet of client data that was sent, whatever its connection has become.
  data_counted :
      (s : State) (n : ℕ) (t : DeviceTask) (sport : ℕ) (payload : Bytes)
      → Waits s n t
      → Step max limit s
          (with_manager s (count_client_data s.shared.manager t.device_id sport payload))
  window_counted :
      (s : State) (n : ℕ) (t : DeviceTask)
      → Waits s n t
      → Step max limit s (with_manager s (count_window_update s.shared.manager t.device_id))
  cleaned_up :
      (s : State) (n : ℕ) (t : DeviceTask)
      → Waits s n t
      → Step max limit s (with_manager s (cleanup_device_connections s.shared.manager t.device_id))
  -- The counters are atomic, and other tasks move them at any time.
  counters_moved :
      (s : State) (metrics : Metrics)
      → Step max limit s (record s { shared = record s.shared { metrics = metrics } })
  -- The tasks of connect requests, of the scanner and of the proxies.
  connect_started :
      (s : State) (id dport tag : ℕ)
      → Step max limit s (with_manager s (start_connect s.shared.manager id dport tag).0)
  syn_prepared :
      (s : State) (id sport : ℕ) (m : ConnectionManager) (packet : Bytes)
      → prepare_syn s.shared.manager id sport ≡ ok (m, packet)
      → Step max limit s (with_manager s m)
  device_added :
      (s : State) (id : ℕ) → Step max limit s (with_manager s (add_device s.shared.manager id))
  device_removed :
      (s : State) (id : ℕ) → Step max limit s (with_manager s (remove_device s.shared.manager id))
  drained :
      (s : State) (id sport : ℕ)
      → Step max limit s (with_manager s (drain_inbound s.shared.manager id sport).0)
  connection_removed :
      (s : State) (id sport : ℕ)
      → Step max limit s (with_manager s (remove_connection s.shared.manager id sport))

pub data Run (max limit : ℕ) : State → State → Type 0 where
  done : (s : State) → Run max limit s s
  then_step : (s t u : State) → Run max limit s t → Step max limit t u → Run max limit s u

-- The table is valid, and the reassembler of every task within the limit.
pub record IsSound (max limit : ℕ) (s : State) : Type 0 where
  pub table : IsValid max s.shared.manager
  pub tasks : (n : ℕ) (t : DeviceTask) → Assoc.lookup n s.tasks ≡ some t → IsLimited limit t

with_manager-IsSound :
    (max limit : ℕ) (s : State) (m : ConnectionManager)
    → IsSound max limit s
    → IsValid max m
    → IsSound max limit (with_manager s m)
with_manager-IsSound max limit s m h v = record { table = v; tasks = h.tasks }

with_task-IsSound :
    (max limit : ℕ) (s : State) (n : ℕ) (r : Shared × DeviceTask)
    → IsSound max limit s
    → IsValid max r.0.manager
    → IsLimited limit r.1
    → IsSound max limit (with_task s n r)
with_task-IsSound max limit s n (shared, t) h v l = record {
  table = v;
  tasks = λ k u found. elim (Bool-cases (nat_eq n k)) [
    | inl here ↦
        let same : t ≡ u = ground (arith, here, found, lookup-insert n k t s.tasks) in
        subst (IsLimited limit) same l
    | inr apart ↦ h.tasks k u (ground (arith, apart, found, lookup-insert n k t s.tasks))
  ];
}

Step-IsSound :
    (max limit : ℕ) (s t : State) → Step max limit s t → IsSound max limit s → IsSound max limit t
Step-IsSound max limit s _ (task_started _ n id free) h =
    with_task-IsSound max limit s n (s.shared, new_task id limit) h h.table
      (record { limited = refl; buffer = omega arith })
Step-IsSound max limit s _ (task_ended _ n t w) h = record {
  table = h.table;
  tasks = λ k u found. h.tasks k u (lookup-remove_cases n k u s.tasks found).1;
}
Step-IsSound max limit s _ (received _ n t raw_data w) h =
    with_task-IsSound max limit s n (receive s.shared t raw_data) h
      (rw (receive-manager s.shared t raw_data) h.table)
      (receive-IsLimited limit s.shared t raw_data (h.tasks n t w.runs))
Step-IsSound max limit s _ (advanced _ n t send runs) h =
    let (v, l) = advance-IsSound send max limit s.shared t t.phase h.table (h.tasks n t runs) in
    with_task-IsSound max limit s n (advance send max s.shared t t.phase) h v l
Step-IsSound max limit s _ (data_counted _ n t sport payload w) h =
    with_manager-IsSound max limit s _ h
      (count_client_data-IsValid max s.shared.manager t.device_id sport payload h.table)
Step-IsSound max limit s _ (window_counted _ n t w) h =
    with_manager-IsSound max limit s _ h
      (count_window_update-IsValid max s.shared.manager t.device_id h.table)
Step-IsSound max limit s _ (cleaned_up _ n t w) h =
    with_manager-IsSound max limit s _ h
      (cleanup_device_connections-IsValid max s.shared.manager t.device_id h.table)
Step-IsSound max limit s _ (counters_moved _ metrics) h = record {
  table = h.table;
  tasks = h.tasks;
}
Step-IsSound max limit s _ (connect_started _ id dport tag) h =
    with_manager-IsSound max limit s _ h
      (start_connect-IsValid max s.shared.manager id dport tag h.table)
Step-IsSound max limit s _ (syn_prepared _ id sport m packet e) h =
    with_manager-IsSound max limit s m h
      (prepare_syn-IsValid max id sport s.shared.manager m packet e h.table)
Step-IsSound max limit s _ (device_added _ id) h =
    with_manager-IsSound max limit s _ h (add_device-IsValid max s.shared.manager id h.table)
Step-IsSound max limit s _ (device_removed _ id) h =
    with_manager-IsSound max limit s _ h (remove_device-IsValid max s.shared.manager id h.table)
Step-IsSound max limit s _ (drained _ id sport) h =
    with_manager-IsSound max limit s _ h
      (drain_inbound-IsValid max s.shared.manager id sport h.table)
Step-IsSound max limit s _ (connection_removed _ id sport) h =
    with_manager-IsSound max limit s _ h
      (remove_connection-IsValid max s.shared.manager id sport h.table)

Run-IsSound :
    (max limit : ℕ) (s t : State) → Run max limit s t → IsSound max limit s → IsSound max limit t
Run-IsSound max limit s _ (done _) h = h
Run-IsSound max limit s _ (then_step _ t u r step) h =
    Step-IsSound max limit t u step (Run-IsSound max limit s t r h)

-- No device, no task, and an empty table.
abbrev pub fresh : Metrics → State
fresh metrics = record { shared = record { manager = empty; metrics = metrics }; tasks = [] }

-- In every state that is reached from the start by the stretches of the processing tasks of any
-- number of devices, of connect requests, of the scanner and of the proxies, in any order, whatever
-- bytes the devices send: the connection table is valid and the reassembler of every task is within
-- its limit.
pub reachable-IsSound :
    (max limit : ℕ) (metrics : Metrics) (t : State)
    → Run max limit (fresh metrics) t
    → IsSound max limit t
unfolding Assoc.lookup
reachable-IsSound max limit metrics t r =
    Run-IsSound max limit (fresh metrics) t r
      (record { table = empty-IsValid max; tasks = λ n u found. absurd (ground (arith, found)) })
