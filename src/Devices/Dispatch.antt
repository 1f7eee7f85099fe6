-- ===== src/Devices/Dispatch.antt =====
-- `connect` of meridian-relay/src/daemon/device_manager.rs: a request goes through the queue of the
-- device's processing task, and its reply comes back.
use ius.Base.{ℕ, Bool, Option, none, some, List, ℕ-eq, Outcome, ok, err}
use ius.Base.Words.{Bytes}
use ius.Base.Assoc
use ius.Metrics.{Metrics}
use ius.Mux.Types.{ConnState}
use ius.Devices.Managed.{DeviceManager}
use ius.Devices.Connecting.{ConnectError, ConnectRequest, handle_connect_request}

-- What becomes of the request in the queue; `dropped` is a task that ends before it replies.
pub data Enqueued : Type 0 where
  taken full closed dropped : Enqueued

pub data DispatchError : Type 0 where
  not_managed busy stopped recv_failed : DispatchError
  request_failed : ConnectError → DispatchError

-- The manager and the counters behind the reply.
pub record Dispatched : Type 0 where
  pub manager : DeviceManager
  pub metrics : Metrics
  pub reply : Outcome DispatchError ℕ

abbrev pub refuse : DeviceManager → Metrics → DispatchError → Dispatched
refuse m metrics e = record { manager = m; metrics = metrics; reply = err e }

abbrev pub reply_of : Outcome ConnectError ℕ → Outcome DispatchError ℕ
reply_of (ok sport) = ok sport
reply_of (err e) = err (request_failed e)

-- `send` and `rounds` are those of the task's `handle_connect_request`.
unfoldable pub connect :
    (send : Bytes → Bool)
    → List (Option ConnState)
    → Enqueued
    → DeviceManager
    → Metrics
    → (device_id dport tag : ℕ) → Dispatched
connect send rounds enqueued m metrics device_id dport tag =
    elim (Assoc.lookup device_id m.devices) [
      | none ↦ refuse m metrics not_managed
      | some _ ↦ elim enqueued [
        | full ↦ refuse m metrics busy
        | closed ↦ refuse m metrics stopped
        | dropped ↦ refuse m metrics recv_failed
        | taken ↦
            let req : ConnectRequest = record { device_id = device_id; dport = dport; tag = tag } in
            let (done, reply) = handle_connect_request send m.conn_mgr req metrics rounds in
            record {
              manager = record m { conn_mgr = done.manager };
              metrics = done.metrics;
              reply = reply_of reply;
            }
      ]
    ]
