-- ===== src/Clients/Connects.antt =====
-- The Connect command of meridian-relay/src/daemon/connection.rs.
use ius.Base.{
  ℕ, ℕ-eq, ◌+◌, ◌*◌, ◌/◌, Bool, true, false, not, ◌&&◌, none, some, nat_eq, if◌then◌else◌, ok, err,
}
use ius.Base.Words.{u16, u32, u8}
use ius.Base.Texts.{bytes}
use ius.Metrics.{fetch_add}
use ius.Platform.{Directory}
use ius.Scanner.{DeviceScanner, or_zero, get_device_by_id}
use ius.Base.Assoc
use ius.Devices.Managed.{increment_refcount, decrement_refcount}
use ius.Devices.Dispatch.{connect}
use ius.Protocol.ResultCode
use ius.Protocol.Plist.{Plist}
use ius.Protocol.Messages.{get_unsigned}
use ius.Clients.Records.{has_pair_record}
use ius.Clients.Serving.{
  Flow, continuing, returned, proxying, Served, Around, Packet, answer, written_to, result,
}

abbrev pub lockdown_port : ℕ
lockdown_port = 62078

-- `u16::from_be` on a little-endian machine.
abbrev pub from_be : ℕ → ℕ
from_be n = u8 n * 256 + u8 (n / 256)

module _ (P : Plist) (D : Directory) where
  unfoldable pub start_proxy : Around P D → Served P D → (device_id sport : ℕ) → Served P D × Flow
  start_proxy a s device_id sport =
      let manager = a.meanwhile s.manager in
      if Assoc.contains_key device_id manager.devices
      then (
        record s {
          manager = increment_refcount manager device_id;
          metrics = record s.metrics { proxies_started = fetch_add s.metrics.proxies_started 1 };
        },
        proxying device_id sport,
      )
      else (record s { manager = manager }, returned (err "device not found for proxy"))

  -- The `match` on the outcome of `device_manager.connect`.
  unfoldable pub open_connection :
      Around P D → Served P D → (tag device_id port : ℕ) → Served P D × Flow
  unfolding answer start_proxy
  open_connection a s tag device_id port =
      let c = connect a.send a.rounds a.enqueued s.manager s.metrics device_id port tag in
      let tried = record s { manager = c.manager; metrics = c.metrics } in
      let failed = record c.metrics { connect_failures = fetch_add c.metrics.connect_failures 1 } in
      elim c.reply [
        | err _ ↦
            answer P D a (record tried { metrics = failed })
              (result P D tag ResultCode.connection_refused) continuing
        | ok sport ↦
            let p = result P D tag ResultCode.ok in
            if a.write p
            then start_proxy a (written_to P D tried p) device_id sport
            else (written_to P D tried p, returned (err "write failed"))
      ]

  -- The lockdown port needs a pair record, where the configuration says so.
  unfoldable pub lacks_pair_record : Around P D → Served P D → (device_id port : ℕ) → Bool
  unfolding get_device_by_id
  lacks_pair_record a s device_id port =
      if nat_eq port lockdown_port && a.require_pair_record
      then elim (get_device_by_id a.scanner_later device_id) [
        | none ↦ false
        | some d ↦ not (has_pair_record D s.lockdown_dir d.udid)
      ]
      else false

  abbrev pub connect_device_id : P.Dictionary → ℕ
  connect_device_id d = u32 (or_zero (get_unsigned P d (bytes "DeviceID")))

  abbrev pub connect_port : P.Dictionary → ℕ
  connect_port d = from_be (u16 (or_zero (get_unsigned P d (bytes "PortNumber"))))

  abbrev pub knows : DeviceScanner → ℕ → Bool
  knows scanner device_id = elim (get_device_by_id scanner device_id) [
    | none ↦ false
    | some _ ↦ true
  ]

  unfoldable pub handle_connect : Around P D → Served P D → Packet P D → Served P D × Flow
  unfolding answer open_connection lacks_pair_record
  handle_connect a s packet =
      let device_id = connect_device_id packet.plist in
      let port = connect_port packet.plist in
      let s' = record s {
        metrics = record s.metrics { connects_total = fetch_add s.metrics.connects_total 1 };
      } in
      if nat_eq device_id 0
      then answer P D a s' (result P D packet.tag ResultCode.bad_device) continuing
      else if nat_eq port 0
      then answer P D a s' (result P D packet.tag ResultCode.bad_command) continuing
      else if not (knows a.scanner device_id)
      then answer P D a s' (result P D packet.tag ResultCode.bad_device) continuing
      else if lacks_pair_record a s' device_id port
      then answer P D a s' (result P D packet.tag ResultCode.pair_record_required) continuing
      else open_connection a s' packet.tag device_id port

  -- Behind the proxy, whatever its result.
  unfoldable pub end_proxy : Served P D → (device_id : ℕ) → Served P D × Flow
  end_proxy s device_id = (
    record s {
      manager = decrement_refcount s.manager device_id;
      metrics = record s.metrics { proxies_ended = fetch_add s.metrics.proxies_ended 1 };
    },
    returned (ok tt),
  )
