-- ===== src/Config/Bounds.antt =====
-- What a validated configuration guarantees.
use ius.Base.{◌≡◌, ◌≤◌, ◌<◌, ◌↔◌, ok, arith}
use ius.Config.Types.{DaemonConfig}
use ius.Config.Load.{validate}

-- Positive limits, intervals and timeouts, packets of 1024 bytes at least, a mode of nine bits.
abbrev pub IsPositive : {Addr : Type 0} → DaemonConfig Addr → Type 0
IsPositive c =
    (0 < c.max_clients)
    × (0 < c.read_workers)
    × (0 < c.scan_interval)
    × (0 < c.usb_timeout)
    × (0 < c.connect_timeout)
    × (1024 ≤ c.max_packet_bytes)
    × (0 < c.max_conn_buffer)
    × (c.socket_mode < 512)

-- Validation succeeds exactly for such settings.
pub validate_iff : {Addr : Type 0} (c : DaemonConfig Addr) → (validate c ≡ ok tt) ↔ IsPositive c
unfolding validate
validate_iff c = ground arith
