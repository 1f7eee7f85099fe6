-- ===== src/Mux/Frame/Window.antt =====
-- The window that is advertised for the free space of a buffer.
use ius.Base.{ℕ, ◌+◌, ◌*◌, ◌≤◌, ◌<◌, ◌≡◌, ◌⊎◌, arith}
use ius.Mux.Frame.{scaled_window}

-- The advertised window, in units of 256 bytes, never promises more than is free, fits 16 bits,
-- and falls short by less than one unit unless it is the largest value.
pub scaled_window_bounds :
    (free : ℕ)
    → (scaled_window free * 256 ≤ free)
      × (scaled_window free ≤ 65535)
      × ((scaled_window free ≡ 65535) ⊎ (free < scaled_window free * 256 + 256))
unfolding scaled_window
scaled_window_bounds free = (omega arith, omega arith, ground arith)
