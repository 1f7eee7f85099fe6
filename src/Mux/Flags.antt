-- ===== src/Mux/Flags.antt =====
-- `TcpFlag` of meridian-relay/src/daemon/mux.rs.
use ius.Base.{ℕ, ◌≡◌, refl, List, [], ◌∷◌, ◌++◌, if◌then◌else◌}
use ius.Mux.Types.{has_flag}

pub data TcpFlag : Type 0 where
  syn syn_ack ack fin rst psh : TcpFlag

-- `if flags & mask != 0 { result.push(flag) }`
abbrev pub flag_if : (flags mask : ℕ) → TcpFlag → List TcpFlag
flag_if flags mask flag = if has_flag flags mask then flag ∷ [] else []

unfoldable pub from_u16 : (flags : ℕ) → List TcpFlag
unfolding has_flag
from_u16 flags =
    flag_if flags 0x002 syn
    ++ flag_if flags 0x010 ack
    ++ flag_if flags 0x001 fin
    ++ flag_if flags 0x004 rst
    ++ flag_if flags 0x008 psh

-- SYN and ACK together are two flags: `SynAck` never comes of a number.
syn_and_ack : from_u16 0x012 ≡ syn ∷ ack ∷ []
unfolding from_u16 has_flag
syn_and_ack = refl
