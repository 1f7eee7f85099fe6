-- ===== src/Mux/Reassembler.antt =====
-- `PacketReassembler` of meridian-relay/src/daemon/mux.rs. `drain` is the loop of `feed`; each
-- round drops a byte at least, so one round more than there are bytes is enough fuel.
pub mod Drain
pub mod Stream
use ius.Base.{ℕ, zero, suc, ◌||◌, List, [], ◌∷◌, ◌++◌, ltb, if◌then◌else◌, length, take, drop}
use ius.Base.Words.{Bytes}
use ius.Mux.Types.{header_size}
use ius.Mux.Frame.{be32_at}

pub record PacketReassembler : Type 0 where
  pub max_buffer : ℕ
  pub buffers : Bytes

unfoldable pub new : ℕ → PacketReassembler
new max_buffer = record { max_buffer = max_buffer; buffers = [] }

-- The packets taken off the front, and what is left in the buffer.
unfoldable pub drain : ℕ → ℕ → Bytes → List Bytes × Bytes
drain zero max_buffer buf = ([], buf)
drain (suc fuel) max_buffer buf =
    let len = be32_at buf 4 in
    let resync = drain fuel max_buffer (drop 1 buf) in
    let rest = drain fuel max_buffer (drop len buf) in
    let emit : List Bytes × Bytes = (take len buf ∷ rest.0, rest.1) in
    if ltb (length buf) header_size
    then ([], buf)
    else if ltb len header_size || ltb max_buffer len
    then resync
    else if ltb (length buf) len
    then ([], buf)
    else emit

unfoldable pub feed : PacketReassembler → Bytes → PacketReassembler × List Bytes
unfolding drain
feed r xs =
    let buf = r.buffers ++ xs in
    let (packets, left) = drain (suc (length buf)) r.max_buffer buf in
    (record r { buffers = if ltb r.max_buffer (length left) then [] else left }, packets)

unfoldable pub clear : PacketReassembler → PacketReassembler
clear r = record r { buffers = [] }
