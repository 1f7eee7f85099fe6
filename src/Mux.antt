-- ===== src/Mux.antt =====
-- meridian-relay/src/daemon/mux.rs: frames, the reassembler and the table of mux connections.
pub mod Types
pub mod Frame
pub mod Reassembler
pub mod Connections
pub mod Flags
