-- ===== src/Daemon.antt =====
-- How meridian-relay/src/daemon/mod.rs and relay.rs put the parts together: the accept loops with
-- their limit on clients, and the scan task. Sockets, logging and shutdown are not modelled.
pub mod Admission
pub mod Limit
pub mod Scanning
pub mod Reconciling
pub mod Management
