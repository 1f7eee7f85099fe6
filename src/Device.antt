-- ===== src/Device.antt =====
-- The client side of meridian-relay: the commands of meridian-relay/src/device and the tunnel.
pub mod Lockdown
pub mod Framing
pub mod Values
pub mod Requests
pub mod Listing
pub mod Answers
pub mod Enrich
pub mod Usb
pub mod Tunnel
pub mod Models
