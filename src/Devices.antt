-- ===== src/Devices.antt =====
-- meridian-relay/src/daemon/device_manager.rs: the managed devices, and what the processing task of
-- a device does with packets, client data and connect requests. `send` is the outcome of
-- `usb.send` on a packet. Channels, USB handles and log lines are not modelled.
pub mod Types
pub mod Sending
pub mod Stream
pub mod Receiving
pub mod Connecting
pub mod Requests
pub mod Managed
pub mod Dispatch
pub mod Validity
pub mod Stretches
pub mod Tasks
pub mod Ending
