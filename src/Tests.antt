-- ===== src/Tests.antt =====
-- Runs of the definitions on concrete inputs, and the theorems applied to such inputs.
mod Frame
mod Reassembler
mod Connections
mod Scanner
mod Config
mod Devices
mod Tasks
mod Protocol
mod Library
mod Daemon
mod Device
mod Clients
mod Program
mod Relay
