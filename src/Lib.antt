-- ===== src/Lib.antt =====
-- Verification of meridian-relay, the Rust daemon of this repository that multiplexes TCP
-- connections over the USB connection to a phone and serves them to local clients.
--
-- Parts and files. Base.antt and its children: names passed on from the library, lists over
-- native numbers, association lists for HashMap (Assoc), machine integers (Words), fallible
-- results (Results). Metrics.antt: meridian-relay/src/metrics.rs, counters as 64-bit patterns.
-- Mux.antt: meridian-relay/src/daemon/mux.rs. Mux/Types has its data types, Mux/Frame the
-- builders and parsers of frames (parse_packet, build_tcp_packet and the rest under their
-- names), Mux/Reassembler the PacketReassembler (feed), Mux/Connections the ConnectionManager
-- (add_device, remove_device, get_data_notify, start_connect, handle_tcp_packet). Scanner.antt:
-- meridian-relay/src/daemon/device_scanner.rs, where scan takes the outcome of the USB
-- enumeration as an argument, and Scanner/Enumerate has that enumeration over what libusb says
-- of each peripheral. Security.antt: meridian-relay/src/security.rs, the checks of device
-- identifiers (Security/Udid), the allow list and the lookup of a group (Security/Groups).
-- Transport.antt: Endpoint of meridian-relay/src/daemon/transport.rs, over socket addresses of
-- the standard library as a parameter. Config.antt: meridian-relay/src/config.rs, with its types
-- and defaults (Config/Types), octal modes (Config/Octal), merge_file and merge_args
-- (Config/Merge), from_sources and validate (Config/Load); the proofs are Config/Layers,
-- Config/Local and Config/Bounds. Devices.antt: meridian-relay/src/daemon/device_manager.rs,
-- with what it sends (Devices/Sending), what it receives (Devices/Receiving), connect requests
-- (Devices/Connecting) and the managed devices (Devices/Managed). Devices/Stretches cuts the
-- processing task where another task can come in: at its select, between two packets, and around
-- each lock that it takes for a packet. Devices/Tasks makes these stretches, and those of the
-- tasks beside it, the steps of a relation over all tasks, so that a run is any interleaving of
-- them. Protocol.antt: the packets of meridian-relay/src/daemon/protocol.rs, over a property
-- list codec as a parameter. Protocol/Plist has what is taken from the property list library,
-- Protocol/Messages the messages that the file builds. Platform.antt: the lockdown directory as
-- a record of file operations with their laws, and secure_write_secret of
-- meridian-relay/src/platform/unix.rs. Clients.antt: meridian-relay/src/daemon/connection.rs,
-- with the allow lists, the proxy (Clients/Relay, and Clients/Proxy for what it drains), the
-- pair records (Clients/Records), the commands of handle_client_inner (Clients/Serving has the
-- state and the replies, Clients/Connects the Connect arm, Clients/Commands the others) and its
-- loop (Clients/Session). Daemon.antt: meridian-relay/src/daemon/mod.rs and relay.rs, with the
-- accept loops (Daemon/Admission) and the scan task (Daemon/Scanning). Program.antt:
-- meridian-relay/src/main.rs, the flags and what the daemon command starts (Program/Entry).
-- Device.antt: meridian-relay/src/device, tunnel.rs and daemon/usb.rs, with lockdown
-- (Device/Lockdown, Device/Values), listing and watching (Device/Listing), enriching
-- (Device/Enrich, Device/Models), the tunnel (Device/Tunnel) and the USB interface (Device/Usb).
-- Tests.antt: runs of the definitions, and an instance of each theorem.
--
-- How the parts interact. The scanner tells which devices to manage; the processing task of a
-- device feeds the bytes from USB to the reassembler and each packet to the connection table,
-- and answers what the table queues; clients open connections through connect requests, send
-- through the task, and drain the table. The scan task gives the scanner's changes to the device
-- manager and to the listeners; the client handlers ask the scanner and the manager; the
-- commands of the client side send packets that these handlers read, and read what they answer.
--
-- How state and operations correspond. A struct is a record with the source's fields; an
-- operation takes the state and returns it changed, with the channel messages, queued packets
-- and metrics that it produced as further results. A lock held throughout an operation makes it
-- one step. A HashMap is an association list whose order stands for the iteration order, which
-- the source leaves open; Base.Assoc shows that its operations keep every key single. A Notify
-- is the list of its calls. An integer of the source is a natural number with its wrap-around
-- written out.
--
-- Fuel. The loop of feed runs on one round more than there are bytes in the buffer; each round
-- drops a byte at least, so the fuel is never used up, which the equations of
-- Mux/Reassembler/Drain show. The loop of handle_client_inner runs on more rounds than the
-- client sends bytes; each round takes sixteen bytes at least, so this is enough too. All other
-- loops are structural: those that read a channel run over what its reads bring, and that of the
-- proxy over a list of turns, with the outcomes of one round each. The wait of a connect request
-- runs over the list of the states that its rounds read before the timeout.
--
-- Not modelled: USB, socket and file input/output, task scheduling, operating system calls,
-- external programs, and the clients in other languages. Of daemon/connection.rs the broadcast
-- loop of Listen is left out, of device_manager.rs and daemon/mod.rs the spawning of tasks, of
-- main.rs the logging and the printing, of driver.rs, setup.rs and service.rs everything. The
-- windows build is not modelled.
pub mod Base
pub mod Metrics
pub mod Mux
pub mod Platform
pub mod Security
pub mod Program
pub mod Daemon
pub mod Device
pub mod Transport
pub mod Config
pub mod Devices
pub mod Clients
pub mod Scanner
pub mod Protocol
mod Tests
