-- ===== src/Clients/Serving.antt =====
-- What a round of `handle_client_inner` of meridian-relay/src/daemon/connection.rs works on, and how
-- it answers.
use ius.Base.{ℕ, ℕ-eq, Bool, Option, List, [], ◌∷◌, ◌++◌, if◌then◌else◌, Outcome, err, String}
use ius.Base.Words.{Bytes}
use ius.Base.Strings.{Text}
use ius.Metrics.{Metrics}
use ius.Mux.Types.{ConnState}
use ius.Platform.{Directory}
use ius.Scanner.{DeviceScanner}
use ius.Devices.Managed.{DeviceManager}
use ius.Devices.Dispatch.{Enqueued}
use ius.Protocol.{RawPacket}
use ius.Protocol.Plist.{Plist}
use ius.Protocol.Messages.{make_result_response}

-- What the handler does next. `returned` is the end of the handler, and the device and the source
-- port are those that it then relays for.
pub data Flow : Type 0 where
  continuing listening : Flow
  returned : Outcome String (Unit {0}) → Flow
  proxying : (device_id sport : ℕ) → Flow

module _ (P : Plist) (D : Directory) where
  abbrev pub Packet : Type 0
  Packet = RawPacket P.Dictionary

  -- What the clients share, and the packets that this one was given to read, the failed writes
  -- too.
  pub record Served : Type 0 where
    pub manager : DeviceManager
    pub metrics : Metrics
    pub lockdown_dir : D.State
    pub written : List Packet

  -- What is around the handler in this round: whether a packet can be written, the scanner at each
  -- of its two reads, the queue and the wait of a connect request, what other tasks do to the
  -- manager while the handler waits, the clock and the random source, UTF-8, the statistics as JSON.
  pub record Around : Type 0 where
    pub write : Packet → Bool
    pub scanner : DeviceScanner
    pub scanner_later : DeviceScanner
    pub enqueued : Enqueued
    pub send : Bytes → Bool
    pub rounds : List (Option ConnState)
    pub meanwhile : DeviceManager → DeviceManager
    pub nanos : ℕ
    pub random : ℕ
    pub from_utf8 : Bytes → Option Text
    pub to_json : Metrics → Text
    pub require_pair_record : Bool

  -- `write_to` with `?`, and with its outcome dropped.
  abbrev pub written_to : Served → Packet → Served
  written_to s p = record s { written = s.written ++ p ∷ [] }

  unfoldable pub answer : Around → Served → Packet → Flow → Served × Flow
  answer a s p next = (written_to s p, if a.write p then next else returned (err "write failed"))

  unfoldable pub answer_anyway : Served → Packet → Served × Flow
  answer_anyway s p = (written_to s p, continuing)

  abbrev pub result : ℕ → ℕ → Packet
  result tag number = make_result_response P tag number
