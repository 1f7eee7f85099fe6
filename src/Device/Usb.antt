-- ===== src/Device/Usb.antt =====
-- The choice of the mux interface, the read worker and the control messages of
-- meridian-relay/src/daemon/usb.rs. USB descriptors and reads are arguments.
use ius.Base.{
  ℕ, ◌≡◌, refl, Bool, true, false, ◌&&◌, ◌||◌, Option, none, some, List, [], ◌∷◌, ◌++◌, nat_eq, leb,
  length, get_or, is_empty, if◌then◌else◌, arith,
}
use ius.Base.Words.{Bytes, from_be16, from_be32}
use ius.Base.Texts.{bytes}
use ius.Base.Strings.{Text}
use ius.Metrics.{Metrics, fetch_add}

pub data Direction : Type 0 where
  inward outward : Direction

pub record UsbEndpoint : Type 0 where
  pub is_bulk : Bool
  pub direction : Direction
  pub address : ℕ

-- One descriptor of an interface; the interfaces of the configuration in their order.
pub record InterfaceDescriptor : Type 0 where
  pub number : ℕ
  pub class_code : ℕ
  pub sub_class_code : ℕ
  pub protocol_code : ℕ
  pub endpoints : List UsbEndpoint

abbrev pub is_mux : InterfaceDescriptor → Bool
is_mux i = nat_eq i.class_code 255 && nat_eq i.sub_class_code 254 && nat_eq i.protocol_code 2

abbrev pub note_endpoint : ℕ × ℕ → UsbEndpoint → ℕ × ℕ
note_endpoint (read_ep, write_ep) ep =
    if ep.is_bulk
    then elim ep.direction [ inward ↦ (ep.address, write_ep) | outward ↦ (read_ep, ep.address) ]
    else (read_ep, write_ep)

-- The last bulk endpoint of each direction; 0 for none.
unfoldable pub bulk_pair : ℕ × ℕ → List UsbEndpoint → ℕ × ℕ
bulk_pair eps [] = eps
bulk_pair eps (ep ∷ more) = bulk_pair (note_endpoint eps ep) more

abbrev pub is_complete : ℕ × ℕ → Bool
is_complete (read_ep, write_ep) = if nat_eq read_ep 0 || nat_eq write_ep 0 then false else true

abbrev pub candidate : InterfaceDescriptor → ℕ × ℕ × ℕ
candidate i = (i.number, (bulk_pair (0, 0) i.endpoints).0, (bulk_pair (0, 0) i.endpoints).1)

abbrev pub or_first : Option (ℕ × ℕ × ℕ) → ℕ × ℕ × ℕ → Option (ℕ × ℕ × ℕ)
or_first none c = some c
or_first (some f) c = some f

-- The scan with the fallback that it has met.
unfoldable pub find_from : Option (ℕ × ℕ × ℕ) → List InterfaceDescriptor → Option (ℕ × ℕ × ℕ)
unfolding bulk_pair
find_from fallback [] = fallback
find_from fallback (i ∷ more) =
    let skipped = find_from fallback more in
    let noted = find_from (or_first fallback (candidate i)) more in
    if is_complete (bulk_pair (0, 0) i.endpoints)
    then if is_mux i then some (candidate i) else noted
    else skipped

unfoldable pub find_mux_interface : List InterfaceDescriptor → Option (ℕ × ℕ × ℕ)
unfolding find_from
find_mux_interface descriptors = find_from none descriptors

-- What a bulk read comes to.
pub data Poll : Type 0 where
  filled : Bytes → Poll
  timed_out broken : Poll

-- The chunks that go to the processing task, and the counters, until a read fails or the task is
-- gone; `open` says of the chunk number n whether the channel takes it.
unfoldable pub read_worker : (takes : Bytes → Bool) → Metrics → List Poll → List Bytes × Metrics
read_worker takes m [] = ([], m)
read_worker takes m (timed_out ∷ polls) = read_worker takes m polls
read_worker takes m (broken ∷ polls) = ([], m)
read_worker takes m (filled data' ∷ polls) =
    let m' = record m { usb_rx_bytes = fetch_add m.usb_rx_bytes (length data') } in
    let (later, last) = read_worker takes m' polls in
    let skipped = read_worker takes m polls in
    if is_empty data' then skipped else if takes data' then (data' ∷ later, last) else ([], m')

-- `MuxEvent`, as far as control messages make it.
pub data MuxEvent : Type 0 where
  device_added : (device_id product_id : ℕ) (connection_type usb_speed : Text) → MuxEvent
  device_removed : (device_id : ℕ) → MuxEvent

abbrev pub payload_id : Bytes → ℕ
payload_id p = from_be32 (get_or p 0 0) (get_or p 1 0) (get_or p 2 0) (get_or p 3 0)

unfoldable pub parse_control_message : (message : ℕ) → Bytes → Option MuxEvent
parse_control_message message payload =
    let product_id =
      if leb 6 (length payload) then from_be16 (get_or payload 4 0) (get_or payload 5 0) else 0 in
    if nat_eq message 2
    then if leb 4 (length payload)
      then some (device_added (payload_id payload) product_id (bytes "USB") (bytes "Unknown"))
      else none
    else if nat_eq message 3
    then if leb 4 (length payload) then some (device_removed (payload_id payload)) else none
    else none

-- An interface of the mux class that has both endpoints.
abbrev pub IsMuxInterface : InterfaceDescriptor → Type 0
IsMuxInterface i = (is_mux i ≡ true) × (is_complete (bulk_pair (0, 0) i.endpoints) ≡ true)

abbrev pub Passed : List InterfaceDescriptor → Type 0
Passed [] = Unit
Passed (i ∷ more) = (is_mux i && is_complete (bulk_pair (0, 0) i.endpoints) ≡ false) × Passed more

find_from_mux :
    (fallback : Option (ℕ × ℕ × ℕ)) (before after : List InterfaceDescriptor)
    (i : InterfaceDescriptor)
    → Passed before
    → IsMuxInterface i
    → find_from fallback (before ++ i ∷ after) ≡ some (candidate i)
unfolding find_from
find_from_mux fallback [] after i passed (mux, complete) = rw (mux, complete, find_from) refl
find_from_mux fallback (j ∷ before) after i (not_it, passed) is_it = ground (
  arith,
  not_it,
  find_from_mux fallback before after i passed is_it,
  find_from_mux (or_first fallback (candidate j)) before after i passed is_it,
)

-- The interface that is opened is the first of the mux class that has both bulk endpoints, with
-- these endpoints, whatever else the device has before and behind it.
pub find_mux_interface_first :
    (before after : List InterfaceDescriptor) (i : InterfaceDescriptor)
    → Passed before
    → IsMuxInterface i
    → find_mux_interface (before ++ i ∷ after) ≡ some (candidate i)
unfolding find_mux_interface
find_mux_interface_first before after i passed is_it =
    find_from_mux none before after i passed is_it
