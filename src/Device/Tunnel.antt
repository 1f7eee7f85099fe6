-- ===== src/Device/Tunnel.antt =====
-- meridian-relay/src/tunnel.rs: the port pairs of the command line, and one tunnel connection.
-- Listening and splicing are input and output.
use ius.Base.{
  ℕ, ◌≡◌, ◌≢◌, subst, Bool, true, false, ◌||◌, Option, none, some, List, [], ◌∷◌, ◌++◌, nat_eq, inl,
  inr, Outcome-cases, Option-cases, Bool-cases, if◌then◌else◌, Outcome, ok, err, String, arith,
}
use ius.Base.Strings.{Text}
use ius.Base.Texts.{bytes}
use ius.Metrics.{Metrics, fetch_add}
use ius.Protocol
use ius.Protocol.{RawPacket}
use ius.Protocol.Plist.{Plist}
use ius.Protocol.Messages.{entries, get_unsigned}
use ius.Device.Values.{to_be, or_one}
use ius.Device.Listing.{resolve_first_device}

-- `split_once(':')`
unfoldable pub split_once : Text → Option (Text × Text)
split_once [] = none
split_once (c ∷ s) =
    let later = split_once s in
    if nat_eq c 58 then some ([], s) else elim later [ none ↦ none | some (l, d) ↦ some (c ∷ l, d) ]

-- `parse_u16` is the parser of the standard library.
unfoldable pub parse_pair : (parse_u16 : Text → Option ℕ) → Text → Outcome String (ℕ × ℕ)
unfolding split_once
parse_pair parse_u16 s = elim (split_once s) [
  | none ↦ err "invalid pair"
  | some (l, d) ↦ elim (parse_u16 l) [
    | none ↦ err "invalid local port"
    | some lp ↦ elim (parse_u16 d) [
      | none ↦ err "invalid device port"
      | some dp ↦ if nat_eq lp 0 || nat_eq dp 0 then err "ports must be non-zero" else ok (lp, dp)
    ]
  ]
]

-- `collect` ends at the first error.
unfoldable pub parse_pairs :
    (parse_u16 : Text → Option ℕ) → List Text → Outcome String (List (ℕ × ℕ))
unfolding parse_pair
parse_pairs parse_u16 [] = ok []
parse_pairs parse_u16 (s ∷ pairs) = elim (parse_pair parse_u16 s) [
  | err e ↦ err e
  | ok pair ↦ elim (parse_pairs parse_u16 pairs) [ err e ↦ err e | ok rest ↦ ok (pair ∷ rest) ]
]

module _ (P : Plist) where
  unfoldable pub tunnel_request : (device_id dport : ℕ) → RawPacket P.Dictionary
  tunnel_request device_id dport =
      Protocol.new
        (entries P
          ((bytes "MessageType", P.of_string (bytes "Connect"))
            ∷ (bytes "DeviceID", P.of_integer device_id)
            ∷ (bytes "ClientVersion", P.of_integer 7)
            ∷ (bytes "ProgName", P.of_string (bytes "meridian-relay"))
            ∷ (bytes "kLibUSBMuxVersion", P.of_integer 3)
            ∷ (bytes "PortNumber", P.of_integer (to_be dport))
            ∷ [])
          P.new)
        Protocol.xml_plist_version Protocol.plist_message_type 1

  -- The device: the one that was named, or the first of the daemon's answer, if there is one.
  unfoldable pub tunnel_device :
      (device_id : Option ℕ) (listed : Option P.Dictionary) → Outcome String ℕ
  unfolding resolve_first_device
  tunnel_device (some id) listed = ok id
  tunnel_device none none = err "no answer"
  tunnel_device none (some d) = resolve_first_device P d

  -- `answer` is the endpoint's reply to the Connect packet, and `copied` the byte counts of
  -- `copy_bidirectional`.
  unfoldable pub handle_one :
      (connected : Bool)
      → (device_id : Option ℕ) → (listed : Option P.Dictionary)
      → (answer : RawPacket P.Dictionary → Option P.Dictionary) → (dport : ℕ)
      → (copied : Option (ℕ × ℕ)) → Metrics
      → Metrics × Outcome String (Unit {0})
  unfolding tunnel_device tunnel_request
  handle_one connected device_id listed answer dport copied m =
      let accepted = record m { clients_accepted = fetch_add m.clients_accepted 1 } in
      let opened = record accepted { connects_total = fetch_add m.connects_total 1 } in
      if connected
      then elim (tunnel_device device_id listed) [
        | err e ↦ (accepted, err e)
        | ok id ↦ elim (answer (tunnel_request id dport)) [
          | none ↦ (accepted, err "no answer")
          | some d ↦
              if nat_eq (or_one P (get_unsigned P d (bytes "Number"))) 0
              then elim copied [
                | none ↦ (opened, err "splice failed")
                | some (c2d, d2c) ↦ (
                  record opened {
                    client_rx_bytes = fetch_add m.client_rx_bytes c2d;
                    client_tx_bytes = fetch_add m.client_tx_bytes d2c;
                  },
                  ok tt,
                )
              ]
              else (accepted, err "device rejected Connect")
        ]
      ]
      else (accepted, err "endpoint unreachable")

-- A text with a colon, cut at the first one.
abbrev pub IsPair : (parse_u16 : Text → Option ℕ) → Text → ℕ × ℕ → Type 0
IsPair parse_u16 s (lp, dp) =
    (l : Text) × (d : Text) × (s ≡ l ++ 58 ∷ d)
    × (parse_u16 l ≡ some lp)
    × (parse_u16 d ≡ some dp)
    × (lp ≢ 0)
    × (dp ≢ 0)

-- The texts and the pairs, one for one.
abbrev pub ArePairs : (parse_u16 : Text → Option ℕ) → List Text → List (ℕ × ℕ) → Type 0
ArePairs parse_u16 [] [] = Unit
ArePairs parse_u16 (s ∷ texts) (p ∷ pairs) = IsPair parse_u16 s p × ArePairs parse_u16 texts pairs
ArePairs parse_u16 [] (p ∷ pairs) = true ≡ false
ArePairs parse_u16 (s ∷ texts) [] = true ≡ false

split_once-append : (s l d : Text) → split_once s ≡ some (l, d) → s ≡ l ++ 58 ∷ d
unfolding split_once
split_once-append [] l d h = absurd (ground (arith, h))
split_once-append (c ∷ s) l d h = elim (Bool-cases (nat_eq c 58)) [
  | inl colon ↦ ground (arith, h, colon)
  | inr other ↦ elim (Option-cases (split_once s)) [
    | inl missing ↦ absurd (ground (arith, h, other, missing))
    | inr ((l', d'), found) ↦ ground (arith, h, other, found, split_once-append s l' d' found)
  ]
]

parse_pair-IsPair :
    (parse_u16 : Text → Option ℕ) (s : Text) (p : ℕ × ℕ)
    → parse_pair parse_u16 s ≡ ok p
    → IsPair parse_u16 s p
unfolding parse_pair
parse_pair-IsPair parse_u16 s p h = elim (Option-cases (split_once s)) [
  | inl missing ↦ absurd (ground (arith, h, missing))
  | inr ((l, d), found) ↦ elim (Option-cases (parse_u16 l)) [
    | inl missing ↦ absurd (ground (arith, h, found, missing))
    | inr (lp, local) ↦ elim (Option-cases (parse_u16 d)) [
      | inl missing ↦ absurd (ground (arith, h, found, local, missing))
      | inr (dp, remote) ↦ (
        l,
        d,
        split_once-append s l d found,
        ground (arith, h, found, local, remote),
        ground (arith, h, found, local, remote),
        ground (arith, h, found, local, remote),
        ground (arith, h, found, local, remote),
      )
    ]
  ]
]

-- Pairs that parse are what the texts say, one pair for a text, and none of their ports is 0.
pub parse_pairs-ArePairs :
    (parse_u16 : Text → Option ℕ) (texts : List Text) (pairs : List (ℕ × ℕ))
    → parse_pairs parse_u16 texts ≡ ok pairs
    → ArePairs parse_u16 texts pairs
unfolding parse_pairs
parse_pairs-ArePairs parse_u16 [] [] h = tt
parse_pairs-ArePairs parse_u16 [] (p ∷ pairs) h = absurd (ground (arith, h))
parse_pairs-ArePairs parse_u16 (s ∷ texts) pairs h = elim (Outcome-cases (parse_pair parse_u16 s)) [
  | inr (e, failed) ↦ absurd (ground (arith, h, failed))
  | inl (p, parsed) ↦ elim (Outcome-cases (parse_pairs parse_u16 texts)) [
    | inr (e, failed) ↦ absurd (ground (arith, h, parsed, failed))
    | inl (rest, more) ↦
        let same : p ∷ rest ≡ pairs = ground (arith, h, parsed, more) in
        subst (ArePairs parse_u16 (s ∷ texts)) same
          (parse_pair-IsPair parse_u16 s p parsed, parse_pairs-ArePairs parse_u16 texts rest more)
  ]
]
