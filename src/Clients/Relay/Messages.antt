-- ===== src/Clients/Relay/Messages.antt =====
-- The messages of `proxy_loop` of meridian-relay/src/daemon/connection.rs, port by port.
use ius.Base.{ℕ, ◌+◌, ◌≡◌, refl, List, [], ◌∷◌, ◌++◌, nat_eq, length, if◌then◌else◌, arith}
use ius.Base.Words.{Bytes}
use ius.Clients.Relay.{MuxOutMsg, data_message, window_update}

-- What the messages carry from a port, and how many are window updates for it.
unfoldable pub payloads : (sport : ℕ) → List MuxOutMsg → List Bytes
payloads sport [] = []
payloads sport (data_message p data' ∷ more) =
    let rest = payloads sport more in if nat_eq p sport then data' ∷ rest else rest
payloads sport (window_update p ∷ more) = payloads sport more

unfoldable pub updates : (sport : ℕ) → List MuxOutMsg → ℕ
updates sport [] = 0
updates sport (data_message p data' ∷ more) = updates sport more
updates sport (window_update p ∷ more) =
    let rest = updates sport more in if nat_eq p sport then 1 + rest else rest

unfoldable pub total : List Bytes → ℕ
total [] = 0
total (chunk ∷ more) = length chunk + total more

pub payloads-append :
    (sport : ℕ) (ms ns : List MuxOutMsg)
    → payloads sport (ms ++ ns) ≡ payloads sport ms ++ payloads sport ns
unfolding payloads
payloads-append sport [] ns = refl
payloads-append sport (data_message p data' ∷ ms) ns = ground (arith, payloads-append sport ms ns)
payloads-append sport (window_update p ∷ ms) ns = payloads-append sport ms ns

pub updates-append :
    (sport : ℕ) (ms ns : List MuxOutMsg)
    → updates sport (ms ++ ns) ≡ updates sport ms + updates sport ns
unfolding updates
updates-append sport [] ns = omega arith
updates-append sport (data_message p data' ∷ ms) ns = updates-append sport ms ns
updates-append sport (window_update p ∷ ms) ns = ground (arith, updates-append sport ms ns)

pub total-append : (xs ys : List Bytes) → total (xs ++ ys) ≡ total xs + total ys
unfolding total
total-append [] ys = omega arith
total-append (x ∷ xs) ys = omega (arith, total-append xs ys)

pub payload_own :
    (sport : ℕ) (data' : Bytes) → payloads sport (data_message sport data' ∷ []) ≡ data' ∷ []
unfolding payloads
payload_own sport data' = ground arith
