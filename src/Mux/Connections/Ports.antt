-- ===== src/Mux/Connections/Ports.antt =====
-- The search for a local port, and for the connection of a packet.
use ius.Base.{
  ℕ, zero, suc, ◌+◌, ◌≤◌, ◌<◌, ◌≡◌, ◌∙◌, ◌≢◌, inl, inr, Bool, true, false, none, some, [], ◌∷◌,
  ℕ-eq, nat_eq_iff, nat_eq, Bool-cases, Option-cases, arith,
}
use ius.Base.Assoc
use ius.Base.Assoc.{Assoc, IsMap}
use ius.Mux.Types.{TcpHeader}
use ius.Mux.Connections.{
  Connection, first_free, find_key, conn_key, matches_exactly, matches_loosely,
}

-- The port found is free, in the range, and every port of the range below it is taken.
pub record IsFirstFree (n p : ℕ) (m : Assoc ℕ Connection) (r : ℕ) : Type 0 where
  pub above : p ≤ r
  pub below : r < p + n
  pub unused : Assoc.lookup r m ≡ none
  pub minimal : (q : ℕ) → p ≤ q → q < r → Assoc.lookup q m ≢ none

contains_none :
    (p : ℕ) (m : Assoc ℕ Connection) → Assoc.contains_key p m ≡ false → Assoc.lookup p m ≡ none
unfolding Assoc.contains_key
contains_none p m h = ground arith

contains_some :
    (p : ℕ) (m : Assoc ℕ Connection) → Assoc.contains_key p m ≡ true → Assoc.lookup p m ≢ none
unfolding Assoc.contains_key
contains_some p m h = ground arith

pub first_free-IsFirstFree :
    (n p : ℕ) (m : Assoc ℕ Connection) {r : ℕ} → first_free n p m ≡ some r → IsFirstFree n p m r
unfolding first_free
first_free-IsFirstFree zero p m h = cc
first_free-IsFirstFree (suc n) p m {r} h = elim (Bool-cases (Assoc.contains_key p m)) [
  | inl taken ↦ later (first_free-IsFirstFree n (p + 1) m (rw taken at h)) (contains_some p m taken)
  | inr free ↦ here (rw free at h) (contains_none p m free)
]
  where
    later : IsFirstFree n (p + 1) m r → Assoc.lookup p m ≢ none → IsFirstFree (suc n) p m r
    later f ne = record {
      above = omega (arith, f.above);
      below = omega (arith, f.below);
      unused = f.unused;
      minimal = λ q lo hi. elim (Bool-cases (nat_eq q p)) [
        | inl e ↦ rw ((nat_eq_iff q p).0 e) ne
        | inr d ↦ f.minimal q (ground arith) hi
      ];
    }

    here : some p ≡ some r → Assoc.lookup p m ≡ none → IsFirstFree (suc n) p m r
    here e u =
        let same : p ≡ r = cc in
        record {
          above = omega (arith, same);
          below = omega (arith, same);
          unused = rw same at u;
          minimal = λ q lo hi. absurd (omega (arith, same));
        }

-- No port is found only when every port of the range is taken.
pub first_free-none :
    (n p : ℕ) (m : Assoc ℕ Connection)
    → first_free n p m ≡ none
    → (q : ℕ) → p ≤ q
    → q < p + n
    → Assoc.lookup q m ≢ none
unfolding first_free
first_free-none zero p m h q lo hi = absurd (omega arith)
first_free-none (suc n) p m h q lo hi = elim (Bool-cases (Assoc.contains_key p m)) [
  | inl taken ↦ elim (Bool-cases (nat_eq q p)) [
    | inl e ↦ rw ((nat_eq_iff q p).0 e) (contains_some p m taken)
    | inr d ↦ first_free-none n (p + 1) m (rw taken at h) q (ground arith) (omega arith)
  ]
  | inr free ↦ ground arith
]

pub find_key-some :
    (test : Connection → Bool) (m : Assoc ℕ Connection) (k : ℕ)
    → IsMap m
    → find_key test m ≡ some k
    → (c : Connection) × (Assoc.lookup k m ≡ some c) × (test c ≡ true)
unfolding find_key Assoc.lookup
find_key-some test [] k h e = cc
find_key-some test ((j, c) ∷ m) k (fresh, h) e = elim (Bool-cases (test c)) [
  | inl t ↦ (c, ground arith, t)
  | inr f ↦ further (find_key-some test m k h (rw f at e))
]
  where
    further :
        (c' : Connection) × (Assoc.lookup k m ≡ some c') × (test c' ≡ true)
        → (c' : Connection) × (Assoc.lookup k ((j, c) ∷ m) ≡ some c') × (test c' ≡ true)
    further (c', l, t) = (c', ground arith, t)

pub find_key-none :
    (test : Connection → Bool) (m : Assoc ℕ Connection) (k : ℕ) (c : Connection)
    → find_key test m ≡ none
    → Assoc.lookup k m ≡ some c
    → test c ≡ false
unfolding find_key Assoc.lookup
find_key-none test [] k c e l = cc
find_key-none test ((j, d) ∷ m) k c e l = ground (arith, find_key-none test m k c)

-- Every connection stands under its own source port.
abbrev pub IsKeyed : Assoc ℕ Connection → Type 0
IsKeyed m = (k : ℕ) (c : Connection) → Assoc.lookup k m ≡ some c → c.source_port ≡ k

-- A key that is found is in the map, so the `unwrap` behind the search cannot fail.
pub conn_key-lookup :
    (h : TcpHeader) (m : Assoc ℕ Connection) (k : ℕ)
    → IsMap m
    → conn_key h m ≡ some k
    → (c : Connection) × (Assoc.lookup k m ≡ some c)
unfolding conn_key
conn_key-lookup h m k u e = elim (Option-cases (find_key (matches_exactly h) m)) [
  | inl missed ↦
      let (c, l, t) = find_key-some (matches_loosely h) m k u (rw (missed, conn_key) at e) in (c, l)
  | inr (j, found) ↦
      let (c, l, t) =
        find_key-some (matches_exactly h) m k u (found ∙ (rw (found, conn_key) at e)) in
      (c, l)
]

-- A packet from the port that a connection was made to finds that connection, in any iteration
-- order, although the source then has a looser rule.
pub conn_key_exact :
    (h : TcpHeader) (m : Assoc ℕ Connection) (c : Connection)
    → IsMap m
    → IsKeyed m
    → Assoc.lookup h.dest_port m ≡ some c
    → c.dest_port ≡ h.source_port
    → conn_key h m ≡ some h.dest_port
unfolding conn_key
conn_key_exact h m c u keyed l d = elim (Option-cases (find_key (matches_exactly h) m)) [
  | inl missed ↦
      ground
        (arith, find_key-none (matches_exactly h) m h.dest_port c missed l, keyed h.dest_port c l)
  | inr (j, found) ↦
      let (c', l', t) = find_key-some (matches_exactly h) m j u found in
      ground (arith, keyed j c' l')
]
