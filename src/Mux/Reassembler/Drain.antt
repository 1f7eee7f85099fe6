-- ===== src/Mux/Reassembler/Drain.antt =====
-- The loop of `PacketReassembler::feed`, freed from its fuel: one equation for each way a round
-- can go, and the effect of bytes that arrive later.
use ius.Base.{
  ℕ, zero, suc, ◌≤◌, ◌<◌, ◌≡◌, sym, ap, ◌∙◌, ◌⊎◌, inl, inr, List, [], ◌∷◌, ltb, ltb→lt, ltb→le,
  lt→ltb, le→ltb, tests, Bool-cases, length, take, drop, length-drop, arith,
}
use ius.Base.Words.{Bytes}
use ius.Mux.Frame.{be32_at}
use ius.Mux.Reassembler.{drain}

-- What the loop finds at the front of its buffer.
pub data Front (max : ℕ) (buf : Bytes) : Type 0 where
  short : length buf < 8 → Front max buf
  corrupt : 8 ≤ length buf → (be32_at buf 4 < 8) ⊎ (max < be32_at buf 4) → Front max buf
  partial :
      8 ≤ length buf
      → 8 ≤ be32_at buf 4
      → be32_at buf 4 ≤ max
      → length buf < be32_at buf 4
      → Front max buf
  whole : 8 ≤ be32_at buf 4 → be32_at buf 4 ≤ max → be32_at buf 4 ≤ length buf → Front max buf

pub front : (max : ℕ) (buf : Bytes) → Front max buf
front max buf = elim (Bool-cases (ltb (length buf) 8)) [
  | inl s ↦ short (omega (tests, s))
  | inr l ↦ elim (Bool-cases (ltb (be32_at buf 4) 8)) [
    | inl a ↦ corrupt (omega (tests, l)) (inl (ltb→lt _ _ a))
    | inr b ↦ elim (Bool-cases (ltb max (be32_at buf 4))) [
      | inl c ↦ corrupt (omega (tests, l)) (inr (ltb→lt _ _ c))
      | inr d ↦ elim (Bool-cases (ltb (length buf) (be32_at buf 4))) [
        | inl p ↦ partial (ltb→le _ _ l) (ltb→le _ _ b) (ltb→le _ _ d) (ltb→lt _ _ p)
        | inr w ↦ whole (ltb→le _ _ b) (ltb→le _ _ d) (ltb→le _ _ w)
      ]
    ]
  ]
]

-- One packet in front of what a run of the loop emits.
abbrev pub emitted : Bytes → List Bytes × Bytes → List Bytes × Bytes
emitted packet r = (packet ∷ r.0, r.1)

module _ (fuel max : ℕ) (buf : Bytes) where
  drain-short : length buf < 8 → drain (suc fuel) max buf ≡ ([], buf)
  unfolding drain
  drain-short h = rw (lt→ltb (length buf) 8 h)

  drain-corrupt :
      8 ≤ length buf
      → (be32_at buf 4 < 8) ⊎ (max < be32_at buf 4)
      → drain (suc fuel) max buf ≡ drain fuel max (drop 1 buf)
  unfolding drain
  drain-corrupt l (inl h) = rw (le→ltb (length buf) 8 l, lt→ltb (be32_at buf 4) 8 h)
  drain-corrupt l (inr h) = ground (arith, le→ltb (length buf) 8 l)

  drain-partial :
      8 ≤ length buf
      → 8 ≤ be32_at buf 4
      → be32_at buf 4 ≤ max
      → length buf < be32_at buf 4
      → drain (suc fuel) max buf ≡ ([], buf)
  unfolding drain
  drain-partial l a b p = rw (
    le→ltb (length buf) 8 l,
    le→ltb (be32_at buf 4) 8 a,
    le→ltb max (be32_at buf 4) b,
    lt→ltb (length buf) (be32_at buf 4) p,
  )

  drain-whole :
      8 ≤ be32_at buf 4
      → be32_at buf 4 ≤ max
      → be32_at buf 4 ≤ length buf
      → drain (suc fuel) max buf ≡ (
        take (be32_at buf 4) buf ∷ (drain fuel max (drop (be32_at buf 4) buf)).0,
        (drain fuel max (drop (be32_at buf 4) buf)).1,
      )
  unfolding drain
  drain-whole a b w = rw (
    le→ltb (length buf) 8 (omega arith),
    le→ltb (be32_at buf 4) 8 a,
    le→ltb max (be32_at buf 4) b,
    le→ltb (length buf) (be32_at buf 4) w,
  )

pub drain_fuel :
    (f g max : ℕ) (buf : Bytes)
    → length buf < f
    → length buf < g
    → drain f max buf ≡ drain g max buf
drain_fuel zero g max buf hf hg = absurd (omega arith)
drain_fuel (suc f) zero max buf hf hg = absurd (omega arith)
drain_fuel (suc f) (suc g) max buf hf hg = elim (front max buf) [
  | short h ↦ drain-short f max buf h ∙ sym (drain-short g max buf h)
  | corrupt l h ↦
      drain-corrupt f max buf l h
      ∙ drain_fuel f g max (drop 1 buf) (omega (arith, length-drop 1 buf))
          (omega (arith, length-drop 1 buf))
      ∙ sym (drain-corrupt g max buf l h)
  | partial l a b p ↦ drain-partial f max buf l a b p ∙ sym (drain-partial g max buf l a b p)
  | whole a b w ↦
      drain-whole f max buf a b w
      ∙ ap (λ (r : List Bytes × Bytes). emitted (take (be32_at buf 4) buf) r)
          (drain_fuel f g max (drop (be32_at buf 4) buf)
            (omega (arith, length-drop (be32_at buf 4) buf))
            (omega (arith, length-drop (be32_at buf 4) buf)))
      ∙ sym (drain-whole g max buf a b w)
]

-- The loop with the fuel that `feed` gives it.
unfoldable pub split : ℕ → Bytes → List Bytes × Bytes
split max buf = drain (suc (length buf)) max buf

module _ (max : ℕ) (buf : Bytes) where
  pub split-short : length buf < 8 → split max buf ≡ ([], buf)
  unfolding split
  split-short h = drain-short (length buf) max buf h

  pub split-corrupt :
      8 ≤ length buf
      → (be32_at buf 4 < 8) ⊎ (max < be32_at buf 4)
      → split max buf ≡ split max (drop 1 buf)
  unfolding split
  split-corrupt l h =
      drain-corrupt (length buf) max buf l h
      ∙ drain_fuel _ _ max (drop 1 buf) (omega (arith, length-drop 1 buf)) (omega arith)

  pub split-partial :
      8 ≤ length buf
      → 8 ≤ be32_at buf 4
      → be32_at buf 4 ≤ max
      → length buf < be32_at buf 4
      → split max buf ≡ ([], buf)
  unfolding split
  split-partial = drain-partial (length buf) max buf

  pub split-whole :
      8 ≤ be32_at buf 4
      → be32_at buf 4 ≤ max
      → be32_at buf 4 ≤ length buf
      → split max buf ≡ emitted (take (be32_at buf 4) buf) (split max (drop (be32_at buf 4) buf))
  unfolding split
  split-whole a b w =
      drain-whole (length buf) max buf a b w
      ∙ ap (emitted (take (be32_at buf 4) buf)) (
          drain_fuel _ _ max (drop (be32_at buf 4) buf)
            (omega (arith, length-drop (be32_at buf 4) buf)) (omega arith))
