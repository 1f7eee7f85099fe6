-- ===== src/Mux/Reassembler/Stream.antt =====
-- What `feed` promises of the byte stream, however it is cut into reads.
use mathlib.Core.List.{flatten}
use ius.Base.{
  ℕ, zero, suc, ◌+◌, ◌≤◌, ◌<◌, ◌≡◌, refl, sym, ap, ◌∙◌, ◌⊎◌, inl, inr, false, List, [], ◌∷◌, ◌++◌,
  append_assoc, ltb, le→ltb, ltb→le, Bool-cases, if◌then◌else◌, length, take, drop, length-drop,
  length-take, length-append, take-append, drop-append, get_or-append, get_or-take, take_all,
  drop_all, All, arith,
}
use ius.Base.Words.{Bytes}
use ius.Mux.Frame.{be32_at}
use ius.Mux.Reassembler.{PacketReassembler, new, feed}
use ius.Mux.Reassembler.Drain.{
  front, short, corrupt, partial, whole, emitted, split, split-short, split-corrupt, split-partial,
  split-whole,
}

-- A frame whose declared length is its own, and within the reassembler's limit.
pub record IsFrame (max : ℕ) (packet : Bytes) : Type 0 where
  pub declared : be32_at packet 4 ≡ length packet
  pub has_header : 8 ≤ length packet
  pub fits : length packet ≤ max

be32_at-append : (xs ys : Bytes) → 8 ≤ length xs → be32_at (xs ++ ys) 4 ≡ be32_at xs 4
be32_at-append xs ys h = rw (
  get_or-append xs ys 4 0 (omega arith),
  get_or-append xs ys (4 + 1) 0 (omega arith),
  get_or-append xs ys (4 + 2) 0 (omega arith),
  get_or-append xs ys (4 + 3) 0 (omega arith),
)

be32_at-take : (n : ℕ) (xs : Bytes) → 8 ≤ n → be32_at (take n xs) 4 ≡ be32_at xs 4
be32_at-take n xs h = rw (
  get_or-take n xs 4 0 (omega arith),
  get_or-take n xs (4 + 1) 0 (omega arith),
  get_or-take n xs (4 + 2) 0 (omega arith),
  get_or-take n xs (4 + 3) 0 (omega arith),
)

-- A later run of the loop behind an earlier one.
abbrev behind : List Bytes → List Bytes × Bytes → List Bytes × Bytes
behind packets r = (packets ++ r.0, r.1)

module _ (max : ℕ) (xs ys : Bytes) where
  corrupt-append :
      8 ≤ length xs
      → (be32_at xs 4 < 8) ⊎ (max < be32_at xs 4)
      → split max (xs ++ ys) ≡ split max (drop 1 xs ++ ys)
  corrupt-append l c =
      split-corrupt max (xs ++ ys) (omega (arith, length-append xs ys))
        (rw (be32_at-append xs ys l) c)
      ∙ ap (split max) (drop-append 1 xs ys (omega arith))

  whole-append :
      8 ≤ be32_at xs 4
      → be32_at xs 4 ≤ max
      → be32_at xs 4 ≤ length xs
      → split max (xs ++ ys)
        ≡ emitted (take (be32_at xs 4) xs) (split max (drop (be32_at xs 4) xs ++ ys))
  whole-append a b w =
      let e : be32_at (xs ++ ys) 4 ≡ be32_at xs 4 = be32_at-append xs ys (omega arith) in
      split-whole max (xs ++ ys) (omega (arith, e)) (omega (arith, e))
        (omega (arith, e, length-append xs ys))
      ∙ rw (e, take-append (be32_at xs 4) xs ys w, drop-append (be32_at xs 4) xs ys w)

split-append :
    (n max : ℕ) (xs ys : Bytes)
    → length xs < n
    → split max (xs ++ ys) ≡ behind (split max xs).0 (split max ((split max xs).1 ++ ys))
split-append zero max xs ys h = absurd (omega arith)
split-append (suc n) max xs ys h = elim (front max xs) [
  | short s ↦ rw (split-short max xs s)
  | corrupt l c ↦ rw (split-corrupt max xs l c) (
      corrupt-append max xs ys l c
      ∙ split-append n max (drop 1 xs) ys (omega (arith, length-drop 1 xs)))
  | partial l a b p ↦ rw (split-partial max xs l a b p)
  | whole a b w ↦ rw (split-whole max xs a b w) (
      whole-append max xs ys a b w
      ∙ ap (emitted (take (be32_at xs 4) xs)) (
          split-append n max (drop (be32_at xs 4) xs) ys
            (omega (arith, length-drop (be32_at xs 4) xs))))
]

-- What the loop leaves is too short for a header, or waits for a frame within the limit.
split_left :
    (n max : ℕ) (xs : Bytes)
    → length xs < n
    → (length (split max xs).1 < 8) ⊎ (length (split max xs).1 < max)
split_left zero max xs h = absurd (omega arith)
split_left (suc n) max xs h = elim (front max xs) [
  | short s ↦ rw (split-short max xs s) (inl s)
  | corrupt l c ↦
      rw (split-corrupt max xs l c) (split_left n max (drop 1 xs) (omega (arith, length-drop 1 xs)))
  | partial l a b p ↦ rw (split-partial max xs l a b p) (inr (omega arith))
  | whole a b w ↦
      rw (split-whole max xs a b w)
        (split_left n max (drop (be32_at xs 4) xs) (omega (arith, length-drop (be32_at xs 4) xs)))
]

split-IsFrame : (n max : ℕ) (xs : Bytes) → length xs < n → All (IsFrame max) (split max xs).0
split-IsFrame zero max xs h = absurd (omega arith)
split-IsFrame (suc n) max xs h = elim (front max xs) [
  | short s ↦ rw (split-short max xs s) tt
  | corrupt l c ↦
      rw (split-corrupt max xs l c)
        (split-IsFrame n max (drop 1 xs) (omega (arith, length-drop 1 xs)))
  | partial l a b p ↦ rw (split-partial max xs l a b p) tt
  | whole a b w ↦
      let size : length (take (be32_at xs 4) xs) ≡ be32_at xs 4 =
        omega (arith, length-take (be32_at xs 4) xs) in
      rw (split-whole max xs a b w) (
        record {
          declared = be32_at-take (be32_at xs 4) xs a ∙ sym size;
          has_header = omega (arith, size);
          fits = omega (arith, size);
        },
        split-IsFrame n max (drop (be32_at xs 4) xs) (omega (arith, length-drop (be32_at xs 4) xs)),
      )
]

split_frames :
    (max : ℕ) (packets : List Bytes) (rest : Bytes)
    → All (IsFrame max) packets
    → split max (flatten packets ++ rest) ≡ behind packets (split max rest)
unfolding flatten
split_frames max [] rest h = refl
split_frames max (p ∷ packets) rest (f, h) =
    let e : be32_at (p ++ (flatten packets ++ rest)) 4 ≡ length p =
      be32_at-append p (flatten packets ++ rest) f.has_header ∙ f.declared in
    rw (append_assoc p (flatten packets) rest) (
      split-whole max (p ++ (flatten packets ++ rest)) (omega (arith, e, f.has_header))
        (omega (arith, e, f.fits)) (omega (arith, e, length-append p (flatten packets ++ rest)))
      ∙ rw (
        e,
        take_all p (flatten packets ++ rest),
        drop_all p (flatten packets ++ rest),
        split_frames max packets rest h,
      ))

capped : (max : ℕ) (left : Bytes) → length (if ltb max (length left) then [] else left) ≤ max
capped max left = elim (Bool-cases (ltb max (length left))) [
  | inl over ↦ rw over (omega arith)
  | inr within ↦ rw within (ltb→le max (length left) within)
]

-- The test against `max_buffer` behind the loop never fires once the limit leaves room for
-- seven bytes: `feed` is the loop alone.
pub feed-split :
    (r : PacketReassembler) (xs : Bytes)
    → 7 ≤ r.max_buffer
    → feed r xs ≡ (
      record r { buffers = (split r.max_buffer (r.buffers ++ xs)).1 },
      (split r.max_buffer (r.buffers ++ xs)).0,
    )
unfolding feed split
feed-split r xs h = rw (
    kept (split_left (suc (length (r.buffers ++ xs))) r.max_buffer (r.buffers ++ xs) (omega arith)))
  where
    kept :
        (length (split r.max_buffer (r.buffers ++ xs)).1 < 8)
          ⊎ (length (split r.max_buffer (r.buffers ++ xs)).1 < r.max_buffer)
        → ltb r.max_buffer (length (split r.max_buffer (r.buffers ++ xs)).1) ≡ false
    kept (inl s) = le→ltb _ _ (omega arith)
    kept (inr s) = le→ltb _ _ (omega arith)

-- After any feed the buffer is within the limit, whatever the bytes and the limit, and the limit is
-- the same.
pub feed-le-max_buffer :
    (r : PacketReassembler) (xs : Bytes)
    → (length (feed r xs).0.buffers ≤ r.max_buffer) × ((feed r xs).0.max_buffer ≡ r.max_buffer)
unfolding feed
feed-le-max_buffer r xs = (capped r.max_buffer _, refl)

-- Every packet that `feed` returns declares its own length, which is at least a header and at
-- most the limit.
pub feed-IsFrame : (r : PacketReassembler) (xs : Bytes) → All (IsFrame r.max_buffer) (feed r xs).1
unfolding feed split
feed-IsFrame r xs =
    split-IsFrame (suc (length (r.buffers ++ xs))) r.max_buffer (r.buffers ++ xs) (omega arith)

-- With a limit of at least seven bytes, two reads in a row give the packets and the state that one
-- read of both gives.
pub feed-feed :
    (r : PacketReassembler) (xs ys : Bytes)
    → 7 ≤ r.max_buffer
    → feed r (xs ++ ys) ≡ ((feed (feed r xs).0 ys).0, (feed r xs).1 ++ (feed (feed r xs).0 ys).1)
feed-feed r xs ys h = rw (
  feed-split r (xs ++ ys) h,
  feed-split r xs h,
  feed-split (record r { buffers = (split r.max_buffer (r.buffers ++ xs)).1 }) ys h,
  ← append_assoc r.buffers xs ys,
  split-append (suc (length (r.buffers ++ xs))) r.max_buffer (r.buffers ++ xs) ys (omega arith),
)

-- Well-formed frames, one behind the other, come back as these frames, all in one call, and what
-- follows them is treated as if it stood alone.
pub feed_frames :
    (max : ℕ) (packets : List Bytes) (rest : Bytes)
    → 7 ≤ max
    → All (IsFrame max) packets
    → feed (new max) (flatten packets ++ rest)
      ≡ ((feed (new max) rest).0, packets ++ (feed (new max) rest).1)
unfolding new
feed_frames max packets rest h f = rw (
  feed-split (new max) (flatten packets ++ rest) h,
  feed-split (new max) rest h,
  split_frames max packets rest f,
)
