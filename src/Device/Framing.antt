-- ===== src/Device/Framing.antt =====
-- That a frame is read back from a channel, in whatever pieces it comes.
use ius.Base.{
  ◌-◌, ◌≤◌, ◌≡◌, refl, sym, ap, ◌∙◌, subst, inl, inr, true, false, Bool-cases, Option, some, List,
  [], ◌∷◌, ◌++◌, is_empty, leb, leb→le, leb→lt, length, length-drop, take, drop, take-append,
  drop-append, take_all, drop_all, take-append-drop, get_or, ok, le→ltb, arith,
}
use ius.Base.Words.{Bytes, u32, be32, be32-round, from_be32}
use ius.Protocol.{PlistCodec}
use ius.Protocol.Plist.{Plist}
use ius.Device.Lockdown.{
  Chunk, received, failed, timed_out, keep, read_exact_timeout, write_plist, read_plist,
  parse_response, max_lockdown_response,
}

-- The channel brings these bytes and then ends, in pieces that are not empty.
abbrev pub Delivers : List Chunk → Bytes → Type 0
Delivers [] bytes = bytes ≡ []
Delivers (received piece ∷ chunks) bytes =
    (is_empty piece ≡ false) × (later : Bytes) × (bytes ≡ piece ++ later) × Delivers chunks later
Delivers (failed ∷ chunks) bytes = true ≡ false
Delivers (timed_out ∷ chunks) bytes = true ≡ false

keep-Delivers :
    (piece : Bytes) (chunks : List Chunk) (later : Bytes)
    → Delivers chunks later
    → Delivers (keep piece chunks) (piece ++ later)
keep-Delivers [] chunks later d = d
keep-Delivers (b ∷ piece) chunks later d = (refl, later, refl, d)

is_empty-length : (xs : Bytes) → length xs ≡ 0 → xs ≡ []
is_empty-length [] h = refl
is_empty-length (x ∷ xs) h = absurd (omega (arith, h))

-- Two ways to cut the same bytes, the first cut behind the second or before it.
cut_behind :
    (xs rest piece later : Bytes)
    → xs ++ rest ≡ piece ++ later
    → length xs ≤ length piece
    → (take (length xs) piece ≡ xs) × (drop (length xs) piece ++ later ≡ rest)
cut_behind xs rest piece later e le = (
  sym (take-append (length xs) piece later le) ∙ ap (take (length xs)) (sym e) ∙ take_all xs rest,
  sym (drop-append (length xs) piece later le) ∙ ap (drop (length xs)) (sym e) ∙ drop_all xs rest,
)

read_exact_timeout-Delivers :
    (chunks : List Chunk) (xs rest : Bytes)
    → Delivers chunks (xs ++ rest)
    → (chunks' : List Chunk) × (read_exact_timeout chunks (length xs) ≡ (ok xs, chunks'))
      × Delivers chunks' rest
unfolding read_exact_timeout
read_exact_timeout-Delivers chunks [] rest d =
    elim chunks
        as (λ cs.
          Delivers cs rest
          → (chunks' : List Chunk) × (read_exact_timeout cs 0 ≡ (ok [], chunks'))
            × Delivers chunks' rest) [
              | [] ↦ λ e. ([], refl, e)
              | received piece ∷ cs ↦ λ e. (received piece ∷ cs, refl, e)
              | failed ∷ cs ↦ λ e. (failed ∷ cs, refl, e)
              | timed_out ∷ cs ↦ λ e. (timed_out ∷ cs, refl, e)
            ]
      d
read_exact_timeout-Delivers [] (x ∷ xs) rest d = absurd (ground (arith, d))
read_exact_timeout-Delivers (failed ∷ chunks) (x ∷ xs) rest d = absurd (ground (arith, d))
read_exact_timeout-Delivers (timed_out ∷ chunks) (x ∷ xs) rest d = absurd (ground (arith, d))
read_exact_timeout-Delivers (received piece ∷ chunks) (x ∷ xs) rest (full, later, e, d) =
    let n = length (x ∷ xs) in
    elim (Bool-cases (leb n (length piece))) [
      | inl within ↦
          let (front, back) =
            cut_behind (x ∷ xs) rest piece later e (leb→le n (length piece) within) in
          (
            keep (drop n piece) chunks,
            ground (arith, full, within, front),
            subst (Delivers (keep (drop n piece) chunks)) back
                (keep-Delivers (drop n piece) chunks later d),
          )
      | inr beyond ↦
          let (front, back) =
            cut_behind piece later (x ∷ xs) rest (sym e)
              (ground (arith, leb→lt n (length piece) beyond)) in
          let xs' = drop (length piece) (x ∷ xs) in
          let (chunks', reads, d') =
            read_exact_timeout-Delivers chunks xs' rest (subst (Delivers chunks) (sym back) d) in
          let whole : piece ++ xs' ≡ x ∷ xs =
            ap (λ l. l ++ xs') (sym front) ∙ take-append-drop (length piece) (x ∷ xs) in
          let reads' : read_exact_timeout chunks (n - length piece) ≡ (ok xs', chunks') =
            subst (λ m. read_exact_timeout chunks m ≡ (ok xs', chunks'))
              (length-drop (length piece) (x ∷ xs)) reads in
          (chunks', ground (arith, full, beyond, whole, reads'), d')
    ]

framed :
    (P : Plist) (codec : PlistCodec P.Dictionary) (from_bytes : Bytes → Option P.Value)
    (chunks chunks' rest : List Chunk) (b body : Bytes)
    → read_exact_timeout chunks 4 ≡ (ok b, chunks')
    → from_be32 (get_or b 0 0) (get_or b 1 0) (get_or b 2 0) (get_or b 3 0) ≡ length body
    → length body ≤ max_lockdown_response
    → read_exact_timeout chunks' (length body) ≡ (ok body, rest)
    → read_plist P codec from_bytes chunks ≡ (parse_response P codec from_bytes body, rest)
unfolding read_plist
framed P codec from_bytes chunks chunks' rest b body head total small tail =
    let e = le→ltb max_lockdown_response (length body) small in
    let rest' : read_exact_timeout (read_exact_timeout chunks 4).1 (length body) ≡ (ok body, rest) =
      subst (λ c. read_exact_timeout c (length body) ≡ (ok body, rest)) (sym (ap (λ p. p.1) head))
        tail in
    rw (ap (λ p. p.0) head, read_plist)
      (rw (total, e, ap (λ p. p.0) rest')
        (ap (λ r. (parse_response P codec from_bytes body, r))
          (ap (λ t. (read_exact_timeout (read_exact_timeout chunks 4).1 t).1) total
            ∙ ap (λ p. p.1) rest')))

-- A dictionary that was written is read back, in whatever pieces its frame comes, and what comes
-- behind it stays, if its encoding is at most 1 MiB and the decoder undoes it.
pub read_plist-write_plist :
    (P : Plist) (codec : PlistCodec P.Dictionary) (from_bytes : Bytes → Option P.Value)
    (d : P.Dictionary) (v : P.Value) (body frame rest : Bytes) (chunks : List Chunk)
    → codec.to_writer_xml d ≡ some body
    → from_bytes body ≡ some v
    → P.as_dictionary v ≡ some d
    → length body ≤ max_lockdown_response
    → write_plist P codec d ≡ some frame
    → Delivers chunks (frame ++ rest)
    → (chunks' : List Chunk) × (read_plist P codec from_bytes chunks ≡ (ok d, chunks'))
      × Delivers chunks' rest
unfolding write_plist read_plist parse_response
read_plist-write_plist P codec from_bytes d v body frame rest chunks encodes decodes is_d small w
      arrives =
    let n = length body in
    let whole : be32 (u32 n) ++ body ≡ frame = ground (arith, w, encodes) in
    let arrives' : Delivers chunks (be32 (u32 n) ++ (body ++ rest)) =
      subst (Delivers chunks) (ap (λ l. l ++ rest) (sym whole)) arrives in
    let (chunks', head, d') =
      read_exact_timeout-Delivers chunks (be32 (u32 n)) (body ++ rest) arrives' in
    let (chunks'', tail, d'') = read_exact_timeout-Delivers chunks' body rest d' in
    let same : u32 n ≡ n = omega (arith, small) in
    let total = be32-round (u32 n) (omega arith) ∙ same in
    (
      chunks'',
      framed P codec from_bytes chunks chunks' chunks'' (be32 (u32 n)) body head total small tail
          ∙ rw (decodes, is_d, parse_response) refl,
      d'',
    )
