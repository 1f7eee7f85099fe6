-- ===== src/Clients/Session.antt =====
-- The loop of `handle_client_inner` of meridian-relay/src/daemon/connection.rs over the bytes that a
-- client sends until it closes.
use ius.Base.{
  ℕ, zero, suc, ◌+◌, ◌≤◌, ◌<◌, ◌≡◌, refl, sym, ap, ◌∙◌, inl, inr, Option, none, some, List, [], ◌∷◌,
  ◌++◌, map, append_assoc, length, length-drop, drop, take, Outcome, ok, err, Outcome-cases,
  Option-cases, append-nil, ltb, ltb→le, if_both, if_split, ◌-◌, arith,
}
use ius.Base.Words.{Bytes}
use ius.Platform.{Directory}
use ius.Protocol.{RawPacket, PlistCodec, ReadError, read_packet, parse_body, le32_at}
use ius.Protocol.Plist.{Plist}
use ius.Clients.Serving.{Flow, continuing, listening, returned, proxying, Served, Around, Packet}
use ius.Clients.Commands.{handle_packet}
use ius.Clients.Commands.Replies.{handle_packet-IsAnswered}

-- The client is gone or sent what cannot be read, or a round says what comes next.
pub data Ending : Type 0 where
  disconnected : ReadError → Ending
  left : Flow → Ending

abbrev pub went_on : Flow → Option Flow
went_on continuing = none
went_on listening = some listening
went_on (returned o) = some (returned o)
went_on (proxying device_id sport) = some (proxying device_id sport)

module _ (P : Plist) (D : Directory) (codec : PlistCodec P.Dictionary) (max_packet_bytes : ℕ) where
  -- `around` gives what is around the handler in each of the rounds to come; `none` is a loop that
  -- the fuel does not cover.
  unfoldable pub handle_client_inner :
      ℕ → (around : ℕ → Around P D) → Served P D → Bytes → Option (Served P D × Ending)
  handle_client_inner zero around s stream = none
  handle_client_inner (suc fuel) around s stream =
      elim (read_packet codec stream max_packet_bytes) [
        | err e ↦ some (s, disconnected e)
        | ok (packet, stream') ↦
            let (s', flow) = handle_packet P D (around 0) s packet in
            let later = handle_client_inner fuel (λ n. around (suc n)) s' stream' in
            elim (went_on flow) [ none ↦ later | some end ↦ some (s', left end) ]
      ]

  -- The packets in a stream, up to the first that cannot be read.
  unfoldable pub packets_of : ℕ → Bytes → List (Packet P D)
  packets_of zero stream = []
  packets_of (suc fuel) stream = elim (read_packet codec stream max_packet_bytes) [
    | err e ↦ []
    | ok (packet, stream') ↦ packet ∷ packets_of fuel stream'
  ]

  abbrev pub tags : List (Packet P D) → List ℕ
  tags ps = map (λ (p : Packet P D). p.tag) ps

  -- A packet takes its header at least.
  read_packet-length :
      (stream stream' : Bytes) (packet : Packet P D)
      → read_packet codec stream max_packet_bytes ≡ ok (packet, stream')
      → length stream' + 16 ≤ length stream
  unfolding read_packet
  read_packet-length stream stream' packet =
      let Q : Outcome ReadError (RawPacket P.Dictionary × Bytes) → Type 0 =
        λ o. o ≡ ok (packet, stream') → length stream' + 16 ≤ length stream in
      let size = le32_at stream 0 in
      let body = take (size - 16) (drop 16 stream) in
      if_split Q (ltb (length stream) 16) (λ _ h. absurd (ground (arith, h)))
        (λ whole.
          if_both Q (ltb size 16) (λ h. absurd (ground (arith, h)))
            (if_both Q (ltb max_packet_bytes (size - 16)) (λ h. absurd (ground (arith, h)))
              (if_both Q (ltb (length (drop 16 stream)) (size - 16))
                (λ h. absurd (ground (arith, h)))
                (elim (Outcome-cases (parse_body codec body)) [
                  | inr (e, failed) ↦ rw (failed) (λ h. absurd (ground (arith, h)))
                  | inl (plist, parsed) ↦ rw (parsed) (λ h. ground (
                    arith,
                    h,
                    ltb→le (length stream) 16 whole,
                    length-drop (size - 16) (drop 16 stream),
                    length-drop 16 stream,
                  ))
                ]))))

  -- A loop that came to its end, with the tags of its packets as those of its replies.
  pub record IsHandled (fuel : ℕ) (around : ℕ → Around P D) (s : Served P D) (stream : Bytes)
      : Type 0 where
    pub end : Served P D × Ending
    pub comes : handle_client_inner fuel around s stream ≡ some end
    pub served : List (Packet P D)
    pub unserved : List (Packet P D)
    pub read : packets_of fuel stream ≡ served ++ unserved
    pub answered : tags end.0.written ≡ tags s.written ++ tags served
    pub to_the_end : (e : ReadError) → end.1 ≡ disconnected e → unserved ≡ []

  tags-append : (ps qs : List (Packet P D)) → tags (ps ++ qs) ≡ tags ps ++ tags qs
  tags-append [] qs = refl
  tags-append (p ∷ ps) qs = ap (λ l. p.tag ∷ l) (tags-append ps qs)

  round-tags :
      (a : Around P D) (s : Served P D) (packet : Packet P D)
      → tags (handle_packet P D a s packet).0.written ≡ tags s.written ++ packet.tag ∷ []
  round-tags a s packet =
      let h = handle_packet-IsAnswered P D a s packet in
      rw (h.written, tags-append s.written (h.reply ∷ []), h.tagged) refl

  left_end :
      (fuel : ℕ) (around : ℕ → Around P D) (s : Served P D) (stream stream' : Bytes)
      (packet : Packet P D) (flow : Flow)
      → read_packet codec stream max_packet_bytes ≡ ok (packet, stream')
      → went_on (handle_packet P D (around 0) s packet).1 ≡ some flow
      → IsHandled (suc fuel) around s stream
  unfolding handle_client_inner packets_of
  left_end fuel around s stream stream' packet flow reads goes = record {
    end = ((handle_packet P D (around 0) s packet).0, left flow);
    comes = rw (reads, goes, handle_client_inner) refl;
    served = packet ∷ [];
    unserved = packets_of fuel stream';
    read = rw (reads, packets_of) refl;
    answered = round-tags (around 0) s packet;
    to_the_end = λ e h. absurd (ground (arith, h));
  }

  -- With more fuel than bytes the loop of a client comes to its end, whatever the client sends and
  -- whatever happens around it: it has then answered the packets that it served, once each and in
  -- their order, and these are all if the client has just gone.
  pub handle_client_inner-IsHandled :
      (fuel : ℕ) (around : ℕ → Around P D) (s : Served P D) (stream : Bytes)
      → length stream < fuel
      → IsHandled fuel around s stream
  unfolding handle_client_inner packets_of
  handle_client_inner-IsHandled zero around s stream enough = absurd (omega arith)
  handle_client_inner-IsHandled (suc fuel) around s stream enough =
      elim (Outcome-cases (read_packet codec stream max_packet_bytes)) [
        | inr (e, failed) ↦ record {
          end = (s, disconnected e);
          comes = rw (failed, handle_client_inner) refl;
          served = [];
          unserved = [];
          read = rw (failed, packets_of) refl;
          answered = sym (append-nil (tags s.written));
          to_the_end = λ e h. refl;
        }
        | inl ((packet, stream'), reads) ↦
            elim (Option-cases (went_on (handle_packet P D (around 0) s packet).1)) [
              | inr (flow, goes) ↦ left_end fuel around s stream stream' packet flow reads goes
              | inl goes ↦
                  let s' = (handle_packet P D (around 0) s packet).0 in
                  let h =
                    handle_client_inner-IsHandled fuel (λ n. around (suc n)) s' stream'
                      (omega (arith, read_packet-length stream stream' packet reads)) in
                  record {
                    end = h.end;
                    comes = rw (reads, goes, handle_client_inner) h.comes;
                    served = packet ∷ h.served;
                    unserved = h.unserved;
                    read = rw (reads, packets_of) (ap (λ l. packet ∷ l) h.read);
                    answered =
                        h.answered
                        ∙ rw (round-tags (around 0) s packet)
                            (append_assoc (tags s.written) (packet.tag ∷ []) (tags h.served));
                    to_the_end = h.to_the_end;
                  }
            ]
      ]
