-- ===== src/Hass/Session/Delivery.antt =====
-- Messages that wait in the buffer of a session are handed over one by one.
use telegraph_stm_fw.Base.{
  ℕ, zero, suc, ◌-◌, ◌<◌, ◌≡◌, refl, ap, ap₂, ◌∙◌, sym, subst, List, [], ◌∷◌, ◌++◌, map, Option,
  none, some, Bool, true, length, length-append, All, ltb, leb, if_split, not, arith,
}
use telegraph_stm_fw.Hass.Mqtt.{
  Message, packet, packet_head, publish_body, publish_type, whole_packet, consume, give,
  scan_packet, buf_max, topic_max,
}
use telegraph_stm_fw.Hass.Mqtt.Publish.{scan_packet-packet, consume-append}
use telegraph_stm_fw.Hass.Session.{
  Socket, Session, Got, would_block, Scanned, poll_loop, Polled, nothing, message, polled, filled,
  fill, dropped, poll,
}

-- A publication as its sender asks for it, and its packet, where its body fits.
pub record Publication : Type 0 where
  pub topic : List ℕ
  pub payload : List ℕ
  pub retain : Bool

abbrev pub packet_from : Bool → Option (List ℕ) → List ℕ
packet_from retain none = []
packet_from retain (some body) = packet (publish_type retain) body

abbrev pub packet_of : Publication → List ℕ
packet_of p = packet_from p.retain (publish_body p.topic (some p.payload))

abbrev pub stream : List Publication → List ℕ
stream [] = []
stream (p ∷ ps) = packet_of p ++ stream ps

abbrev pub IsSendable : Publication → Type 0
IsSendable p =
    (body : List ℕ) × (publish_body p.topic (some p.payload) ≡ some body)
    × (length p.topic < topic_max)

abbrev pub message_of : Publication → Message
message_of p = record { topic = p.topic; payload = p.payload }

-- A buffer that begins with a publication, and an empty one.
poll_loop-give :
    (fuel : ℕ) (rx : List ℕ) (m : Message) (n : ℕ)
    → 0 < fuel
    → scan_packet rx (whole_packet rx) ≡ give m n
    → poll_loop fuel rx ≡ record { rx = rx; pending = n; found = some m }
unfolding poll_loop
poll_loop-give zero rx m n h k = absurd (omega arith)
poll_loop-give (suc fuel) rx m n h k = rw (k, poll_loop)

packet-some : (retain : Bool) (body : List ℕ) → 0 < length (packet (publish_type retain) body)
unfolding packet_head
packet-some retain body = omega arith

poll_loop-publication :
    (p : Publication) (rest : List ℕ)
    → IsSendable p
    → (poll_loop (length (packet_of p ++ rest)) (packet_of p ++ rest) ≡ record {
      rx = packet_of p ++ rest;
      pending = length (packet_of p);
      found = some (message_of p);
    })
      × (0 < length (packet_of p))
poll_loop-publication p rest (body, fits, short) =
    let bytes = packet (publish_type p.retain) body in
    let more = packet-some p.retain body in
    subst
      (λ (o : Option (List ℕ)).
        (poll_loop (length (packet_from p.retain o ++ rest)) (packet_from p.retain o ++ rest)
          ≡ record {
            rx = packet_from p.retain o ++ rest;
            pending = length (packet_from p.retain o);
            found = some (message_of p);
          })
        × (0 < length (packet_from p.retain o)))
      (sym fits)
      (
        poll_loop-give (length (bytes ++ rest)) (bytes ++ rest) (message_of p) (length bytes)
            (omega (arith, length-append bytes rest))
            (scan_packet-packet p.retain p.topic p.payload body rest fits short),
        more,
      )

module _ (e : Socket) where
  open e use {World}

  pub polls : ℕ → Session World → List Polled
  polls zero m = []
  polls (suc n) m = (poll e m).0 ∷ polls n (poll e m).1

  module _ (quiet : (n : ℕ) (w : World) → (e.read n w).0 ≡ would_block) where
    fill-quiet :
        (m : Session World)
        → length m.rx < buf_max
        → ((fill e m).0 ≡ true) × (((fill e m).1).rx ≡ m.rx)
    unfolding fill filled
    fill-quiet m h =
        let P = λ (c : Bool × Session World). (c.0 ≡ true) × ((c.1).rx ≡ m.rx) in
        let w = (e.read (buf_max - length m.rx) m.world).1 in
        if_split P (leb buf_max (length m.rx)) (λ full. absurd (ground arith))
          λ room.
            subst (λ (g : Got). P (filled e g (record m { world = w })))
              (sym (quiet (buf_max - length m.rx) m.world)) (refl, refl)

    -- A poll of what is left in the buffer.
    poll-quiet :
        (xs : List ℕ) (m : Session World)
        → (dropped e m).rx ≡ xs
        → length xs < buf_max
        → let s = poll_loop (length xs) xs in
          ((poll e m).0 ≡ polled s.found)
          × (((poll e m).1).rx ≡ s.rx)
          × (((poll e m).1).pending ≡ s.pending)
    unfolding poll
    poll-quiet xs m h k =
        let (ok, kept) = fill-quiet (dropped e m) (omega (arith, ap length h)) in
        let same = kept ∙ h in
        let s = λ (ys : List ℕ). poll_loop (length ys) ys in
        let P = λ (c : Polled × Session World).
          (c.0 ≡ polled (s xs).found) × ((c.1).rx ≡ (s xs).rx) × ((c.1).pending ≡ (s xs).pending) in
        if_split P (not (fill e (dropped e m)).0) (λ bad. absurd (ground (arith, ok)))
          λ good. (
            ap (λ (ys : List ℕ). polled (s ys).found) same,
            ap (λ (ys : List ℕ). (s ys).rx) same,
            ap (λ (ys : List ℕ). (s ys).pending) same,
          )

    dropped-rx :
        (m : Session World) (xs rest : List ℕ)
        → m.rx ≡ xs ++ rest
        → m.pending ≡ length xs
        → 0 < length xs
        → (dropped e m).rx ≡ rest
    unfolding dropped
    dropped-rx m xs rest h k l =
        if_split (λ (c : Session World). c.rx ≡ rest) (ltb 0 m.pending)
          (λ some_. ap₂ consume k h ∙ consume-append xs rest) (λ none_. absurd (ground arith))

    -- On a socket that has nothing more, the publications that stand in the buffer are handed over
    -- in their order, each with its topic and its payload, and nothing after them.
    pub polls-stream :
        (ps : List Publication) (m : Session World)
        → All IsSendable ps
        → (dropped e m).rx ≡ stream ps
        → length (stream ps) < buf_max
        → polls (suc (length ps)) m ≡ map (λ p. message (message_of p)) ps ++ nothing ∷ []
    unfolding polls polled poll_loop
    polls-stream [] m h s k = ap (λ (r : Polled). r ∷ []) (poll-quiet [] m s k).0
    polls-stream (p ∷ ps) m h s k =
        let (first, rx, pending) = poll-quiet (stream (p ∷ ps)) m s k in
        let (loop, more) = poll_loop-publication p (stream ps) h.0 in
        let next =
          dropped-rx (poll e m).1 (packet_of p) (stream ps) (rx ∙ ap (λ (t : Scanned). t.rx) loop)
            (pending ∙ ap (λ (t : Scanned). t.pending) loop) more in
        ap₂ (λ (r : Polled) (rs : List Polled). r ∷ rs)
          (first ∙ ap (λ (t : Scanned). polled t.found) loop)
          (polls-stream ps (poll e m).1 h.1 next
            (omega (arith, length-append (packet_of p) (stream ps))))
