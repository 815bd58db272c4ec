-- ===== src/Hass/Mqtt/Publish.antt =====
-- A message that is published is what the poll of the other end hands over.
use Prim.Native.Nat.{bit_or-bitwise}
use mathlib.Core.Option.{some-injective}
use telegraph_stm_fw.Base.{
  if◌then◌else◌, ◌!=◌, byte_at, ℕ, suc, ◌+◌, ◌-◌, ◌^◌, ◌≤◌, ◌<◌, ◌≡◌, refl, subst, ltb→le, ap, List,
  [], ◌∷◌, ◌++◌, append_assoc, Option, none, some, Bool, true, false, length, length-append,
  length-drop, drop, take-append_length, drop-append_length, ltb, leb, ◌||◌, if_split, bit_and,
  bit_or, u8, ◌<<<◌, ◌>>>◌, arith,
}
use telegraph_stm_fw.Base.Bits.{bit_and_low}
use telegraph_stm_fw.Hass.Mqtt.{
  packet, packet_head, put_str, put_varint, varint_loop, publish_body, publish_type, topic_max,
  whole_at, whole_packet, consume, give, skip, partial, type_publish, Scan, scan_packet,
  scan_message, buf_max,
}
use telegraph_stm_fw.Hass.Mqtt.Varint.{get_varint-put_varint}

put_varint-some : (value : ℕ) → 0 < length (put_varint value)
unfolding put_varint varint_loop
put_varint-some value = ground arith

-- The front of a buffer that holds a packet.
packet-split :
    (kind : ℕ) (body rest : List ℕ)
    → packet kind body ++ rest ≡ kind ∷ (put_varint (length body) ++ (body ++ rest))
unfolding packet_head
packet-split kind body rest =
    ap (λ (t : List ℕ). kind ∷ t) (append_assoc (put_varint (length body)) body rest)

whole_packet-found :
    (kind : ℕ) (body rest : List ℕ)
    → length body < 128 ^ 4
    → whole_packet (kind ∷ (put_varint (length body) ++ (body ++ rest)))
      ≡ some (length (put_varint (length body)), length body)
unfolding whole_packet whole_at
whole_packet-found kind body rest h =
    let size = put_varint (length body) in
    let read = get_varint-put_varint (length body) (body ++ rest) h in
    let total = length-append size (body ++ rest) in
    let parts = length-append body rest in
    let more = put_varint-some (length body) in
    let enough : ltb (length (kind ∷ (size ++ (body ++ rest)))) 2 ≡ false = ground arith in
    let all : ltb (length (kind ∷ (size ++ (body ++ rest)))) (1 + length size + length body)
        ≡ false =
      ground arith in
    rw (enough, read, all)

drop-head :
    (kind : ℕ) (size bytes : List ℕ) → drop (1 + length size) (kind ∷ (size ++ bytes)) ≡ bytes
drop-head kind size bytes =
    let next : 1 + length size ≡ suc (length size) = omega arith in
    rw next (drop-append_length size bytes)

zero-bit_or : (n : ℕ) → bit_or 0 n ≡ n
zero-bit_or n = simp bit_or-bitwise refl

-- The length of a short topic, from its two bytes.
topic_length : (n : ℕ) → n < topic_max → bit_or (u8 (n >>> 8) <<< 8) (u8 (bit_and n 0xff)) ≡ n
topic_length n h =
    let high : u8 (n >>> 8) ≡ 0 = omega arith in
    let low : u8 (bit_and n 0xff) ≡ n = omega (arith, bit_and_low 8 n) in
    rw (high, low) (zero-bit_or n)

scan_message-publication :
    (topic payload rest : List ℕ) (hi lo total : ℕ)
    → length topic < topic_max
    → scan_message
        (length topic)
        (2 + length topic)
        (hi ∷ lo ∷ (topic ++ payload) ++ rest)
        (suc (suc (length (topic ++ payload))))
        total
      ≡ give (record { topic = topic; payload = payload }) total
unfolding scan_message
scan_message-publication topic payload rest hi lo total h =
    let both_ = length-append topic payload in
    let fits : (leb topic_max (length topic)
          || ltb (suc (suc (length (topic ++ payload)))) (2 + length topic))
        ≡ false =
      ground arith in
    let off : 2 + length topic ≡ suc (suc (length topic)) = omega arith in
    let left : suc (suc (length (topic ++ payload))) - suc (suc (length topic)) ≡ length payload =
      omega (arith, both_) in
    rw (
      fits,
      off,
      left,
      append_assoc topic payload rest,
      take-append_length topic (payload ++ rest),
      drop-append_length topic (payload ++ rest),
      take-append_length payload rest,
    )

-- The scan of a publication whose topic is short.
scan_packet-publication :
    (retain : Bool) (topic payload rest size : List ℕ)
    → length topic < topic_max
    → scan_packet
        (publish_type retain ∷ (size ++ ((put_str topic ++ payload) ++ rest)))
        (some (length size, length (put_str topic ++ payload)))
      ≡ give
          (record { topic = topic; payload = payload })
          (1 + length size + length (put_str topic ++ payload))
unfolding scan_packet put_str publish_type
scan_packet-publication true topic payload rest size h =
    let long : ltb (suc (suc (length (topic ++ payload)))) 2 ≡ false = ground arith in
    let hi = u8 (length topic >>> 8) in
    let lo = u8 (bit_and (length topic) 0xff) in
    rw
      (
        long,
        drop-head 49 size (hi ∷ lo ∷ (topic ++ payload) ++ rest),
        topic_length (length topic) h,
      )
      (scan_message-publication topic payload rest hi lo _ h)
scan_packet-publication false topic payload rest size h =
    let long : ltb (suc (suc (length (topic ++ payload)))) 2 ≡ false = ground arith in
    let hi = u8 (length topic >>> 8) in
    let lo = u8 (bit_and (length topic) 0xff) in
    rw
      (
        long,
        drop-head 48 size (hi ∷ lo ∷ (topic ++ payload) ++ rest),
        topic_length (length topic) h,
      )
      (scan_message-publication topic payload rest hi lo _ h)

pub consume-append : (xs rest : List ℕ) → consume (length xs) (xs ++ rest) ≡ rest
unfolding consume
consume-append xs rest =
    let parts = length-append xs rest in
    if_split (λ (c : List ℕ). c ≡ rest) (leb (length (xs ++ rest)) (length xs))
      (λ all. none_left rest (ground arith)) (λ some_left. drop-append_length xs rest)
  where
    none_left : (ys : List ℕ) → length ys ≡ 0 → [] ≡ ys
    none_left [] h = refl
    none_left (y ∷ ys) h = absurd (omega arith)

pub publish_body-eq :
    (topic payload body : List ℕ)
    → publish_body topic (some payload) ≡ some body
    → (put_str topic ++ payload ≡ body) × (length body ≤ buf_max)
unfolding publish_body
publish_body-eq topic payload body =
    let P = λ (o : Option (List ℕ)).
      o ≡ some body → (put_str topic ++ payload ≡ body) × (length body ≤ buf_max) in
    if_split P (ltb buf_max (length (put_str topic ++ payload))) (λ long h. cc)
      λ fits h.
        let same = some-injective _ _ h in (same, omega (arith, ap length same, ltb→le _ _ fits))

-- The packet that this client publishes, at the front of a buffer, is scanned as its topic and its
-- payload, and as exactly its bytes.
pub scan_packet-packet :
    (retain : Bool) (topic payload body rest : List ℕ)
    → publish_body topic (some payload) ≡ some body
    → length topic < topic_max
    → let rx = packet (publish_type retain) body ++ rest in
      scan_packet rx (whole_packet rx)
      ≡ give
          (record { topic = topic; payload = payload })
          (length (packet (publish_type retain) body))
unfolding packet_head
scan_packet-packet retain topic payload body rest h k =
    let (same, fits) = publish_body-eq topic payload body h in
    let kind = publish_type retain in
    let size = put_varint (length body) in
    let total : 1 + length size + length body ≡ suc (length (size ++ body)) =
      omega (arith, length-append size body) in
    let scanned =
      subst
        (λ (t : List ℕ).
          scan_packet (kind ∷ (size ++ (t ++ rest))) (some (length size, length t))
          ≡ give (record { topic = topic; payload = payload }) (1 + length size + length t))
        same (scan_packet-publication retain topic payload rest size k) in
    rw (append_assoc size body rest, whole_packet-found kind body rest (omega arith), ← total)
      scanned

scan_message-total :
    (tlen off : ℕ) (body : List ℕ) (rem total n : ℕ)
    → scan_message tlen off body rem total ≡ skip n
    → n ≡ total
unfolding scan_message
scan_message-total tlen off body rem total n h = ground arith

scan_packet-total :
    (rx : List ℕ) (hlen rem n : ℕ) → scan_packet rx (some (hlen, rem)) ≡ skip n → n ≡ 1 + hlen + rem
unfolding scan_packet
scan_packet-total rx hlen rem n =
    let body = drop (1 + hlen) rx in
    let tlen = bit_or (byte_at body 0 <<< 8) (byte_at body 1) in
    let off = if ltb 0 (bit_and (byte_at rx 0 >>> 1) 0x03) then 2 + tlen + 2 else 2 + tlen in
    if_split (λ (s : Scan). s ≡ skip n → n ≡ 1 + hlen + rem)
      (bit_and (byte_at rx 0) 0xf0 != type_publish || ltb rem 2) (λ other h. cc)
      (λ publication. scan_message-total tlen off body rem (1 + hlen + rem) n)

-- A packet that is skipped stands whole in the buffer and has a byte or more.
skip-some :
    (rx : List ℕ) (o : Option (ℕ × ℕ)) (n : ℕ)
    → whole_packet rx ≡ o
    → scan_packet rx o ≡ skip n
    → (0 < n) × (0 < length rx)
unfolding scan_packet whole_packet
skip-some rx none n w h = cc
skip-some rx (some (hlen, rem)) n w h =
    (omega (arith, scan_packet-total rx hlen rem n h), ground arith)

pub length-consume_skip :
    (rx : List ℕ) (n : ℕ)
    → scan_packet rx (whole_packet rx) ≡ skip n
    → length (consume n rx) < length rx
unfolding consume
length-consume_skip rx n h =
    let (some_, more) = skip-some rx (whole_packet rx) n refl h in
    if_split (λ (c : List ℕ). length c < length rx) (leb (length rx) n) (λ all. more)
      (λ part. omega (arith, length-drop n rx))

pub no_packet : (rx : List ℕ) → length rx ≡ 0 → scan_packet rx (whole_packet rx) ≡ partial
unfolding whole_packet scan_packet
no_packet [] h = refl
no_packet (b ∷ bytes) h = absurd (omega arith)
