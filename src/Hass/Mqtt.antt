-- ===== src/Hass/Mqtt.antt =====
-- wapps/tg-hass/mqtt.c: the packets of MQTT that the bridge sends and reads.
pub mod Varint
pub mod Publish
use telegraph_stm_fw.Base.{
  ℕ, zero, suc, ◌+◌, ◌-◌, ◌*◌, ◌/◌, ◌%◌, List, [], ◌∷◌, ◌++◌, Option, none, some, Bool, true, false,
  length, take, drop, ltb, leb, ◌==◌, ◌!=◌, if◌then◌else◌, not, ◌&&◌, ◌||◌, bit_and, bit_or, u8,
  ◌<<<◌, ◌>>>◌, byte_at,
}

-- MQTT_BUF_MAX, MQTT_TOPIC_MAX
abbrev pub buf_max : ℕ
buf_max = 3072

abbrev pub topic_max : ℕ
topic_max = 160

-- The packet types.
abbrev pub type_connect : ℕ
type_connect = 0x10

abbrev pub type_connack : ℕ
type_connack = 0x20

abbrev pub type_publish : ℕ
type_publish = 0x30

abbrev pub type_subscribe : ℕ
type_subscribe = 0x82

abbrev pub type_suback : ℕ
type_suback = 0x90

abbrev pub type_pingreq : ℕ
type_pingreq = 0xc0

-- put_str
unfoldable pub put_str : List ℕ → List ℕ
put_str s = u8 (length s >>> 8) ∷ u8 (bit_and (length s) 0xff) ∷ s

-- put_varint, with fuel; each round divides the value.
unfoldable pub varint_loop : ℕ → ℕ → List ℕ
varint_loop zero value = []
varint_loop (suc fuel) value =
    let byte = u8 (value % 128) in
    let rest = varint_loop fuel (value / 128) in
    if ltb 0 (value / 128) then bit_or byte 0x80 ∷ rest else byte ∷ []

unfoldable pub put_varint : ℕ → List ℕ
put_varint value = varint_loop (suc value) value

-- The loop of get_varint over the bytes from index `i`, of which it reads `n` at most: the bytes
-- taken with the value, or nothing.
pub get_loop : ℕ → List ℕ → ℕ → ℕ → ℕ → Option (ℕ × ℕ)
get_loop zero bytes i v mult = none
get_loop (suc n) [] i v mult = none
get_loop (suc n) (b ∷ bytes) i v mult =
    let v' = v + bit_and b 0x7f * mult in
    let rest = get_loop n bytes (i + 1) v' (mult * 128) in
    if bit_and b 0x80 == 0 then some (i + 1, v') else rest

-- get_varint
unfoldable pub get_varint : List ℕ → Option (ℕ × ℕ)
get_varint bytes = get_loop 4 bytes 0 0 1

-- The fixed header and the body of send_packet.
unfoldable pub packet_head : ℕ → ℕ → List ℕ
packet_head kind len = kind ∷ put_varint len

abbrev pub packet : ℕ → List ℕ → List ℕ
packet kind body = packet_head kind (length body) ++ body

-- The body of mqtt_publish, where it fits.
abbrev pub text_of : Option (List ℕ) → List ℕ
text_of none = []
text_of (some text) = text

unfoldable pub publish_body : List ℕ → Option (List ℕ) → Option (List ℕ)
publish_body topic payload =
    let body = put_str topic ++ text_of payload in
    if ltb buf_max (length body) then none else some body

unfoldable pub publish_type : Bool → ℕ
publish_type retain = u8 (bit_or type_publish (if retain then 0x01 else 0))

-- The body of mqtt_subscribe.
pub subscribe_body : ℕ → List ℕ → List ℕ
subscribe_body packet_id filter =
    u8 (packet_id >>> 8) ∷ u8 (bit_and packet_id 0xff) ∷ put_str filter ++ 0 ∷ []

-- Whether a string is there and not empty.
abbrev pub is_given : Option (List ℕ) → Bool
is_given none = false
is_given (some []) = false
is_given (some (c ∷ cs)) = true

-- The flags and the body of mqtt_connect.
pub connect_flags : Option (List ℕ) → Option (List ℕ) → Option (List ℕ) → ℕ
connect_flags user pass will_topic =
    bit_or (bit_or 0x02 (if is_given will_topic then bit_or 0x04 0x20 else 0)) (
      bit_or (if is_given user then 0x80 else 0)
        (if is_given user && is_given pass then 0x40 else 0))

pub connect_body :
    List ℕ → Option (List ℕ) → Option (List ℕ) → Option (List ℕ) → Option (List ℕ) → ℕ → List ℕ
connect_body client_id user pass will_topic will_payload keepalive_s =
    put_str (b'M' ∷ b'Q' ∷ b'T' ∷ b'T' ∷ [])
    ++ 4
      ∷ connect_flags user pass will_topic
      ∷ u8 (keepalive_s >>> 8)
      ∷ u8 (bit_and keepalive_s 0xff)
      ∷ put_str client_id
    ++ (if is_given will_topic
        then put_str (text_of will_topic) ++ put_str (text_of will_payload)
        else [])
    ++ (if is_given user then put_str (text_of user) else [])
    ++ (if is_given user && is_given pass then put_str (text_of pass) else [])

-- A message of the broker.
pub record Message : Type 0 where
  pub topic : List ℕ
  pub payload : List ℕ

-- What the buffer of received bytes begins with: the head and the body of a whole packet.
pub whole_at : List ℕ → Option (ℕ × ℕ) → Option (ℕ × ℕ)
whole_at rx none = none
whole_at rx (some (hlen, rem)) = if ltb (length rx) (1 + hlen + rem) then none else some (hlen, rem)

pub whole_packet : List ℕ → Option (ℕ × ℕ)
whole_packet rx = if ltb (length rx) 2 then none else whole_at rx (get_varint (drop 1 rx))

-- consume
unfoldable pub consume : ℕ → List ℕ → List ℕ
consume n rx = if leb (length rx) n then [] else drop n rx

-- What a round of the loop of mqtt_poll does with a packet: it waits for more, it drops the packet
-- of that many bytes and goes on, or it hands its message over.
pub data Scan : Type 0 where
  partial : Scan
  skip : ℕ → Scan
  give : Message → ℕ → Scan

-- The message of a body, from the end of its topic on.
pub scan_message : ℕ → ℕ → List ℕ → ℕ → ℕ → Scan
scan_message tlen off body rem total =
    if leb topic_max tlen || ltb rem off
    then skip total
    else give
        (record { topic = take tlen (drop 2 body); payload = take (rem - off) (drop off body) })
        total

pub scan_packet : List ℕ → Option (ℕ × ℕ) → Scan
scan_packet rx none = partial
scan_packet rx (some (hlen, rem)) =
    let qos = bit_and (byte_at rx 0 >>> 1) 0x03 in
    let body = drop (1 + hlen) rx in
    let total = 1 + hlen + rem in
    let tlen = bit_or (byte_at body 0 <<< 8) (byte_at body 1) in
    if bit_and (byte_at rx 0) 0xf0 != type_publish || ltb rem 2
    then skip total
    else scan_message tlen (if ltb 0 qos then 2 + tlen + 2 else 2 + tlen) body rem total
