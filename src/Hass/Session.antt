-- ===== src/Hass/Session.antt =====
-- wapps/tg-hass/mqtt.c: the session of MQTT over a socket.
pub mod Delivery
pub mod Ends
pub mod Polls
mod Examples
use telegraph_stm_fw.Base.{
  ℕ, zero, suc, ◌+◌, ◌-◌, ◌*◌, ◌/◌, List, [], ◌∷◌, ◌++◌, Option, none, some, Bool, true, false,
  length, drop, ltb, leb, ◌==◌, if◌then◌else◌, not, bit_and, byte_at, u16,
}
use telegraph_stm_fw.Hass.Mqtt.{
  buf_max, type_connect, type_connack, type_subscribe, type_suback, type_pingreq, packet_head,
  publish_body, publish_type, subscribe_body, connect_body, Message, whole_packet, consume, Scan,
  partial, skip, give, scan_packet,
}

-- What a read of a socket gives: bytes, of which none is the end of the session, EAGAIN or
-- EWOULDBLOCK, or another error.
pub data Got : Type 0 where
  got : List ℕ → Got
  would_block failed : Got

-- The socket and the clock of the engine. A write gives its count, or none for an error.
pub record Socket : Type 1 where
  pub World : Type 0
  pub write : List ℕ → World → Option ℕ × World
  pub read : ℕ → World → Got × World
  pub now : World → ℕ
  pub nap : World → World

-- struct mqtt_s without the descriptor; `rx_len` is the length of `rx`.
pub record Session (World : Type 0) : Type 0 where
  pub world : World
  pub packet_id : ℕ
  pub last_sent_ms : ℕ
  pub keepalive_s : ℕ
  pub rx : List ℕ
  pub pending : ℕ

-- What mqtt_poll answers: -1, 0, or 1 with the message.
pub data Polled : Type 0 where
  over nothing : Polled
  message : Message → Polled

-- The loop of mqtt_poll, with fuel: each round but the last drops a packet. What it leaves of the
-- buffer, the packet to be dropped, and the message.
pub record Scanned : Type 0 where
  pub rx : List ℕ
  pub pending : ℕ
  pub found : Option Message

pub poll_loop : ℕ → List ℕ → Scanned
poll_loop zero rx = record { rx = rx; pending = 0; found = none }
poll_loop (suc fuel) rx = elim (scan_packet rx (whole_packet rx)) as (λ _. Scanned) [
  | partial ↦ record { rx = rx; pending = 0; found = none }
  | skip n ↦ poll_loop fuel (consume n rx)
  | give m n ↦ record { rx = rx; pending = n; found = some m }
]

-- The inner loop of await_packet, with fuel: the buffer left, and whether a packet of the type came.
pub await_scan : ℕ → ℕ → List ℕ → List ℕ × Bool
await_scan zero want rx = (rx, false)
await_scan (suc fuel) want rx = elim (whole_packet rx) as (λ _. List ℕ × Bool) [
  | none ↦ (rx, false)
  | some sizes ↦
      let rx' = consume (1 + sizes.0 + sizes.1) rx in
      let rest = await_scan fuel want rx' in
      if bit_and (byte_at rx 0) 0xf0 == bit_and want 0xf0 then (rx', true) else rest
]

pub polled : Option Message → Polled
polled none = nothing
polled (some m) = message m

module _ (e : Socket) where
  open e use {World}

  -- write_all, with fuel: each round but a failed one writes a byte or more.
  pub write_loop : ℕ → List ℕ → World → Bool × World
  write_loop zero bytes w = (true, w)
  write_loop (suc fuel) bytes w =
      let wrote = e.write bytes w in
      let next = elim wrote.0 as (λ _. Bool × World) [
        | none ↦ (false, wrote.1)
        | some n ↦ if n == 0 then (false, wrote.1) else write_loop fuel (drop n bytes) wrote.1
      ] in
      if length bytes == 0 then (true, w) else next

  pub write_all : List ℕ → World → Bool × World
  write_all bytes = write_loop (length bytes) bytes

  -- send_packet; true is its result 0.
  pub send_packet : ℕ → List ℕ → Session World → Bool × Session World
  send_packet kind body m =
      let head = write_all (packet_head kind (length body)) m.world in
      let whole = write_all body head.1 in
      if not head.0
      then (false, record m { world = head.1 })
      else if ltb 0 (length body)
      then (if not whole.0
          then (false, record m { world = whole.1 })
          else (true, record m { world = whole.1; last_sent_ms = e.now whole.1 }))
      else (true, record m { world = head.1; last_sent_ms = e.now head.1 })

  -- fill; true is a result that is not -1.
  pub filled : Got → Session World → Bool × Session World
  filled (got bytes) m =
      if length bytes == 0 then (false, m) else (true, record m { rx = m.rx ++ bytes })
  filled would_block m = (true, m)
  filled failed m = (false, m)

  pub fill : Session World → Bool × Session World
  fill m =
      let read = e.read (buf_max - length m.rx) m.world in
      if leb buf_max (length m.rx) then (false, m) else filled read.0 (record m { world = read.1 })

  -- The outer loop of await_packet up to its deadline, with fuel; `none` is a lack of it.
  pub await_loop : ℕ → ℕ → ℕ → Session World → Option (Bool × Session World)
  await_loop zero want deadline m = none
  await_loop (suc fuel) want deadline m =
      let got = fill m in
      let scanned = await_scan (length (got.1).rx) want (got.1).rx in
      let m' = record got.1 { rx = scanned.0 } in
      let rest = await_loop fuel want deadline (record m' { world = e.nap m'.world }) in
      if ltb (e.now m.world) deadline
      then (if not got.0 then some (false, got.1) else if scanned.1 then some (true, m') else rest)
      else some (false, m)

  pub awaited : Session World → Option (Bool × Session World) → Bool × Session World
  awaited m none = (false, m)
  awaited m (some result) = result

  -- The rounds of a wait, which naps for 10 ms in each of them.
  pub await_rounds : ℕ → ℕ
  await_rounds wait_ms = wait_ms / 10 + 2

  -- await_packet; true is its result 0.
  pub await_packet : ℕ → ℕ → Session World → Bool × Session World
  await_packet want wait_ms m =
      awaited m (await_loop (await_rounds wait_ms) want (e.now m.world + wait_ms) m)

  pub then_await : ℕ → Bool × Session World → Bool × Session World
  then_await want sent = if not sent.0 then sent else await_packet want 5000 sent.1

  -- mqtt_connect; true is its result 0.
  pub connect :
      List ℕ
      → Option (List ℕ)
      → Option (List ℕ)
      → Option (List ℕ)
      → Option (List ℕ)
      → ℕ
      → Session World
      → Bool × Session World
  connect client_id user pass will_topic will_payload keepalive_s m = then_await type_connack (
      send_packet type_connect
        (connect_body client_id user pass will_topic will_payload keepalive_s)
        (record m { packet_id = 1; rx = []; pending = 0; keepalive_s = keepalive_s }))

  -- mqtt_publish
  pub published : Bool → Option (List ℕ) → Session World → Bool × Session World
  published retain none m = (false, m)
  published retain (some body) m = send_packet (publish_type retain) body m

  pub publish : List ℕ → Option (List ℕ) → Bool → Session World → Bool × Session World
  publish topic payload retain = published retain (publish_body topic payload)

  -- mqtt_subscribe
  pub subscribe : List ℕ → Session World → Bool × Session World
  subscribe filter m = then_await type_suback (
      send_packet type_subscribe (subscribe_body m.packet_id filter)
        (record m { packet_id = u16 (m.packet_id + 1) }))

  -- mqtt_poll
  pub dropped : Session World → Session World
  dropped m = if ltb 0 m.pending then record m { rx = consume m.pending m.rx; pending = 0 } else m

  pub poll : Session World → Polled × Session World
  poll m =
      let read = fill (dropped m) in
      let s = poll_loop (length (read.1).rx) (read.1).rx in
      if not read.0
      then (over, read.1)
      else (polled s.found, record read.1 { rx = s.rx; pending = s.pending })

  -- mqtt_keepalive
  pub keepalive : Session World → Bool × Session World
  keepalive m =
      let due = m.last_sent_ms + m.keepalive_s * 1000 / 2 in
      if m.keepalive_s == 0
      then (true, m)
      else if ltb (e.now m.world) due
      then (true, m)
      else send_packet type_pingreq [] m
