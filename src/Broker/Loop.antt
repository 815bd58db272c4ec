-- ===== src/Broker/Loop.antt =====
-- The loop of broker.c.
pub mod Keeps
pub mod Account
pub mod Sound
pub mod Waiting
use telegraph_stm_fw.Base.{
  ℕ, zero, suc, ◌+◌, ◌-◌, ◌%◌, ◌^◌, List, [], ◌∷◌, ◌++◌, Option, none, some, Bool, true, false,
  length, take, ltb, leb, ◌==◌, if◌then◌else◌, not, ◌||◌, u8,
}
use telegraph_stm_fw.Ipc.Parser.{
  Call, Taken, parser_init, parser_push, parser_pending, parser_timeout,
}
use telegraph_stm_fw.Server.Link.{corr_id_push}
use telegraph_stm_fw.Server.Settings.{err_failed}
use telegraph_stm_fw.Broker.Engine.{
  Engine, no_reply, not_fit, no_name, serves, slash, uart_dir, data_node,
}
use telegraph_stm_fw.Broker.State.{Peer, Broker, peer_at, to_peer, nack_peer}
use telegraph_stm_fw.Broker.Requests.{
  in_raw, op_raw_data, send_inflight, on_link_frame, on_peer_frame,
}

-- REPLY_TIMEOUT_MS, REPLY_TRIES, PARSER_IDLE_MS, IDLE_SLEEP_US, READ_CHUNK
abbrev pub reply_timeout_ms : ℕ
reply_timeout_ms = 200

abbrev pub reply_tries : ℕ
reply_tries = 3

abbrev pub parser_idle_ms : ℕ
parser_idle_ms = 20

abbrev pub idle_sleep_us : ℕ
idle_sleep_us = 10000

abbrev pub read_chunk : ℕ
read_chunk = 256

-- TG_BRK_PIPE_REQ and TG_BRK_PIPE_RSP of a name.
abbrev pub pipe_prefix : List ℕ
pipe_prefix =
    slash ∷ b'd' ∷ b'e' ∷ b'v' ∷ slash ∷ b'p' ∷ b'i' ∷ b'p' ∷ b'e' ∷ slash ∷ b't' ∷ b'g' ∷ b'-' ∷ []

abbrev pub pipe_req : List ℕ → List ℕ
pipe_req name = pipe_prefix ++ name ++ b'-' ∷ b'r' ∷ b'e' ∷ b'q' ∷ []

abbrev pub pipe_rsp : List ℕ → List ℕ
pipe_rsp name = pipe_prefix ++ name ++ b'-' ∷ b'r' ∷ b's' ∷ b'p' ∷ []

-- The uint64_t difference of two times.
abbrev pub elapsed : ℕ → ℕ → ℕ
elapsed now then_ = (now + 2 ^ 64 - then_) % 2 ^ 64

abbrev pub set_peer : List Peer → ℕ → Peer → List Peer
set_peer [] i p = []
set_peer (q ∷ qs) zero p = p ∷ qs
set_peer (q ∷ qs) (suc i) p = q ∷ set_peer qs i p

module _ (e : Engine) where
  open e use {World}

  -- open_pipes, on a peer and the world.
  pub reopened : Option ℕ → (World → Option ℕ × World) → World → Option ℕ × World
  reopened none try w = try w
  reopened (some fd) try w = (some fd, w)

  pub open_pipes : Peer → World → Peer × World
  open_pipes p w =
      let req = reopened p.req_fd (e.open_read (pipe_req p.name)) w in
      let rsp = reopened p.rsp_fd (e.open_write (pipe_rsp p.name)) req.1 in
      (record p { req_fd = req.0; rsp_fd = rsp.0 }, rsp.1)

  -- The calls of the parser of the link, and of a peer's.
  pub link_calls : List Call → Broker World → Broker World
  link_calls [] b = b
  link_calls (c ∷ cs) b = link_calls cs (on_link_frame e c.frame b)

  pub peer_calls : ℕ → List Call → Broker World → Broker World
  peer_calls i [] b = b
  peer_calls i (c ∷ cs) b = peer_calls i cs (on_peer_frame e i c.frame b)

  pub link_taken : Taken → Broker World → Broker World
  link_taken t b = link_calls t.calls (record b { link = t.parser })

  -- pump_link, with the bytes of its read.
  pub link_read : List ℕ → Option ℕ → Broker World → Broker World
  link_read bytes (some holder) b = to_peer e holder op_raw_data corr_id_push bytes b
  link_read bytes none b = link_taken (parser_push b.link (some bytes) (length bytes)) b

  pub pump_link : Broker World → Bool × Broker World
  pump_link b =
      let got = e.read b.uart read_chunk b.world in
      let b' = record b { world = got.1 } in
      if length got.0 == 0
      then (false, b')
      else (true, link_read got.0 b'.raw (record b' { link_rx_ms = e.now b'.world }))

  -- A round of pump_peers on peer `i`, whose pipes are opened, with the bytes of its read.
  pub peer_read : ℕ → List ℕ → Broker World → Broker World
  peer_read i bytes b =
      let p = peer_at b.peers i in
      let t = parser_push p.parser (some bytes) (length bytes) in
      peer_calls i t.calls
        (record b { peers = set_peer b.peers i (record p { parser = t.parser }) })

  pub pump_fd : ℕ → Option ℕ → Broker World → Bool × Broker World
  pump_fd i none b = (false, b)
  pump_fd i (some fd) b =
      let got = e.read fd read_chunk b.world in
      let b' = record b { world = got.1 } in
      if length got.0 == 0 then (false, b') else (true, peer_read i got.0 b')

  pub pump_peer : ℕ → Broker World → Bool × Broker World
  pump_peer i b =
      let opened = open_pipes (peer_at b.peers i) b.world in
      pump_fd i (opened.0).req_fd
        (record b { peers = set_peer b.peers i opened.0; world = opened.1 })

  -- The loop of pump_peers over `n` peers from number `i`.
  pub peers_loop : ℕ → ℕ → Bool → Broker World → Bool × Broker World
  peers_loop zero i worked b = (worked, b)
  peers_loop (suc n) i worked b =
      let turn = pump_peer i b in peers_loop n (i + 1) (worked || turn.0) turn.1

  pub pump_peers : Broker World → Bool × Broker World
  pump_peers b = if b.inflight.busy then (false, b) else peers_loop (length b.peers) 0 false b

  -- check_timeout
  pub check_timeout : Broker World → Broker World
  check_timeout b =
      let failed_ =
        nack_peer e b.inflight.peer b.inflight.peer_id err_failed
          (record b { world = e.print (no_reply b.inflight.link_id) b.world }) in
      if not b.inflight.busy || ltb (elapsed (e.now b.world) b.inflight.sent_ms) reply_timeout_ms
      then b
      else if leb reply_tries b.inflight.tries
      then record failed_ { inflight = record failed_.inflight { busy = false } }
      else send_inflight e b

  -- check_idle
  pub check_idle : Broker World → Broker World
  check_idle b =
      if in_raw b.raw || not (parser_pending (some b.link))
      then b
      else if leb parser_idle_ms (elapsed (e.now b.world) b.link_rx_ms)
      then link_taken (parser_timeout b.link) b
      else b

  -- One round of the loop of main.
  pub turn : Broker World → Broker World
  turn b =
      let linked = pump_link b in
      let served = pump_peers linked.1 in
      let checked = check_idle (check_timeout served.1) in
      if not (linked.0 || served.0)
      then record checked { world = e.nap idle_sleep_us checked.world }
      else checked

  -- The state after a number of rounds.
  pub turns : ℕ → Broker World → Broker World
  turns zero b = b
  turns (suc n) b = turns n (turn b)
