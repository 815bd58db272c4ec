-- ===== src/Broker/Boot/Examples.antt =====
-- A broker on an engine whose first pipe holds one request.
use telegraph_stm_fw.Base.{
  ℕ, ◌+◌, ◌≤◌, ◌≡◌, ◌≢◌, refl, List, [], ◌∷◌, ◌++◌, length, Option, none, some, false, ◌==◌,
  if◌then◌else◌, arith,
}
use telegraph_stm_fw.Ipc.Wire.{Frame}
use telegraph_stm_fw.Ipc.Encode.{frame_bytes}
use telegraph_stm_fw.Server.Link.{ipc_op_nack}
use telegraph_stm_fw.Server.Settings.{err_failed}
use telegraph_stm_fw.Broker.Engine.{Engine, took}
use telegraph_stm_fw.Broker.State.{Broker}
use telegraph_stm_fw.Broker.Requests.{on_peer_frame, on_link_frame}
use telegraph_stm_fw.Broker.Requests.Balance.{answers, requests, open_request}
use telegraph_stm_fw.Broker.Requests.Sound.{IsSound}
use telegraph_stm_fw.Broker.Requests.Relay.{IsOnLine, IsRequest, relay}
use telegraph_stm_fw.Broker.Loop.{turns, elapsed}
use telegraph_stm_fw.Broker.Loop.Waiting.{silent, request_given_up}
use telegraph_stm_fw.Broker.Boot.{
  boot, before_main, add_peers, add_peer, port_of, opened_line, before_colon, after_colon,
  spec_pushes,
}
use telegraph_stm_fw.Broker.Boot.Runs.{turns-IsSound, turns-answered}

-- The clock, what the pipe of requests holds, and what was written.
record Host : Type 0 where
  clock : ℕ
  inbox : List ℕ
  outbox : List ℕ

abbrev host_read : ℕ → Host → List ℕ × Host
host_read fd w = if fd == 3 then (w.inbox, record w { inbox = [] }) else ([], w)

abbrev host : Engine
host = record {
  World = Host;
  write = λ fd bytes w. (took (length bytes), record w { outbox = w.outbox ++ bytes });
  read = λ fd n w. host_read fd w;
  open_read = λ path w. (some 3, w);
  open_write = λ path w. (some 4, w);
  open_both = λ path w. (some 1, w);
  close = λ fd w. w;
  print = λ note w. w;
  nap = λ us w. record w { clock = w.clock + 10 };
  now = λ w. w.clock;
  print_u = λ n. n ∷ [];
  strtoul = λ text. length text;
}

abbrev ping : Frame
ping = record { opcode = 0x01; corr_id = 7; payload = []; payload_len = 0 }

abbrev morning : Host
morning = record { clock = 1000; inbox = frame_bytes 0x01 7 [] 0; outbox = [] }

abbrev first_state : Option (Broker Host) → Broker Host
first_state none = before_main host morning
first_state (some b) = b

abbrev start : Broker Host
start = first_state (boot host none [] morning)

started : boot host none [] morning ≡ some start
unfolding boot add_peers add_peer port_of opened_line before_colon after_colon spec_pushes
started = refl

turns-answered_example :
    answers 0 7 (turns host 2 start).given + open_request 0 7 (turns host 2 start).inflight
    ≡ requests 0 7 (turns host 2 start).asked
turns-answered_example = turns-answered host none [] morning start 2 0 7 started (omega arith)

turns-IsSound_example : IsSound (turns host 2 start)
turns-IsSound_example = turns-IsSound host none [] morning start 2 started

ping-IsRequest : IsRequest ping
ping-IsRequest = record { not_raw = refl; not_data = refl; whole = refl; fits = omega arith }

-- The state before main, whose line is free.
abbrev calm : Broker Host
calm = before_main host morning

abbrev pong : Frame
pong = record { opcode = 0xf0; corr_id = 1; payload = 31 ∷ []; payload_len = 1 }

abbrev later : Host → Host
later w = record w { clock = w.clock + 300 }

later-late : (w : Host) → 200 ≤ elapsed (later w).clock w.clock
later-late w = omega arith

request_given_up_example :
    let c =
      silent host later (silent host later (silent host later (on_peer_frame host 0 ping calm))) in
    (c.inflight.busy ≡ false)
    × (c.given
        ≡ record { peer = 0; opcode = ipc_op_nack; corr_id = 7; payload = err_failed ∷ [] }
          ∷ calm.given)
request_given_up_example = request_given_up host later later-late 0 ping calm ping-IsRequest refl

relay_example :
    let sent = on_peer_frame host 0 ping calm in
    let c = on_link_frame host pong sent in
    (sent.inflight.frame ≡ frame_bytes 0x01 1 [] 0)
    × IsOnLine host calm.uart sent.inflight.frame calm.world sent.world
    × (pong.corr_id ≡ calm.next_id
        → (c.inflight.busy ≡ false)
          × (c.given
              ≡ record { peer = 0; opcode = 0xf0; corr_id = 7; payload = 31 ∷ [] } ∷ calm.given))
    × (pong.corr_id ≢ calm.next_id → (c.inflight ≡ sent.inflight) × (c.given ≡ calm.given))
relay_example = relay host 0 ping pong calm ping-IsRequest refl (omega arith) (omega arith)
