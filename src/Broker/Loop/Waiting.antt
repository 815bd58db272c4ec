-- ===== src/Broker/Loop/Waiting.antt =====
-- A request without a reply, over its waits.
use telegraph_stm_fw.Base.{
  ℕ, suc, ◌≤◌, ◌<◌, ◌≡◌, refl, List, [], ◌∷◌, false, if_split, not, ◌||◌, arith, ltb, leb,
}
use telegraph_stm_fw.Ipc.Wire.{Frame}
use telegraph_stm_fw.Server.Link.{ipc_op_nack}
use telegraph_stm_fw.Server.Settings.{err_failed}
use telegraph_stm_fw.Broker.Engine.{Engine}
use telegraph_stm_fw.Broker.State.{Given, Broker, to_peer, nack_peer}
use telegraph_stm_fw.Broker.Requests.{in_raw, send_inflight, on_peer_frame}
use telegraph_stm_fw.Broker.Requests.Relay.{IsRequest, IsWaiting, on_peer_frame-IsWaiting}
use telegraph_stm_fw.Broker.Loop.{check_timeout, elapsed, reply_timeout_ms, reply_tries}

module _ (e : Engine) where
  open e use {World}

  -- A silent wait, and the check for the timeout after it.
  abbrev pub silent : (World → World) → Broker World → Broker World
  silent wait b = check_timeout e (record b { world = wait b.world })

  module _ (wait : World → World)
      (late : (w : World) → reply_timeout_ms ≤ elapsed (e.now (wait w)) (e.now w)) where
    silent-IsWaiting :
        (b : Broker World) (i id link_id k : ℕ) (given : List Given)
        → k < 3
        → IsWaiting e.now b i id link_id k given
        → IsWaiting e.now (silent wait b) i id link_id (suc k) given
    unfolding check_timeout send_inflight
    silent-IsWaiting b i id link_id k given h s =
        let passed = late b.world in
        let P = λ (c : Broker World). IsWaiting e.now c i id link_id (suc k) given in
        if_split P
          (not b.inflight.busy
            || ltb (elapsed (e.now (wait b.world)) b.inflight.sent_ms) reply_timeout_ms)
          (λ early. absurd (ground arith))
          λ timed_out.
            if_split P (leb reply_tries b.inflight.tries) (λ over. absurd (ground arith))
              (λ again. record {
                busy = s.busy;
                just_sent = refl;
                tried = omega (arith, s.tried);
                peer = s.peer;
                number = s.number;
                on_link = s.on_link;
                before = s.before;
              })

    silent-ends :
        (b : Broker World) (i id link_id : ℕ) (given : List Given)
        → IsWaiting e.now b i id link_id 3 given
        → ((silent wait b).inflight.busy ≡ false)
          × ((silent wait b).given
              ≡ record { peer = i; opcode = ipc_op_nack; corr_id = id; payload = err_failed ∷ [] }
                ∷ given)
    unfolding check_timeout nack_peer to_peer
    silent-ends b i id link_id given s =
        let passed = late b.world in
        let P = λ (c : Broker World).
          (c.inflight.busy ≡ false)
          × (c.given
              ≡ record { peer = i; opcode = ipc_op_nack; corr_id = id; payload = err_failed ∷ [] }
                ∷ given) in
        if_split P
          (not b.inflight.busy
            || ltb (elapsed (e.now (wait b.world)) b.inflight.sent_ms) reply_timeout_ms)
          (λ early. absurd (ground arith))
          λ timed_out.
            if_split P (leb reply_tries b.inflight.tries) (λ over. (refl, ground arith))
              (λ again. absurd (ground arith))

    -- Where no reply comes, a request that the broker takes is refused to its peer after the third
    -- wait, and the line is free again.
    pub request_given_up :
        (i : ℕ) (f : Frame) (b : Broker World)
        → IsRequest f
        → (in_raw b.raw || b.inflight.busy) ≡ false
        → let c = silent wait (silent wait (silent wait (on_peer_frame e i f b))) in
          (c.inflight.busy ≡ false)
          × (c.given
              ≡ record {
                peer = i;
                opcode = ipc_op_nack;
                corr_id = f.corr_id;
                payload = err_failed ∷ [];
              }
                ∷ b.given)
    request_given_up i f b q free =
        let b1 = on_peer_frame e i f b in
        let w1 = (on_peer_frame-IsWaiting e i f b q free).0 in
        let w2 = silent-IsWaiting b1 i f.corr_id b.next_id 1 b.given (omega arith) w1 in
        let w3 =
          silent-IsWaiting (silent wait b1) i f.corr_id b.next_id 2 b.given (omega arith) w2 in
        silent-ends (silent wait (silent wait b1)) i f.corr_id b.next_id b.given w3
