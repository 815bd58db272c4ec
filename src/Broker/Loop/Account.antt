-- ===== src/Broker/Loop/Account.antt =====
-- Over any run of the broker, each request of a peer has one answer, or is the one in flight.
use telegraph_stm_fw.Base.{ℕ, ◌<◌, refl, if_split, not, ◌||◌, arith, ltb, leb}
use telegraph_stm_fw.Broker.Engine.{Engine}
use telegraph_stm_fw.Broker.State.{Broker, to_peer, nack_peer}
use telegraph_stm_fw.Broker.Requests.{send_inflight}
use telegraph_stm_fw.Broker.Requests.Balance.{
  Takes, Balanced, Takes-Balanced, on_link_frame-Takes, on_peer_frame-Balanced, push-Takes,
}
use telegraph_stm_fw.Broker.Loop.{check_timeout, elapsed, reply_timeout_ms, reply_tries, turns}
use telegraph_stm_fw.Broker.Loop.Keeps.{Kept, turns-keep}

module _ (e : Engine) (i id : ℕ) where
  open e use {World}

  -- A request that is given up is answered with a refusal.
  check_timeout-Takes : (b : Broker World) → Takes i id 0 b (check_timeout e b)
  unfolding check_timeout send_inflight nack_peer to_peer
  check_timeout-Takes b =
      let P = λ (c : Broker World). Takes i id 0 b c in
      if_split P
        (not b.inflight.busy || ltb (elapsed (e.now b.world) b.inflight.sent_ms) reply_timeout_ms)
        (λ waits. record { settles = omega arith; asked = refl })
        λ late.
          if_split P (leb reply_tries b.inflight.tries)
            (λ over. record { settles = ground arith; asked = refl })
            (λ again. record { settles = omega arith; asked = refl })

  Balanced-Kept : 0 < id → Kept e (Balanced e i id)
  Balanced-Kept h = record {
    world = λ b w s. s;
    peers = λ b ps s. s;
    link = λ b p s. s;
    received = λ b n s. s;
    linked = λ f b. Takes-Balanced e i id (on_link_frame-Takes e i id f b h);
    served = λ j f b. on_peer_frame-Balanced e i id j f b;
    raw = λ j bytes b. Takes-Balanced e i id (push-Takes e i id j _ bytes b h);
    timed = λ b. Takes-Balanced e i id (check_timeout-Takes b);
  }

  pub turns-Balanced :
      (n : ℕ) (b : Broker World) → 0 < id → Balanced e i id b → Balanced e i id (turns e n b)
  turns-Balanced n b h s = turns-keep e (Balanced-Kept h) n b s
