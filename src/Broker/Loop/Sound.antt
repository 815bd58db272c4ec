-- ===== src/Broker/Loop/Sound.antt =====
-- What holds of the broker between two rounds of its loop, whatever comes.
use telegraph_stm_fw.Base.{if_split, not, ◌||◌, arith, ltb, leb}
use telegraph_stm_fw.Server.Link.{corr_id_push}
use telegraph_stm_fw.Broker.Engine.{Engine}
use telegraph_stm_fw.Broker.State.{Broker, to_peer, nack_peer}
use telegraph_stm_fw.Broker.Requests.{send_inflight, op_raw_data}
use telegraph_stm_fw.Broker.Requests.Sound.{
  IsSound, to_peer-IsSound, ended-IsLine, on_link_frame-IsSound, on_peer_frame-IsSound,
}
use telegraph_stm_fw.Broker.Loop.{check_timeout, elapsed, reply_timeout_ms, reply_tries}
use telegraph_stm_fw.Broker.Loop.Keeps.{Kept}

module _ (e : Engine) where
  open e use {World}

  check_timeout-IsSound : (b : Broker World) → IsSound b → IsSound (check_timeout e b)
  unfolding check_timeout nack_peer to_peer send_inflight
  check_timeout-IsSound b s =
      let P = λ (c : Broker World). IsSound c in
      if_split P
        (not b.inflight.busy || ltb (elapsed (e.now b.world) b.inflight.sent_ms) reply_timeout_ms)
        (λ waits. s)
        λ late.
          if_split P (leb reply_tries b.inflight.tries)
            (λ over. ended-IsLine b.inflight b.raw b.next_id s)
            (λ again. record {
              alone = s.alone;
              tried = λ h. omega arith;
              bounded = λ h. ground arith;
              numbered = s.numbered;
              next_low = s.next_low;
              next_high = s.next_high;
            })

  pub IsSound-Kept : Kept e (λ b. IsSound b)
  IsSound-Kept = record {
    world = λ b w s. s;
    peers = λ b ps s. s;
    link = λ b p s. s;
    received = λ b n s. s;
    linked = on_link_frame-IsSound e;
    served = on_peer_frame-IsSound e;
    raw = λ i bytes b s. to_peer-IsSound e i op_raw_data corr_id_push bytes b s;
    timed = check_timeout-IsSound;
  }
