-- ===== src/Ota/Requests/Ends.antt =====
-- The questions to the broker end, whatever it answers.
use telegraph_stm_fw.Base.{
  ℕ, zero, suc, ◌+◌, ◌-◌, ◌*◌, ◌/◌, ◌≤◌, ◌<◌, ◌≡◌, refl, ap, List, Option, some, Bool, true, false,
  leb, ◌||◌, not, if_split, arith,
}
use telegraph_stm_fw.Broker.Engine.{Engine}
use telegraph_stm_fw.Ota.{Ota, pump, send_request}
use telegraph_stm_fw.Ota.Clock.{IsClock, pump-later, send_request-later}
use telegraph_stm_fw.Ota.Requests.{
  reply_loop, reply_rounds, replied, lacks, ask_loop, ask_rounds, asked, ask_until, is_busy,
  poll_us, version_retry_ms,
}

module _ (e : Engine) (clock : IsClock e) where
  open e use {World}

  abbrev Replies : Ota World → Option (Ota World) → Type 0
  Replies o r = (p : Ota World) × (r ≡ some p) × (e.now o.world ≤ e.now p.world)

  reply_loop-answered :
      (fuel deadline : ℕ) (o : Ota World)
      → 1 ≤ fuel
      → o.got_reply ≡ true
      → reply_loop e fuel deadline o ≡ some o
  unfolding reply_loop
  reply_loop-answered zero deadline o h got = absurd (omega arith)
  reply_loop-answered (suc fuel) deadline o h got = rw got refl

  reply_loop-Ends :
      (fuel deadline : ℕ) (o : Ota World)
      → (deadline - e.now o.world + 9) / 10 < fuel
      → Replies o (reply_loop e fuel deadline o)
  unfolding reply_loop
  reply_loop-Ends zero deadline o h = absurd (omega arith)
  reply_loop-Ends (suc fuel) deadline o h =
      let p = pump e o in
      let later = pump-later e clock o in
      let slept = clock.naps 10 p.world in
      let P = Replies o in
      if_split P (o.got_reply || leb deadline (e.now o.world)) (λ over. (o, refl, omega arith))
        λ early.
          if_split (λ (q : Ota World). Replies o (reply_loop e fuel deadline q)) p.got_reply
            (λ got. (p, reply_loop-answered fuel deadline p (ground arith) got, later))
            (λ waits.
              let q = record p { world = e.nap poll_us p.world } in
              let (r, ends, after) = reply_loop-Ends fuel deadline q (ground arith) in
              (r, ends, omega (arith, later, slept, after)))

  abbrev Ends : Option (Bool × Ota World) → Type 0
  Ends r = (result : Bool × Ota World) × (r ≡ some result)

  ask_loop-Ends :
      (fuel rounds deadline opcode : ℕ) (payload : List ℕ) (o : Ota World)
      → (deadline - e.now o.world + 9) / 10 < rounds
      → (deadline - e.now o.world + 999) / 1000 < fuel
      → Ends (ask_loop e fuel rounds deadline opcode payload o)
  unfolding ask_loop replied
  ask_loop-Ends zero rounds deadline opcode payload o h k = absurd (omega arith)
  ask_loop-Ends (suc fuel) rounds deadline opcode payload o h k =
      let sent = send_request e opcode payload o in
      let reply = reply_loop e rounds deadline sent.1 in
      let heard = replied e sent.1 reply in
      let napped = record heard { world = e.nap (version_retry_ms * 1000) heard.world } in
      let later = send_request-later e clock opcode payload o in
      let (p, ends, after) = reply_loop-Ends rounds deadline sent.1 (omega (arith, h, later)) in
      let same : heard ≡ p = ap (λ (r : Option (Ota World)). replied e sent.1 r) ends in
      let whole : lacks e reply ≡ false = ap (λ (r : Option (Ota World)). lacks e r) ends in
      let at_heard = ap (λ (q : Ota World). e.now q.world) same in
      let slept = clock.naps version_retry_ms heard.world in
      if_split Ends (leb deadline (e.now o.world)) (λ over. ((false, o), refl))
        λ early.
          if_split Ends (not sent.0) (λ bad. (sent, refl))
            λ good.
              if_split Ends (lacks e reply) (λ lack. absurd (ground arith))
                λ ended.
                  if_split Ends (not heard.got_reply) (λ silent. ((false, heard), refl))
                    λ spoke.
                      if_split Ends (not (is_busy e heard)) (λ answer. ((true, heard), refl))
                        λ busy.
                          ask_loop-Ends fuel rounds deadline opcode payload napped (ground arith)
                            (ground arith)

  -- A question to the broker ends: the loop of ask_until comes to a result within its rounds.
  pub ask_until-ends :
      (opcode : ℕ) (payload : List ℕ) (total_ms : ℕ) (o : Ota World)
      → (result : Bool × Ota World) × (ask_loop e
            (ask_rounds e total_ms)
            (reply_rounds e total_ms)
            (e.now o.world + total_ms)
            opcode
            payload
            o
          ≡ some result)
        × (ask_until e opcode payload total_ms o ≡ result)
  unfolding ask_until asked
  ask_until-ends opcode payload total_ms o =
      let (result, ends) =
        ask_loop-Ends (ask_rounds e total_ms) (reply_rounds e total_ms) (e.now o.world + total_ms)
          opcode payload o (omega arith) (omega arith) in
      (result, ends, ap (λ (r : Option (Bool × Ota World)). asked e o r) ends)
