-- ===== src/Hass/Session/Ends.antt =====
-- The loops of a session end by their own tests.
use telegraph_stm_fw.Base.{
  ℕ, zero, suc, ◌+◌, ◌-◌, ◌/◌, ◌≤◌, ◌<◌, ◌≡◌, refl, ap, Option, some, Bool, true, false, length,
  ltb, leb, if_split, not, arith,
}
use telegraph_stm_fw.Hass.Mqtt.{buf_max}
use telegraph_stm_fw.Hass.Session.{
  Socket, Session, Got, got, would_block, failed, await_scan, filled, fill, await_loop, awaited,
  await_rounds, await_packet,
}

-- What a wait relies on: a nap of 10 ms passes, and a read does not turn the clock back.
pub record IsClock (e : Socket) : Type 0 where
  pub naps : (w : e.World) → e.now w + 10 ≤ e.now (e.nap w)
  pub reads : (n : ℕ) (w : e.World) → e.now w ≤ e.now (e.read n w).1

module _ (e : Socket) (clock : IsClock e) where
  open e use {World}

  filled-world : (g : Got) (m : Session World) → ((filled e g m).1).world ≡ m.world
  unfolding filled
  filled-world (got bytes) m =
      if_split (λ (c : Bool × Session World). (c.1).world ≡ m.world) _ (λ t. refl) (λ t. refl)
  filled-world would_block m = refl
  filled-world failed m = refl

  fill-later : (m : Session World) → e.now m.world ≤ e.now ((fill e m).1).world
  unfolding fill
  fill-later m =
      let read = e.read (buf_max - length m.rx) m.world in
      if_split (λ (c : Bool × Session World). e.now m.world ≤ e.now (c.1).world)
        (leb buf_max (length m.rx)) (λ full. omega arith)
        (λ room.
          let same = ap e.now (filled-world read.0 (record m { world = read.1 })) in
          omega (arith, same, clock.reads (buf_max - length m.rx) m.world))

  abbrev Ends : Option (Bool × Session World) → Type 0
  Ends o = (result : Bool × Session World) × (o ≡ some result)

  await_loop-Ends :
      (fuel want deadline : ℕ) (m : Session World)
      → (deadline - e.now m.world + 9) / 10 < fuel
      → Ends (await_loop e fuel want deadline m)
  unfolding await_loop
  await_loop-Ends zero want deadline m h = absurd (omega arith)
  await_loop-Ends (suc fuel) want deadline m h =
      let g = fill e m in
      let scanned = await_scan (length (g.1).rx) want (g.1).rx in
      let m' = record g.1 { rx = scanned.0 } in
      if_split Ends (ltb (e.now m.world) deadline)
        (λ early.
          if_split Ends (not g.0) (λ bad. ((false, g.1), refl))
            (λ good.
              if_split Ends scanned.1 (λ hit. ((true, m'), refl))
                (λ none_.
                  let later = fill-later m in
                  let slept = clock.naps (g.1).world in
                  await_loop-Ends fuel want deadline (record m' { world = e.nap m'.world })
                    (ground arith))))
        (λ late. ((false, m), refl))

  -- The wait for a packet ends: by the packet, by the end of the session, or at its deadline.
  pub await_packet-ends :
      (want wait_ms : ℕ) (m : Session World)
      → (result : Bool × Session World) × (await_loop e
            (await_rounds e wait_ms)
            want
            (e.now m.world + wait_ms)
            m
          ≡ some result)
        × (await_packet e want wait_ms m ≡ result)
  unfolding await_packet awaited await_rounds
  await_packet-ends want wait_ms m =
      let (result, ends) =
        await_loop-Ends (await_rounds e wait_ms) want (e.now m.world + wait_ms) m (omega arith) in
      (result, ends, ap (λ (o : Option (Bool × Session World)). awaited e m o) ends)
