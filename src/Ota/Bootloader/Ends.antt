-- ===== src/Ota/Bootloader/Ends.antt =====
-- The waits for an answer of the bootloader end by their own tests.
use telegraph_stm_fw.Base.{
  ℕ, zero, suc, ◌+◌, ◌-◌, ◌/◌, ◌<◌, ◌≡◌, refl, ap, List, [], ◌∷◌, Option, none, some, Bool, false,
  leb, if◌then◌else◌, if_split, arith,
}
use telegraph_stm_fw.Broker.Engine.{Engine}
use telegraph_stm_fw.Ota.{Ota, pump}
use telegraph_stm_fw.Ota.Clock.{IsClock, pump-later}
use telegraph_stm_fw.Ota.Requests.{poll_us}
use telegraph_stm_fw.Ota.Bootloader.{
  first_answer, wait_loop, wait_rounds, waited, wait_byte, byte_loop, reply_ms,
}

module _ (e : Engine) (clock : IsClock e) where
  open e use {World}

  abbrev Ends : Option (Option ℕ × Ota World) → Type 0
  Ends r = (result : Option ℕ × Ota World) × (r ≡ some result)

  answered-Ends :
      (answer : Option ℕ) (o : Ota World) (late : Bool) (rest : Option (Option ℕ × Ota World))
      → (late ≡ false → Ends rest)
      → Ends (elim answer as (λ _. Option (Option ℕ × Ota World)) [
        | some b ↦ some (some b, o)
        | none ↦ if late then some (none, o) else rest
      ])
  answered-Ends (some b) o late rest r = ((some b, o), refl)
  answered-Ends none o late rest r = if_split Ends late (λ over. ((none, o), refl)) r

  wait_loop-Ends :
      (fuel deadline : ℕ) (o : Ota World)
      → (deadline - e.now o.world + 9) / 10 < fuel
      → Ends (wait_loop e fuel deadline o)
  unfolding wait_loop
  wait_loop-Ends zero deadline o h = absurd (omega arith)
  wait_loop-Ends (suc fuel) deadline o h =
      let o' = record o { line = (first_answer o.line).1 } in
      let p = pump e o' in
      let q = record p { world = e.nap poll_us p.world } in
      answered-Ends (first_answer o.line).0 o' (leb deadline (e.now o.world)) _ (λ early.
        let later = pump-later e clock o' in
        let slept = clock.naps 10 p.world in wait_loop-Ends fuel deadline q (ground arith))

  byte_loop-Ends :
      (fuel deadline : ℕ) (o : Ota World)
      → (deadline - e.now o.world + 9) / 10 < fuel
      → Ends (byte_loop e fuel deadline o)
  unfolding byte_loop
  byte_loop-Ends zero deadline o h = absurd (omega arith)
  byte_loop-Ends (suc fuel) deadline o h =
      let p = pump e o in
      let q = record p { world = e.nap poll_us p.world } in
      elim o.line
        as (λ (l : List ℕ). Ends (elim l as (λ _. Option (Option ℕ × Ota World)) [
          | [] ↦
              if leb deadline (e.now o.world) then some (none, o) else byte_loop e fuel deadline q
          | (b ∷ bytes) ↦ some (some b, record o { line = bytes })
        ])) [
          | [] ↦
              if_split Ends (leb deadline (e.now o.world)) (λ over. ((none, o), refl))
                (λ early.
                  let later = pump-later e clock o in
                  let slept = clock.naps 10 p.world in
                  byte_loop-Ends fuel deadline q (ground arith))
          | (b ∷ bytes) ↦ ((some b, record o { line = bytes }), refl)
        ]

  -- The wait for an answer ends: by an ACK or a NACK, or at its deadline.
  wait_byte-ends :
      (o : Ota World)
      → (result : Option ℕ × Ota World) × (wait_loop e (wait_rounds e) (e.now o.world + reply_ms) o
          ≡ some result)
        × (wait_byte e o ≡ result)
  unfolding wait_byte waited
  wait_byte-ends o =
      let (result, ends) =
        wait_loop-Ends (wait_rounds e) (e.now o.world + reply_ms) o (omega arith) in
      (result, ends, ap (λ (r : Option (Option ℕ × Ota World)). waited e o r) ends)
