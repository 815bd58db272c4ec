-- ===== src/Broker/Engine/Writes.antt =====
-- The loop of write_all ends.
use telegraph_stm_fw.Base.{
  ℕ, zero, suc, ◌+◌, ◌-◌, ◌*◌, ◌≤◌, ◌<◌, ◌≡◌, refl, List, Option, some, Bool, true, false, length,
  drop, length-drop, ltb, ltb→lt, ◌==◌, ==-ne, ap, if◌then◌else◌, if_split, arith,
}
use telegraph_stm_fw.Broker.Engine.{
  Engine, Wrote, took, eagain, failed, pipe_retry_us, write_loop, write_rounds, written_of,
  write_all,
}

module _ (e : Engine) where
  open e use {World}

  abbrev Ends : Option (Bool × World) → Type 0
  Ends o = (result : Bool × World) × (o ≡ some result)

  -- What the loop has left: a round for each retry, and all the retries for each byte.
  abbrev left : ℕ → List ℕ → ℕ
  left retries bytes = length bytes * 201 + (201 - retries)

  wrote-Ends :
      (x : Wrote) (w : World) (retry : Option (Bool × World)) (go : ℕ → Option (Bool × World))
      → Ends retry
      → ((n : ℕ) → 0 < n → Ends (go n))
      → Ends (elim x as (λ _. Option (Bool × World)) [
        | took n ↦ if ltb 0 n then go n else retry
        | eagain ↦ retry
        | failed ↦ some (false, w)
      ])
  wrote-Ends (took n) w retry go r g =
      if_split Ends (ltb 0 n) (λ more. g n (ltb→lt 0 n more)) (λ nothing. r)
  wrote-Ends eagain w retry go r g = r
  wrote-Ends failed w retry go r g = ((false, w), refl)

  write_loop-Ends :
      (fuel fd retries : ℕ) (bytes : List ℕ) (w : World)
      → retries ≤ 200
      → left retries bytes ≤ fuel
      → Ends (write_loop e fuel fd retries bytes w)
  unfolding write_loop
  write_loop-Ends zero fd retries bytes w r h = absurd (omega arith)
  write_loop-Ends (suc fuel) fd retries bytes w r h =
      let wrote = e.write fd bytes w in
      let again = e.nap pipe_retry_us wrote.1 in
      let retry : Ends (
          if ltb 200 (retries + 1)
          then some (false, wrote.1)
          else write_loop e fuel fd (retries + 1) bytes again) =
        if_split Ends (ltb 200 (retries + 1)) (λ over. ((false, wrote.1), refl))
          λ more. write_loop-Ends fuel fd (retries + 1) bytes again (ground arith) (ground arith) in
      if_split Ends (length bytes == 0) (λ empty. ((true, w), refl))
        λ some_left.
          wrote-Ends wrote.0 wrote.1 _ (λ n. write_loop e fuel fd 0 (drop n bytes) wrote.1) retry
            λ n more.
              let fewer = length-drop n bytes in
              let any_left = ==-ne (length bytes) 0 some_left in
              write_loop-Ends fuel fd 0 (drop n bytes) wrote.1 (omega arith) (ground arith)

  -- write_all ends by its own tests, for any descriptor: its rounds are enough.
  pub write_all-ends :
      (fd : ℕ) (bytes : List ℕ) (w : World)
      → (result : Bool × World) × (write_loop e (write_rounds e bytes) fd 0 bytes w ≡ some result)
        × (write_all e fd bytes w ≡ result)
  unfolding write_rounds write_all written_of
  write_all-ends fd bytes w =
      let (result, ends) =
        write_loop-Ends (write_rounds e bytes) fd 0 bytes w (omega arith) (omega arith) in
      (result, ends, ap (λ (o : Option (Bool × World)). written_of e w o) ends)
