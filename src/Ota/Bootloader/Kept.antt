-- ===== src/Ota/Bootloader/Kept.antt =====
-- What an exchange with the bootloader leaves alone, and what it puts on the line.
use telegraph_stm_fw.Base.{
  ℕ, zero, suc, refl, ap, ◌∙◌, ◌≡◌, ◌≢◌, arith, List, [], ◌∷◌, Option, none, some, Bool, false, not,
  leb, if◌then◌else◌, if_split, ◌+◌, ◌*◌, u16, bit_or, ◌<<<◌, true,
}
use telegraph_stm_fw.Broker.Engine.{Engine}
use telegraph_stm_fw.Ota.{Ota, pump, line_write}
use telegraph_stm_fw.Ota.Kept.{
  IsApart, Kept, KeptBy, KeptBy-after, Kept-refl, Kept-trans, Lined, Lined-Kept, Talked,
  Talked-trans, Talked-Kept, Talked-Lined, nap-Kept, pump-Kept, line_write-Lined,
}
use telegraph_stm_fw.Ota.Requests.{poll_us}
use telegraph_stm_fw.Ota.Bootloader.{
  first_answer, wait_loop, wait_rounds, waited, wait_byte, wait_ack, acknowledged, an_command,
  byte_loop, line_byte, id_loop, with_ack, an_get_id, an_get_id_code, sync_loop, an_sync_byte,
  an_sync_gap_ms, an_sync, command_bytes, an_erase, an_erase_code, reply_ms,
}

module _ (e : Engine) (fd : ℕ) (file : e.World → List ℕ) (apart : IsApart e fd file) where
  open e use {World}

  abbrev Keeps : Ota World → Ota World → Type 0
  Keeps = Kept e fd file

  abbrev Talks : Ota World → Ota World → Type 0
  Talks = Talked e fd file

  abbrev state_of : Option ℕ × Ota World → Ota World
  state_of result = result.1

  abbrev Waits : Ota World → Option (Option ℕ × Ota World) → Type 0
  Waits = KeptBy e fd file state_of

  answered-Waits :
      (answer : Option ℕ) (o a : Ota World) (late : Bool) (rest : Option (Option ℕ × Ota World))
      → Keeps o a
      → Waits o rest
      → Waits o (elim answer as (λ _. Option (Option ℕ × Ota World)) [
        | some b ↦ some (some b, a)
        | none ↦ if late then some (none, a) else rest
      ])
  answered-Waits (some b) o a late rest s r = s
  answered-Waits none o a late rest s r =
      if_split (λ (c : Option (Option ℕ × Ota World)). Waits o c) late (λ over. s) (λ more. r)

  -- A round of a wait: what comes is read, and the wapp naps.
  round-Kept :
      (o : Ota World) → Keeps o (record (pump e o) { world = e.nap poll_us (pump e o).world })
  round-Kept o =
      Kept-trans e fd file o (pump e o)
        (record (pump e o) { world = e.nap poll_us (pump e o).world }) (pump-Kept e fd file apart o)
        (nap-Kept e fd file apart poll_us (pump e o))

  wait_loop-Waits : (fuel deadline : ℕ) (o : Ota World) → Waits o (wait_loop e fuel deadline o)
  unfolding wait_loop
  wait_loop-Waits zero deadline o = tt
  wait_loop-Waits (suc fuel) deadline o =
      let o' = record o { line = (first_answer o.line).1 } in
      let q = record (pump e o') { world = e.nap poll_us (pump e o').world } in
      answered-Waits (first_answer o.line).0 o o' (leb deadline (e.now o'.world)) _
        (Kept-refl e fd file o)
        (KeptBy-after e fd file state_of o q (wait_loop e fuel deadline q) (round-Kept o')
          (wait_loop-Waits fuel deadline q))

  waited-Kept :
      (o : Ota World) (r : Option (Option ℕ × Ota World)) → Waits o r → Keeps o (waited e o r).1
  unfolding waited
  waited-Kept o none w = Kept-refl e fd file o
  waited-Kept o (some result) w = w

  wait_byte-Kept : (o : Ota World) → Keeps o (wait_byte e o).1
  unfolding wait_byte
  wait_byte-Kept o =
      waited-Kept o (wait_loop e (wait_rounds e) (e.now o.world + reply_ms) o)
        (wait_loop-Waits (wait_rounds e) (e.now o.world + reply_ms) o)

  wait_ack-Kept : (o : Ota World) → Keeps o (wait_ack e o).1
  unfolding wait_ack
  wait_ack-Kept o = wait_byte-Kept o

  -- A frame and its answer.
  pub acknowledged-Lined :
      (bytes : List ℕ) (o : Ota World)
      → Lined e fd file bytes o (acknowledged e (line_write e bytes o)).1
  unfolding acknowledged
  acknowledged-Lined bytes o =
      let put = line_write-Lined e fd file apart bytes o in
      let sent = line_write e bytes o in
      if_split (λ (c : Bool × Ota World). Lined e fd file bytes o c.1) (not sent.0) (λ bad. put)
        (λ good.
          Lined-Kept e fd file bytes o sent.1 (wait_ack e sent.1).1 put (wait_ack-Kept sent.1))

  pub an_command-Lined :
      (cmd : ℕ) (o : Ota World) → Lined e fd file (command_bytes cmd) o (an_command e cmd o).1
  unfolding an_command
  an_command-Lined cmd o = acknowledged-Lined (command_bytes cmd) o

  byte_loop-Waits : (fuel deadline : ℕ) (o : Ota World) → Waits o (byte_loop e fuel deadline o)
  unfolding byte_loop
  byte_loop-Waits zero deadline o = tt
  byte_loop-Waits (suc fuel) deadline o =
      let q = record (pump e o) { world = e.nap poll_us (pump e o).world } in
      let rest =
        KeptBy-after e fd file state_of o q (byte_loop e fuel deadline q) (round-Kept o)
          (byte_loop-Waits fuel deadline q) in
      elim o.line
        as (λ (l : List ℕ). Waits o (elim l as (λ _. Option (Option ℕ × Ota World)) [
          | [] ↦
              if leb deadline (e.now o.world) then some (none, o) else byte_loop e fuel deadline q
          | (b ∷ bytes) ↦ some (some b, record o { line = bytes })
        ])) [
          | [] ↦
              if_split (λ (c : Option (Option ℕ × Ota World)). Waits o c)
                (leb deadline (e.now o.world)) (λ over. Kept-refl e fd file o) (λ more. rest)
          | (b ∷ bytes) ↦ λ other. (refl, refl, refl, refl)
        ]

  line_byte-Kept : (o : Ota World) → Keeps o (line_byte e o).1
  unfolding line_byte
  line_byte-Kept o =
      waited-Kept o (byte_loop e (wait_rounds e) (e.now o.world + reply_ms) o)
        (byte_loop-Waits (wait_rounds e) (e.now o.world + reply_ms) o)

  id_loop-Kept : (n id : ℕ) (o : Ota World) → Keeps o (id_loop e n id o).1
  unfolding id_loop
  id_loop-Kept zero id o = Kept-refl e fd file o
  id_loop-Kept (suc n) id o =
      let read = line_byte e o in
      let same = line_byte-Kept o in
      elim read.0
        as (λ (b : Option ℕ).
          Keeps o
            (elim b as (λ _. Option ℕ × Ota World) [
              | none ↦ (none, read.1)
              | some b ↦ id_loop e n (u16 (bit_or (id <<< 8) b)) read.1
            ]).1) [
              | none ↦ same
              | some b ↦
                  let next = u16 (bit_or (id <<< 8) b) in
                  Kept-trans e fd file o read.1 (id_loop e n next read.1).1 same
                    (id_loop-Kept n next read.1)
            ]

  with_ack-Kept : (r : Option ℕ × Ota World) → Keeps r.1 (with_ack e r).1
  unfolding with_ack
  with_ack-Kept (none, o) = Kept-refl e fd file o
  with_ack-Kept (some id, o) = wait_ack-Kept o

  pub an_get_id-Talked : (o : Ota World) → Talks o (an_get_id e o).1
  unfolding an_get_id
  an_get_id-Talked o =
      let command = an_command e an_get_id_code o in
      let count = line_byte e command.1 in
      let asked = Talked-Lined e fd file _ o command.1 (an_command-Lined an_get_id_code o) in
      let counted =
        Talked-trans e fd file o command.1 count.1 asked
          (Talked-Kept e fd file command.1 count.1 (line_byte-Kept command.1)) in
      if_split (λ (c : Bool × Ota World). Talks o c.1) (not command.0) (λ bad. asked)
        λ good.
          elim count.0
            as (λ (n : Option ℕ).
              Talks o
                (elim n as (λ _. Bool × Ota World) [
                  | none ↦ (false, count.1)
                  | some n ↦ with_ack e (id_loop e (n + 1) 0 count.1)
                ]).1) [
                  | none ↦ counted
                  | some n ↦
                      let read = id_loop e (n + 1) 0 count.1 in
                      Talked-trans e fd file o count.1 (with_ack e read).1 counted (
                        Talked-Kept e fd file count.1 (with_ack e read).1 (
                          Kept-trans e fd file count.1 read.1 (with_ack e read).1
                            (id_loop-Kept (n + 1) 0 count.1) (with_ack-Kept read)))
                ]

  sync_loop-Talked : (tries : ℕ) (o : Ota World) → Talks o (sync_loop e tries o).1
  unfolding sync_loop
  sync_loop-Talked zero o = λ other. (refl, refl)
  sync_loop-Talked (suc tries) o =
      let o' = record o { line = [] } in
      let sent = line_write e (an_sync_byte ∷ []) o' in
      let read = wait_byte e sent.1 in
      let napped = record read.1 { world = e.nap (an_sync_gap_ms * 1000) (read.1).world } in
      let put : Talks o sent.1 =
        Talked-Lined e fd file _ o' sent.1
          (line_write-Lined e fd file apart (an_sync_byte ∷ []) o') in
      let heard =
        Talked-trans e fd file o sent.1 read.1 put
          (Talked-Kept e fd file sent.1 read.1 (wait_byte-Kept sent.1)) in
      if_split (λ (c : Bool × Ota World). Talks o c.1) (not sent.0) (λ bad. put)
        λ good.
          elim read.0
            as (λ (b : Option ℕ).
              Talks o
                (elim b as (λ _. Bool × Ota World) [
                  | some b ↦ (true, read.1)
                  | none ↦ sync_loop e tries napped
                ]).1) [
                  | some b ↦ heard
                  | none ↦
                      Talked-trans e fd file o napped (sync_loop e tries napped).1
                        (Talked-trans e fd file o read.1 napped heard (
                          Talked-Kept e fd file read.1 napped
                            (nap-Kept e fd file apart (an_sync_gap_ms * 1000) read.1)))
                        (sync_loop-Talked tries napped)
                ]

  pub an_sync-Talked : (o : Ota World) → Talks o (an_sync e o).1
  unfolding an_sync
  an_sync-Talked o = sync_loop-Talked _ o

  -- An erase that succeeds.
  pub an_erase-Written :
      (o : Ota World)
      → o.rsp ≢ fd
      → (an_erase e o).0 ≡ true
      → let done = (an_erase e o).1 in
        (done.rsp ≡ o.rsp)
        × (done.lines ≡ (0xff ∷ 0x00 ∷ []) ∷ command_bytes an_erase_code ∷ o.lines)
        × (file done.world ≡ file o.world)
  unfolding an_erase
  an_erase-Written o other =
      let command = an_command e an_erase_code o in
      let (c_rsp, c_line, c_addr, c_file) = an_command-Lined an_erase_code o other in
      let (a_rsp, a_line, a_addr, a_file) =
        acknowledged-Lined (0xff ∷ 0x00 ∷ []) command.1 (λ same. other (cc (c_rsp, same))) in
      if_split
        (λ (c : Bool × Ota World).
          c.0 ≡ true
          → ((c.1).rsp ≡ o.rsp)
            × ((c.1).lines ≡ (0xff ∷ 0x00 ∷ []) ∷ command_bytes an_erase_code ∷ o.lines)
            × (file (c.1).world ≡ file o.world))
        (not command.0) (λ bad ok. absurd (ground arith))
        (λ good ok. (
          a_rsp ∙ c_rsp,
          a_line ∙ ap (λ (t : List (List ℕ)). (0xff ∷ 0x00 ∷ []) ∷ t) c_line,
          a_file ∙ c_file,
        ))
