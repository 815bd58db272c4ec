-- ===== src/Ota/Bootloader.antt =====
-- The bootloader of the STM32 (AN3155), as ota.c talks to it.
pub mod Kept
pub mod Write
mod Ends
use telegraph_stm_fw.Base.{
  ℕ, zero, suc, ◌+◌, ◌-◌, ◌*◌, ◌/◌, List, [], ◌∷◌, ◌++◌, Option, none, some, Bool, true, false,
  length, leb, ◌==◌, if◌then◌else◌, not, ◌||◌, bit_xor, bit_or, u8, u16, u32, ◌<<<◌, ◌>>>◌,
}
use telegraph_stm_fw.Broker.Engine.{Engine}
use telegraph_stm_fw.Ota.Requests.{poll_us}
use telegraph_stm_fw.Ota.{Ota, pump, line_write}

-- AN_ACK, AN_NACK, AN_SYNC, AN_SYNC_TRIES, AN_SYNC_GAP_MS, AN_GET_ID, AN_ERASE, AN_WRITE
abbrev an_ack : ℕ
an_ack = 0x79

abbrev an_nack : ℕ
an_nack = 0x1f

abbrev pub an_sync_byte : ℕ
an_sync_byte = 0x7f

abbrev an_sync_tries : ℕ
an_sync_tries = 8

abbrev pub an_sync_gap_ms : ℕ
an_sync_gap_ms = 50

abbrev pub an_get_id_code : ℕ
an_get_id_code = 0x02

abbrev pub an_erase_code : ℕ
an_erase_code = 0x43

abbrev pub an_write_code : ℕ
an_write_code = 0x31

-- REPLY_MS
abbrev pub reply_ms : ℕ
reply_ms = 2000

-- The inner loop of wait_byte: the first ACK or NACK of the line, and what is after it.
unfoldable pub first_answer : List ℕ → Option ℕ × List ℕ
first_answer [] = (none, [])
first_answer (b ∷ bytes) =
    if b == an_ack || b == an_nack then (some b, bytes) else first_answer bytes

-- The sum of the bytes by exclusive or, from a first one.
unfoldable pub xor_sum : ℕ → List ℕ → ℕ
xor_sum sum [] = sum
xor_sum sum (b ∷ bytes) = xor_sum (bit_xor sum b) bytes

-- The frames of an_command and an_write.
unfoldable pub command_bytes : ℕ → List ℕ
command_bytes cmd = cmd ∷ u8 (bit_xor 0xff cmd) ∷ []

unfoldable pub head_bytes : ℕ → List ℕ
head_bytes addr =
    let a = u8 (addr >>> 24) in
    let b = u8 (addr >>> 16) in
    let c = u8 (addr >>> 8) in
    let d = u8 addr in a ∷ b ∷ c ∷ d ∷ u8 (bit_xor (bit_xor (bit_xor a b) c) d) ∷ []

unfoldable pub body_bytes : List ℕ → List ℕ
body_bytes chunk = let first = u8 (length chunk - 1) in first ∷ chunk ++ xor_sum first chunk ∷ []

module _ (e : Engine) where
  open e use {World}

  -- The loop of wait_byte up to its deadline, with fuel; `none` is a lack of it.
  unfoldable pub wait_loop : ℕ → ℕ → Ota World → Option (Option ℕ × Ota World)
  wait_loop zero deadline o = none
  wait_loop (suc fuel) deadline o =
      let read = first_answer o.line in
      let o' = record o { line = read.1 } in
      let pumped = pump e o' in
      let rest = wait_loop fuel deadline (record pumped { world = e.nap poll_us pumped.world }) in
      elim read.0 as (λ _. Option (Option ℕ × Ota World)) [
        | some b ↦ some (some b, o')
        | none ↦ if leb deadline (e.now o'.world) then some (none, o') else rest
      ]

  -- A round of the wait naps for 10 ms.
  abbrev pub wait_rounds : ℕ
  wait_rounds = reply_ms / 10 + 2

  unfoldable pub waited : Ota World → Option (Option ℕ × Ota World) → Option ℕ × Ota World
  waited o none = (none, o)
  waited o (some result) = result

  -- wait_byte, where none is -1.
  unfoldable pub wait_byte : Ota World → Option ℕ × Ota World
  wait_byte o = waited o (wait_loop wait_rounds (e.now o.world + reply_ms) o)

  -- wait_ack; true is its result 0.
  unfoldable pub is_ack : Option ℕ → Bool
  is_ack none = false
  is_ack (some b) = b == an_ack

  unfoldable pub wait_ack : Ota World → Bool × Ota World
  wait_ack o = let read = wait_byte o in (is_ack read.0, read.1)

  -- A frame on the line, and its ACK.
  unfoldable pub acknowledged : Bool × Ota World → Bool × Ota World
  acknowledged sent = if not sent.0 then sent else wait_ack sent.1

  -- an_command
  unfoldable pub an_command : ℕ → Ota World → Bool × Ota World
  an_command cmd o = acknowledged (line_write e (command_bytes cmd) o)

  -- The loop of an_sync over its tries.
  unfoldable pub sync_loop : ℕ → Ota World → Bool × Ota World
  sync_loop zero o = (false, o)
  sync_loop (suc tries) o =
      let sent = line_write e (an_sync_byte ∷ []) (record o { line = [] }) in
      let read = wait_byte sent.1 in
      let again =
        sync_loop tries (record read.1 { world = e.nap (an_sync_gap_ms * 1000) (read.1).world }) in
      if not sent.0
      then sent
      else elim read.0 as (λ _. Bool × Ota World) [ some b ↦ (true, read.1) | none ↦ again ]

  -- an_sync
  unfoldable pub an_sync : Ota World → Bool × Ota World
  an_sync = sync_loop an_sync_tries

  -- The loop of line_byte up to its deadline, with fuel; `none` is a lack of it.
  unfoldable pub byte_loop : ℕ → ℕ → Ota World → Option (Option ℕ × Ota World)
  byte_loop zero deadline o = none
  byte_loop (suc fuel) deadline o =
      let pumped = pump e o in
      let rest = byte_loop fuel deadline (record pumped { world = e.nap poll_us pumped.world }) in
      elim o.line as (λ _. Option (Option ℕ × Ota World)) [
        | [] ↦ if leb deadline (e.now o.world) then some (none, o) else rest
        | (b ∷ bytes) ↦ some (some b, record o { line = bytes })
      ]

  -- line_byte, where none is -1.
  unfoldable pub line_byte : Ota World → Option ℕ × Ota World
  line_byte o = waited o (byte_loop wait_rounds (e.now o.world + reply_ms) o)

  -- The loop of an_get_id over the bytes of the identifier.
  unfoldable pub id_loop : ℕ → ℕ → Ota World → Option ℕ × Ota World
  id_loop zero id o = (some id, o)
  id_loop (suc n) id o =
      let read = line_byte o in
      elim read.0 as (λ _. Option ℕ × Ota World) [
        | none ↦ (none, read.1)
        | some b ↦ id_loop n (u16 (bit_or (id <<< 8) b)) read.1
      ]

  unfoldable pub with_ack : Option ℕ × Ota World → Bool × Ota World
  with_ack (none, o) = (false, o)
  with_ack (some id, o) = wait_ack o

  -- an_get_id; true is its result 0. Its caller prints the identifier.
  unfoldable pub an_get_id : Ota World → Bool × Ota World
  an_get_id o =
      let command = an_command an_get_id_code o in
      let count = line_byte command.1 in
      if not command.0 then command else elim count.0 as (λ _. Bool × Ota World) [
        | none ↦ (false, count.1)
        | some n ↦ with_ack (id_loop (n + 1) 0 count.1)
      ]

  -- an_erase
  unfoldable pub an_erase : Ota World → Bool × Ota World
  an_erase o =
      let command = an_command an_erase_code o in
      if not command.0 then command else acknowledged (line_write e (0xff ∷ 0x00 ∷ []) command.1)

  -- an_write
  unfoldable pub an_write : List ℕ → Ota World → Bool × Ota World
  an_write chunk o =
      let command = an_command an_write_code o in
      let head = acknowledged (line_write e (head_bytes (command.1).addr) command.1) in
      let body = acknowledged (line_write e (body_bytes chunk) head.1) in
      if not command.0
      then command
      else if not head.0
      then head
      else if not body.0
      then body
      else (true, record body.1 { addr = u32 ((body.1).addr + length chunk) })
