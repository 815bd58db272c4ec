-- ===== src/Ota/Requests.antt =====
-- The requests of ota.c that wait for a reply of the broker: raw mode, and the running version.
pub mod Kept
pub mod Ends
pub mod Source
pub mod Version
use telegraph_stm_fw.Base.{
  ℕ, zero, suc, ◌+◌, ◌-◌, ◌*◌, ◌/◌, List, [], ◌∷◌, ◌++◌, Option, none, some, Bool, true, false,
  length, take, drop, byte_at, leb, ◌==◌, ◌!=◌, if◌then◌else◌, not, ◌||◌,
}
use telegraph_stm_fw.Ipc.Wire.{put_u32}
use telegraph_stm_fw.Server.Link.{ipc_op_ack, ipc_op_nack}
use telegraph_stm_fw.Server.Storage.{until_zero}
use telegraph_stm_fw.Broker.Engine.{Engine}
use telegraph_stm_fw.Broker.Requests.{op_raw, err_busy}
use telegraph_stm_fw.Ota.{Ota, pump, send_request}

-- IPC_OP_GET_STATE, IPC_OP_STATE, IPC_STATE_FWVER
abbrev pub op_get_state : ℕ
op_get_state = 0x01

abbrev pub op_state : ℕ
op_state = 0x02

abbrev pub state_fwver : ℕ
state_fwver = 12

-- RAW_MS, VERSION_RETRY_MS, ASK_TOTAL_MS and POLL_US
abbrev pub raw_ms : ℕ
raw_ms = 5000

abbrev pub version_retry_ms : ℕ
version_retry_ms = 1000

abbrev pub ask_total_ms : ℕ
ask_total_ms = 20000

abbrev pub poll_us : ℕ
poll_us = 10000

-- BOOT_BAUD, BOOT_DATABITS, BOOT_PARITY and BOOT_STOPBITS, as raw_enter writes them.
abbrev boot_settings : List ℕ
boot_settings = put_u32 57600 ++ 8 ∷ b'E' ∷ 1 ∷ []

module _ (e : Engine) where
  open e use {World}

  -- The wait for g_gotReply up to a deadline, with fuel; `none` is a lack of it.
  unfoldable pub reply_loop : ℕ → ℕ → Ota World → Option (Ota World)
  reply_loop zero deadline o = none
  reply_loop (suc fuel) deadline o =
      let p = pump e o in
      let q = if p.got_reply then p else record p { world = e.nap poll_us p.world } in
      let rest = reply_loop fuel deadline q in
      if o.got_reply || leb deadline (e.now o.world) then some o else rest

  -- A round of the wait naps for 10 ms or ends it.
  abbrev pub reply_rounds : ℕ → ℕ
  reply_rounds wait_ms = wait_ms / 10 + 2

  unfoldable pub replied : Ota World → Option (Ota World) → Ota World
  replied o none = o
  replied o (some p) = p

  abbrev pub lacks : Option (Ota World) → Bool
  lacks none = true
  lacks (some p) = false

  -- request; true is its result 0.
  unfoldable pub request : ℕ → List ℕ → ℕ → Ota World → Bool × Ota World
  request opcode payload wait_ms o =
      let sent = send_request e opcode payload o in
      let deadline = e.now (sent.1).world + wait_ms in
      let heard = replied sent.1 (reply_loop (reply_rounds wait_ms) deadline sent.1) in
      if not sent.0 then sent else (heard.got_reply, heard)

  -- The reply is a refusal of a busy line.
  unfoldable pub is_busy : Ota World → Bool
  is_busy o =
      not (o.reply_op != ipc_op_nack || length o.reply == 0 || byte_at o.reply 0 != err_busy)

  -- The loop of ask_until, with fuel; `none` is a lack of it.
  unfoldable pub ask_loop : ℕ → ℕ → ℕ → ℕ → List ℕ → Ota World → Option (Bool × Ota World)
  ask_loop zero rounds deadline opcode payload o = none
  ask_loop (suc fuel) rounds deadline opcode payload o =
      let sent = send_request e opcode payload o in
      let reply = reply_loop rounds deadline sent.1 in
      let heard = replied sent.1 reply in
      let again =
        ask_loop fuel rounds deadline opcode payload
          (record heard { world = e.nap (version_retry_ms * 1000) heard.world }) in
      if leb deadline (e.now o.world)
      then some (false, o)
      else if not sent.0
      then some sent
      else if lacks reply
      then none
      else if not heard.got_reply
      then some (false, heard)
      else if not (is_busy heard)
      then some (true, heard)
      else again

  -- A round of it that asks again pauses for a second.
  abbrev pub ask_rounds : ℕ → ℕ
  ask_rounds total_ms = total_ms / version_retry_ms + 2

  unfoldable pub asked : Ota World → Option (Bool × Ota World) → Bool × Ota World
  asked o none = (false, o)
  asked o (some result) = result

  -- ask_until; true is its result 0.
  unfoldable pub ask_until : ℕ → List ℕ → ℕ → Ota World → Bool × Ota World
  ask_until opcode payload total_ms o = asked o (
      ask_loop (ask_rounds total_ms) (reply_rounds total_ms) (e.now o.world + total_ms) opcode
        payload o)

  -- raw_enter and raw_leave
  unfoldable pub raw_enter : Ota World → Bool × Ota World
  raw_enter o =
      let asked = ask_until op_raw boot_settings ask_total_ms o in
      if not asked.0 || (asked.1).reply_op != ipc_op_ack
      then (false, asked.1)
      else (true, record asked.1 { line = [] })

  unfoldable pub raw_leave : Ota World → Bool × Ota World
  raw_leave = request op_raw [] raw_ms

  -- version_from_state: the text of the version in a buffer of `cap` bytes.
  unfoldable pub version_from_state : ℕ → List ℕ → List ℕ
  version_from_state cap reply = until_zero (take (cap - 1) (drop state_fwver reply))

  -- running_version, where none is -1.
  unfoldable pub running_version : ℕ → Ota World → Option (List ℕ) × Ota World
  running_version cap o =
      let asked = ask_until op_get_state [] ask_total_ms o in
      if not asked.0
      then (none, asked.1)
      else if (asked.1).reply_op != op_state
      then (none, asked.1)
      else if leb (length (asked.1).reply) state_fwver
      then (none, asked.1)
      else (some (version_from_state cap (asked.1).reply), asked.1)
