-- ===== src/Ota/Image.antt =====
-- The pins of ota.c, and the image that it writes through the bootloader (write_image, flash).
pub mod Burn
pub mod Burned
pub mod Whole
mod Ends
use telegraph_stm_fw.Base.{
  ℕ, zero, suc, ◌+◌, ◌*◌, ◌%◌, List, [], ◌∷◌, ◌++◌, Option, none, some, Bool, true, false, length,
  leb, ◌==◌, if◌then◌else◌, not, ◌&&◌,
}
use telegraph_stm_fw.Broker.Engine.{Engine, slash}
use telegraph_stm_fw.Ota.{Ota, sent_whole}
use telegraph_stm_fw.Ota.Requests.{raw_enter}
use telegraph_stm_fw.Ota.Bootloader.{an_sync, an_get_id, an_erase, an_write}

-- FLASH_ORIGIN, CHUNK
abbrev pub flash_origin : ℕ
flash_origin = 0x08000000

abbrev pub chunk_max : ℕ
chunk_max = 256

-- GPIO_BOOT0, GPIO_NRST
abbrev gpio : List ℕ → List ℕ
gpio name =
    (slash ∷ b'd' ∷ b'e' ∷ b'v' ∷ slash ∷ b'g' ∷ b'p' ∷ b'i' ∷ b'o' ∷ slash ∷ [])
    ++ name
    ++ slash ∷ b'v' ∷ b'a' ∷ b'l' ∷ b'u' ∷ b'e' ∷ []

abbrev pub gpio_boot0 : List ℕ
gpio_boot0 = gpio (b'b' ∷ b'o' ∷ b'o' ∷ b't' ∷ b'0' ∷ [])

abbrev pub gpio_nrst : List ℕ
gpio_nrst = gpio (b'n' ∷ b'r' ∷ b's' ∷ b't' ∷ [])

-- BOOT0_SETTLE_MS, RESET_HOLD_MS, BOOT_SETTLE_MS, RUN_SETTLE_MS
abbrev pub boot0_settle_ms : ℕ
boot0_settle_ms = 50

abbrev pub reset_hold_ms : ℕ
reset_hold_ms = 100

abbrev pub boot_settle_ms : ℕ
boot_settle_ms = 500

abbrev pub run_settle_ms : ℕ
run_settle_ms = 200

-- The loop of write_image that fills a chunk to its next word: at most three bytes.
unfoldable pub pad_loop : ℕ → List ℕ → List ℕ
pad_loop zero chunk = chunk
pad_loop (suc fuel) chunk =
    if length chunk % 4 == 0 then chunk else pad_loop fuel (chunk ++ 0xff ∷ [])

unfoldable pub padded : List ℕ → List ℕ
padded = pad_loop 3

unfoldable pub level_byte : Bool → List ℕ
level_byte level = if level then b'1' ∷ [] else b'0' ∷ []

module _ (e : Engine) where
  open e use {World}

  -- pin_write; true is its result 0.
  unfoldable pub pin_write : List ℕ → Bool → World → Bool × World
  pin_write path level w =
      let opened = e.open_write path w in
      elim opened.0 as (λ _. Bool × World) [
        | none ↦ (false, opened.1)
        | some fd ↦
            let wrote = e.write fd (level_byte level) opened.1 in
            (sent_whole e 1 wrote.0, e.close fd wrote.1)
      ]

  -- reset_target; true is its result 0.
  unfoldable pub delay_ms : ℕ → World → World
  delay_ms ms = e.nap (ms * 1000)

  unfoldable pub reset_target : Bool → World → Bool × World
  reset_target bootloader w =
      let boot0 = pin_write gpio_boot0 bootloader w in
      let low = pin_write gpio_nrst false (delay_ms boot0_settle_ms boot0.1) in
      let high = pin_write gpio_nrst true (delay_ms reset_hold_ms low.1) in
      let settle = if bootloader then boot_settle_ms else run_settle_ms in
      if not boot0.0
      then boot0
      else if not low.0
      then low
      else if not high.0
      then high
      else (true, delay_ms settle high.1)

  -- The loop of write_image over the chunks of the file, with fuel; `none` is a lack of it.
  unfoldable pub image_loop : ℕ → ℕ → ℕ → ℕ → Ota World → Option (Bool × Ota World)
  image_loop zero fd len off o = none
  image_loop (suc fuel) fd len off o =
      let got = e.read fd chunk_max o.world in
      let wrote = an_write e (padded got.0) (record o { world = got.1 }) in
      let rest = image_loop fuel fd len (off + length got.0) wrote.1 in
      if leb len off
      then some (true, o)
      else if length got.0 == 0
      then some (false, record o { world = got.1 })
      else if not wrote.0
      then some wrote
      else rest

  unfoldable pub imaged : Ota World → Option (Bool × Ota World) → Bool × Ota World
  imaged o none = (false, o)
  imaged o (some result) = result

  -- write_image; true is its result 0. A round writes one byte or more.
  unfoldable pub write_image : ℕ → ℕ → Ota World → Bool × Ota World
  write_image fd len o =
      let reset = reset_target true o.world in
      let sync = an_sync e (record o { world = reset.1 }) in
      let id = an_get_id e sync.1 in
      let erase = an_erase e id.1 in
      let start = record erase.1 { addr = flash_origin } in
      if not reset.0
      then (false, record o { world = reset.1 })
      else if not sync.0
      then sync
      else if not id.0
      then id
      else if not erase.0
      then erase
      else imaged start (image_loop (len + 1) fd len 0 start)

  -- flash; true is its result 0.
  unfoldable pub flash : ℕ → ℕ → Ota World → Bool × Ota World
  flash fd len o =
      let raw = raw_enter e o in
      let image = write_image fd len raw.1 in
      let run = reset_target false (image.1).world in
      if not raw.0 then raw else (run.0 && image.0, record image.1 { world = run.1 })
