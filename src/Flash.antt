-- ===== src/Flash.antt =====
-- boards/hazk03-stm32f105rb/src/stm32_flash.c: the store of the settings, two records in two sectors
-- of the flash. The driver of the flash (MTD of NuttX) is the interface Mtd.
pub mod Record
pub mod Keep
pub mod Loss
pub mod Power
pub mod Examples
use telegraph_stm_fw.Base.{
  ℕ, ◌+◌, ◌*◌, List, ◌∷◌, ◌++◌, take, drop, replicate, byte_at, Bool, true, false, Option, none,
  some, ◌==◌, ◌!=◌, ◌||◌, ltb, if◌then◌else◌, u32,
}
use telegraph_stm_fw.Ipc.Crc.{crc16}
use telegraph_stm_fw.Ipc.Wire.{get_u16, get_u32, put_u16, put_u32}
use telegraph_stm_fw.Server.Board.{Config}
use telegraph_stm_fw.Time.{same_bytes}

-- MTD_BREAD of one block, MTD_ERASE of one sector and MTD_BWRITE of one block; `none` and `false` are
-- the results that the store takes for a failure.
pub record Mtd : Type 1 where
  pub World : Type 0
  pub bread : ℕ → World → Option (List ℕ)
  pub erase : ℕ → World → Bool × World
  pub bwrite : ℕ → List ℕ → World → Bool × World

abbrev pub config_magic : ℕ
config_magic = 0x484b4746

abbrev pub config_blocksize : ℕ
config_blocksize = 256

-- W25_BLOCKS_PER_SECTOR
abbrev pub blocks_per_sector : ℕ
blocks_per_sector = 16

-- CONFIG_BLOCK
abbrev pub config_block : ℕ → ℕ
config_block n = n * blocks_per_sector

abbrev pub off_settings : ℕ
off_settings = 12

abbrev pub settings_max : ℕ
settings_max = 64

-- sizeof(struct hazk03_config_s)
abbrev pub config_size : ℕ
config_size = 10

-- HAZK03_CONFIG_DEFAULTS
abbrev pub defaults : Config
defaults = record {
  utcoffset = 0;
  digits = 5;
  panels = 8;
  tempoffset = 0;
  sleepmin = 0xffff;
  wakemin = 0xffff;
}

-- The bytes of struct hazk03_config_s, and the structure that some bytes are.
pub config_bytes : Config → List ℕ
config_bytes c =
    put_u16 c.utcoffset
    ++ c.digits ∷ c.panels ∷ put_u16 c.tempoffset
    ++ put_u16 c.sleepmin
    ++ put_u16 c.wakemin

pub config_of : List ℕ → Config
config_of bytes = record {
  utcoffset = get_u16 bytes;
  digits = byte_at bytes 2;
  panels = byte_at bytes 3;
  tempoffset = get_u16 (drop 4 bytes);
  sleepmin = get_u16 (drop 6 bytes);
  wakemin = get_u16 (drop 8 bytes);
}

-- What a record carries over the defaults.
pub over_defaults : ℕ → List ℕ → Config
over_defaults len bytes = config_of (take len bytes ++ drop len (config_bytes defaults))

pub record Saved : Type 0 where
  pub seq : ℕ
  pub cfg : Config

-- config_read_slot, of the block that it reads.
pub read_record : List ℕ → Option Saved
read_record block =
    let len = get_u16 (drop 10 block) in
    let used = if ltb config_size len then config_size else len in
    if get_u32 block != config_magic
    then none
    else if ltb settings_max len || ltb config_blocksize (off_settings + len + 2)
    then none
    else if crc16 (some (take (off_settings + len) block))
        != get_u16 (drop (off_settings + len) block)
    then none
    else some (record {
      seq = get_u32 (drop 4 block);
      cfg = over_defaults used (drop off_settings block);
    })

pub read_block : Option (List ℕ) → Option Saved
read_block none = none
read_block (some block) = read_record block

-- g_config_slot (`none` for -1), g_config_seq, and g_config_cur with g_config_valid.
pub record Store : Type 0 where
  pub slot : Option ℕ
  pub seq : ℕ
  pub cur : Option Config

-- The store after a reset.
abbrev pub fresh : Store
fresh = record { slot = none; seq = 0; cur = none }

-- What the loop of hazk03_config_load keeps: the store and the settings found.
pub record Loading : Type 0 where
  pub store : Store
  pub found : Option Config

abbrev not_found : Option Config → Bool
not_found none = true
not_found (some c) = false

-- The body of that loop, with the record of the slot.
pub take_record : ℕ → Option Saved → Loading → Loading
take_record slot none l = l
take_record slot (some r) l =
    if not_found l.found || ltb l.store.seq r.seq
    then record { store = record l.store { seq = r.seq; slot = some slot }; found = some r.cfg }
    else l

-- What follows the loop.
pub keep_found : Loading → Loading
keep_found l = elim l.found [
  | none ↦ l
  | some c ↦ record l { store = record l.store { cur = some c } }
]

-- The bytes of a record before its check value, and the whole block.
pub record_bytes : ℕ → Config → List ℕ
record_bytes seq c =
    put_u32 config_magic ++ put_u32 seq ++ put_u16 1 ++ put_u16 config_size ++ config_bytes c

pub record_block : ℕ → Config → List ℕ
record_block seq c =
    record_bytes seq c ++ put_u16 (crc16 (some (record_bytes seq c))) ++ replicate 232 0xff

-- g_config_valid, and the memcmp of hazk03_config_save.
pub same_settings : Option Config → Config → Bool
same_settings none c = false
same_settings (some cur) c = same_bytes (config_bytes cur) (config_bytes c)

-- The record that a save writes to.
pub target : Option ℕ → ℕ
target none = 0
target (some k) = if k == 0 then 1 else 0

module _ (m : Mtd) where
  open m use {World}

  -- config_read_slot
  pub read_slot : ℕ → World → Option Saved
  read_slot slot w = read_block (m.bread (config_block slot) w)

  -- hazk03_config_load, with the device present and a place for the result; `found` is `none` for
  -- -ENOENT.
  pub config_load : World → Store → Loading
  config_load w s = keep_found (
      take_record 1 (read_slot 1 w)
        (take_record 0 (read_slot 0 w) (record { store = s; found = none })))

  -- The result of hazk03_config_save: OK or an error, the store and the flash.
  pub record Written : Type 0 where
    pub ok : Bool
    pub store : Store
    pub world : World

  pub write_record : ℕ → Config → Store → World → Written
  write_record slot c s w =
      let seq = u32 (s.seq + 1) in
      let erased = m.erase slot w in
      let put = m.bwrite (config_block slot) (record_block seq c) erased.1 in
      if erased.0
      then (if put.0
          then record {
            ok = true;
            store = record { slot = some slot; seq = seq; cur = some c };
            world = put.1;
          }
          else record { ok = false; store = s; world = put.1 })
      else record { ok = false; store = s; world = erased.1 }

  -- hazk03_config_save, with the device present.
  pub config_save : Config → Store → World → Written
  config_save c s w =
      let new = write_record (target s.slot) c s w in
      if same_settings s.cur c then record { ok = true; store = s; world = w } else new
