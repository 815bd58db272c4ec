-- ===== src/Flash/Record.antt =====
-- A record of the settings, written and read back.
use telegraph_stm_fw.Base.{
  ℕ, ◌/◌, ◌%◌, ◌^◌, ◌<◌, ◌≡◌, sym, ap, ◌∙◌, List, [], ◌∷◌, take, drop, replicate, some, arith, ◌!=◌,
  true, false, length,
}
use telegraph_stm_fw.Ipc.Crc.{crc16}
use telegraph_stm_fw.Ipc.Crc.Bitwise.{crc16-lt}
use telegraph_stm_fw.Ipc.Wire.{get_u16, get_u32}
use telegraph_stm_fw.Ipc.Wire.Fields.{get_u16-bytes, get_u32-bytes, put_u16-bytes, put_u32-bytes}
use telegraph_stm_fw.Server.Board.{Config}
use telegraph_stm_fw.Time.Texts.{same_bytes-eq}
use telegraph_stm_fw.Flash.{
  config_bytes, config_of, over_defaults, read_record, record_bytes, record_block, same_settings,
  config_magic, defaults,
}

-- Settings whose fields fit their types.
pub record IsConfig (c : Config) : Type 0 where
  pub utcoffset : c.utcoffset < 65536
  pub digits : c.digits < 256
  pub panels : c.panels < 256
  pub tempoffset : c.tempoffset < 65536
  pub sleepmin : c.sleepmin < 65536
  pub wakemin : c.wakemin < 65536

abbrev settings_list : Config → List ℕ → List ℕ
settings_list c rest =
    c.utcoffset % 256
    ∷ c.utcoffset / 256
    ∷ c.digits
    ∷ c.panels
    ∷ c.tempoffset % 256
    ∷ c.tempoffset / 256
    ∷ c.sleepmin % 256
    ∷ c.sleepmin / 256
    ∷ c.wakemin % 256
    ∷ c.wakemin / 256
    ∷ rest

abbrev header_list : ℕ → List ℕ → List ℕ
header_list seq rest =
    0x46
    ∷ 0x47
    ∷ 0x4b
    ∷ 0x48
    ∷ seq % 256
    ∷ seq / 256 % 256
    ∷ seq / 65536 % 256
    ∷ seq / 16777216 % 256
    ∷ 1
    ∷ 0
    ∷ 10
    ∷ 0
    ∷ rest

config_bytes-list : (c : Config) → IsConfig c → config_bytes c ≡ settings_list c []
unfolding config_bytes
config_bytes-list c ok = rw (
  put_u16-bytes c.utcoffset ok.utcoffset,
  put_u16-bytes c.tempoffset ok.tempoffset,
  put_u16-bytes c.sleepmin ok.sleepmin,
  put_u16-bytes c.wakemin ok.wakemin,
)

record_bytes-list :
    (seq : ℕ) (c : Config) → IsConfig c → record_bytes seq c ≡ header_list seq (settings_list c [])
unfolding record_bytes
record_bytes-list seq c ok = rw (
  put_u32-bytes config_magic,
  put_u32-bytes seq,
  put_u16-bytes 1 (omega arith),
  put_u16-bytes 10 (omega arith),
  config_bytes-list c ok,
)

config_of-list : (c : Config) (rest : List ℕ) → IsConfig c → config_of (settings_list c rest) ≡ c
unfolding config_of
config_of-list c rest ok = rw (
  get_u16-bytes c.utcoffset _ ok.utcoffset,
  get_u16-bytes c.tempoffset _ ok.tempoffset,
  get_u16-bytes c.sleepmin _ ok.sleepmin,
  get_u16-bytes c.wakemin _ ok.wakemin,
)

good_record :
    (block : List ℕ) (seq : ℕ) (c : Config)
    → get_u32 block ≡ config_magic
    → get_u16 (drop 10 block) ≡ 10
    → crc16 (some (take 22 block)) ≡ get_u16 (drop 22 block)
    → get_u32 (drop 4 block) ≡ seq
    → over_defaults 10 (drop 12 block) ≡ c
    → read_record block ≡ some (record { seq = seq; cfg = c })
unfolding read_record
good_record block seq c magic len check number settings =
    let same : (crc16 (some (take 22 block)) != get_u16 (drop 22 block)) ≡ false = ground arith in
    rw (magic, len, same, number, settings)

module _ (seq : ℕ) (c : Config) (ok : IsConfig c) (small : seq < 2 ^ 32) where
  abbrev crc : ℕ
  crc = crc16 (some (header_list seq (settings_list c [])))

  abbrev tail : List ℕ
  tail = crc % 256 ∷ crc / 256 ∷ replicate 232 0xff

  abbrev block_list : List ℕ
  block_list = header_list seq (settings_list c tail)

  record_block-list : record_block seq c ≡ block_list
  unfolding record_block
  record_block-list = rw (
    record_bytes-list seq c ok,
    put_u16-bytes crc (crc16-lt (header_list seq (settings_list c []))),
  )

  pub length-record_block : length (record_block seq c) ≡ 256
  length-record_block = rw record_block-list

  over-list : over_defaults 10 (settings_list c tail) ≡ c
  unfolding over_defaults
  over-list = config_of-list c (drop 10 (config_bytes defaults)) ok

  read_record-list : read_record block_list ≡ some (record { seq = seq; cfg = c })
  read_record-list =
      good_record block_list seq c (get_u32-bytes config_magic (drop 4 block_list) (omega arith))
        (get_u16-bytes 10 (settings_list c tail) (omega arith))
        (sym (
          get_u16-bytes crc (replicate 232 0xff) (crc16-lt (header_list seq (settings_list c [])))))
        (get_u32-bytes seq (drop 8 block_list) small) over-list

-- A record that a save writes is read back, with its number and its settings.
pub read_record-record_block :
    (seq : ℕ) (c : Config)
    → seq < 2 ^ 32
    → IsConfig c
    → read_record (record_block seq c) ≡ some (record { seq = seq; cfg = c })
read_record-record_block seq c small ok =
    ap read_record (record_block-list seq c ok small) ∙ read_record-list seq c ok small

-- Two settings with the same bytes are the same.
pub same_settings-eq :
    (c d : Config) → IsConfig c → IsConfig d → same_settings (some c) d ≡ true → c ≡ d
unfolding same_settings
same_settings-eq c d p q h =
    let e : settings_list c [] ≡ settings_list d [] =
      sym (config_bytes-list c p)
      ∙ same_bytes-eq (config_bytes c) (config_bytes d) h
      ∙ config_bytes-list d q in
    sym (config_of-list c [] p) ∙ ap config_of e ∙ config_of-list d [] q
