-- ===== src/Ipc/Crc.antt =====
-- ipc/src/ipc_crc16.c: the check value of a frame and of a record of the settings, from a table
-- for 4 bits. A buffer is the list of its bytes; the NULL pointer is `none`.
pub mod Bitwise
use telegraph_stm_fw.Base.{
  ℕ, List, [], ◌∷◌, Option, none, some, bit_and, bit_xor, u16, ◌<<<◌, ◌>>>◌, byte_at,
}

-- g_crc16_nibble
abbrev pub crc16_nibble : List ℕ
crc16_nibble =
    0x0000 ∷ 0x1021 ∷ 0x2042 ∷ 0x3063 ∷ 0x4084 ∷ 0x50a5 ∷ 0x60c6 ∷ 0x70e7 ∷ 0x8108 ∷ 0x9129 ∷ 0xa14a
    ∷ 0xb16b ∷ 0xc18c ∷ 0xd1ad ∷ 0xe1ce ∷ 0xf1ef ∷ []

-- One of the two assignments of the loop; `nibble` is `byte >> 4` or `byte & 0x0f`.
unfoldable pub crc16_step : ℕ → ℕ → ℕ
crc16_step crc nibble =
    u16 (bit_xor (crc <<< 4) (byte_at crc16_nibble (bit_and (bit_xor (crc >>> 12) nibble) 0x0f)))

-- The body of the loop.
unfoldable pub crc16_byte : ℕ → ℕ → ℕ
crc16_byte crc byte = crc16_step (crc16_step crc (byte >>> 4)) (bit_and byte 0x0f)

unfoldable pub crc16_loop : ℕ → List ℕ → ℕ
crc16_loop crc [] = crc
crc16_loop crc (byte ∷ bytes) = crc16_loop (crc16_byte crc byte) bytes

-- ipc_crc16; `len` is the length of the buffer.
unfoldable pub crc16 : Option (List ℕ) → ℕ
crc16 none = 0xffff
crc16 (some bytes) = crc16_loop 0xffff bytes
