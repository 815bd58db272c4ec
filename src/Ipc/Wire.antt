-- ===== src/Ipc/Wire.antt =====
-- ipc/include/telegraph/ipc.h: the constants of a frame, the little-endian fields of a payload, and
-- the frame that a receiver is given. A pointer into a buffer is the list of the bytes from there.
pub mod Fields
use telegraph_stm_fw.Base.{
  ℕ, ◌+◌, List, [], ◌∷◌, bit_and, bit_or, u8, u16, u32, ◌<<<◌, ◌>>>◌, byte_at,
}

abbrev pub ipc_sof : ℕ
ipc_sof = 0xaa

abbrev pub ipc_header_len : ℕ
ipc_header_len = 6

abbrev pub ipc_frame_overhead : ℕ
ipc_frame_overhead = ipc_header_len + 2

abbrev pub ipc_max_payload : ℕ
ipc_max_payload = 1024

abbrev pub ipc_frame_max : ℕ
ipc_frame_max = ipc_max_payload + ipc_frame_overhead

unfoldable pub get_u16 : List ℕ → ℕ
get_u16 bytes = u16 (bit_or (byte_at bytes 0) (byte_at bytes 1 <<< 8))

pub get_u32 : List ℕ → ℕ
get_u32 bytes =
    bit_or
      (bit_or (bit_or (byte_at bytes 0) (u32 (byte_at bytes 1 <<< 8)))
        (u32 (byte_at bytes 2 <<< 16)))
      (u32 (byte_at bytes 3 <<< 24))

unfoldable pub put_u16 : ℕ → List ℕ
put_u16 value = u8 (bit_and value 0xff) ∷ u8 (value >>> 8) ∷ []

unfoldable pub put_u32 : ℕ → List ℕ
put_u32 value =
    u8 (bit_and value 0xff)
    ∷ u8 (bit_and (value >>> 8) 0xff)
    ∷ u8 (bit_and (value >>> 16) 0xff)
    ∷ u8 (bit_and (value >>> 24) 0xff)
    ∷ []

-- struct ipc_frame_s: `payload` holds the bytes that the pointer and `payload_len` name.
pub record Frame : Type 0 where
  pub opcode : ℕ
  pub corr_id : ℕ
  pub payload : List ℕ
  pub payload_len : ℕ
