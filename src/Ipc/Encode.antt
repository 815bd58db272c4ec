-- ===== src/Ipc/Encode.antt =====
-- ipc/src/ipc_encode.c: a frame written into a buffer. The bytes written stand from the start of
-- the destination; what the destination held after them stays.
pub mod Layout
use telegraph_stm_fw.Base.{
  ℕ, ◌+◌, Bool, true, false, List, [], ◌∷◌, ◌++◌, Option, none, some, take, ltb, ◌&&◌, ◌||◌, not,
  if◌then◌else◌,
}
use telegraph_stm_fw.Ipc.Crc.{crc16}
use telegraph_stm_fw.Ipc.Wire.{ipc_sof, ipc_frame_overhead, ipc_max_payload, put_u16}

-- The negative codes IPC_ERR_ARG, IPC_ERR_SPACE and IPC_ERR_TOO_LARGE, or the bytes written, whose
-- number the function returns.
pub data Encoded : Type 0 where
  err_arg err_space err_too_large : Encoded
  written : List ℕ → Encoded

abbrev pub is_null : Option (List ℕ) → Bool
is_null none = true
is_null (some bytes) = false

abbrev copied : ℕ → Option (List ℕ) → List ℕ
copied n none = []
copied n (some bytes) = take n bytes

-- The bytes that the check value covers: from LEN to the end of the payload.
unfoldable pub covered : ℕ → ℕ → List ℕ → ℕ → List ℕ
covered opcode corr_id payload payload_len =
    put_u16 payload_len ++ opcode ∷ put_u16 corr_id ++ payload

unfoldable pub frame_bytes : ℕ → ℕ → List ℕ → ℕ → List ℕ
frame_bytes opcode corr_id payload payload_len =
    let body = covered opcode corr_id payload payload_len in
    ipc_sof ∷ body ++ put_u16 (crc16 (some body))

-- ipc_encode; `has_dst` is false where `dst` is NULL.
unfoldable pub encode : Bool → ℕ → ℕ → ℕ → Option (List ℕ) → ℕ → Encoded
encode has_dst dstlen opcode corr_id payload payload_len =
    if not has_dst || (is_null payload && ltb 0 payload_len)
    then err_arg
    else if ltb ipc_max_payload payload_len
    then err_too_large
    else if ltb dstlen (payload_len + ipc_frame_overhead)
    then err_space
    else written (frame_bytes opcode corr_id (copied payload_len payload) payload_len)

-- ipc_encode_ack and ipc_encode_nack
pub encode_ack : Bool → ℕ → ℕ → ℕ → Encoded
encode_ack has_dst dstlen corr_id credits =
    encode has_dst dstlen 0xf0 corr_id (some (credits ∷ [])) 1

pub encode_nack : Bool → ℕ → ℕ → ℕ → Encoded
encode_nack has_dst dstlen corr_id error = encode has_dst dstlen 0xf1 corr_id (some (error ∷ [])) 1
