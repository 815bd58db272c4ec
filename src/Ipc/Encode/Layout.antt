-- ===== src/Ipc/Encode/Layout.antt =====
-- The bytes of a frame: six of the header, the payload, two of the check value.
use telegraph_stm_fw.Base.{
  ℕ, ◌+◌, ◌/◌, ◌%◌, ◌≤◌, ◌<◌, ◌≡◌, refl, ap, List, [], ◌∷◌, ◌++◌, length, length-append, some, take,
  true, arith,
}
use telegraph_stm_fw.Ipc.Crc.{crc16}
use telegraph_stm_fw.Ipc.Crc.Bitwise.{crc16-lt}
use telegraph_stm_fw.Ipc.Wire.{ipc_sof, ipc_frame_overhead, put_u16}
use telegraph_stm_fw.Ipc.Wire.Fields.{put_u16-bytes}
use telegraph_stm_fw.Ipc.Encode.{covered, frame_bytes, encode, encode_ack, encode_nack, written}

-- The check value of a frame.
abbrev pub check_value : ℕ → ℕ → List ℕ → ℕ → ℕ
check_value opcode corr_id payload payload_len =
    crc16 (some (covered opcode corr_id payload payload_len))

pub covered-layout :
    (opcode corr_id : ℕ) (payload : List ℕ) (n : ℕ)
    → corr_id < 65536
    → n < 65536
    → covered opcode corr_id payload n
      ≡ n % 256 ∷ n / 256 ∷ opcode ∷ corr_id % 256 ∷ corr_id / 256 ∷ payload
unfolding covered
covered-layout opcode corr_id payload n hc hn = rw (put_u16-bytes n hn, put_u16-bytes corr_id hc)

pub frame_bytes-layout :
    (opcode corr_id : ℕ) (payload : List ℕ) (n : ℕ)
    → corr_id < 65536
    → n < 65536
    → frame_bytes opcode corr_id payload n
      ≡ ipc_sof
        ∷ n % 256
        ∷ n / 256
        ∷ opcode
        ∷ corr_id % 256
        ∷ corr_id / 256
        ∷ (payload ++ put_u16 (check_value opcode corr_id payload n))
unfolding frame_bytes
frame_bytes-layout opcode corr_id payload n hc hn =
    ap (λ (body : List ℕ). ipc_sof ∷ (body ++ put_u16 (check_value opcode corr_id payload n)))
      (covered-layout opcode corr_id payload n hc hn)

pub length-frame_bytes :
    (opcode corr_id : ℕ) (payload : List ℕ) (n : ℕ)
    → corr_id < 65536
    → n < 65536
    → length (frame_bytes opcode corr_id payload n) ≡ length payload + ipc_frame_overhead
length-frame_bytes opcode corr_id payload n hc hn =
    let crc = check_value opcode corr_id payload n in
    rw
      (
        frame_bytes-layout opcode corr_id payload n hc hn,
        put_u16-bytes crc (crc16-lt (covered opcode corr_id payload n)),
      )
      (omega (arith, length-append payload (crc % 256 ∷ crc / 256 ∷ [])))

pub encode-written :
    (opcode corr_id : ℕ) (payload : List ℕ)
    → length payload ≤ 1024
    → encode true 1032 opcode corr_id (some payload) (length payload)
      ≡ written (frame_bytes opcode corr_id (take (length payload) payload) (length payload))
unfolding encode
encode-written opcode corr_id payload h = ground arith

pub encode_ack-written :
    (corr_id credits : ℕ)
    → encode_ack true 1032 corr_id credits ≡ written (frame_bytes 0xf0 corr_id (credits ∷ []) 1)
unfolding encode_ack encode
encode_ack-written corr_id credits = refl

pub encode_nack-written :
    (corr_id error : ℕ)
    → encode_nack true 1032 corr_id error ≡ written (frame_bytes 0xf1 corr_id (error ∷ []) 1)
unfolding encode_nack encode
encode_nack-written corr_id error = refl
