-- ===== src/Ipc/Parser/Frames.antt =====
-- The parser against the encoder, at a buffer that begins with an encoded frame.
use telegraph_stm_fw.Base.{
  ℕ, ◌+◌, ◌/◌, ◌%◌, ◌≤◌, ◌<◌, ◌≡◌, sym, ap, ◌∙◌, List, ◌∷◌, ◌++◌, some, length, take, drop,
  take-append_length, drop-append_length, drop-drop, append_assoc, length-append, u32, arith,
}
use telegraph_stm_fw.Ipc.Crc.{crc16}
use telegraph_stm_fw.Ipc.Crc.Bitwise.{crc16-lt}
use telegraph_stm_fw.Ipc.Wire.{Frame, get_u16, put_u16, ipc_sof, ipc_max_payload}
use telegraph_stm_fw.Ipc.Wire.Fields.{put_u16-bytes, get_u16-put_u16}
use telegraph_stm_fw.Ipc.Encode.{covered, frame_bytes}
use telegraph_stm_fw.Ipc.Encode.Layout.{covered-layout, frame_bytes-layout, check_value}
use telegraph_stm_fw.Ipc.Parser.{Stats, deliver, drain_turn}
use telegraph_stm_fw.Ipc.Parser.Candidate.{
  named_len, computed_check, drain_turn-headed, drain_frame_complete,
}

-- What a sender may put into a frame.
pub record Sendable (f : Frame) : Type 0 where
  pub corr_id : f.corr_id < 65536
  pub payload_len : f.payload_len ≡ length f.payload
  pub fits : f.payload_len ≤ ipc_max_payload

abbrev pub encoded : Frame → List ℕ
encoded f = frame_bytes f.opcode f.corr_id f.payload f.payload_len

abbrev pub count_frame : Stats → Stats
count_frame s = record s { frames = u32 (s.frames + 1) }

pub field_low : (n : ℕ) (rest : List ℕ) → n < 65536 → get_u16 (n % 256 ∷ n / 256 ∷ rest) ≡ n
field_low n rest h =
    ap (λ (b : List ℕ). get_u16 (b ++ rest)) (sym (put_u16-bytes n h)) ∙ get_u16-put_u16 n rest h

-- The parts of what follows the header of an encoded frame: payload, check value, rest.
module _ (payload : List ℕ) (crc : ℕ) (rest : List ℕ) (crc_lt : crc < 65536) where
  abbrev after_header : List ℕ
  after_header = payload ++ (put_u16 crc ++ rest)

  payload_part : (n : ℕ) → n ≡ length payload → take n after_header ≡ payload
  payload_part n e =
      ap (λ (k : ℕ). take k after_header) e ∙ take-append_length payload (put_u16 crc ++ rest)

  after_payload : (n : ℕ) → n ≡ length payload → drop n after_header ≡ put_u16 crc ++ rest
  after_payload n e =
      ap (λ (k : ℕ). drop k after_header) e ∙ drop-append_length payload (put_u16 crc ++ rest)

  check_part : (n : ℕ) → n ≡ length payload → get_u16 (drop n after_header) ≡ crc
  check_part n e = ap get_u16 (after_payload n e) ∙ get_u16-put_u16 crc rest crc_lt

  rest_part : (n : ℕ) → n ≡ length payload → drop (n + 2) after_header ≡ rest
  rest_part n e =
      sym (drop-drop 2 n after_header)
      ∙ ap (drop 2) (after_payload n e)
      ∙ ap (λ (b : List ℕ). drop 2 (b ++ rest)) (put_u16-bytes crc crc_lt)

  length-after_header : length after_header ≡ length payload + 2 + length rest
  length-after_header =
      length-append payload (put_u16 crc ++ rest) ∙ rw (put_u16-bytes crc crc_lt) (omega arith)

pub encoded-layout :
    (f : Frame) (rest : List ℕ)
    → Sendable f
    → encoded f ++ rest
      ≡ ipc_sof
        ∷ f.payload_len % 256
        ∷ f.payload_len / 256
        ∷ f.opcode
        ∷ f.corr_id % 256
        ∷ f.corr_id / 256
        ∷ (f.payload ++ (put_u16 (check_value f.opcode f.corr_id f.payload f.payload_len) ++ rest))
encoded-layout f rest ok =
    ap (λ (b : List ℕ). b ++ rest)
      (frame_bytes-layout f.opcode f.corr_id f.payload f.payload_len ok.corr_id
        (omega (arith, ok.fits)))
    ∙ ap
        (λ (b : List ℕ).
          ipc_sof
          ∷ f.payload_len % 256
          ∷ f.payload_len / 256
          ∷ f.opcode
          ∷ f.corr_id % 256
          ∷ f.corr_id / 256
          ∷ b)
        (append_assoc f.payload (put_u16 (check_value f.opcode f.corr_id f.payload f.payload_len))
          rest)

-- A buffer that begins with an encoded frame: the next turn hands that frame to the callback, with
-- its opcode, its correlation id and its payload, and leaves exactly the bytes that follow it.
pub drain_turn-encoded :
    (f : Frame) (rest : List ℕ) (s : Stats)
    → Sendable f
    → drain_turn (record { buf = encoded f ++ rest; stats = s })
      ≡ deliver
          (record { frame = f; seen = count_frame s })
          (record { buf = rest; stats = count_frame s })
drain_turn-encoded f rest s ok =
    let n = f.payload_len in
    let crc = check_value f.opcode f.corr_id f.payload n in
    let crc_lt : crc < 65536 = crc16-lt (covered f.opcode f.corr_id f.payload n) in
    let body = f.payload ++ (put_u16 crc ++ rest) in
    let hn : n < 65536 = omega (arith, ok.fits) in
    let c = f.corr_id % 256 in
    let d = f.corr_id / 256 in
    let named : named_len (n % 256) (n / 256) f.opcode c d body s ≡ n = field_low n _ hn in
    let room : n + 2 ≤ length body =
      omega (arith, length-after_header f.payload crc rest crc_lt, ok.payload_len) in
    let part = payload_part f.payload crc rest crc_lt n ok.payload_len in
    let check : computed_check (n % 256) (n / 256) f.opcode c d body s n ≡ get_u16 (drop n body) =
      ap (λ (b : List ℕ). crc16 (some (n % 256 ∷ n / 256 ∷ f.opcode ∷ c ∷ d ∷ b))) part
      ∙ ap (λ (b : List ℕ). crc16 (some b))
          (sym (covered-layout f.opcode f.corr_id f.payload n ok.corr_id hn))
      ∙ sym (check_part f.payload crc rest crc_lt n ok.payload_len) in
    rw (
      encoded-layout f rest ok,
      drain_turn-headed (n % 256) (n / 256) f.opcode c d body s (rw named ok.fits),
      named,
      drain_frame_complete (n % 256) (n / 256) f.opcode c d body s n ok.fits room check,
      part,
      field_low f.corr_id body ok.corr_id,
      rest_part f.payload crc rest crc_lt n ok.payload_len,
    )
