-- ===== src/Ipc/Parser/Genuine.antt =====
-- The frames delivered against the bytes of the buffer that they came from.
use telegraph_stm_fw.Base.{
  ℕ, ◌+◌, ◌/◌, ◌%◌, ◌≤◌, ◌<◌, ◌≡◌, ◌≢◌, refl, sym, ap, ap₂, subst, map, ◌∙◌, List, [], ◌∷◌, ◌++◌,
  true, some, ◌⊎◌, length, take, drop, drop-drop, take-append-drop, length-take, length-drop,
  byte_at, ltb, ◌==◌, ◌!=◌, ==_iff, ==-ne, !=-eq, !=-ne, arith, Bool-cases, ltb→le, ltb→lt, inl,
  inr, IsBytes, All-drop,
}
use telegraph_stm_fw.Ipc.Crc.{crc16}
use telegraph_stm_fw.Ipc.Wire.{
  Frame, get_u16, put_u16, ipc_sof, ipc_frame_overhead, ipc_max_payload,
}
use telegraph_stm_fw.Ipc.Wire.Fields.{get_u16-sum, get_u16-lt, put_u16-get_u16}
use telegraph_stm_fw.Ipc.Encode.Layout.{covered-layout, check_value}
use telegraph_stm_fw.Ipc.Parser.{
  Parser, Stats, Call, Turn, stop, again, deliver, drain_turn, Taken, idle, after_call, drain,
}
use telegraph_stm_fw.Ipc.Parser.Drains.{Drains, ends, resyncs, delivers, drain-Drains}
use telegraph_stm_fw.Ipc.Parser.Candidate.{
  headed, named_len, computed_check, drain_turn-headed, drain_turn-too_long, drain_frame_complete,
  drain_frame-short, drain_frame-wrong,
}
use telegraph_stm_fw.Ipc.Parser.Frames.{Sendable, encoded, encoded-layout}

-- A frame that a turn delivers is one that a sender may send, and its encoding is what the turn
-- takes off the front of the buffer.
abbrev pub Genuine : Parser → Turn → Type 0
Genuine p stop = Unit
Genuine p (again q) = Unit
Genuine p (deliver c q) = Sendable c.frame × (p.buf ≡ encoded c.frame ++ q.buf)

two_bytes :
    (bytes : List ℕ)
    → 2 ≤ length bytes
    → IsBytes bytes
    → put_u16 (get_u16 bytes) ++ drop 2 bytes ≡ bytes
two_bytes [] h b = absurd (omega arith)
two_bytes (x ∷ []) h b = absurd (omega arith)
two_bytes (x ∷ y ∷ rest) h b = ap (λ (z : List ℕ). z ++ rest) (put_u16-get_u16 x y rest b.0 b.1.0)

module _ (l h op c d : ℕ) (body : List ℕ) (s : Stats)
    (bytes : IsBytes (l ∷ h ∷ op ∷ c ∷ d ∷ body)) where
  abbrev len : ℕ
  len = named_len l h op c d body s

  abbrev corr : ℕ
  corr = get_u16 (c ∷ d ∷ body)

  len_bytes : (len % 256 ≡ l) × (len / 256 ≡ h)
  len_bytes = omega (arith, get_u16-sum (l ∷ h ∷ op ∷ c ∷ d ∷ body) bytes.0 bytes.1.0)

  corr_bytes : (corr % 256 ≡ c) × (corr / 256 ≡ d)
  corr_bytes = omega (arith, get_u16-sum (c ∷ d ∷ body) bytes.1.1.1.0 bytes.1.1.1.1.0)

  check_eq :
      len ≤ ipc_max_payload
      → check_value op corr (take len body) len ≡ computed_check l h op c d body s len
  check_eq fits =
      ap (λ (b : List ℕ). crc16 (some b))
        (covered-layout op corr (take len body) len (get_u16-lt (c ∷ d ∷ body)) (omega arith)
          ∙ ap₂ (λ x y. x ∷ y ∷ op ∷ corr % 256 ∷ corr / 256 ∷ take len body) len_bytes.0
              len_bytes.1
          ∙ ap₂ (λ x y. l ∷ h ∷ op ∷ x ∷ y ∷ take len body) corr_bytes.0 corr_bytes.1)

  body_parts :
      len + 2 ≤ length body
      → take len body ++ (put_u16 (get_u16 (drop len body)) ++ drop (len + 2) body) ≡ body
  body_parts room =
      ap (λ (b : List ℕ). take len body ++ b)
        (ap (λ (b : List ℕ). put_u16 (get_u16 (drop len body)) ++ b) (sym (drop-drop 2 len body))
          ∙ two_bytes (drop len body) (omega (arith, length-drop len body))
              (All-drop _ len body bytes.1.1.1.1.1))
      ∙ take-append-drop len body

  candidate_frame : Frame
  candidate_frame = record {
    opcode = op;
    corr_id = corr;
    payload = take len body;
    payload_len = len;
  }

  candidate-Sendable : len ≤ ipc_max_payload → len + 2 ≤ length body → Sendable candidate_frame
  unfolding candidate_frame
  candidate-Sendable fits room = record {
    corr_id = get_u16-lt (c ∷ d ∷ body);
    payload_len = omega (arith, length-take len body);
    fits = fits;
  }

  encoded_candidate :
      len ≤ ipc_max_payload
      → len + 2 ≤ length body
      → computed_check l h op c d body s len ≡ get_u16 (drop len body)
      → encoded candidate_frame ++ drop (len + 2) body ≡ ipc_sof ∷ l ∷ h ∷ op ∷ c ∷ d ∷ body
  unfolding candidate_frame
  encoded_candidate fits room check =
      let tail : List ℕ =
        take len body
        ++ (put_u16 (check_value op corr (take len body) len) ++ drop (len + 2) body) in
      encoded-layout candidate_frame (drop (len + 2) body) (candidate-Sendable fits room)
      ∙ ap₂ (λ x y. ipc_sof ∷ x ∷ y ∷ op ∷ corr % 256 ∷ corr / 256 ∷ tail) len_bytes.0 len_bytes.1
      ∙ ap₂ (λ x y. ipc_sof ∷ l ∷ h ∷ op ∷ x ∷ y ∷ tail) corr_bytes.0 corr_bytes.1
      ∙ ap
          (λ (k : ℕ).
            ipc_sof ∷ l ∷ h ∷ op ∷ c ∷ d ∷ (take len body ++ (put_u16 k ++ drop (len + 2) body)))
          (check_eq fits ∙ check)
      ∙ ap (λ (b : List ℕ). ipc_sof ∷ l ∷ h ∷ op ∷ c ∷ d ∷ b) (body_parts room)

  Genuine-headed : Genuine (headed l h op c d body s) (drain_turn (headed l h op c d body s))
  unfolding candidate_frame
  Genuine-headed = elim (Bool-cases (ltb ipc_max_payload len)) [
    | inl too_long ↦ rw (drain_turn-too_long l h op c d body s (ltb→lt _ _ too_long)) tt
    | inr fits ↦
        let le : len ≤ ipc_max_payload = ltb→le _ _ fits in
        rw (drain_turn-headed l h op c d body s le)
          (elim (Bool-cases (ltb (length body) (len + 2))) [
            | inl short ↦ rw (drain_frame-short l h op c d body s len le (ltb→lt _ _ short)) tt
            | inr long ↦
                let room : len + 2 ≤ length body = ltb→le _ _ long in
                elim (Bool-cases
                  (computed_check l h op c d body s len != get_u16 (drop len body))) [
                    | inl wrong ↦
                        rw (drain_frame-wrong l h op c d body s len le room (!=-ne _ _ wrong)) tt
                    | inr right ↦
                        let check = !=-eq _ _ right in
                        rw (drain_frame_complete l h op c d body s len le room check)
                          (candidate-Sendable le room, sym (encoded_candidate le room check))
                  ]
          ])
  ]

-- A buffer of bytes that holds no whole header, or begins with no start byte, delivers nothing.
Genuine-no_header :
    (p : Parser) → (length p.buf < 6) ⊎ (byte_at p.buf 0 ≢ ipc_sof) → Genuine p (drain_turn p)
unfolding drain_turn
Genuine-no_header p h = elim (Bool-cases (length p.buf == 0)) [
  | inl empty ↦ rw empty tt
  | inr full ↦ rw full (elim (Bool-cases (byte_at p.buf 0 != ipc_sof)) [
    | inl no_sof ↦ rw no_sof tt
    | inr sof ↦
        let short : ltb (length p.buf) 6 ≡ true = ground (arith, !=-eq _ _ sof) in
        rw (sof, short) tt
  ])
]

abbrev holding : List ℕ → Stats → Parser
holding buf s = record { buf = buf; stats = s }

Genuine-buf :
    (buf : List ℕ) (s : Stats) → IsBytes buf → Genuine (holding buf s) (drain_turn (holding buf s))
Genuine-buf (a ∷ l ∷ h ∷ op ∷ c ∷ d ∷ body) s bytes = elim (Bool-cases (a == ipc_sof)) [
  | inl sof ↦ rw ((==_iff a ipc_sof).0 sof) (Genuine-headed l h op c d body s bytes.1)
  | inr other ↦
      Genuine-no_header (holding (a ∷ l ∷ h ∷ op ∷ c ∷ d ∷ body) s) (inr (==-ne a ipc_sof other))
]
Genuine-buf [] s bytes = Genuine-no_header (holding [] s) (inl (omega arith))
Genuine-buf (a ∷ []) s bytes = Genuine-no_header (holding (a ∷ []) s) (inl (omega arith))
Genuine-buf (a ∷ b ∷ []) s bytes = Genuine-no_header (holding (a ∷ b ∷ []) s) (inl (omega arith))
Genuine-buf (a ∷ b ∷ c ∷ []) s bytes =
    Genuine-no_header (holding (a ∷ b ∷ c ∷ []) s) (inl (omega arith))
Genuine-buf (a ∷ b ∷ c ∷ d ∷ []) s bytes =
    Genuine-no_header (holding (a ∷ b ∷ c ∷ d ∷ []) s) (inl (omega arith))
Genuine-buf (a ∷ b ∷ c ∷ d ∷ e ∷ []) s bytes =
    Genuine-no_header (holding (a ∷ b ∷ c ∷ d ∷ e ∷ []) s) (inl (omega arith))

pub drain_turn-Genuine : (p : Parser) (t : Turn) → IsBytes p.buf → drain_turn p ≡ t → Genuine p t
drain_turn-Genuine p t bytes e = subst (Genuine p) e (Genuine-buf p.buf p.stats bytes)

-- `bytes` read as the encodings of `frames`, in order, with other bytes skipped between them, up to
-- the bytes `rest` that remain.
pub data Reads : List ℕ → List Frame → List ℕ → Type 0 where
  done : (bytes rest : List ℕ) → bytes ≡ rest → Reads bytes [] rest
  skip :
      (n : ℕ) (bytes rest : List ℕ) (frames : List Frame)
      → Reads (drop n bytes) frames rest
      → Reads bytes frames rest
  take_frame :
      (f : Frame) (bytes more rest : List ℕ) (frames : List Frame)
      → Sendable f
      → bytes ≡ encoded f ++ more
      → Reads more frames rest
      → Reads bytes (f ∷ frames) rest

abbrev pub frames_of : List Call → List Frame
frames_of = map (λ c. c.frame)

Drains-Reads :
    {p : Parser} {t : Taken}
    → Drains p t
    → IsBytes p.buf
    → Reads p.buf (frames_of t.calls) t.parser.buf
unfolding idle after_call
Drains-Reads (ends p t e i) bytes = rw i (done p.buf p.buf refl)
Drains-Reads (resyncs p q t e (n, pos, le, buf, d, f) dr) bytes =
    skip n p.buf t.parser.buf (frames_of t.calls)
      (rw buf at (Drains-Reads dr (rw buf (All-drop _ n p.buf bytes))))
Drains-Reads (delivers p q c t u e (max, le, buf, d, f) dr i) bytes =
    let (ok, front) = drain_turn-Genuine p (deliver c q) bytes e in
    rw i (
      take_frame c.frame p.buf q.buf t.parser.buf (frames_of t.calls) ok front (
        Drains-Reads dr
          (rw buf (All-drop _ (c.frame.payload_len + ipc_frame_overhead) p.buf bytes))))

-- Every frame that one drain of a buffer of bytes hands to the callback stood in the buffer as the
-- encoder writes it, within the limit on its payload and with its check value right; the frames come
-- in the order of their bytes, none overlaps another, and what is left is the end of the buffer.
pub drain-Reads :
    (p : Parser) → IsBytes p.buf → Reads p.buf (frames_of (drain p).calls) (drain p).parser.buf
drain-Reads p bytes = Drains-Reads (drain-Drains p) bytes
