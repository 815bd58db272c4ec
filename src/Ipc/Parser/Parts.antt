-- ===== src/Ipc/Parser/Parts.antt =====
-- A stream of frames that reaches the parser in parts, cut anywhere.
use telegraph_stm_fw.Base.{
  ℕ, zero, suc, ◌+◌, ◌-◌, ◌/◌, ◌%◌, ◌≤◌, ◌<◌, ◌≡◌, refl, sym, ap, ap₂, ◌∙◌, inl, inr, Bool-cases,
  ltb→lt, List, [], ◌∷◌, ◌++◌, All, length, take, drop, length-take, append_assoc, append-nil,
  take-append-drop, ltb, arith,
}
use telegraph_stm_fw.Ipc.Wire.{Frame, put_u16, ipc_sof, ipc_max_payload, ipc_frame_overhead}
use telegraph_stm_fw.Ipc.Encode.Layout.{frame_bytes-layout, length-frame_bytes, check_value}
use telegraph_stm_fw.Ipc.Parser.{
  Parser, Stats, Call, stop, deliver, Taken, idle, after_call, drain_turn, drain_frame, drain,
}
use telegraph_stm_fw.Ipc.Parser.Candidate.{headed, named_len, drain_turn-headed, drain_frame-short}
use telegraph_stm_fw.Ipc.Parser.Drains.{Drains, ends, resyncs, delivers, drain-Drains}
use telegraph_stm_fw.Ipc.Parser.Frames.{
  Sendable, encoded, count_frame, drain_turn-encoded, field_low,
}
use telegraph_stm_fw.Ipc.Parser.Genuine.{frames_of}
use telegraph_stm_fw.Ipc.Parser.Stream.{stream, Delivered, kind_of, call_of, parser_of}

part_of_bytes :
    (n op c d : ℕ) (body : List ℕ) (s : Stats) (k : ℕ)
    → n ≤ ipc_max_payload
    → k < n + ipc_frame_overhead
    → drain_turn
        (record { buf = take k (ipc_sof ∷ n % 256 ∷ n / 256 ∷ op ∷ c ∷ d ∷ body); stats = s })
      ≡ stop
unfolding drain_turn
part_of_bytes n op c d body s zero le h = refl
part_of_bytes n op c d body s (suc zero) le h = refl
part_of_bytes n op c d body s (suc (suc zero)) le h = refl
part_of_bytes n op c d body s (suc (suc (suc zero))) le h = refl
part_of_bytes n op c d body s (suc (suc (suc (suc zero)))) le h = refl
part_of_bytes n op c d body s (suc (suc (suc (suc (suc zero))))) le h = refl
part_of_bytes n op c d body s (suc (suc (suc (suc (suc (suc j)))))) le h =
    let low = n % 256 in
    let high = n / 256 in
    let rest = take j body in
    let named : named_len low high op c d rest s ≡ n =
      field_low n (op ∷ c ∷ d ∷ rest) (omega arith) in
    let short = length-take j body in
    drain_turn-headed low high op c d rest s (omega (arith, named))
    ∙ ap (λ (m : ℕ). drain_frame (headed low high op c d rest s) m) named
    ∙ drain_frame-short low high op c d rest s n le (omega (arith, short))

-- The first bytes of a frame, short of its end, give the parser nothing to do.
drain_turn-part :
    (f : Frame) (k : ℕ) (s : Stats)
    → Sendable f
    → k < length (encoded f)
    → drain_turn (record { buf = take k (encoded f); stats = s }) ≡ stop
drain_turn-part f k s ok h =
    let n = f.payload_len in
    let size =
      length-frame_bytes f.opcode f.corr_id f.payload n ok.corr_id (omega (arith, ok.fits)) in
    let body = f.payload ++ put_u16 (check_value f.opcode f.corr_id f.payload n) in
    ap (λ (b : List ℕ). drain_turn (record { buf = take k b; stats = s }))
      (frame_bytes-layout f.opcode f.corr_id f.payload n ok.corr_id (omega (arith, ok.fits)))
    ∙ part_of_bytes n f.opcode (f.corr_id % 256) (f.corr_id / 256) body s k ok.fits
        (omega (arith, size, ok.payload_len))

-- Of the frames still to come, the bytes that are there: none of them is whole.
abbrev pub IsPart : List Frame → List ℕ → Type 0
IsPart [] part = part ≡ []
IsPart (f ∷ frames) part = (k : ℕ) × (k < length (encoded f)) × (part ≡ take k (encoded f))

-- The first bytes of a stream: whole frames, and a part of the next.
pub record Cut (n : ℕ) (frames : List Frame) : Type 0 where
  pub whole : List Frame
  pub rest : List Frame
  pub part : List ℕ
  pub in_order : frames ≡ whole ++ rest
  pub bytes : take n (stream frames) ≡ stream whole ++ part
  pub left : part ++ drop n (stream frames) ≡ stream rest
  pub is_part : IsPart rest part

take-append_left : (n : ℕ) (xs ys : List ℕ) → n ≤ length xs → take n (xs ++ ys) ≡ take n xs
take-append_left zero xs ys h = refl
take-append_left (suc n) [] ys h = absurd (omega arith)
take-append_left (suc n) (x ∷ xs) ys h =
    ap (λ (t : List ℕ). x ∷ t) (take-append_left n xs ys (omega arith))

take-append_right : (m : ℕ) (xs ys : List ℕ) → take (length xs + m) (xs ++ ys) ≡ xs ++ take m ys
take-append_right m [] ys = ap (λ (k : ℕ). take k ys) (omega arith)
take-append_right m (x ∷ xs) ys =
    let k : length (x ∷ xs) + m ≡ suc (length xs + m) = omega arith in
    rw k (ap (λ (t : List ℕ). x ∷ t) (take-append_right m xs ys))

drop-append_right : (m : ℕ) (xs ys : List ℕ) → drop (length xs + m) (xs ++ ys) ≡ drop m ys
drop-append_right m [] ys = ap (λ (k : ℕ). drop k ys) (omega arith)
drop-append_right m (x ∷ xs) ys =
    let k : length (x ∷ xs) + m ≡ suc (length xs + m) = omega arith in
    rw k (drop-append_right m xs ys)

pub cut : (n : ℕ) (frames : List Frame) → Cut n frames
unfolding stream
cut zero [] = record {
  whole = [];
  rest = [];
  part = [];
  in_order = refl;
  bytes = refl;
  left = refl;
  is_part = refl;
}
cut (suc n) [] = record {
  whole = [];
  rest = [];
  part = [];
  in_order = refl;
  bytes = refl;
  left = refl;
  is_part = refl;
}
cut n (f ∷ frames) =
    let bytes = encoded f in
    elim (Bool-cases (ltb n (length bytes))) [
      | inl short ↦
          let same = take-append_left n bytes (stream frames) (ground arith) in
          record {
            whole = [];
            rest = f ∷ frames;
            part = take n bytes;
            in_order = refl;
            bytes = same;
            left =
                ap (λ (t : List ℕ). t ++ drop n (bytes ++ stream frames)) (sym same)
                ∙ take-append-drop n (bytes ++ stream frames);
            is_part = (n, ltb→lt n (length bytes) short, refl);
          }
      | inr long ↦
          let m = n - length bytes in
          let r = cut m frames in
          let at : n ≡ length bytes + m = ground arith in
          record {
            whole = f ∷ r.whole;
            rest = r.rest;
            part = r.part;
            in_order = ap (λ (t : List Frame). f ∷ t) r.in_order;
            bytes =
                ap (λ (k : ℕ). take k (bytes ++ stream frames)) at
                ∙ take-append_right m bytes (stream frames)
                ∙ ap (λ (t : List ℕ). bytes ++ t) r.bytes
                ∙ sym (append_assoc bytes (stream r.whole) r.part);
            left =
                ap (λ (k : ℕ). r.part ++ drop k (bytes ++ stream frames)) at
                ∙ ap (λ (t : List ℕ). r.part ++ t) (drop-append_right m bytes (stream frames))
                ∙ r.left;
            is_part = r.is_part;
          }
    ]

-- Whole frames at the front of the buffer are delivered, and the part of the next stays.
pub record Passed (p : Parser) (whole : List Frame) (part : List ℕ) (t : Taken) : Type 0 where
  pub same : frames_of t.calls ≡ whole
  pub kept : t.parser.buf ≡ part
  pub nothing_dropped : t.parser.stats.dropped ≡ p.stats.dropped

turn_first :
    (p : Parser) (f : Frame) (frames : List Frame) (part : List ℕ)
    → Sendable f
    → p.buf ≡ stream (f ∷ frames) ++ part
    → drain_turn p
      ≡ deliver
          (record { frame = f; seen = count_frame p.stats })
          (record { buf = stream frames ++ part; stats = count_frame p.stats })
unfolding stream
turn_first p f frames part ok e =
    ap (λ (b : List ℕ). drain_turn (record { buf = b; stats = p.stats }))
      (e ∙ append_assoc (encoded f) (stream frames) part)
    ∙ drain_turn-encoded f (stream frames ++ part) p.stats ok

turn_last :
    (p : Parser) (rest : List Frame) (part : List ℕ)
    → All Sendable rest
    → IsPart rest part
    → p.buf ≡ part
    → drain_turn p ≡ stop
unfolding drain_turn
turn_last p [] part ok none_ e =
    ap (λ (b : List ℕ). drain_turn (record { buf = b; stats = p.stats })) (e ∙ none_)
turn_last p (f ∷ rest) part ok (k, short, is) e =
    ap (λ (b : List ℕ). drain_turn (record { buf = b; stats = p.stats })) (e ∙ is)
    ∙ drain_turn-part f k p.stats ok.0 short

Drains-Passed :
    {p : Parser} {t : Taken}
    → Drains p t
    → (whole rest : List Frame) (part : List ℕ) → All Sendable whole
    → All Sendable rest
    → IsPart rest part
    → p.buf ≡ stream whole ++ part
    → Passed p whole part t
unfolding idle after_call stream
Drains-Passed (ends p t e i) [] rest part ok more is at =
    rw i (record { same = refl; kept = at; nothing_dropped = refl })
Drains-Passed (ends p t e i) (f ∷ whole) rest part ok more is at =
    absurd (omega (arith, ap kind_of (sym e ∙ turn_first p f whole part ok.0 at)))
Drains-Passed (resyncs p q t e a d) [] rest part ok more is at =
    absurd (omega (arith, ap kind_of (sym e ∙ turn_last p rest part more is at)))
Drains-Passed (resyncs p q t e a d) (f ∷ whole) rest part ok more is at =
    absurd (omega (arith, ap kind_of (sym e ∙ turn_first p f whole part ok.0 at)))
Drains-Passed (delivers p q c t u e a d i) [] rest part ok more is at =
    absurd (omega (arith, ap kind_of (sym e ∙ turn_last p rest part more is at)))
Drains-Passed (delivers p q c t u e a d i) (f ∷ whole) rest part ok more is at =
    let turn = sym e ∙ turn_first p f whole part ok.0 at in
    let call = ap (call_of c) turn in
    let next = ap (parser_of q) turn in
    let after_ = Drains-Passed d whole rest part ok.1 more is (ap (λ (r : Parser). r.buf) next) in
    rw i (record {
      same =
          ap₂ (λ (g : Frame) (gs : List Frame). g ∷ gs) (ap (λ (k : Call). k.frame) call)
            after_.same;
      kept = after_.kept;
      nothing_dropped = after_.nothing_dropped ∙ ap (λ (r : Parser). r.stats.dropped) next;
    })

pub drain-Passed :
    (p : Parser) (whole rest : List Frame) (part : List ℕ)
    → All Sendable whole
    → All Sendable rest
    → IsPart rest part
    → p.buf ≡ stream whole ++ part
    → Passed p whole part (drain p)
drain-Passed p whole rest part ok more is at =
    Drains-Passed (drain-Drains p) whole rest part ok more is at

-- A buffer that is the encodings of some frames, one after the other: the drain delivers these
-- frames, each as it was sent, in their order, leaves nothing in the buffer and drops nothing.
drain-Delivered :
    (p : Parser) (frames : List Frame)
    → All Sendable frames
    → p.buf ≡ stream frames
    → Delivered p frames (drain p)
drain-Delivered p frames ok at =
    let d = drain-Passed p frames [] [] ok tt refl (at ∙ sym (append-nil (stream frames))) in
    record { same = d.same; nothing_left = d.kept; nothing_dropped = d.nothing_dropped }
