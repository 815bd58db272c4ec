-- ===== src/Ipc/Parser/Pushes.antt =====
-- A stream of frames that the parser is given in several pushes.
use telegraph_stm_fw.Base.{
  ℕ, zero, suc, ◌+◌, ◌-◌, ◌*◌, ◌≤◌, ◌<◌, ◌≡◌, refl, sym, ap, ap₂, subst, ◌∙◌, List, [], ◌∷◌, ◌++◌,
  All, length, take, drop, length-append, length-take, length-drop, append_assoc, append-nil,
  take-append-drop, take-append_length, drop-append_length, some, ltb, ◌==◌, if◌then◌else◌,
  if_split, arith,
}
use telegraph_stm_fw.Ipc.Wire.{Frame, ipc_frame_max}
use telegraph_stm_fw.Ipc.Encode.Layout.{length-frame_bytes}
use telegraph_stm_fw.Ipc.Parser.{Parser, Call, Taken, idle, after, drain, push_loop, parser_push}
use telegraph_stm_fw.Ipc.Parser.Push.{take_all}
use telegraph_stm_fw.Ipc.Parser.Frames.{Sendable, encoded}
use telegraph_stm_fw.Ipc.Parser.Genuine.{frames_of}
use telegraph_stm_fw.Ipc.Parser.Stream.{stream, Delivered}
use telegraph_stm_fw.Ipc.Parser.Parts.{IsPart, cut, drain-Passed}

-- The pushes of some parts, one after the other.
pub pushes : Parser → List (List ℕ) → Taken
pushes p [] = idle p
pushes p (part ∷ parts) =
    let t = parser_push p (some part) (length part) in after t (pushes t.parser parts)

unfoldable pub joined : List (List ℕ) → List ℕ
joined [] = []
joined (part ∷ parts) = part ++ joined parts

-- Of the frames still to come, a push has delivered the first, and the buffer is a part of the rest.
record Streamed (p : Parser) (later : List ℕ) (frames : List Frame) (t : Taken) : Type 0 where
  whole : List Frame
  rest : List Frame
  in_order : frames ≡ whole ++ rest
  same : frames_of t.calls ≡ whole
  is_part : IsPart rest t.parser.buf
  left : t.parser.buf ++ later ≡ stream rest
  more : All Sendable rest
  nothing_dropped : t.parser.stats.dropped ≡ p.stats.dropped

All-split : (xs ys : List Frame) → All Sendable (xs ++ ys) → All Sendable xs × All Sendable ys
All-split [] ys h = (tt, h)
All-split (x ∷ xs) ys h = let (a, b) = All-split xs ys h.1 in ((h.0, a), b)

frames_of-append : (a b : List Call) → frames_of (a ++ b) ≡ frames_of a ++ frames_of b
frames_of-append [] b = refl
frames_of-append (c ∷ a) b = ap (λ (t : List Frame). c.frame ∷ t) (frames_of-append a b)

part-short :
    (rest : List Frame) (part : List ℕ)
    → All Sendable rest
    → IsPart rest part
    → length part < ipc_frame_max
part-short [] part ok none_ = let size = ap (λ (t : List ℕ). length t) none_ in omega (arith, size)
part-short (f ∷ rest) part ok (k, short, is) =
    let size = ap (λ (t : List ℕ). length t) is in
    let all =
      length-frame_bytes f.opcode f.corr_id f.payload f.payload_len (ok.0).corr_id
        (omega (arith, (ok.0).fits)) in
    omega (arith, size, all, length-take k (encoded f), (ok.0).fits, (ok.0).payload_len)

Streamed-idle :
    (p : Parser) (later : List ℕ) (frames : List Frame)
    → All Sendable frames
    → IsPart frames p.buf
    → p.buf ++ later ≡ stream frames
    → Streamed p later frames (idle p)
unfolding idle
Streamed-idle p later frames ok is at = record {
  whole = [];
  rest = frames;
  in_order = refl;
  same = refl;
  is_part = is;
  left = at;
  more = ok;
  nothing_dropped = refl;
}

-- One push after another, or one round of a push after another.
Streamed-after :
    (p : Parser) (later : List ℕ) (frames whole rest : List Frame) (t u : Taken)
    → frames ≡ whole ++ rest
    → frames_of t.calls ≡ whole
    → t.parser.stats.dropped ≡ p.stats.dropped
    → Streamed t.parser later rest u
    → Streamed p later frames (after t u)
unfolding after
Streamed-after p later frames whole rest t u order same dropped s = record {
  whole = whole ++ s.whole;
  rest = s.rest;
  in_order =
      order
      ∙ ap (λ (l : List Frame). whole ++ l) s.in_order
      ∙ sym (append_assoc whole s.whole s.rest);
  same = frames_of-append t.calls u.calls ∙ ap₂ (λ (a b : List Frame). a ++ b) same s.same;
  is_part = s.is_part;
  left = s.left;
  more = s.more;
  nothing_dropped = s.nothing_dropped ∙ dropped;
}

-- One round that copies `size` bytes and drains.
round-Streamed :
    (p : Parser) (bytes later : List ℕ) (frames : List Frame) (size : ℕ) (u : Taken)
    → let t = drain (record p { buf = p.buf ++ take size bytes }) in
      All Sendable frames
      → p.buf ++ (bytes ++ later) ≡ stream frames
      → ((rest : List Frame)
          → All Sendable rest
          → IsPart rest t.parser.buf
          → t.parser.buf ++ (drop size bytes ++ later) ≡ stream rest
          → Streamed t.parser later rest u)
      → Streamed p later frames (after t u)
round-Streamed p bytes later frames size u ok at next =
    let q = record p { buf = p.buf ++ take size bytes } in
    let t = drain q in
    let c = cut (length q.buf) frames in
    let halves : stream frames ≡ q.buf ++ (drop size bytes ++ later) =
      sym at
      ∙ ap (λ (b : List ℕ). p.buf ++ (b ++ later)) (sym (take-append-drop size bytes))
      ∙ ap (λ (b : List ℕ). p.buf ++ b) (append_assoc (take size bytes) (drop size bytes) later)
      ∙ sym (append_assoc p.buf (take size bytes) (drop size bytes ++ later)) in
    let front : q.buf ≡ stream c.whole ++ c.part =
      sym (
        ap (λ (b : List ℕ). take (length q.buf) b) halves
        ∙ take-append_length q.buf (drop size bytes ++ later))
      ∙ c.bytes in
    let back : c.part ++ (drop size bytes ++ later) ≡ stream c.rest =
      ap (λ (b : List ℕ). c.part ++ b)
        (sym (
          ap (λ (b : List ℕ). drop (length q.buf) b) halves
          ∙ drop-append_length q.buf (drop size bytes ++ later)))
      ∙ c.left in
    let (whole_ok, rest_ok) =
      All-split c.whole c.rest (subst (λ (l : List Frame). All Sendable l) c.in_order ok) in
    let d = drain-Passed q c.whole c.rest c.part whole_ok rest_ok c.is_part front in
    Streamed-after p later frames c.whole c.rest t u c.in_order d.same d.nothing_dropped (
      next c.rest rest_ok (subst (λ (b : List ℕ). IsPart c.rest b) (sym d.kept) c.is_part)
        (ap (λ (b : List ℕ). b ++ (drop size bytes ++ later)) d.kept ∙ back))

no_bytes : (bytes : List ℕ) → length bytes ≤ 0 → bytes ≡ []
no_bytes [] h = refl
no_bytes (b ∷ bytes) h = absurd (omega arith)

push_loop-Streamed :
    (fuel : ℕ) (p : Parser) (bytes later : List ℕ) (frames : List Frame)
    → length bytes < fuel
    → All Sendable frames
    → IsPart frames p.buf
    → p.buf ++ (bytes ++ later) ≡ stream frames
    → Streamed p later frames (push_loop fuel p bytes)
unfolding push_loop
push_loop-Streamed zero p bytes later frames h ok is at = absurd (omega arith)
push_loop-Streamed (suc fuel) p bytes later frames h ok is at =
    let space = ipc_frame_max - length p.buf in
    let size = if ltb (length bytes) space then length bytes else space in
    let room = part-short frames p.buf ok is in
    let P = λ (t : Taken). Streamed p later frames t in
    if_split P (ltb 0 (length bytes))
      (λ some_.
        let takes : (0 < size) × (size ≤ length bytes) = ground arith in
        if_split P (space == 0) (λ full. absurd (ground arith))
          (λ free.
            round-Streamed p bytes later frames size
              (push_loop fuel (drain (record p { buf = p.buf ++ take size bytes })).parser
                (drop size bytes))
              ok at
              (λ rest more part next.
                push_loop-Streamed fuel _ (drop size bytes) later rest
                  (omega (arith, takes.0, takes.1, length-drop size bytes)) more part next)))
      (λ none_.
        let empty : bytes ≡ [] = no_bytes bytes (ground arith) in
        Streamed-idle p later frames ok is
          (ap (λ (b : List ℕ). p.buf ++ (b ++ later)) (sym empty) ∙ at))

parser_push-Streamed :
    (p : Parser) (bytes later : List ℕ) (frames : List Frame)
    → All Sendable frames
    → IsPart frames p.buf
    → p.buf ++ (bytes ++ later) ≡ stream frames
    → Streamed p later frames (parser_push p (some bytes) (length bytes))
unfolding parser_push
parser_push-Streamed p bytes later frames ok is at =
    rw (take_all bytes)
      (push_loop-Streamed (2 * length bytes + 2) p bytes later frames (omega arith) ok is at)

pushes-Streamed :
    (p : Parser) (parts : List (List ℕ)) (frames : List Frame)
    → All Sendable frames
    → IsPart frames p.buf
    → p.buf ++ joined parts ≡ stream frames
    → Streamed p [] frames (pushes p parts)
unfolding pushes joined
pushes-Streamed p [] frames ok is at = Streamed-idle p [] frames ok is at
pushes-Streamed p (part ∷ parts) frames ok is at =
    let t = parser_push p (some part) (length part) in
    let s = parser_push-Streamed p part (joined parts) frames ok is at in
    Streamed-after p [] frames s.whole s.rest t (pushes t.parser parts) s.in_order s.same
      s.nothing_dropped (pushes-Streamed t.parser parts s.rest s.more s.is_part s.left)

-- A part with nothing after it is of no frame.
part_ends :
    (rest : List Frame) (part : List ℕ) → IsPart rest part → part ++ [] ≡ stream rest → rest ≡ []
unfolding stream
part_ends [] part is at = refl
part_ends (f ∷ rest) part (k, short, is) at =
    let size = ap (λ (b : List ℕ). length b) (sym (append-nil part) ∙ at) in
    let all = length-append (encoded f) (stream rest) in
    let cut_ = ap (λ (b : List ℕ). length b) is in
    absurd (omega (arith, size, all, cut_, length-take k (encoded f)))

empty-IsPart :
    (frames : List Frame) (part : List ℕ) → All Sendable frames → part ≡ [] → IsPart frames part
empty-IsPart [] part ok e = e
empty-IsPart (f ∷ frames) part ok e =
    let all =
      length-frame_bytes f.opcode f.corr_id f.payload f.payload_len (ok.0).corr_id
        (omega (arith, (ok.0).fits)) in
    (0, omega (arith, all), e)

-- The encodings of some frames, one after the other and cut into parts anywhere, are pushed part by
-- part into an empty parser: the callback is given these frames, each as it was sent, in their order,
-- and in the end the buffer is empty and nothing was dropped.
pub pushes-Delivered :
    (p : Parser) (parts : List (List ℕ)) (frames : List Frame)
    → All Sendable frames
    → p.buf ≡ []
    → joined parts ≡ stream frames
    → Delivered p frames (pushes p parts)
pushes-Delivered p parts frames ok empty at =
    let s =
      pushes-Streamed p parts frames ok (empty-IsPart frames p.buf ok empty)
        (ap (λ (b : List ℕ). b ++ joined parts) empty ∙ at) in
    let ends = part_ends s.rest (pushes p parts).parser.buf s.is_part s.left in
    record {
      same =
          s.same
          ∙ sym (append-nil s.whole)
          ∙ ap (λ (r : List Frame). s.whole ++ r) (sym ends)
          ∙ sym s.in_order;
      nothing_left =
          subst (λ (r : List Frame). IsPart r (pushes p parts).parser.buf) ends s.is_part;
      nothing_dropped = s.nothing_dropped;
    }
