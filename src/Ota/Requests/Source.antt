-- ===== src/Ota/Requests/Source.antt =====
-- Where the reply to a question comes from: a frame that the parser hands over from the pipe of the
-- broker, with the number of the question.
use telegraph_stm_fw.Base.{
  ℕ, ◌≡◌, refl, sym, ◌∙◌, List, [], ◌∷◌, length, take, some, true, false, ◌==◌, ◌!=◌, if_split,
  arith, ◌++◌, ◌-◌,
}
use telegraph_stm_fw.Ipc.Wire.{Frame}
use telegraph_stm_fw.Ipc.Encode.{Encoded, err_arg, err_space, err_too_large, written}
use telegraph_stm_fw.Ipc.Parser.{Call, parser_push}
use telegraph_stm_fw.Broker.Engine.{Engine}
use telegraph_stm_fw.Broker.Requests.{op_raw_data}
use telegraph_stm_fw.Ota.{
  Ota, on_frame, frames_in, pumped, pump, send_frame, send, send_request, reply_max, line_max,
}

-- A call among those of a push.
pub data Among (c : Call) : List Call → Type 0 where
  first : (cs : List Call) → Among c (c ∷ cs)
  later : (d : Call) (cs : List Call) → Among c cs → Among c (d ∷ cs)

module _ (e : Engine) where
  open e use {World}

  -- The states of the wapp while it asks: its questions, its reads of the pipe and its pauses.
  pub data Asks (opcode : ℕ) (payload : List ℕ) (o : Ota World) : Ota World → Type 0 where
    begun : Asks opcode payload o o
    asks :
        (p : Ota World)
        → Asks opcode payload o p
        → Asks opcode payload o (send_request e opcode payload p).1
    hears : (p : Ota World) → Asks opcode payload o p → Asks opcode payload o (pump e p)
    rests :
        (us : ℕ) (p : Ota World)
        → Asks opcode payload o p
        → Asks opcode payload o (record p { world = e.nap us p.world })

  -- The frames that the parser hands over from a read of the pipe.
  pub handed : Ota World → List Call
  handed p =
      let got = (e.read p.rsp 256 p.world).0 in (parser_push p.parser (some got) (length got)).calls

  -- A frame that came from the pipe while the wapp asked.
  pub record FromPipe (opcode : ℕ) (payload : List ℕ) (o : Ota World) (f : Frame) : Type 0 where
    pub at : Ota World
    pub call : Call
    pub reached : Asks opcode payload o at
    pub among : Among call (handed at)
    pub same : call.frame ≡ f

  -- A reply that the wapp holds, from a frame with a property and the number of the question.
  pub record Reply (S : Frame → Type 0) (q : Ota World) : Type 0 where
    pub frame : Frame
    pub source : S frame
    pub number : frame.corr_id ≡ q.inflight
    pub kind : q.reply_op ≡ frame.opcode
    pub bytes : q.reply ≡ take reply_max frame.payload

  abbrev pub Replied : (Frame → Type 0) → Ota World → Type 0
  Replied S q = q.got_reply ≡ true → Reply S q

  module _ (S : Frame → Type 0) where
    -- Another state with the same reply.
    pub same_reply :
        (p q : Ota World)
        → q.got_reply ≡ p.got_reply
        → q.inflight ≡ p.inflight
        → q.reply_op ≡ p.reply_op
        → q.reply ≡ p.reply
        → Replied S p
        → Replied S q
    same_reply p q got id op bytes h on =
        let r = h (sym got ∙ on) in
        record {
          frame = r.frame;
          source = r.source;
          number = r.number ∙ sym id;
          kind = op ∙ r.kind;
          bytes = bytes ∙ r.bytes;
        }

    on_frame-Replied : (f : Frame) (q : Ota World) → S f → Replied S q → Replied S (on_frame e f q)
    unfolding on_frame
    on_frame-Replied f q s h =
        if_split (Replied S) (f.opcode == op_raw_data)
          (λ line. same_reply q (on_line f q) refl refl refl refl h)
          λ answer.
            if_split (Replied S) (f.corr_id != q.inflight) (λ other. h)
              (λ own got. record {
                frame = f;
                source = s;
                number = ground arith;
                kind = refl;
                bytes = refl;
              })
      where
        on_line : Frame → Ota World → Ota World
        on_line f q = record q { line = q.line ++ take (line_max - length q.line) f.payload }

    frames_in-Replied :
        (cs : List Call) (q : Ota World)
        → ((c : Call) → Among c cs → S c.frame)
        → Replied S q
        → Replied S (frames_in e cs q)
    unfolding frames_in
    frames_in-Replied [] q s h = h
    frames_in-Replied (c ∷ cs) q s h =
        frames_in-Replied cs (on_frame e c.frame q) (λ d among. s d (later c cs among))
          (on_frame-Replied c.frame q (s c (first cs)) h)

    pub pump-Replied :
        (q : Ota World)
        → ((c : Call) → Among c (handed q) → S c.frame)
        → Replied S q
        → Replied S (pump e q)
    unfolding pump pumped handed
    pump-Replied q s h =
        let got = e.read q.rsp 256 q.world in
        let t = parser_push q.parser (some got.0) (length got.0) in
        let read = record q { world = got.1 } in
        let parsed = record read { parser = t.parser } in
        if_split (Replied S) (length got.0 == 0)
          (λ nothing. same_reply q read refl refl refl refl h)
          (λ bytes. frames_in-Replied t.calls parsed s (same_reply q parsed refl refl refl refl h))

  silent : (r : Encoded) (p : Ota World) → (send_frame e r p).1.got_reply ≡ p.got_reply
  unfolding send_frame
  silent (written bytes) p = refl
  silent err_arg p = refl
  silent err_space p = refl
  silent err_too_large p = refl

  pub send_request-silent :
      (opcode : ℕ) (payload : List ℕ) (q : Ota World)
      → (send_request e opcode payload q).1.got_reply ≡ false
  unfolding send_request send
  send_request-silent opcode payload q = silent _ _
