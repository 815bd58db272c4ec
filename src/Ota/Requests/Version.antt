-- ===== src/Ota/Requests/Version.antt =====
-- The version that the board gives: a frame that came from the pipe of the broker.
use telegraph_stm_fw.Base.{
  ℕ, zero, suc, ◌+◌, ◌<◌, ◌≡◌, refl, sym, ap, subst, ◌∙◌, List, [], length, take, Option, none,
  some, Bool, true, leb, ◌!=◌, ◌||◌, not, if_split, true-not_false, arith, ◌*◌,
}
use mathlib.Core.Option.{some-injective}
use telegraph_stm_fw.Ipc.Wire.{Frame}
use telegraph_stm_fw.Broker.Engine.{Engine}
use telegraph_stm_fw.Ota.{Ota, pump, send_request, reply_max}
use telegraph_stm_fw.Ota.Requests.{
  op_get_state, op_state, state_fwver, poll_us, version_retry_ms, reply_loop, replied, lacks,
  is_busy, ask_rounds, reply_rounds, ask_loop, asked, ask_until, running_version,
  version_from_state, ask_total_ms,
}
use telegraph_stm_fw.Ota.Requests.Source.{
  Asks, begun, asks, hears, rests, FromPipe, Replied, same_reply, pump-Replied, send_request-silent,
}

module _ (e : Engine) where
  open e use {World}

  module _ (opcode : ℕ) (payload : List ℕ) (o : Ota World) where
    -- A state of the wapp while it asks, whose reply came from the pipe since.
    record Asking (q : Ota World) : Type 0 where
      reached : Asks e opcode payload o q
      replied : Replied e (FromPipe e opcode payload o) q

    send_request-Asking :
        (q : Ota World) → Asks e opcode payload o q → Asking (send_request e opcode payload q).1
    send_request-Asking q h = record {
      reached = asks q h;
      replied = λ got. absurd (true-not_false got (send_request-silent e opcode payload q));
    }

    pump-Asking : (q : Ota World) → Asking q → Asking (pump e q)
    pump-Asking q h = record {
      reached = hears q h.reached;
      replied =
          pump-Replied e (FromPipe e opcode payload o) q
            (λ c among. record {
              at = q;
              call = c;
              reached = h.reached;
              among = among;
              same = refl;
            })
            h.replied;
    }

    nap-Asking :
        (us : ℕ) (q : Ota World) → Asking q → Asking (record q { world = e.nap us q.world })
    nap-Asking us q h = record {
      reached = rests us q h.reached;
      replied =
          same_reply e (FromPipe e opcode payload o) q (record q { world = e.nap us q.world }) refl
            refl refl refl h.replied;
    }

    reply_loop-Asking :
        (fuel deadline : ℕ) (q r : Ota World)
        → Asking q
        → reply_loop e fuel deadline q ≡ some r
        → Asking r
    unfolding reply_loop
    reply_loop-Asking zero deadline q r h = λ found. absurd (cc found)
    reply_loop-Asking (suc fuel) deadline q r h =
        let p = pump e q in
        let heard = pump-Asking q h in
        let P = λ (x : Option (Ota World)). x ≡ some r → Asking r in
        if_split P (q.got_reply || leb deadline (e.now q.world))
          (λ over found. subst Asking (some-injective _ _ found) h)
          λ early.
            if_split (λ (x : Ota World). P (reply_loop e fuel deadline x)) p.got_reply
              (λ got. reply_loop-Asking fuel deadline p r heard)
              (λ waits.
                reply_loop-Asking fuel deadline (record p { world = e.nap poll_us p.world }) r
                  (nap-Asking poll_us p heard))

    replied-Asking :
        (q : Ota World) (r : Option (Ota World))
        → Asking q
        → ((p : Ota World) → r ≡ some p → Asking p)
        → Asking (replied e q r)
    unfolding replied
    replied-Asking q none h k = h
    replied-Asking q (some p) h k = k p refl

    -- A result that is one comes with a reply.
    record Answered (q : Ota World) : Type 0 where
      asking : Asking q
      got : q.got_reply ≡ true

    ask_loop-Answered :
        (fuel rounds deadline : ℕ) (q r : Ota World)
        → Asks e opcode payload o q
        → ask_loop e fuel rounds deadline opcode payload q ≡ some (true, r)
        → Answered r
    unfolding ask_loop
    ask_loop-Answered zero rounds deadline q r h = λ found. absurd (cc found)
    ask_loop-Answered (suc fuel) rounds deadline q r h =
        let sent = send_request e opcode payload q in
        let reply = reply_loop e rounds deadline sent.1 in
        let heard = replied e sent.1 reply in
        let napped = record heard { world = e.nap (version_retry_ms * 1000) heard.world } in
        let at_send = send_request-Asking q h in
        let at_reply =
          replied-Asking sent.1 reply at_send
            (λ p. reply_loop-Asking rounds deadline sent.1 p at_send) in
        let P = λ (x : Option (Bool × Ota World)). x ≡ some (true, r) → Answered r in
        if_split P (leb deadline (e.now q.world)) (λ over found. absurd (cc found))
          λ early.
            if_split P (not sent.0) (λ bad found. absurd (cc (bad, found)))
              λ good.
                if_split P (lacks e reply) (λ lack found. absurd (cc found))
                  λ ended.
                    if_split P (not heard.got_reply) (λ none_came found. absurd (cc found))
                      λ spoke.
                        if_split P (not (is_busy e heard))
                          (λ answer found.
                            subst Answered
                              (ap (λ (x : Bool × Ota World). x.1) (some-injective _ _ found))
                              (record { asking = at_reply; got = ground arith }))
                          (λ busy.
                            ask_loop-Answered fuel rounds deadline napped r
                              (nap-Asking (version_retry_ms * 1000) heard at_reply).reached)

    asked-Answered :
        (q : Ota World) (found : Option (Bool × Ota World))
        → ((p : Ota World) → found ≡ some (true, p) → Answered p)
        → (asked e q found).0 ≡ true
        → Answered (asked e q found).1
    unfolding asked
    asked-Answered q none h = λ same. absurd (true-not_false same refl)
    asked-Answered q (some (b, p)) h = λ same. h p (ap (λ (c : Bool). some (c, p)) same)

    ask_until-Answered :
        (total_ms : ℕ)
        → (ask_until e opcode payload total_ms o).0 ≡ true
        → Answered (ask_until e opcode payload total_ms o).1
    unfolding ask_until
    ask_until-Answered total_ms =
        asked-Answered o
          (ask_loop e (ask_rounds e total_ms) (reply_rounds e total_ms) (e.now o.world + total_ms)
            opcode payload o)
          (λ p.
            ask_loop-Answered (ask_rounds e total_ms) (reply_rounds e total_ms)
              (e.now o.world + total_ms) o p begun)

  -- The version that the board gave: a frame of op_state that came from the pipe while the wapp asked
  -- for it, under the number of the question that it asked last, with the text of the version behind
  -- its head.
  pub record GivenBy (o q : Ota World) (cap : ℕ) (version : List ℕ) : Type 0 where
    pub frame : Frame
    pub source : FromPipe e op_get_state [] o frame
    pub number : frame.corr_id ≡ q.inflight
    pub kind : frame.opcode ≡ op_state
    pub long : state_fwver < length (take reply_max frame.payload)
    pub text : version ≡ version_from_state e cap (take reply_max frame.payload)

  pub running_version-GivenBy :
      (cap : ℕ) (o : Ota World) (version : List ℕ)
      → (running_version e cap o).0 ≡ some version
      → GivenBy o (running_version e cap o).1 cap version
  unfolding running_version
  running_version-GivenBy cap o version =
      let a = ask_until e op_get_state [] ask_total_ms o in
      let P = λ (x : Option (List ℕ) × Ota World). x.0 ≡ some version → GivenBy o x.1 cap version in
      if_split P (not a.0) (λ bad found. absurd (cc found))
        λ good.
          if_split P (a.1.reply_op != op_state) (λ other found. absurd (cc found))
            λ kind.
              if_split P (leb (length a.1.reply) state_fwver) (λ short found. absurd (cc found))
                λ long found.
                  let answered = ask_until-Answered op_get_state [] o ask_total_ms (ground arith) in
                  let r = answered.asking.replied answered.got in
                  let bytes = r.bytes in
                  let op = r.kind in
                  let opcode : a.1.reply_op ≡ op_state = ground arith in
                  let size : state_fwver < length a.1.reply = ground arith in
                  record {
                    frame = r.frame;
                    source = r.source;
                    number = r.number;
                    kind = sym op ∙ opcode;
                    long = subst (λ (l : List ℕ). state_fwver < length l) bytes size;
                    text = sym (some-injective _ _ found) ∙ ap (version_from_state e cap) bytes;
                  }
