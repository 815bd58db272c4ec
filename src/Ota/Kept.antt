-- ===== src/Ota/Kept.antt =====
-- What talking to the broker leaves alone: the bytes given to the line, the address, and a file that
-- is read elsewhere.
use telegraph_stm_fw.Base.{
  ℕ, ◌≡◌, ◌≢◌, refl, ◌∙◌, List, [], ◌∷◌, Option, none, some, length, ◌==◌, ◌!=◌, if_split, u16, ◌+◌,
  false, if◌then◌else◌,
}
use telegraph_stm_fw.Ipc.Wire.{Frame}
use telegraph_stm_fw.Ipc.Encode.{Encoded, err_arg, err_space, err_too_large, written}
use telegraph_stm_fw.Ipc.Parser.{Call, parser_push}
use telegraph_stm_fw.Server.Link.{corr_id_push}
use telegraph_stm_fw.Broker.Engine.{Engine}
use telegraph_stm_fw.Broker.Requests.{op_raw_data}
use telegraph_stm_fw.Ota.{
  Ota, on_frame, frames_in, pumped, pump, send_frame, send, send_request, line_write,
}

-- A file that is read through the descriptor `fd`: a read elsewhere, a write and a nap leave what is
-- left to read of it as it was.
pub record IsApart (e : Engine) (fd : ℕ) (file : e.World → List ℕ) : Type 0 where
  pub reads : (other n : ℕ) (w : e.World) → other ≢ fd → file (e.read other n w).1 ≡ file w
  pub writes : (other : ℕ) (bytes : List ℕ) (w : e.World) → file (e.write other bytes w).1 ≡ file w
  pub naps : (us : ℕ) (w : e.World) → file (e.nap us w) ≡ file w

-- Any engine leaves no file at all as it was.
pub nothing-IsApart : (e : Engine) (fd : ℕ) → IsApart e fd (λ w. [])
nothing-IsApart e fd = record {
  reads = λ other n w h. refl;
  writes = λ other bytes w. refl;
  naps = λ us w. refl;
}

module _ (e : Engine) (fd : ℕ) (file : e.World → List ℕ) where
  open e use {World}

  abbrev pub Kept : Ota World → Ota World → Type 0
  Kept o o' =
      o.rsp ≢ fd
      → (o'.rsp ≡ o.rsp)
        × (o'.lines ≡ o.lines)
        × (o'.addr ≡ o.addr)
        × (file o'.world ≡ file o.world)

  -- A frame on the line.
  abbrev pub Lined : List ℕ → Ota World → Ota World → Type 0
  Lined bytes o o' =
      o.rsp ≢ fd
      → (o'.rsp ≡ o.rsp)
        × (o'.lines ≡ bytes ∷ o.lines)
        × (o'.addr ≡ o.addr)
        × (file o'.world ≡ file o.world)

  pub Kept-refl : (o : Ota World) → Kept o o
  Kept-refl o apart = (refl, refl, refl, refl)

  pub Kept-trans : (a b c : Ota World) → Kept a b → Kept b c → Kept a c
  Kept-trans a b c s t apart =
      let (s_rsp, s_lines, s_addr, s_file) = s apart in
      let (t_rsp, t_lines, t_addr, t_file) = t (λ same. apart (cc (s_rsp, same))) in
      (t_rsp ∙ s_rsp, t_lines ∙ s_lines, t_addr ∙ s_addr, t_file ∙ s_file)

  pub Lined-Kept :
      (bytes : List ℕ) (a b c : Ota World) → Lined bytes a b → Kept b c → Lined bytes a c
  Lined-Kept bytes a b c s t apart =
      let (s_rsp, s_lines, s_addr, s_file) = s apart in
      let (t_rsp, t_lines, t_addr, t_file) = t (λ same. apart (cc (s_rsp, same))) in
      (t_rsp ∙ s_rsp, t_lines ∙ s_lines, t_addr ∙ s_addr, t_file ∙ s_file)

  -- Talk of any kind, which may use the line.
  abbrev pub Talked : Ota World → Ota World → Type 0
  Talked o o' = o.rsp ≢ fd → (o'.rsp ≡ o.rsp) × (file o'.world ≡ file o.world)

  pub Talked-trans : (a b c : Ota World) → Talked a b → Talked b c → Talked a c
  Talked-trans a b c s t apart =
      let (s_rsp, s_file) = s apart in
      let (t_rsp, t_file) = t (λ same. apart (cc (s_rsp, same))) in (t_rsp ∙ s_rsp, t_file ∙ s_file)

  pub Talked-Kept : (a b : Ota World) → Kept a b → Talked a b
  Talked-Kept a b s apart = let (rsp, lines, addr, rest) = s apart in (rsp, rest)

  pub Talked-Lined : (bytes : List ℕ) (a b : Ota World) → Lined bytes a b → Talked a b
  Talked-Lined bytes a b s apart = let (rsp, lines, addr, rest) = s apart in (rsp, rest)

  -- Of a loop on fuel, the state of its result where there is one.
  abbrev pub KeptBy : {X : Type 0} → (X → Ota World) → Ota World → Option X → Type 0
  KeptBy state a none = Unit
  KeptBy state a (some x) = Kept a (state x)

  pub KeptBy-after :
      {X : Type 0} (state : X → Ota World) (a b : Ota World) (r : Option X)
      → Kept a b
      → KeptBy state b r
      → KeptBy state a r
  KeptBy-after state a b none s t = tt
  KeptBy-after state a b (some x) s t = Kept-trans a b (state x) s t

  on_frame-Kept : (f : Frame) (o : Ota World) → Kept o (on_frame e f o)
  unfolding on_frame
  on_frame-Kept f o apart =
      let P = λ (c : Ota World).
        (c.rsp ≡ o.rsp) × (c.lines ≡ o.lines) × (c.addr ≡ o.addr) × (file c.world ≡ file o.world) in
      if_split P (f.opcode == op_raw_data) (λ raw. (refl, refl, refl, refl))
        λ other.
          if_split P (f.corr_id != o.inflight) (λ late. (refl, refl, refl, refl))
            (λ reply. (refl, refl, refl, refl))

  frames_in-Kept : (cs : List Call) (o : Ota World) → Kept o (frames_in e cs o)
  unfolding frames_in
  frames_in-Kept [] o = λ apart. (refl, refl, refl, refl)
  frames_in-Kept (c ∷ cs) o =
      Kept-trans o (on_frame e c.frame o) (frames_in e cs (on_frame e c.frame o))
        (on_frame-Kept c.frame o) (frames_in-Kept cs (on_frame e c.frame o))

  module _ (apart : IsApart e fd file) where
    -- A nap.
    pub nap-Kept : (us : ℕ) (o : Ota World) → Kept o (record o { world = e.nap us o.world })
    nap-Kept us o other = (refl, refl, refl, apart.naps us o.world)

    pub pump-Kept : (o : Ota World) → Kept o (pump e o)
    unfolding pump pumped
    pump-Kept o =
        let got = e.read o.rsp 256 o.world in
        let t = parser_push o.parser (some got.0) (length got.0) in
        let read = record o { world = got.1 } in
        let at_read : Kept o read =
          λ other. (refl, refl, refl, apart.reads o.rsp 256 o.world other) in
        if_split (λ (c : Ota World). Kept o c) (length got.0 == 0) (λ nothing. at_read)
          (λ bytes.
            Kept-trans o read (frames_in e t.calls (record read { parser = t.parser })) at_read
              (frames_in-Kept t.calls (record read { parser = t.parser })))

    pub send_frame-Kept : (r : Encoded) (o : Ota World) → Kept o (send_frame e r o).1
    unfolding send_frame
    send_frame-Kept (written bytes) o other = (refl, refl, refl, apart.writes o.req bytes o.world)
    send_frame-Kept err_arg o other = (refl, refl, refl, refl)
    send_frame-Kept err_space o other = (refl, refl, refl, refl)
    send_frame-Kept err_too_large o other = (refl, refl, refl, refl)

    pub send_request-Kept :
        (opcode : ℕ) (payload : List ℕ) (o : Ota World) → Kept o (send_request e opcode payload o).1
    unfolding send_request send
    send_request-Kept opcode payload o = send_frame-Kept _ (record o {
      corr = if u16 (o.corr + 1) == corr_id_push then 1 else u16 (o.corr + 1);
      inflight = if u16 (o.corr + 1) == corr_id_push then 1 else u16 (o.corr + 1);
      got_reply = false;
    })

    pub line_write-Lined : (bytes : List ℕ) (o : Ota World) → Lined bytes o (line_write e bytes o).1
    unfolding line_write send
    line_write-Lined bytes o = send_frame-Kept _ (record o { lines = bytes ∷ o.lines })
