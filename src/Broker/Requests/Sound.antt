-- ===== src/Broker/Requests/Sound.antt =====
-- What the handlers keep: the states of the line.
use telegraph_stm_fw.Base.{
  ℕ, ◌≤◌, ◌<◌, ◌≡◌, ◌^◌, refl, ap, ◌∙◌, List, [], ◌∷◌, Option, none, some, Bool, true, false, ◌==◌,
  ◌!=◌, if_split, not, ◌||◌, ◌&&◌, arith,
}
use telegraph_stm_fw.Ipc.Wire.{Frame, ipc_frame_max}
use telegraph_stm_fw.Ipc.Encode.{Encoded, err_arg, err_space, err_too_large, written, encode}
use telegraph_stm_fw.Server.Link.{corr_id_push, ipc_op_nack}
use telegraph_stm_fw.Broker.Engine.{Engine, write_node, baud_node, format_node}
use telegraph_stm_fw.Broker.State.{Inflight, Broker, to_peer, nack_peer}
use telegraph_stm_fw.Broker.Requests.{
  op_raw, op_raw_data, holds_raw, in_raw, send_inflight, started, start_request, set_texts,
  set_line, line_texts, id_after, switch_raw, on_raw, serve_peer, on_peer_frame, on_link_frame,
  err_busy,
}
use telegraph_stm_fw.Broker.Requests.Demux.{demux_push-keeps}

-- Raw mode and a request in flight exclude each other; a request in flight was put on the line once
-- or more and at most three times, and its number is not that of a push.
pub record IsLine (r : Inflight) (raw : Option ℕ) (next_id : ℕ) : Type 0 where
  pub alone : (in_raw raw && r.busy) ≡ false
  pub tried : r.busy ≡ true → 1 ≤ r.tries
  pub bounded : r.busy ≡ true → r.tries ≤ 3
  pub numbered : r.busy ≡ true → 1 ≤ r.link_id
  pub next_low : 1 ≤ next_id
  pub next_high : next_id < 2 ^ 16

abbrev pub IsSound : {World : Type 0} → Broker World → Type 0
IsSound b = IsLine b.inflight b.raw b.next_id

-- A request that ends leaves the line free.
pub ended-IsLine :
    (r : Inflight) (raw : Option ℕ) (next_id : ℕ)
    → IsLine r raw next_id
    → IsLine (record r { busy = false }) raw next_id
ended-IsLine r raw next_id s = record {
  alone = ground arith;
  tried = λ h. ground arith;
  bounded = λ h. ground arith;
  numbered = λ h. ground arith;
  next_low = s.next_low;
  next_high = s.next_high;
}

module _ (e : Engine) where
  open e use {World}

  pub to_peer-IsSound :
      (i opcode corr_id : ℕ) (payload : List ℕ) (b : Broker World)
      → IsSound b
      → IsSound (to_peer e i opcode corr_id payload b)
  unfolding to_peer
  to_peer-IsSound i opcode corr_id payload b s = s

  pub on_link_frame-IsSound :
      (f : Frame) (b : Broker World) → IsSound b → IsSound (on_link_frame e f b)
  unfolding on_link_frame to_peer
  on_link_frame-IsSound f b s =
      if_split (λ (c : Broker World). IsSound c) (f.corr_id == corr_id_push)
        (λ push.
          demux_push-keeps e (λ c. IsSound c) (λ c w t. t)
            (λ i opcode payload c t. to_peer-IsSound i opcode corr_id_push payload c t) f b s)
        (λ reply.
          if_split (λ (c : Broker World). IsSound c)
            (not b.inflight.busy || f.corr_id != b.inflight.link_id) (λ unknown. s)
            (λ known. ended-IsLine b.inflight b.raw b.next_id s))

  id_after-range : (n : ℕ) → (1 ≤ id_after n) × (id_after n < 2 ^ 16)
  id_after-range n = (ground arith, ground arith)

  -- A request starts only where the line is free.
  started-IsSound :
      (i : ℕ) (f : Frame) (r : Encoded) (b : Broker World)
      → in_raw b.raw ≡ false
      → 1 ≤ b.inflight.link_id
      → IsSound b
      → IsSound (started e i f r b)
  unfolding started send_inflight nack_peer
  started-IsSound i f (written bytes) b calm id s = record {
    alone = ground arith;
    tried = λ h. omega arith;
    bounded = λ h. omega arith;
    numbered = λ h. id;
    next_low = s.next_low;
    next_high = s.next_high;
  }
  started-IsSound i f err_arg b calm id s = to_peer-IsSound i _ f.corr_id _ b s
  started-IsSound i f err_space b calm id s = to_peer-IsSound i _ f.corr_id _ b s
  started-IsSound i f err_too_large b calm id s = to_peer-IsSound i _ f.corr_id _ b s

  start_request-IsSound :
      (i : ℕ) (f : Frame) (b : Broker World)
      → (in_raw b.raw || b.inflight.busy) ≡ false
      → IsSound b
      → IsSound (start_request e i f b)
  unfolding start_request
  start_request-IsSound i f b free s =
      let range = id_after-range b.next_id in
      started-IsSound i f
        (encode true ipc_frame_max f.opcode b.next_id (some f.payload) f.payload_len)
        (record b {
          inflight = record b.inflight { link_id = b.next_id };
          next_id = id_after b.next_id;
        })
        (ground arith) s.next_low
        (record {
          alone = s.alone;
          tried = s.tried;
          bounded = s.bounded;
          numbered = λ h. s.next_low;
          next_low = range.0;
          next_high = range.1;
        })

  set_texts-IsSound :
      (texts : Option (List ℕ × List ℕ)) (b : Broker World)
      → IsSound b
      → IsSound (set_texts e texts b).1
  unfolding set_texts
  set_texts-IsSound none b s = s
  set_texts-IsSound (some texts) b s =
      let baud = write_node e b.port baud_node texts.0 b.world in
      let format = write_node e b.port format_node texts.1 baud.1 in
      if_split (λ (c : Bool × Broker World). IsSound c.1) (not baud.0) (λ bad. s)
        (λ good.
          if_split (λ (c : Bool × Broker World). IsSound c.1) (not format.0) (λ bad. s) (λ good. s))

  set_texts-inflight :
      (texts : Option (List ℕ × List ℕ)) (b : Broker World)
      → ((set_texts e texts b).1).inflight ≡ b.inflight
  unfolding set_texts
  set_texts-inflight none b = refl
  set_texts-inflight (some texts) b =
      let baud = write_node e b.port baud_node texts.0 b.world in
      let format = write_node e b.port format_node texts.1 baud.1 in
      let P = λ (c : Bool × Broker World). (c.1).inflight ≡ b.inflight in
      if_split P (not baud.0) (λ bad. refl)
        (λ good. if_split P (not format.0) (λ bad. refl) (λ good. refl))

  -- Raw mode is taken only where no request is in flight.
  switch_raw-IsSound :
      (i : ℕ) (f : Frame) (b : Broker World)
      → (not (f.payload_len == 0) && b.inflight.busy) ≡ false
      → IsSound b
      → IsSound (switch_raw e i f b)
  unfolding switch_raw
  switch_raw-IsSound i f b free s = to_peer-IsSound i _ f.corr_id [] _ (record {
    alone = ground arith;
    tried = s.tried;
    bounded = s.bounded;
    numbered = s.numbered;
    next_low = s.next_low;
    next_high = s.next_high;
  })

  on_raw-IsSound : (i : ℕ) (f : Frame) (b : Broker World) → IsSound b → IsSound (on_raw e i f b)
  unfolding on_raw nack_peer set_line
  on_raw-IsSound i f b s =
      let P = λ (c : Broker World). IsSound c in
      let set = set_texts e (line_texts e f) b in
      let busy = to_peer-IsSound i ipc_op_nack f.corr_id (err_busy ∷ []) b s in
      let set_sound = set_texts-IsSound (line_texts e f) b s in
      if_split P (in_raw b.raw && not (holds_raw b.raw i)) (λ other. busy)
        λ mine.
          if_split P (not (f.payload_len == 0) && b.inflight.busy) (λ waits. busy)
            λ free.
              if_split P (not set.0) (λ bad. to_peer-IsSound i _ f.corr_id _ set.1 set_sound)
                (λ good.
                  let same = set_texts-inflight (line_texts e f) b in
                  switch_raw-IsSound i f set.1
                    (ap (λ (r : Inflight). not (f.payload_len == 0) && r.busy) same ∙ free)
                    set_sound)

  serve_peer-IsSound :
      (i : ℕ) (f : Frame) (b : Broker World) → IsSound b → IsSound (serve_peer e i f b)
  unfolding serve_peer nack_peer
  serve_peer-IsSound i f b s =
      let P = λ (c : Broker World). IsSound c in
      if_split P (f.opcode == op_raw) (λ raw. on_raw-IsSound i f b s)
        λ other.
          if_split P (f.opcode == op_raw_data)
            (λ bytes.
              if_split P (not (holds_raw b.raw i)) (λ stranger. to_peer-IsSound i _ f.corr_id _ b s)
                (λ holder. s))
            (λ request.
              if_split P (in_raw b.raw || b.inflight.busy)
                (λ waits. to_peer-IsSound i _ f.corr_id _ b s)
                (λ free. start_request-IsSound i f b free s))

  pub on_peer_frame-IsSound :
      (i : ℕ) (f : Frame) (b : Broker World) → IsSound b → IsSound (on_peer_frame e i f b)
  unfolding on_peer_frame
  on_peer_frame-IsSound i f b s =
      serve_peer-IsSound i f
        (record b { asked = record { peer = i; frame = f; holds = holds_raw b.raw i } ∷ b.asked }) s
