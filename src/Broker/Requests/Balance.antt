-- ===== src/Broker/Requests/Balance.antt =====
-- The account of the requests of a peer: each is answered, or in flight, under its own number.
use telegraph_stm_fw.Base.{
  ℕ, suc, ◌+◌, ◌<◌, ◌≡◌, refl, ap, ◌∙◌, List, [], ◌∷◌, Option, none, some, Bool, true, false, arith,
  ◌==◌, ◌!=◌, not, ◌&&◌, ◌||◌, if◌then◌else◌, if_split,
}
use telegraph_stm_fw.Ipc.Wire.{Frame, ipc_frame_max}
use telegraph_stm_fw.Ipc.Encode.{Encoded, err_arg, err_space, err_too_large, written, encode}
use telegraph_stm_fw.Server.Link.{corr_id_push, ipc_op_ack, ipc_op_nack}
use telegraph_stm_fw.Broker.Engine.{Engine, write_node, baud_node, format_node}
use telegraph_stm_fw.Broker.State.{Inflight, Given, Asked, Broker, to_peer, nack_peer}
use telegraph_stm_fw.Broker.Requests.Demux.{demux_push-keeps}
use telegraph_stm_fw.Broker.Requests.{
  op_raw, op_raw_data, holds_raw, in_raw, send_inflight, started, start_request, demux_push,
  on_link_frame, set_texts, set_line, line_texts, err_bad_payload, id_after, switch_raw, on_raw,
  serve_peer, on_peer_frame, err_busy,
}

abbrev pub tally : Bool → ℕ → ℕ
tally t n = if t then suc n else n

-- How many frames peer `i` was given under the number `id`.
abbrev pub answers : ℕ → ℕ → List Given → ℕ
answers i id [] = 0
answers i id (g ∷ gs) = tally (g.peer == i && g.corr_id == id) (answers i id gs)

-- A frame asks for an answer, but for the data of raw mode from the peer that holds it.
abbrev pub wants_answer : Asked → Bool
wants_answer a = not (a.frame.opcode == op_raw_data && a.holds)

-- How many frames peer `i` sent under the number `id` that ask for an answer.
abbrev pub requests : ℕ → ℕ → List Asked → ℕ
requests i id [] = 0
requests i id (a ∷ rest) =
    tally (wants_answer a && (a.peer == i && a.frame.corr_id == id)) (requests i id rest)

-- One where the request in flight is of peer `i` and has the number `id`.
abbrev pub open_request : ℕ → ℕ → Inflight → ℕ
open_request i id r = tally (r.busy && (r.peer == i && r.peer_id == id)) 0

module _ {World : Type 0} where
  abbrev pub settled : ℕ → ℕ → Broker World → ℕ
  settled i id b = answers i id b.given + open_request i id b.inflight

  -- A step that takes `n` requests of the key and keeps the account.
  pub record Takes (i id n : ℕ) (b b' : Broker World) : Type 0 where
    pub settles : settled i id b' ≡ n + settled i id b
    pub asked : b'.asked ≡ b.asked

  pub Takes-after :
      (i id n : ℕ) {a b c : Broker World} → Takes i id 0 a b → Takes i id n b c → Takes i id n a c
  Takes-after i id n s t = record {
    settles = omega (arith, s.settles, t.settles);
    asked = t.asked ∙ s.asked;
  }

  pub Takes-count :
      (i id : ℕ) {m n : ℕ} {a b : Broker World} → m ≡ n → Takes i id m a b → Takes i id n a b
  Takes-count i id e t = record { settles = omega (arith, e, t.settles); asked = t.asked }

module _ (e : Engine) (i id : ℕ) where
  open e use {World}

  to_peer-Takes :
      (j opcode corr_id : ℕ) (payload : List ℕ) (b : Broker World)
      → Takes i id (tally (j == i && corr_id == id) 0) b (to_peer e j opcode corr_id payload b)
  unfolding to_peer
  to_peer-Takes j opcode corr_id payload b = record { settles = ground arith; asked = refl }

  -- A push has the number 0, thus it answers nothing.
  pub push-Takes :
      (j opcode : ℕ) (payload : List ℕ) (b : Broker World)
      → 0 < id
      → Takes i id 0 b (to_peer e j opcode corr_id_push payload b)
  unfolding to_peer
  push-Takes j opcode payload b h = record { settles = ground arith; asked = refl }

  demux_push-Takes : (f : Frame) (b : Broker World) → 0 < id → Takes i id 0 b (demux_push e f b)
  demux_push-Takes f b h =
      demux_push-keeps e (λ c. Takes i id 0 b c)
        (λ c w t. record { settles = t.settles; asked = t.asked })
        (λ j opcode payload c t. Takes-after i id 0 t (push-Takes j opcode payload c h)) f b
        (record { settles = omega arith; asked = refl })

  -- A frame from the link answers the request in flight or none.
  pub on_link_frame-Takes :
      (f : Frame) (b : Broker World) → 0 < id → Takes i id 0 b (on_link_frame e f b)
  unfolding on_link_frame to_peer
  on_link_frame-Takes f b h =
      if_split (λ c. Takes i id 0 b c) (f.corr_id == corr_id_push) (λ push. demux_push-Takes f b h)
        (λ reply.
          if_split (λ c. Takes i id 0 b c) (not b.inflight.busy || f.corr_id != b.inflight.link_id)
            (λ unknown. record { settles = omega arith; asked = refl })
            (λ known. record { settles = ground arith; asked = refl }))

  started-Takes :
      (j : ℕ) (f : Frame) (r : Encoded) (b : Broker World)
      → b.inflight.busy ≡ false
      → Takes i id (tally (j == i && f.corr_id == id) 0) b (started e j f r b)
  unfolding started send_inflight nack_peer
  started-Takes j f (written bytes) b free = record { settles = ground arith; asked = refl }
  started-Takes j f err_arg b free = to_peer-Takes j _ f.corr_id _ b
  started-Takes j f err_space b free = to_peer-Takes j _ f.corr_id _ b
  started-Takes j f err_too_large b free = to_peer-Takes j _ f.corr_id _ b

  set_texts-Takes :
      (texts : Option (List ℕ × List ℕ)) (b : Broker World) → Takes i id 0 b (set_texts e texts b).1
  unfolding set_texts
  set_texts-Takes none b = record { settles = omega arith; asked = refl }
  set_texts-Takes (some texts) b =
      let baud = write_node e b.port baud_node texts.0 b.world in
      let format = write_node e b.port format_node texts.1 baud.1 in
      if_split (λ (c : Bool × Broker World). Takes i id 0 b c.1) (not baud.0)
        (λ bad. record { settles = omega arith; asked = refl })
        (λ good.
          if_split (λ (c : Bool × Broker World). Takes i id 0 b c.1) (not format.0)
            (λ bad. record { settles = omega arith; asked = refl })
            (λ good. record { settles = omega arith; asked = refl }))

  on_raw-Takes :
      (j : ℕ) (f : Frame) (b : Broker World)
      → Takes i id (tally (j == i && f.corr_id == id) 0) b (on_raw e j f b)
  unfolding on_raw nack_peer switch_raw to_peer set_line
  on_raw-Takes j f b =
      let P = λ (c : Broker World). Takes i id (tally (j == i && f.corr_id == id) 0) b c in
      let set = set_texts-Takes (line_texts e f) b in
      let busy = to_peer-Takes j ipc_op_nack f.corr_id (err_busy ∷ []) b in
      if_split P (in_raw b.raw && not (holds_raw b.raw j)) (λ other. busy)
        λ mine.
          if_split P (not (f.payload_len == 0) && b.inflight.busy) (λ waits. busy)
            λ free.
              if_split P (not (set_line e f b).0)
                (λ bad.
                  Takes-after i id _ set (
                    to_peer-Takes j ipc_op_nack f.corr_id (err_bad_payload ∷ [])
                      (set_line e f b).1))
                (λ good.
                  Takes-after i id _ (record { settles = set.settles; asked = set.asked })
                    (to_peer-Takes j ipc_op_ack f.corr_id [] _))

  serve_peer-Takes :
      (j : ℕ) (f : Frame) (b : Broker World)
      → Takes i id
          (tally
            (not (f.opcode == op_raw_data && holds_raw b.raw j) && (j == i && f.corr_id == id))
            0)
          b
          (serve_peer e j f b)
  unfolding serve_peer start_request nack_peer
  serve_peer-Takes j f b =
      let wanted =
        not (f.opcode == op_raw_data && holds_raw b.raw j) && (j == i && f.corr_id == id) in
      let P = λ (c : Broker World). Takes i id (tally wanted 0) b c in
      let asks = tally (j == i && f.corr_id == id) 0 in
      let busy = to_peer-Takes j ipc_op_nack f.corr_id (err_busy ∷ []) b in
      if_split P (f.opcode == op_raw)
        (λ raw.
          let same : asks ≡ tally wanted 0 = ground arith in
          Takes-count i id same (on_raw-Takes j f b))
        λ other.
          if_split P (f.opcode == op_raw_data)
            (λ bytes.
              if_split P (not (holds_raw b.raw j))
                (λ stranger.
                  let same : asks ≡ tally wanted 0 = ground arith in Takes-count i id same busy)
                (λ holder.
                  let none_wanted : 0 ≡ tally wanted 0 = ground arith in
                  Takes-count i id none_wanted (record { settles = omega arith; asked = refl })))
            (λ request.
              let same : asks ≡ tally wanted 0 = ground arith in
              if_split P (in_raw b.raw || b.inflight.busy) (λ waits. Takes-count i id same busy)
                (λ free.
                  let t =
                    started-Takes j f
                      (encode true ipc_frame_max f.opcode b.next_id (some f.payload) f.payload_len)
                      (record b {
                        inflight = record b.inflight { link_id = b.next_id };
                        next_id = id_after b.next_id;
                      })
                      (ground arith) in
                  Takes-count i id same (record { settles = t.settles; asked = t.asked })))

  -- The account holds: what was asked under the number is answered under it or in flight.
  abbrev pub Balanced : Broker World → Type 0
  Balanced b = settled i id b ≡ requests i id b.asked

  pub on_peer_frame-Balanced :
      (j : ℕ) (f : Frame) (b : Broker World) → Balanced b → Balanced (on_peer_frame e j f b)
  unfolding on_peer_frame
  on_peer_frame-Balanced j f b h =
      let b' = record b {
        asked = record { peer = j; frame = f; holds = holds_raw b.raw j } ∷ b.asked;
      } in
      let t = serve_peer-Takes j f b' in ground (arith, t.settles, ap (requests i id) t.asked)

  -- Any step that takes no request keeps the account.
  pub Takes-Balanced : {b b' : Broker World} → Takes i id 0 b b' → Balanced b → Balanced b'
  Takes-Balanced t h = omega (arith, t.settles, ap (requests i id) t.asked)
