-- ===== src/Broker/Requests/Relay.antt =====
-- A request from its start to the reply with its number.
use telegraph_stm_fw.Base.{
  ℕ, ◌≤◌, ◌≡◌, refl, ap, sym, ◌≢◌, true-not_false, ◌∙◌, subst, List, ◌∷◌, some, true, false, ◌==◌,
  ◌!=◌, if_split, if_true, if_false, if◌then◌else◌, not, ◌||◌, arith, length, take,
}
use telegraph_stm_fw.Ipc.Wire.{Frame, ipc_frame_max}
use telegraph_stm_fw.Ipc.Encode.{Encoded, written, encode, frame_bytes}
use telegraph_stm_fw.Ipc.Encode.Layout.{encode-written}
use telegraph_stm_fw.Server.Link.{corr_id_push}
use telegraph_stm_fw.Broker.Engine.{Engine, line_refused, write_all}
use telegraph_stm_fw.Broker.State.{Given, Broker, to_peer}
use telegraph_stm_fw.Broker.Requests.{
  op_raw, op_raw_data, holds_raw, in_raw, id_after, send_inflight, started, start_request,
  serve_peer, on_peer_frame, on_link_frame,
}

-- A request for the board, not for the broker, whose payload has its length and fits a frame.
pub record IsRequest (f : Frame) : Type 0 where
  pub not_raw : (f.opcode == op_raw) ≡ false
  pub not_data : (f.opcode == op_raw_data) ≡ false
  pub whole : f.payload_len ≡ length f.payload
  pub fits : length f.payload ≤ 1024

-- The request of peer `i` under its number `id` was just put on the line for the `k`-th time, under
-- the number `link_id`, and `given` went to the peers before.
pub record IsWaiting {World : Type 0} (e_now : World → ℕ) (b : Broker World) (i id link_id k : ℕ)
    (given : List Given) : Type 0 where
  pub busy : b.inflight.busy ≡ true
  pub just_sent : b.inflight.sent_ms ≡ e_now b.world
  pub tried : b.inflight.tries ≡ k
  pub peer : b.inflight.peer ≡ i
  pub number : b.inflight.peer_id ≡ id
  pub on_link : b.inflight.link_id ≡ link_id
  pub before : b.given ≡ given

module _ (e : Engine) where
  open e use {World}

  -- A write of bytes to the line, and the line of the console where it fails.
  pub record IsOnLine (uart : ℕ) (bytes : List ℕ) (w w' : World) : Type 0 where
    pub taken : (write_all e uart bytes w).0 ≡ true → w' ≡ (write_all e uart bytes w).1
    pub refused :
        (write_all e uart bytes w).0 ≡ false
        → w' ≡ e.print line_refused (write_all e uart bytes w).1

  write_all-IsOnLine :
      (uart : ℕ) (bytes : List ℕ) (w : World)
      → let result = write_all e uart bytes w in
        IsOnLine uart bytes w (if result.0 then result.1 else e.print line_refused result.1)
  write_all-IsOnLine uart bytes w =
      let result = write_all e uart bytes w in
      record {
        taken = λ ok. if_true result.1 (e.print line_refused result.1) ok;
        refused = λ bad. if_false result.1 (e.print line_refused result.1) bad;
      }

  started-IsWaiting :
      (i : ℕ) (f : Frame) (bytes : List ℕ) (r : Encoded) (b : Broker World)
      → r ≡ written bytes
      → IsWaiting e.now (started e i f r b) i f.corr_id b.inflight.link_id 1 b.given
        × ((started e i f r b).inflight.frame ≡ bytes)
        × IsOnLine b.uart bytes b.world (started e i f r b).world
  unfolding started send_inflight
  started-IsWaiting i f bytes r b h =
      subst
        (λ (s : Encoded).
          IsWaiting e.now (started e i f s b) i f.corr_id b.inflight.link_id 1 b.given
          × ((started e i f s b).inflight.frame ≡ bytes)
          × IsOnLine b.uart bytes b.world (started e i f s b).world)
        (sym h)
        (
          record {
            busy = refl;
            just_sent = refl;
            tried = omega arith;
            peer = refl;
            number = refl;
            on_link = refl;
            before = refl;
          },
          refl,
          write_all-IsOnLine b.uart bytes b.world,
        )

  -- A request to a broker with a free line goes out under the next number.
  pub on_peer_frame-IsWaiting :
      (i : ℕ) (f : Frame) (b : Broker World)
      → IsRequest f
      → (in_raw b.raw || b.inflight.busy) ≡ false
      → IsWaiting e.now (on_peer_frame e i f b) i f.corr_id b.next_id 1 b.given
        × ((on_peer_frame e i f b).inflight.frame
            ≡ frame_bytes f.opcode b.next_id (take (length f.payload) f.payload) (length f.payload))
        × IsOnLine b.uart
            (frame_bytes f.opcode b.next_id (take (length f.payload) f.payload) (length f.payload))
            b.world
            (on_peer_frame e i f b).world
  unfolding on_peer_frame serve_peer start_request
  on_peer_frame-IsWaiting i f b r free =
      let b' = record b {
        asked = record { peer = i; frame = f; holds = holds_raw b.raw i } ∷ b.asked;
        inflight = record b.inflight { link_id = b.next_id };
        next_id = id_after b.next_id;
      } in
      let P = λ (c : Broker World).
        IsWaiting e.now c i f.corr_id b.next_id 1 b.given
        × (c.inflight.frame
            ≡ frame_bytes f.opcode b.next_id (take (length f.payload) f.payload) (length f.payload))
        × IsOnLine b.uart
            (frame_bytes f.opcode b.next_id (take (length f.payload) f.payload) (length f.payload))
            b.world c.world in
      if_split P (f.opcode == op_raw) (λ raw. absurd (true-not_false raw r.not_raw))
        λ board.
          if_split P (f.opcode == op_raw_data) (λ bytes. absurd (true-not_false bytes r.not_data))
            λ request.
              if_split P (in_raw b.raw || b.inflight.busy)
                (λ waits. absurd (true-not_false waits free))
                λ goes.
                  started-IsWaiting i f _
                    (encode true ipc_frame_max f.opcode b.next_id (some f.payload) f.payload_len) b'
                    (ap (λ (n : ℕ). encode true ipc_frame_max f.opcode b.next_id (some f.payload) n)
                        r.whole
                      ∙ encode-written f.opcode b.next_id f.payload r.fits)

  -- A reply under the number on the link goes to the peer under its own number, and the line is free.
  reply-Given :
      (i id link_id k : ℕ) (given : List Given) (r : Frame) (b : Broker World)
      → IsWaiting e.now b i id link_id k given
      → r.corr_id ≡ link_id
      → 1 ≤ link_id
      → ((on_link_frame e r b).inflight.busy ≡ false)
        × ((on_link_frame e r b).given
            ≡ record { peer = i; opcode = r.opcode; corr_id = id; payload = r.payload } ∷ given)
  unfolding on_link_frame to_peer
  reply-Given i id link_id k given r b s same not_push =
      let P = λ (c : Broker World).
        (c.inflight.busy ≡ false)
        × (c.given
            ≡ record { peer = i; opcode = r.opcode; corr_id = id; payload = r.payload } ∷ given) in
      if_split P (r.corr_id == corr_id_push) (λ push. absurd (ground arith))
        λ reply.
          if_split P (not b.inflight.busy || r.corr_id != b.inflight.link_id)
            (λ unknown. absurd (ground arith)) (λ known. (refl, ground arith))

  -- Any other reply changes nothing but the console.
  stray-Given :
      (i id link_id k : ℕ) (given : List Given) (r : Frame) (b : Broker World)
      → IsWaiting e.now b i id link_id k given
      → r.corr_id ≢ link_id
      → 1 ≤ r.corr_id
      → ((on_link_frame e r b).inflight ≡ b.inflight) × ((on_link_frame e r b).given ≡ given)
  unfolding on_link_frame to_peer
  stray-Given i id link_id k given r b s other not_push =
      let P = λ (c : Broker World). (c.inflight ≡ b.inflight) × (c.given ≡ given) in
      if_split P (r.corr_id == corr_id_push) (λ push. absurd (ground arith))
        λ reply.
          if_split P (not b.inflight.busy || r.corr_id != b.inflight.link_id)
            (λ unknown. (refl, s.before)) (λ known. absurd (ground arith))

  -- A request for the board, whose payload has its length and fits a frame, that a broker with a free
  -- line takes is written to the line as its frame under the next number, not that of a push, with a
  -- line on the console where that fails. The reply with that number goes to the peer that asked,
  -- under the number that it chose, and frees the line; a reply with another number, not that of a
  -- push, does neither.
  pub relay :
      (i : ℕ) (f r : Frame) (b : Broker World)
      → IsRequest f
      → (in_raw b.raw || b.inflight.busy) ≡ false
      → 1 ≤ b.next_id
      → 1 ≤ r.corr_id
      → let sent = on_peer_frame e i f b in
        let c = on_link_frame e r sent in
        (sent.inflight.frame
          ≡ frame_bytes f.opcode b.next_id (take (length f.payload) f.payload) (length f.payload))
        × IsOnLine b.uart sent.inflight.frame b.world sent.world
        × (r.corr_id ≡ b.next_id
            → (c.inflight.busy ≡ false)
              × (c.given
                  ≡ record { peer = i; opcode = r.opcode; corr_id = f.corr_id; payload = r.payload }
                    ∷ b.given))
        × (r.corr_id ≢ b.next_id → (c.inflight ≡ sent.inflight) × (c.given ≡ b.given))
  relay i f r b q free next reply =
      let (waits, bytes, line) = on_peer_frame-IsWaiting i f b q free in
      (
        bytes,
        subst (λ (l : List ℕ). IsOnLine b.uart l b.world (on_peer_frame e i f b).world) (sym bytes)
            line,
        (λ same.
            reply-Given i f.corr_id b.next_id 1 b.given r (on_peer_frame e i f b) waits same next),
        (λ other.
            stray-Given i f.corr_id b.next_id 1 b.given r (on_peer_frame e i f b) waits other
              reply),
      )
