-- ===== src/Server/Link/Replies.antt =====
-- The frames that the server sends, counted by their number.
use telegraph_stm_fw.Base.{
  if_both, ℕ, zero, suc, ◌+◌, ◌≤◌, ◌≡◌, ◌≢◌, refl, ap, sym, ◌∙◌, List, [], ◌∷◌, Bool, length,
  length-take, take, ◌==◌, if◌then◌else◌, arith, subst,
}
use telegraph_stm_fw.Ipc.Wire.{Frame}
use telegraph_stm_fw.Ipc.Encode.{written, Encoded}
use telegraph_stm_fw.Ipc.Encode.Layout.{encode-written, encode_ack-written, encode_nack-written}
use telegraph_stm_fw.Server.Board.{Board}
use telegraph_stm_fw.Server.Link.{
  Ctx, send_loop, send, send_frame, ack, nack, log, credits, text_max,
}

abbrev pub one_if : Bool → ℕ
one_if t = if t then 1 else 0

-- How many of the frames carry the number.
unfoldable pub replies : ℕ → List Frame → ℕ
replies id [] = 0
replies id (f ∷ frames) = one_if (f.corr_id == id) + replies id frames

if_not : (id : ℕ) → id ≢ 0 → one_if (0 == id) ≡ 0
if_not id h = ground arith

module _ (b : Board) (id : ℕ) where
  open b use {World}

  -- The frames `s` were sent before; after, there is one more with the number `id` where `corr_id` is
  -- `id`, and none elsewhere.
  pub record Answers (corr_id : ℕ) (s : List Frame) (c : Ctx World) : Type 0 where
    pub count : replies id c.sent ≡ one_if (corr_id == id) + replies id s

  -- No frame with the number `id` was sent.
  pub record Silent (s : List Frame) (c : Ctx World) : Type 0 where
    pub count : replies id c.sent ≡ replies id s

  pub send_loop-sent :
      (fuel : ℕ) (bytes : List ℕ) (c : Ctx World) → (send_loop b fuel bytes c).sent ≡ c.sent
  unfolding send_loop
  send_loop-sent zero bytes c = refl
  send_loop-sent (suc fuel) bytes c =
      if_both (λ (c' : Ctx World). c'.sent ≡ c.sent) (length bytes == 0) refl
        (if_both (λ (c' : Ctx World). c'.sent ≡ c.sent) ((b.link_write bytes c.world).0 == 0) refl
          (send_loop-sent fuel _ _))

  send-Answers :
      (e : Encoded) (bytes : List ℕ) (f : Frame) {s : List Frame} (c : Ctx World)
      → e ≡ written bytes
      → c.sent ≡ s
      → Answers f.corr_id s (send b e f c)
  unfolding send replies
  send-Answers e bytes f {s} c h k =
      subst (λ (e' : Encoded). Answers f.corr_id s (send b e' f c)) (sym h)
        (record {
          count = ap (replies id) (send_loop-sent _ _ _ ∙ ap (λ (t : List Frame). f ∷ t) k);
        })

  pub ack-Answers :
      (corr_id : ℕ) (c : Ctx World) {s : List Frame}
      → c.sent ≡ s
      → Answers corr_id s (ack b corr_id c)
  unfolding ack
  ack-Answers corr_id c = send-Answers _ _ _ c (encode_ack-written corr_id (credits b c))

  pub nack-Answers :
      (corr_id error : ℕ) (c : Ctx World) {s : List Frame}
      → c.sent ≡ s
      → Answers corr_id s (nack b corr_id error c)
  unfolding nack
  nack-Answers corr_id error c = send-Answers _ _ _ c (encode_nack-written corr_id error)

  pub send_frame-Answers :
      (opcode corr_id : ℕ) (payload : List ℕ) (c : Ctx World) {s : List Frame}
      → length payload ≤ 1024
      → c.sent ≡ s
      → Answers corr_id s (send_frame b opcode corr_id payload c)
  unfolding send_frame
  send_frame-Answers opcode corr_id payload c h =
      send-Answers _ _ _ c (encode-written opcode corr_id payload h)

  pub push-Silent :
      (opcode : ℕ) (payload : List ℕ) (c : Ctx World) {s : List Frame}
      → length payload ≤ 1024
      → id ≢ 0
      → c.sent ≡ s
      → Silent s (send_frame b opcode 0 payload c)
  push-Silent opcode payload c h n k =
      let sent = send_frame-Answers opcode 0 payload c h k in
      record { count = sent.count ∙ simp (if_not id n) (omega arith) }

  pub log-Silent :
      (text : List ℕ) (c : Ctx World) {s : List Frame}
      → id ≢ 0
      → c.sent ≡ s
      → Silent s (log b text c)
  unfolding log
  log-Silent text c =
      push-Silent 0x03 (take text_max text) c (omega (arith, length-take text_max text))

  pub ack_quiet :
      (corr_id : ℕ) {s : List Frame} (c : Ctx World)
      → Silent s c
      → Answers corr_id s (ack b corr_id c)
  ack_quiet corr_id {s} c q =
      let a = ack-Answers corr_id c refl in
      record { count = a.count ∙ ap (λ (n : ℕ). one_if (corr_id == id) + n) q.count }

  pub branch :
      {corr_id : ℕ} {s : List Frame} {x y : Ctx World} (t : Bool)
      → Answers corr_id s x
      → Answers corr_id s y
      → Answers corr_id s (if t then x else y)
  branch {corr_id} {s} t = if_both (Answers corr_id s) t

  pub quiet_branch :
      {s : List Frame} {x y : Ctx World} (t : Bool)
      → Silent s x
      → Silent s y
      → Silent s (if t then x else y)
  quiet_branch {s} t = if_both (Silent s) t

  pub Answers-then-Silent :
      {corr_id : ℕ} {s : List Frame} {c c' : Ctx World}
      → Answers corr_id s c
      → Silent c.sent c'
      → Answers corr_id s c'
  Answers-then-Silent a q = record { count = q.count ∙ a.count }
