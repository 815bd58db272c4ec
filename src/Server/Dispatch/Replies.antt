-- ===== src/Server/Dispatch/Replies.antt =====
-- The replies of ipc_on_frame and of one run of the loop of ipc_server, counted by their number.
use telegraph_stm_fw.Base.{
  if_both, ℕ, ◌+◌, ◌==◌, ◌≢◌, ◌≡◌, refl, ◌∙◌, arith, List, [], ◌∷◌, some, none, length, zero, suc,
  Bool-cases, inl, inr, if◌then◌else◌, ◌&&◌,
}
use telegraph_stm_fw.Ipc.Wire.{Frame}
use telegraph_stm_fw.Ipc.Parser.{Call, Parser, parser_push, parser_timeout, parser_pending}
use telegraph_stm_fw.Server.Board.{Board, Lawful}
use telegraph_stm_fw.Server.Link.{Ctx}
use telegraph_stm_fw.Server.Link.Replies.{
  replies, one_if, Answers, Silent, nack-Answers, branch, quiet_branch, Answers-then-Silent,
}
use telegraph_stm_fw.Server.Settings.Replies.{
  send_state-Answers, send_settings-Answers, set_time-Answers, set_tempoff-Answers,
  set_exttemp-Answers, set_bright-Answers, set_sleep-Answers, report_saveerr-Silent,
}
use telegraph_stm_fw.Server.Panels.Replies.{
  clear-Answers, set_text-Answers, set_pixels-Answers, set_font-Answers, set_anim-Answers,
  anim_speed-Answers, anim_stop-Answers, release-Answers,
}
use telegraph_stm_fw.Server.Storage.Replies.{
  fs_list-Answers, fs_read-Answers, fs_write-Answers, fs_delete-Answers, fs_mkdir-Answers,
}
use telegraph_stm_fw.Server.UsbPort.Replies.{
  usb_list-Answers, usb_write-Answers, usb_sub-Answers, usb_push-Silent,
}
use telegraph_stm_fw.Server.UsbPort.{is_some, usb_push}
use telegraph_stm_fw.Server.Dispatch.{
  chan_drain, dispatch, on_frame, serve_calls, Server, taken_by, push_channel, read_link, followed,
  server_turn, Woken, failed, other, timed_out, readable,
}

-- How many of the calls carry a frame with the number.
pub requests : ℕ → List Call → ℕ
requests id [] = 0
requests id (call ∷ calls) = one_if (call.frame.corr_id == id) + requests id calls

-- What the parser hands to the callback in one run of the loop.
pub handed_over : Woken → Parser → List Call
handed_over (readable (some bytes)) p = (parser_push p (some bytes) (length bytes)).calls
handed_over timed_out p = if parser_pending (some p) then (parser_timeout p).calls else []
handed_over _ p = []

module _ (b : Board) (id : ℕ) where
  open b use {World}

  dispatch-Answers :
      Lawful b
      → id ≢ 0
      → (f : Frame) (c : Ctx World) → Answers b id f.corr_id c.sent (dispatch b f c)
  unfolding dispatch
  dispatch-Answers law n f c =
      search
        (
          branch b id,
          nack-Answers b id,
          send_state-Answers b id,
          send_settings-Answers b id,
          set_time-Answers b id,
          set_tempoff-Answers b id,
          set_exttemp-Answers b id,
          set_bright-Answers b id,
          set_sleep-Answers b id,
          clear-Answers b id,
          set_text-Answers b id,
          set_pixels-Answers b id,
          set_font-Answers b id,
          set_anim-Answers b id,
          anim_speed-Answers b id,
          anim_stop-Answers b id,
          release-Answers b id,
          fs_list-Answers b id,
          fs_read-Answers b id,
          fs_write-Answers b id,
          fs_delete-Answers b id,
          fs_mkdir-Answers b id,
          usb_list-Answers b id,
          usb_write-Answers b id,
          usb_sub-Answers b id,
        )
        depth 40

  on_frame-Answers :
      Lawful b
      → id ≢ 0
      → (f : Frame) (c : Ctx World) → Answers b id f.corr_id c.sent (on_frame b f c)
  unfolding on_frame
  on_frame-Answers law n f c =
      Answers-then-Silent b id (dispatch-Answers law n f c) (report_saveerr-Silent b id _ n)

  serve_calls-replies :
      Lawful b
      → id ≢ 0
      → (calls : List Call) (c : Ctx World)
      → replies id (serve_calls b calls c).sent ≡ requests id calls + replies id c.sent
  unfolding serve_calls requests
  serve_calls-replies law n [] c = omega arith
  serve_calls-replies law n (call ∷ calls) c =
      let c' = record c { stats = call.seen } in
      let first = on_frame-Answers law n call.frame c' in
      omega (arith, serve_calls-replies law n calls (on_frame b call.frame c'), first.count)

  push_channel-Silent : id ≢ 0 → (n : ℕ) (c : Ctx World) → Silent b id c.sent (push_channel b n c)
  unfolding push_channel
  push_channel-Silent h zero c = record { count = refl }
  push_channel-Silent h (suc n) c =
      let first = usb_push-Silent b id h c in
      quiet_branch b id {x = c} (c.usb.ring.head == c.usb.ring.tail) (record { count = refl })
        (record { count = (push_channel-Silent h n (usb_push b c)).count ∙ first.count })

  followed-Silent : id ≢ 0 → (s : Server b) → Silent b id s.ctx.sent (followed b s).ctx
  unfolding followed
  followed-Silent h s =
      if_both (λ (s' : Server b). Silent b id s.ctx.sent s'.ctx)
        (s.ctx.usb.sub && is_some s.ctx.usb.fd) (push_channel-Silent h chan_drain s.ctx)
        (record { count = refl })

  read_link-replies :
      Lawful b
      → id ≢ 0
      → (woken : Woken) (s : Server b)
      → replies id (read_link b woken s).ctx.sent
        ≡ requests id (handed_over woken s.parser) + replies id s.ctx.sent
  unfolding read_link handed_over taken_by requests
  read_link-replies law n failed s = omega arith
  read_link-replies law n other s = omega arith
  read_link-replies law n (readable none) s = omega arith
  read_link-replies law n (readable (some bytes)) s = serve_calls-replies law n _ _
  read_link-replies law n timed_out s = elim (Bool-cases (parser_pending (some s.parser))) [
    | inl e ↦ rw e (serve_calls-replies law n _ _)
    | inr e ↦ rw e (omega arith)
  ]

  -- One run of the loop of ipc_server, on a lawful board, whatever the wait gave: for a number other
  -- than 0, the frames sent with that number are those sent before and one more for each request
  -- with that number that the parser hands over, whatever the request asks for.
  pub server_turn-replies :
      Lawful b
      → id ≢ 0
      → (woken : Woken) (s : Server b)
      → replies id (server_turn b woken s).ctx.sent
        ≡ requests id (handed_over woken s.parser) + replies id s.ctx.sent
  unfolding server_turn handed_over requests
  server_turn-replies law n failed s = omega arith
  server_turn-replies law n other s = (followed-Silent n _).count ∙ read_link-replies law n other s
  server_turn-replies law n timed_out s =
      (followed-Silent n _).count ∙ read_link-replies law n timed_out s
  server_turn-replies law n (readable bytes) s =
      (followed-Silent n _).count ∙ read_link-replies law n (readable bytes) s
