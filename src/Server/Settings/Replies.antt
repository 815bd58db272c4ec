-- ===== src/Server/Settings/Replies.antt =====
-- The replies of the handlers of the board, the clock and the settings.
use telegraph_stm_fw.Base.{
  if_both, ℕ, ◌≤◌, ◌≢◌, ◌≡◌, ◌==◌, refl, length, arith, length-append, length-take,
}
use telegraph_stm_fw.Base.Int.{ℤ, pos, negsuc}
use telegraph_stm_fw.Ipc.Wire.{Frame}
use telegraph_stm_fw.Ipc.Wire.Fields.{length-put_u16, length-put_u32}
use telegraph_stm_fw.Ipc.Payload.{Checked, fine, ExtTemp, check_exttemp}
use telegraph_stm_fw.Ipc.Payload
use telegraph_stm_fw.Server.Board.{Board}
use telegraph_stm_fw.Server.Link.{Ctx}
use telegraph_stm_fw.Server.Link.Replies.{
  Answers, Silent, ack-Answers, nack-Answers, send_frame-Answers, log-Silent, branch, quiet_branch,
}
use telegraph_stm_fw.Server.Settings.{
  with_offset, set_time, set_tempoff, set_exttemp, exttemp_checked, set_bright, set_sleep,
  send_state, state_payload, send_settings, settings_payload, report_error, report_saveerr,
  fwver_max,
}

module _ (b : Board) (id : ℕ) where
  open b use {World}

  length-state_payload : (c : Ctx World) → length (state_payload b c) ≤ 1024
  unfolding state_payload
  length-state_payload c =
      simp (length-put_u16, length-put_u32, length-append)
        (omega (arith, length-take fwver_max b.version))

  length-settings_payload : (c : Ctx World) → length (settings_payload b c) ≤ 1024
  unfolding settings_payload
  length-settings_payload c = simp (length-put_u16, length-append) (omega arith)

  pub send_state-Answers :
      (corr_id : ℕ) (c : Ctx World) → Answers b id corr_id c.sent (send_state b corr_id c)
  unfolding send_state
  send_state-Answers corr_id c = send_frame-Answers b id _ _ _ c (length-state_payload c) refl

  pub send_settings-Answers :
      (corr_id : ℕ) (c : Ctx World) → Answers b id corr_id c.sent (send_settings b corr_id c)
  unfolding send_settings
  send_settings-Answers corr_id c = send_frame-Answers b id _ _ _ c (length-settings_payload c) refl

  with_offset-sent : (f : Frame) (c : Ctx World) → (with_offset b f c).sent ≡ c.sent
  unfolding with_offset
  with_offset-sent f c = if_both (λ (c' : Ctx World). c'.sent ≡ c.sent) _ refl refl

  pub set_time-Answers :
      (f : Frame) (c : Ctx World) → Answers b id f.corr_id c.sent (set_time b f c)
  unfolding set_time
  set_time-Answers f c = search (branch b id, ack-Answers b id, nack-Answers b id, with_offset-sent)

  pub set_tempoff-Answers :
      (f : Frame) (c : Ctx World) → Answers b id f.corr_id c.sent (set_tempoff b f c)
  unfolding set_tempoff
  set_tempoff-Answers f c = search (branch b id, ack-Answers b id, nack-Answers b id)

  exttemp_checked-Answers :
      (corr_id : ℕ) (e : Checked ExtTemp) (c : Ctx World)
      → Answers b id corr_id c.sent (exttemp_checked b corr_id e c)
  unfolding exttemp_checked
  exttemp_checked-Answers corr_id (Payload.nack error) c = nack-Answers b id _ _ _ refl
  exttemp_checked-Answers corr_id (fine e) c = ack-Answers b id _ _ refl

  pub set_exttemp-Answers :
      (f : Frame) (c : Ctx World) → Answers b id f.corr_id c.sent (set_exttemp b f c)
  unfolding set_exttemp
  set_exttemp-Answers f c = exttemp_checked-Answers f.corr_id _ c

  pub set_bright-Answers :
      (f : Frame) (c : Ctx World) → Answers b id f.corr_id c.sent (set_bright b f c)
  unfolding set_bright
  set_bright-Answers f c = search (branch b id, ack-Answers b id, nack-Answers b id)

  pub set_sleep-Answers :
      (f : Frame) (c : Ctx World) → Answers b id f.corr_id c.sent (set_sleep b f c)
  unfolding set_sleep
  set_sleep-Answers f c = search (branch b id, ack-Answers b id, nack-Answers b id)

  report_error-Silent : (e : ℤ) (c : Ctx World) → id ≢ 0 → Silent b id c.sent (report_error b e c)
  unfolding report_error
  report_error-Silent (pos n) c h =
      quiet_branch b id {x = c} (n == 0) (record { count = refl }) (log-Silent b id _ c h refl)
  report_error-Silent (negsuc n) c h = log-Silent b id _ c h refl

  pub report_saveerr-Silent : (c : Ctx World) → id ≢ 0 → Silent b id c.sent (report_saveerr b c)
  unfolding report_saveerr
  report_saveerr-Silent c h = report_error-Silent _ _ h
