-- ===== src/Server/Settings.antt =====
-- The handlers of the board's state, clock and settings: ipc_send_state, ipc_set_time,
-- ipc_set_tempoff, ipc_set_exttemp, ipc_send_settings, ipc_set_bright, ipc_set_sleep and
-- ipc_report_saveerr.
pub mod Replies
use telegraph_stm_fw.Base.{
  ℕ, List, ◌∷◌, ◌++◌, take, drop, byte_at, ◌==◌, ◌!=◌, ◌&&◌, ◌||◌, ltb, leb, if◌then◌else◌, u8, u16,
  u32,
}
use telegraph_stm_fw.Base.Int.{ℤ, pos, negsuc}
use telegraph_stm_fw.Ipc.Wire.{Frame, get_u16, get_u32, put_u16, put_u32}
use telegraph_stm_fw.Ipc.Payload.{
  Checked, fine, ExtTemp, check_exttemp, err_bad_length, err_bad_payload,
}
use telegraph_stm_fw.Ipc.Payload
use telegraph_stm_fw.Server.Board.{Board}
use telegraph_stm_fw.Server.Link.{Ctx, send_frame, ack, nack, log}

abbrev pub err_failed : ℕ
err_failed = 0x05

-- IPC_FWVER_MAX
abbrev pub fwver_max : ℕ
fwver_max = 32

module _ (b : Board) where
  open b use {World}

  pub state_payload : Ctx World → List ℕ
  state_payload c =
      put_u32 (u32 (b.now c.world))
      ++ put_u16 (b.temperature c.world)
      ++ put_u16 (u16 c.stats.frames)
      ++ put_u16 (u16 c.stats.crc_errors)
      ++ u8 c.stats.resyncs ∷ 1 ∷ take fwver_max b.version

  -- ipc_send_state
  pub send_state : ℕ → Ctx World → Ctx World
  send_state corr_id c = send_frame b 0x02 corr_id (state_payload c) c

  -- The offset of the local time, where the payload of ipc_set_time carries one.
  pub with_offset : Frame → Ctx World → Ctx World
  with_offset f c =
      if f.payload_len == 6
      then record c { world = b.utcoffset (get_u16 (drop 4 f.payload)) c.world }
      else c

  -- ipc_set_time
  pub set_time : Frame → Ctx World → Ctx World
  set_time f c =
      let c' = with_offset f c in
      let set = b.clock_settime (get_u32 f.payload) c'.world in
      let c'' = record c' { world = set.1 } in
      if f.payload_len != 4 && f.payload_len != 6
      then nack b f.corr_id err_bad_length c
      else if set.0
      then ack b f.corr_id c''
      else nack b f.corr_id err_failed c''

  -- ipc_set_tempoff
  pub set_tempoff : Frame → Ctx World → Ctx World
  set_tempoff f c =
      if f.payload_len != 2
      then nack b f.corr_id err_bad_length c
      else ack b f.corr_id (record c { world = b.tempoffset (get_u16 f.payload) c.world })

  -- ipc_set_exttemp
  pub exttemp_checked : ℕ → Checked ExtTemp → Ctx World → Ctx World
  exttemp_checked corr_id (Payload.nack error) c = nack b corr_id error c
  exttemp_checked corr_id (fine e) c = ack b corr_id (record c { world = b.exttemp e c.world })

  pub set_exttemp : Frame → Ctx World → Ctx World
  set_exttemp f = exttemp_checked f.corr_id (check_exttemp f.payload f.payload_len)

  pub settings_payload : Ctx World → List ℕ
  settings_payload c =
      let cfg = b.settings c.world in
      cfg.digits ∷ cfg.panels ∷ put_u16 cfg.sleepmin
      ++ put_u16 cfg.wakemin
      ++ put_u16 cfg.utcoffset
      ++ put_u16 cfg.tempoffset
      ++ (if b.ext_set c.world then 1 else 0) ∷ put_u16 (b.ext_tenths c.world)

  -- ipc_send_settings
  pub send_settings : ℕ → Ctx World → Ctx World
  send_settings corr_id c = send_frame b 0x09 corr_id (settings_payload c) c

  -- ipc_set_bright
  pub set_bright : Frame → Ctx World → Ctx World
  set_bright f c =
      let digits = byte_at f.payload 0 in
      let panels = if f.payload_len == 2 then byte_at f.payload 1 else digits in
      if f.payload_len != 1 && f.payload_len != 2
      then nack b f.corr_id err_bad_length c
      else if ltb 8 digits || ltb 8 panels
      then nack b f.corr_id err_bad_payload c
      else ack b f.corr_id (record c { world = b.brightness digits panels c.world })

  -- ipc_set_sleep
  pub set_sleep : Frame → Ctx World → Ctx World
  set_sleep f c =
      let start = get_u16 f.payload in
      let end = get_u16 (drop 2 f.payload) in
      if f.payload_len != 4
      then nack b f.corr_id err_bad_length c
      else if (leb 1440 start && start != 0xffff) || (leb 1440 end && end != 0xffff)
      then nack b f.corr_id err_bad_payload c
      else ack b f.corr_id (record c { world = b.sleep start end c.world })

  -- ipc_report_saveerr
  pub report_error : ℤ → Ctx World → Ctx World
  report_error (pos n) c = if n == 0 then c else log b (b.saveerr_note (pos n)) c
  report_error (negsuc n) c = log b (b.saveerr_note (negsuc n)) c

  pub report_saveerr : Ctx World → Ctx World
  report_saveerr c = report_error (b.saveerr c.world).0 (record c { world = (b.saveerr c.world).1 })
