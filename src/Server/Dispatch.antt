-- ===== src/Server/Dispatch.antt =====
-- ipc_on_frame, which gives a frame to the handler of its opcode, and one run of the loop of
-- ipc_server, which feeds the parser with what the link gives and pushes what a channel holds. The
-- build is the one with CONFIG_FS_SMARTFS and CONFIG_USBHOST_CDCACM. A pause (usleep) changes no
-- state and does not stand here.
pub mod Replies
use telegraph_stm_fw.Base.{
  ℕ, zero, suc, List, [], ◌∷◌, Option, none, some, length, ◌==◌, ◌&&◌, if◌then◌else◌,
}
use telegraph_stm_fw.Ipc.Wire.{Frame}
use telegraph_stm_fw.Ipc.Parser.{Parser, Call, Taken, parser_pending, parser_push, parser_timeout}
use telegraph_stm_fw.Server.Board.{Board}
use telegraph_stm_fw.Server.Link.{Ctx, nack}
use telegraph_stm_fw.Server.Settings.{
  send_state, set_time, set_tempoff, set_exttemp, send_settings, set_bright, set_sleep,
  report_saveerr,
}
use telegraph_stm_fw.Server.Panels.{
  clear, set_text, set_pixels, set_font, set_anim, anim_speed, anim_stop, release,
}
use telegraph_stm_fw.Server.Storage.{fs_list, fs_read, fs_write, fs_delete, fs_mkdir}
use telegraph_stm_fw.Server.UsbPort.{usb_list, usb_write, usb_sub, usb_push, is_some}

abbrev pub err_bad_opcode : ℕ
err_bad_opcode = 0x01

abbrev pub err_unsupported : ℕ
err_unsupported = 0x06

-- IPC_IDLE_MS
abbrev pub idle_ms : ℕ
idle_ms = 20

-- IPC_CHAN_DRAIN
abbrev pub chan_drain : ℕ
chan_drain = 8

-- What the wait of the loop (poll) gives: it failed, the link gave the result of a read, it woke for
-- another reason, or the limit passed.
pub data Woken : Type 0 where
  failed other timed_out : Woken
  readable : Option (List ℕ) → Woken

module _ (b : Board) where
  open b use {World}

  -- The switch of ipc_on_frame.
  pub dispatch : Frame → Ctx World → Ctx World
  dispatch f c =
      if f.opcode == 0x01
      then send_state b f.corr_id c
      else if f.opcode == 0x04
      then set_time b f c
      else if f.opcode == 0x05
      then set_tempoff b f c
      else if f.opcode == 0x07
      then set_exttemp b f c
      else if f.opcode == 0x08
      then send_settings b f.corr_id c
      else if f.opcode == 0x06
      then nack b f.corr_id err_unsupported c
      else if f.opcode == 0x10
      then clear b f c
      else if f.opcode == 0x11
      then set_bright b f c
      else if f.opcode == 0x12
      then set_sleep b f c
      else if f.opcode == 0x13
      then set_text b f c
      else if f.opcode == 0x14
      then set_pixels b f c
      else if f.opcode == 0x15
      then set_font b f c
      else if f.opcode == 0x16
      then set_anim b f c
      else if f.opcode == 0x17
      then anim_speed b f c
      else if f.opcode == 0x18
      then anim_stop b f c
      else if f.opcode == 0x19
      then release b f c
      else if f.opcode == 0x20
      then fs_list b f c
      else if f.opcode == 0x21
      then fs_read b f c
      else if f.opcode == 0x22
      then fs_write b f c
      else if f.opcode == 0x23
      then fs_delete b f c
      else if f.opcode == 0x24
      then fs_mkdir b f c
      else if f.opcode == 0x30
      then usb_list b f c
      else if f.opcode == 0x32
      then usb_write b f c
      else if f.opcode == 0x34
      then usb_sub b f c
      else nack b f.corr_id err_bad_opcode c

  -- ipc_on_frame
  pub on_frame : Frame → Ctx World → Ctx World
  on_frame f c = report_saveerr b (dispatch f c)

  -- The calls of the callback, in their order.
  pub serve_calls : List Call → Ctx World → Ctx World
  serve_calls [] c = c
  serve_calls (call ∷ calls) c =
      serve_calls calls (on_frame call.frame (record c { stats = call.seen }))

  -- The parser of the context beside the rest of it.
  pub record Server : Type 0 where
    pub parser : Parser
    pub ctx : Ctx World

  pub taken_by : Taken → Server → Server
  taken_by t s = record {
    parser = t.parser;
    ctx = record (serve_calls t.calls s.ctx) { stats = t.parser.stats };
  }

  -- The limit of the wait; `none` is a wait without a limit.
  pub wait_limit : Server → Option ℕ
  wait_limit s =
      if s.ctx.usb.sub && is_some s.ctx.usb.fd
      then some idle_ms
      else if parser_pending (some s.parser)
      then some idle_ms
      else none

  -- The loop that sends what a channel holds.
  pub push_channel : ℕ → Ctx World → Ctx World
  push_channel zero c = c
  push_channel (suc n) c =
      let rest = push_channel n (usb_push b c) in
      if c.usb.ring.head == c.usb.ring.tail then c else rest

  pub read_link : Woken → Server → Server
  read_link (readable (some bytes)) s =
      taken_by (parser_push s.parser (some bytes) (length bytes)) s
  read_link timed_out s =
      if parser_pending (some s.parser) then taken_by (parser_timeout s.parser) s else s
  read_link _ s = s

  -- The part of the loop that serves a followed channel.
  pub followed : Server → Server
  followed s =
      if s.ctx.usb.sub && is_some s.ctx.usb.fd
      then record s { ctx = push_channel chan_drain s.ctx }
      else s

  -- One run of the loop of ipc_server, after the wait.
  pub server_turn : Woken → Server → Server
  server_turn failed s = s
  server_turn woken s = followed (read_link woken s)
