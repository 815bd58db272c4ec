-- ===== src/Ota.antt =====
-- wapps/tg-ota/ota.c: its frames to and from the broker, and the line of raw mode. The files
-- and the clock are those of Broker/Engine; what the wapp prints is left out.
pub mod Kept
pub mod Clock
pub mod Requests
pub mod Bootloader
pub mod Image
pub mod Run
use telegraph_stm_fw.Base.{
  ℕ, zero, suc, ◌+◌, ◌-◌, ◌*◌, ◌/◌, List, [], ◌∷◌, ◌++◌, Option, none, some, Bool, true, false,
  length, take, ltb, leb, ◌==◌, ◌!=◌, if◌then◌else◌, u16,
}
use telegraph_stm_fw.Ipc.Wire.{Frame, ipc_frame_max}
use telegraph_stm_fw.Ipc.Encode.{Encoded, err_arg, err_space, err_too_large, written, encode}
use telegraph_stm_fw.Ipc.Parser.{Parser, Call, Taken, parser_push}
use telegraph_stm_fw.Server.Link.{corr_id_push}
use telegraph_stm_fw.Broker.Engine.{Engine, Wrote, took, eagain, failed}
use telegraph_stm_fw.Broker.Requests.{op_raw_data}

-- The sizes of g_line and g_reply.
abbrev pub line_max : ℕ
line_max = 512

abbrev pub reply_max : ℕ
reply_max = 64

-- g_rsp, g_req, g_parser, g_line, g_reply, g_replyOp, g_gotReply, g_corr, g_inflight and g_addr.
-- `lines` is a record of the model: what went to line_write, the newest first.
pub record Ota (World : Type 0) : Type 0 where
  pub world : World
  pub rsp : ℕ
  pub req : ℕ
  pub parser : Parser
  pub line : List ℕ
  pub reply : List ℕ
  pub reply_op : ℕ
  pub got_reply : Bool
  pub corr : ℕ
  pub inflight : ℕ
  pub addr : ℕ
  pub lines : List (List ℕ)

module _ (e : Engine) where
  open e use {World}

  -- on_frame
  unfoldable pub on_frame : Frame → Ota World → Ota World
  on_frame f o =
      if f.opcode == op_raw_data
      then record o { line = o.line ++ take (line_max - length o.line) f.payload }
      else if f.corr_id != o.inflight
      then o
      else record o { reply_op = f.opcode; reply = take reply_max f.payload; got_reply = true }

  unfoldable pub frames_in : List Call → Ota World → Ota World
  frames_in [] o = o
  frames_in (c ∷ cs) o = frames_in cs (on_frame c.frame o)

  -- pump, with the bytes of its read.
  unfoldable pub pumped : List ℕ → Ota World → Ota World
  pumped bytes o =
      let t = parser_push o.parser (some bytes) (length bytes) in
      if length bytes == 0 then o else frames_in t.calls (record o { parser = t.parser })

  unfoldable pub pump : Ota World → Ota World
  pump o = let got = e.read o.rsp 256 o.world in pumped got.0 (record o { world = got.1 })

  -- send; true is its result 0.
  unfoldable pub sent_whole : ℕ → Wrote → Bool
  sent_whole n (took k) = k == n
  sent_whole n eagain = false
  sent_whole n failed = false

  unfoldable pub send_frame : Encoded → Ota World → Bool × Ota World
  send_frame (written bytes) o =
      let wrote = e.write o.req bytes o.world in
      (sent_whole (length bytes) wrote.0, record o { world = wrote.1 })
  send_frame err_arg o = (false, o)
  send_frame err_space o = (false, o)
  send_frame err_too_large o = (false, o)

  unfoldable pub send : ℕ → ℕ → List ℕ → Ota World → Bool × Ota World
  send opcode corr_id payload =
      send_frame (encode true ipc_frame_max opcode corr_id (some payload) (length payload))

  -- send_request
  unfoldable pub send_request : ℕ → List ℕ → Ota World → Bool × Ota World
  send_request opcode payload o =
      let corr = if u16 (o.corr + 1) == corr_id_push then 1 else u16 (o.corr + 1) in
      send opcode corr payload (record o { corr = corr; inflight = corr; got_reply = false })

  -- line_write
  unfoldable pub line_write : List ℕ → Ota World → Bool × Ota World
  line_write bytes o = send op_raw_data corr_id_push bytes (record o { lines = bytes ∷ o.lines })
