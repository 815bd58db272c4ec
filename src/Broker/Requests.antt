-- ===== src/Broker/Requests.antt =====
-- The handlers of broker.c: of a frame from the link, and of a frame from a peer.
pub mod Demux
pub mod Balance
pub mod Sound
pub mod Relay
use telegraph_stm_fw.Base.{
  ℕ, zero, suc, ◌+◌, List, [], ◌∷◌, Option, none, some, Bool, true, false, take, ◌==◌, ◌!=◌,
  if◌then◌else◌, not, ◌&&◌, ◌||◌, u8, u16, byte_at,
}
use telegraph_stm_fw.Ipc.Wire.{Frame, ipc_frame_max, get_u32}
use telegraph_stm_fw.Ipc.Encode.{Encoded, err_arg, err_space, err_too_large, written, encode}
use telegraph_stm_fw.Ipc.Parser.{parser_init}
use telegraph_stm_fw.Server.Link.{corr_id_push, ipc_op_ack, ipc_op_log}
use telegraph_stm_fw.Broker.Engine.{
  Engine, line_refused, stm32_log, unknown_id, line_runs, raw_mode, write_all, write_node,
  baud_node, format_node,
}
use telegraph_stm_fw.Broker.State.{Peer, Broker, peer_at, to_peer, nack_peer}

-- IPC_ERR_BAD_LENGTH, IPC_ERR_BAD_PAYLOAD, IPC_ERR_BUSY
abbrev pub err_bad_length : ℕ
err_bad_length = 0x02

abbrev pub err_bad_payload : ℕ
err_bad_payload = 0x03

abbrev pub err_busy : ℕ
err_busy = 0x04

-- TG_BRK_OP_RAW, TG_BRK_OP_RAW_DATA, TG_BRK_RAW_LEN
abbrev pub op_raw : ℕ
op_raw = 0xe0

abbrev pub op_raw_data : ℕ
op_raw_data = 0xe1

abbrev pub raw_len : ℕ
raw_len = 7

-- IPC_BAUD
abbrev pub ipc_baud : ℕ
ipc_baud = 460800

-- g_raw against a peer.
abbrev pub holds_raw : Option ℕ → ℕ → Bool
holds_raw none i = false
holds_raw (some p) i = p == i

abbrev pub in_raw : Option ℕ → Bool
in_raw none = false
in_raw (some p) = true

-- How often the opcodes of a peer name one.
pub count_follows : List ℕ → ℕ → ℕ
count_follows [] opcode = 0
count_follows (p ∷ ps) opcode =
    if p == opcode then suc (count_follows ps opcode) else count_follows ps opcode

-- g_next_id after one of its values.
abbrev pub id_after : ℕ → ℕ
id_after id = if u16 (id + 1) == corr_id_push then 1 else u16 (id + 1)

module _ (e : Engine) where
  open e use {World}

  -- send_inflight
  unfoldable pub send_inflight : Broker World → Broker World
  send_inflight b =
      let result = write_all e b.uart b.inflight.frame b.world in
      let w = if result.0 then result.1 else e.print line_refused result.1 in
      record b {
        world = w;
        inflight = record b.inflight { sent_ms = e.now w; tries = b.inflight.tries + 1 };
      }

  -- start_request, with what the encoder gives for the frame under its number on the link.
  pub started : ℕ → Frame → Encoded → Broker World → Broker World
  started i f (written bytes) b = send_inflight (record b {
    inflight = record b.inflight {
      busy = true;
      peer_id = f.corr_id;
      peer = i;
      tries = 0;
      frame = bytes;
    };
  })
  started i f err_arg b = nack_peer e i f.corr_id err_bad_length b
  started i f err_space b = nack_peer e i f.corr_id err_bad_length b
  started i f err_too_large b = nack_peer e i f.corr_id err_bad_length b

  pub start_request : ℕ → Frame → Broker World → Broker World
  start_request i f b =
      started i f (encode true ipc_frame_max f.opcode b.next_id (some f.payload) f.payload_len)
        (record b {
          inflight = record b.inflight { link_id = b.next_id };
          next_id = id_after b.next_id;
        })

  -- The inner loop of demux_push, over the opcodes of a peer.
  pub push_times : ℕ → ℕ → Frame → Broker World → Broker World
  push_times zero i f b = b
  push_times (suc n) i f b = push_times n i f (to_peer e i f.opcode corr_id_push f.payload b)

  -- Its loop over the peers from number `i`; `taken` is its flag.
  pub demux_loop : List Peer → ℕ → Bool → Frame → Broker World → Bool × Broker World
  demux_loop [] i taken f b = (taken, b)
  demux_loop (p ∷ ps) i taken f b =
      let times = count_follows p.pushes f.opcode in
      demux_loop ps (i + 1) (taken || times != 0) f (push_times times i f b)

  -- demux_push
  pub demux_push : Frame → Broker World → Broker World
  demux_push f b =
      let pushed = demux_loop b.peers 0 false f b in
      if not pushed.0 && f.opcode == ipc_op_log
      then record pushed.1 { world = e.print (stm32_log f.payload) pushed.1.world }
      else pushed.1

  -- on_link_frame
  pub on_link_frame : Frame → Broker World → Broker World
  on_link_frame f b =
      let answered = to_peer e b.inflight.peer f.opcode b.inflight.peer_id f.payload b in
      if f.corr_id == corr_id_push
      then demux_push f b
      else if not b.inflight.busy || f.corr_id != b.inflight.link_id
      then record b { world = e.print (unknown_id f.corr_id) b.world }
      else record answered { inflight = record answered.inflight { busy = false } }

  -- The texts of set_line: the baud rate, and the format of data bits, parity and stop bits.
  pub line_texts : Frame → Option (List ℕ × List ℕ)
  line_texts f =
      if f.payload_len == 0
      then some (e.print_u ipc_baud, b'8' ∷ b'N' ∷ b'1' ∷ [])
      else if f.payload_len == raw_len
      then some (
        e.print_u (get_u32 f.payload),
        u8 (byte_at f.payload 4 + 48) ∷ byte_at f.payload 5 ∷ u8 (byte_at f.payload 6 + 48) ∷ [],
      )
      else none

  -- set_line; true is its result 0.
  pub set_texts : Option (List ℕ × List ℕ) → Broker World → Bool × Broker World
  set_texts none b = (false, b)
  set_texts (some texts) b =
      let baud = write_node e b.port baud_node texts.0 b.world in
      let format = write_node e b.port format_node texts.1 baud.1 in
      if not baud.0
      then (false, record b { world = baud.1 })
      else if not format.0
      then (false, record b { world = format.1 })
      else (true, record b { world = e.print (line_runs texts.0 texts.1) format.1 })

  pub set_line : Frame → Broker World → Bool × Broker World
  set_line f = set_texts (line_texts f)

  -- The end of on_raw, once the line is set.
  pub switch_raw : ℕ → Frame → Broker World → Broker World
  switch_raw i f b =
      let leaving = f.payload_len == 0 in
      to_peer e i ipc_op_ack f.corr_id [] (record b {
        link = parser_init;
        raw = if leaving then none else some i;
        world = e.print (raw_mode (peer_at b.peers i).name leaving) b.world;
      })

  -- on_raw
  pub on_raw : ℕ → Frame → Broker World → Broker World
  on_raw i f b =
      let set = set_line f b in
      if in_raw b.raw && not (holds_raw b.raw i)
      then nack_peer e i f.corr_id err_busy b
      else if not (f.payload_len == 0) && b.inflight.busy
      then nack_peer e i f.corr_id err_busy b
      else if not set.0
      then nack_peer e i f.corr_id err_bad_payload set.1
      else switch_raw i f set.1

  -- on_peer_frame, but for the record of the frame.
  pub serve_peer : ℕ → Frame → Broker World → Broker World
  serve_peer i f b =
      if f.opcode == op_raw
      then on_raw i f b
      else if f.opcode == op_raw_data
      then (if not (holds_raw b.raw i)
          then nack_peer e i f.corr_id err_busy b
          else record b { world = (write_all e b.uart (take f.payload_len f.payload) b.world).1 })
      else if in_raw b.raw || b.inflight.busy
      then nack_peer e i f.corr_id err_busy b
      else start_request i f b

  -- on_peer_frame
  pub on_peer_frame : ℕ → Frame → Broker World → Broker World
  on_peer_frame i f b =
      serve_peer i f
        (record b { asked = record { peer = i; frame = f; holds = holds_raw b.raw i } ∷ b.asked })
