-- ===== src/Server/Link.antt =====
-- The state of the server, and what it sends: ipc_send, ipc_credits, ipc_ack, ipc_nack and ipc_log.
-- `sent` is the record of the frames that went to ipc_send, the newest first.
pub mod Replies
use telegraph_stm_fw.Base.{
  ℕ, zero, suc, ◌+◌, ◌-◌, ◌/◌, List, [], ◌∷◌, Option, none, some, Bool, true, length, take, drop,
  ltb, ◌==◌, if◌then◌else◌, u32,
}
use telegraph_stm_fw.Ipc.Wire.{Frame, ipc_frame_max}
use telegraph_stm_fw.Ipc.Encode.{
  Encoded, err_arg, err_space, err_too_large, written, encode, encode_ack, encode_nack,
}
use telegraph_stm_fw.Ipc.Parser.{Stats}
use telegraph_stm_fw.Channel.{Ring}
use telegraph_stm_fw.Server.Board.{Board}

-- The static state of the channels of the USB port: g_usb_fds, g_usb_reader, g_usb_fd, g_usb_chan,
-- g_usb_sub, g_usb_seq with g_usb_seq_valid, g_usb_bytes, g_usb_reads and the ring.
pub record Usb : Type 0 where
  pub fds : ℕ → Option ℕ
  pub reader : ℕ → Bool
  pub fd : Option ℕ
  pub chan : ℕ
  pub sub : Bool
  pub seq : Option ℕ
  pub bytes : ℕ
  pub reads : ℕ
  pub ring : Ring

-- struct ipc_ctx_s with the other static state of the file.
pub record Ctx (World : Type 0) : Type 0 where
  pub world : World
  pub stats : Stats
  pub link_lost : ℕ
  pub asset_fd : Option ℕ
  pub usb : Usb
  pub sent : List Frame

abbrev pub ipc_op_ack : ℕ
ipc_op_ack = 0xf0

abbrev pub ipc_op_nack : ℕ
ipc_op_nack = 0xf1

abbrev pub ipc_op_log : ℕ
ipc_op_log = 0x03

-- IPC_CORR_ID_PUSH
abbrev pub corr_id_push : ℕ
corr_id_push = 0

-- CONFIG_USART1_RXBUFSIZE of configs/ipc/defconfig.
abbrev pub rxbufsize : ℕ
rxbufsize = 2048

-- IPC_TEXT_MAX
abbrev pub text_max : ℕ
text_max = 64

-- `pending` of ipc_credits, which is 0 where the ioctl fails.
abbrev pending_of : Option ℕ → ℕ
pending_of none = 0
pending_of (some n) = n

module _ (b : Board) where
  open b use {World}

  -- The loop of ipc_send over the bytes left, with fuel; each round writes one byte or more, thus
  -- the number of the bytes is enough.
  pub send_loop : ℕ → List ℕ → Ctx World → Ctx World
  send_loop zero bytes c = c
  send_loop (suc fuel) bytes c =
      let n = (b.link_write bytes c.world).0 in
      let c' = record c { world = (b.link_write bytes c.world).1 } in
      let rest = send_loop fuel (drop n bytes) c' in
      if length bytes == 0
      then c
      else if n == 0
      then record c' { link_lost = u32 (c'.link_lost + 1) }
      else rest

  -- ipc_send of what an encoder left in ctx->tx; a negative length sends nothing.
  pub send : Encoded → Frame → Ctx World → Ctx World
  send (written bytes) f c = send_loop (length bytes) bytes (record c { sent = f ∷ c.sent })
  send err_arg f c = c
  send err_space f c = c
  send err_too_large f c = c

  -- ipc_encode into ctx->tx, and ipc_send.
  pub send_frame : ℕ → ℕ → List ℕ → Ctx World → Ctx World
  send_frame opcode corr_id payload =
      send (encode true ipc_frame_max opcode corr_id (some payload) (length payload)) (record {
        opcode = opcode;
        corr_id = corr_id;
        payload = payload;
        payload_len = length payload;
      })

  -- ipc_credits
  pub credits : Ctx World → ℕ
  credits c =
      let pending = pending_of (b.rx_pending c.world) in
      let units = (rxbufsize - pending) / 64 in if ltb 255 units then 255 else units

  -- ipc_ack
  pub ack : ℕ → Ctx World → Ctx World
  ack corr_id c =
      send (encode_ack true ipc_frame_max corr_id (credits c))
        (record {
          opcode = ipc_op_ack;
          corr_id = corr_id;
          payload = credits c ∷ [];
          payload_len = 1;
        })
        c

  -- ipc_nack
  pub nack : ℕ → ℕ → Ctx World → Ctx World
  nack corr_id error =
      send (encode_nack true ipc_frame_max corr_id error)
        (record { opcode = ipc_op_nack; corr_id = corr_id; payload = error ∷ []; payload_len = 1 })

  -- ipc_log
  pub log : List ℕ → Ctx World → Ctx World
  log text = send_frame ipc_op_log corr_id_push (take text_max text)
