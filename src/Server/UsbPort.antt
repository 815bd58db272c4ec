-- ===== src/Server/UsbPort.antt =====
-- The handlers of the USB port: ipc_usb_open, ipc_usb_list, ipc_usb_write, ipc_usb_sub, ipc_usb_push,
-- and the body of the loop of ipc_chan_reader.
pub mod Replies
use telegraph_stm_fw.Base.{
  ℕ, ◌+◌, ◌-◌, List, [], ◌∷◌, ◌++◌, length, take, drop, byte_at, Bool, true, false, ◌==◌, ◌!=◌,
  ◌&&◌, ltb, leb, if◌then◌else◌, u8, u32, Option, none, some,
}
use telegraph_stm_fw.Ipc.Wire.{Frame}
use telegraph_stm_fw.Ipc.Payload.{err_bad_length}
use telegraph_stm_fw.Channel.{chan_put, chan_take}
use telegraph_stm_fw.Server.Board.{Board}
use telegraph_stm_fw.Server.Link.{Ctx, Usb, send_frame, ack, nack, log, corr_id_push}
use telegraph_stm_fw.Server.Settings.{err_failed}
use telegraph_stm_fw.Server.Storage.{media_root}

-- IPC_USB_CHANNELS
abbrev pub usb_channels : ℕ
usb_channels = 2

abbrev update {ℓ} : {A : Type ℓ} → (ℕ → A) → ℕ → A → ℕ → A
update g k v j = if j == k then v else g j

abbrev pub same_fd : Option ℕ → Option ℕ → Bool
same_fd none none = true
same_fd (some a) (some d) = a == d
same_fd _ _ = false

abbrev pub is_some : Option ℕ → Bool
is_some none = false
is_some (some a) = true

-- Where another device is followed, the sequence of the previous one names no write of it.
pub follow : ℕ → ℕ → Usb → Usb
follow channel fd u = record u {
  seq = if same_fd u.fd (some fd) then u.seq else none;
  fd = some fd;
  chan = channel;
}

module _ (b : Board) where
  open b use {World}

  -- The result of ipc_usb_open with the state that it leaves; `none` stands for -1.
  pub record Opened : Type 0 where
    pub fd : Option ℕ
    pub ctx : Ctx World

  -- The device of the channel, opened where it is not open yet.
  pub open_channel : ℕ → Option ℕ → Ctx World → Ctx World
  open_channel channel (some fd) c = c
  open_channel channel none c =
      let opened = b.open_device (b.usb_path channel) c.world in
      record c { world = opened.1; usb = record c.usb { fds = update c.usb.fds channel opened.0 } }

  -- Its reader, started where it does not run yet.
  pub with_reader : ℕ → Option ℕ → Ctx World → Opened
  with_reader channel none c = record { fd = none; ctx = c }
  with_reader channel (some fd) c =
      let started = b.start_reader channel c.world in
      let c' = record c {
        world = started.1;
        usb = follow channel fd (record c.usb { reader = update c.usb.reader channel true });
      } in
      if c.usb.reader channel
      then record { fd = some fd; ctx = record c { usb = follow channel fd c.usb } }
      else if started.0
      then record { fd = some fd; ctx = c' }
      else record { fd = none; ctx = record c { world = started.1 } }

  -- ipc_usb_open
  pub usb_open : ℕ → Ctx World → Opened
  usb_open channel c =
      let c' = open_channel channel (c.usb.fds channel) c in
      if leb usb_channels channel
      then record { fd = none; ctx = c }
      else with_reader channel (c'.usb.fds channel) c'

  pub device_record : ℕ → ℕ → List ℕ → List ℕ
  device_record channel kind path = channel ∷ kind ∷ u8 (length path) ∷ path

  -- The record of a device that a stat finds.
  pub record_of : ℕ → ℕ → List ℕ → Option ℕ → List ℕ
  record_of channel kind path none = []
  record_of channel kind path (some size) = device_record channel kind path

  -- The devices of the port: the two channels and the storage.
  pub records : World → List ℕ
  records w =
      record_of 0 0x00 (b.usb_path 0) (b.file_size (b.usb_path 0) w)
      ++ record_of 1 0x00 (b.usb_path 1) (b.file_size (b.usb_path 1) w)
      ++ record_of 0xff 0x01 media_root (b.file_size media_root w)

  -- ipc_usb_list
  pub usb_list : Frame → Ctx World → Ctx World
  usb_list f c =
      let c' = send_frame b 0x31 f.corr_id (records c.world) c in
      log b (b.usb_note c'.usb.bytes c'.usb.reads c'.usb.ring.over c'.link_lost) c'

  -- ipc_usb_write with the device open.
  pub write_device : Frame → Option ℕ → Ctx World → Ctx World
  write_device f none c = nack b f.corr_id err_failed c
  write_device f (some fd) c =
      let seq = byte_at f.payload 1 in
      let bytes = take (f.payload_len - 2) (drop 2 f.payload) in
      let put = b.write fd bytes c.world in
      let kept = record c.usb { seq = some seq } in
      if same_fd c.usb.seq (some seq)
      then ack b f.corr_id (log b (b.repeat_note seq) c)
      else if length bytes == 0
      then ack b f.corr_id (record c { usb = kept })
      else if put.0
      then ack b f.corr_id (record c { world = put.1; usb = kept })
      else nack b f.corr_id err_failed (record c { world = put.1 })

  -- ipc_usb_write
  pub usb_write : Frame → Ctx World → Ctx World
  usb_write f c =
      let opened = usb_open (byte_at f.payload 0) c in
      if ltb f.payload_len 2
      then nack b f.corr_id err_bad_length c
      else write_device f opened.fd opened.ctx

  pub subscribe : ℕ → Option ℕ → Ctx World → Ctx World
  subscribe corr_id none c = nack b corr_id err_failed c
  subscribe corr_id (some fd) c = ack b corr_id (record c { usb = record c.usb { sub = true } })

  -- ipc_usb_sub
  pub usb_sub : Frame → Ctx World → Ctx World
  usb_sub f c =
      let opened = usb_open (byte_at f.payload 0) c in
      if f.payload_len != 2
      then nack b f.corr_id err_bad_length c
      else if byte_at f.payload 1 == 0
      then ack b f.corr_id (record c { usb = record c.usb { sub = false } })
      else subscribe f.corr_id opened.fd opened.ctx

  -- ipc_usb_push
  pub usb_push : Ctx World → Ctx World
  usb_push c =
      let got = chan_take 256 c.usb.ring in
      let c' = record c { usb = record c.usb { ring = got.ring } } in
      if length got.bytes == 0
      then c'
      else send_frame b 0x33 corr_id_push (c.usb.chan ∷ got.bytes) c'

  -- What the reader of a channel does with the bytes of one read.
  pub reader_got : ℕ → List ℕ → Usb → Usb
  reader_got channel bytes u =
      let counted = record u { reads = u32 (u.reads + 1); bytes = u32 (u.bytes + length bytes) } in
      if u.sub && u.chan == channel
      then record counted { ring = chan_put bytes u.ring }
      else counted
