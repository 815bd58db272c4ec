-- ===== src/Server/UsbPort/Replies.antt =====
-- The replies of the handlers of the USB port.
use telegraph_stm_fw.Base.{
  if_both, ℕ, List, ◌+◌, ◌≤◌, ◌<◌, ◌≢◌, ◌≡◌, ◌==◌, refl, ◌∙◌, length, arith, length-append, Option,
  none, some, Bool-cases, inl, inr,
}
use telegraph_stm_fw.Ipc.Wire.{Frame}
use telegraph_stm_fw.Server.Board.{Board, Lawful}
use telegraph_stm_fw.Server.Link.{Ctx}
use telegraph_stm_fw.Server.Link.Replies.{
  Answers, Silent, ack-Answers, nack-Answers, send_frame-Answers, log-Silent, push-Silent,
  ack_quiet, branch, quiet_branch, Answers-then-Silent,
}
use telegraph_stm_fw.Server.UsbPort.{
  open_channel, with_reader, usb_open, Opened, device_record, record_of, records, usb_list,
  write_device, usb_write, subscribe, usb_sub, usb_push,
}
use telegraph_stm_fw.Server.Storage.{media_root}
use telegraph_stm_fw.Channel.{chan_take}
use telegraph_stm_fw.Channel.Queue.{chan_take-bound}

module _ (b : Board) (id : ℕ) where
  open b use {World}

  open_channel-sent :
      (channel : ℕ) (fd : Option ℕ) (c : Ctx World) → (open_channel b channel fd c).sent ≡ c.sent
  unfolding open_channel
  open_channel-sent channel none c = refl
  open_channel-sent channel (some fd) c = refl

  with_reader-sent :
      (channel : ℕ) (fd : Option ℕ) (c : Ctx World) → (with_reader b channel fd c).ctx.sent ≡ c.sent
  unfolding with_reader
  with_reader-sent channel none c = refl
  with_reader-sent channel (some fd) c = elim (Bool-cases (c.usb.reader channel)) [
    | inl r ↦ rw r refl
    | inr r ↦ rw r (
        if_both (λ (o : Opened b). o.ctx.sent ≡ c.sent) (b.start_reader channel c.world).0 refl
          refl)
  ]

  usb_open-sent : (channel : ℕ) (c : Ctx World) → (usb_open b channel c).ctx.sent ≡ c.sent
  unfolding usb_open
  usb_open-sent channel c =
      if_both (λ (o : Opened b). o.ctx.sent ≡ c.sent) _ refl
        (with_reader-sent channel _ _ ∙ open_channel-sent channel _ c)

  length-device_record :
      (channel kind : ℕ) (path : List ℕ)
      → length (device_record b channel kind path) ≡ 3 + length path
  unfolding device_record
  length-device_record channel kind path = omega arith

  write_device-Answers :
      (f : Frame) (fd : Option ℕ) (c : Ctx World) {s : List Frame}
      → id ≢ 0
      → c.sent ≡ s
      → Answers b id f.corr_id s (write_device b f fd c)
  unfolding write_device
  write_device-Answers f none c n h = nack-Answers b id _ _ _ h
  write_device-Answers f (some fd) c n h =
      search (branch b id, ack-Answers b id, nack-Answers b id, ack_quiet b id, log-Silent b id)

  pub usb_write-Answers :
      id ≢ 0 → (f : Frame) (c : Ctx World) → Answers b id f.corr_id c.sent (usb_write b f c)
  unfolding usb_write
  usb_write-Answers n f c =
      search (branch b id, nack-Answers b id, write_device-Answers, usb_open-sent)

  subscribe-Answers :
      (corr_id : ℕ) (fd : Option ℕ) (c : Ctx World) {s : List Frame}
      → c.sent ≡ s
      → Answers b id corr_id s (subscribe b corr_id fd c)
  unfolding subscribe
  subscribe-Answers corr_id none c h = nack-Answers b id _ _ _ h
  subscribe-Answers corr_id (some fd) c h = ack-Answers b id _ _ h

  pub usb_sub-Answers : (f : Frame) (c : Ctx World) → Answers b id f.corr_id c.sent (usb_sub b f c)
  unfolding usb_sub
  usb_sub-Answers f c =
      search (branch b id, ack-Answers b id, nack-Answers b id, subscribe-Answers, usb_open-sent)

  record_of-bound :
      (channel kind : ℕ) (path : List ℕ) (size : Option ℕ)
      → length path < 16
      → length (record_of b channel kind path size) < 19
  unfolding record_of
  record_of-bound channel kind path none h = omega arith
  record_of-bound channel kind path (some size) h =
      omega (arith, length-device_record channel kind path)

  records-bound : Lawful b → (w : World) → length (records b w) ≤ 1024
  unfolding records
  records-bound law w = simp (length-append) (
      omega (
        arith,
        record_of-bound 0 0 (b.usb_path 0) (b.file_size (b.usb_path 0) w) (law.path_bound 0),
        record_of-bound 1 0 (b.usb_path 1) (b.file_size (b.usb_path 1) w) (law.path_bound 1),
        record_of-bound 0xff 1 media_root (b.file_size media_root w) (omega arith),
      ))

  pub usb_list-Answers :
      Lawful b
      → id ≢ 0
      → (f : Frame) (c : Ctx World) → Answers b id f.corr_id c.sent (usb_list b f c)
  unfolding usb_list
  usb_list-Answers law n f c =
      Answers-then-Silent b id (send_frame-Answers b id _ _ _ c (records-bound law c.world) refl)
        (log-Silent b id _ _ n refl)

  pub usb_push-Silent : id ≢ 0 → (c : Ctx World) → Silent b id c.sent (usb_push b c)
  unfolding usb_push
  usb_push-Silent n c =
      quiet_branch b id
        {x = record c { usb = record c.usb { ring = (chan_take 256 c.usb.ring).ring } }}
        (length (chan_take 256 c.usb.ring).bytes == 0) (record { count = refl })
        (push-Silent b id _ _ _ (omega (arith, chan_take-bound 256 c.usb.ring)) n refl)
