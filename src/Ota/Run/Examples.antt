-- ===== src/Ota/Run/Examples.antt =====
-- An engine whose broker answers the frames of the wapp in turn.
use telegraph_stm_fw.Base.{
  ℕ, ◌+◌, ◌/◌, ◌≤◌, ◌≡◌, ◌≢◌, refl, List, [], ◌∷◌, ◌++◌, length, take, drop, byte_at, replicate,
  Option, some, none, Bool, true, ◌==◌, if◌then◌else◌, if_split, arith,
}
use telegraph_stm_fw.Ipc.Wire.{put_u16, put_u32, get_u16}
use telegraph_stm_fw.Ipc.Crc.{crc16, crc16_loop, crc16_byte, crc16_step}
use telegraph_stm_fw.Ipc.Encode.{covered, frame_bytes, encode}
use telegraph_stm_fw.Ipc.Parser.{
  parser_push, push_loop, drain, drain_loop, drain_turn, drain_frame, idle, after, after_call,
  discard,
}
use telegraph_stm_fw.Server.Storage.{until_zero}
use telegraph_stm_fw.Broker.Engine.{Engine, Wrote, took, eagain}
use telegraph_stm_fw.Ota.{
  Ota, on_frame, frames_in, pumped, pump, sent_whole, send_frame, send, line_write, send_request,
}
use telegraph_stm_fw.Ota.Bootloader.{
  an_sync, sync_loop, wait_byte, wait_loop, waited, first_answer, an_get_id, an_command,
  acknowledged, wait_ack, is_ack, line_byte, byte_loop, id_loop, with_ack, an_erase, an_write,
  an_erase_code, command_bytes, head_bytes, body_bytes, xor_sum,
}
use telegraph_stm_fw.Ota.Image.{
  write_image, reset_target, pin_write, delay_ms, level_byte, imaged, image_loop, padded, pad_loop,
  flash,
}
use telegraph_stm_fw.Ota.Kept.{IsApart}
use telegraph_stm_fw.Ota.Clock.{IsClock}
use telegraph_stm_fw.Ota.Requests.{
  reply_loop, replied, request, is_busy, ask_loop, asked, ask_until, raw_enter, raw_leave,
  version_from_state, running_version,
}
use telegraph_stm_fw.Ota.Requests.Ends.{ask_until-ends}
use telegraph_stm_fw.Ota.Image.Burned.{IsImage, Burnt}
use telegraph_stm_fw.Ota.Image.Whole.{write_image-Burnt}
use telegraph_stm_fw.Ota.Run.{
  Ended, before_pipes, after_pipes, main, file_size, sized, size_loop, read_file, read_loop,
  open_pipes, open_loop, opened_by, peer_name, with_pipes, ready, update, reflash, checked,
  same_text, version_text, trim_end, is_newline, image_path, version_path,
}
use telegraph_stm_fw.Ota.Run.Guard.{IsOther, IsOpen, main-Guarded}

-- The frames with which the broker answers the next frames of the wapp, what it has answered, and
-- what is left of the image.
record Bench : Type 0 where
  clock : ℕ
  replies : List (List ℕ)
  inbox : List ℕ
  image : List ℕ

abbrev answered_by : List ℕ → List (List ℕ) → Bench → Wrote × Bench
answered_by bytes [] w = (eagain, w)
answered_by bytes (reply ∷ replies) w =
    (took (length bytes), record w { replies = replies; inbox = w.inbox ++ reply })

abbrev bench_write : ℕ → List ℕ → Bench → Wrote × Bench
bench_write fd bytes w = if fd == 4 then answered_by bytes w.replies w else (took (length bytes), w)

abbrev bench_read : ℕ → ℕ → Bench → List ℕ × Bench
bench_read fd n w =
    if fd == 9
    then (take n w.image, record w { image = drop n w.image })
    else (w.inbox, record w { inbox = [] })

-- The image and its version, on descriptor 9, by the lengths of their paths; a pipe on 3.
abbrev bench_open : List ℕ → Bench → Option ℕ × Bench
bench_open path w =
    if length path == 13
    then (some 9, record w { image = 0xaa ∷ 0xbb ∷ [] })
    else if length path == 17
    then (some 9, record w { image = b'1' ∷ b'.' ∷ b'2' ∷ 10 ∷ [] })
    else (some 3, w)

-- A pipe to write is on 4, a pin on 5.
abbrev bench : Engine
bench = record {
  World = Bench;
  write = bench_write;
  read = bench_read;
  open_read = bench_open;
  open_write = λ path w. (some (if byte_at path 5 == b'p' then 4 else 5), w);
  open_both = λ path w. (some 5, w);
  close = λ fd w. w;
  print = λ note w. w;
  nap = λ us w. record w { clock = w.clock + us / 1000 };
  now = λ w. w.clock;
  print_u = λ n. n ∷ [];
  strtoul = λ text. length text;
}

-- The answers of a bootloader to the sync, the question for its identifier, the erase and a write.
abbrev answers : List ℕ
answers = 0x79 ∷ 0x79 ∷ 0x01 ∷ 0x04 ∷ 0x18 ∷ 0x79 ∷ 0x79 ∷ 0x79 ∷ 0x79 ∷ 0x79 ∷ 0x79 ∷ []

abbrev connected : Bench
connected = record {
  clock = 0;
  replies = frame_bytes 0xe1 0 answers 11 ∷ [] ∷ [] ∷ [] ∷ [] ∷ [] ∷ [] ∷ [];
  inbox = [];
  image = 0xaa ∷ 0xbb ∷ [];
}

answered_by-kept :
    (bytes : List ℕ) (replies : List (List ℕ)) (w : Bench)
    → (((answered_by bytes replies w).1).image ≡ w.image)
      × (((answered_by bytes replies w).1).clock ≡ w.clock)
answered_by-kept bytes [] w = (refl, refl)
answered_by-kept bytes (reply ∷ replies) w = (refl, refl)

bench_write-kept :
    (fd : ℕ) (bytes : List ℕ) (w : Bench)
    → (((bench_write fd bytes w).1).image ≡ w.image)
      × (((bench_write fd bytes w).1).clock ≡ w.clock)
bench_write-kept fd bytes w =
    if_split (λ (c : Wrote × Bench). ((c.1).image ≡ w.image) × ((c.1).clock ≡ w.clock)) (fd == 4)
      (λ link. answered_by-kept bytes w.replies w) (λ pin. (refl, refl))

bench-IsApart : IsApart bench 9 (λ w. w.image)
bench-IsApart = record {
  reads = λ other n w h. ground arith;
  writes = λ other bytes w. (bench_write-kept other bytes w).0;
  naps = λ us w. refl;
}

bench-IsImage : IsImage bench 9 (λ w. w.image)
bench-IsImage = record {
  apart = bench-IsApart;
  own = λ n w. refl;
  own_rest = λ n w. refl;
  opens = λ path w. refl;
  fresh = λ path w o h same. absurd (ground arith);
  closes = λ o w h. refl;
}

bench-IsClock : IsClock bench
bench-IsClock = record {
  naps = λ ms w. omega arith;
  writes = λ fd bytes w. (let same = (bench_write-kept fd bytes w).1 in omega (arith, same));
  reads = λ fd n w.
      if_split (λ (c : List ℕ × Bench). w.clock ≤ (c.1).clock) (fd == 9) (λ file. omega arith)
        (λ pipe. omega arith);
}

written : (write_image bench 9 2 (ready bench 4 3 connected)).0 ≡ true
unfolding crc16 crc16_loop crc16_byte crc16_step frame_bytes covered put_u16 get_u16 parser_push
    push_loop drain drain_loop drain_turn drain_frame idle after after_call discard encode send
    send_frame sent_whole line_write on_frame frames_in pumped pump ready write_image reset_target
    pin_write delay_ms level_byte an_sync sync_loop wait_byte wait_loop waited first_answer
    an_get_id an_command acknowledged wait_ack is_ack line_byte byte_loop id_loop with_ack an_erase
    imaged image_loop an_write padded pad_loop command_bytes head_bytes body_bytes xor_sum
written = refl

write_image-Burnt_example :
    (before : List (List ℕ)) × Burnt
      (0xaa ∷ 0xbb ∷ [])
      2
      ((0xff ∷ 0x00 ∷ []) ∷ command_bytes an_erase_code ∷ before)
      ((write_image bench 9 2 (ready bench 4 3 connected)).1).lines
unfolding ready
write_image-Burnt_example =
    write_image-Burnt bench 9 (λ w. w.image) bench-IsImage (0xaa ∷ 0xbb ∷ [])
      (ready bench 4 3 connected) (λ same. absurd (omega (arith, same))) refl (omega arith) written

ask_until-ends_example :
    (result : Bool × Ota Bench) × (ask_loop bench 22 2002 20000 0x01 [] (ready bench 4 3 connected)
      ≡ some result)
    × (ask_until bench 0x01 [] 20000 (ready bench 4 3 connected) ≡ result)
unfolding ready
ask_until-ends_example =
    ask_until-ends bench bench-IsClock 0x01 [] 20000 (ready bench 4 3 connected)

-- A board that runs version 1.1, on a line that fails after the broker has given it up.
abbrev outdated : Bench
outdated = record {
  clock = 0;
  replies =
      frame_bytes 0x02 2 (replicate 12 0 ++ b'1' ∷ b'.' ∷ b'1' ∷ []) 15
      ∷ frame_bytes 0xf0 3 [] 0
      ∷ [];
  inbox = [];
  image = [];
}

abbrev state_of : Ended Bench → Ota Bench
state_of (before_pipes w) = ready bench 4 3 w
state_of (after_pipes o) = o

abbrev finished : Ota Bench
finished = state_of (main bench 2 none outdated).1

ended : (main bench 2 none outdated).1 ≡ after_pipes finished
unfolding main file_size sized size_loop read_file read_loop open_pipes open_loop opened_by
    peer_name with_pipes
ended = refl

synced : finished.lines ≡ (0x7f ∷ []) ∷ []
unfolding main file_size sized size_loop read_file read_loop open_pipes open_loop opened_by
    peer_name with_pipes crc16 crc16_loop crc16_byte crc16_step frame_bytes covered put_u16 put_u32
    get_u16 parser_push push_loop drain drain_loop drain_turn drain_frame idle after after_call
    discard encode send send_frame sent_whole line_write send_request on_frame frames_in pumped pump
    ready write_image reset_target pin_write delay_ms level_byte an_sync sync_loop flash reply_loop
    replied request is_busy ask_loop asked ask_until raw_enter raw_leave version_from_state
    running_version update reflash checked same_text version_text trim_end is_newline until_zero
synced = refl

wrote : finished.lines ≢ []
wrote same = absurd (cc (synced, same))

main-Guarded_example :
    let want = read_file bench version_path 31 (file_size bench 2 image_path outdated).1 in
    (req : ℕ) × (rsp : ℕ) × (v : Bench) × IsOpen bench
      (open_pipes bench (peer_name none) want.1)
      req
      rsp
      v
    × IsOther bench (version_text want.0) (ready bench req rsp v)
main-Guarded_example = main-Guarded bench 2 none outdated finished ended wrote
