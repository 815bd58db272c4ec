-- ===== src/Examples/Boards.antt =====
-- The server on a board that takes every byte and holds one file.
use telegraph_stm_fw.Base.{
  ℕ, List, [], ◌∷◌, ◌++◌, ◌≡◌, true, false, Option, none, some, length, length-take, take, arith,
  ap,
}
use telegraph_stm_fw.Base.Int.{pos}
use telegraph_stm_fw.Server.Board.{Board, Lawful, shown}
use telegraph_stm_fw.Server.Link.Replies.{replies}
use telegraph_stm_fw.Server.Dispatch.{readable, timed_out}
use telegraph_stm_fw.Server.Run.{Event, woke, got, elsewhere, start, run}
use telegraph_stm_fw.Ipc.Wire.{Frame}
use telegraph_stm_fw.Server.Storage.{fs_delete}
use telegraph_stm_fw.Server.Storage.Handlers.{delete, Guarded, handle-Guarded}
use telegraph_stm_fw.Server.Run.Replies.{asked, run-replies}

abbrev file : List ℕ
file = 1 ∷ 2 ∷ 3 ∷ 4 ∷ []

-- Its world is what went out on the link.
abbrev quiet_board : Board
quiet_board = record {
  World = List ℕ;
  link_write = λ bytes w. (length bytes, w ++ bytes);
  rx_pending = λ w. some 0;
  now = λ w. 1800000000;
  clock_settime = λ s w. (true, w);
  version = 49 ∷ [];
  temperature = λ w. 215;
  utcoffset = λ n w. w;
  tempoffset = λ n w. w;
  exttemp = λ e w. w;
  settings = λ w. record {
    utcoffset = 60;
    digits = 4;
    panels = 4;
    tempoffset = 0;
    sleepmin = 0xffff;
    wakemin = 0xffff;
  };
  ext_set = λ w. false;
  ext_tenths = λ w. 0;
  brightness = λ d p w. w;
  sleep = λ s e w. w;
  text = λ p t a v w. w;
  pixels = λ p x y pw ph bytes w. w;
  animate = λ a w. (shown, w);
  animspeed = λ p n s w. (true, w);
  animstop = λ p w. w;
  clear = λ p w. w;
  release = λ p w. w;
  loadfont = λ path w. (true, w);
  saveerr = λ w. (pos 0, w);
  saveerr_note = λ e. [];
  usb_note = λ n r o l. [];
  repeat_note = λ s. [];
  read_dir = λ path w. none;
  file_size = λ path w. some 4;
  open_read = λ path w. (some 3, w);
  open_write = λ path w. (none, w);
  seek = λ fd at w. (true, w);
  read = λ fd n w. (some (take n file), w);
  write = λ fd bytes w. (true, w);
  close = λ fd w. w;
  unlink = λ path w. (true, w);
  rmdir = λ path w. (true, w);
  mkdir = λ path w. (true, w);
  usb_path = λ channel. 97 ∷ 48 ∷ [];
  open_device = λ path w. (none, w);
  start_reader = λ channel w. (false, w);
}

abbrev len_of : Option (List ℕ) → ℕ
len_of none = 0
len_of (some bytes) = length bytes

quiet_lawful : Lawful quiet_board
quiet_lawful = record {
  read_bound = λ fd n w bytes e. omega (arith, ap len_of e, length-take n file);
  path_bound = λ channel. omega arith;
}

abbrev request : List ℕ
request = 170 ∷ 1 ∷ 0 ∷ 16 ∷ 5 ∷ 0 ∷ 1 ∷ 198 ∷ 171 ∷ []

-- The link gives the request, a reader gets bytes, another task clears the record of the link.
abbrev morning : List (Event (List ℕ))
morning =
    woke (readable (some request)) ∷ got 0 (1 ∷ 2 ∷ []) ∷ elsewhere (λ w. []) ∷ woke timed_out ∷ []

run-replies_example :
    replies 5 (run quiet_board morning (start quiet_board (b'1' ∷ []) [] [])).ctx.sent
    ≡ asked quiet_board 5 morning (start quiet_board (b'1' ∷ []) [] [])
run-replies_example =
    run-replies quiet_board 5 quiet_lawful (ground arith) morning (b'1' ∷ []) [] []

-- A request that deletes /media/a.
abbrev delete_media : Frame
delete_media = record {
  opcode = 0x23;
  corr_id = 5;
  payload = 47 ∷ 109 ∷ 101 ∷ 100 ∷ 105 ∷ 97 ∷ 47 ∷ 97 ∷ [];
  payload_len = 8;
}

handle-Guarded_example :
    let c = (start quiet_board (b'1' ∷ []) [] []).ctx in
    Guarded quiet_board delete delete_media c (fs_delete quiet_board delete_media c)
handle-Guarded_example =
    handle-Guarded quiet_board delete delete_media (start quiet_board (b'1' ∷ []) [] []).ctx
