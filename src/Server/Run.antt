-- ===== src/Server/Run.antt =====
-- A run of ipc_server from its start: its first messages, and then the runs of its loop, among which
-- the readers of the channels and the other tasks of the board go on. A run of the loop is one step.
pub mod Replies
use telegraph_stm_fw.Base.{ℕ, List, [], ◌∷◌, Option, none, false, length, ◌==◌, if◌then◌else◌}
use telegraph_stm_fw.Ipc.Parser.{parser_init}
use telegraph_stm_fw.Channel.{empty}
use telegraph_stm_fw.Server.Board.{Board}
use telegraph_stm_fw.Server.Link.{Usb, Ctx, log}
use telegraph_stm_fw.Server.UsbPort.{reader_got}
use telegraph_stm_fw.Server.Dispatch.{Server, server_turn, Woken}

-- telegraph ipc ready
abbrev ready_text : List ℕ
ready_text =
    b't' ∷ b'e' ∷ b'l' ∷ b'e' ∷ b'g' ∷ b'r' ∷ b'a' ∷ b'p' ∷ b'h' ∷ b' ' ∷ b'i' ∷ b'p' ∷ b'c' ∷ b' '
    ∷ b'r' ∷ b'e' ∷ b'a' ∷ b'd' ∷ b'y' ∷ []

-- What happens: the wait of the loop ends, a reader has read bytes of its channel, or another task
-- changes what the server does not hold.
pub data Event (World : Type 0) : Type 0 where
  woke : Woken → Event World
  got : ℕ → List ℕ → Event World
  elsewhere : (World → World) → Event World

-- The USB port and the variables of the file before the server runs.
pub usb_idle : Usb
usb_idle = record {
  fds = λ channel. none;
  reader = λ channel. false;
  fd = none;
  chan = 0;
  sub = false;
  seq = none;
  bytes = 0;
  reads = 0;
  ring = empty;
}

module _ (b : Board) where
  open b use {World}

  pub before_start : World → Ctx World
  before_start w = record {
    world = w;
    stats = parser_init.stats;
    link_lost = 0;
    asset_fd = none;
    usb = usb_idle;
    sent = [];
  }

  -- The messages at the start of ipc_server: the report of the oscillator (hazk03_hse_probe) and the
  -- note of the boot (hazk03_boot_note), which other files give.
  pub greeted : List ℕ → List ℕ → Ctx World → Ctx World
  greeted hse note c =
      let reported = log b hse (log b ready_text c) in
      if length note == 0 then reported else log b note reported

  pub start : List ℕ → List ℕ → World → Server b
  start hse note w = record { parser = parser_init; ctx = greeted hse note (before_start w) }

  pub happens : Event World → Server b → Server b
  happens (woke woken) s = server_turn b woken s
  happens (got channel bytes) s = record s {
    ctx = record s.ctx { usb = reader_got b channel bytes s.ctx.usb };
  }
  happens (elsewhere change) s = record s { ctx = record s.ctx { world = change s.ctx.world } }

  pub run : List (Event World) → Server b → Server b
  run [] s = s
  run (event ∷ events) s = run events (happens event s)
