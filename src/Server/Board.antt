-- ===== src/Server/Board.antt =====
-- What the server of the protocol calls and does not implement: the UART and the clock of NuttX, the
-- files, the devices of the USB port, and the functions of the display (hazk03.h). Each works on a
-- world that the server passes along. A path and a text are the bytes before the final zero.
use telegraph_stm_fw.Base.{ℕ, Bool, List, Option, some, length, ◌≤◌, ◌<◌, ◌≡◌}
use telegraph_stm_fw.Base.Int.{ℤ}
use telegraph_stm_fw.Ipc.Payload.{ExtTemp}

-- The arguments of hazk03_display_animate.
pub record Animation : Type 0 where
  pub panel : ℕ
  pub x : ℕ
  pub y : ℕ
  pub w : ℕ
  pub h : ℕ
  pub vertical : Bool
  pub period_ms : ℕ
  pub step : ℕ
  pub text : Bool
  pub file : Bool
  pub srcw : ℕ
  pub srch : ℕ
  pub src : List ℕ

-- Its result: OK, -E2BIG, or another negative number.
pub data Animated : Type 0 where
  shown too_big invalid : Animated

-- struct hazk03_config_s, the signed fields as 16-bit patterns.
pub record Config : Type 0 where
  pub utcoffset : ℕ
  pub digits : ℕ
  pub panels : ℕ
  pub tempoffset : ℕ
  pub sleepmin : ℕ
  pub wakemin : ℕ

-- An entry of a directory as readdir gives it.
pub record Entry : Type 0 where
  pub name : List ℕ
  pub is_dir : Bool

pub record Board : Type 1 where
  pub World : Type 0
  -- The link: how many bytes a write took (0 for a failure), and what FIONREAD gives.
  pub link_write : List ℕ → World → ℕ × World
  pub rx_pending : World → Option ℕ
  -- The clock, and HAZK03_VERSION.
  pub now : World → ℕ
  pub clock_settime : ℕ → World → Bool × World
  pub version : List ℕ
  -- The display.
  pub temperature : World → ℕ
  pub utcoffset : ℕ → World → World
  pub tempoffset : ℕ → World → World
  pub exttemp : ExtTemp → World → World
  pub settings : World → Config
  pub ext_set : World → Bool
  pub ext_tenths : World → ℕ
  pub brightness : ℕ → ℕ → World → World
  pub sleep : ℕ → ℕ → World → World
  pub text : ℕ → List ℕ → ℕ → ℕ → World → World
  pub pixels : ℕ → ℕ → ℕ → ℕ → ℕ → List ℕ → World → World
  pub animate : Animation → World → Animated × World
  pub animspeed : ℕ → ℕ → ℕ → World → Bool × World
  pub animstop : ℕ → World → World
  pub clear : ℕ → World → World
  pub release : ℕ → World → World
  pub loadfont : List ℕ → World → Bool × World
  pub saveerr : World → ℤ × World
  -- The lines that snprintf makes of a save error, of the counts of the USB channel (bytes, reads,
  -- over, lost), and of a repeated write.
  pub saveerr_note : ℤ → List ℕ
  pub usb_note : ℕ → ℕ → ℕ → ℕ → List ℕ
  pub repeat_note : ℕ → List ℕ
  -- The files: a directory that opens gives its entries, a file that is there has a size.
  pub read_dir : List ℕ → World → Option (List Entry)
  pub file_size : List ℕ → World → Option ℕ
  pub open_read : List ℕ → World → Option ℕ × World
  pub open_write : List ℕ → World → Option ℕ × World
  pub seek : ℕ → ℕ → World → Bool × World
  pub read : ℕ → ℕ → World → Option (List ℕ) × World
  pub write : ℕ → List ℕ → World → Bool × World
  pub close : ℕ → World → World
  pub unlink : List ℕ → World → Bool × World
  pub rmdir : List ℕ → World → Bool × World
  pub mkdir : List ℕ → World → Bool × World
  -- The USB port: the path of a channel's device, its opening, and the task that reads it.
  pub usb_path : ℕ → List ℕ
  pub open_device : List ℕ → World → Option ℕ × World
  pub start_reader : ℕ → World → Bool × World

-- What the server relies on: a read gives no more bytes than asked for (POSIX), and the path of a
-- channel's device fits its buffer of IPC_USB_DEVPATH_MAX bytes.
pub record Lawful (b : Board) : Type 0 where
  pub read_bound :
      (fd n : ℕ) (w : b.World) (bytes : List ℕ) → (b.read fd n w).0 ≡ some bytes → length bytes ≤ n
  pub path_bound : (channel : ℕ) → length (b.usb_path channel) < 16
