-- ===== src/Ota/Run.antt =====
-- The run of ota.c: the files of its root, the pipes of the broker, and main.
pub mod Guard
mod Examples
use telegraph_stm_fw.Base.{
  ℕ, zero, suc, ◌+◌, ◌-◌, ◌/◌, List, [], ◌∷◌, ◌++◌, Option, none, some, Bool, true, false, length,
  take, leb, ◌==◌, ◌!=◌, if◌then◌else◌, not, ◌||◌, ◌&&◌,
}
use telegraph_stm_fw.Ipc.Parser.{parser_init}
use telegraph_stm_fw.Server.Storage.{until_zero}
use telegraph_stm_fw.Broker.Engine.{Engine, slash}
use telegraph_stm_fw.Broker.Loop.{pipe_req, pipe_rsp}
use telegraph_stm_fw.Broker.Boot.{name_max}
use telegraph_stm_fw.Ota.{Ota}
use telegraph_stm_fw.Ota.Requests.{raw_ms, poll_us, raw_leave, running_version}
use telegraph_stm_fw.Ota.Image.{flash_origin, flash}

-- PEER_DEFAULT, IMAGE_PATH, VERSION_PATH
abbrev peer_default : List ℕ
peer_default = b'o' ∷ b't' ∷ b'a' ∷ []

abbrev firmware : List ℕ
firmware = slash ∷ b'f' ∷ b'i' ∷ b'r' ∷ b'm' ∷ b'w' ∷ b'a' ∷ b'r' ∷ b'e' ∷ b'.' ∷ []

abbrev pub image_path : List ℕ
image_path = firmware ++ b'b' ∷ b'i' ∷ b'n' ∷ []

abbrev pub version_path : List ℕ
version_path = firmware ++ b'v' ∷ b'e' ∷ b'r' ∷ b's' ∷ b'i' ∷ b'o' ∷ b'n' ∷ []

-- The sizes of `want` and `have` in main.
abbrev pub version_cap : ℕ
version_cap = 32

-- strcmp gives 0.
unfoldable pub same_text : List ℕ → List ℕ → Bool
same_text [] [] = true
same_text (c ∷ cs) (d ∷ ds) = c == d && same_text cs ds
same_text cs ds = false

unfoldable pub is_newline : ℕ → Bool
is_newline c = c == 10 || c == 13

-- The text without the line ends at its end.
unfoldable pub trim_end : List ℕ → List ℕ
trim_end [] = []
trim_end (c ∷ cs) =
    let rest = trim_end cs in if length rest == 0 && is_newline c then [] else c ∷ rest

-- The version of the image, as main reads it.
unfoldable pub version_text : Option (List ℕ) → List ℕ
version_text none = []
version_text (some bytes) = until_zero (trim_end bytes)

-- g_name, from the environment.
unfoldable pub peer_name : Option (List ℕ) → List ℕ
peer_name none = peer_default
peer_name (some text) = if length text == 0 then peer_default else take name_max text

-- main ends before its pipes are open, or after.
pub data Ended (World : Type 0) : Type 0 where
  before_pipes : World → Ended World
  after_pipes : Ota World → Ended World

module _ (e : Engine) where
  open e use {World}

  -- The loop of read_file: a read gives one byte or more, or is the last.
  unfoldable pub read_loop : ℕ → ℕ → ℕ → List ℕ → World → List ℕ × World
  read_loop zero fd size got w = (got, w)
  read_loop (suc fuel) fd size got w =
      let read = e.read fd (size - length got) w in
      let rest = read_loop fuel fd size (got ++ read.0) read.1 in
      if length read.0 == 0
      then (got, read.1)
      else if length (got ++ read.0) == size
      then (got ++ read.0, read.1)
      else rest

  -- read_file, where none is -1.
  unfoldable pub read_file : List ℕ → ℕ → World → Option (List ℕ) × World
  read_file path size w =
      let opened = e.open_read path w in
      elim opened.0 as (λ _. Option (List ℕ) × World) [
        | none ↦ (none, opened.1)
        | some fd ↦
            let read = read_loop size fd size [] opened.1 in (some read.0, e.close fd read.1)
      ]

  -- The loop of file_size, with fuel; `none` is a lack of it.
  unfoldable pub size_loop : ℕ → ℕ → ℕ → World → Option (ℕ × World)
  size_loop zero fd len w = none
  size_loop (suc fuel) fd len w =
      let read = e.read fd 256 w in
      let rest = size_loop fuel fd (len + length read.0) read.1 in
      if length read.0 == 0 then some (len, read.1) else rest

  unfoldable pub sized : ℕ → World → Option (ℕ × World) → Option ℕ × World
  sized fd w none = (none, w)
  sized fd w (some result) = (some result.0, e.close fd result.1)

  -- file_size, where none is -1, for a file that is read in fewer than a number of rounds.
  unfoldable pub file_size : ℕ → List ℕ → World → Option ℕ × World
  file_size rounds path w =
      let opened = e.open_read path w in
      elim opened.0 as (λ _. Option ℕ × World) [
        | none ↦ (none, opened.1)
        | some fd ↦ sized fd opened.1 (size_loop rounds fd 0 opened.1)
      ]

  -- A loop of open_pipes up to its deadline, with fuel; `none` is a lack of it.
  unfoldable pub open_loop : ℕ → (World → Option ℕ × World) → ℕ → World → Option (Option ℕ × World)
  open_loop zero open_it deadline w = none
  open_loop (suc fuel) open_it deadline w =
      let opened = open_it w in
      let rest = open_loop fuel open_it deadline (e.nap poll_us opened.1) in
      if leb deadline (e.now w)
      then some (none, w)
      else elim opened.0 as (λ _. Option (Option ℕ × World)) [
        | some fd ↦ some (some fd, opened.1)
        | none ↦ rest
      ]

  abbrev pub open_rounds : ℕ
  open_rounds = raw_ms / 10 + 2

  unfoldable pub opened_by : World → Option (Option ℕ × World) → Option ℕ × World
  opened_by w none = (none, w)
  opened_by w (some result) = result

  -- open_pipes: g_req and g_rsp, where none is -1.
  unfoldable pub open_pipes : List ℕ → World → Option ℕ × Option ℕ × World
  open_pipes name w =
      let deadline = e.now w + raw_ms in
      let rsp = opened_by w (open_loop open_rounds (e.open_read (pipe_rsp name)) deadline w) in
      let req =
        opened_by rsp.1 (open_loop open_rounds (e.open_write (pipe_req name)) deadline rsp.1) in
      (req.0, rsp.0, req.1)

  -- The variables of the wapp when its pipes are open.
  unfoldable pub ready : ℕ → ℕ → World → Ota World
  ready req rsp w = record {
    world = w;
    rsp = rsp;
    req = req;
    parser = parser_init;
    line = [];
    reply = [];
    reply_op = 0;
    got_reply = false;
    corr = 1;
    inflight = 0;
    addr = flash_origin;
    lines = [];
  }

  -- The end of main, after the flash: its check of the version that runs then.
  unfoldable pub checked : List ℕ → Bool × Ota World → ℕ × Ota World
  checked want flashed =
      let now = running_version e version_cap flashed.1 in
      if not flashed.0 then (1, flashed.1) else elim now.0 as (λ _. ℕ × Ota World) [
        | none ↦ (0, now.1)
        | some have ↦ (if length want == 0 || same_text want have then 0 else 1, now.1)
      ]

  unfoldable pub reflash : ℕ → List ℕ → Ota World → ℕ × Ota World
  reflash len want o =
      let opened = e.open_read image_path o.world in
      elim opened.0 as (λ _. ℕ × Ota World) [
        | none ↦ (1, record o { world = opened.1 })
        | some fd ↦
            let flashed = flash e fd len (record o { world = opened.1 }) in
            let left = raw_leave e (record flashed.1 { world = e.close fd (flashed.1).world }) in
            checked want (flashed.0, left.1)
      ]

  -- The part of main from its first question for the version that runs.
  unfoldable pub update : ℕ → List ℕ → Ota World → ℕ × Ota World
  update len want o =
      let version = running_version e version_cap o in
      elim version.0 as (λ _. ℕ × Ota World) [
        | none ↦ (0, version.1)
        | some have ↦
            if length want != 0 && same_text want have
            then (0, version.1)
            else reflash len want version.1
      ]

  unfoldable pub with_pipes : ℕ → List ℕ → Option ℕ × Option ℕ × World → ℕ × Ended World
  with_pipes len want (some req, some rsp, w) =
      let run = update len want (ready req rsp w) in (run.0, after_pipes run.1)
  with_pipes len want (some req, none, w) = (1, before_pipes w)
  with_pipes len want (none, rsp, w) = (1, before_pipes w)

  -- main, with the rounds for its image, and the value of TELEGRAPH_PEER.
  unfoldable pub main : ℕ → Option (List ℕ) → World → ℕ × Ended World
  main rounds env w =
      let size = file_size rounds image_path w in
      let want = read_file version_path (version_cap - 1) size.1 in
      let pipes = open_pipes (peer_name env) want.1 in
      elim size.0 as (λ _. ℕ × Ended World) [
        | none ↦ (1, before_pipes size.1)
        | some len ↦
            if len == 0
            then (1, before_pipes size.1)
            else with_pipes len (version_text want.0) pipes
      ]
