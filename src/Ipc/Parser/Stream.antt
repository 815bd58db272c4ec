-- ===== src/Ipc/Parser/Stream.antt =====
-- Some frames as a sender puts them on the link, and what it is to deliver them.
use telegraph_stm_fw.Base.{◌≡◌, ℕ, List, [], ◌∷◌, ◌++◌}
use telegraph_stm_fw.Ipc.Wire.{Frame}
use telegraph_stm_fw.Ipc.Parser.{Parser, Call, Turn, stop, again, deliver, Taken}
use telegraph_stm_fw.Ipc.Parser.Frames.{encoded}
use telegraph_stm_fw.Ipc.Parser.Genuine.{frames_of}

-- The bytes that a sender puts on the link for some frames.
unfoldable pub stream : List Frame → List ℕ
stream [] = []
stream (f ∷ frames) = encoded f ++ stream frames

-- Each frame delivered as it was sent, in order, nothing left and nothing dropped.
pub record Delivered (p : Parser) (frames : List Frame) (t : Taken) : Type 0 where
  pub same : frames_of t.calls ≡ frames
  pub nothing_left : t.parser.buf ≡ []
  pub nothing_dropped : t.parser.stats.dropped ≡ p.stats.dropped

-- The parts of a turn.
abbrev pub kind_of : Turn → ℕ
kind_of stop = 0
kind_of (again p) = 1
kind_of (deliver c p) = 2

abbrev pub call_of : Call → Turn → Call
call_of d (deliver c p) = c
call_of d _ = d

abbrev pub parser_of : Parser → Turn → Parser
parser_of q (deliver c p) = p
parser_of q _ = q
