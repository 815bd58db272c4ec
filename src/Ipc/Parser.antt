-- ===== src/Ipc/Parser.antt =====
-- ipc/src/ipc_parser.c: the receive buffer of one end of the link. `buf` is the list of the first
-- `len` bytes of the source's array, thus `len` is its length; the bytes past `len` are never read.
-- A callback does not touch the parser, so its calls are kept as a list, each with the counts that
-- it can read; the callback NULL drops that list.
pub mod Step
pub mod Drains
pub mod Account
pub mod Push
pub mod Candidate
pub mod Frames
pub mod Genuine
pub mod Stream
pub mod Parts
pub mod Pushes
use telegraph_stm_fw.Base.{
  ℕ, zero, suc, ◌+◌, ◌-◌, ◌*◌, Bool, true, false, List, [], ◌∷◌, ◌++◌, Option, none, some, length,
  take, drop, ltb, leb, ◌==◌, ◌!=◌, u16, u32, byte_at, if◌then◌else◌, min, not, ◌||◌, ◌&&◌,
}
use telegraph_stm_fw.Ipc.Crc.{crc16}
use telegraph_stm_fw.Ipc.Wire.{
  Frame, get_u16, ipc_sof, ipc_header_len, ipc_frame_overhead, ipc_max_payload, ipc_frame_max,
}

-- struct ipc_stats_s; each count is a uint32_t.
pub record Stats : Type 0 where
  pub frames : ℕ
  pub crc_errors : ℕ
  pub bad_length : ℕ
  pub resyncs : ℕ
  pub dropped : ℕ

-- struct ipc_parser_s
pub record Parser : Type 0 where
  pub buf : List ℕ
  pub stats : Stats

-- One call of the callback, with the counts at that time.
pub record Call : Type 0 where
  pub frame : Frame
  pub seen : Stats

-- ipc_discard
unfoldable pub discard : Parser → ℕ → Parser
discard p n =
    if leb (length p.buf) n then record p { buf = [] } else record p { buf = drop n p.buf }

-- The loop of ipc_resync from the index `idx`, at which the bytes `rest` begin.
unfoldable pub find_sof : ℕ → List ℕ → Option ℕ
find_sof idx [] = none
find_sof idx (b ∷ rest) = if b == ipc_sof then some idx else find_sof (idx + 1) rest

unfoldable pub count_resync : Stats → Stats
count_resync s = record s { resyncs = u32 (s.resyncs + 1) }

unfoldable pub count_dropped : ℕ → Stats → Stats
count_dropped n s = record s { dropped = u32 (s.dropped + n) }

-- What ipc_resync does with the index that its loop finds.
unfoldable pub skip_to : Parser → Option ℕ → Parser
unfolding count_resync count_dropped
skip_to p none = record { buf = []; stats = count_dropped (length p.buf) (count_resync p.stats) }
skip_to p (some idx) = discard (record p { stats = count_dropped idx (count_resync p.stats) }) idx

-- ipc_resync
unfoldable pub resync : Parser → Parser
resync p = skip_to p (find_sof 1 (drop 1 p.buf))

-- What the body of the loop of ipc_drain does: it leaves the loop, it goes round again after a
-- resync, or it hands a frame to the callback and goes round again.
pub data Turn : Type 0 where
  stop : Turn
  again : Parser → Turn
  deliver : Call → Parser → Turn

-- The candidate frame at the start of the buffer, complete with its check value.
unfoldable pub drain_frame : Parser → ℕ → Turn
drain_frame p payload_len =
    let total = u16 (payload_len + ipc_frame_overhead) in
    let want = crc16 (some (take (ipc_header_len - 1 + payload_len) (drop 1 p.buf))) in
    let got = get_u16 (drop (ipc_header_len + payload_len) p.buf) in
    if ltb (length p.buf) total
    then stop
    else if want != got
    then again
        (resync (record p { stats = record p.stats { crc_errors = u32 (p.stats.crc_errors + 1) } }))
    else (let counted = record p.stats { frames = u32 (p.stats.frames + 1) } in
        deliver
          (record {
            frame = record {
              opcode = byte_at p.buf 3;
              corr_id = get_u16 (drop 4 p.buf);
              payload = take payload_len (drop ipc_header_len p.buf);
              payload_len = payload_len;
            };
            seen = counted;
          })
          (discard (record p { stats = counted }) total))

unfoldable pub drain_turn : Parser → Turn
drain_turn p =
    if length p.buf == 0
    then stop
    else if byte_at p.buf 0 != ipc_sof
    then again (resync p)
    else if ltb (length p.buf) ipc_header_len
    then stop
    else (let payload_len = get_u16 (drop 1 p.buf) in
        if ltb ipc_max_payload payload_len
        then again (
            resync
              (record p { stats = record p.stats { bad_length = u32 (p.stats.bad_length + 1) } }))
        else drain_frame p payload_len)

-- What a function of the parser leaves: the parser, the calls made, and the `unsigned int` returned.
pub record Taken : Type 0 where
  pub parser : Parser
  pub calls : List Call
  pub accepted : ℕ

unfoldable pub idle : Parser → Taken
idle p = record { parser = p; calls = []; accepted = 0 }

unfoldable pub after_call : Call → Taken → Taken
after_call c t = record t { calls = c ∷ t.calls; accepted = u32 (1 + t.accepted) }

unfoldable pub after : Taken → Taken → Taken
after a b = record {
  parser = b.parser;
  calls = a.calls ++ b.calls;
  accepted = u32 (a.accepted + b.accepted);
}

-- The loop of ipc_drain, with fuel: each turn but the last takes a byte or more off the buffer, thus
-- one more than its length is enough.
unfoldable pub drain_loop : ℕ → Parser → Taken
drain_loop zero p = idle p
drain_loop (suc fuel) p = elim (drain_turn p) [
  | stop ↦ idle p
  | again p' ↦ drain_loop fuel p'
  | deliver c p' ↦ after_call c (drain_loop fuel p')
]

-- ipc_drain
unfoldable pub drain : Parser → Taken
drain p = drain_loop (suc (length p.buf)) p

-- The loop of ipc_parser_timeout.
pub timeout_loop : ℕ → Parser → Taken
timeout_loop zero p = idle p
timeout_loop (suc fuel) p =
    let t = drain p in
    let next = if ltb 0 (length t.parser.buf) then resync t.parser else t.parser in
    let rest = timeout_loop fuel next in if ltb 0 (length p.buf) then after t rest else idle p

-- ipc_parser_timeout, of a parser that is not NULL.
pub parser_timeout : Parser → Taken
parser_timeout p = timeout_loop (length p.buf) p

-- ipc_parser_pending
pub parser_pending : Option Parser → Bool
parser_pending none = false
parser_pending (some p) = ltb 0 (length p.buf)

-- ipc_parser_init
abbrev pub parser_init : Parser
parser_init = record {
  buf = [];
  stats = record { frames = 0; crc_errors = 0; bad_length = 0; resyncs = 0; dropped = 0 };
}

-- The loop of ipc_parser_push, with fuel.
unfoldable pub push_loop : ℕ → Parser → List ℕ → Taken
push_loop zero p bytes = idle p
push_loop (suc fuel) p bytes =
    let space = ipc_frame_max - length p.buf in
    let size = if ltb (length bytes) space then length bytes else space in
    let t = drain (record p { buf = p.buf ++ take size bytes }) in
    let resynced = push_loop fuel (resync p) bytes in
    let filled = after t (push_loop fuel t.parser (drop size bytes)) in
    if ltb 0 (length bytes) then (if space == 0 then resynced else filled) else idle p

-- ipc_parser_push, of a parser that is not NULL.
unfoldable pub parser_push : Parser → Option (List ℕ) → ℕ → Taken
parser_push p none len = idle p
parser_push p (some bytes) len = push_loop (2 * len + 2) p (take len bytes)
