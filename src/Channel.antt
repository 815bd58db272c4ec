-- ===== src/Channel.antt =====
-- The ring between the reader of a USB channel and the server of the protocol, in
-- boards/hazk03-stm32f105rb/src/stm32_ipc.c: ipc_chan_next, ipc_chan_put and ipc_chan_take.
pub mod Queue
use telegraph_stm_fw.Base.{
  ℕ, zero, suc, ◌+◌, ◌%◌, List, [], ◌∷◌, get_or, set, replicate, ◌==◌, if◌then◌else◌, u16, u32, ltb,
  ◌&&◌, not,
}

-- IPC_CHAN_RING
abbrev pub chan_ring : ℕ
chan_ring = 2048

-- g_chan_ring, g_chan_head, g_chan_tail and g_chan_over
pub record Ring : Type 0 where
  pub cells : List ℕ
  pub head : ℕ
  pub tail : ℕ
  pub over : ℕ

abbrev pub empty : Ring
empty = record { cells = replicate chan_ring 0; head = 0; tail = 0; over = 0 }

-- ipc_chan_next
pub chan_next : ℕ → ℕ
chan_next at = u16 ((at + 1) % chan_ring)

pub store : ℕ → Ring → Ring
store byte r = record r { cells = set r.cells r.head byte; head = chan_next r.head }

-- ipc_chan_put: a full ring drops the rest of the bytes, and counts that once.
pub chan_put : List ℕ → Ring → Ring
unfolding store
chan_put [] r = r
chan_put (byte ∷ bytes) r =
    let rest = chan_put bytes (store byte r) in
    if chan_next r.head == r.tail then record r { over = u32 (r.over + 1) } else rest

pub record Got : Type 0 where
  pub bytes : List ℕ
  pub ring : Ring

pub step_tail : Ring → Ring
step_tail r = record r { tail = chan_next r.tail }

-- ipc_chan_take; the argument is `max - got`.
pub chan_take : ℕ → Ring → Got
unfolding step_tail
chan_take zero r = record { bytes = []; ring = r }
chan_take (suc max) r =
    let rest = chan_take max (step_tail r) in
    if r.tail == r.head
    then record { bytes = []; ring = r }
    else record { bytes = get_or r.cells r.tail 0 ∷ rest.bytes; ring = rest.ring }
