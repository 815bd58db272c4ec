-- ===== src/Examples/Link.antt =====
-- The protocol of ipc/src on concrete frames and buffers.
use telegraph_stm_fw.Base.{ℕ, List, [], ◌∷◌, ◌++◌, ◌≡◌, refl, some, arith, IsBytes}
use telegraph_stm_fw.Ipc.Wire.{Frame, put_u16}
use telegraph_stm_fw.Ipc.Crc.{crc16, crc16_loop, crc16_byte, crc16_step}
use telegraph_stm_fw.Ipc.Crc.Bitwise.{register_run, crc16-eq-register_run}
use telegraph_stm_fw.Ipc.Parser.{
  Parser, deliver, drain_turn, drain, parser_push, parser_timeout, parser_init,
}
use telegraph_stm_fw.Ipc.Parser.Frames.{Sendable, encoded, count_frame, drain_turn-encoded}
use telegraph_stm_fw.Ipc.Parser.Genuine.{Reads, frames_of, drain-Reads}
use telegraph_stm_fw.Ipc.Parser.Stream.{stream, Delivered}
use telegraph_stm_fw.Ipc.Parser.Pushes.{pushes, joined, pushes-Delivered}
use telegraph_stm_fw.Ipc.Encode.{covered, frame_bytes}
use telegraph_stm_fw.Ipc.Parser.Push.{Emptied, parser_timeout-Emptied, Pushed, parser_push-Pushed}

-- A request CLEAR of the second panel, with the number 5, and the bytes that it is on the link.
abbrev clear_sub : Frame
clear_sub = record { opcode = 0x10; corr_id = 5; payload = 1 ∷ []; payload_len = 1 }

abbrev clear_bytes : List ℕ
clear_bytes = 170 ∷ 1 ∷ 0 ∷ 16 ∷ 5 ∷ 0 ∷ 1 ∷ 198 ∷ 171 ∷ []

-- A false start byte, the frame, and a stray byte.
abbrev noisy : Parser
noisy = record parser_init { buf = 170 ∷ 170 ∷ 1 ∷ 0 ∷ 16 ∷ 5 ∷ 0 ∷ 1 ∷ 198 ∷ 171 ∷ 7 ∷ [] }

noisy-IsBytes : IsBytes noisy.buf
noisy-IsBytes = (
  omega arith,
  (
    omega arith,
    (
      omega arith,
      (
        omega arith,
        (
          omega arith,
          (
            omega arith,
            (omega arith, (omega arith, (omega arith, (omega arith, (omega arith, tt))))),
          ),
        ),
      ),
    ),
  ),
)

drain_turn-encoded_example :
    drain_turn (record { buf = encoded clear_sub ++ (7 ∷ []); stats = parser_init.stats })
    ≡ deliver
        (record { frame = clear_sub; seen = count_frame parser_init.stats })
        (record { buf = 7 ∷ []; stats = count_frame parser_init.stats })
drain_turn-encoded_example =
    drain_turn-encoded clear_sub (7 ∷ []) parser_init.stats
      (record { corr_id = omega arith; payload_len = refl; fits = omega arith })

drain-Reads_example : Reads noisy.buf (frames_of (drain noisy).calls) (drain noisy).parser.buf
drain-Reads_example = drain-Reads noisy noisy-IsBytes

clear_sub-Sendable : Sendable clear_sub
clear_sub-Sendable = record { corr_id = omega arith; payload_len = refl; fits = omega arith }

-- Twice the frame, cut in its header and in the middle of the second.
abbrev cuts : List (List ℕ)
cuts =
    (170 ∷ 1 ∷ [])
    ∷ (0 ∷ 16 ∷ 5 ∷ 0 ∷ 1 ∷ 198 ∷ 171 ∷ 170 ∷ 1 ∷ 0 ∷ 16 ∷ [])
    ∷ (5 ∷ 0 ∷ 1 ∷ 198 ∷ 171 ∷ [])
    ∷ []

pushes-Delivered_example :
    Delivered parser_init (clear_sub ∷ clear_sub ∷ []) (pushes parser_init cuts)
unfolding joined stream crc16 crc16_loop crc16_byte crc16_step frame_bytes covered put_u16
pushes-Delivered_example =
    pushes-Delivered parser_init cuts (clear_sub ∷ clear_sub ∷ [])
      (clear_sub-Sendable, (clear_sub-Sendable, tt)) refl refl

parser_push-Pushed_example : Pushed noisy 9 (parser_push noisy (some clear_bytes) 9)
parser_push-Pushed_example = parser_push-Pushed noisy clear_bytes (omega arith)

parser_timeout-Emptied_example : Emptied noisy (parser_timeout noisy)
parser_timeout-Emptied_example = parser_timeout-Emptied noisy

-- The bytes of the text 123456789, for which the check value is 0x29b1.
abbrev digits : List ℕ
digits = 49 ∷ 50 ∷ 51 ∷ 52 ∷ 53 ∷ 54 ∷ 55 ∷ 56 ∷ 57 ∷ []

digits-IsBytes : IsBytes digits
digits-IsBytes = (
  omega arith,
  (
    omega arith,
    (
      omega arith,
      (omega arith, (omega arith, (omega arith, (omega arith, (omega arith, (omega arith, tt)))))),
    ),
  ),
)

crc16-eq-register_run_example : crc16 (some digits) ≡ register_run 0xffff digits
crc16-eq-register_run_example = crc16-eq-register_run digits digits-IsBytes

abbrev panel_byte : List ℕ
panel_byte = 1 ∷ []

abbrev one : ℕ
one = 1
