-- ===== src/Broker/Engine.antt =====
-- What the broker calls and does not hold: the files of the engine (its UART, its pipes and its
-- console), the clock, and the number formats of libc; and the two functions of broker.c that write.
pub mod Writes
use telegraph_stm_fw.Base.{
  ℕ, zero, suc, ◌+◌, ◌*◌, List, [], ◌∷◌, ◌++◌, Option, none, some, Bool, true, false, length, drop,
  ltb, ◌==◌, if◌then◌else◌,
}
use telegraph_stm_fw.Server.Storage.{until_zero}

-- What write gives: a count of bytes, an error EAGAIN, or another error.
pub data Wrote : Type 0 where
  took : ℕ → Wrote
  eagain failed : Wrote

-- The lines that the broker prints.
pub data Note : Type 0 where
  lost_frame : List ℕ → ℕ → Note
  line_refused : Note
  stm32_log : List ℕ → Note
  unknown_id : ℕ → Note
  line_runs : List ℕ → List ℕ → Note
  raw_mode : List ℕ → Bool → Note
  no_reply : ℕ → Note
  not_fit : List ℕ → Note
  no_name : List ℕ → Note
  out_of_reach : List ℕ → Note
  serves : List ℕ → ℕ → Note

pub record Engine : Type 1 where
  pub World : Type 0
  pub write : ℕ → List ℕ → World → Wrote × World
  -- The bytes of a read of at most a number of them; none at the end of file and on an error.
  pub read : ℕ → ℕ → World → List ℕ × World
  -- open with O_RDONLY, O_WRONLY and O_RDWR.
  pub open_read : List ℕ → World → Option ℕ × World
  pub open_write : List ℕ → World → Option ℕ × World
  pub open_both : List ℕ → World → Option ℕ × World
  pub close : ℕ → World → World
  pub print : Note → World → World
  pub nap : ℕ → World → World
  pub now : World → ℕ
  -- What snprintf makes of a number for %u, and strtoul of a text in base 0.
  pub print_u : ℕ → List ℕ
  pub strtoul : List ℕ → ℕ

abbrev pub slash : ℕ
slash = 0x2f

-- PIPE_RETRIES, PIPE_RETRY_US
abbrev pub pipe_retries : ℕ
pipe_retries = 200

abbrev pub pipe_retry_us : ℕ
pipe_retry_us = 1000

-- The names of the UART's nodes in /dev/uart.
abbrev pub uart_dir : List ℕ
uart_dir = slash ∷ b'd' ∷ b'e' ∷ b'v' ∷ slash ∷ b'u' ∷ b'a' ∷ b'r' ∷ b't' ∷ slash ∷ []

abbrev pub data_node : List ℕ
data_node = slash ∷ b'd' ∷ b'a' ∷ b't' ∷ b'a' ∷ []

abbrev pub baud_node : List ℕ
baud_node = slash ∷ b'b' ∷ b'a' ∷ b'u' ∷ b'd' ∷ []

abbrev pub format_node : List ℕ
format_node = slash ∷ b'f' ∷ b'o' ∷ b'r' ∷ b'm' ∷ b'a' ∷ b't' ∷ []

module _ (e : Engine) where
  open e use {World}

  -- The loop of write_all over the bytes left, with fuel: a round writes one byte or more, or is
  -- one of the retries. `none` is a lack of fuel.
  pub write_loop : ℕ → ℕ → ℕ → List ℕ → World → Option (Bool × World)
  write_loop zero fd retries bytes w = none
  write_loop (suc fuel) fd retries bytes w =
      let wrote = e.write fd bytes w in
      let retry =
        if ltb pipe_retries (retries + 1)
        then some (false, wrote.1)
        else write_loop fuel fd (retries + 1) bytes (e.nap pipe_retry_us wrote.1) in
      let next = elim wrote.0 as (λ _. Option (Bool × World)) [
        | took n ↦ if ltb 0 n then write_loop fuel fd 0 (drop n bytes) wrote.1 else retry
        | eagain ↦ retry
        | failed ↦ some (false, wrote.1)
      ] in
      if length bytes == 0 then some (true, w) else next

  -- The rounds of the loop: 201 for each byte, and one that ends it.
  pub write_rounds : List ℕ → ℕ
  write_rounds bytes = (length bytes + 1) * (pipe_retries + 1)

  pub written_of : World → Option (Bool × World) → Bool × World
  written_of w none = (false, w)
  written_of w (some result) = result

  -- write_all; true is its result 0.
  pub write_all : ℕ → List ℕ → World → Bool × World
  write_all fd bytes w = written_of w (write_loop (write_rounds bytes) fd 0 bytes w)

  -- write_node, where its path is open.
  pub write_opened : List ℕ → Option ℕ × World → Bool × World
  write_opened value (none, w) = (false, w)
  write_opened value (some fd, w) =
      let wrote = e.write fd (until_zero value) w in
      (elim wrote.0 [ took n ↦ true | eagain ↦ false | failed ↦ false ], e.close fd wrote.1)

  -- write_node; true is its result 0.
  pub write_node : List ℕ → List ℕ → List ℕ → World → Bool × World
  write_node port node value w = write_opened value (e.open_write (uart_dir ++ port ++ node) w)
