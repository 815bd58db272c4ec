-- ===== src/Ota/Bootloader/Write.antt =====
-- What an accepted write puts on the line, as the bootloader reads it.
use telegraph_stm_fw.Base.{
  ℕ, suc, ◌+◌, ◌-◌, ◌*◌, ◌^◌, ◌≤◌, ◌<◌, ◌≡◌, ◌≢◌, refl, ap, ap₂, ◌∙◌, sym, List, [], ◌∷◌, Option,
  none, some, Bool, true, length, take, drop, take-append_length, drop-append_length, ◌==◌, ==_iff,
  if◌then◌else◌, if_split, not, bit_xor, u8, u32, ◌>>>◌, arith,
}
use telegraph_stm_fw.Base.Bits.{bit_xor-lt_pow}
use telegraph_stm_fw.Broker.Engine.{Engine}
use telegraph_stm_fw.Ota.{Ota, line_write}
use telegraph_stm_fw.Ota.Kept.{IsApart, nothing-IsApart}
use telegraph_stm_fw.Ota.Bootloader.{
  xor_sum, command_bytes, head_bytes, body_bytes, acknowledged, an_command, an_write, an_write_code,
}
use telegraph_stm_fw.Ota.Bootloader.Kept.{acknowledged-Lined, an_command-Lined}

-- The bootloader's reading of a command, an address and the data: each with its complement or its
-- sum.
pub command_of : List ℕ → Option ℕ
command_of (c ∷ d ∷ []) = if bit_xor c d == 0xff then some c else none
command_of bytes = none

pub address_of : List ℕ → Option ℕ
address_of (a ∷ b ∷ c ∷ d ∷ s ∷ []) =
    if bit_xor (bit_xor (bit_xor a b) c) d == s
    then some (a * 2 ^ 24 + b * 2 ^ 16 + c * 2 ^ 8 + d)
    else none
address_of bytes = none

summed : ℕ → List ℕ → List ℕ → Option (List ℕ)
summed n chunk (s ∷ []) = if xor_sum n chunk == s then some chunk else none
summed n chunk sums = none

pub data_of : List ℕ → Option (List ℕ)
data_of [] = none
data_of (n ∷ bytes) = summed n (take (n + 1) bytes) (drop (n + 1) bytes)

pub command_of-write : command_of (command_bytes an_write_code) ≡ some an_write_code
unfolding command_of command_bytes
command_of-write = refl

pub address_of-head_bytes : (addr : ℕ) → addr < 2 ^ 32 → address_of (head_bytes addr) ≡ some addr
unfolding address_of head_bytes
address_of-head_bytes addr h =
    let a = u8 (addr >>> 24) in
    let b = u8 (addr >>> 16) in
    let c = u8 (addr >>> 8) in
    let d = u8 addr in
    let ab = bit_xor-lt_pow 8 a b (omega arith) (omega arith) in
    let abc = bit_xor-lt_pow 8 (bit_xor a b) c ab (omega arith) in
    let abcd = bit_xor-lt_pow 8 (bit_xor (bit_xor a b) c) d abc (omega arith) in
    let sum = bit_xor (bit_xor (bit_xor a b) c) d in
    let fits : u8 sum ≡ sum = omega arith in
    let same : (sum == u8 sum) ≡ true = (==_iff sum (u8 sum)).1 (sym fits) in
    let whole : a * 2 ^ 24 + b * 2 ^ 16 + c * 2 ^ 8 + d ≡ addr = omega arith in
    rw same (ap (λ (n : ℕ). some n) whole)

pub data_of-body_bytes :
    (chunk : List ℕ)
    → 1 ≤ length chunk
    → length chunk ≤ 256
    → data_of (body_bytes chunk) ≡ some chunk
unfolding data_of summed body_bytes
data_of-body_bytes chunk h k =
    let first = u8 (length chunk - 1) in
    let count : first + 1 ≡ length chunk = omega arith in
    let sum = xor_sum first chunk in
    let same : (sum == sum) ≡ true = (==_iff sum sum).1 refl in
    rw (count, take-append_length chunk (sum ∷ []), drop-append_length chunk (sum ∷ []), same)

module _ (e : Engine) (fd : ℕ) (file : e.World → List ℕ) (apart : IsApart e fd file) where
  open e use {World}

  -- What a write that succeeds has put on the line, and what it has left alone.
  pub an_write-Written :
      (chunk : List ℕ) (o : Ota World)
      → o.rsp ≢ fd
      → (an_write e chunk o).0 ≡ true
      → let done = (an_write e chunk o).1 in
        (done.rsp ≡ o.rsp)
        × (done.lines
            ≡ body_bytes chunk ∷ head_bytes o.addr ∷ command_bytes an_write_code ∷ o.lines)
        × (done.addr ≡ u32 (o.addr + length chunk))
        × (file done.world ≡ file o.world)
  unfolding an_write
  an_write-Written chunk o other =
      let command = an_command e an_write_code o in
      let head = acknowledged e (line_write e (head_bytes (command.1).addr) command.1) in
      let body = acknowledged e (line_write e (body_bytes chunk) head.1) in
      let (c_rsp, c_line, c_addr, c_file) =
        an_command-Lined e fd file apart an_write_code o other in
      let (h_rsp, h_line, h_addr, h_file) =
        acknowledged-Lined e fd file apart (head_bytes (command.1).addr) command.1
          (λ same. other (cc (c_rsp, same))) in
      let (b_rsp, b_line, b_addr, b_file) =
        acknowledged-Lined e fd file apart (body_bytes chunk) head.1
          (λ same. other (cc (h_rsp, c_rsp, same))) in
      let P = λ (c : Bool × Ota World).
        c.0 ≡ true
        → ((c.1).rsp ≡ o.rsp)
          × ((c.1).lines
              ≡ body_bytes chunk ∷ head_bytes o.addr ∷ command_bytes an_write_code ∷ o.lines)
          × ((c.1).addr ≡ u32 (o.addr + length chunk))
          × (file (c.1).world ≡ file o.world) in
      if_split P (not command.0) (λ bad ok. absurd (ground arith))
        λ commanded.
          if_split P (not head.0) (λ bad ok. absurd (ground arith))
            λ headed.
              if_split P (not body.0) (λ bad ok. absurd (ground arith))
                λ bodied ok. (
                  b_rsp ∙ h_rsp ∙ c_rsp,
                  b_line
                      ∙ ap (λ (t : List (List ℕ)). body_bytes chunk ∷ t)
                          (h_line
                            ∙ ap₂ (λ (n : ℕ) (t : List (List ℕ)). head_bytes n ∷ t) c_addr c_line),
                  ap (λ (n : ℕ). u32 (n + length chunk)) (b_addr ∙ h_addr ∙ c_addr),
                  b_file ∙ h_file ∙ c_file,
                )

-- A write that succeeds has put three frames on the line, which the bootloader reads as the command
-- to write, the address, and the bytes; and the address has moved past them.
an_write-Programmed :
    (e : Engine) (chunk : List ℕ) (o : Ota e.World)
    → 1 ≤ length chunk
    → length chunk ≤ 256
    → o.addr < 2 ^ 32
    → (an_write e chunk o).0 ≡ true
    → let done = (an_write e chunk o).1 in
      (done.lines ≡ body_bytes chunk ∷ head_bytes o.addr ∷ command_bytes an_write_code ∷ o.lines)
      × (command_of (command_bytes an_write_code) ≡ some an_write_code)
      × (address_of (head_bytes o.addr) ≡ some o.addr)
      × (data_of (body_bytes chunk) ≡ some chunk)
      × (done.addr ≡ u32 (o.addr + length chunk))
an_write-Programmed e chunk o h k l ok =
    let fd = suc o.rsp in
    let (rsp, line, addr, file) =
      an_write-Written e fd (λ w. []) (nothing-IsApart e fd) chunk o (λ same. omega (arith, same))
        ok in
    (line, command_of-write, address_of-head_bytes o.addr l, data_of-body_bytes chunk h k, addr)
