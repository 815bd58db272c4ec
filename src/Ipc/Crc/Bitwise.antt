-- ===== src/Ipc/Crc/Bitwise.antt =====
-- The table of ipc_crc16 against the bit-serial register of CRC-16/CCITT-FALSE: polynomial 0x1021,
-- initial value 0xffff, no reflection and no final exclusive or.
use telegraph_stm_fw.Base.{
  ℕ, zero, suc, ◌+◌, ◌*◌, ◌/◌, ◌%◌, ◌^◌, ◌<◌, ◌≡◌, refl, sym, ap, ap₂, ◌∙◌, List, [], ◌∷◌, some,
  Bool, true, bit_and, bit_xor, u16, ◌<<<◌, byte_at, leb, ltb, ltb→lt, ◌==◌, ==_iff, if◌then◌else◌,
  arith, IsBytes,
}
use telegraph_stm_fw.Base.Bits.{
  bit_and_low, bit_xor-lt_pow, xor_low_field, xor_high_field, xor_fields, xor_swap, holds_below,
  holds_below-at,
}
use telegraph_stm_fw.Ipc.Crc.{crc16_nibble, crc16_step, crc16_byte, crc16_loop, crc16}

-- One bit leaves the register at the top; the polynomial goes in where it is set.
pub register_bit : ℕ → ℕ
register_bit x = if leb 0x8000 x then bit_xor (u16 (x * 2)) 0x1021 else x * 2

pub register_shift : ℕ → ℕ → ℕ
unfolding register_bit
register_shift zero x = x
register_shift (suc n) x = register_shift n (register_bit x)

-- A byte enters at the top of the register, and eight bits leave it.
pub register_byte : ℕ → ℕ → ℕ
register_byte x byte = register_shift 8 (bit_xor x (byte <<< 8))

pub register_run : ℕ → List ℕ → ℕ
unfolding register_byte
register_run x [] = x
register_run x (byte ∷ bytes) = register_run (register_byte x byte) bytes

-- Four shifts of a register that holds `high` in its top four bits.
abbrev table_shift : ℕ → ℕ → ℕ
table_shift high low = bit_xor (low * 16) (byte_at crc16_nibble high)

table_row : ℕ → ℕ → Bool
table_row high low = register_shift 4 (high * 4096 + low) == table_shift high low

table_check : holds_below (λ high. holds_below (table_row high) 4096) 16 ≡ true
unfolding holds_below table_row register_shift
table_check = refl

shift_four :
    (high low : ℕ)
    → high < 16
    → low < 4096
    → register_shift 4 (high * 4096 + low) ≡ table_shift high low
unfolding table_row
shift_four high low p q =
    let row = holds_below-at (λ h. holds_below (table_row h) 4096) 16 high table_check p in
    (==_iff (register_shift 4 (high * 4096 + low)) (table_shift high low)).0
      (holds_below-at (table_row high) 4096 low row q)

table-lt : (i : ℕ) → i < 16 → byte_at crc16_nibble i < 65536
table-lt i h =
    ltb→lt _ _
      (holds_below-at (λ j. ltb (byte_at crc16_nibble j) 65536) 16 i (unfold holds_below in refl) h)

step-eq-table_shift :
    (high low nibble : ℕ)
    → high < 16
    → low < 4096
    → nibble < 16
    → crc16_step (high * 4096 + low) nibble ≡ table_shift (bit_xor high nibble) low
unfolding crc16_step
step-eq-table_shift high low nibble p q r =
    let i = bit_xor high nibble in
    let bound : i < 16 = bit_xor-lt_pow 4 high nibble p r in
    let top : (high * 4096 + low) / 4096 ≡ high = omega arith in
    let index : bit_and (bit_xor ((high * 4096 + low) / 4096) nibble) 0x0f ≡ i =
      rw top (bit_and_low 4 i ∙ omega arith) in
    let t = byte_at crc16_nibble i in
    let fields = xor_low_field 16 high (low * 16) t (omega arith) (table-lt i bound) in
    let shifted : (high * 4096 + low) * 16 ≡ high * 65536 + low * 16 = omega arith in
    rw (index, shifted)
      (omega (arith, fields, bit_xor-lt_pow 16 (low * 16) t (omega arith) (table-lt i bound)))

mix_fields :
    (m c t : ℕ)
    → c < 256
    → bit_xor ((m * 256 + c) * 16) t ≡ bit_xor m (t / 4096) * 4096 + bit_xor (c * 16) (t % 4096)
mix_fields m c t p =
    let e = xor_fields 12 m (t / 4096) (c * 16) (t % 4096) (omega arith) (omega arith) in
    let left : m * 4096 + c * 16 ≡ (m * 256 + c) * 16 = omega arith in
    let right : t / 4096 * 4096 + t % 4096 ≡ t = omega arith in rw (left, right) at e

-- The register as fields of four, four and eight bits takes the two nibbles of a byte.
byte_by_fields :
    (a b c h l : ℕ)
    → a < 16
    → b < 16
    → c < 256
    → h < 16
    → l < 16
    → register_shift 4 (register_shift 4 (bit_xor a h * 4096 + (bit_xor b l * 256 + c)))
      ≡ crc16_step (crc16_step (a * 4096 + (b * 256 + c)) h) l
byte_by_fields a b c h l pa pb pc ph pl =
    let i = bit_xor a h in
    let t = byte_at crc16_nibble i in
    let high : i < 16 = bit_xor-lt_pow 4 a h pa ph in
    let mid : bit_xor b l < 16 = bit_xor-lt_pow 4 b l pb pl in
    let t_lt : t < 65536 = table-lt i high in
    let low : bit_xor (c * 16) (t % 4096) < 4096 =
      bit_xor-lt_pow 12 (c * 16) (t % 4096) (omega arith) (omega arith) in
    let m = bit_xor (bit_xor b l) (t / 4096) in
    let m_lt : m < 16 = bit_xor-lt_pow 4 (bit_xor b l) (t / 4096) mid (omega arith) in
    let n_lt : bit_xor b (t / 4096) < 16 = bit_xor-lt_pow 4 b (t / 4096) pb (omega arith) in
    rw (
      shift_four i (bit_xor b l * 256 + c) high (omega arith),
      mix_fields (bit_xor b l) c t pc,
      shift_four m (bit_xor (c * 16) (t % 4096)) m_lt low,
      step-eq-table_shift a (b * 256 + c) h pa (omega arith) ph,
      mix_fields b c t pc,
      step-eq-table_shift (bit_xor b (t / 4096)) (bit_xor (c * 16) (t % 4096)) l n_lt low pl,
      xor_swap b l (t / 4096),
    )

register_shift_eight : (x : ℕ) → register_shift 8 x ≡ register_shift 4 (register_shift 4 x)
unfolding register_shift
register_shift_eight x = refl

-- A byte put in at the top of the register, by fields.
xor_byte_fields :
    (a b c h l : ℕ)
    → b < 16
    → c < 256
    → l < 16
    → bit_xor (a * 4096 + (b * 256 + c)) ((h * 16 + l) * 256)
      ≡ bit_xor a h * 4096 + (bit_xor b l * 256 + c)
xor_byte_fields a b c h l pb pc pl =
    let outer = xor_high_field 8 (a * 16 + b) (h * 16 + l) c pc in
    let inner = xor_fields 4 a h b l pb pl in
    let left : (a * 16 + b) * 2 ^ 8 + c ≡ a * 4096 + (b * 256 + c) = omega arith in
    rw left at outer ∙ rw inner (omega arith)

crc16_byte-eq-register_byte :
    (crc byte : ℕ) → crc < 65536 → byte < 256 → crc16_byte crc byte ≡ register_byte crc byte
unfolding crc16_byte register_byte
crc16_byte-eq-register_byte crc byte p q =
    let a = crc / 4096 in
    let b = crc / 256 % 16 in
    let c = crc % 256 in
    let h = byte / 16 in
    let l = byte % 16 in
    let e_crc : crc ≡ a * 4096 + (b * 256 + c) = omega arith in
    let e_byte : byte ≡ h * 16 + l = omega arith in
    let entered : bit_xor crc (byte * 256) ≡ bit_xor a h * 4096 + (bit_xor b l * 256 + c) =
      ap₂ (λ x y. bit_xor x (y * 256)) e_crc e_byte
      ∙ xor_byte_fields a b c h l (omega arith) (omega arith) (omega arith) in
    let low : bit_and byte 0x0f ≡ l = bit_and_low 4 byte in
    ap₂ (λ x y. crc16_step (crc16_step x h) y) e_crc low
    ∙ sym (
        byte_by_fields a b c h l (omega arith) (omega arith) (omega arith) (omega arith)
          (omega arith))
    ∙ sym (rw (register_shift_eight (bit_xor crc (byte * 256)), entered))

crc16_step-lt : (crc nibble : ℕ) → crc16_step crc nibble < 65536
unfolding crc16_step
crc16_step-lt crc nibble = omega arith

pub crc16_byte-lt : (crc byte : ℕ) → crc16_byte crc byte < 65536
unfolding crc16_byte
crc16_byte-lt crc byte = crc16_step-lt _ _

pub crc16_loop-lt : (crc : ℕ) (bytes : List ℕ) → crc < 65536 → crc16_loop crc bytes < 65536
unfolding crc16_loop
crc16_loop-lt crc [] h = h
crc16_loop-lt crc (byte ∷ bytes) h =
    crc16_loop-lt (crc16_byte crc byte) bytes (crc16_byte-lt crc byte)

loop-eq-run :
    (crc : ℕ) (bytes : List ℕ)
    → crc < 65536
    → IsBytes bytes
    → crc16_loop crc bytes ≡ register_run crc bytes
unfolding crc16_loop register_run
loop-eq-run crc [] h k = refl
loop-eq-run crc (byte ∷ bytes) h k =
    let e = crc16_byte-eq-register_byte crc byte h k.0 in
    loop-eq-run (crc16_byte crc byte) bytes (crc16_byte-lt crc byte) k.1
    ∙ ap (λ x. register_run x bytes) e

-- Of a buffer of bytes, the loop over the table of 16 entries computes what the bit-serial register
-- of CRC-16/CCITT-FALSE computes: from 0xffff, polynomial 0x1021, each byte in at the top.
pub crc16-eq-register_run :
    (bytes : List ℕ) → IsBytes bytes → crc16 (some bytes) ≡ register_run 0xffff bytes
unfolding crc16
crc16-eq-register_run bytes h = loop-eq-run 0xffff bytes (omega arith) h

pub crc16-lt : (bytes : List ℕ) → crc16 (some bytes) < 65536
unfolding crc16
crc16-lt bytes = crc16_loop-lt 0xffff bytes (omega arith)
