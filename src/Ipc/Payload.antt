-- ===== src/Ipc/Payload.antt =====
-- ipc/src/ipc_payload.c: the checks of three payloads. A NACK code is the left side of a result, and
-- the values that the source writes through its pointers are the right side.
pub mod Checks
use telegraph_stm_fw.Base.{
  ℕ, Bool, true, false, List, byte_at, ltb, ◌==◌, ◌!=◌, ◌&&◌, ◌||◌, if◌then◌else◌,
}
use telegraph_stm_fw.Base.Int.{ℤ, pos, negsuc, ltb_ℤ, int16}
use telegraph_stm_fw.Ipc.Wire.{get_u16}

abbrev pub err_bad_length : ℕ
err_bad_length = 0x02

abbrev pub err_bad_payload : ℕ
err_bad_payload = 0x03

abbrev pub ipc_panel_main : ℕ
ipc_panel_main = 0

abbrev pub ipc_panel_sub : ℕ
ipc_panel_sub = 1

abbrev pub ipc_panel_both : ℕ
ipc_panel_both = 0xff

abbrev pub exttemp_min : ℤ
exttemp_min = negsuc 989

abbrev pub exttemp_max : ℤ
exttemp_max = pos 1999

-- IPC_ERR_NONE with the values written, or a code.
pub data Checked {ℓ} (A : Type ℓ) : Type ℓ where
  nack : ℕ → Checked A
  fine : A → Checked A

-- The outside temperature is cleared, or set to tenths of a degree.
pub data ExtTemp : Type 0 where
  clear : ExtTemp
  tenths : ℤ → ExtTemp

-- ipc_check_exttemp
unfoldable pub check_exttemp : List ℕ → ℕ → Checked ExtTemp
check_exttemp payload len =
    let value = int16 (get_u16 payload) in
    if len == 0
    then fine clear
    else if len != 2
    then nack err_bad_length
    else if ltb_ℤ value exttemp_min || ltb_ℤ exttemp_max value
    then nack err_bad_payload
    else fine (tenths value)

-- ipc_check_release
unfoldable pub check_release : List ℕ → ℕ → Checked ℕ
check_release payload len =
    if len != 1
    then nack err_bad_length
    else if byte_at payload 0 != ipc_panel_main && byte_at payload 0 != ipc_panel_sub
    then nack err_bad_payload
    else fine (byte_at payload 0)

-- ipc_check_animstop
unfoldable pub check_animstop : List ℕ → ℕ → Checked ℕ
check_animstop payload len =
    if len == 0
    then fine ipc_panel_both
    else if len != 1
    then nack err_bad_length
    else if byte_at payload 0 != ipc_panel_main && byte_at payload 0 != ipc_panel_sub
    then nack err_bad_payload
    else fine (byte_at payload 0)
