-- ===== src/Ipc/Payload/Checks.antt =====
-- What the checks of the payloads accept.
use telegraph_stm_fw.Base.{ℕ, ◌≤◌, ◌<◌, ◌≡◌, ◌⊎◌, ◌↔◌, List, ◌++◌, byte_at, arith}
use telegraph_stm_fw.Base.Int.{ℤ, pos, negsuc, ◌≤ℤ◌, int16, pattern16}
use telegraph_stm_fw.Ipc.Wire.{put_u16}
use telegraph_stm_fw.Ipc.Wire.Fields.{get_u16-put_u16}
use telegraph_stm_fw.Ipc.Payload.{
  nack, fine, tenths, check_exttemp, check_release, check_animstop, exttemp_min, exttemp_max,
  err_bad_payload, ipc_panel_both,
}

int16-pattern16 :
    (v : ℤ) → negsuc 32767 ≤ℤ v → v ≤ℤ pos 32767 → (int16 (pattern16 v) ≡ v) × (pattern16 v < 65536)
int16-pattern16 v lo hi = ground arith

-- A temperature from -99.0 to 199.9 degrees, as a sender puts it: two bytes with the pattern of the
-- signed value. The check accepts it and gives the value back.
pub check_exttemp-pattern16 :
    (v : ℤ) (rest : List ℕ)
    → exttemp_min ≤ℤ v
    → v ≤ℤ exttemp_max
    → check_exttemp (put_u16 (pattern16 v) ++ rest) 2 ≡ fine (tenths v)
unfolding check_exttemp
check_exttemp-pattern16 v rest lo hi =
    let signed = int16-pattern16 v (ground arith) (ground arith) in
    rw (get_u16-put_u16 (pattern16 v) rest signed.1, signed.0) (ground arith)

-- A temperature that a sender puts as two bytes and that is not from -99.0 to 199.9 degrees is
-- refused for its value.
pub check_exttemp-refused :
    (v : ℤ) (rest : List ℕ)
    → negsuc 32767 ≤ℤ v
    → v ≤ℤ pos 32767
    → (v ≤ℤ negsuc 990) ⊎ (pos 2000 ≤ℤ v)
    → check_exttemp (put_u16 (pattern16 v) ++ rest) 2 ≡ nack err_bad_payload
unfolding check_exttemp
check_exttemp-refused v rest lo hi out =
    let signed = int16-pattern16 v lo hi in
    rw (get_u16-put_u16 (pattern16 v) rest signed.1, signed.0) (ground arith)

-- The panels that the checks accept: one byte that is 0 or 1 names a panel for both, and an empty
-- payload stands for both panels where an animation is stopped; nothing else is accepted.
pub check_panel_lem :
    (payload : List ℕ) (len panel : ℕ)
    → ((check_release payload len ≡ fine panel)
        ↔ ((len ≡ 1) × (byte_at payload 0 ≡ panel) × (panel ≤ 1)))
      × ((check_animstop payload len ≡ fine panel) ↔ (
          (len ≡ 1) × (byte_at payload 0 ≡ panel) × (panel ≤ 1)
          ⊎ ((len ≡ 0) × (panel ≡ ipc_panel_both))))
unfolding check_animstop check_release
check_panel_lem payload len panel = (ground arith, ground arith)
