-- ===== src/Hass/Session/Polls.antt =====
-- The loop of a poll ends by its own test.
use telegraph_stm_fw.Base.{ℕ, zero, suc, ◌≤◌, ◌≡◌, refl, List, none, some, length, arith}
use telegraph_stm_fw.Hass.Mqtt.{Scan, partial, skip, give, scan_packet, whole_packet, consume}
use telegraph_stm_fw.Hass.Mqtt.Publish.{length-consume_skip, no_packet}
use telegraph_stm_fw.Hass.Session.{Scanned, poll_loop}

-- Where no message is found, no whole packet is left at the front.
abbrev pub IsScanned : Scanned → Type 0
IsScanned s = s.found ≡ none → scan_packet s.rx (whole_packet s.rx) ≡ partial

scanned_next :
    (fuel : ℕ) (rx : List ℕ) (s : Scan)
    → scan_packet rx (whole_packet rx) ≡ s
    → ((n : ℕ) → s ≡ skip n → IsScanned (poll_loop fuel (consume n rx)))
    → IsScanned (elim s as (λ _. Scanned) [
      | partial ↦ record { rx = rx; pending = 0; found = none }
      | skip n ↦ poll_loop fuel (consume n rx)
      | give m n ↦ record { rx = rx; pending = n; found = some m }
    ])
scanned_next fuel rx partial h rec = λ none_. h
scanned_next fuel rx (skip n) h rec = rec n refl
scanned_next fuel rx (give m n) h rec = λ none_. cc

poll_loop-IsScanned : (fuel : ℕ) (rx : List ℕ) → length rx ≤ fuel → IsScanned (poll_loop fuel rx)
unfolding poll_loop
poll_loop-IsScanned zero rx h = λ none_. no_packet rx (omega arith)
poll_loop-IsScanned (suc fuel) rx h =
    scanned_next fuel rx (scan_packet rx (whole_packet rx)) refl λ n skipped.
      poll_loop-IsScanned fuel (consume n rx) (omega (arith, length-consume_skip rx n skipped))

-- A poll that finds no message has dropped every whole packet that stood at the front.
pub poll_loop-finishes :
    (rx : List ℕ)
    → (poll_loop (length rx) rx).found ≡ none
    → let left = (poll_loop (length rx) rx).rx in scan_packet left (whole_packet left) ≡ partial
poll_loop-finishes rx = poll_loop-IsScanned (length rx) rx (omega arith)
