-- ===== src/Examples/Clocks.antt =====
-- The policy of the clocks on concrete inputs.
use telegraph_stm_fw.Base.{◌≡◌, true, false, arith, refl, inl}
use telegraph_stm_fw.Time.{TimeIn, src_sntp, decide, nothing}
use telegraph_stm_fw.Time.Policy.{Decided, decide-Decided, carried_out, decide_settles}

-- An engine with a time of the network that is an hour ahead of the STM32.
abbrev ahead : TimeIn
ahead = record {
  source = src_sntp;
  engine_valid = true;
  engine_s = 1800003600;
  stm_known = true;
  stm_s = 1800000000;
  offset_due = false;
}

decide-Decided_example : Decided ahead (decide ahead).kind (decide ahead).seconds
decide-Decided_example = decide-Decided ahead

decide_settles_example : (decide (carried_out (decide ahead) ahead)).kind ≡ nothing
decide_settles_example = decide_settles ahead (inl (refl, (omega arith, omega arith)))
