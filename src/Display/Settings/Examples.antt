-- ===== src/Display/Settings/Examples.antt =====
-- The display of the board after its start, on a flash that reports what it is told.
use telegraph_stm_fw.Base.{
  ◌≡◌, ◌+◌, ◌*◌, inl, if◌then◌else◌, refl, List, [], ◌∷◌, true, false, arith,
}
use telegraph_stm_fw.Panel.{init}
use telegraph_stm_fw.Flash.{defaults}
use telegraph_stm_fw.Flash.Examples.{mtd, kept, kept_store}
use telegraph_stm_fw.Display.Settings.{
  Display, in_sleep, brightness, tempoffset, sleep, update_sleep, apply_brightness, setconfig,
  set_value, change, persist,
}
use telegraph_stm_fw.Display.Settings.Light.{
  Act, by_setting, by_clock, act, acts, IsLit, LightOf, acts-IsLit,
}
use telegraph_stm_fw.Display.Settings.Period.{in_period}

abbrev display : Display
display = record {
  utcoffset = 0;
  bright_digits = 5;
  bright_panels = 8;
  tempoffset = 0;
  ext_set = false;
  ext_tenths = 0;
  temp_secs = 0;
  save_err = false;
  sleepmin = 0xffff;
  wakemin = 0xffff;
  asleep = false;
  digits_level = 4;
  digits_on = true;
  main = init 70 14;
  sub = init 21 14;
  store = kept_store;
}

-- The night begins, and the brightness changes in it.
abbrev evening : List Act
evening = by_setting (sleep 1350 360) ∷ by_clock 23 0 ∷ by_setting (brightness 2 2) ∷ []

abbrev late : Display
late = (acts (mtd true) evening (setconfig defaults display, kept)).0

late-times : (late.sleepmin ≡ 1350) × (late.wakemin ≡ 360)
unfolding acts act change persist set_value update_sleep setconfig apply_brightness in_sleep
late-times = (refl, refl)

acts-IsLit_example :
    let dark = in_period late.sleepmin late.wakemin (3 * 60 + 15) in
    IsLit late
    × LightOf
        (if dark then 0 else late.bright_digits)
        (if dark then 0 else late.bright_panels)
        (update_sleep 3 15 late)
acts-IsLit_example =
    let start = late-times.0 in
    let end = late-times.1 in
    acts-IsLit (mtd true) defaults evening display kept 3 15 refl (omega arith) (omega arith)
      (inl (omega arith)) (inl (omega arith))
