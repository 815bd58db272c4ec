-- ===== src/Display/Settings.antt =====
-- The settings of boards/hazk03-stm32f105rb/src/stm32_display.c, the light of the digits and the
-- panels, and the period without light. The settings go into the store of Flash.
pub mod Period
pub mod Light
pub mod Saved
mod Examples
use telegraph_stm_fw.Base.{
  ℕ, ◌+◌, ◌-◌, ◌*◌, Bool, true, false, ◌==◌, ◌!=◌, ◌&&◌, ◌||◌, ltb, leb, if◌then◌else◌, u16, List,
  [], ◌∷◌,
}
use telegraph_stm_fw.Server.Board.{Config}
use telegraph_stm_fw.Panel.{Panel, set_brightness}
use telegraph_stm_fw.Flash.{Mtd, Store, config_save, Written}

-- HAZK03_SLEEP_OFF
abbrev pub sleep_off : ℕ
sleep_off = 0xffff

-- The variables of the settings. The signed ones are 16-bit patterns. `digits_level` and `digits_on`
-- are what tm1629a_setbrightness was given last; `save_err` is whether g_save_err is set, without
-- the number of the error; `store` is the state of stm32_flash.c.
pub record Display : Type 0 where
  pub utcoffset : ℕ
  pub bright_digits : ℕ
  pub bright_panels : ℕ
  pub tempoffset : ℕ
  pub ext_set : Bool
  pub ext_tenths : ℕ
  pub temp_secs : ℕ
  pub save_err : Bool
  pub sleepmin : ℕ
  pub wakemin : ℕ
  pub asleep : Bool
  pub digits_level : ℕ
  pub digits_on : Bool
  pub main : Panel
  pub sub : Panel
  pub store : Store

-- The settings of hazk03_display_getsettings, and of display_persist.
abbrev pub settings_of : Display → Config
settings_of d = record {
  utcoffset = d.utcoffset;
  digits = d.bright_digits;
  panels = d.bright_panels;
  tempoffset = d.tempoffset;
  sleepmin = d.sleepmin;
  wakemin = d.wakemin;
}

-- display_apply_brightness
pub apply_brightness : ℕ → ℕ → Display → Display
apply_brightness digits panels d =
    let digits_on = digits != 0 in
    let panels_on = panels != 0 in
    let panels_level = if panels_on then panels - 1 else 0 in
    record d {
      digits_level = if digits_on then digits - 1 else 0;
      digits_on = digits_on;
      main = set_brightness panels_level panels_on d.main;
      sub = set_brightness panels_level panels_on d.sub;
    }

-- display_in_sleep
pub in_sleep : Display → ℕ → Bool
in_sleep d minute =
    if (d.sleepmin == sleep_off || d.wakemin == sleep_off) || d.sleepmin == d.wakemin
    then false
    else if ltb d.sleepmin d.wakemin
    then leb d.sleepmin minute && ltb minute d.wakemin
    else leb d.sleepmin minute || ltb minute d.wakemin

-- `a == b` of two C truth values.
abbrev pub same_state : Bool → Bool → Bool
same_state true b = b
same_state false true = false
same_state false false = true

-- display_update_sleep, of the hour and the minute of the local time.
pub update_sleep : ℕ → ℕ → Display → Display
update_sleep hour min d =
    let sleeping = in_sleep d (u16 (hour * 60 + min)) in
    let turned = record d { asleep = sleeping } in
    if same_state sleeping d.asleep
    then d
    else if sleeping
    then apply_brightness 0 0 turned
    else apply_brightness d.bright_digits d.bright_panels turned

-- hazk03_display_setconfig
pub setconfig : Config → Display → Display
setconfig c d = apply_brightness c.digits c.panels (record d {
  utcoffset = c.utcoffset;
  bright_digits = c.digits;
  bright_panels = c.panels;
  tempoffset = c.tempoffset;
  sleepmin = c.sleepmin;
  wakemin = c.wakemin;
})

-- hazk03_display_exttemp
pub exttemp : Bool → ℕ → Display → Display
exttemp set tenths d = record d {
  ext_tenths = if set then tenths else d.ext_tenths;
  ext_set = set;
  temp_secs = 0;
}

-- hazk03_display_saveerr
pub saveerr : Display → Bool × Display
saveerr d = (d.save_err, record d { save_err = false })

-- A request that changes the settings.
pub data Setting : Type 0 where
  brightness : ℕ → ℕ → Setting
  tempoffset : ℕ → Setting
  sleep : ℕ → ℕ → Setting
  utcoffset : ℕ → Setting

-- hazk03_display_brightness, _tempoffset, _sleep and _utcoffset, before their display_persist.
pub set_value : Setting → Display → Display
set_value (brightness digits panels) d =
    let kept = record d { bright_digits = digits; bright_panels = panels } in
    if d.asleep then kept else apply_brightness digits panels kept
set_value (tempoffset tenths) d = record d { tempoffset = tenths }
set_value (sleep sleepmin wakemin) d = record d { sleepmin = sleepmin; wakemin = wakemin }
set_value (utcoffset minutes) d = record d { utcoffset = minutes }

module _ (m : Mtd) where
  open m use {World}

  -- display_persist
  pub persist : Display → World → Display × World
  persist d w =
      let saved = config_save m (settings_of d) d.store w in
      (
        record d { store = saved.store; save_err = if saved.ok then d.save_err else true },
        saved.world,
      )

  -- The four functions whole.
  pub change : Setting → Display → World → Display × World
  change s d w = persist (set_value s d) w
