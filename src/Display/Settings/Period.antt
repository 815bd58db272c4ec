-- ===== src/Display/Settings/Period.antt =====
-- The period without light on the clock of a day.
use telegraph_stm_fw.Base.{
  ℕ, ◌+◌, ◌-◌, ◌%◌, ◌<◌, ◌≡◌, ◌⊎◌, inl, inr, Bool, true, ◌!=◌, ◌&&◌, ltb, arith,
}
use telegraph_stm_fw.Display.Settings.{Display, in_sleep, sleep_off}

-- The minutes from one minute of the day to another, through midnight where needed.
pub minutes_after : ℕ → ℕ → ℕ
minutes_after start minute = (minute + 1440 - start) % 1440

-- A minute is in the period exactly where it comes sooner after the start of the period than the
-- end does, whether or not the period goes through midnight.
in_sleep_cyclic :
    (d : Display) (minute : ℕ)
    → d.sleepmin < 1440
    → d.wakemin < 1440
    → minute < 1440
    → in_sleep d minute ≡ ltb (minutes_after d.sleepmin minute) (minutes_after d.sleepmin d.wakemin)
unfolding in_sleep minutes_after
in_sleep_cyclic d minute p q r = ground arith

-- A time of day in minutes, or none.
abbrev pub IsTime : ℕ → Type 0
IsTime t = (t < 1440) ⊎ (t ≡ sleep_off)

-- The minute is in the period between two times of day, where both are set.
pub in_period : ℕ → ℕ → ℕ → Bool
in_period start end minute =
    (start != sleep_off && end != sleep_off)
    && ltb (minutes_after start minute) (minutes_after start end)

in_sleep_off :
    (d : Display) (minute : ℕ)
    → (d.sleepmin ≡ sleep_off) ⊎ (d.wakemin ≡ sleep_off)
    → in_sleep d minute ≡ in_period d.sleepmin d.wakemin minute
unfolding in_period in_sleep
in_sleep_off d minute (inl p) = ground arith
in_sleep_off d minute (inr q) = ground arith

-- The display is to be dark exactly in the period of its settings.
pub in_sleep-in_period :
    (d : Display) (minute : ℕ)
    → IsTime d.sleepmin
    → IsTime d.wakemin
    → minute < 1440
    → in_sleep d minute ≡ in_period d.sleepmin d.wakemin minute
unfolding in_period
in_sleep-in_period d minute (inl p) (inl q) r =
    let start : (d.sleepmin != sleep_off) ≡ true = ground arith in
    let end : (d.wakemin != sleep_off) ≡ true = ground arith in
    rw (start, end) (in_sleep_cyclic d minute p q r)
in_sleep-in_period d minute (inr p) q r = in_sleep_off d minute (inl p)
in_sleep-in_period d minute (inl p) (inr q) r = in_sleep_off d minute (inr q)
