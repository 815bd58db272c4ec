-- ===== src/Display/Settings/Light.antt =====
-- The light of the digits and the panels: that of the settings, or none in the period without light.
use telegraph_stm_fw.Base.{
  ℕ, ◌-◌, ◌<◌, arith, ap, ◌≡◌, refl, sym, subst, ◌∙◌, List, [], ◌∷◌, Bool, true, false, Bool-cases,
  inl, inr, ◌!=◌, ltb, if◌then◌else◌, if_both, if_true, if_false, u16, ◌+◌, ◌*◌,
}
use telegraph_stm_fw.Server.Board.{Config}
use telegraph_stm_fw.Flash.{Mtd}
use telegraph_stm_fw.Panel.{Panel, set_brightness, bright_max}
use telegraph_stm_fw.Display.Settings.{
  Display, apply_brightness, update_sleep, set_value, Setting, brightness, tempoffset, sleep,
  utcoffset, exttemp, saveerr, setconfig, persist, change, in_sleep, same_state,
}
use telegraph_stm_fw.Display.Settings.Period.{IsTime, in_period, in_sleep-in_period}

-- The level of the hardware for a level of the settings, in which 0 is off.
abbrev pub step_of : ℕ → ℕ
step_of level = if level != 0 then level - 1 else 0

-- A panel with the light of a level.
pub record PanelAt (level : ℕ) (p : Panel) : Type 0 where
  pub on : p.lit ≡ (level != 0)
  pub bright : p.bright ≡ (if ltb bright_max (step_of level) then bright_max else step_of level)

pub record LightOf (digits panels : ℕ) (d : Display) : Type 0 where
  pub digits_on : d.digits_on ≡ (digits != 0)
  pub digits_level : d.digits_level ≡ step_of digits
  pub main : PanelAt panels d.main
  pub sub : PanelAt panels d.sub

-- The light that the state asks for.
abbrev pub IsLit : Display → Type 0
IsLit d =
    LightOf (if d.asleep then 0 else d.bright_digits) (if d.asleep then 0 else d.bright_panels) d

apply_brightness-LightOf :
    (digits panels : ℕ) (d : Display) → LightOf digits panels (apply_brightness digits panels d)
unfolding apply_brightness set_brightness
apply_brightness-LightOf digits panels d = record {
  digits_on = refl;
  digits_level = refl;
  main = record { on = refl; bright = refl };
  sub = record { on = refl; bright = refl };
}

apply_brightness-IsLit :
    (d : Display) (digits panels : ℕ)
    → digits ≡ (if d.asleep then 0 else d.bright_digits)
    → panels ≡ (if d.asleep then 0 else d.bright_panels)
    → IsLit (apply_brightness digits panels d)
unfolding apply_brightness
apply_brightness-IsLit d digits panels p q =
    subst
      (λ (n : ℕ).
        LightOf n (if d.asleep then 0 else d.bright_panels) (apply_brightness digits panels d))
      p
      (subst (λ (n : ℕ). LightOf digits n (apply_brightness digits panels d)) q
        (apply_brightness-LightOf digits panels d))

-- The same light under other variables.
unlit :
    {a b : ℕ} {d : Display} (e : Display)
    → LightOf a b d
    → e.digits_on ≡ d.digits_on
    → e.digits_level ≡ d.digits_level
    → e.main ≡ d.main
    → e.sub ≡ d.sub
    → LightOf a b e
unlit e h p q r s = record {
  digits_on = p ∙ h.digits_on;
  digits_level = q ∙ h.digits_level;
  main = subst (PanelAt _) (sym r) h.main;
  sub = subst (PanelAt _) (sym s) h.sub;
}

-- The light that the state asks for, with what is known of the state.
at_state :
    (d : Display) (b : Bool)
    → d.asleep ≡ b
    → LightOf (if b then 0 else d.bright_digits) (if b then 0 else d.bright_panels) d
    → IsLit d
at_state d b e =
    subst
      (λ (c : Bool).
        LightOf (if c then 0 else d.bright_digits) (if c then 0 else d.bright_panels) d)
      (sym e)

of_state :
    (d : Display) (b : Bool)
    → d.asleep ≡ b
    → IsLit d
    → LightOf (if b then 0 else d.bright_digits) (if b then 0 else d.bright_panels) d
of_state d b e =
    subst
      (λ (c : Bool).
        LightOf (if c then 0 else d.bright_digits) (if c then 0 else d.bright_panels) d)
      e

set_value-IsLit : (s : Setting) (d : Display) → IsLit d → IsLit (set_value s d)
unfolding set_value
set_value-IsLit (brightness digits panels) d h =
    let kept : Display = record d { bright_digits = digits; bright_panels = panels } in
    elim (Bool-cases d.asleep) [
      | inl e ↦
          subst IsLit (sym (if_true kept (apply_brightness digits panels kept) e))
            (at_state kept true e (unlit kept (of_state d true e h) refl refl refl refl))
      | inr e ↦ subst IsLit (sym (if_false kept (apply_brightness digits panels kept) e)) (
          apply_brightness-IsLit kept digits panels (sym (if_false 0 digits e))
            (sym (if_false 0 panels e)))
    ]
set_value-IsLit (tempoffset tenths) d h =
    unlit (record d { tempoffset = tenths }) h refl refl refl refl
set_value-IsLit (sleep sleepmin wakemin) d h =
    unlit (record d { sleepmin = sleepmin; wakemin = wakemin }) h refl refl refl refl
set_value-IsLit (utcoffset minutes) d h =
    unlit (record d { utcoffset = minutes }) h refl refl refl refl

update_sleep-IsLit : (hour min : ℕ) (d : Display) → IsLit d → IsLit (update_sleep hour min d)
unfolding update_sleep
update_sleep-IsLit hour min d h =
    let sleeping = in_sleep d (u16 (hour * 60 + min)) in
    let turned : Display = record d { asleep = sleeping } in
    let off = apply_brightness 0 0 turned in
    let on = apply_brightness d.bright_digits d.bright_panels turned in
    let next : IsLit (if sleeping then off else on) = elim (Bool-cases sleeping) [
      | inl e ↦ subst IsLit (sym (if_true off on e)) (
          apply_brightness-IsLit turned 0 0 (sym (if_true 0 d.bright_digits e))
            (sym (if_true 0 d.bright_panels e)))
      | inr e ↦ subst IsLit (sym (if_false off on e)) (
          apply_brightness-IsLit turned d.bright_digits d.bright_panels
            (sym (if_false 0 d.bright_digits e)) (sym (if_false 0 d.bright_panels e)))
    ] in
    if_both IsLit _ h next

update_sleep-asleep :
    (hour min : ℕ) (d : Display)
    → (update_sleep hour min d).asleep ≡ in_sleep d (u16 (hour * 60 + min))
unfolding update_sleep apply_brightness
update_sleep-asleep hour min d =
    let sleeping = in_sleep d (u16 (hour * 60 + min)) in
    elim (Bool-cases sleeping) [
      | inl e ↦ elim (Bool-cases d.asleep) [ inl f ↦ rw (e, f) refl | inr f ↦ rw (e, f) refl ]
      | inr e ↦ elim (Bool-cases d.asleep) [ inl f ↦ rw (e, f) refl | inr f ↦ rw (e, f) refl ]
    ]

update_sleep-bright :
    (hour min : ℕ) (d : Display)
    → ((update_sleep hour min d).bright_digits ≡ d.bright_digits)
      × ((update_sleep hour min d).bright_panels ≡ d.bright_panels)
unfolding update_sleep apply_brightness
update_sleep-bright hour min d =
    let P =
      λ (u : Display). (u.bright_digits ≡ d.bright_digits) × (u.bright_panels ≡ d.bright_panels) in
    if_both P (same_state (in_sleep d (u16 (hour * 60 + min))) d.asleep) (refl, refl)
      (if_both P (in_sleep d (u16 (hour * 60 + min))) (refl, refl) (refl, refl))

-- The light after the clock has given the time of day: none in the period, that of the settings
-- outside of it.
update_sleep-LightOf :
    (hour min : ℕ) (d : Display)
    → IsLit d
    → hour < 24
    → min < 60
    → IsTime d.sleepmin
    → IsTime d.wakemin
    → let dark = in_period d.sleepmin d.wakemin (hour * 60 + min) in
      LightOf
        (if dark then 0 else d.bright_digits)
        (if dark then 0 else d.bright_panels)
        (update_sleep hour min d)
update_sleep-LightOf hour min d h p q start end =
    let u = update_sleep hour min d in
    let dark = in_period d.sleepmin d.wakemin (hour * 60 + min) in
    let whole : u16 (hour * 60 + min) ≡ hour * 60 + min = omega arith in
    let state : u.asleep ≡ dark =
      update_sleep-asleep hour min d
      ∙ ap (in_sleep d) whole
      ∙ in_sleep-in_period d (hour * 60 + min) start end (omega arith) in
    let (digits, panels) = update_sleep-bright hour min d in
    subst (λ (n : ℕ). LightOf (if dark then 0 else n) (if dark then 0 else d.bright_panels) u)
      digits
      (subst (λ (n : ℕ). LightOf (if dark then 0 else u.bright_digits) (if dark then 0 else n) u)
        panels (of_state u dark state (update_sleep-IsLit hour min d h)))

-- What changes the settings or the light after the start.
pub data Act : Type 0 where
  by_setting : Setting → Act
  by_clock : ℕ → ℕ → Act
  by_exttemp : Bool → ℕ → Act
  by_saveerr : Act

module _ (m : Mtd) where
  open m use {World}

  unfoldable pub act : Act → Display × World → Display × World
  act (by_setting s) p = change m s p.0 p.1
  act (by_clock hour min) p = (update_sleep hour min p.0, p.1)
  act (by_exttemp set tenths) p = (exttemp set tenths p.0, p.1)
  act by_saveerr p = ((saveerr p.0).1, p.1)

  unfoldable pub acts : List Act → Display × World → Display × World
  acts [] p = p
  acts (a ∷ rest) p = acts rest (act a p)

  act-IsLit : (a : Act) (p : Display × World) → IsLit p.0 → IsLit (act a p).0
  unfolding act change persist exttemp saveerr
  act-IsLit (by_setting s) p h =
      unlit (change m s p.0 p.1).0 (set_value-IsLit s p.0 h) refl refl refl refl
  act-IsLit (by_clock hour min) p h = update_sleep-IsLit hour min p.0 h
  act-IsLit (by_exttemp set tenths) p h = unlit (exttemp set tenths p.0) h refl refl refl refl
  act-IsLit by_saveerr p h = unlit (saveerr p.0).1 h refl refl refl refl

  acts-stay : (rest : List Act) (p : Display × World) → IsLit p.0 → IsLit (acts rest p).0
  unfolding acts
  acts-stay [] p h = h
  acts-stay (a ∷ rest) p h = acts-stay rest (act a p) (act-IsLit a p h)

  acts-kept :
      (c : Config) (rest : List Act) (d : Display) (w : World)
      → d.asleep ≡ false
      → IsLit (acts rest (setconfig c d, w)).0
  unfolding setconfig apply_brightness
  acts-kept c rest d w awake =
      acts-stay rest (setconfig c d, w)
        (apply_brightness-IsLit
          (record d {
            utcoffset = c.utcoffset;
            bright_digits = c.digits;
            bright_panels = c.panels;
            tempoffset = c.tempoffset;
            sleepmin = c.sleepmin;
            wakemin = c.wakemin;
          })
          c.digits c.panels (sym (if_false 0 c.digits awake)) (sym (if_false 0 c.panels awake)))

  -- After the settings of the start, on a display that is not asleep, and any sequence of requests and
  -- ticks of the clock, the digits and both panels have the light of the settings, or none while the
  -- display is taken for asleep; and the next tick of the clock, with the times of the period valid or
  -- unset, leaves them with no light where its time of day is in the period of the settings, and with
  -- that of the settings elsewhere.
  pub acts-IsLit :
      (c : Config) (rest : List Act) (d : Display) (w : World) (hour min : ℕ)
      → d.asleep ≡ false
      → hour < 24
      → min < 60
      → IsTime (acts rest (setconfig c d, w)).0.sleepmin
      → IsTime (acts rest (setconfig c d, w)).0.wakemin
      → let e = (acts rest (setconfig c d, w)).0 in
        let dark = in_period e.sleepmin e.wakemin (hour * 60 + min) in
        IsLit e
        × LightOf
            (if dark then 0 else e.bright_digits)
            (if dark then 0 else e.bright_panels)
            (update_sleep hour min e)
  acts-IsLit c rest d w hour min awake h m start end =
      let lit = acts-kept c rest d w awake in
      (lit, update_sleep-LightOf hour min (acts rest (setconfig c d, w)).0 lit h m start end)
