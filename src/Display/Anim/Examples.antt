-- ===== src/Display/Anim/Examples.antt =====
-- A bitmap that scrolls on the main panel.
use telegraph_stm_fw.Base.{
  length, ◌++◌, ℕ, ◌*◌, ◌≡◌, refl, List, [], ◌∷◌, true, false, Option, none, arith,
}
use telegraph_stm_fw.Server.Board.{Animation}
use telegraph_stm_fw.Font.Compact.{compact}
use telegraph_stm_fw.Panel.{init}
use telegraph_stm_fw.Display.Anim.{display_animate, show_source, start, Anim, no_anim, anim_draw}
use telegraph_stm_fw.Display.Anim.Rate.{ticks, ticks-InTime, ticks-stuck}
use telegraph_stm_fw.Display.Anim.Source.{Event, request, event, events, events-InSource}

abbrev running : ℕ → Anim
running period = record (no_anim 512) {
  active = true;
  w = 70;
  h = 14;
  period_ms = period;
  step = 1;
  srcw = 70;
  srch = 14;
}

ticks-InTime_example :
    (ticks 2 (running 50) ≡ record (running 50) { elapsed_ms = 2 * 20 })
    × (ticks 3 (running 50) ≡ record (running 50) { elapsed_ms = 0; offset = 1 })
ticks-InTime_example =
    ticks-InTime 2 (running 50) refl refl (omega arith) (omega arith) (omega arith) (omega arith)
      (omega arith) (omega arith)

ticks-stuck_example : (ticks 10000 (running 65535)).offset ≡ (running 65535).offset
ticks-stuck_example = ticks-stuck 10000 (running 65535) refl refl (omega arith)

abbrev bitmap : Animation
bitmap = record {
  panel = 0;
  x = 0;
  y = 0;
  w = 9;
  h = 2;
  vertical = false;
  period_ms = 50;
  step = 1;
  text = false;
  file = false;
  srcw = 9;
  srch = 2;
  src = 0x80 ∷ 0x80 ∷ 0xff ∷ 0x00 ∷ [];
}

-- There are no files.
abbrev no_file : List ℕ → Option ℕ
no_file path = none

abbrev no_bytes : ℕ → ℕ → List ℕ × ℕ
no_bytes n file = ([], file)

abbrev shown_bitmap : List (Event no_file no_bytes)
shown_bitmap = request compact bitmap ∷ []

abbrev after : Anim
after = (events no_file no_bytes 512 shown_bitmap (no_anim 512, init 70 14)).0

after-active : after.active ≡ true
unfolding events event display_animate show_source start
after-active = refl

events-InSource_example :
    (length after.src ≡ 512)
    × (anim_draw (record after { src = after.src ++ 1 ∷ 2 ∷ [] }) (init 70 14)
        ≡ anim_draw after (init 70 14))
events-InSource_example =
    events-InSource no_file no_bytes (λ n file. omega arith) 512 shown_bitmap (init 70 14)
      (init 70 14) (1 ∷ 2 ∷ []) (omega arith) after-active
