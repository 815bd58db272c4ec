-- ===== src/Display/Screen.antt =====
-- One panel of the board in boards/hazk03-stm32f105rb/src/stm32_display.c: its image, its animation
-- and whether the board owns its content; a text drawn on it or scrolled, and the requests of
-- hazk03.h that change it.
pub mod Scratch
pub mod Owner
mod Examples
use telegraph_stm_fw.Base.{
  ℕ, zero, suc, ◌+◌, ◌-◌, ◌*◌, ◌/◌, ◌%◌, List, [], ◌∷◌, length, take, drop, replicate, map, Bool,
  true, false, not, ◌==◌, ◌&&◌, ltb, leb, if◌then◌else◌, Option, none, some, u8,
}
use telegraph_stm_fw.Base.Int.{ℤ, pos, negsuc, ◌-ℤ◌}
use telegraph_stm_fw.Server.Board.{Animation, Animated, shown, too_big, invalid}
use telegraph_stm_fw.Font.{Font, text_width, line_height}
use telegraph_stm_fw.Font.Compact.{compact}
use telegraph_stm_fw.Font.Render.{render_text_lines}
use telegraph_stm_fw.Panel.{Panel, begin, commit, clear, draw_bitmap}
use telegraph_stm_fw.Display.Anim.{
  Anim, stride_of, anim_src_main, display_animate, display_animstop,
}
use telegraph_stm_fw.Display.Layout.{
  Line, wrap_text, text_column, text_row, draw_static, draw_line_at,
}

-- TEXT_WRAP_MAX_LINES, IPC_TEXT_SCROLL_PERIOD_MS and IPC_TEXT_SCROLL_STEP
abbrev pub wrap_max_lines : ℕ
wrap_max_lines = 7

abbrev pub scroll_period_ms : ℕ
scroll_period_ms = 60

abbrev pub scroll_step : ℕ
scroll_step = 1

-- The dev, the g_anim and the flag of the default content of one panel. `cap` is the size of its
-- buffer for animations, `sub` whether it is the sub panel, and `wday` is g_sub_wday, `none` for -1.
pub record Screen : Type 0 where
  pub sub : Bool
  pub cap : ℕ
  pub panel : Panel
  pub anim : Anim
  pub default : Bool
  pub wday : Option ℕ

abbrev pub panel_id : Screen → ℕ
panel_id sc = if sc.sub then 1 else 0

-- The cast of an int to uint8_t.
abbrev pub low_byte : ℤ → ℕ
low_byte (pos n) = n % 256
low_byte (negsuc n) = 255 - n % 256

-- The bytes of a line.
abbrev pub bytes_of : List ℕ → Line → List ℕ
bytes_of s line = take line.len (drop line.start s)

-- The lines drawn below each other from a row.
pub draw_lines : Font → List ℕ → ℕ → List Line → ℕ → Panel → Panel
draw_lines font s align [] ytop d = d
draw_lines font s align (line ∷ lines) ytop d =
    draw_lines font s align lines (ytop + line_height font)
      (draw_line_at font (bytes_of s line) align ytop d)

-- The bitmap of draw_text_or_scroll for lines that are taller than the panel, at the front of its
-- array of ANIM_SRC_MAIN bytes, and its rows.
pub scratch_rows : Font → List Line → ℕ
scratch_rows font lines = length lines * line_height font + line_height font

-- The lines with their columns.
pub placed : Font → Panel → List ℕ → ℕ → List Line → List (List ℕ × ℕ)
placed font d s align lines =
    map (λ (line : Line). (bytes_of s line, text_column font d (bytes_of s line) align)) lines

pub scratch : Font → Panel → List ℕ → ℕ → List Line → List ℕ
scratch font d s align lines = take (stride_of d.width * scratch_rows font lines) (
    render_text_lines font d.width (scratch_rows font lines) (placed font d s align lines)
      (replicate anim_src_main 0))

-- The request of a block of lines that scrolls down, and of a text that scrolls to the left.
pub block_scroll : Font → Screen → List ℕ → ℕ → List Line → Animation
block_scroll font sc s align lines = record {
  panel = panel_id sc;
  x = 0;
  y = 0;
  w = sc.panel.width;
  h = sc.panel.height;
  vertical = true;
  period_ms = scroll_period_ms;
  step = scroll_step;
  text = false;
  file = false;
  srcw = sc.panel.width;
  srch = scratch_rows font lines;
  src = scratch font sc.panel s align lines;
}

pub text_scroll : Font → Screen → List ℕ → ℕ → Animation
text_scroll font sc s valign = record {
  panel = panel_id sc;
  x = 0;
  y = low_byte (text_row font sc.panel valign -ℤ pos font.ascent);
  w = sc.panel.width;
  h = line_height font;
  vertical = false;
  period_ms = scroll_period_ms;
  step = scroll_step;
  text = true;
  file = false;
  srcw = 0;
  srch = 0;
  src = s;
}

pub is_shown : Animated → Bool
is_shown shown = true
is_shown too_big = false
is_shown invalid = false

-- draw_two_lines: the text before its first line feed and the text after it, where there is one.
pub split_feed : List ℕ → Option (List ℕ × List ℕ)
split_feed [] = none
split_feed (b ∷ s) = if b == 10 then some ([], s) else with_first b (split_feed s)
  where
    with_first : ℕ → Option (List ℕ × List ℕ) → Option (List ℕ × List ℕ)
    with_first b none = none
    with_first b (some p) = some (b ∷ p.0, p.1)

pub two_lines : List ℕ → List ℕ → Panel → Panel
two_lines upper lower d = commit (
    draw_line_at compact lower 0 (line_height compact)
      (draw_line_at compact upper 0 0 (clear (begin d))))

-- sm1626d_begin, sm1626d_clear and sm1626d_commit in a row.
abbrev pub wiped : Panel → Panel
wiped d = commit (clear (begin d))

-- The edge MCU owns the panel from now on.
abbrev pub taken : Screen → Screen
taken sc = record sc { default = false }

-- hazk03_display_clear
pub display_clear : Screen → Screen
display_clear sc =
    let next = taken sc in record next { anim = display_animstop sc.anim; panel = wiped sc.panel }

-- hazk03_display_release
pub display_release : Screen → Screen
display_release sc =
    let next = display_clear sc in
    if sc.sub then record next { wday = none; default = true } else next

-- hazk03_display_pixels
pub display_pixels : ℕ → ℕ → ℕ → ℕ → List ℕ → Screen → Screen
display_pixels x y w h bits sc = record (taken sc) {
  panel = commit (draw_bitmap x y w h bits (begin sc.panel));
}

module _ {File : Type 0} (open_file : List ℕ → Option File) (read : ℕ → File → List ℕ × File) where
  -- hazk03_display_animate as draw_text_or_scroll calls it: whether it gives OK, and the panel.
  pub scroll : Font → Animation → Screen → Bool × Screen
  scroll font r sc =
      let started = display_animate open_file read font sc.cap r sc.anim sc.panel in
      (is_shown started.0, record (taken sc) { anim = started.1.0; panel = started.1.1 })

  -- The horizontal scroll, or the text cut at the edge.
  pub scroll_or_cut : Font → List ℕ → ℕ → ℕ → Screen → Screen
  scroll_or_cut font s align valign sc =
      let scrolled = scroll font (text_scroll font sc s valign) sc in
      if scrolled.0
      then scrolled.1
      else record scrolled.1 { panel = draw_static font s align valign scrolled.1.panel }

  -- The lines of a text that is wider than its panel, more than one.
  pub show_lines : Font → List ℕ → ℕ → ℕ → List Line → Screen → Screen
  show_lines font s align valign lines sc =
      let total = length lines * line_height font in
      let scrolled = scroll font (block_scroll font sc s align lines) sc in
      if leb total sc.panel.height
      then record sc {
        panel =
            commit (draw_lines font s align lines ((sc.panel.height - total) / 2) (begin sc.panel));
      }
      else if scrolled.0
      then scrolled.1
      else scroll_or_cut font s align valign scrolled.1

  -- draw_text_or_scroll
  pub draw_text_or_scroll : Font → List ℕ → ℕ → ℕ → Screen → Screen
  draw_text_or_scroll font s align valign sc =
      let lines = wrap_text font s sc.panel.width wrap_max_lines in
      if leb (text_width font s) sc.panel.width
      then record sc { panel = draw_static font s align valign sc.panel }
      else if ltb 1 (sc.panel.height / line_height font) && ltb 1 (length lines)
      then show_lines font s align valign lines sc
      else scroll_or_cut font s align valign sc

  -- What hazk03_display_text does with a text of one line, on a panel that is stopped and taken.
  pub show_text : Font → List ℕ → ℕ → ℕ → Screen → Screen
  show_text font s align valign sc =
      draw_text_or_scroll font s align valign
        (if valign == 0 then record sc { panel = wiped sc.panel } else sc)

  -- The text split at its first line feed, or whole.
  pub show_split : Font → List ℕ → ℕ → ℕ → Option (List ℕ × List ℕ) → Screen → Screen
  show_split font s align valign none sc = show_text font s align valign sc
  show_split font s align valign (some p) sc = record sc { panel = two_lines p.0 p.1 sc.panel }

  -- hazk03_display_text
  pub display_text : Font → List ℕ → ℕ → ℕ → Screen → Screen
  display_text font s align valign sc =
      let next = taken sc in
      show_split font s align valign (if sc.sub then none else split_feed s)
        (record next { anim = display_animstop sc.anim })

  -- display_defaults and draw_default, of the day of the week and its name.
  pub display_default : Font → ℕ → List ℕ → Screen → Screen
  display_default font wday name sc =
      let drawn = draw_text_or_scroll font name 0 0 (record sc { wday = some wday }) in
      if sc.default && not (same_day sc.wday) then drawn else sc
    where
      same_day : Option ℕ → Bool
      same_day none = false
      same_day (some d) = d == wday
