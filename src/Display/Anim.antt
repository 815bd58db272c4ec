-- ===== src/Display/Anim.antt =====
-- The animations of boards/hazk03-stm32f105rb/src/stm32_display.c: a window that moves over a source.
pub mod Rate
pub mod Source
pub mod Draws
mod Examples
use telegraph_stm_fw.Base.{
  ℕ, zero, suc, ◌+◌, ◌*◌, ◌/◌, ◌%◌, List, ◌∷◌, ◌++◌, length, take, drop, replicate, byte_at, Bool,
  true, false, not, bit_and, ◌<<<◌, ◌==◌, ◌!=◌, ◌&&◌, ◌||◌, ltb, leb, if◌then◌else◌, Option, none,
  some, u8, u16,
}
use telegraph_stm_fw.Base.Int.{ℤ, pos}
use telegraph_stm_fw.Ipc.Wire.{get_u16, get_u32}
use telegraph_stm_fw.Server.Assets.{anim_dir, anim_ext, asset_path}
use telegraph_stm_fw.Server.Board.{Animation, Animated, shown, too_big, invalid}
use telegraph_stm_fw.Panel.{Panel, begin, commit, draw_pixel}
use telegraph_stm_fw.Font.{Font, advance, text_width}
use telegraph_stm_fw.Font.Render.{render_text}

-- TICK_MS, ANIM_SRC_MAIN and ANIM_SRC_SUB, TEXT_SCROLL_GAP_CHARS
abbrev pub tick_ms : ℕ
tick_ms = 20

abbrev pub anim_src_main : ℕ
anim_src_main = 512

abbrev pub anim_src_sub : ℕ
anim_src_sub = 128

abbrev pub scroll_gap_chars : ℕ
scroll_gap_chars = 3

-- struct display_anim_s; `src` is the buffer of the panel that the pointer names.
pub record Anim : Type 0 where
  pub active : Bool
  pub vertical : Bool
  pub x : ℕ
  pub y : ℕ
  pub w : ℕ
  pub h : ℕ
  pub period_ms : ℕ
  pub step : ℕ
  pub srcw : ℕ
  pub srch : ℕ
  pub offset : ℕ
  pub elapsed_ms : ℕ
  pub src : List ℕ

-- The animation of a panel after a reset, with a buffer of `cap` bytes.
abbrev pub no_anim : ℕ → Anim
no_anim cap = record {
  active = false;
  vertical = false;
  x = 0;
  y = 0;
  w = 0;
  h = 0;
  period_ms = 0;
  step = 0;
  srcw = 0;
  srch = 0;
  offset = 0;
  elapsed_ms = 0;
  src = replicate cap 0;
}

-- The bytes of a row of pixels.
abbrev pub stride_of : ℕ → ℕ
stride_of w = (w + 7) / 8

-- The place in the source of a pixel of the window.
pub source_x : Anim → ℕ → ℕ
source_x a col = if a.vertical then col else (col + a.offset) % a.srcw

pub source_y : Anim → ℕ → ℕ
source_y a row = if a.vertical then (row + a.offset) % a.srch else row

-- The index of the byte of a place.
pub source_at : Anim → ℕ → ℕ → ℕ
source_at a sx sy = sy * stride_of a.srcw + sx / 8

-- `on` in anim_draw.
pub source_pixel : Anim → ℕ → ℕ → Bool
source_pixel a row col =
    let sx = source_x a col in
    let sy = source_y a row in
    if leb a.srcw sx || leb a.srch sy
    then false
    else bit_and (byte_at a.src (source_at a sx sy)) (128 / (1 <<< (sx % 8))) != 0

-- The loops of anim_draw, with the pixels that are left in a row and the rows that are left.
pub draw_row : Anim → ℕ → ℕ → ℕ → Panel → Panel
draw_row a row zero col d = d
draw_row a row (suc left) col d =
    draw_row a row left (col + 1)
      (draw_pixel (pos (a.x + col)) (pos (a.y + row)) (source_pixel a row col) d)

pub draw_rows : Anim → ℕ → ℕ → Panel → Panel
draw_rows a zero row d = d
draw_rows a (suc left) row d = draw_rows a left (row + 1) (draw_row a row a.w 0 d)

pub anim_draw : Anim → Panel → Panel
anim_draw a d = commit (draw_rows a a.h 0 (begin d))

-- The move of a window by its step.
pub move : Anim → Anim
move a = record a {
  elapsed_ms = 0;
  offset =
      if a.vertical
      then u16 (a.offset + a.step) % (if ltb 0 a.srch then a.srch else 1)
      else u16 (a.offset + a.step) % (if ltb 0 a.srcw then a.srcw else 1);
}

-- The body of the loop of anim_tick for one panel: the animation, and whether it draws.
pub due : Anim → Anim × Bool
due a =
    let waited = record a { elapsed_ms = u16 (a.elapsed_ms + tick_ms) } in
    if not a.active
    then (a, false)
    else if ltb waited.elapsed_ms a.period_ms
    then (waited, false)
    else (move waited, true)

pub anim_tick : Anim → Panel → Anim × Panel
anim_tick a d = let one = due a in (one.0, if one.1 then anim_draw one.0 d else d)

-- hazk03_display_animstop
pub display_animstop : Anim → Anim
display_animstop a = record a { active = false }

-- hazk03_display_animspeed: whether it gives OK, and the animation.
pub display_animspeed : ℕ → ℕ → Anim → Bool × Anim
display_animspeed period_ms step a = if not a.active || period_ms == 0 then (false, a) else (
  true,
  record a { period_ms = period_ms; step = if ltb 0 step then step else a.step; elapsed_ms = 0 },
)

-- The bytes at the start of a buffer.
pub overlay : List ℕ → List ℕ → List ℕ
overlay bytes buf = bytes ++ drop (length bytes) buf

-- The assignments at the end of hazk03_display_animate, and the first picture.
pub start : Animation → List ℕ → Anim → Panel → Animated × (Anim × Panel)
start r buf a d =
    let next : Anim = record {
      active = true;
      vertical = r.vertical;
      x = u8 r.x;
      y = u8 r.y;
      w = u8 r.w;
      h = u8 r.h;
      period_ms = r.period_ms;
      step = r.step;
      srcw = u16 r.srcw;
      srch = u16 r.srch;
      offset = 0;
      elapsed_ms = 0;
      src = buf;
    } in
    (shown, (next, anim_draw next d))

-- The buffer with the source of a text or of the bytes sent; a sprite is in the buffer already.
pub source_buf : Font → Animation → List ℕ → List ℕ
source_buf font r buf =
    let need = stride_of r.srcw * r.srch in
    let copied = if ltb (length r.src) need then length r.src else need in
    if r.text
    then render_text font r.srcw r.srch r.src buf
    else if r.file
    then buf
    else overlay (take copied r.src) buf

-- What hazk03_display_animate does once the size of its source is known; `cap` is the size of the
-- buffer.
pub show_source : Font → ℕ → Animation → Anim → Panel → Animated × (Anim × Panel)
show_source font cap r a d =
    let need = stride_of r.srcw * r.srch in
    if r.srcw == 0 || r.srch == 0
    then (invalid, (a, d))
    else if ltb cap need
    then (too_big, (a, d))
    else start r (source_buf font r a.src) a d

-- The size of the source of a text.
pub text_source : Font → Animation → Animation
text_source font r =
    let wide = text_width font r.src + scroll_gap_chars * advance font in
    record r { srcw = if ltb wide r.w then r.w else wide; srch = r.h }

-- The request with the header of a sprite.
pub sprite_source : List ℕ → Animation → Animation
sprite_source head r = record r {
  srcw = get_u16 (drop 4 head);
  srch = get_u16 (drop 6 head);
  step = byte_at head 8;
  vertical = bit_and (byte_at head 9) 1 != 0;
  w = if r.w == 0 then byte_at head 8 else r.w;
  h = if r.h == 0 then get_u16 (drop 6 head) else r.h;
}

-- The files: an open, and a read of at most some bytes, none where it fails.
module _ {File : Type 0} (open_file : List ℕ → Option File) (read : ℕ → File → List ℕ × File) where
  -- What follows the open of a sprite.
  pub show_sprite : Font → ℕ → Animation → File → Anim → Panel → Animated × (Anim × Panel)
  show_sprite font cap r file a d =
      let head = read 10 file in
      let s = sprite_source head.0 r in
      let want = stride_of s.srcw * s.srch in
      let got = read want head.1 in
      let filled = record a { src = overlay got.0 a.src } in
      if length head.0 != 10 || get_u32 head.0 != 0x31534754
      then (invalid, (a, d))
      else if (s.srcw == 0 || s.srch == 0) || (s.step == 0 || ltb cap want)
      then (too_big, (a, d))
      else if length got.0 != want
      then (invalid, (filled, d))
      else show_source font cap s filled d

  -- hazk03_display_animate with a file for its source: the open, and the path before it.
  pub show_opened : Font → ℕ → Animation → Option File → Anim → Panel → Animated × (Anim × Panel)
  show_opened font cap r none a d = (invalid, (a, d))
  show_opened font cap r (some file) a d = show_sprite font cap r file a d

  pub show_path : Font → ℕ → Animation → Option (List ℕ) → Anim → Panel → Animated × (Anim × Panel)
  show_path font cap r none a d = (invalid, (a, d))
  show_path font cap r (some path) a d = show_opened font cap r (open_file path) a d

  pub animate_file : Font → ℕ → Animation → Anim → Panel → Animated × (Anim × Panel)
  animate_file font cap r a d = show_path font cap r (asset_path 64 anim_dir r.src anim_ext) a d

  -- hazk03_display_animate, of the font for one line, for one panel.
  pub display_animate : Font → ℕ → Animation → Anim → Panel → Animated × (Anim × Panel)
  display_animate font cap r a d =
      if r.period_ms == 0 || ((r.step == 0 && not r.file) || ((r.w == 0 || r.h == 0) && not r.file))
      then (invalid, (a, d))
      else if r.file
      then animate_file font cap r a d
      else if r.text
      then show_source font cap (text_source font r) a d
      else show_source font cap r a d
