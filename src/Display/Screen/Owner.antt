-- ===== src/Display/Screen/Owner.antt =====
-- Whose content a panel shows.
use telegraph_stm_fw.Base.{
  ℕ, ◌≡◌, refl, List, Bool, false, if_both, if_false, if◌then◌else◌, Option, none, some, ltb, leb,
  ◌==◌, ◌&&◌, ◌/◌, ◌*◌, length,
}
use telegraph_stm_fw.Font.{Font, text_width, line_height}
use telegraph_stm_fw.Display.Layout.{Line, wrap_text, draw_static}
use telegraph_stm_fw.Display.Anim.{display_animstop}
use telegraph_stm_fw.Display.Screen.{
  Screen, display_clear, taken, wiped, display_pixels, scroll, scroll_or_cut, show_lines,
  draw_text_or_scroll, show_text, show_split, display_text, display_default, wrap_max_lines,
  text_scroll, block_scroll, split_feed,
}

-- A panel whose content is not that of the board.
record Owned (sc : Screen) : Type 0 where
  default : sc.default ≡ false

module _ {File : Type 0} (open_file : List ℕ → Option File) (read : ℕ → File → List ℕ × File) where
  scroll_or_cut-Owned :
      (font : Font) (s : List ℕ) (align valign : ℕ) (sc : Screen)
      → Owned (scroll_or_cut open_file read font s align valign sc)
  unfolding scroll_or_cut scroll
  scroll_or_cut-Owned font s align valign sc =
      let scrolled = scroll open_file read font (text_scroll font sc s valign) sc in
      if_both Owned {x = scrolled.1}
        {y = record scrolled.1 { panel = draw_static font s align valign scrolled.1.panel }}
        scrolled.0 (record { default = refl }) (record { default = refl })

  show_lines-Owned :
      (font : Font) (s : List ℕ) (align valign : ℕ) (lines : List Line) (sc : Screen)
      → Owned sc
      → Owned (show_lines open_file read font s align valign lines sc)
  unfolding show_lines scroll
  show_lines-Owned font s align valign lines sc h =
      let scrolled = scroll open_file read font (block_scroll font sc s align lines) sc in
      if_both Owned (leb (length lines * line_height font) sc.panel.height)
        (record { default = h.default })
        (if_both Owned {x = scrolled.1} scrolled.0 (record { default = refl })
          (scroll_or_cut-Owned font s align valign scrolled.1))

  draw_text_or_scroll-Owned :
      (font : Font) (s : List ℕ) (align valign : ℕ) (sc : Screen)
      → Owned sc
      → Owned (draw_text_or_scroll open_file read font s align valign sc)
  unfolding draw_text_or_scroll
  draw_text_or_scroll-Owned font s align valign sc h =
      let lines = wrap_text font s sc.panel.width wrap_max_lines in
      if_both Owned (leb (text_width font s) sc.panel.width) (record { default = h.default })
        (if_both Owned (ltb 1 (sc.panel.height / line_height font) && ltb 1 (length lines))
          (show_lines-Owned font s align valign lines sc h)
          (scroll_or_cut-Owned font s align valign sc))

  show_text-Owned :
      (font : Font) (s : List ℕ) (align valign : ℕ) (sc : Screen)
      → Owned sc
      → Owned (show_text open_file read font s align valign sc)
  unfolding show_text
  show_text-Owned font s align valign sc h =
      draw_text_or_scroll-Owned font s align valign
        (if valign == 0 then record sc { panel = wiped sc.panel } else sc)
        (if_both Owned {x = record sc { panel = wiped sc.panel }} {y = sc} (valign == 0)
          (record { default = h.default }) h)

  show_split-Owned :
      (font : Font) (s : List ℕ) (align valign : ℕ) (o : Option (List ℕ × List ℕ)) (sc : Screen)
      → Owned sc
      → Owned (show_split open_file read font s align valign o sc)
  unfolding show_split
  show_split-Owned font s align valign none sc h = show_text-Owned font s align valign sc h
  show_split-Owned font s align valign (some p) sc h = record { default = h.default }

  display_text-Owned :
      (font : Font) (s : List ℕ) (align valign : ℕ) (sc : Screen)
      → Owned (display_text open_file read font s align valign sc)
  unfolding display_text
  display_text-Owned font s align valign sc =
      let next = taken sc in
      show_split-Owned font s align valign (if sc.sub then none else split_feed s)
        (record next { anim = display_animstop sc.anim }) (record { default = refl })

  -- The content of the board does not come over a panel that the edge MCU owns.
  display_default-Owned :
      (font : Font) (wday : ℕ) (name : List ℕ) (sc : Screen)
      → Owned sc
      → display_default open_file read font wday name sc ≡ sc
  unfolding display_default
  display_default-Owned font wday name sc h = if_false _ sc (off sc.default _ h.default)
    where
      off : (a b : Bool) → a ≡ false → (a && b) ≡ false
      off a b e = rw e refl

  -- After a text, a bitmap or a clear of the edge MCU, the board leaves the panel as it is on every
  -- day of the week.
  pub display_default-stays :
      (font : Font) (s : List ℕ) (align valign x y w h wday : ℕ) (bits name : List ℕ) (sc : Screen)
      → (display_default open_file read font wday name
            (display_text open_file read font s align valign sc)
          ≡ display_text open_file read font s align valign sc)
        × (display_default open_file read font wday name (display_pixels x y w h bits sc)
            ≡ display_pixels x y w h bits sc)
        × (display_default open_file read font wday name (display_clear sc) ≡ display_clear sc)
  unfolding display_pixels display_clear
  display_default-stays font s align valign x y w h wday bits name sc = (
    display_default-Owned font wday name (display_text open_file read font s align valign sc)
        (display_text-Owned font s align valign sc),
    display_default-Owned font wday name (display_pixels x y w h bits sc)
        (record { default = refl }),
    display_default-Owned font wday name (display_clear sc) (record { default = refl }),
  )
