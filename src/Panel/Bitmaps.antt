-- ===== src/Panel/Bitmaps.antt =====
-- A rectangle of pixels drawn on a panel, pixel by pixel.
use telegraph_stm_fw.Base.{ℕ, ◌+◌, ◌≡◌, List, Bool, ltb, leb, ◌==◌, ◌&&◌}
use telegraph_stm_fw.Panel.{Panel}
use telegraph_stm_fw.Panel.Pixels.{IsPanel}

-- A panel with the same size, whose images fit.
record SameSize (d r : Panel) : Type 0 where
  width : r.width ≡ d.width
  height : r.height ≡ d.height
  fits : IsPanel r

module _ (x y stride : ℕ) (bits : List ℕ) where
  -- The pixels of a row of the bitmap.
  abbrev in_row : ℕ → ℕ → ℕ → ℕ → ℕ → Bool
  in_row row left col u v = (y + row == v) && (leb (x + col) u && ltb u (x + col + left))
