-- ===== src/Display/Layout/Columns.antt =====
-- The column of a text that fits its panel.
use telegraph_stm_fw.Base.{ℕ, ◌-◌, ◌/◌, ◌≤◌, ◌≡◌, ◌≢◌, List, arith}
use telegraph_stm_fw.Font.{Font, text_width}
use telegraph_stm_fw.Panel.{Panel}
use telegraph_stm_fw.Display.Layout.{text_column, align_left, align_right}

-- A text that is at most as wide as its panel stands on it whole, at its left edge, at its right
-- edge, or else with margins that differ by one pixel at most; a wider one starts at the left edge.
pub record Placed (font : Font) (d : Panel) (s : List ℕ) : Type 0 where
  pub left : text_column font d s align_left ≡ 0
  pub right : text_column font d s align_right ≡ d.width - text_width font s
  pub inside : (align : ℕ) → text_column font d s align ≤ d.width - text_width font s
  pub middle :
      (align : ℕ)
      → align ≢ align_left
      → align ≢ align_right
      → text_column font d s align ≡ (d.width - text_width font s) / 2

pub text_column-Placed : (font : Font) (d : Panel) (s : List ℕ) → Placed font d s
unfolding text_column
text_column-Placed font d s = record {
  left = ground arith;
  right = ground arith;
  inside = λ align. ground arith;
  middle = λ align p q. ground arith;
}
