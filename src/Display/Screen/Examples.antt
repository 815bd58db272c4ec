-- ===== src/Display/Screen/Examples.antt =====
-- The sub panel of the board with texts in the compact font.
use telegraph_stm_fw.Base.{
  ℕ, ◌*◌, ◌≤◌, ◌≡◌, drop, replicate, refl, List, [], ◌∷◌, true, Option, none, All, arith,
}
use telegraph_stm_fw.Font.Compact.{compact}
use telegraph_stm_fw.Panel.{init}
use telegraph_stm_fw.Display.Anim.{no_anim, stride_of}
use telegraph_stm_fw.Font.Render.{render_text_lines}
use telegraph_stm_fw.Display.Layout.{wrap_text}
use telegraph_stm_fw.Display.Layout.Lines.{Fitting, wrap_text-Fitting}
use telegraph_stm_fw.Display.Screen.{Screen, scratch_rows, placed, wrap_max_lines}
use telegraph_stm_fw.Display.Screen.Scratch.{scratch-Fits}

-- "ab cd ef", wider than the panel of 21 pixels.
abbrev words : List ℕ
words = 0x61 ∷ 0x62 ∷ 0x20 ∷ 0x63 ∷ 0x64 ∷ 0x20 ∷ 0x65 ∷ 0x66 ∷ []

wrap_text-Fitting_example : All (Fitting compact words 21) (wrap_text compact words 21 7)
wrap_text-Fitting_example = wrap_text-Fitting compact words 21 7

scratch-Fits_example :
    let lines = wrap_text compact words 21 wrap_max_lines in
    let size = stride_of 21 * scratch_rows compact lines in
    (size ≤ 512)
    × (drop size (
          render_text_lines compact 21
            (scratch_rows compact lines)
            (placed compact (init 21 14) words 0 lines)
            (replicate 600 7))
        ≡ drop size (replicate 600 7))
scratch-Fits_example =
    scratch-Fits compact (init 21 14) words 0 (replicate 600 7) (omega arith) (omega arith)
      (omega arith) refl

abbrev sub_screen : Screen
sub_screen = record {
  sub = true;
  cap = 128;
  panel = init 21 14;
  anim = no_anim 128;
  default = true;
  wday = none;
}

-- There are no files.
abbrev no_file : List ℕ → Option ℕ
no_file path = none

abbrev no_bytes : ℕ → ℕ → List ℕ × ℕ
no_bytes n file = ([], file)

-- "Pon"
abbrev monday : List ℕ
monday = 0x50 ∷ 0x6f ∷ 0x6e ∷ []
