-- ===== src/Panel/Examples.antt =====
-- The main panel of the board, empty, and what is drawn on it.
use telegraph_stm_fw.Base.{ℕ, ◌-◌, ◌≡◌, refl, List, [], ◌∷◌, ◌++◌, map, drop, Bool, true, arith}
use telegraph_stm_fw.Base.Int.{pos}
use telegraph_stm_fw.Panel.{
  Panel, init, shown, hidden, begin, swap_now, row_bits, shift_bits, shift_combined,
}
use telegraph_stm_fw.Panel.Frames.{Edit, Step, pixel, wipe, by_writer, by_scan, run, paint}
use telegraph_stm_fw.Panel.Updates.{alone, update, update-shown, update-torn}
use telegraph_stm_fw.Panel.Rows.{shift_combined-sub}

abbrev main_panel : Panel
main_panel = init 70 14

abbrev sub_panel : Panel
sub_panel = init 21 14

shift_combined-sub_example :
    drop
      (row_bits main_panel - row_bits sub_panel)
      (map (λ (b : Bool × Bool). b.1) (shift_combined main_panel sub_panel 5))
    ≡ shift_bits sub_panel 5 0 (row_bits sub_panel)
shift_combined-sub_example = shift_combined-sub main_panel sub_panel 5 (omega arith)

-- Two rows of nine pixels.
abbrev bitmap : List ℕ
bitmap = 0x80 ∷ 0x80 ∷ 0xff ∷ 0x00 ∷ []

-- A text of two pixels, with a swap between them.
abbrev steps : List Step
steps =
    by_writer wipe
    ∷ by_writer (pixel (pos 1) (pos 1) true)
    ∷ by_scan
    ∷ by_writer (pixel (pos 2) (pos 1) true)
    ∷ []

update-shown_example :
    (shown (update steps main_panel) ≡ shown main_panel)
    × (shown (swap_now (update steps main_panel))
        ≡ paint main_panel.width main_panel.height steps (shown main_panel))
update-shown_example = update-shown steps main_panel refl refl

-- The panel after a change whose image the scan has not taken yet.
abbrev waiting : Panel
waiting = record main_panel { dirty = true; swap = true }

abbrev early : List Edit
early = pixel (pos 1) (pos 1) true ∷ []

abbrev late : List Edit
late = pixel (pos 2) (pos 1) true ∷ []

update-torn_example :
    (shown (swap_now (run (alone early) (begin waiting)))
      ≡ paint waiting.width waiting.height (alone early) (hidden waiting))
    × (shown (swap_now (update (alone early ++ by_scan ∷ alone late) waiting))
        ≡ paint waiting.width waiting.height (alone late) (shown waiting))
update-torn_example = update-torn early late waiting refl refl
