-- ===== src/Display/Anim/Draws.antt =====
-- The bytes that a draw of an animation reads: those of its source alone.
use telegraph_stm_fw.Base.{
  ℕ, suc, ◌+◌, ◌*◌, ◌≤◌, ◌<◌, ◌≡◌, refl, List, length, Bool-cases, inl, inr, ◌||◌, arith, zero,
  ◌++◌, leb, byte_at, get_or-append_left, ap,
}
use telegraph_stm_fw.Panel.{Panel, begin, commit}
use telegraph_stm_fw.Font.Render.Size.{in_bitmap}
use telegraph_stm_fw.Display.Anim.{
  Anim, stride_of, source_x, source_y, source_at, source_pixel, draw_row, draw_rows, anim_draw,
}

-- The animation with more bytes behind its buffer.
abbrev with_behind : Anim → List ℕ → Anim
with_behind a behind = record a { src = a.src ++ behind }

-- A pixel of the source is read inside the buffer, where it is read at all.
source_pixel-behind :
    (a : Anim) (behind : List ℕ) (row col : ℕ)
    → stride_of a.srcw * a.srch ≤ length a.src
    → source_pixel (with_behind a behind) row col ≡ source_pixel a row col
unfolding source_pixel source_x source_y source_at
source_pixel-behind a behind row col fits =
    let sx = source_x a col in
    let sy = source_y a row in
    elim (Bool-cases (leb a.srcw sx || leb a.srch sy)) [
      | inl e ↦ rw e refl
      | inr e ↦
          let wide : sx < a.srcw = ground arith in
          let high : sy < a.srch = ground arith in
          let inside = in_bitmap a.srcw a.srch sx sy wide high in
          let byte : byte_at (a.src ++ behind) (source_at a sx sy)
              ≡ byte_at a.src (source_at a sx sy) =
            get_or-append_left a.src behind (source_at a sx sy) 0 (omega arith) in
          rw (e, byte) refl
    ]

draw_row-behind :
    (a : Anim) (behind : List ℕ) (row left col : ℕ) (d : Panel)
    → stride_of a.srcw * a.srch ≤ length a.src
    → draw_row (with_behind a behind) row left col d ≡ draw_row a row left col d
unfolding draw_row
draw_row-behind a behind row zero col d fits = refl
draw_row-behind a behind row (suc left) col d fits =
    rw (source_pixel-behind a behind row col fits)
      (draw_row-behind a behind row left (col + 1) _ fits)

draw_rows-behind :
    (a : Anim) (behind : List ℕ) (left row : ℕ) (d : Panel)
    → stride_of a.srcw * a.srch ≤ length a.src
    → draw_rows (with_behind a behind) left row d ≡ draw_rows a left row d
unfolding draw_rows
draw_rows-behind a behind zero row d fits = refl
draw_rows-behind a behind (suc left) row d fits =
    rw (draw_row-behind a behind row a.w 0 d fits) (draw_rows-behind a behind left (row + 1) _ fits)

-- A draw is the same whatever bytes lie behind the buffer of its source.
pub anim_draw-behind :
    (a : Anim) (behind : List ℕ) (d : Panel)
    → stride_of a.srcw * a.srch ≤ length a.src
    → anim_draw (with_behind a behind) d ≡ anim_draw a d
unfolding anim_draw
anim_draw-behind a behind d fits = ap commit (draw_rows-behind a behind a.h 0 (begin d) fits)
