-- ===== src/Panel/Pixels.antt =====
-- A pixel drawn on a panel: where it lands, and what it leaves alone.
use telegraph_stm_fw.Base.{
  ℕ, zero, suc, ◌+◌, ◌*◌, ◌/◌, ◌%◌, ◌≤◌, ◌<◌, ◌≡◌, inl, inr, refl, sym, ap, ◌∙◌, List, [], ◌∷◌,
  length, set, IsBytes, byte_at, get_or-set_self, get_or-set_ne, length-set, Bool, true, false,
  ◌&&◌, ◌||◌, both, Bool-cases, agree, agree-eq, if_true, if_false, bit_and, ◌<<<◌, ◌==◌, ◌!=◌, ltb,
  leb, if◌then◌else◌, arith, ltb→lt, ==-ne,
}
use telegraph_stm_fw.Base.Int.{ℤ, pos, negsuc}
use telegraph_stm_fw.Base.Bits.{holds_below, holds_below-at}
use telegraph_stm_fw.Panel.{
  rows, row_bytes, image_bytes, Panel, shown, hidden, with_hidden, map_x, map_y, put_bit, plot,
  draw_pixel, bit_of,
}

-- Every bit of every byte after a bit of it is put, by evaluation.
abbrev bit_after : ℕ → ℕ → ℕ → Bool → Bool
bit_after b k j on = if k == j then on else bit_and b (1 <<< j) != 0

abbrev kept_bit : ℕ → ℕ → ℕ → Bool → Bool
kept_bit b k j on = agree (bit_and (put_bit k on b) (1 <<< j) != 0) (bit_after b k j on)

abbrev kept_code : Bool → ℕ → Bool
kept_code on n =
    kept_bit (n / 64) (n / 8 % 8) (n % 8) on && ltb (put_bit (n / 8 % 8) on (n / 64)) 256

kept_codes : (on : Bool) → holds_below (kept_code on) 16384 ≡ true
unfolding put_bit holds_below
kept_codes true = refl
kept_codes false = refl

put_bit-kept :
    (b k j : ℕ) (on : Bool)
    → b < 256
    → k < 8
    → j < 8
    → (kept_bit b k j on && ltb (put_bit k on b) 256) ≡ true
put_bit-kept b k j on p q r =
    let code = b * 64 + k * 8 + j in
    let high : code / 64 ≡ b = omega arith in
    let mid : code / 8 % 8 ≡ k = omega arith in
    let low : code % 8 ≡ j = omega arith in
    rw (high, mid, low) at (holds_below-at (kept_code on) 16384 code (kept_codes on) (omega arith))

put_bit-bit :
    (b k j : ℕ) (on : Bool)
    → b < 256
    → k < 8
    → j < 8
    → (bit_and (put_bit k on b) (1 <<< j) != 0) ≡ bit_after b k j on
put_bit-bit b k j on p q r =
    agree-eq (bit_and (put_bit k on b) (1 <<< j) != 0) (bit_after b k j on)
      (both (kept_bit b k j on) (ltb (put_bit k on b) 256) (put_bit-kept b k j on p q r)).0

put_bit-byte : (b k : ℕ) (on : Bool) → b < 256 → k < 8 → put_bit k on b < 256
put_bit-byte b k on p q =
    ltb→lt (put_bit k on b) 256
      (both (kept_bit b k 0 on) (ltb (put_bit k on b) 256)
        (put_bit-kept b k 0 on p q (omega arith))).1

-- An image: its 160 bytes.
pub record IsImage (image : List ℕ) : Type 0 where
  pub size : length image ≡ image_bytes
  pub bytes : IsBytes image

pub byte_at-lt : (bs : List ℕ) (i : ℕ) → IsBytes bs → byte_at bs i < 256
byte_at-lt [] i h = omega arith
byte_at-lt (b ∷ bs) zero h = h.0
byte_at-lt (b ∷ bs) (suc i) h = byte_at-lt bs i h.1

set-IsBytes : (bs : List ℕ) (i v : ℕ) → IsBytes bs → v < 256 → IsBytes (set bs i v)
set-IsBytes [] i v h k = h
set-IsBytes (b ∷ bs) zero v h k = (k, h.1)
set-IsBytes (b ∷ bs) (suc i) v h k = (h.0, set-IsBytes bs i v h.1 k)

pub plot-IsImage :
    (px py : ℕ) (on : Bool) (image : List ℕ) → IsImage image → IsImage (plot px py on image)
unfolding plot
plot-IsImage px py on image h =
    let at = py * row_bytes + px / 8 in
    let byte = put_bit (px % 8) on (byte_at image at) in
    let fits : byte < 256 =
      put_bit-byte (byte_at image at) (px % 8) on (byte_at-lt image at h.bytes) (omega arith) in
    elim (Bool-cases (leb rows py)) [
      | inl e ↦ rw e h
      | inr e ↦ elim (Bool-cases (leb row_bytes (px / 8))) [
        | inl f ↦ rw (e, f) h
        | inr f ↦
            rw (e, f)
              (record {
                size = length-set image at byte ∙ h.size;
                bytes = set-IsBytes image at byte h.bytes fits;
              })
      ]
    ]

-- The bit `j` of one byte of an image, after the bit `k` of a byte is put.
cell_bit :
    (image : List ℕ) (at k to j : ℕ) (on : Bool)
    → IsImage image
    → at < 160
    → k < 8
    → j < 8
    → (bit_and (byte_at (set image at (put_bit k on (byte_at image at))) to) (1 <<< j) != 0)
      ≡ (if (at == to) && (k == j) then on else bit_and (byte_at image to) (1 <<< j) != 0)
cell_bit image at k to j on h a b c =
    let byte = put_bit k on (byte_at image at) in
    let size : length image ≡ 160 = h.size in
    elim (Bool-cases (at == to)) [
      | inl e ↦
          let here : at ≡ to = ground arith in
          let read : byte_at (set image at byte) to ≡ byte =
            ap (λ (i : ℕ). byte_at (set image at byte) i) (sym here)
            ∙ get_or-set_self image at byte 0 (omega arith) in
          rw (e, read)
            (put_bit-bit (byte_at image at) k j on (byte_at-lt image at h.bytes) b c
              ∙ ap (λ (i : ℕ). bit_after (byte_at image i) k j on) here)
      | inr e ↦ rw (e, get_or-set_ne image at to byte 0 (==-ne at to e)) refl
    ]

-- One pixel of an image after another, or the same one, is plotted.
pub plot-bit :
    (px py qx qy : ℕ) (on : Bool) (image : List ℕ)
    → IsImage image
    → px < 80
    → py < 16
    → qx < 80
    → qy < 16
    → bit_of (plot px py on image) qy qx
      ≡ (if (px == qx) && (py == qy) then on else bit_of image qy qx)
unfolding plot bit_of
plot-bit px py qx qy on image h a b c d =
    let at = py * row_bytes + px / 8 in
    let to = qy * row_bytes + qx / 8 in
    let inside : leb rows py ≡ false = ground arith in
    let narrow : leb row_bytes (px / 8) ≡ false = ground arith in
    let place : ((at == to) && (px % 8 == qx % 8)) ≡ ((px == qx) && (py == qy)) = ground arith in
    rw (inside, narrow, ← place)
      (cell_bit image at (px % 8) to (qx % 8) on h (omega arith) (omega arith) (omega arith))

-- The images of a panel that fits the registers.
pub record IsPanel (d : Panel) : Type 0 where
  pub width : d.width ≤ 80
  pub height : d.height ≤ 14
  pub first : IsImage d.first
  pub second : IsImage d.second

pub hidden-with_hidden : (image : List ℕ) (d : Panel) → hidden (with_hidden image d) ≡ image
unfolding with_hidden
hidden-with_hidden image d = elim (Bool-cases d.front) [ inl e ↦ rw e refl | inr e ↦ rw e refl ]

pub shown-with_hidden : (image : List ℕ) (d : Panel) → shown (with_hidden image d) ≡ shown d
unfolding with_hidden
shown-with_hidden image d = elim (Bool-cases d.front) [ inl e ↦ rw e refl | inr e ↦ rw e refl ]

pub with_hidden-IsPanel :
    (image : List ℕ) (d : Panel) → IsPanel d → IsImage image → IsPanel (with_hidden image d)
unfolding with_hidden
with_hidden-IsPanel image d h k = elim (Bool-cases d.front) [
  | inl e ↦ rw e (record { width = h.width; height = h.height; first = k; second = h.second })
  | inr e ↦ rw e (record { width = h.width; height = h.height; first = h.first; second = k })
]

pub hidden-IsImage : (d : Panel) → IsPanel d → IsImage (hidden d)
hidden-IsImage d h = elim (Bool-cases d.front) [ inl e ↦ rw e h.first | inr e ↦ rw e h.second ]

pub shown-IsImage : (d : Panel) → IsPanel d → IsImage (shown d)
shown-IsImage d h = elim (Bool-cases d.front) [ inl e ↦ rw e h.second | inr e ↦ rw e h.first ]

-- The pixel at a column and a row of a panel.
abbrev pub pixel_of : List ℕ → ℕ → ℕ → Bool
pixel_of image x y = bit_of image (map_y y) (map_x x)

-- A pixel that is drawn is in the image that is not shown, where its place is on the panel, and every
-- other pixel of that image stays.
pub draw_pixel-pixel :
    (d : Panel) (x y u v : ℕ) (on : Bool)
    → IsPanel d
    → u < d.width
    → v < d.height
    → pixel_of (hidden (draw_pixel (pos x) (pos y) on d)) u v
      ≡ (if (x == u) && (y == v) then on else pixel_of (hidden d) u v)
unfolding draw_pixel
draw_pixel-pixel d x y u v on h c e =
    let wide = h.width in
    let high = h.height in
    let drawn = with_hidden (plot (map_x x) (map_y y) on (hidden d)) d in
    elim (Bool-cases (leb d.width x || leb d.height y)) [
      | inl out ↦
          let off : ((x == u) && (y == v)) ≡ false = ground arith in
          rw (if_true d drawn out, off) refl
      | inr on_it ↦
          let in_x : x < d.width = ground arith in
          let in_y : y < d.height = ground arith in
          let place : ((map_x x == map_x u) && (map_y y == map_y v)) ≡ ((x == u) && (y == v)) =
            ground arith in
          rw
            (
              if_false d drawn on_it,
              hidden-with_hidden (plot (map_x x) (map_y y) on (hidden d)) d,
              ← place,
            )
            (plot-bit (map_x x) (map_y y) (map_x u) (map_y v) on (hidden d) (hidden-IsImage d h)
              (omega arith) (omega arith) (omega arith) (omega arith))
    ]

-- No pixel that is drawn, on the panel or past its edges, changes the image that is shown.
pub draw_pixel-shown : (x y : ℤ) (on : Bool) (d : Panel) → shown (draw_pixel x y on d) ≡ shown d
unfolding draw_pixel
draw_pixel-shown (negsuc x) y on d = refl
draw_pixel-shown (pos x) (negsuc y) on d = refl
draw_pixel-shown (pos x) (pos y) on d = elim (Bool-cases (leb d.width x || leb d.height y)) [
  | inl e ↦ rw e refl
  | inr e ↦ rw e (shown-with_hidden (plot (map_x x) (map_y y) on (hidden d)) d)
]

pub draw_pixel-IsPanel :
    (x y : ℤ) (on : Bool) (d : Panel) → IsPanel d → IsPanel (draw_pixel x y on d)
unfolding draw_pixel
draw_pixel-IsPanel (negsuc x) y on d h = h
draw_pixel-IsPanel (pos x) (negsuc y) on d h = h
draw_pixel-IsPanel (pos x) (pos y) on d h = elim (Bool-cases (leb d.width x || leb d.height y)) [
  | inl e ↦ rw e h
  | inr e ↦ rw e (
      with_hidden-IsPanel (plot (map_x x) (map_y y) on (hidden d)) d h
        (plot-IsImage (map_x x) (map_y y) on (hidden d) (hidden-IsImage d h)))
]
