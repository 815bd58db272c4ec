-- ===== src/Font/Width.antt =====
-- The width of a text in pixels.
use telegraph_stm_fw.Base.{
  ℕ, zero, suc, ◌-◌, ◌*◌, ◌^◌, ◌≤◌, ◌<◌, ◌≡◌, refl, ap, ◌∙◌, List, [], ◌∷◌, ◌++◌, length,
  length-append, length-drop, drop, drop-append_length, All, ◌==◌, if◌then◌else◌, arith,
}
use telegraph_stm_fw.Font.{Font, utf8, next, advance, count_loop, text_width}
use telegraph_stm_fw.Font.Utf8.{encode_utf8, utf8-encode_utf8, length-encode_utf8, utf8-InText}

-- The bytes of a text given by its code points.
pub encoded : List ℕ → List ℕ
encoded [] = []
encoded (cp ∷ cps) = encode_utf8 cp ++ encoded cps

-- The loop ends by its own test: any fuel that covers the bytes gives the same count.
pub count_loop-fuel :
    (m n : ℕ) (font : Font) (s : List ℕ)
    → length s ≤ m
    → length s ≤ n
    → count_loop m font s ≡ count_loop n font s
unfolding count_loop next
count_loop-fuel zero zero font s h k = refl
count_loop-fuel zero (suc n) font [] h k = refl
count_loop-fuel (suc m) zero font [] h k = refl
count_loop-fuel (suc m) (suc n) font [] h k = refl
count_loop-fuel zero (suc n) font (b ∷ s) h k = absurd (omega arith)
count_loop-fuel (suc m) zero font (b ∷ s) h k = absurd (omega arith)
count_loop-fuel (suc m) (suc n) font (b ∷ s) h k =
    let used = (utf8 (b ∷ s)).0 in
    let some_used = (utf8-InText b s).0 in
    let left = length-drop used (b ∷ s) in
    ap suc (count_loop-fuel m n font (drop used (b ∷ s)) (omega arith) (omega arith))

count_step :
    (fuel : ℕ) (font : Font) (s : List ℕ)
    → 1 ≤ length s
    → count_loop (suc fuel) font s ≡ suc (count_loop fuel font (drop (utf8 s).0 s))
unfolding count_loop next
count_step fuel font [] h = absurd (omega arith)
count_step fuel font (b ∷ s) h = refl

count_loop-encoded :
    (fuel : ℕ) (font : Font) (cps : List ℕ)
    → All (λ (cp : ℕ). cp < 2 ^ 16) cps
    → length (encoded cps) ≤ fuel
    → count_loop fuel font (encoded cps) ≡ length cps
unfolding count_loop encoded
count_loop-encoded zero font [] small enough = refl
count_loop-encoded (suc fuel) font [] small enough = refl
count_loop-encoded zero font (cp ∷ cps) small enough =
    absurd (omega (arith, length-encode_utf8 cp, length-append (encode_utf8 cp) (encoded cps)))
count_loop-encoded (suc fuel) font (cp ∷ cps) small enough =
    let s = encode_utf8 cp ++ encoded cps in
    let long = length-encode_utf8 cp in
    let sum = length-append (encode_utf8 cp) (encoded cps) in
    let left : drop (utf8 s).0 s ≡ encoded cps =
      ap (λ (u : ℕ × List ℕ). drop u.0 u.1)
        (ap (λ (u : ℕ × ℕ). (u.0, s)) (utf8-encode_utf8 cp (encoded cps) small.0))
      ∙ drop-append_length (encode_utf8 cp) (encoded cps) in
    count_step fuel font s (omega arith)
    ∙ ap suc
        (ap (count_loop fuel font) left ∙ count_loop-encoded fuel font cps small.1 (omega arith))

-- A text of code points of at most 16 bits is as wide as their cells with a gap between two of them.
pub text_width-encoded :
    (font : Font) (cps : List ℕ)
    → All (λ (cp : ℕ). cp < 2 ^ 16) cps
    → text_width font (encoded cps) ≡ (if length cps == 0 then 0 else length cps * advance font - 1)
unfolding text_width
text_width-encoded font cps small =
    rw (count_loop-encoded (length (encoded cps)) font cps small (omega arith)) refl

pub text_width-empty : (font : Font) → text_width font [] ≡ 0
unfolding text_width count_loop
text_width-empty font = refl

-- A character takes at least one byte of a text and none past its end.
pub next-InText :
    (font : Font) (s : List ℕ) → 1 ≤ length s → (1 ≤ (next font s).0) × ((next font s).0 ≤ length s)
unfolding next
next-InText font [] h = absurd (omega arith)
next-InText font (b ∷ s) h = utf8-InText b s
