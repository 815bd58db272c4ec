-- ===== src/Panel/Frames.antt =====
-- The two images of a panel between a writer and the scan: begin, edits, commit, and the swap that
-- the interrupt of the rows makes between them.
use telegraph_stm_fw.Base.{
  ℕ, ◌≡◌, refl, sym, ap, ◌∙◌, List, [], ◌∷◌, replicate, Bool, true, false, not, Bool-cases, inl,
  inr, subst, if_true, if_false, if◌then◌else◌, leb, ◌||◌,
}
use telegraph_stm_fw.Base.Int.{ℤ, pos, negsuc}
use telegraph_stm_fw.Panel.{
  Panel, image_bytes, shown, hidden, with_hidden, begin, swap_now, clear, plot, draw_pixel, map_x,
  map_y,
}
use telegraph_stm_fw.Panel.Pixels.{hidden-with_hidden, shown-with_hidden}

-- What a writer does to an image between sm1626d_begin and sm1626d_commit.
pub data Edit : Type 0 where
  pixel : ℤ → ℤ → Bool → Edit
  wipe : Edit

unfoldable pub edit : Edit → Panel → Panel
edit (pixel x y on) d = draw_pixel x y on d
edit wipe d = clear d

-- What the edit does to an image of a panel of some width and height.
unfoldable pub painted : ℕ → ℕ → Edit → List ℕ → List ℕ
painted w h (pixel (pos x) (pos y) on) image =
    if leb w x || leb h y then image else plot (map_x x) (map_y y) on image
painted w h (pixel (pos x) (negsuc y) on) image = image
painted w h (pixel (negsuc x) y on) image = image
painted w h wipe image = replicate image_bytes 0

-- A run of edits, and the interrupt at any place among them.
pub data Step : Type 0 where
  by_writer : Edit → Step
  by_scan : Step

unfoldable pub run : List Step → Panel → Panel
run [] d = d
run (by_writer e ∷ steps) d = run steps (edit e d)
run (by_scan ∷ steps) d = run steps (swap_now d)

-- The edits of a run, applied to an image.
unfoldable pub paint : ℕ → ℕ → List Step → List ℕ → List ℕ
paint w h [] image = image
paint w h (by_writer e ∷ steps) image = paint w h steps (painted w h e image)
paint w h (by_scan ∷ steps) image = paint w h steps image

-- The state that a run of edits leaves where no image waits for the scan.
pub record Painted (d r : Panel) (image : List ℕ) : Type 0 where
  pub front : r.front ≡ d.front
  pub swap : r.swap ≡ d.swap
  pub dirty : r.dirty ≡ d.dirty
  pub width : r.width ≡ d.width
  pub height : r.height ≡ d.height
  pub shown : shown r ≡ shown d
  pub hidden : hidden r ≡ image

kept :
    {A : Type 0} (f : Panel → A) (image : List ℕ) (d : Panel)
    → f (record d { first = image }) ≡ f d
    → f (record d { second = image }) ≡ f d
    → f (with_hidden image d) ≡ f d
unfolding with_hidden
kept f image d p q = elim (Bool-cases d.front) [
  | inl e ↦ ap f (if_true (record d { first = image }) (record d { second = image }) e) ∙ p
  | inr e ↦ ap f (if_false (record d { first = image }) (record d { second = image }) e) ∙ q
]

with_hidden-Painted : (image : List ℕ) (d : Panel) → Painted d (with_hidden image d) image
with_hidden-Painted image d = record {
  front = kept (λ (p : Panel). p.front) image d refl refl;
  swap = kept (λ (p : Panel). p.swap) image d refl refl;
  dirty = kept (λ (p : Panel). p.dirty) image d refl refl;
  width = kept (λ (p : Panel). p.width) image d refl refl;
  height = kept (λ (p : Panel). p.height) image d refl refl;
  shown = shown-with_hidden image d;
  hidden = hidden-with_hidden image d;
}

pub unpainted : (d : Panel) → Painted d d (hidden d)
unpainted d = record {
  front = refl;
  swap = refl;
  dirty = refl;
  width = refl;
  height = refl;
  shown = refl;
  hidden = refl;
}

pub Painted-after : (d r s : Panel) (a b : List ℕ) → Painted d r a → Painted r s b → Painted d s b
Painted-after d r s a b h k = record {
  front = k.front ∙ h.front;
  swap = k.swap ∙ h.swap;
  dirty = k.dirty ∙ h.dirty;
  width = k.width ∙ h.width;
  height = k.height ∙ h.height;
  shown = k.shown ∙ h.shown;
  hidden = k.hidden;
}

pub edit-Painted :
    (e : Edit) (d : Panel) → Painted d (edit e d) (painted d.width d.height e (hidden d))
unfolding edit painted draw_pixel clear
edit-Painted (pixel (pos x) (pos y) on) d = elim (Bool-cases (leb d.width x || leb d.height y)) [
  | inl e ↦ rw e (unpainted d)
  | inr e ↦ rw e (with_hidden-Painted (plot (map_x x) (map_y y) on (hidden d)) d)
]
edit-Painted (pixel (pos x) (negsuc y) on) d = unpainted d
edit-Painted (pixel (negsuc x) y on) d = unpainted d
edit-Painted wipe d = with_hidden-Painted (replicate image_bytes 0) d

begin_clean :
    (d : Panel) → d.dirty ≡ false → begin d ≡ record (with_hidden (shown d) d) { dirty = true }
unfolding begin
begin_clean d = if_false d (record (with_hidden (shown d) d) { dirty = true })

pub begin_dirty : (d : Panel) → d.dirty ≡ true → begin d ≡ d
unfolding begin
begin_dirty d = if_true d (record (with_hidden (shown d) d) { dirty = true })

swap_idle : (d : Panel) → d.swap ≡ false → swap_now d ≡ d
unfolding swap_now
swap_idle d = if_false (record d { front = not d.front; swap = false; dirty = false }) d

pub swap_due :
    (d : Panel)
    → d.swap ≡ true
    → swap_now d ≡ record d { front = not d.front; swap = false; dirty = false }
unfolding swap_now
swap_due d = if_true (record d { front = not d.front; swap = false; dirty = false }) d

pub same_paint :
    {w v h k : ℕ} {image other : List ℕ} (steps : List Step)
    → w ≡ v
    → h ≡ k
    → image ≡ other
    → paint w h steps image ≡ paint v k steps other
same_paint steps p q r = rw (p, q, r)

-- With no image that waits, the interrupt changes nothing.
pub run-Painted :
    (steps : List Step) (d : Panel)
    → d.swap ≡ false
    → Painted d (run steps d) (paint d.width d.height steps (hidden d))
unfolding run paint
run-Painted [] d idle = unpainted d
run-Painted (by_writer e ∷ steps) d idle =
    let once = edit-Painted e d in
    let rest = run-Painted steps (edit e d) (once.swap ∙ idle) in
    let image = painted d.width d.height e (hidden d) in
    let same : paint (edit e d).width (edit e d).height steps (hidden (edit e d))
        ≡ paint d.width d.height steps image =
      same_paint steps once.width once.height once.hidden in
    Painted-after d (edit e d) (run steps (edit e d)) image (paint d.width d.height steps image)
      once (subst (λ (i : List ℕ). Painted (edit e d) (run steps (edit e d)) i) same rest)
run-Painted (by_scan ∷ steps) d idle =
    subst (λ (p : Panel). Painted d (run steps p) (paint d.width d.height steps (hidden d)))
      (sym (swap_idle d idle)) (run-Painted steps d idle)

pub shown_swapped : (d : Panel) → d.swap ≡ true → shown (swap_now d) ≡ hidden d
shown_swapped d h =
    ap (λ (p : Panel). shown p) (swap_due d h)
    ∙ elim (Bool-cases d.front) [ inl e ↦ rw e refl | inr e ↦ rw e refl ]

pub hidden_swapped : (d : Panel) → d.swap ≡ true → hidden (swap_now d) ≡ shown d
hidden_swapped d h =
    ap (λ (p : Panel). hidden p) (swap_due d h)
    ∙ elim (Bool-cases d.front) [ inl e ↦ rw e refl | inr e ↦ rw e refl ]

-- What a begin leaves where no change is open.
pub begin-Painted :
    (d : Panel) → d.dirty ≡ false → Painted d (record (begin d) { dirty = d.dirty }) (shown d)
begin-Painted d clean =
    subst (λ (p : Panel). Painted d (record p { dirty = d.dirty }) (shown d))
      (sym (begin_clean d clean)) (with_hidden_undone (with_hidden-Painted (shown d) d))
  where
    with_hidden_undone :
        {r : Panel} {image : List ℕ}
        → Painted d r image
        → Painted d (record r { dirty = d.dirty }) image
    with_hidden_undone h = record {
      front = h.front;
      swap = h.swap;
      dirty = refl;
      width = h.width;
      height = h.height;
      shown = h.shown;
      hidden = h.hidden;
    }
