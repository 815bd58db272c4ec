-- ===== src/Display/Anim/Source.antt =====
-- The source of an animation: every draw reads inside its buffer.
use telegraph_stm_fw.Base.{
  ℕ, ◌+◌, ◌*◌, ◌≤◌, ◌≡◌, ◌≢◌, refl, sym, subst, ◌∙◌, List, [], ◌∷◌, length, length-append,
  length-take, length-drop, length-replicate, take, drop, Bool, Bool-cases, true, false, not, inl,
  inr, ◌&&◌, ◌||◌, ◌==◌, ◌!=◌, ltb, if◌then◌else◌, if_both, Option, none, some, u16, arith, ◌++◌,
}
use native.Mathlib.Nat.{mul-le-mul_left, mul-le-mul_right}
use telegraph_stm_fw.Ipc.Wire.{get_u32}
use telegraph_stm_fw.Server.Assets.{anim_dir, anim_ext, asset_path}
use telegraph_stm_fw.Server.Board.{Animation, Animated}
use telegraph_stm_fw.Panel.{Panel}
use telegraph_stm_fw.Font.{Font}
use telegraph_stm_fw.Font.Render.Size.{length-render_text}
use telegraph_stm_fw.Display.Anim.Draws.{anim_draw-behind}
use telegraph_stm_fw.Display.Anim.{
  Anim, stride_of, anim_draw, no_anim, tick_ms, due, move, anim_tick, display_animstop,
  display_animspeed, overlay, source_buf, start, show_source, text_source, sprite_source,
  show_sprite, show_opened, show_path, animate_file, display_animate,
}

-- The source of an animation that runs fits its buffer.
pub record Sourced (a : Anim) : Type 0 where
  pub wide : 1 ≤ a.srcw
  pub high : 1 ≤ a.srch
  pub fits : stride_of a.srcw * a.srch ≤ length a.src

abbrev pub If : Bool → Type 0 → Type 0
If true P = P
If false P = Unit

pub record IsAnim (most : ℕ) (a : Anim) : Type 0 where
  pub size : length a.src ≡ most
  pub runs : If a.active (Sourced a)

length-overlay :
    (bytes buf : List ℕ) → length bytes ≤ length buf → length (overlay bytes buf) ≡ length buf
unfolding overlay
length-overlay bytes buf h =
    omega (arith, length-append bytes (drop (length bytes) buf), length-drop (length bytes) buf)

-- The source of a request, once its size is known.
start-IsAnim :
    (most : ℕ) (r : Animation) (buf : List ℕ) (a : Anim) (d : Panel)
    → most ≤ 512
    → length buf ≡ most
    → r.srcw ≢ 0
    → r.srch ≢ 0
    → stride_of r.srcw * r.srch ≤ most
    → IsAnim most (start r buf a d).1.0
unfolding start
start-IsAnim most r buf a d small size wide high fits =
    let cols : stride_of r.srcw * 1 ≤ stride_of r.srcw * r.srch =
      mul-le-mul_left (stride_of r.srcw) (omega arith) in
    let lines : 1 * r.srch ≤ stride_of r.srcw * r.srch = mul-le-mul_right r.srch (omega arith) in
    let whole_w : u16 r.srcw ≡ r.srcw = omega arith in
    let whole_h : u16 r.srch ≡ r.srch = omega arith in
    record {
      size = size;
      runs =
          rw (whole_w, whole_h)
            (record { wide = omega arith; high = omega arith; fits = omega arith });
    }

length-source_buf :
    (font : Font) (r : Animation) (buf : List ℕ)
    → stride_of r.srcw * r.srch ≤ length buf
    → length (source_buf font r buf) ≡ length buf
unfolding source_buf
length-source_buf font r buf fits =
    let need = stride_of r.srcw * r.srch in
    let copied = if ltb (length r.src) need then length r.src else need in
    let sent = length-take copied r.src in
    elim (Bool-cases r.text) [
      | inl e ↦ rw e (length-render_text font r.srcw r.srch r.src buf fits)
      | inr e ↦ elim (Bool-cases r.file) [
        | inl f ↦ rw (e, f) refl
        | inr f ↦ rw (e, f) (length-overlay (take copied r.src) buf (ground arith))
      ]
    ]

show_source-IsAnim :
    (font : Font) (most : ℕ) (r : Animation) (a : Anim) (d : Panel)
    → most ≤ 512
    → IsAnim most a
    → IsAnim most (show_source font most r a d).1.0
unfolding show_source
show_source-IsAnim font most r a d small h =
    let need = stride_of r.srcw * r.srch in
    let buf = source_buf font r a.src in
    let size = h.size in
    elim (Bool-cases (r.srcw == 0 || r.srch == 0)) [
      | inl e ↦ rw e h
      | inr e ↦ elim (Bool-cases (ltb most need)) [
        | inl f ↦ rw (e, f) h
        | inr f ↦
            rw (e, f)
              (start-IsAnim most r buf a d small
                (length-source_buf font r a.src (ground arith) ∙ size) (ground arith) (ground arith)
                (ground arith))
      ]
    ]

-- The operations of the board on an animation.
filled-IsAnim :
    (most : ℕ) (a : Anim) (bytes : List ℕ)
    → IsAnim most a
    → length bytes ≤ most
    → IsAnim most (record a { src = overlay bytes a.src })
filled-IsAnim most a bytes h fits =
    let size = h.size in
    let same = length-overlay bytes a.src (omega arith) in
    record { size = same ∙ size; runs = kept a.active h.runs same }
  where
    kept :
        (on : Bool)
        → If on (Sourced a)
        → length (overlay bytes a.src) ≡ length a.src
        → If on (Sourced (record a { src = overlay bytes a.src }))
    kept true r same = record {
      wide = r.wide;
      high = r.high;
      fits = subst (λ (n : ℕ). stride_of a.srcw * a.srch ≤ n) (sym same) r.fits;
    }
    kept false r same = tt

move-IsAnim : (most : ℕ) (a : Anim) → IsAnim most a → IsAnim most (move a)
unfolding move
move-IsAnim most a h = record { size = h.size; runs = kept a.active h.runs }
  where
    kept : (on : Bool) → If on (Sourced a) → If on (Sourced (move a))
    kept true r = record { wide = r.wide; high = r.high; fits = r.fits }
    kept false r = tt

waited-IsAnim : (most n : ℕ) (a : Anim) → IsAnim most a → IsAnim most (record a { elapsed_ms = n })
waited-IsAnim most n a h = record { size = h.size; runs = kept a.active h.runs }
  where
    kept : (on : Bool) → If on (Sourced a) → If on (Sourced (record a { elapsed_ms = n }))
    kept true r = record { wide = r.wide; high = r.high; fits = r.fits }
    kept false r = tt

due-IsAnim : (most : ℕ) (a : Anim) → IsAnim most a → IsAnim most (due a).0
unfolding due
due-IsAnim most a h =
    let next = waited-IsAnim most (u16 (a.elapsed_ms + tick_ms)) a h in
    if_both (λ (o : Anim × Bool). IsAnim most o.0) (not a.active) h
      (if_both (λ (o : Anim × Bool). IsAnim most o.0)
        (ltb (u16 (a.elapsed_ms + tick_ms)) a.period_ms) next
        (move-IsAnim most (record a { elapsed_ms = u16 (a.elapsed_ms + tick_ms) }) next))

display_animspeed-IsAnim :
    (most p n : ℕ) (a : Anim) → IsAnim most a → IsAnim most (display_animspeed p n a).1
unfolding display_animspeed
display_animspeed-IsAnim most p n a h =
    if_both (λ (o : Bool × Anim). IsAnim most o.1) (not a.active || p == 0) h
      (record { size = h.size; runs = kept a.active h.runs })
  where
    kept :
        (on : Bool)
        → If on (Sourced a)
        → If on (
            Sourced
              (record a { period_ms = p; step = if ltb 0 n then n else a.step; elapsed_ms = 0 }))
    kept true r = record { wide = r.wide; high = r.high; fits = r.fits }
    kept false r = tt

module _ {File : Type 0} (open_file : List ℕ → Option File) (read : ℕ → File → List ℕ × File) where
  show_sprite-IsAnim :
      ((n : ℕ) (file : File) → length (read n file).0 ≤ n)
      → (font : Font) (most : ℕ) (r : Animation) (file : File) (a : Anim) (d : Panel) → most ≤ 512
      → IsAnim most a
      → IsAnim most (show_sprite open_file read font most r file a d).1.0
  unfolding show_sprite
  show_sprite-IsAnim short font most r file a d small h =
      let head = read 10 file in
      let s = sprite_source head.0 r in
      let want = stride_of s.srcw * s.srch in
      let got = read want head.1 in
      let taken = short want head.1 in
      elim (Bool-cases (length head.0 != 10 || get_u32 head.0 != 0x31534754)) [
        | inl e ↦ rw e h
        | inr e ↦
            elim (Bool-cases ((s.srcw == 0 || s.srch == 0) || (s.step == 0 || ltb most want))) [
              | inl f ↦ rw (e, f) h
              | inr f ↦
                  let filled = filled-IsAnim most a got.0 h (ground arith) in
                  elim (Bool-cases (length got.0 != want)) [
                    | inl g ↦ rw (e, f, g) filled
                    | inr g ↦
                        rw (e, f, g)
                          (show_source-IsAnim font most s (record a { src = overlay got.0 a.src }) d
                            small filled)
                  ]
            ]
      ]

  show_opened-IsAnim :
      ((n : ℕ) (file : File) → length (read n file).0 ≤ n)
      → (font : Font) (most : ℕ) (r : Animation) (o : Option File) (a : Anim) (d : Panel)
      → most ≤ 512
      → IsAnim most a
      → IsAnim most (show_opened open_file read font most r o a d).1.0
  unfolding show_opened
  show_opened-IsAnim short font most r none a d small h = h
  show_opened-IsAnim short font most r (some file) a d small h =
      show_sprite-IsAnim short font most r file a d small h

  show_path-IsAnim :
      ((n : ℕ) (file : File) → length (read n file).0 ≤ n)
      → (font : Font) (most : ℕ) (r : Animation) (o : Option (List ℕ)) (a : Anim) (d : Panel)
      → most ≤ 512
      → IsAnim most a
      → IsAnim most (show_path open_file read font most r o a d).1.0
  unfolding show_path
  show_path-IsAnim short font most r none a d small h = h
  show_path-IsAnim short font most r (some path) a d small h =
      show_opened-IsAnim short font most r (open_file path) a d small h

  display_animate-IsAnim :
      ((n : ℕ) (file : File) → length (read n file).0 ≤ n)
      → (font : Font) (most : ℕ) (r : Animation) (a : Anim) (d : Panel) → most ≤ 512
      → IsAnim most a
      → IsAnim most (display_animate open_file read font most r a d).1.0
  unfolding display_animate animate_file
  display_animate-IsAnim short font most r a d small h =
      let Good : Animated × (Anim × Panel) → Type 0 =
        λ (o : Animated × (Anim × Panel)). IsAnim most o.1.0 in
      if_both Good
        (r.period_ms == 0
          || ((r.step == 0 && not r.file) || ((r.w == 0 || r.h == 0) && not r.file)))
        h
        (if_both Good r.file
          (show_path-IsAnim short font most r (asset_path 64 anim_dir r.src anim_ext) a d small h)
          (if_both Good r.text (show_source-IsAnim font most (text_source font r) a d small h)
            (show_source-IsAnim font most r a d small h)))

  -- What the board does with the animation of a panel.
  pub data Event : Type 0 where
    request : Font → Animation → Event
    tick : Event
    speed : ℕ → ℕ → Event
    stop : Event

  unfoldable pub event : ℕ → Event → Anim × Panel → Anim × Panel
  event most (request font r) s = (display_animate open_file read font most r s.0 s.1).1
  event most tick s = anim_tick s.0 s.1
  event most (speed p n) s = ((display_animspeed p n s.0).1, s.1)
  event most stop s = (display_animstop s.0, s.1)

  unfoldable pub events : ℕ → List Event → Anim × Panel → Anim × Panel
  events most [] s = s
  events most (t ∷ ts) s = events most ts (event most t s)

  event-IsAnim :
      ((n : ℕ) (file : File) → length (read n file).0 ≤ n)
      → (most : ℕ) (t : Event) (s : Anim × Panel) → most ≤ 512
      → IsAnim most s.0
      → IsAnim most (event most t s).0
  unfolding event anim_tick display_animstop
  event-IsAnim short most (request font r) s small h =
      display_animate-IsAnim short font most r s.0 s.1 small h
  event-IsAnim short most tick s small h = due-IsAnim most s.0 h
  event-IsAnim short most (speed p n) s small h = display_animspeed-IsAnim most p n s.0 h
  event-IsAnim short most stop s small h = record { size = h.size; runs = tt }

  events-IsAnim :
      ((n : ℕ) (file : File) → length (read n file).0 ≤ n)
      → (most : ℕ) (ts : List Event) (s : Anim × Panel) → most ≤ 512
      → IsAnim most s.0
      → IsAnim most (events most ts s).0
  unfolding events
  events-IsAnim short most [] s small h = h
  events-IsAnim short most (t ∷ ts) s small h =
      events-IsAnim short most ts (event most t s) small (event-IsAnim short most t s small h)

  -- After any sequence of requests, ticks, changes of speed and stops from the reset, the buffer of
  -- the panel has its size, and a draw of a running animation on any panel is the same whatever bytes
  -- lie behind the buffer.
  pub events-InSource :
      ((n : ℕ) (file : File) → length (read n file).0 ≤ n)
      → (most : ℕ) (ts : List Event) (d shown : Panel) (behind : List ℕ) → most ≤ 512
      → (events most ts (no_anim most, d)).0.active ≡ true
      → let a = (events most ts (no_anim most, d)).0 in
        (length a.src ≡ most)
        × (anim_draw (record a { src = a.src ++ behind }) shown ≡ anim_draw a shown)
  events-InSource short most ts d shown behind small on =
      let a = (events most ts (no_anim most, d)).0 in
      let h =
        events-IsAnim short most ts (no_anim most, d) small
          (record { size = length-replicate most 0; runs = tt }) in
      let sourced : Sourced a = subst (λ (b : Bool). If b (Sourced a)) on h.runs in
      (h.size, anim_draw-behind a behind shown sourced.fits)
