-- ===== src/Ota/Image/Burned.antt =====
-- What write_image leaves in the flash.
use telegraph_stm_fw.Base.{
  ℕ, zero, suc, ◌+◌, ◌-◌, ◌^◌, ◌≤◌, ◌<◌, ◌≡◌, ◌≢◌, refl, sym, subst, ap, ◌∙◌, List, [], ◌∷◌, ◌++◌,
  Option, some, Bool, true, length, byte_at, take, drop, length-take, length-drop, drop-drop,
  get_or-drop, leb, ltb, ◌==◌, not, inl, inr, Bool-cases, if_split, arith,
}
use telegraph_stm_fw.Broker.Engine.{Engine}
use telegraph_stm_fw.Ota.{Ota}
use telegraph_stm_fw.Ota.Kept.{IsApart}
use telegraph_stm_fw.Ota.Bootloader.{an_write, an_write_code, command_bytes, head_bytes, body_bytes}
use telegraph_stm_fw.Ota.Bootloader.Write.{an_write-Written}
use telegraph_stm_fw.Ota.Image.{image_loop, padded, flash_origin, chunk_max}
use telegraph_stm_fw.Ota.Image.Burn.{
  burn, burn-write, overlay, overlay-inside, overlay-below, pad_loop-length, pad_loop-prefix,
  padded-whole,
}

-- A file that is read through the descriptor `fd`, from a place on: a read of it takes what it asks
-- for as far as there is more, and nothing else moves the place.
pub record IsImage (e : Engine) (fd : ℕ) (file : e.World → List ℕ) : Type 0 where
  pub apart : IsApart e fd file
  pub own : (n : ℕ) (w : e.World) → (e.read fd n w).0 ≡ take n (file w)
  pub own_rest : (n : ℕ) (w : e.World) → file (e.read fd n w).1 ≡ drop n (file w)
  pub opens : (path : List ℕ) (w : e.World) → file (e.open_write path w).1 ≡ file w
  pub fresh : (path : List ℕ) (w : e.World) (o : ℕ) → (e.open_write path w).0 ≡ some o → o ≢ fd
  pub closes : (o : ℕ) (w : e.World) → o ≢ fd → file (e.close o w) ≡ file w

take_byte : (n j : ℕ) (xs : List ℕ) → j < n → byte_at (take n xs) j ≡ byte_at xs j
take_byte zero j xs h = absurd (omega arith)
take_byte (suc n) j [] h = refl
take_byte (suc n) zero (x ∷ xs) h = refl
take_byte (suc n) (suc j) (x ∷ xs) h = take_byte n j xs (omega arith)

drop-length-take : (n : ℕ) (xs : List ℕ) → drop n xs ≡ drop (length (take n xs)) xs
drop-length-take zero xs = refl
drop-length-take (suc n) [] = refl
drop-length-take (suc n) (x ∷ xs) = drop-length-take n xs

-- Of an image, the first bytes are in the flash that the frames since some others leave.
abbrev pub Burnt : List ℕ → ℕ → List (List ℕ) → List (List ℕ) → Type 0
Burnt image off before lines =
    (written : List (List ℕ)) × (lines ≡ written ++ before)
    × ((i : ℕ) → i < off → burn written (flash_origin + i) ≡ byte_at image i)

-- The next chunk of the image, filled, extends them.
Burnt-write :
    (image : List ℕ) (off : ℕ) (before lines : List (List ℕ))
    → let got = take chunk_max (drop off image) in
      1 ≤ length got
      → flash_origin + off < 2 ^ 32
      → Burnt image off before lines
      → Burnt image (off + length got) before (
          body_bytes (padded got)
          ∷ head_bytes (flash_origin + off)
          ∷ command_bytes an_write_code
          ∷ lines)
unfolding padded
Burnt-write image off before lines some_ room (written, split, kept) =
    let got = take chunk_max (drop off image) in
    let all = length-take chunk_max (drop off image) in
    let (longer, fits) = pad_loop-length 3 got (omega (arith, all)) in
    let frames =
      body_bytes (padded got)
      ∷ head_bytes (flash_origin + off)
      ∷ command_bytes an_write_code
      ∷ written in
    let flashed = λ (i : ℕ).
      burn-write (padded got) (flash_origin + off) written (flash_origin + i)
        (omega (arith, longer, some_)) fits room in
    (
      frames,
      ap
          (λ (t : List (List ℕ)).
            body_bytes (padded got)
            ∷ head_bytes (flash_origin + off)
            ∷ command_bytes an_write_code
            ∷ t)
          split,
      λ i h.
          let j = i - off in
          elim (Bool-cases (ltb i off)) [
            | inl old ↦
                flashed i
                ∙ overlay-below (flash_origin + off) (flash_origin + i) (padded got) (burn written)
                    (ground arith)
                ∙ kept i (ground arith)
            | inr new ↦
                let in_chunk : j < length got = ground arith in
                let place : flash_origin + i ≡ flash_origin + off + j = ground arith in
                let at_image : off + j ≡ i = ground arith in
                flashed i
                ∙ ap (λ (a : ℕ). overlay (flash_origin + off) (padded got) (burn written) a) place
                ∙ overlay-inside (flash_origin + off) j (padded got) (burn written)
                    (omega (arith, in_chunk, longer))
                ∙ pad_loop-prefix 3 got j in_chunk
                ∙ take_byte chunk_max j (drop off image) (omega (arith, in_chunk, all))
                ∙ get_or-drop off j image 0
                ∙ ap (λ (n : ℕ). byte_at image n) at_image
          ],
    )

module _ (e : Engine) (fd : ℕ) (file : e.World → List ℕ) (image : IsImage e fd file) where
  open e use {World}

  -- Where the loop stands: the place in the file, and the address of the next write.
  abbrev pub Stands : List ℕ → ℕ → Ota World → Type 0
  Stands bytes off o =
      (o.rsp ≢ fd)
      × (file o.world ≡ drop off bytes)
      × (off < length bytes → o.addr ≡ flash_origin + off)

  -- A round that writes moves both to the next chunk.
  round-Stands :
      (bytes : List ℕ) (off : ℕ) (before : List (List ℕ)) (o : Ota World)
      → let got = e.read fd chunk_max o.world in
        let wrote = an_write e (padded got.0) (record o { world = got.1 }) in
        off < length bytes
        → flash_origin + length bytes < 2 ^ 32
        → wrote.0 ≡ true
        → Stands bytes off o
        → Burnt bytes off before o.lines
        → Stands bytes (off + length got.0) (wrote.1)
          × Burnt bytes (off + length got.0) before (wrote.1).lines
          × (off + length got.0 ≤ length bytes)
          × (1 ≤ length got.0)
  round-Stands bytes off before o early room ok (other, at_file, at_addr) burnt =
      let got = e.read fd chunk_max o.world in
      let chunk = take chunk_max (drop off bytes) in
      let same : got.0 ≡ chunk =
        image.own chunk_max o.world ∙ ap (λ (t : List ℕ). take chunk_max t) at_file in
      let size = ap (λ (t : List ℕ). length t) same in
      let all = length-take chunk_max (drop off bytes) in
      let left = length-drop off bytes in
      let start = at_addr early in
      let (w_rsp, w_lines, w_addr, w_file) =
        an_write-Written e fd file image.apart (padded got.0) (record o { world = got.1 }) other
          ok in
      let frames = λ (c : List ℕ) (addr : ℕ).
        body_bytes (padded c) ∷ head_bytes addr ∷ command_bytes an_write_code ∷ o.lines in
      let burnt_chunk =
        Burnt-write bytes off before o.lines (omega (arith, all, left)) (omega arith) burnt in
      let burnt_got =
        subst (λ (c : List ℕ). Burnt bytes (off + length c) before (frames c (flash_origin + off)))
          (sym same) burnt_chunk in
      let burnt_at =
        subst (λ (a : ℕ). Burnt bytes (off + length got.0) before (frames got.0 a)) (sym start)
          burnt_got in
      (
        (
          λ again. other (sym w_rsp ∙ again),
          w_file
              ∙ image.own_rest chunk_max o.world
              ∙ ap (λ (t : List ℕ). drop chunk_max t) at_file
              ∙ drop-length-take chunk_max (drop off bytes)
              ∙ drop-drop (length chunk) off bytes
              ∙ ap (λ (k : ℕ). drop (off + k) bytes) (sym size),
          λ more.
              let whole = padded-whole got.0 (omega (arith, size, all, left, more)) in
              let count = ap (λ (t : List ℕ). length t) whole in
              w_addr ∙ omega (arith, count, start, size, all, left, more),
        ),
        subst (λ (l : List (List ℕ)). Burnt bytes (off + length got.0) before l) (sym w_lines)
            burnt_at,
        omega (arith, size, all, left),
        omega (arith, size, all, left),
      )

  pub image_loop-Burnt :
      (bytes : List ℕ) (before : List (List ℕ)) (fuel off : ℕ) (o o' : Ota World)
      → flash_origin + length bytes < 2 ^ 32
      → off ≤ length bytes
      → Stands bytes off o
      → Burnt bytes off before o.lines
      → image_loop e fuel fd (length bytes) off o ≡ some (true, o')
      → Burnt bytes (length bytes) before o'.lines
  unfolding image_loop
  image_loop-Burnt bytes before zero off o o' room within stands burnt =
      λ done. absurd (ground arith)
  image_loop-Burnt bytes before (suc fuel) off o o' room within stands burnt =
      let got = e.read fd chunk_max o.world in
      let wrote = an_write e (padded got.0) (record o { world = got.1 }) in
      let P = λ (c : Option (Bool × Ota World)).
        c ≡ some (true, o') → Burnt bytes (length bytes) before o'.lines in
      if_split P (leb (length bytes) off)
        (λ over done.
          let end : off ≡ length bytes = ground arith in
          let state : o ≡ o' = cc done in
          subst (λ (n : ℕ). Burnt bytes n before o'.lines) end
            (subst (λ (q : Ota World). Burnt bytes off before q.lines) state burnt))
        λ early.
          if_split P (length got.0 == 0) (λ nothing done. absurd (ground arith))
            λ more.
              if_split P (not wrote.0) (λ bad done. absurd (ground arith))
                λ good done.
                  let (next, next_burnt, next_within, _) =
                    round-Stands bytes off before o (ground arith) room (ground arith) stands
                      burnt in
                  image_loop-Burnt bytes before fuel (off + length got.0) wrote.1 o' room
                    next_within next next_burnt done
