-- ===== src/Ota/Image/Whole.antt =====
-- The whole of write_image: the reset, the talk before the erase, the erase and the image.
use telegraph_stm_fw.Base.{
  ℕ, ◌+◌, ◌*◌, ◌^◌, ◌<◌, ◌≡◌, ◌≢◌, refl, sym, ap, ◌∙◌, List, [], ◌∷◌, Option, none, some, Bool,
  true, false, length, not, if_split, if◌then◌else◌, arith,
}
use telegraph_stm_fw.Broker.Engine.{Engine}
use telegraph_stm_fw.Ota.{Ota, sent_whole}
use telegraph_stm_fw.Ota.Kept.{Talked-trans}
use telegraph_stm_fw.Ota.Bootloader.{an_sync, an_get_id, an_erase, an_erase_code, command_bytes}
use telegraph_stm_fw.Ota.Bootloader.Kept.{an_sync-Talked, an_get_id-Talked, an_erase-Written}
use telegraph_stm_fw.Ota.Image.{
  pin_write, level_byte, delay_ms, reset_target, gpio_boot0, gpio_nrst, image_loop, imaged,
  write_image, flash_origin, boot0_settle_ms, reset_hold_ms, boot_settle_ms, run_settle_ms,
}
use telegraph_stm_fw.Ota.Image.Burned.{IsImage, Burnt, image_loop-Burnt}

-- The erase and what was given to the line before it.
abbrev erased : List (List ℕ) → List (List ℕ)
erased before = (0xff ∷ 0x00 ∷ []) ∷ command_bytes an_erase_code ∷ before

module _ (e : Engine) (fd : ℕ) (file : e.World → List ℕ) (image : IsImage e fd file) where
  open e use {World}

  pin_write-file :
      (path : List ℕ) (level : Bool) (w : World) → file (pin_write e path level w).1 ≡ file w
  unfolding pin_write
  pin_write-file path level w =
      let opened = e.open_write path w in
      let same = image.opens path w in
      elim opened.0
          as (λ (r : Option ℕ).
            opened.0 ≡ r
            → file
                (elim r as (λ _. Bool × World) [
                  | none ↦ (false, opened.1)
                  | some o ↦
                      let wrote = e.write o (level_byte level) opened.1 in
                      (sent_whole e 1 wrote.0, e.close o wrote.1)
                ]).1
              ≡ file w) [
                | none ↦ λ h. same
                | some o ↦ λ h.
                    image.closes o _ (image.fresh path w o h)
                    ∙ image.apart.writes o (level_byte level) opened.1
                    ∙ same
              ]
        refl

  reset_target-file : (level : Bool) (w : World) → file (reset_target e level w).1 ≡ file w
  unfolding reset_target delay_ms
  reset_target-file level w =
      let boot0 = pin_write e gpio_boot0 level w in
      let w1 = e.nap (boot0_settle_ms * 1000) boot0.1 in
      let low = pin_write e gpio_nrst false w1 in
      let w2 = e.nap (reset_hold_ms * 1000) low.1 in
      let high = pin_write e gpio_nrst true w2 in
      let settle = if level then boot_settle_ms else run_settle_ms in
      let at0 = pin_write-file gpio_boot0 level w in
      let at1 =
        pin_write-file gpio_nrst false w1
        ∙ image.apart.naps (boot0_settle_ms * 1000) boot0.1
        ∙ at0 in
      let at2 =
        pin_write-file gpio_nrst true w2 ∙ image.apart.naps (reset_hold_ms * 1000) low.1 ∙ at1 in
      let P = λ (c : Bool × World). file c.1 ≡ file w in
      if_split P (not boot0.0) (λ bad. at0)
        λ good0.
          if_split P (not low.0) (λ bad. at1)
            λ good1.
              if_split P (not high.0) (λ bad. at2)
                (λ good2. image.apart.naps (settle * 1000) high.1 ∙ at2)

  imaged-some :
      (start : Ota World) (r : Option (Bool × Ota World))
      → (imaged e start r).0 ≡ true
      → r ≡ some (true, (imaged e start r).1)
  unfolding imaged
  imaged-some start none ok = absurd (ground arith)
  imaged-some start (some (done, o)) ok = ap (λ (d : Bool). some (d, o)) ok

  -- Where write_image succeeds, the frames that it gave to the line end with an erase and then writes,
  -- and a bootloader that follows them holds the image in its flash, from its origin on.
  pub write_image-Burnt :
      (bytes : List ℕ) (o : Ota World)
      → o.rsp ≢ fd
      → file o.world ≡ bytes
      → flash_origin + length bytes < 2 ^ 32
      → (write_image e fd (length bytes) o).0 ≡ true
      → (before : List (List ℕ)) × Burnt bytes
          (length bytes)
          (erased before)
          ((write_image e fd (length bytes) o).1).lines
  unfolding write_image
  write_image-Burnt bytes o other at_file room =
      let reset = reset_target e true o.world in
      let o1 = record o { world = reset.1 } in
      let sync = an_sync e o1 in
      let id = an_get_id e sync.1 in
      let erase = an_erase e id.1 in
      let start = record erase.1 { addr = flash_origin } in
      let (t_rsp, t_file) =
        Talked-trans e fd file o1 sync.1 id.1 (an_sync-Talked e fd file image.apart o1)
          (an_get_id-Talked e fd file image.apart sync.1) other in
      let run = image_loop e (length bytes + 1) fd (length bytes) 0 start in
      let P = λ (c : Bool × Ota World).
        c.0 ≡ true
        → (before : List (List ℕ)) × Burnt bytes (length bytes) (erased before) (c.1).lines in
      if_split P (not reset.0) (λ bad ok. absurd (ground arith))
        λ good0.
          if_split P (not sync.0) (λ bad ok. absurd (ground arith))
            λ good1.
              if_split P (not id.0) (λ bad ok. absurd (ground arith))
                λ good2.
                  if_split P (not erase.0) (λ bad ok. absurd (ground arith))
                    λ good3 ok.
                      let (e_rsp, e_line, e_file) =
                        an_erase-Written e fd file image.apart id.1
                          (λ same. other (sym t_rsp ∙ same)) (ground arith) in
                      (
                        (id.1).lines,
                        image_loop-Burnt e fd file image bytes (erased (id.1).lines)
                            (length bytes + 1) 0 start (imaged e start run).1 room (omega arith)
                            (
                              λ same. other (sym t_rsp ∙ sym e_rsp ∙ same),
                              e_file ∙ t_file ∙ reset_target-file true o.world ∙ at_file,
                              λ early. omega arith,
                            )
                            ([], e_line, λ i h. absurd (omega arith)) (imaged-some start run ok),
                      )
