-- ===== src/Ota/Image/Ends.antt =====
-- The loop over the chunks of the image ends: each round takes a byte of the file or more.
use telegraph_stm_fw.Base.{
  ℕ, zero, suc, ◌+◌, ◌-◌, ◌<◌, ◌≡◌, refl, ap, Option, some, Bool, true, false, length, leb, ◌==◌,
  not, if_split, arith,
}
use telegraph_stm_fw.Broker.Engine.{Engine}
use telegraph_stm_fw.Ota.{Ota}
use telegraph_stm_fw.Ota.Bootloader.{an_write}
use telegraph_stm_fw.Ota.Image.{image_loop, imaged, padded, chunk_max}

module _ (e : Engine) where
  open e use {World}

  abbrev Ends : Option (Bool × Ota World) → Type 0
  Ends r = (result : Bool × Ota World) × (r ≡ some result)

  image_loop-Ends :
      (fuel fd len off : ℕ) (o : Ota World)
      → len - off < fuel
      → Ends (image_loop e fuel fd len off o)
  unfolding image_loop
  image_loop-Ends zero fd len off o h = absurd (omega arith)
  image_loop-Ends (suc fuel) fd len off o h =
      let got = e.read fd chunk_max o.world in
      let wrote = an_write e (padded got.0) (record o { world = got.1 }) in
      if_split Ends (leb len off) (λ over. ((true, o), refl))
        λ early.
          if_split Ends (length got.0 == 0) (λ nothing. ((false, record o { world = got.1 }), refl))
            λ more.
              if_split Ends (not wrote.0) (λ bad. (wrote, refl))
                (λ good. image_loop-Ends fuel fd len (off + length got.0) wrote.1 (ground arith))

  -- The rounds that write_image gives to its image are enough, for any file and any bootloader.
  image-ends :
      (fd len : ℕ) (start : Ota World)
      → (result : Bool × Ota World) × (image_loop e (len + 1) fd len 0 start ≡ some result)
        × (imaged e start (image_loop e (len + 1) fd len 0 start) ≡ result)
  unfolding imaged
  image-ends fd len start =
      let (result, ends) = image_loop-Ends (len + 1) fd len 0 start (omega arith) in
      (result, ends, ap (λ (r : Option (Bool × Ota World)). imaged e start r) ends)
