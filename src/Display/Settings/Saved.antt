-- ===== src/Display/Settings/Saved.antt =====
-- A change of the settings and the store in the flash.
use telegraph_stm_fw.Base.{ℕ}
use telegraph_stm_fw.Flash.{Mtd}
use telegraph_stm_fw.Flash.Keep.{Holds}
use telegraph_stm_fw.Display.Settings.{Display, settings_of}

module _ (m : Mtd) where
  open m use {World}

  -- The store holds the settings of the display, for some slot.
  pub record Kept (w : World) (d : Display) : Type 0 where
    pub slot : ℕ
    pub holds : Holds m w d.store slot (settings_of d)
