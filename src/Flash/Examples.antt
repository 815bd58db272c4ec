-- ===== src/Flash/Examples.antt =====
-- A flash that keeps what is written to it, whose writes report what they are told, and the store of
-- the settings on it.
use telegraph_stm_fw.Base.{
  ℕ, ◌*◌, ◌/◌, ◌^◌, ◌<◌, ◌≡◌, ◌≢◌, ◌⊎◌, inl, inr, refl, sym, subst, List, Bool, true, false,
  Bool-cases, none, some, arith, replicate, ◌==◌, if◌then◌else◌, if_both, ap,
}
use telegraph_stm_fw.Ipc.Wire.Fields.{get_u32-bytes}
use telegraph_stm_fw.Server.Board.{Config}
use telegraph_stm_fw.Flash.{
  Mtd, Store, Written, defaults, fresh, config_block, config_load, config_save, write_record,
  same_settings, read_slot, read_block, read_record, record_block, target,
}
use telegraph_stm_fw.Flash.Record.{IsConfig, same_settings-eq, read_record-record_block}
use telegraph_stm_fw.Flash.Keep.{Sectors, Below, Holds, save-Holds}
use telegraph_stm_fw.Flash.Loss.{config_save-fails}
use telegraph_stm_fw.Flash.Power.{Losses, losing, config_load-config_save}

abbrev blank : List ℕ
blank = replicate 256 0xff

-- The blocks by their numbers.
abbrev Blocks : Type 0
Blocks = ℕ → List ℕ

abbrev erased : ℕ → Blocks → Blocks
erased k w b = if b / 16 == k then blank else w b

abbrev written : ℕ → List ℕ → Blocks → Blocks
written b block w c = if c == b then block else w c

abbrev pub mtd : Bool → Mtd
mtd works = record {
  World = Blocks;
  bread = λ b w. some (w b);
  erase = λ k w. (true, erased k w);
  bwrite = λ b block w. (works, written b block w);
}

pub mtd-Sectors : (works : Bool) → Sectors (mtd works)
mtd-Sectors works = record {
  erase_other = λ j k w ne. kept_erase j k w ne;
  write_other = λ j k block w ne. kept_write j k block w ne;
  write_here = λ k block w len ok put. here k block w;
}
  where
    kept_erase : (j k : ℕ) (w : Blocks) → j ≢ k → some (erased j w (k * 16)) ≡ some (w (k * 16))
    kept_erase j k w ne = let off : (k * 16 / 16 == j) ≡ false = ground arith in rw off

    kept_write :
        (j k : ℕ) (block : List ℕ) (w : Blocks)
        → j ≢ k
        → some (written (j * 16) block w (k * 16)) ≡ some (w (k * 16))
    kept_write j k block w ne = let off : (k * 16 == j * 16) ≡ false = ground arith in rw off

    here :
        (k : ℕ) (block : List ℕ) (w : Blocks)
        → some (written (k * 16) block (erased k w) (k * 16)) ≡ some block
    here k block w = let on : (k * 16 == k * 16) ≡ true = ground arith in rw on

abbrev bright : Config
bright = record defaults { digits = 8 }

bright-IsConfig : IsConfig bright
bright-IsConfig = record {
  utcoffset = omega arith;
  digits = omega arith;
  panels = omega arith;
  tempoffset = omega arith;
  sleepmin = omega arith;
  wakemin = omega arith;
}

defaults-IsConfig : IsConfig defaults
defaults-IsConfig = record {
  utcoffset = omega arith;
  digits = omega arith;
  panels = omega arith;
  tempoffset = omega arith;
  sleepmin = omega arith;
  wakemin = omega arith;
}

-- A flash with the defaults in its first record, and the store that knows them.
abbrev pub kept : Blocks
kept = written 0 (record_block 7 defaults) (λ b. blank)

abbrev pub kept_store : Store
kept_store = record { slot = some 0; seq = 7; cur = some defaults }

blank_record : read_record blank ≡ none
unfolding read_record
blank_record = rw (get_u32-bytes 0xffffffff (replicate 252 0xff) (omega arith)) refl

read_kept :
    (seq : ℕ) (c : Config) (works : Bool) (w : Blocks) (k : ℕ)
    → IsConfig c
    → seq < 2 ^ 32
    → w (config_block k) ≡ record_block seq c
    → read_slot (mtd works) k w ≡ some (record { seq = seq; cfg = c })
unfolding read_slot read_block
read_kept seq c works w k good small e = rw e (read_record-record_block seq c small good)

read_blank :
    (works : Bool) (w : Blocks) (k : ℕ)
    → w (config_block k) ≡ blank
    → read_slot (mtd works) k w ≡ none
unfolding read_slot read_block
read_blank works w k e = rw e blank_record

pub kept-Holds : (works : Bool) → Holds (mtd works) kept kept_store 0 defaults
unfolding target
kept-Holds works = record {
  used = refl;
  two = omega arith;
  cur = refl;
  good = defaults-IsConfig;
  here = read_kept 7 defaults works kept 0 defaults-IsConfig (omega arith) refl;
  older = subst (Below 7) (sym (read_blank works kept 1 refl)) tt;
}

changed : same_settings (some defaults) bright ≡ false
changed = elim (Bool-cases (same_settings (some defaults) bright)) [
  | inr e ↦ e
  | inl e ↦
      let same : defaults.digits ≡ bright.digits =
        ap (λ (c : Config). c.digits)
          (same_settings-eq defaults bright defaults-IsConfig bright-IsConfig e) in
      absurd (omega arith)
]

-- Every save on a flash that works reports so.
pub mtd_saves : (c : Config) (s : Store) (w : Blocks) → (config_save (mtd true) c s w).ok ≡ true
unfolding config_save write_record
mtd_saves c s w =
    if_both (λ (r : Written (mtd true)). r.ok ≡ true) (same_settings s.cur c) refl refl

save-Holds_example :
    (j : ℕ) × Holds
      (mtd true)
      (config_save (mtd true) bright kept_store kept).world
      (config_save (mtd true) bright kept_store kept).store
      j
      bright
save-Holds_example =
    save-Holds (mtd true) (mtd-Sectors true) kept kept_store 0 defaults bright (kept-Holds true)
      bright-IsConfig (omega arith) (mtd_saves bright kept_store kept)

save_breaks : (config_save (mtd false) bright kept_store kept).ok ≡ false
unfolding config_save write_record
save_breaks = rw changed refl

config_save-fails_example :
    ((config_save (mtd false) bright kept_store kept).store ≡ kept_store)
    × (read_slot (mtd false) 0 (config_save (mtd false) bright kept_store kept).world
        ≡ read_slot (mtd false) 0 kept)
config_save-fails_example =
    config_save-fails (mtd false) (mtd-Sectors false) kept kept_store 0 defaults bright
      (kept-Holds false) save_breaks

-- A flash that is blank where its power is lost in an erase or a write.
abbrev torn_erase : ℕ → Blocks → Blocks
torn_erase = erased

abbrev torn_write : ℕ → List ℕ → Blocks → Blocks
torn_write b block = written b blank

mtd-Losses : Losses (mtd true) torn_erase torn_write
mtd-Losses = record {
  erase_other = λ j k w ne. (mtd-Sectors true).erase_other j k w ne;
  write_other = λ j k block w ne. (mtd-Sectors true).write_other j k blank w ne;
  erase_torn = λ k w. inl (read_blank true (erased k w) k (erased_here k w));
  erase_here = λ k w. inl (read_blank true (erased k w) k (erased_here k w));
  write_torn = λ k block w.
      inr (inl (read_blank true (written (k * 16) blank w) k (written_here k blank w)));
  write_here = λ k block w. inl (ap some (written_here k block w));
}
  where
    erased_here : (k : ℕ) (w : Blocks) → erased k w (k * 16) ≡ blank
    erased_here k w = let on : (k * 16 / 16 == k) ≡ true = ground arith in rw on refl

    written_here : (k : ℕ) (block : List ℕ) (w : Blocks) → written (k * 16) block w (k * 16) ≡ block
    written_here k block w = let on : (k * 16 == k * 16) ≡ true = ground arith in rw on refl

-- The power is lost in the second operation of the save, the write.
config_load-config_save_example :
    let found =
      (config_load
        (mtd true)
        (config_save (losing (mtd true) torn_erase torn_write) bright kept_store (kept, 2)).world.0
        fresh).found in
    (found ≡ some defaults) ⊎ (found ≡ some bright)
config_load-config_save_example =
    config_load-config_save (mtd true) torn_erase torn_write (mtd-Sectors true) mtd-Losses kept 2
      kept_store fresh 0 defaults bright (kept-Holds true) bright-IsConfig (omega arith)
