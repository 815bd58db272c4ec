-- ===== src/Flash/Power.antt =====
-- Saves that a loss of power cuts short.
use telegraph_stm_fw.Base.{
  ℕ, zero, suc, List, Bool, if_both, ◌+◌, ◌^◌, ◌≤◌, ◌<◌, ◌≡◌, ◌≢◌, ◌⊎◌, inl, inr, refl, sym, ap,
  ◌∙◌, false, Option, none, some, arith, u32, subst,
}
use telegraph_stm_fw.Server.Board.{Config}
use telegraph_stm_fw.Flash.{
  Mtd, Saved, Store, Loading, read_block, record_block, same_settings, target, config_block,
  Written, read_slot, config_load, write_record, config_save,
}
use telegraph_stm_fw.Flash.Record.{IsConfig, read_record-record_block}
use telegraph_stm_fw.Flash.Keep.{
  Sectors, Below, Holds, load_slots, other_twice, target-le, other_ne,
}

module _ (m : Mtd) where
  open m use {World}

  found_by :
      (w : World) (t : Store) (j : ℕ) (r : Saved)
      → j ≤ 1
      → read_slot m j w ≡ some r
      → Below r.seq (read_slot m (target (some j)) w)
      → (config_load m w t).found ≡ some r.cfg
  found_by w t j r le e old = ap (λ (l : Loading). l.found) (load_slots m w j r t le e old)

  new_record :
      (w : World) (k seq : ℕ) (d : Config)
      → IsConfig d
      → seq < 2 ^ 32
      → m.bread (config_block k) w ≡ some (record_block seq d)
      → read_slot m k w ≡ some (record { seq = seq; cfg = d })
  unfolding read_slot read_block
  new_record w k seq d good small e = ap read_block e ∙ read_record-record_block seq d small good

-- A flash that loses its power.
module _ (m : Mtd) (torn_erase : ℕ → m.World → m.World)
    (torn_write : ℕ → List ℕ → m.World → m.World) where
  open m use {World}

  -- An operation of the flash before its power is lost: `left` operations are begun, the last of
  -- which is torn, and the ones after it do nothing.
  abbrev under_power : ℕ → World → Bool × World → World → Bool × (World × ℕ)
  under_power zero w whole torn = (false, (w, 0))
  under_power (suc zero) w whole torn = (false, (torn, 0))
  under_power (suc (suc left)) w whole torn = (whole.0, (whole.1, suc left))

  -- The driver on that flash.
  abbrev pub losing : Mtd
  losing = record {
    World = World × ℕ;
    bread = λ b p. m.bread b p.0;
    erase = λ k p. under_power p.1 p.0 (m.erase k p.0) (torn_erase k p.0);
    bwrite = λ b block p. under_power p.1 p.0 (m.bwrite b block p.0) (torn_write b block p.0);
  }

  -- A slot that reads as no record or as before.
  abbrev pub Spoiled : ℕ → World → World → Type 0
  Spoiled k w w' = (read_slot m k w' ≡ none) ⊎ (read_slot m k w' ≡ read_slot m k w)

  -- What the store relies on where an erase or a write is torn or fails: it too reaches its own
  -- sector alone; the slot of an erase then reads as no record or as before, since the magic and the
  -- check value of a record find out one that is not whole; and so does the slot of a write, or it
  -- has the block.
  pub record Losses : Type 0 where
    pub erase_other :
        (j k : ℕ) (w : World)
        → j ≢ k
        → m.bread (config_block k) (torn_erase j w) ≡ m.bread (config_block k) w
    pub write_other :
        (j k : ℕ) (block : List ℕ) (w : World)
        → j ≢ k
        → m.bread (config_block k) (torn_write (config_block j) block w)
          ≡ m.bread (config_block k) w
    pub erase_torn : (k : ℕ) (w : World) → Spoiled k w (torn_erase k w)
    pub erase_here : (k : ℕ) (w : World) → Spoiled k w (m.erase k w).1
    pub write_torn :
        (k : ℕ) (block : List ℕ) (w : World)
        → (m.bread (config_block k) (torn_write (config_block k) block w) ≡ some block)
          ⊎ Spoiled k w (torn_write (config_block k) block w)
    pub write_here :
        (k : ℕ) (block : List ℕ) (w : World)
        → (m.bread (config_block k) (m.bwrite (config_block k) block w).1 ≡ some block)
          ⊎ Spoiled k w (m.bwrite (config_block k) block w).1

  -- What an operation on the sector `j` may leave of the flash.
  record Reached (j : ℕ) (w w' : World) : Type 0 where
    others : (k : ℕ) → j ≢ k → read_slot m k w' ≡ read_slot m k w
    here : Spoiled j w w'

  erase-Reached :
      Sectors m → Losses → (j : ℕ) (p : World × ℕ) → Reached j p.0 (losing.erase j p).1.0
  unfolding read_slot
  erase-Reached law loss j (w, zero) = record { others = λ k ne. refl; here = inr refl }
  erase-Reached law loss j (w, suc zero) = record {
    others = λ k ne. ap read_block (loss.erase_other j k w ne);
    here = loss.erase_torn j w;
  }
  erase-Reached law loss j (w, suc (suc left)) = record {
    others = λ k ne. ap read_block (law.erase_other j k w ne);
    here = loss.erase_here j w;
  }

  record Put (j : ℕ) (block : List ℕ) (w w' : World) : Type 0 where
    others : (k : ℕ) → j ≢ k → read_slot m k w' ≡ read_slot m k w
    here : (m.bread (config_block j) w' ≡ some block) ⊎ Spoiled j w w'

  write-Put :
      Sectors m
      → Losses
      → (j : ℕ) (block : List ℕ) (p : World × ℕ)
      → Put j block p.0 (losing.bwrite (config_block j) block p).1.0
  unfolding read_slot
  write-Put law loss j block (w, zero) = record { others = λ k ne. refl; here = inr (inr refl) }
  write-Put law loss j block (w, suc zero) = record {
    others = λ k ne. ap read_block (loss.write_other j k block w ne);
    here = loss.write_torn j block w;
  }
  write-Put law loss j block (w, suc (suc left)) = record {
    others = λ k ne. ap read_block (law.write_other j k block w ne);
    here = loss.write_here j block w;
  }

  -- The flash after a save of `d` into a store that held `c` in the slot `k`, with its power lost or
  -- not: the slot in use is as it was, and the other one reads as no record, as before the save, or
  -- is the block of the save.
  record CutShort (w w' : World) (s : Store) (k : ℕ) (d : Config) : Type 0 where
    kept : read_slot m k w' ≡ read_slot m k w
    torn :
        (read_slot m (target (some k)) w' ≡ none)
        ⊎ (read_slot m (target (some k)) w' ≡ read_slot m (target (some k)) w)
        ⊎ (m.bread (config_block (target (some k))) w' ≡ some (record_block (u32 (s.seq + 1)) d))

  Spoiled-trans : (k : ℕ) (w v u : World) → Spoiled k w v → Spoiled k v u → Spoiled k w u
  Spoiled-trans k w v u first (inl e) = inl e
  Spoiled-trans k w v u (inl e) (inr f) = inl (f ∙ e)
  Spoiled-trans k w v u (inr e) (inr f) = inr (f ∙ e)

  Reached-CutShort :
      (w v : World) (s : Store) (k : ℕ) (d : Config)
      → Reached (target (some k)) w v
      → CutShort w v s k d
  Reached-CutShort w v s k d r = record {
    kept = r.others k (other_ne k);
    torn = elim r.here [ inl e ↦ inl e | inr e ↦ inr (inl e) ];
  }

  Put-CutShort :
      (w v u : World) (s : Store) (k : ℕ) (d : Config)
      → Reached (target (some k)) w v
      → Put (target (some k)) (record_block (u32 (s.seq + 1)) d) v u
      → CutShort w u s k d
  Put-CutShort w v u s k d r p = record {
    kept = p.others k (other_ne k) ∙ r.others k (other_ne k);
    torn = elim p.here [
      | inl e ↦ inr (inr e)
      | inr e ↦ elim (Spoiled-trans (target (some k)) w v u r.here e) [
        | inl f ↦ inl f
        | inr f ↦ inr (inl f)
      ]
    ];
  }

  write_record-CutShort :
      Sectors m
      → Losses
      → (w : World) (n : ℕ) (s : Store) (k : ℕ) (d : Config)
      → CutShort w (write_record losing (target (some k)) d s (w, n)).world.0 s k d
  unfolding write_record
  write_record-CutShort law loss w n s k d =
      let j = target (some k) in
      let block = record_block (u32 (s.seq + 1)) d in
      let erased = losing.erase j (w, n) in
      let put = losing.bwrite (config_block j) block erased.1 in
      let r = erase-Reached law loss j (w, n) in
      let p = write-Put law loss j block erased.1 in
      let P = λ (x : Written losing). CutShort w x.world.0 s k d in
      if_both P erased.0
        (if_both P put.0 (Put-CutShort w erased.1.0 put.1.0 s k d r p)
          (Put-CutShort w erased.1.0 put.1.0 s k d r p))
        (Reached-CutShort w erased.1.0 s k d r)

  config_save-CutShort :
      Sectors m
      → Losses
      → (w : World) (n : ℕ) (s : Store) (k : ℕ) (d : Config) → s.slot ≡ some k
      → CutShort w (config_save losing d s (w, n)).world.0 s k d
  unfolding config_save
  config_save-CutShort law loss w n s k d used =
      let P = λ (x : Written losing). CutShort w x.world.0 s k d in
      if_both P (same_settings s.cur d) (record { kept = refl; torn = inr (inl refl) })
        (subst
          (λ (o : Option ℕ). CutShort w (write_record losing (target o) d s (w, n)).world.0 s k d)
          (sym used) (write_record-CutShort law loss w n s k d))

  -- A save into a store that holds settings, under a number below the greatest of 32 bits, on a flash
  -- that loses its power at any operation of the save or keeps it: the next load gives the settings
  -- from before or those of the save.
  pub config_load-config_save :
      Sectors m
      → Losses
      → (w : World) (n : ℕ) (s t : Store) (k : ℕ) (c d : Config) → Holds m w s k c
      → IsConfig d
      → s.seq + 1 < 2 ^ 32
      → let found = (config_load m (config_save losing d s (w, n)).world.0 t).found in
        (found ≡ some c) ⊎ (found ≡ some d)
  config_load-config_save law loss w n s t k c d h good small =
      let w' = (config_save losing d s (w, n)).world.0 in
      let cut = config_save-CutShort law loss w n s k d h.used in
      let old : Saved = record { seq = s.seq; cfg = c } in
      let here : read_slot m k w' ≡ some old = cut.kept ∙ h.here in
      elim cut.torn [
        | inl e ↦ inl (found_by m w' t k old h.two here (subst (Below s.seq) (sym e) tt))
        | inr (inl e) ↦ inl (found_by m w' t k old h.two here (subst (Below s.seq) (sym e) h.older))
        | inr (inr e) ↦ inr (
            found_by m w' t (target (some k)) (record { seq = u32 (s.seq + 1); cfg = d })
              (target-le (some k))
              (new_record m w' (target (some k)) (u32 (s.seq + 1)) d good (omega arith) e)
              (subst (Below (u32 (s.seq + 1)))
                (sym (ap (λ (j : ℕ). read_slot m j w') (other_twice k h.two) ∙ here))
                (omega arith)))
      ]
