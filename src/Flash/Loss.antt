-- ===== src/Flash/Loss.antt =====
-- Saves that fail, and the first save of an empty store.
use telegraph_stm_fw.Base.{
  ℕ, ◌+◌, ◌^◌, ◌<◌, ◌≡◌, ◌≢◌, inl, inr, refl, sym, ap, true, false, Bool-cases, Option, none, some,
  arith, u32, true-not_false, subst,
}
use telegraph_stm_fw.Server.Board.{Config}
use telegraph_stm_fw.Flash.{
  Mtd, Store, record_block, same_settings, target, config_block, read_slot, write_record,
  config_save,
}
use telegraph_stm_fw.Flash.Record.{IsConfig}
use telegraph_stm_fw.Flash.Keep.{
  Sectors, Below, Holds, erase-kept, write-kept, write-Holds, other_ne,
}

module _ (m : Mtd) where
  open m use {World}

  -- Neither slot holds a record, and the store knows none.
  pub record Empty (w : World) (s : Store) : Type 0 where
    pub unused : s.slot ≡ none
    pub unknown : s.cur ≡ none
    pub first : read_slot m 0 w ≡ none
    pub second : read_slot m 1 w ≡ none

  write_fails :
      Sectors m
      → (w : World) (s : Store) (j k : ℕ) (d : Config) → j ≢ k
      → (write_record m j d s w).ok ≡ false
      → ((write_record m j d s w).store ≡ s)
        × (read_slot m k (write_record m j d s w).world ≡ read_slot m k w)
  unfolding write_record
  write_fails law w s j k d ne bad =
      let erased = m.erase j w in
      let put = m.bwrite (config_block j) (record_block (u32 (s.seq + 1)) d) erased.1 in
      elim (Bool-cases erased.0) [
        | inr e ↦ rw e (refl, erase-kept m law w j k ne)
        | inl e ↦ elim (Bool-cases put.0) [
          | inl f ↦ absurd (true-not_false refl (rw (e, f) at bad))
          | inr f ↦ rw (e, f) (refl, write-kept m law w j k (record_block (u32 (s.seq + 1)) d) ne)
        ]
      ]

  -- A save that reports an error leaves what the store knows, and the record that it uses, as they
  -- were.
  pub config_save-fails :
      Sectors m
      → (w : World) (s : Store) (k : ℕ) (c d : Config) → Holds m w s k c
      → (config_save m d s w).ok ≡ false
      → ((config_save m d s w).store ≡ s)
        × (read_slot m k (config_save m d s w).world ≡ read_slot m k w)
  unfolding config_save
  config_save-fails law w s k c d h bad = elim (Bool-cases (same_settings s.cur d)) [
    | inl e ↦ absurd (true-not_false refl (rw e at bad))
    | inr e ↦
        let ne : target s.slot ≢ k =
          subst (λ (o : Option ℕ). target o ≢ k) (sym h.used) (other_ne k) in
        rw e (write_fails law w s (target s.slot) k d ne (rw e at bad))
  ]

  -- The first save of an empty store that succeeds leaves a store that holds the settings.
  pub save-first :
      Sectors m
      → (w : World) (s : Store) (d : Config) → Empty w s
      → IsConfig d
      → s.seq + 1 < 2 ^ 32
      → (config_save m d s w).ok ≡ true
      → Holds m (config_save m d s w).world (config_save m d s w).store 0 d
  unfolding config_save same_settings target
  save-first law w s d h good small ok =
      let next : Below (s.seq + 1) (read_slot m (target (some 0)) w) =
        subst (Below (s.seq + 1)) (sym h.second) tt in
      let new : same_settings s.cur d ≡ false =
        ap (λ (o : Option Config). same_settings o d) h.unknown in
      let slot : target s.slot ≡ 0 = ap target h.unused in
      rw (new, slot)
        (write-Holds m law w s 0 d (omega arith) good small next (rw (new, slot) at ok))
