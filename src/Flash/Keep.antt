-- ===== src/Flash/Keep.antt =====
-- The store through saves, failures and losses of power.
use telegraph_stm_fw.Base.{
  ℕ, zero, suc, ◌+◌, ◌^◌, ◌≤◌, ◌<◌, ◌≡◌, ◌≢◌, inl, inr, refl, sym, ap, ◌∙◌, List, length, true,
  false, Bool-cases, Option, none, some, arith, u32, true-not_false, ltb, subst,
}
use telegraph_stm_fw.Server.Board.{Config}
use telegraph_stm_fw.Flash.{
  Mtd, Saved, Store, Loading, read_block, record_block, take_record, keep_found, same_settings,
  target, config_block, read_slot, config_load, write_record, config_save,
}
use telegraph_stm_fw.Flash.Record.{
  IsConfig, read_record-record_block, length-record_block, same_settings-eq,
}

-- What the store relies on: an erase and a write reach their own sector alone, and a block written
-- into a sector just erased is read back.
pub record Sectors (m : Mtd) : Type 0 where
  pub erase_other :
      (j k : ℕ) (w : m.World)
      → j ≢ k
      → m.bread (config_block k) (m.erase j w).1 ≡ m.bread (config_block k) w
  pub write_other :
      (j k : ℕ) (block : List ℕ) (w : m.World)
      → j ≢ k
      → m.bread (config_block k) (m.bwrite (config_block j) block w).1 ≡ m.bread (config_block k) w
  pub write_here :
      (k : ℕ) (block : List ℕ) (w : m.World)
      → length block ≡ 256
      → (m.erase k w).0 ≡ true
      → (m.bwrite (config_block k) block (m.erase k w).1).0 ≡ true
      → m.bread (config_block k) (m.bwrite (config_block k) block (m.erase k w).1).1 ≡ some block

-- A record that is not there, or is older than the number.
abbrev pub Below : ℕ → Option Saved → Type 0
Below n none = Unit
Below n (some r) = r.seq < n

module _ (m : Mtd) where
  open m use {World}

  -- The flash holds the settings `c` in the slot `k` that the store uses, and the other slot holds
  -- nothing newer.
  pub record Holds (w : World) (s : Store) (k : ℕ) (c : Config) : Type 0 where
    pub used : s.slot ≡ some k
    pub two : k ≤ 1
    pub cur : s.cur ≡ some c
    pub good : IsConfig c
    pub here : read_slot m k w ≡ some (record { seq = s.seq; cfg = c })
    pub older : Below s.seq (read_slot m (target (some k)) w)

load_zero :
    (r : Saved) (o : Option Saved) (s : Store)
    → Below r.seq o
    → keep_found (take_record 1 o (take_record 0 (some r) (record { store = s; found = none })))
      ≡ record {
        store = record { slot = some 0; seq = r.seq; cur = some r.cfg };
        found = some r.cfg;
      }
unfolding keep_found take_record
load_zero r none s h = refl
load_zero r (some q) s h = let old : ltb r.seq q.seq ≡ false = ground arith in rw old

load_one :
    (r : Saved) (o : Option Saved) (s : Store)
    → Below r.seq o
    → keep_found (take_record 1 (some r) (take_record 0 o (record { store = s; found = none })))
      ≡ record {
        store = record { slot = some 1; seq = r.seq; cur = some r.cfg };
        found = some r.cfg;
      }
unfolding keep_found take_record
load_one r none s h = refl
load_one r (some q) s h = let new : ltb q.seq r.seq ≡ true = ground arith in rw new

abbrev loaded : ℕ → ℕ → Config → Loading
loaded k seq c = record {
  store = record { slot = some k; seq = seq; cur = some c };
  found = some c;
}

pub other_twice : (k : ℕ) → k ≤ 1 → target (some (target (some k))) ≡ k
unfolding target
other_twice k h = ground arith

pub target-le : (k : Option ℕ) → target k ≤ 1
unfolding target
target-le none = omega arith
target-le (some k) = ground arith

pub other_ne : (k : ℕ) → target (some k) ≢ k
unfolding target
other_ne k = ground arith

module _ (m : Mtd) where
  open m use {World}

  pub load_slots :
      (w : World) (k : ℕ) (r : Saved) (s : Store)
      → k ≤ 1
      → read_slot m k w ≡ some r
      → Below r.seq (read_slot m (target (some k)) w)
      → config_load m w s ≡ loaded k r.seq r.cfg
  unfolding config_load target
  load_slots w zero r s le here old = rw here (load_zero r (read_slot m 1 w) s old)
  load_slots w (suc zero) r s le here old = rw here (load_one r (read_slot m 0 w) s old)
  load_slots w (suc (suc k)) r s le here old = absurd (omega arith)

  -- A store that holds some settings gives them to a load, whatever was known before, and the load
  -- leaves the store as it is.
  pub load-Holds :
      (w : World) (s t : Store) (k : ℕ) (c : Config)
      → Holds m w s k c
      → config_load m w t ≡ record { store = s; found = some c }
  load-Holds w s t k c h =
      load_slots w k (record { seq = s.seq; cfg = c }) t h.two h.here h.older ∙ rw (h.used, h.cur)

  -- The other slot through an erase, and through a write after it.
  pub erase-kept :
      Sectors m → (w : World) (j k : ℕ) → j ≢ k → read_slot m k (m.erase j w).1 ≡ read_slot m k w
  unfolding read_slot
  erase-kept law w j k ne = ap read_block (law.erase_other j k w ne)

  pub write-kept :
      Sectors m
      → (w : World) (j k : ℕ) (block : List ℕ) → j ≢ k
      → read_slot m k (m.bwrite (config_block j) block (m.erase j w).1).1 ≡ read_slot m k w
  unfolding read_slot
  write-kept law w j k block ne =
      ap read_block (law.write_other j k block (m.erase j w).1 ne) ∙ erase-kept law w j k ne

  write-here :
      Sectors m
      → (w : World) (k seq : ℕ) (c : Config) → IsConfig c
      → seq < 2 ^ 32
      → (m.erase k w).0 ≡ true
      → (m.bwrite (config_block k) (record_block seq c) (m.erase k w).1).0 ≡ true
      → read_slot m k (m.bwrite (config_block k) (record_block seq c) (m.erase k w).1).1
        ≡ some (record { seq = seq; cfg = c })
  unfolding read_slot read_block
  write-here law w k seq c good small e f =
      ap read_block
        (law.write_here k (record_block seq c) w (length-record_block seq c good small) e f)
      ∙ read_record-record_block seq c small good

  pub write-Holds :
      Sectors m
      → (w : World) (s : Store) (t : ℕ) (c : Config) → t ≤ 1
      → IsConfig c
      → s.seq + 1 < 2 ^ 32
      → Below (s.seq + 1) (read_slot m (target (some t)) w)
      → (write_record m t c s w).ok ≡ true
      → Holds m (write_record m t c s w).world (write_record m t c s w).store t c
  unfolding write_record
  write-Holds law w s t c le good small old ok =
      let block = record_block (u32 (s.seq + 1)) c in
      let erased = m.erase t w in
      let put = m.bwrite (config_block t) block erased.1 in
      elim (Bool-cases erased.0) [
        | inr e ↦ absurd (true-not_false ok (rw e))
        | inl e ↦ elim (Bool-cases put.0) [
          | inr f ↦ absurd (true-not_false ok (rw (e, f)))
          | inl f ↦
              rw (e, f)
                (record {
                  used = refl;
                  two = le;
                  cur = refl;
                  good = good;
                  here = write-here law w t (u32 (s.seq + 1)) c good (omega arith) e f;
                  older =
                      subst (λ (o : Option Saved). Below (u32 (s.seq + 1)) o)
                        (sym (write-kept law w t (target (some t)) block (λ q. other_ne t (sym q))))
                        (subst (λ (n : ℕ). Below n (read_slot m (target (some t)) w)) (omega arith)
                          old);
                })
        ]
      ]

  -- A save that succeeds into a store that holds settings under a number below the greatest of 32
  -- bits leaves a store that holds the new settings, whatever slot they went to.
  pub save-Holds :
      Sectors m
      → (w : World) (s : Store) (k : ℕ) (c d : Config) → Holds m w s k c
      → IsConfig d
      → s.seq + 1 < 2 ^ 32
      → (config_save m d s w).ok ≡ true
      → (j : ℕ) × Holds m (config_save m d s w).world (config_save m d s w).store j d
  unfolding config_save
  save-Holds law w s k c d h good small ok = elim (Bool-cases (same_settings s.cur d)) [
    | inl e ↦
        let same : c ≡ d =
          same_settings-eq c d h.good good
            (ap (λ (o : Option Config). same_settings o d) (sym h.cur) ∙ e) in
        rw e (k, subst (λ (x : Config). Holds m w s k x) same h)
    | inr e ↦
        let at : target s.slot ≡ target (some k) = ap target h.used in
        let back : read_slot m (target (some (target s.slot))) w
            ≡ some (record { seq = s.seq; cfg = c }) =
          ap (λ (j : ℕ). read_slot m j w) (ap (λ (j : ℕ). target (some j)) at ∙ other_twice k h.two)
          ∙ h.here in
        let old : Below (s.seq + 1) (read_slot m (target (some (target s.slot))) w) =
          subst (λ (o : Option Saved). Below (s.seq + 1) o) (sym back) (omega arith) in
        rw e (
          target s.slot,
          write-Holds law w s (target s.slot) d (target-le s.slot) good small old (rw e at ok),
        )
  ]
