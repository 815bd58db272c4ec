-- ===== src/Ota/Run/Guard.antt =====
-- When the flash is written at all.
use telegraph_stm_fw.Base.{
  ℕ, suc, ◌-◌, ◌≡◌, ◌≢◌, ◌⊎◌, inl, inr, refl, sym, ap, List, [], ◌∷◌, Option, none, some, true,
  false, length, ◌!=◌, ◌==◌, ◌&&◌, if◌then◌else◌, if_split, ==_iff, arith,
}
use telegraph_stm_fw.Broker.Engine.{Engine}
use telegraph_stm_fw.Ota.{Ota}
use telegraph_stm_fw.Ota.Kept.{nothing-IsApart}
use telegraph_stm_fw.Ota.Requests.{running_version}
use telegraph_stm_fw.Ota.Requests.Version.{GivenBy, running_version-GivenBy}
use telegraph_stm_fw.Ota.Requests.Kept.{running_version-Kept}
use telegraph_stm_fw.Ota.Run.{
  version_cap, same_text, update, reflash, Ended, before_pipes, after_pipes, ready, with_pipes,
  main, open_pipes, peer_name, version_text, read_file, file_size, image_path, version_path,
}

same_text_refl : (a : List ℕ) → same_text a a ≡ true
unfolding same_text
same_text_refl [] = refl
same_text_refl (c ∷ cs) = let same = (==_iff c c).1 refl in rw (same, same_text_refl cs) refl

other_text :
    (want have : List ℕ)
    → (length want != 0 && same_text want have) ≡ false
    → (want ≡ []) ⊎ (want ≢ have)
other_text [] have h = inl refl
other_text (c ∷ cs) have h = inr (λ same.
    let again = same_text_refl (c ∷ cs) in
    let now = ap (λ (t : List ℕ). same_text (c ∷ cs) t) (sym same) in ground arith)

module _ (e : Engine) where
  open e use {World}

  -- The question for the version gives no byte to the line of the bootloader.
  running_version-lines :
      (size : ℕ) (o : Ota World) → ((running_version e size o).1).lines ≡ o.lines
  running_version-lines size o =
      let fd = suc o.rsp in
      (running_version-Kept e fd (λ w. []) (nothing-IsApart e fd) size o
        (λ same. omega (arith, same))).1

  -- A version of the board that calls for the flash: the image gives none, or another.
  abbrev Differs : List ℕ → Option (List ℕ) → Type 0
  Differs want version = (have : List ℕ) × (version ≡ some have) × ((want ≡ []) ⊎ (want ≢ have))

  -- The board gave such a version to the wapp, which asked for it from the state `o`.
  abbrev pub IsOther : List ℕ → Ota World → Type 0
  IsOther want o =
      (have : List ℕ) × GivenBy e o (running_version e version_cap o).1 version_cap have
      × ((want ≡ []) ⊎ (want ≢ have))

  Differs-IsOther :
      (want : List ℕ) (o : Ota World)
      → Differs want (running_version e version_cap o).0
      → IsOther want o
  Differs-IsOther want o (have, found, other) =
      (have, running_version-GivenBy e version_cap o have found, other)

  update-Guarded :
      (len : ℕ) (want : List ℕ) (o : Ota World)
      → ((update e len want o).1).lines ≢ o.lines
      → Differs want (running_version e version_cap o).0
  unfolding update
  update-Guarded len want o =
      let v = running_version e version_cap o in
      let same = running_version-lines version_cap o in
      elim v.0
        as (λ (r : Option (List ℕ)).
          ((elim r as (λ _. ℕ × Ota World) [
            | none ↦ (0, v.1)
            | some have ↦
                if length want != 0 && same_text want have then (0, v.1) else reflash e len want v.1
          ]).1
          ).lines
            ≢ o.lines
          → Differs want r) [
            | none ↦ λ moved. absurd (moved same)
            | some have ↦
                if_split (λ (c : ℕ × Ota World). (c.1).lines ≢ o.lines → Differs want (some have))
                  (length want != 0 && same_text want have) (λ runs moved. absurd (moved same))
                  (λ differs moved. (have, refl, other_text want have differs))
          ]

  -- The state of the wapp when its pipes are open.
  abbrev pub IsOpen : Option ℕ × Option ℕ × World → ℕ → ℕ → World → Type 0
  IsOpen pipes req rsp w = pipes ≡ (some req, some rsp, w)

  with_pipes-Guarded :
      (len : ℕ) (want : List ℕ) (pipes : Option ℕ × Option ℕ × World) (o : Ota World)
      → (with_pipes e len want pipes).1 ≡ after_pipes o
      → o.lines ≢ []
      → (req : ℕ) × (rsp : ℕ) × (w : World) × IsOpen pipes req rsp w
        × IsOther want (ready e req rsp w)
  unfolding with_pipes ready
  with_pipes-Guarded len want (some req, some rsp, w) o ended wrote =
      let state : (update e len want (ready e req rsp w)).1 ≡ o = cc ended in
      (
        req,
        rsp,
        w,
        refl,
        Differs-IsOther want (ready e req rsp w)
            (update-Guarded len want (ready e req rsp w) (λ same. wrote (cc (state, same)))),
      )
  with_pipes-Guarded len want (some req, none, w) o ended wrote = absurd (cc ended)
  with_pipes-Guarded len want (none, rsp, w) o ended wrote = absurd (cc ended)

  -- A run of the wapp gives the line of the bootloader a byte only where its pipes are open, a frame
  -- of op_state with the version of the board has come from the pipe while the wapp asked for it, under
  -- the number of its last question, and the image gives another version or none.
  pub main-Guarded :
      (rounds : ℕ) (env : Option (List ℕ)) (w : World) (o : Ota World)
      → (main e rounds env w).1 ≡ after_pipes o
      → o.lines ≢ []
      → let want = read_file e version_path (version_cap - 1) (file_size e rounds image_path w).1 in
        (req : ℕ) × (rsp : ℕ) × (v : World) × IsOpen (open_pipes e (peer_name env) want.1) req rsp v
        × IsOther (version_text want.0) (ready e req rsp v)
  unfolding main
  main-Guarded rounds env w o =
      let size = file_size e rounds image_path w in
      let want = read_file e version_path (version_cap - 1) size.1 in
      let pipes = open_pipes e (peer_name env) want.1 in
      let Then = λ (c : ℕ × Ended World).
        c.1 ≡ after_pipes o
        → o.lines ≢ []
        → (req : ℕ) × (rsp : ℕ) × (v : World) × IsOpen pipes req rsp v
          × IsOther (version_text want.0) (ready e req rsp v) in
      elim size.0
        as (λ (n : Option ℕ). Then (elim n as (λ _. ℕ × Ended World) [
          | none ↦ (1, before_pipes size.1)
          | some len ↦
              if len == 0
              then (1, before_pipes size.1)
              else with_pipes e len (version_text want.0) pipes
        ])) [
          | none ↦ λ ended wrote. absurd (cc ended)
          | some len ↦
              if_split Then (len == 0) (λ empty ended wrote. absurd (cc ended))
                (λ full. with_pipes-Guarded len (version_text want.0) pipes o)
        ]
