-- ===== src/Server/Assets/Names.antt =====
-- The paths and the names of assets.
use telegraph_stm_fw.Base.{
  All, ◌≢◌, ◌↔◌, ◌<◌, ◌==◌, ◌&&◌, both, ap, sym, ◌∙◌, Bool, ◌≡◌, ◌++◌, refl, true, ℕ, List, [], ◌∷◌,
  ◌+◌, ◌-◌, ◌≤◌, ◌||◌, not, ltb, leb, drop, Bool-cases, length, arith, take, length-append, inl,
  inr, Option, none, some, ltb→le,
}
use telegraph_stm_fw.Time.{same_bytes}
use telegraph_stm_fw.Server.Board.{Entry}
use telegraph_stm_fw.Server.Assets.{
  list_loop, asset_list, slash, asset_name_max, plain_name, asset_path,
}

list_loop-bound :
    (len : ℕ) (ext : List ℕ) (used : ℕ) (entries : List Entry)
    → used ≤ len
    → used + length (list_loop len ext used entries) ≤ len
unfolding list_loop
list_loop-bound len ext used [] h = omega arith
list_loop-bound len ext used (e ∷ entries) h =
    let n = length e.name - length ext in
    let stem = take n e.name in
    let P = λ (out : List ℕ). used + length out ≤ len in
    let skip = leb (length e.name) (length ext) || not (same_bytes (drop n e.name) ext) in
    elim (Bool-cases skip) [
      | inl s ↦ rw s (list_loop-bound len ext used entries h)
      | inr s ↦ rw s (elim (Bool-cases (ltb len (used + length stem + 1))) [
        | inl t ↦ rw t (omega arith)
        | inr t ↦ rw t (
            omega (
              arith,
              length-append stem (10 ∷ list_loop len ext (used + length stem + 1) entries),
              list_loop-bound len ext (used + length stem + 1) entries (ltb→le _ _ t),
            ))
      ])
    ]

-- Whatever the directory holds, the list of hazk03_asset_list is at most as long as its buffer.
pub length-asset_list :
    (len : ℕ) (ext : List ℕ) (entries : Option (List Entry))
    → length (asset_list len ext entries) ≤ len
unfolding asset_list
length-asset_list len ext none = omega arith
length-asset_list len ext (some entries) =
    omega (arith, list_loop-bound len ext 0 entries (omega arith))

-- What makes a name an asset's: a plain part of a path, of 1 to 32 bytes, whose path fits the buffer.
pub record Named (len : ℕ) (dir name ext path : List ℕ) : Type 0 where
  pub whole : path ≡ dir ++ slash ∷ (name ++ ext)
  pub plain : All (λ (c : ℕ). (c ≢ slash) × (c ≢ 0)) name
  pub some_name : 0 < length name
  pub short : length name ≤ asset_name_max
  pub fits : length path < len

plain_byte : (c : ℕ) → (not (c == slash || c == 0) ≡ true) ↔ ((c ≢ slash) × (c ≢ 0))
plain_byte c = ground arith

and-intro : (a b : Bool) → a ≡ true → b ≡ true → (a && b) ≡ true
and-intro a b h k = rw (h, k) refl

plain_name-to :
    (name : List ℕ) → plain_name name ≡ true → All (λ (c : ℕ). (c ≢ slash) × (c ≢ 0)) name
unfolding plain_name
plain_name-to [] h = tt
plain_name-to (c ∷ rest) h =
    let split = both (not (c == slash || c == 0)) (plain_name rest) h in
    ((plain_byte c).0 split.0, plain_name-to rest split.1)

plain_name-from :
    (name : List ℕ) → All (λ (c : ℕ). (c ≢ slash) × (c ≢ 0)) name → plain_name name ≡ true
unfolding plain_name
plain_name-from [] h = refl
plain_name-from (c ∷ rest) h =
    and-intro (not (c == slash || c == 0)) (plain_name rest) ((plain_byte c).1 h.0)
      (plain_name-from rest h.1)

checks :
    (len : ℕ) (dir name ext path : List ℕ)
    → asset_path len dir name ext ≡ some path
    → (path ≡ dir ++ slash ∷ (name ++ ext))
      × ((plain_name name ≡ true) × (length (dir ++ slash ∷ (name ++ ext)) < len))
unfolding asset_path
checks len dir name ext path h = ground arith

asset_path-some :
    (len : ℕ) (dir name ext : List ℕ)
    → plain_name name ≡ true
    → 0 < length name
    → length name ≤ asset_name_max
    → length (dir ++ slash ∷ (name ++ ext)) < len
    → asset_path len dir name ext ≡ some (dir ++ slash ∷ (name ++ ext))
unfolding asset_path
asset_path-some len dir name ext h i j k = ground arith

-- hazk03_asset_path gives a path exactly where the name has 1 to 32 bytes, none of them a separator
-- or zero, and the path fits the buffer with its final zero; the path is the directory, a separator,
-- the name and the ending.
pub asset_path-Named :
    (len : ℕ) (dir name ext path : List ℕ)
    → (asset_path len dir name ext ≡ some path) ↔ Named len dir name ext path
unfolding asset_path
asset_path-Named len dir name ext path = (
  λ h. record {
    whole = (checks len dir name ext path h).0;
    plain = plain_name-to name (checks len dir name ext path h).1.0;
    some_name = ground arith;
    short = ground arith;
    fits =
        omega (
          arith,
          (checks len dir name ext path h).1.1,
          ap length (checks len dir name ext path h).0,
        );
  },
  λ n.
      asset_path-some len dir name ext (plain_name-from name n.plain) n.some_name n.short
        (omega (arith, n.fits, ap length n.whole))
      ∙ ap some (sym n.whole),
)
