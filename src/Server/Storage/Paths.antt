-- ===== src/Server/Storage/Paths.antt =====
-- The paths that the storage accepts from the link.
use telegraph_stm_fw.Base.{
  ℕ, List, [], ◌∷◌, ◌++◌, ◌-◌, byte_at, ◌≤◌, ◌<◌, ◌≢◌, ◌≡◌, ◌⊎◌, refl, sym, subst, ap, ap₂, ◌∙◌,
  ◌==◌, ◌||◌, ==_iff, ==-ne, true, false, Bool-cases, both, either, true-not_false, length,
  length-take, take, drop, arith, some, inl, inr, All,
}
use telegraph_stm_fw.Ipc.Wire.{Frame}
use telegraph_stm_fw.Server.Assets.{slash}
use telegraph_stm_fw.Server.Storage.{
  until_zero, has_dots, under_root, assets_root, media_root, path_ok, take_path, written_path,
}

-- The path is the root, or the root, a separator and more.
pub record Under (root path : List ℕ) : Type 0 where
  pub rest : List ℕ
  pub whole : path ≡ root ++ rest
  pub parted : (rest ≡ []) ⊎ ((more : List ℕ) × (rest ≡ slash ∷ more))

has_dots-append : (before after : List ℕ) → has_dots (before ++ 46 ∷ 46 ∷ after) ≡ true
unfolding has_dots
has_dots-append [] after = refl
has_dots-append (c ∷ []) after = simp (has_dots-append [] after) (ground arith)
has_dots-append (c ∷ d ∷ before) after = rw (has_dots-append (d ∷ before) after) (ground arith)

under_root-Under : (root path : List ℕ) → under_root root path ≡ true → Under root path
unfolding under_root
under_root-Under [] [] h = record { rest = []; whole = refl; parted = inl refl }
under_root-Under [] (c ∷ rest) h = record {
  rest = c ∷ rest;
  whole = refl;
  parted = inr (rest, ap (λ (d : ℕ). d ∷ rest) ((==_iff c slash).0 h));
}
under_root-Under (r ∷ root) [] h = absurd (true-not_false h refl)
under_root-Under (r ∷ root) (c ∷ path) h =
    let split = both (r == c) (under_root root path) h in
    let under = under_root-Under root path split.1 in
    record {
      rest = under.rest;
      whole = ap₂ (λ (a : ℕ) (p : List ℕ). a ∷ p) (sym ((==_iff r c).0 split.0)) under.whole;
      parted = under.parted;
    }

-- What a path from the link has when a handler of the storage uses it.
pub record Safe (size : ℕ) (path : List ℕ) : Type 0 where
  pub no_dots : (before after : List ℕ) → path ≢ before ++ 46 ∷ 46 ∷ after
  pub rooted : Under assets_root path ⊎ Under media_root path
  pub no_zero : All (λ (c : ℕ). c ≢ 0) path
  pub fits : length path < size

until_zero-plain : (bytes : List ℕ) → All (λ (c : ℕ). c ≢ 0) (until_zero bytes)
unfolding until_zero
until_zero-plain [] = tt
until_zero-plain (c ∷ rest) = elim (Bool-cases (c == 0)) [
  | inl e ↦ rw e tt
  | inr e ↦ rw e (==-ne c 0 e, until_zero-plain rest)
]

length-until_zero : (bytes : List ℕ) → length (until_zero bytes) ≤ length bytes
unfolding until_zero
length-until_zero [] = omega arith
length-until_zero (c ∷ rest) = elim (Bool-cases (c == 0)) [
  | inl e ↦ rw e (omega arith)
  | inr e ↦ rw e (omega (arith, length-until_zero rest))
]

no_dots_of : (path : List ℕ) → path_ok path ≡ true → has_dots path ≡ false
unfolding path_ok
no_dots_of path ok = ground arith

root_of :
    (path : List ℕ)
    → path_ok path ≡ true
    → (under_root assets_root path || under_root media_root path) ≡ true
unfolding path_ok
root_of path ok = ground arith

path_ok-no_dots :
    (path : List ℕ)
    → path_ok path ≡ true
    → (before after : List ℕ) → path ≢ before ++ 46 ∷ 46 ∷ after
path_ok-no_dots path ok before after e =
    true-not_false (ap has_dots e ∙ has_dots-append before after) (no_dots_of path ok)

path_ok-rooted :
    (path : List ℕ) → path_ok path ≡ true → Under assets_root path ⊎ Under media_root path
path_ok-rooted path ok =
    elim (either (under_root assets_root path) (under_root media_root path) (root_of path ok)) [
      | inl a ↦ inl (under_root-Under assets_root path a)
      | inr m ↦ inr (under_root-Under media_root path m)
    ]

record Taken (f : Frame) (offset size : ℕ) (path : List ℕ) : Type 0 where
  text : path ≡ until_zero (take (f.payload_len - offset) (drop offset f.payload))
  short : f.payload_len - offset < size
  ok : path_ok path ≡ true

take_path-Taken :
    (f : Frame) (offset size : ℕ) (path : List ℕ)
    → take_path f offset size ≡ some path
    → Taken f offset size path
unfolding take_path
take_path-Taken f offset size path h =
    let len = f.payload_len - offset in
    let made = until_zero (take len (drop offset f.payload)) in
    record { text = ground arith; short = ground arith; ok = ground arith }

pub take_path-Safe :
    (f : Frame) (offset size : ℕ) (path : List ℕ)
    → take_path f offset size ≡ some path
    → Safe size path
take_path-Safe f offset size path h =
    let t = take_path-Taken f offset size path h in
    let bytes = take (f.payload_len - offset) (drop offset f.payload) in
    record {
      no_dots = path_ok-no_dots path t.ok;
      rooted = path_ok-rooted path t.ok;
      no_zero = subst (All (λ (c : ℕ). c ≢ 0)) (sym t.text) (until_zero-plain bytes);
      fits = omega (
        arith,
        ap length t.text,
        length-until_zero bytes,
        length-take (f.payload_len - offset) (drop offset f.payload),
        t.short,
      );
    }

record Written (f : Frame) (path : List ℕ) : Type 0 where
  text : path ≡ until_zero (take (byte_at f.payload 1) (drop 2 f.payload))
  short : byte_at f.payload 1 ≤ 64
  ok : path_ok path ≡ true

written_path-Written : (f : Frame) (path : List ℕ) → written_path f ≡ some path → Written f path
unfolding written_path
written_path-Written f path h =
    let made = until_zero (take (byte_at f.payload 1) (drop 2 f.payload)) in
    record { text = ground arith; short = ground arith; ok = ground arith }

pub written_path-Safe : (f : Frame) (path : List ℕ) → written_path f ≡ some path → Safe 65 path
written_path-Safe f path h =
    let t = written_path-Written f path h in
    let bytes = take (byte_at f.payload 1) (drop 2 f.payload) in
    record {
      no_dots = path_ok-no_dots path t.ok;
      rooted = path_ok-rooted path t.ok;
      no_zero = subst (All (λ (c : ℕ). c ≢ 0)) (sym t.text) (until_zero-plain bytes);
      fits = omega (
        arith,
        ap length t.text,
        length-until_zero bytes,
        length-take (byte_at f.payload 1) (drop 2 f.payload),
        t.short,
      );
    }
