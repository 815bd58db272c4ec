-- ===== src/Server/Assets.antt =====
-- boards/hazk03-stm32f105rb/src/assets.c: the path of an asset from the name that the link gives,
-- and the list of the names of one kind.
pub mod Names
use telegraph_stm_fw.Base.{
  ℕ, ◌+◌, ◌-◌, List, [], ◌∷◌, ◌++◌, length, take, drop, Bool, true, ◌==◌, ◌&&◌, ◌||◌, not, ltb, leb,
  if◌then◌else◌, Option, none, some,
}
use telegraph_stm_fw.Time.{same_bytes}
use telegraph_stm_fw.Server.Board.{Entry}

abbrev pub slash : ℕ
slash = 47

-- "/assets/fonts", ".tgf", "/assets/animations" and ".tgs"
abbrev pub font_dir : List ℕ
font_dir =
    slash ∷ b'a' ∷ b's' ∷ b's' ∷ b'e' ∷ b't' ∷ b's' ∷ slash ∷ b'f' ∷ b'o' ∷ b'n' ∷ b't' ∷ b's' ∷ []

abbrev pub font_ext : List ℕ
font_ext = 46 ∷ b't' ∷ b'g' ∷ b'f' ∷ []

abbrev pub anim_dir : List ℕ
anim_dir =
    slash ∷ b'a' ∷ b's' ∷ b's' ∷ b'e' ∷ b't' ∷ b's' ∷ slash ∷ b'a' ∷ b'n' ∷ b'i' ∷ b'm' ∷ b'a'
    ∷ b't' ∷ b'i' ∷ b'o' ∷ b'n' ∷ b's' ∷ []

abbrev pub anim_ext : List ℕ
anim_ext = 46 ∷ b't' ∷ b'g' ∷ b's' ∷ []

-- HAZK03_ASSET_NAME_MAX
abbrev pub asset_name_max : ℕ
asset_name_max = 32

-- No byte of the name is a separator or zero.
pub plain_name : List ℕ → Bool
plain_name [] = true
plain_name (c ∷ rest) = not (c == slash || c == 0) && plain_name rest

-- hazk03_asset_path into a buffer of `len` bytes; `none` stands for -EINVAL.
pub asset_path : ℕ → List ℕ → List ℕ → List ℕ → Option (List ℕ)
unfolding plain_name
asset_path len dir name ext =
    let path = dir ++ slash ∷ (name ++ ext) in
    if length name == 0 || ltb asset_name_max (length name)
    then none
    else if not (plain_name name)
    then none
    else if leb len (length path)
    then none
    else some path

-- The loop of hazk03_asset_list over the entries left, `used` bytes into a buffer of `len`.
pub list_loop : ℕ → List ℕ → ℕ → List Entry → List ℕ
list_loop len ext used [] = []
list_loop len ext used (e ∷ entries) =
    let stem = take (length e.name - length ext) e.name in
    let skipped = list_loop len ext used entries in
    let taken = stem ++ 10 ∷ list_loop len ext (used + length stem + 1) entries in
    if leb (length e.name) (length ext)
      || not (same_bytes (drop (length e.name - length ext) e.name) ext)
    then skipped
    else if ltb len (used + length stem + 1)
    then []
    else taken

-- hazk03_asset_list; `none` is a directory that does not open.
pub asset_list : ℕ → List ℕ → Option (List Entry) → List ℕ
unfolding list_loop
asset_list len ext none = []
asset_list len ext (some entries) = list_loop len ext 0 entries
