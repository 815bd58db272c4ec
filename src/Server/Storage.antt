-- ===== src/Server/Storage.antt =====
-- The handlers of the storage: ipc_path_ok, ipc_take_path, ipc_fs_list, ipc_fs_read, ipc_fs_delete,
-- ipc_fs_mkdir, ipc_asset_mkdir and ipc_fs_write. A path in a buffer ends at its first zero byte.
pub mod Replies
pub mod Paths
pub mod Handlers
use telegraph_stm_fw.Base.{
  ℕ, ◌+◌, ◌-◌, List, [], ◌∷◌, ◌++◌, length, take, drop, byte_at, Bool, true, false, ◌==◌, ◌!=◌,
  ◌&&◌, ◌||◌, not, ltb, leb, if◌then◌else◌, u8, u16, u32, Option, none, some, bit_and,
}
use telegraph_stm_fw.Ipc.Wire.{Frame, get_u16, get_u32, put_u16, put_u32}
use telegraph_stm_fw.Ipc.Payload.{err_bad_length, err_bad_payload}
use telegraph_stm_fw.Server.Board.{Board, Entry}
use telegraph_stm_fw.Server.Link.{Ctx, send_frame, ack, nack}
use telegraph_stm_fw.Server.Settings.{err_failed}
use telegraph_stm_fw.Server.Assets.{slash}

-- The text of a buffer that ends at its first zero byte.
unfoldable pub until_zero : List ℕ → List ℕ
until_zero [] = []
until_zero (c ∷ rest) = if c == 0 then [] else c ∷ until_zero rest

-- strstr(path, "..") finds something.
pub has_dots : List ℕ → Bool
has_dots [] = false
has_dots (c ∷ []) = false
has_dots (c ∷ d ∷ rest) = (c == 46 && d == 46) || has_dots (d ∷ rest)

-- The path begins with the root, and the root ends an element of it there.
pub under_root : List ℕ → List ℕ → Bool
under_root [] [] = true
under_root [] (c ∷ rest) = c == slash
under_root (r ∷ root) [] = false
under_root (r ∷ root) (c ∷ rest) = r == c && under_root root rest

-- IPC_ROOT_ASSETS and IPC_ROOT_MEDIA
abbrev pub assets_root : List ℕ
assets_root = slash ∷ b'a' ∷ b's' ∷ b's' ∷ b'e' ∷ b't' ∷ b's' ∷ []

abbrev pub media_root : List ℕ
media_root = slash ∷ b'm' ∷ b'e' ∷ b'd' ∷ b'i' ∷ b'a' ∷ []

-- ipc_path_ok
pub path_ok : List ℕ → Bool
path_ok path =
    if has_dots path then false else under_root assets_root path || under_root media_root path

-- IPC_FS_PATH_MAX
abbrev pub fs_path_max : ℕ
fs_path_max = 64

-- ipc_take_path into a buffer of `size` bytes; `none` stands for false.
pub take_path : Frame → ℕ → ℕ → Option (List ℕ)
take_path f offset size =
    let len = f.payload_len - offset in
    let path = until_zero (take len (drop offset f.payload)) in
    if leb f.payload_len offset
    then none
    else if leb size len
    then none
    else if path_ok path
    then some path
    else none

-- The path of a payload of ipc_fs_write, `none` where it is refused.
pub written_path : Frame → Option (List ℕ)
written_path f =
    let pathlen = byte_at f.payload 1 in
    let path = until_zero (take pathlen (drop 2 f.payload)) in
    if pathlen == 0 || ltb fs_path_max pathlen || ltb f.payload_len (2 + pathlen)
    then none
    else if path_ok path
    then some path
    else none

-- What the loop of ipc_fs_list leaves: the next cursor, and the records of the entries.
pub record Listed : Type 0 where
  pub cursor : ℕ
  pub records : List ℕ

-- IPC_FS_REPLY_MAX
abbrev pub fs_reply_max : ℕ
fs_reply_max = 516

-- The path before the last separator; `none` where there is no separator or only the first byte is
-- one. `dir` is what stands before the last separator so far.
pub parent_loop : List ℕ → List ℕ → Option (List ℕ) → Option (List ℕ)
parent_loop seen [] dir = dir
parent_loop seen (c ∷ rest) dir =
    parent_loop (seen ++ c ∷ []) rest
      (if c == slash && not (length seen == 0) then some seen else dir)

module _ (b : Board) where
  open b use {World}

  abbrev pub size_of : Option ℕ → ℕ
  size_of none = 0
  size_of (some n) = n

  -- One record of a list: the kind, the size, the length of the name and the name. The size comes
  -- from a stat of the path in a buffer of 130 bytes.
  pub entry_record : List ℕ → World → Entry → List ℕ
  entry_record path w e =
      let size = size_of (b.file_size (take 129 (path ++ slash ∷ e.name)) w) in
      (if e.is_dir then 1 else 0) ∷ put_u32 (if e.is_dir then 0 else u32 size)
      ++ u8 (length e.name) ∷ e.name

  pub list_entries : List ℕ → World → ℕ → ℕ → ℕ → List Entry → Listed
  list_entries path w cursor ordinal used [] = record { cursor = 0xffff; records = [] }
  list_entries path w cursor ordinal used (e ∷ entries) =
      let passed = list_entries path w cursor (u16 (ordinal + 1)) used entries in
      let rest =
        list_entries path w cursor (u16 (ordinal + 1)) (used + (6 + length e.name)) entries in
      if ltb ordinal cursor
      then passed
      else if ltb fs_reply_max (used + 6 + length e.name)
      then record { cursor = ordinal; records = [] }
      else record { cursor = rest.cursor; records = entry_record path w e ++ rest.records }

  pub list_opened : Frame → List ℕ → Option (List Entry) → Ctx World → Ctx World
  list_opened f path none c = nack b f.corr_id err_failed c
  list_opened f path (some entries) c =
      let listed = list_entries path c.world (get_u16 f.payload) 0 2 entries in
      send_frame b f.opcode f.corr_id (put_u16 listed.cursor ++ listed.records) c

  pub list_path : Frame → Option (List ℕ) → Ctx World → Ctx World
  list_path f none c = nack b f.corr_id err_bad_payload c
  list_path f (some path) c = list_opened f path (b.read_dir path c.world) c

  -- ipc_fs_list
  pub fs_list : Frame → Ctx World → Ctx World
  fs_list f c =
      if ltb f.payload_len 2
      then nack b f.corr_id err_bad_length c
      else list_path f (take_path f 2 (fs_path_max + 1)) c

  pub send_part : Frame → ℕ → Option (List ℕ) → Ctx World → Ctx World
  send_part f offset none c = nack b f.corr_id err_failed c
  send_part f offset (some bytes) c = send_frame b f.opcode f.corr_id (put_u32 offset ++ bytes) c

  pub read_opened : Frame → ℕ → ℕ → Option ℕ → Ctx World → Ctx World
  read_opened f offset len none c = nack b f.corr_id err_failed c
  read_opened f offset len (some fd) c =
      let at = b.seek fd offset c.world in
      let got = b.read fd len at.1 in
      if at.0
      then send_part f offset got.0 (record c { world = b.close fd got.1 })
      else nack b f.corr_id err_failed (record c { world = b.close fd at.1 })

  pub read_path : Frame → ℕ → ℕ → Option (List ℕ) → Ctx World → Ctx World
  read_path f offset len none c = nack b f.corr_id err_bad_payload c
  read_path f offset len (some path) c =
      let opened = b.open_read path c.world in
      read_opened f offset len opened.0 (record c { world = opened.1 })

  -- ipc_fs_read
  pub fs_read : Frame → Ctx World → Ctx World
  fs_read f c =
      let asked = get_u16 (drop 4 f.payload) in
      if ltb f.payload_len 6
      then nack b f.corr_id err_bad_length c
      else read_path f (get_u32 f.payload) (if ltb 512 asked then 512 else asked)
          (take_path f 6 (fs_path_max + 1)) c

  pub delete_path : Frame → Option (List ℕ) → Ctx World → Ctx World
  delete_path f none c = nack b f.corr_id err_bad_payload c
  delete_path f (some path) c =
      let file = b.unlink path c.world in
      let dir = b.rmdir path file.1 in
      if file.0
      then ack b f.corr_id (record c { world = file.1 })
      else if dir.0
      then ack b f.corr_id (record c { world = dir.1 })
      else nack b f.corr_id err_failed (record c { world = dir.1 })

  -- ipc_fs_delete
  pub fs_delete : Frame → Ctx World → Ctx World
  fs_delete f = delete_path f (take_path f 0 (fs_path_max + 1))

  pub make_path : Frame → Option (List ℕ) → Ctx World → Ctx World
  make_path f none c = nack b f.corr_id err_bad_payload c
  make_path f (some path) c =
      let made = b.mkdir path c.world in
      let c' = record c { world = made.1 } in
      if made.0 then ack b f.corr_id c' else nack b f.corr_id err_failed c'

  -- ipc_fs_mkdir
  pub fs_mkdir : Frame → Ctx World → Ctx World
  fs_mkdir f = make_path f (take_path f 0 (fs_path_max + 1))

  -- ipc_asset_mkdir
  pub make_parent : Option (List ℕ) → World → World
  make_parent none w = w
  make_parent (some dir) w = (b.mkdir dir w).1

  pub asset_mkdir : List ℕ → World → World
  asset_mkdir path w = make_parent (parent_loop [] path none) w

  pub close_open : Option ℕ → World → World
  close_open none w = w
  close_open (some fd) w = b.close fd w

  pub retry_open : List ℕ → Option ℕ → Ctx World → Ctx World
  retry_open path (some fd) c = record c { asset_fd = some fd }
  retry_open path none c =
      let opened = b.open_write path (asset_mkdir path c.world) in
      record c { asset_fd = opened.0; world = opened.1 }

  -- The part of ipc_fs_write for IPC_FS_WRITE_FIRST.
  pub open_first : List ℕ → Ctx World → Ctx World
  open_first path c =
      let opened = b.open_write path (close_open c.asset_fd c.world) in
      retry_open path opened.0 (record c { world = opened.1 })

  pub close_last : ℕ → ℕ → Ctx World → Ctx World
  close_last fd flags c =
      if bit_and flags 0x02 != 0
      then record c { asset_fd = none; world = b.close fd c.world }
      else c

  pub write_open : ℕ → ℕ → List ℕ → Option ℕ → Ctx World → Ctx World
  write_open corr_id flags bytes none c = nack b corr_id err_failed c
  write_open corr_id flags bytes (some fd) c =
      let put = b.write fd bytes c.world in
      if length bytes == 0
      then ack b corr_id (close_last fd flags c)
      else if put.0
      then ack b corr_id (close_last fd flags (record c { world = put.1 }))
      else nack b corr_id err_failed (record c { asset_fd = none; world = b.close fd put.1 })

  pub write_path : Frame → ℕ → List ℕ → Ctx World → Ctx World
  write_path f pathlen path c =
      let flags = byte_at f.payload 0 in
      let c' = if bit_and flags 0x01 != 0 then open_first path c else c in
      let bytes = take (f.payload_len - (2 + pathlen)) (drop (2 + pathlen) f.payload) in
      write_open f.corr_id flags bytes c'.asset_fd c'

  pub write_named : Frame → Option (List ℕ) → Ctx World → Ctx World
  write_named f none c = nack b f.corr_id err_bad_payload c
  write_named f (some path) c = write_path f (byte_at f.payload 1) path c

  -- ipc_fs_write
  pub fs_write : Frame → Ctx World → Ctx World
  fs_write f c =
      if ltb f.payload_len 2
      then nack b f.corr_id err_bad_length c
      else write_named f (written_path f) c
