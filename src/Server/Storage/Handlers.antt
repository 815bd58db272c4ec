-- ===== src/Server/Storage/Handlers.antt =====
-- The requests of the storage: each refuses its frame, or works on a path that is safe.
use telegraph_stm_fw.Base.{
  ℕ, ◌+◌, ◌≡◌, ◌⊎◌, inl, inr, refl, List, Option, none, some, drop, byte_at, ltb, if◌then◌else◌,
  if_split,
}
use telegraph_stm_fw.Ipc.Wire.{Frame, get_u16, get_u32}
use telegraph_stm_fw.Ipc.Payload.{err_bad_length, err_bad_payload}
use telegraph_stm_fw.Server.Board.{Board}
use telegraph_stm_fw.Server.Link.{Ctx, nack}
use telegraph_stm_fw.Server.Storage.{
  fs_path_max, take_path, written_path, list_path, fs_list, read_path, fs_read, delete_path,
  fs_delete, make_path, fs_mkdir, write_path, write_named, fs_write,
}
use telegraph_stm_fw.Server.Storage.Paths.{Safe, take_path-Safe, written_path-Safe}

-- The requests that name a path.
pub data Request : Type 0 where
  list read delete make write : Request

module _ (b : Board) where
  open b use {World}

  abbrev pub handle : Request → Frame → Ctx World → Ctx World
  handle list = fs_list b
  handle read = fs_read b
  handle delete = fs_delete b
  handle make = fs_mkdir b
  handle write = fs_write b

  -- What a request does with a path that it takes.
  abbrev pub on_path : Request → Frame → List ℕ → Ctx World → Ctx World
  on_path list f path = list_path b f (some path)
  on_path read f path =
      let asked = get_u16 (drop 4 f.payload) in
      read_path b f (get_u32 f.payload) (if ltb 512 asked then 512 else asked) (some path)
  on_path delete f path = delete_path b f (some path)
  on_path make f path = make_path b f (some path)
  on_path write f path = write_path b f (byte_at f.payload 1) path

  -- The result of a request is a refusal alone, or that of its work on a safe path.
  abbrev pub Guarded : Request → Frame → Ctx World → Ctx World → Type 0
  Guarded r f c c' =
      ((error : ℕ) × (c' ≡ nack b f.corr_id error c))
      ⊎ ((path : List ℕ) × Safe (fs_path_max + 1) path × (c' ≡ on_path r f path c))

  -- The work on a path that may be refused.
  named-Guarded :
      (r : Request) (f : Frame) (c : Ctx World) (go : Option (List ℕ) → Ctx World)
      (path : Option (List ℕ))
      → go none ≡ nack b f.corr_id err_bad_payload c
      → ((p : List ℕ) → go (some p) ≡ on_path r f p c)
      → ((p : List ℕ) → path ≡ some p → Safe (fs_path_max + 1) p)
      → Guarded r f c (go path)
  named-Guarded r f c go none refused works safe = inl (err_bad_payload, refused)
  named-Guarded r f c go (some p) refused works safe = inr (p, safe p refl, works p)

  -- Every request of the storage that names a path only refuses its frame, or does its work on a path
  -- that holds no two dots in a row and no zero byte, is one of the two roots or stands below it, and
  -- fits its buffer.
  pub handle-Guarded : (r : Request) (f : Frame) (c : Ctx World) → Guarded r f c (handle r f c)
  unfolding fs_list list_path fs_read read_path fs_delete delete_path fs_mkdir make_path fs_write
      write_named
  handle-Guarded list f c =
      if_split (Guarded list f c) (ltb f.payload_len 2) (λ short. inl (err_bad_length, refl))
        (λ long.
          named-Guarded list f c (λ p. list_path b f p c) (take_path f 2 (fs_path_max + 1)) refl
            (λ p. refl) (take_path-Safe f 2 (fs_path_max + 1)))
  handle-Guarded read f c =
      let asked = get_u16 (drop 4 f.payload) in
      let len = if ltb 512 asked then 512 else asked in
      if_split (Guarded read f c) (ltb f.payload_len 6) (λ short. inl (err_bad_length, refl))
        (λ long.
          named-Guarded read f c (λ p. read_path b f (get_u32 f.payload) len p c)
            (take_path f 6 (fs_path_max + 1)) refl (λ p. refl)
            (take_path-Safe f 6 (fs_path_max + 1)))
  handle-Guarded delete f c =
      named-Guarded delete f c (λ p. delete_path b f p c) (take_path f 0 (fs_path_max + 1)) refl
        (λ p. refl) (take_path-Safe f 0 (fs_path_max + 1))
  handle-Guarded make f c =
      named-Guarded make f c (λ p. make_path b f p c) (take_path f 0 (fs_path_max + 1)) refl
        (λ p. refl) (take_path-Safe f 0 (fs_path_max + 1))
  handle-Guarded write f c =
      if_split (Guarded write f c) (ltb f.payload_len 2) (λ short. inl (err_bad_length, refl))
        (λ long.
          named-Guarded write f c (λ p. write_named b f p c) (written_path f) refl (λ p. refl)
            (written_path-Safe f))
