-- ===== src/Server/Storage/Replies.antt =====
-- The replies of the handlers of the storage.
use telegraph_stm_fw.Base.{
  if_both, ℕ, List, [], ◌∷◌, ◌+◌, ◌≤◌, ◌≡◌, ltb, refl, ◌∙◌, if◌then◌else◌, length, arith, u16,
  length-append, Option, none, some, Bool-cases, inl, inr, ltb→le,
}
use telegraph_stm_fw.Ipc.Wire.{Frame, get_u16}
use telegraph_stm_fw.Ipc.Wire.Fields.{length-put_u16, length-put_u32}
use telegraph_stm_fw.Server.Board.{Board, Lawful, Entry}
use telegraph_stm_fw.Server.Link.{Ctx}
use telegraph_stm_fw.Server.Link.Replies.{
  Answers, ack-Answers, nack-Answers, send_frame-Answers, branch,
}
use telegraph_stm_fw.Server.Storage.{
  entry_record, list_entries, fs_reply_max, list_opened, list_path, fs_list, send_part, read_opened,
  read_path, fs_read, delete_path, fs_delete, make_path, fs_mkdir, retry_open, open_first,
  close_last, write_open, write_path, write_named, fs_write,
}

module _ (b : Board) (id : ℕ) where
  open b use {World}

  length-entry_record :
      (path : List ℕ) (w : World) (e : Entry) → length (entry_record b path w e) ≡ 6 + length e.name
  unfolding entry_record
  length-entry_record path w e = simp (length-append, length-put_u32) (omega arith)

  list_entries-bound :
      (path : List ℕ) (w : World) (cursor ordinal used : ℕ) (entries : List Entry)
      → used ≤ fs_reply_max
      → used + length (list_entries b path w cursor ordinal used entries).records ≤ fs_reply_max
  unfolding list_entries
  list_entries-bound path w cursor ordinal used [] h = omega arith
  list_entries-bound path w cursor ordinal used (e ∷ entries) h =
      elim (Bool-cases (ltb ordinal cursor)) [
        | inl s ↦ rw s (list_entries-bound path w cursor (u16 (ordinal + 1)) used entries h)
        | inr s ↦ rw s (elim (Bool-cases (ltb fs_reply_max (used + 6 + length e.name))) [
          | inl t ↦ rw t (omega arith)
          | inr t ↦
              let rest =
                list_entries b path w cursor (u16 (ordinal + 1)) (used + (6 + length e.name))
                  entries in
              rw t (
                omega (
                  arith,
                  length-append (entry_record b path w e) rest.records,
                  length-entry_record path w e,
                  ltb→le _ _ t,
                  list_entries-bound path w cursor (u16 (ordinal + 1)) (used + (6 + length e.name))
                      entries (omega (arith, ltb→le _ _ t)),
                ))
        ])
      ]

  list_opened-Answers :
      (f : Frame) (path : List ℕ) (entries : Option (List Entry)) (c : Ctx World)
      → Answers b id f.corr_id c.sent (list_opened b f path entries c)
  unfolding list_opened
  list_opened-Answers f path none c = nack-Answers b id _ _ _ refl
  list_opened-Answers f path (some entries) c =
      let listed = list_entries b path c.world (get_u16 f.payload) 0 2 entries in
      send_frame-Answers b id _ _ _ c
        (simp (length-append, length-put_u16)
          (omega
            (arith, list_entries-bound path c.world (get_u16 f.payload) 0 2 entries (omega arith))))
        refl

  list_path-Answers :
      (f : Frame) (path : Option (List ℕ)) (c : Ctx World)
      → Answers b id f.corr_id c.sent (list_path b f path c)
  unfolding list_path
  list_path-Answers f none c = nack-Answers b id _ _ _ refl
  list_path-Answers f (some path) c = list_opened-Answers f path _ c

  pub fs_list-Answers : (f : Frame) (c : Ctx World) → Answers b id f.corr_id c.sent (fs_list b f c)
  unfolding fs_list
  fs_list-Answers f c = search (branch b id, nack-Answers b id, list_path-Answers)

  send_part-Answers :
      (f : Frame) (offset : ℕ) (part : Option (List ℕ)) (c : Ctx World) {s : List Frame}
      → ((bytes : List ℕ) → part ≡ some bytes → length bytes ≤ 512)
      → c.sent ≡ s
      → Answers b id f.corr_id s (send_part b f offset part c)
  unfolding send_part
  send_part-Answers f offset none c h = nack-Answers b id _ _ _
  send_part-Answers f offset (some bytes) c h =
      send_frame-Answers b id _ _ _ c
        (simp (length-append, length-put_u32) (omega (arith, h bytes refl)))

  read_opened-Answers :
      Lawful b
      → (f : Frame) (offset len : ℕ) (fd : Option ℕ) (c : Ctx World) {s : List Frame} → len ≤ 512
      → c.sent ≡ s
      → Answers b id f.corr_id s (read_opened b f offset len fd c)
  unfolding read_opened
  read_opened-Answers law f offset len none c h k = nack-Answers b id _ _ _ k
  read_opened-Answers law f offset len (some fd) c h k =
      branch b id _
        (send_part-Answers f offset _ _ (λ bytes e. omega (arith, law.read_bound fd len _ bytes e))
          k)
        (nack-Answers b id _ _ _ k)

  read_path-Answers :
      Lawful b
      → (f : Frame) (offset len : ℕ) (path : Option (List ℕ)) (c : Ctx World) → len ≤ 512
      → Answers b id f.corr_id c.sent (read_path b f offset len path c)
  unfolding read_path
  read_path-Answers law f offset len none c h = nack-Answers b id _ _ _ refl
  read_path-Answers law f offset len (some path) c h =
      read_opened-Answers law f offset len _ _ h refl

  at_most : (n : ℕ) → (if ltb 512 n then 512 else n) ≤ 512
  at_most n = ground arith

  pub fs_read-Answers :
      Lawful b → (f : Frame) (c : Ctx World) → Answers b id f.corr_id c.sent (fs_read b f c)
  unfolding fs_read
  fs_read-Answers law f c = search (branch b id, nack-Answers b id, read_path-Answers, at_most)

  delete_path-Answers :
      (f : Frame) (path : Option (List ℕ)) (c : Ctx World)
      → Answers b id f.corr_id c.sent (delete_path b f path c)
  unfolding delete_path
  delete_path-Answers f none c = nack-Answers b id _ _ _ refl
  delete_path-Answers f (some path) c = search (branch b id, ack-Answers b id, nack-Answers b id)

  pub fs_delete-Answers :
      (f : Frame) (c : Ctx World) → Answers b id f.corr_id c.sent (fs_delete b f c)
  unfolding fs_delete
  fs_delete-Answers f c = delete_path-Answers f _ c

  make_path-Answers :
      (f : Frame) (path : Option (List ℕ)) (c : Ctx World)
      → Answers b id f.corr_id c.sent (make_path b f path c)
  unfolding make_path
  make_path-Answers f none c = nack-Answers b id _ _ _ refl
  make_path-Answers f (some path) c = search (branch b id, ack-Answers b id, nack-Answers b id)

  pub fs_mkdir-Answers :
      (f : Frame) (c : Ctx World) → Answers b id f.corr_id c.sent (fs_mkdir b f c)
  unfolding fs_mkdir
  fs_mkdir-Answers f c = make_path-Answers f _ c

  retry_open-sent :
      (path : List ℕ) (fd : Option ℕ) (c : Ctx World) → (retry_open b path fd c).sent ≡ c.sent
  unfolding retry_open
  retry_open-sent path none c = refl
  retry_open-sent path (some fd) c = refl

  open_first-sent : (path : List ℕ) (c : Ctx World) → (open_first b path c).sent ≡ c.sent
  unfolding open_first
  open_first-sent path c = retry_open-sent path _ _

  close_last-sent : (fd flags : ℕ) (c : Ctx World) → (close_last b fd flags c).sent ≡ c.sent
  unfolding close_last
  close_last-sent fd flags c = if_both (λ (c' : Ctx World). c'.sent ≡ c.sent) _ refl refl

  write_open-Answers :
      (corr_id flags : ℕ) (bytes : List ℕ) (fd : Option ℕ) (c : Ctx World) {s : List Frame}
      → c.sent ≡ s
      → Answers b id corr_id s (write_open b corr_id flags bytes fd c)
  unfolding write_open
  write_open-Answers corr_id flags bytes none c h = nack-Answers b id _ _ _ h
  write_open-Answers corr_id flags bytes (some fd) c h =
      search (branch b id, ack-Answers b id, nack-Answers b id, close_last-sent, ◌∙◌)

  write_path-Answers :
      (f : Frame) (pathlen : ℕ) (path : List ℕ) (c : Ctx World)
      → Answers b id f.corr_id c.sent (write_path b f pathlen path c)
  unfolding write_path
  write_path-Answers f pathlen path c =
      write_open-Answers f.corr_id _ _ _ _
        (if_both (λ (c' : Ctx World). c'.sent ≡ c.sent) _ (open_first-sent path c) refl)

  write_named-Answers :
      (f : Frame) (path : Option (List ℕ)) (c : Ctx World)
      → Answers b id f.corr_id c.sent (write_named b f path c)
  unfolding write_named
  write_named-Answers f none c = nack-Answers b id _ _ _ refl
  write_named-Answers f (some path) c = write_path-Answers _ _ _ _

  pub fs_write-Answers :
      (f : Frame) (c : Ctx World) → Answers b id f.corr_id c.sent (fs_write b f c)
  unfolding fs_write
  fs_write-Answers f c = search (branch b id, nack-Answers b id, write_named-Answers)
