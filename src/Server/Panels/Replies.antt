-- ===== src/Server/Panels/Replies.antt =====
-- The replies of the handlers of the panels.
use telegraph_stm_fw.Base.{ℕ, List, ◌≡◌, refl, arith, Option, none, some}
use telegraph_stm_fw.Ipc.Wire.{Frame}
use telegraph_stm_fw.Ipc.Payload.{Checked, fine}
use telegraph_stm_fw.Ipc.Payload
use telegraph_stm_fw.Server.Board.{Board, Animated, shown, too_big, invalid}
use telegraph_stm_fw.Server.Link.{Ctx}
use telegraph_stm_fw.Server.Link.Replies.{
  Answers, ack-Answers, nack-Answers, send_frame-Answers, branch,
}
use telegraph_stm_fw.Server.Assets.Names.{length-asset_list}
use telegraph_stm_fw.Server.Panels.{
  panel_of, on_panel, text_on, set_text, pixels_on, set_pixels, animated, animate_on, animate,
  release_checked, release, animstop_checked, anim_stop, list, clear, load_font, set_font, set_anim,
  anim_speed, list_max,
}

module _ (b : Board) (id : ℕ) where
  open b use {World}

  on_panel-Answers :
      (handler : ℕ → Frame → Ctx World → Ctx World)
      → ((panel : ℕ) (f : Frame) (c : Ctx World)
          → Answers b id f.corr_id c.sent (handler panel f c))
      → (f : Frame) (p : Option ℕ) (c : Ctx World)
      → Answers b id f.corr_id c.sent (on_panel b handler f p c)
  unfolding on_panel
  on_panel-Answers handler h f none c = nack-Answers b id _ _ c refl
  on_panel-Answers handler h f (some panel) c = h panel f c

  text_on-Answers :
      (panel : ℕ) (f : Frame) (c : Ctx World) → Answers b id f.corr_id c.sent (text_on b panel f c)
  unfolding text_on
  text_on-Answers panel f c = search (branch b id, ack-Answers b id, nack-Answers b id)

  pub set_text-Answers :
      (f : Frame) (c : Ctx World) → Answers b id f.corr_id c.sent (set_text b f c)
  unfolding set_text
  set_text-Answers f c = on_panel-Answers (text_on b) text_on-Answers f (panel_of f) c

  pixels_on-Answers :
      (panel : ℕ) (f : Frame) (c : Ctx World)
      → Answers b id f.corr_id c.sent (pixels_on b panel f c)
  unfolding pixels_on
  pixels_on-Answers panel f c = search (branch b id, ack-Answers b id, nack-Answers b id)

  pub set_pixels-Answers :
      (f : Frame) (c : Ctx World) → Answers b id f.corr_id c.sent (set_pixels b f c)
  unfolding set_pixels
  set_pixels-Answers f c = on_panel-Answers (pixels_on b) pixels_on-Answers f (panel_of f) c

  animated-Answers :
      (corr_id : ℕ) (a : Animated) (c : Ctx World) {s : List Frame}
      → c.sent ≡ s
      → Answers b id corr_id s (animated b corr_id a c)
  unfolding animated
  animated-Answers corr_id shown c = ack-Answers b id _ _
  animated-Answers corr_id too_big c = nack-Answers b id _ _ _
  animated-Answers corr_id invalid c = nack-Answers b id _ _ _

  animate_on-Answers :
      (panel : ℕ) (f : Frame) (c : Ctx World)
      → Answers b id f.corr_id c.sent (animate_on b panel f c)
  unfolding animate_on
  animate_on-Answers panel f c = search (branch b id, animated-Answers, nack-Answers b id)

  pub animate-Answers : (f : Frame) (c : Ctx World) → Answers b id f.corr_id c.sent (animate b f c)
  unfolding animate
  animate-Answers f c = on_panel-Answers (animate_on b) animate_on-Answers f (panel_of f) c

  release_checked-Answers :
      (corr_id : ℕ) (p : Checked ℕ) (c : Ctx World)
      → Answers b id corr_id c.sent (release_checked b corr_id p c)
  unfolding release_checked
  release_checked-Answers corr_id (Payload.nack error) c = nack-Answers b id _ _ _ refl
  release_checked-Answers corr_id (fine panel) c = ack-Answers b id _ _ refl

  pub release-Answers : (f : Frame) (c : Ctx World) → Answers b id f.corr_id c.sent (release b f c)
  unfolding release
  release-Answers f c = release_checked-Answers f.corr_id _ c

  animstop_checked-Answers :
      (corr_id : ℕ) (p : Checked ℕ) (c : Ctx World)
      → Answers b id corr_id c.sent (animstop_checked b corr_id p c)
  unfolding animstop_checked
  animstop_checked-Answers corr_id (Payload.nack error) c = nack-Answers b id _ _ _ refl
  animstop_checked-Answers corr_id (fine panel) c = ack-Answers b id _ _ refl

  pub anim_stop-Answers :
      (f : Frame) (c : Ctx World) → Answers b id f.corr_id c.sent (anim_stop b f c)
  unfolding anim_stop
  anim_stop-Answers f c = animstop_checked-Answers f.corr_id _ c

  list-Answers :
      (f : Frame) (dir ext : List ℕ) (c : Ctx World)
      → Answers b id f.corr_id c.sent (list b f dir ext c)
  unfolding list
  list-Answers f dir ext c =
      send_frame-Answers b id _ _ _ c
        (omega (arith, length-asset_list list_max ext (b.read_dir dir c.world))) refl

  pub clear-Answers : (f : Frame) (c : Ctx World) → Answers b id f.corr_id c.sent (clear b f c)
  unfolding clear
  clear-Answers f c = search (branch b id, ack-Answers b id, nack-Answers b id)

  load_font-Answers :
      (corr_id : ℕ) (path : Option (List ℕ)) (c : Ctx World)
      → Answers b id corr_id c.sent (load_font b corr_id path c)
  unfolding load_font
  load_font-Answers corr_id none c = nack-Answers b id _ _ _ refl
  load_font-Answers corr_id (some path) c =
      search (branch b id, ack-Answers b id, nack-Answers b id)

  pub set_font-Answers :
      (f : Frame) (c : Ctx World) → Answers b id f.corr_id c.sent (set_font b f c)
  unfolding set_font
  set_font-Answers f c = search (branch b id, list-Answers, load_font-Answers)

  pub set_anim-Answers :
      (f : Frame) (c : Ctx World) → Answers b id f.corr_id c.sent (set_anim b f c)
  unfolding set_anim
  set_anim-Answers f c = search (branch b id, list-Answers, animate-Answers)

  pub anim_speed-Answers :
      (f : Frame) (c : Ctx World) → Answers b id f.corr_id c.sent (anim_speed b f c)
  unfolding anim_speed
  anim_speed-Answers f c = search (branch b id, ack-Answers b id, nack-Answers b id)
