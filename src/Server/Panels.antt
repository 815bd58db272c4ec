-- ===== src/Server/Panels.antt =====
-- The handlers of the panels: ipc_panel_of, ipc_set_text, ipc_set_pixels, ipc_animate, ipc_release,
-- ipc_anim_stop, ipc_list, and the cases of ipc_on_frame for CLEAR, SET_FONT, SET_ANIM and ANIM_SPEED.
pub mod Replies
use telegraph_stm_fw.Base.{
  ℕ, ◌+◌, ◌-◌, ◌*◌, ◌/◌, List, [], take, drop, byte_at, ◌==◌, ◌!=◌, ◌&&◌, ◌||◌, not, ltb, leb,
  if◌then◌else◌, u16, Option, none, some, bit_and, ◌>>>◌,
}
use telegraph_stm_fw.Ipc.Wire.{Frame, get_u16}
use telegraph_stm_fw.Ipc.Payload.{
  Checked, fine, check_release, check_animstop, err_bad_length, err_bad_payload,
}
use telegraph_stm_fw.Ipc.Payload
use telegraph_stm_fw.Server.Board.{Board, Animation, Animated, shown, too_big, invalid}
use telegraph_stm_fw.Server.Link.{Ctx, send_frame, ack, nack}
use telegraph_stm_fw.Server.Settings.{err_failed}
use telegraph_stm_fw.Server.Assets.{asset_path, asset_list, font_dir, font_ext, anim_dir, anim_ext}

-- ipc_panel_of; the numbers of the panels are the same on the link and in hazk03.h.
pub panel_of : Frame → Option ℕ
panel_of f =
    if f.payload_len == 0 || ltb 1 (byte_at f.payload 0) then none else some (byte_at f.payload 0)

-- IPC_LIST_MAX
abbrev pub list_max : ℕ
list_max = 192

module _ (b : Board) where
  open b use {World}

  -- A handler of a panel, with the result of ipc_panel_of; `none` stands for false.
  pub on_panel : (ℕ → Frame → Ctx World → Ctx World) → Frame → Option ℕ → Ctx World → Ctx World
  on_panel handler f none c = nack b f.corr_id err_bad_payload c
  on_panel handler f (some panel) c = handler panel f c

  -- The attributes of ipc_set_text: the byte is absent, or it is checked.
  pub text_on : ℕ → Frame → Ctx World → Ctx World
  text_on panel f c =
      let attrs = byte_at f.payload 1 in
      let align = bit_and attrs 0x03 in
      let valign = bit_and attrs 0x0c >>> 2 in
      let len = f.payload_len - 2 in
      if ltb 1 f.payload_len
      then (if bit_and attrs 0xf0 != 0 || ltb 2 align || ltb 2 valign
          then nack b f.corr_id err_bad_payload c
          else if ltb 64 len
          then nack b f.corr_id err_bad_length c
          else ack b f.corr_id (record c {
            world = b.text panel (take len (drop 2 f.payload)) align valign c.world;
          }))
      else ack b f.corr_id (record c { world = b.text panel [] 0 0 c.world })

  -- ipc_set_text
  pub set_text : Frame → Ctx World → Ctx World
  set_text f = on_panel text_on f (panel_of f)

  pub pixels_on : ℕ → Frame → Ctx World → Ctx World
  pixels_on panel f c =
      let x = byte_at f.payload 1 in
      let y = byte_at f.payload 2 in
      let w = byte_at f.payload 3 in
      let h = byte_at f.payload 4 in
      let need = u16 (5 + u16 ((w + 7) / 8 * h)) in
      if ltb f.payload_len 5
      then nack b f.corr_id err_bad_length c
      else if w == 0 || h == 0
      then nack b f.corr_id err_bad_payload c
      else if f.payload_len != need
      then nack b f.corr_id err_bad_length c
      else ack b f.corr_id (record c { world = b.pixels panel x y w h (drop 5 f.payload) c.world })

  -- ipc_set_pixels
  pub set_pixels : Frame → Ctx World → Ctx World
  set_pixels f = on_panel pixels_on f (panel_of f)

  pub animation_of : ℕ → Frame → Animation
  animation_of panel f = record {
    panel = panel;
    x = byte_at f.payload 1;
    y = byte_at f.payload 2;
    w = byte_at f.payload 3;
    h = byte_at f.payload 4;
    vertical = bit_and (byte_at f.payload 5) 0x01 != 0;
    period_ms = get_u16 (drop 6 f.payload);
    step = byte_at f.payload 8;
    text = bit_and (byte_at f.payload 5) 0x02 != 0;
    file = bit_and (byte_at f.payload 5) 0x04 != 0;
    srcw = byte_at f.payload 9;
    srch = byte_at f.payload 10;
    src = take (f.payload_len - 11) (drop 11 f.payload);
  }

  pub animated : ℕ → Animated → Ctx World → Ctx World
  animated corr_id shown c = ack b corr_id c
  animated corr_id too_big c = nack b corr_id err_bad_length c
  animated corr_id invalid c = nack b corr_id err_bad_payload c

  pub animate_on : ℕ → Frame → Ctx World → Ctx World
  animate_on panel f c =
      let a = animation_of panel f in
      let srclen = f.payload_len - 11 in
      let result = b.animate a c.world in
      if leb f.payload_len 11
      then nack b f.corr_id err_bad_length c
      else if bit_and (byte_at f.payload 5) 0xf8 != 0
      then nack b f.corr_id err_bad_payload c
      else if not a.text
          && not a.file
          && (a.srcw == 0 || a.srch == 0 || srclen != (a.srcw + 7) / 8 * a.srch)
      then nack b f.corr_id err_bad_length c
      else animated f.corr_id result.0 (record c { world = result.1 })

  -- ipc_animate
  pub animate : Frame → Ctx World → Ctx World
  animate f = on_panel animate_on f (panel_of f)

  -- ipc_release
  pub release_checked : ℕ → Checked ℕ → Ctx World → Ctx World
  release_checked corr_id (Payload.nack error) c = nack b corr_id error c
  release_checked corr_id (fine panel) c =
      ack b corr_id (record c { world = b.release (if panel == 1 then 1 else 0) c.world })

  pub release : Frame → Ctx World → Ctx World
  release f = release_checked f.corr_id (check_release f.payload f.payload_len)

  -- ipc_anim_stop
  pub stop_panels : ℕ → World → World
  stop_panels panel w =
      let w' = if panel != 1 then b.animstop 0 w else w in
      if panel != 0 then b.animstop 1 w' else w'

  pub animstop_checked : ℕ → Checked ℕ → Ctx World → Ctx World
  animstop_checked corr_id (Payload.nack error) c = nack b corr_id error c
  animstop_checked corr_id (fine panel) c =
      ack b corr_id (record c { world = stop_panels panel c.world })

  pub anim_stop : Frame → Ctx World → Ctx World
  anim_stop f = animstop_checked f.corr_id (check_animstop f.payload f.payload_len)

  -- ipc_list
  pub list : Frame → List ℕ → List ℕ → Ctx World → Ctx World
  list f dir ext c =
      send_frame b f.opcode f.corr_id (asset_list list_max ext (b.read_dir dir c.world)) c

  -- The case IPC_OP_CLEAR of ipc_on_frame.
  pub clear : Frame → Ctx World → Ctx World
  clear f c =
      if f.payload_len == 0
      then ack b f.corr_id (record c { world = b.clear 1 (b.clear 0 c.world) })
      else if f.payload_len != 1
      then nack b f.corr_id err_bad_length c
      else if ltb 1 (byte_at f.payload 0)
      then nack b f.corr_id err_bad_payload c
      else ack b f.corr_id
          (record c { world = b.clear (if byte_at f.payload 0 == 1 then 1 else 0) c.world })

  -- The case IPC_OP_SET_FONT, with the path of the font.
  pub load_font : ℕ → Option (List ℕ) → Ctx World → Ctx World
  load_font corr_id none c = nack b corr_id err_bad_payload c
  load_font corr_id (some path) c =
      let loaded = b.loadfont path c.world in
      let c' = record c { world = loaded.1 } in
      if loaded.0 then ack b corr_id c' else nack b corr_id err_failed c'

  pub set_font : Frame → Ctx World → Ctx World
  set_font f c =
      if f.payload_len == 0
      then list f font_dir font_ext c
      else load_font f.corr_id (asset_path 64 font_dir (take f.payload_len f.payload) font_ext) c

  -- The case IPC_OP_SET_ANIM.
  pub set_anim : Frame → Ctx World → Ctx World
  set_anim f c = if f.payload_len == 0 then list f anim_dir anim_ext c else animate f c

  -- The case IPC_OP_ANIM_SPEED.
  pub anim_speed : Frame → Ctx World → Ctx World
  anim_speed f c =
      let result =
        b.animspeed (byte_at f.payload 0) (get_u16 (drop 1 f.payload)) (byte_at f.payload 3)
          c.world in
      let c' = record c { world = result.1 } in
      if f.payload_len != 4
      then nack b f.corr_id err_bad_length c
      else if result.0
      then ack b f.corr_id c'
      else nack b f.corr_id err_bad_payload c'
