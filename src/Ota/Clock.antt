-- ===== src/Ota/Clock.antt =====
-- The clock of ota.c: what its waits rely on, and that talk takes time forward.
use telegraph_stm_fw.Base.{
  ℕ, ◌+◌, ◌*◌, ◌≤◌, ◌≡◌, refl, ap, ◌∙◌, List, [], ◌∷◌, some, length, ◌==◌, ◌!=◌, if◌then◌else◌,
  false, if_split, u16, arith,
}
use telegraph_stm_fw.Ipc.Wire.{Frame}
use telegraph_stm_fw.Ipc.Encode.{Encoded, err_arg, err_space, err_too_large, written}
use telegraph_stm_fw.Ipc.Parser.{Call, parser_push}
use telegraph_stm_fw.Server.Link.{corr_id_push}
use telegraph_stm_fw.Broker.Engine.{Engine}
use telegraph_stm_fw.Broker.Requests.{op_raw_data}
use telegraph_stm_fw.Ota.{Ota, on_frame, frames_in, pumped, pump, send_frame, send, send_request}

-- A nap passes, and neither a read nor a write turns the clock back.
pub record IsClock (e : Engine) : Type 0 where
  pub naps : (ms : ℕ) (w : e.World) → e.now w + ms ≤ e.now (e.nap (ms * 1000) w)
  pub writes : (fd : ℕ) (bytes : List ℕ) (w : e.World) → e.now w ≤ e.now (e.write fd bytes w).1
  pub reads : (fd n : ℕ) (w : e.World) → e.now w ≤ e.now (e.read fd n w).1

module _ (e : Engine) (clock : IsClock e) where
  open e use {World}

  on_frame-world : (f : Frame) (o : Ota World) → (on_frame e f o).world ≡ o.world
  unfolding on_frame
  on_frame-world f o =
      if_split (λ (c : Ota World). c.world ≡ o.world) (f.opcode == op_raw_data) (λ raw. refl)
        λ other.
          if_split (λ (c : Ota World). c.world ≡ o.world) (f.corr_id != o.inflight) (λ late. refl)
            (λ reply. refl)

  frames_in-world : (cs : List Call) (o : Ota World) → (frames_in e cs o).world ≡ o.world
  unfolding frames_in
  frames_in-world [] o = refl
  frames_in-world (c ∷ cs) o = frames_in-world cs (on_frame e c.frame o) ∙ on_frame-world c.frame o

  pub pump-later : (o : Ota World) → e.now o.world ≤ e.now (pump e o).world
  unfolding pump pumped
  pump-later o =
      let got = e.read o.rsp 256 o.world in
      let t = parser_push o.parser (some got.0) (length got.0) in
      if_split (λ (c : Ota World). e.now o.world ≤ e.now c.world) (length got.0 == 0)
        (λ nothing. clock.reads o.rsp 256 o.world)
        (λ bytes.
          let same =
            ap e.now (frames_in-world t.calls (record o { world = got.1; parser = t.parser })) in
          omega (arith, same, clock.reads o.rsp 256 o.world))

  send_frame-later :
      (r : Encoded) (o : Ota World) → e.now o.world ≤ e.now ((send_frame e r o).1).world
  unfolding send_frame
  send_frame-later (written bytes) o = clock.writes o.req bytes o.world
  send_frame-later err_arg o = omega arith
  send_frame-later err_space o = omega arith
  send_frame-later err_too_large o = omega arith

  pub send_request-later :
      (opcode : ℕ) (payload : List ℕ) (o : Ota World)
      → e.now o.world ≤ e.now ((send_request e opcode payload o).1).world
  unfolding send_request send
  send_request-later opcode payload o = send_frame-later _ (record o {
    corr = if u16 (o.corr + 1) == corr_id_push then 1 else u16 (o.corr + 1);
    inflight = if u16 (o.corr + 1) == corr_id_push then 1 else u16 (o.corr + 1);
    got_reply = false;
  })
