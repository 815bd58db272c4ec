-- ===== src/Broker/Requests/Demux.antt =====
-- A frame that no request asked for goes to the peers that follow it.
use telegraph_stm_fw.Base.{
  ℕ, zero, suc, ◌+◌, List, [], ◌∷◌, Bool, false, ◌==◌, ◌!=◌, if_split, not, ◌&&◌, ◌||◌,
}
use telegraph_stm_fw.Ipc.Wire.{Frame}
use telegraph_stm_fw.Server.Link.{corr_id_push, ipc_op_log}
use telegraph_stm_fw.Broker.Engine.{Engine}
use telegraph_stm_fw.Broker.State.{Peer, Broker, to_peer}
use telegraph_stm_fw.Broker.Requests.{count_follows, push_times, demux_loop, demux_push}

-- What a push to one peer keeps, the distribution keeps.
module _ (e : Engine) (P : Broker e.World → Type 0)
    (world : (b : Broker e.World) (w : e.World) → P b → P (record b { world = w }))
    (push : (i opcode : ℕ) (payload : List ℕ) (b : Broker e.World)
      → P b
      → P (to_peer e i opcode corr_id_push payload b)) where
  open e use {World}

  push_times-keeps : (n i : ℕ) (f : Frame) (b : Broker World) → P b → P (push_times e n i f b)
  unfolding push_times
  push_times-keeps zero i f b h = h
  push_times-keeps (suc n) i f b h =
      push_times-keeps n i f (to_peer e i f.opcode corr_id_push f.payload b)
        (push i f.opcode f.payload b h)

  demux_loop-keeps :
      (ps : List Peer) (i : ℕ) (taken : Bool) (f : Frame) (b : Broker World)
      → P b
      → P (demux_loop e ps i taken f b).1
  unfolding demux_loop
  demux_loop-keeps [] i taken f b h = h
  demux_loop-keeps (p ∷ ps) i taken f b h =
      let times = count_follows p.pushes f.opcode in
      demux_loop-keeps ps (i + 1) (taken || times != 0) f (push_times e times i f b)
        (push_times-keeps times i f b h)

  pub demux_push-keeps : (f : Frame) (b : Broker World) → P b → P (demux_push e f b)
  unfolding demux_push
  demux_push-keeps f b h =
      let pushed = demux_loop e b.peers 0 false f b in
      let kept = demux_loop-keeps b.peers 0 false f b h in
      if_split P (not pushed.0 && f.opcode == ipc_op_log) (λ log. world pushed.1 _ kept)
        (λ other. kept)
