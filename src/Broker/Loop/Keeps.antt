-- ===== src/Broker/Loop/Keeps.antt =====
-- What every handler keeps, the loop keeps.
use telegraph_stm_fw.Base.{
  ℕ, zero, suc, ◌+◌, List, [], ◌∷◌, Option, none, some, Bool, false, length, leb, ◌==◌, if_split,
  not, ◌||◌,
}
use telegraph_stm_fw.Ipc.Wire.{Frame}
use telegraph_stm_fw.Ipc.Parser.{Parser, Call, Taken, parser_push, parser_pending, parser_timeout}
use telegraph_stm_fw.Server.Link.{corr_id_push}
use telegraph_stm_fw.Broker.Engine.{Engine}
use telegraph_stm_fw.Broker.State.{Peer, Broker, peer_at, to_peer}
use telegraph_stm_fw.Broker.Requests.{in_raw, op_raw_data, on_link_frame, on_peer_frame}
use telegraph_stm_fw.Broker.Loop.{
  link_calls, peer_calls, link_taken, link_read, pump_link, peer_read, pump_fd, pump_peer,
  peers_loop, pump_peers, check_timeout, check_idle, turn, turns, open_pipes, set_peer, elapsed,
  parser_idle_ms, read_chunk,
}

module _ (e : Engine) where
  open e use {World}

  -- A property that the handlers keep, and that does not read the world, the parsers and the pipes.
  pub record Kept (P : Broker World → Type 0) : Type 0 where
    pub world : (b : Broker World) (w : World) → P b → P (record b { world = w })
    pub peers : (b : Broker World) (ps : List Peer) → P b → P (record b { peers = ps })
    pub link : (b : Broker World) (p : Parser) → P b → P (record b { link = p })
    pub received : (b : Broker World) (n : ℕ) → P b → P (record b { link_rx_ms = n })
    pub linked : (f : Frame) (b : Broker World) → P b → P (on_link_frame e f b)
    pub served : (i : ℕ) (f : Frame) (b : Broker World) → P b → P (on_peer_frame e i f b)
    pub raw :
        (i : ℕ) (bytes : List ℕ) (b : Broker World)
        → P b
        → P (to_peer e i op_raw_data corr_id_push bytes b)
    pub timed : (b : Broker World) → P b → P (check_timeout e b)

module _ (e : Engine) {P : Broker e.World → Type 0} (k : Kept e P) where
  open e use {World}

  link_calls-keeps : (cs : List Call) (b : Broker World) → P b → P (link_calls e cs b)
  unfolding link_calls
  link_calls-keeps [] b h = h
  link_calls-keeps (c ∷ cs) b h =
      link_calls-keeps cs (on_link_frame e c.frame b) (k.linked c.frame b h)

  peer_calls-keeps : (i : ℕ) (cs : List Call) (b : Broker World) → P b → P (peer_calls e i cs b)
  unfolding peer_calls
  peer_calls-keeps i [] b h = h
  peer_calls-keeps i (c ∷ cs) b h =
      peer_calls-keeps i cs (on_peer_frame e i c.frame b) (k.served i c.frame b h)

  link_taken-keeps : (t : Taken) (b : Broker World) → P b → P (link_taken e t b)
  unfolding link_taken
  link_taken-keeps t b h =
      link_calls-keeps t.calls (record b { link = t.parser }) (k.link b t.parser h)

  link_read-keeps :
      (bytes : List ℕ) (holder : Option ℕ) (b : Broker World) → P b → P (link_read e bytes holder b)
  unfolding link_read
  link_read-keeps bytes (some holder) b h = k.raw holder bytes b h
  link_read-keeps bytes none b h =
      link_taken-keeps (parser_push b.link (some bytes) (length bytes)) b h

  pump_link-keeps : (b : Broker World) → P b → P (pump_link e b).1
  unfolding pump_link
  pump_link-keeps b h =
      let got = e.read b.uart read_chunk b.world in
      let b' = record b { world = got.1 } in
      let h' = k.world b got.1 h in
      if_split (λ (c : Bool × Broker World). P c.1) (length got.0 == 0) (λ empty. h')
        (λ bytes.
          link_read-keeps got.0 b.raw (record b' { link_rx_ms = e.now got.1 })
            (k.received b' (e.now got.1) h'))

  peer_read-keeps : (i : ℕ) (bytes : List ℕ) (b : Broker World) → P b → P (peer_read e i bytes b)
  unfolding peer_read
  peer_read-keeps i bytes b h =
      let p = peer_at b.peers i in
      let t = parser_push p.parser (some bytes) (length bytes) in
      peer_calls-keeps i t.calls
        (record b { peers = set_peer b.peers i (record p { parser = t.parser }) }) (k.peers b _ h)

  pump_fd-keeps : (i : ℕ) (fd : Option ℕ) (b : Broker World) → P b → P (pump_fd e i fd b).1
  unfolding pump_fd
  pump_fd-keeps i none b h = h
  pump_fd-keeps i (some fd) b h =
      let got = e.read fd read_chunk b.world in
      let h' = k.world b got.1 h in
      if_split (λ (c : Bool × Broker World). P c.1) (length got.0 == 0) (λ empty. h')
        (λ bytes. peer_read-keeps i got.0 (record b { world = got.1 }) h')

  pump_peer-keeps : (i : ℕ) (b : Broker World) → P b → P (pump_peer e i b).1
  unfolding pump_peer
  pump_peer-keeps i b h =
      let opened = open_pipes e (peer_at b.peers i) b.world in
      let b' = record b { peers = set_peer b.peers i opened.0 } in
      pump_fd-keeps i (opened.0).req_fd (record b' { world = opened.1 })
        (k.world b' opened.1 (k.peers b _ h))

  peers_loop-keeps :
      (n i : ℕ) (worked : Bool) (b : Broker World) → P b → P (peers_loop e n i worked b).1
  unfolding peers_loop
  peers_loop-keeps zero i worked b h = h
  peers_loop-keeps (suc n) i worked b h =
      peers_loop-keeps n (i + 1) (worked || (pump_peer e i b).0) (pump_peer e i b).1
        (pump_peer-keeps i b h)

  pump_peers-keeps : (b : Broker World) → P b → P (pump_peers e b).1
  unfolding pump_peers
  pump_peers-keeps b h =
      if_split (λ (c : Bool × Broker World). P c.1) b.inflight.busy (λ busy. h)
        (λ free. peers_loop-keeps (length b.peers) 0 false b h)

  check_idle-keeps : (b : Broker World) → P b → P (check_idle e b)
  unfolding check_idle
  check_idle-keeps b h =
      if_split P (in_raw b.raw || not (parser_pending (some b.link))) (λ silent. h)
        λ partial.
          if_split P (leb parser_idle_ms (elapsed (e.now b.world) b.link_rx_ms))
            (λ late. link_taken-keeps (parser_timeout b.link) b h) (λ early. h)

  pub turn-keeps : (b : Broker World) → P b → P (turn e b)
  unfolding turn
  turn-keeps b h =
      let served = (pump_peers e (pump_link e b).1).1 in
      let kept =
        check_idle-keeps (check_timeout e served)
          (k.timed served (pump_peers-keeps (pump_link e b).1 (pump_link-keeps b h))) in
      if_split P (not ((pump_link e b).0 || (pump_peers e (pump_link e b).1).0))
        (λ idle. k.world (check_idle e (check_timeout e served)) _ kept) (λ worked. kept)

  pub turns-keep : (n : ℕ) (b : Broker World) → P b → P (turns e n b)
  unfolding turns
  turns-keep zero b h = h
  turns-keep (suc n) b h = turns-keep n (turn e b) (turn-keeps b h)
