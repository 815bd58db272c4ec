-- ===== src/Broker/State.antt =====
-- The static state of broker.c, and the frames that it gives to the peers.
use telegraph_stm_fw.Base.{
  ℕ, zero, suc, List, [], ◌∷◌, Option, none, some, Bool, true, length, if◌then◌else◌,
}
use telegraph_stm_fw.Ipc.Wire.{Frame, ipc_frame_max}
use telegraph_stm_fw.Ipc.Encode.{Encoded, err_arg, err_space, err_too_large, written, encode}
use telegraph_stm_fw.Ipc.Parser.{Parser, parser_init}
use telegraph_stm_fw.Server.Link.{ipc_op_nack}
use telegraph_stm_fw.Broker.Engine.{Engine, lost_frame, write_all}

-- struct peer_s
pub record Peer : Type 0 where
  pub name : List ℕ
  pub req_fd : Option ℕ
  pub rsp_fd : Option ℕ
  pub pushes : List ℕ
  pub parser : Parser

-- struct inflight_s; `len` is the length of the list `frame`.
pub record Inflight : Type 0 where
  pub busy : Bool
  pub link_id : ℕ
  pub peer_id : ℕ
  pub peer : ℕ
  pub tries : ℕ
  pub sent_ms : ℕ
  pub frame : List ℕ

-- A frame given to to_peer, with its peer.
pub record Given : Type 0 where
  pub peer : ℕ
  pub opcode : ℕ
  pub corr_id : ℕ
  pub payload : List ℕ

-- A frame taken from a peer, and whether that peer held raw mode then.
pub record Asked : Type 0 where
  pub peer : ℕ
  pub frame : Frame
  pub holds : Bool

-- The static state: g_peers up to g_npeers, g_link, g_inflight, g_uart, g_port, g_raw, g_next_id,
-- g_link_rx_ms. `given` and `asked` are records of the model, the newest first.
pub record Broker (World : Type 0) : Type 0 where
  pub world : World
  pub peers : List Peer
  pub link : Parser
  pub inflight : Inflight
  pub uart : ℕ
  pub port : List ℕ
  pub raw : Option ℕ
  pub next_id : ℕ
  pub link_rx_ms : ℕ
  pub given : List Given
  pub asked : List Asked

-- An element of g_peers that no argument filled, with its pipes closed.
abbrev pub no_peer : Peer
no_peer = record { name = []; req_fd = none; rsp_fd = none; pushes = []; parser = parser_init }

abbrev pub peer_at : List Peer → ℕ → Peer
peer_at [] i = no_peer
peer_at (p ∷ ps) zero = p
peer_at (p ∷ ps) (suc i) = peer_at ps i

module _ (e : Engine) where
  open e use {World}

  -- The write of to_peer.
  pub to_pipe : Encoded → Option ℕ → List ℕ → ℕ → World → World
  to_pipe (written bytes) (some fd) name opcode w =
      let result = write_all e fd bytes w in
      if result.0 then result.1 else e.print (lost_frame name opcode) result.1
  to_pipe (written bytes) none name opcode w = w
  to_pipe err_arg fd name opcode w = w
  to_pipe err_space fd name opcode w = w
  to_pipe err_too_large fd name opcode w = w

  -- to_peer
  unfoldable pub to_peer : ℕ → ℕ → ℕ → List ℕ → Broker World → Broker World
  to_peer i opcode corr_id payload b =
      let p = peer_at b.peers i in
      record b {
        world =
            to_pipe (encode true ipc_frame_max opcode corr_id (some payload) (length payload))
              p.rsp_fd p.name opcode b.world;
        given =
            record { peer = i; opcode = opcode; corr_id = corr_id; payload = payload } ∷ b.given;
      }

  -- nack_peer
  unfoldable pub nack_peer : ℕ → ℕ → ℕ → Broker World → Broker World
  nack_peer i corr_id error = to_peer i ipc_op_nack corr_id (error ∷ [])
