-- ===== src/Broker/Boot.antt =====
-- What main of broker.c sets up before its loop: the peers of the arguments, and the line.
pub mod Runs
mod Examples
use telegraph_stm_fw.Base.{
  ℕ, zero, suc, ◌+◌, ◌-◌, ◌%◌, ◌^◌, List, [], ◌∷◌, ◌++◌, Option, none, some, Bool, true, false,
  length, take, ltb, leb, ◌==◌, if◌then◌else◌, not, ◌||◌, u8,
}
use telegraph_stm_fw.Ipc.Parser.{
  Call, Taken, parser_init, parser_push, parser_pending, parser_timeout,
}
use telegraph_stm_fw.Server.Link.{corr_id_push}
use telegraph_stm_fw.Server.Settings.{err_failed}
use telegraph_stm_fw.Broker.Engine.{
  Engine, no_reply, not_fit, no_name, serves, slash, uart_dir, data_node,
}
use telegraph_stm_fw.Broker.State.{Peer, Broker, peer_at, to_peer, nack_peer}
use telegraph_stm_fw.Broker.Requests.{
  in_raw, op_raw_data, send_inflight, on_link_frame, on_peer_frame,
}

-- TG_BRK_MAX_PEERS, TG_BRK_NAME_MAX, PUSH_MAX
abbrev pub max_peers : ℕ
max_peers = 4

abbrev pub name_max : ℕ
name_max = 15

abbrev pub push_max : ℕ
push_max = 4

-- PORT_MAX
abbrev pub port_max : ℕ
port_max = 8

-- The text before the first colon, and what is after it.
pub before_colon : List ℕ → List ℕ
before_colon [] = []
before_colon (c ∷ cs) = if c == b':' then [] else c ∷ before_colon cs

pub after_colon : List ℕ → Option (List ℕ)
after_colon [] = none
after_colon (c ∷ cs) = if c == b':' then some cs else after_colon cs

-- g_defaultPeers
abbrev pub default_peers : List (List ℕ)
default_peers =
    (b'd' ∷ b'i' ∷ b's' ∷ b'p' ∷ b'l' ∷ b'a' ∷ b'y' ∷ [])
    ∷ (b'o' ∷ b't' ∷ b'a' ∷ [])
    ∷ (b'u' ∷ b's' ∷ b'b' ∷ b':' ∷ b'0' ∷ b'x' ∷ b'3' ∷ b'3' ∷ [])
    ∷ (b'p' ∷ b'r' ∷ b'o' ∷ b'b' ∷ b'e' ∷ b':' ∷ b'0' ∷ b'x' ∷ b'0' ∷ b'3' ∷ [])
    ∷ []

-- The port of the environment, where there is one.
pub port_of : Option (List ℕ) → List ℕ
port_of none = b'1' ∷ []
port_of (some text) = if length text == 0 then b'1' ∷ [] else take (port_max - 1) text

module _ (e : Engine) where
  open e use {World}

  -- The loop of add_peer over the opcodes, of which there is room for `n`.
  pub spec_pushes : ℕ → Option (List ℕ) → List ℕ
  spec_pushes zero colon = []
  spec_pushes (suc n) none = []
  spec_pushes (suc n) (some rest) = u8 (e.strtoul rest) ∷ spec_pushes n (after_colon rest)

  -- add_peer
  pub add_peer : List ℕ → Broker World → Broker World
  add_peer spec b =
      let name = before_colon spec in
      if leb max_peers (length b.peers)
      then record b { world = e.print (not_fit spec) b.world }
      else if length name == 0 || ltb name_max (length name)
      then record b { world = e.print (no_name spec) b.world }
      else record b {
        peers =
            b.peers
            ++ record {
              name = name;
              req_fd = none;
              rsp_fd = none;
              pushes = spec_pushes push_max (after_colon spec);
              parser = parser_init;
            }
              ∷ [];
      }

  pub add_peers : List (List ℕ) → Broker World → Broker World
  add_peers [] b = b
  add_peers (spec ∷ specs) b = add_peers specs (add_peer spec b)

  -- The static state before main.
  abbrev pub before_main : World → Broker World
  before_main w = record {
    world = w;
    peers = [];
    link = parser_init;
    inflight = record {
      busy = false;
      link_id = 0;
      peer_id = 0;
      peer = 0;
      tries = 0;
      sent_ms = 0;
      frame = [];
    };
    uart = 0;
    port = b'1' ∷ [];
    raw = none;
    next_id = 1;
    link_rx_ms = 0;
    given = [];
    asked = [];
  }

  -- main with the descriptor of the UART: none is the exit with 1.
  pub opened_line : List ℕ → Option ℕ × World → Broker World → Option (Broker World)
  opened_line path (none, w) b = none
  opened_line path (some fd, w) b =
      some (record b { world = e.print (serves b.port (length b.peers)) w; uart = fd })

  -- main up to its loop, with the environment and the arguments after the name.
  pub boot : Option (List ℕ) → List (List ℕ) → World → Option (Broker World)
  boot env args w =
      let named = add_peers args (record (before_main w) { port = port_of env }) in
      let b = if length named.peers == 0 then add_peers default_peers named else named in
      let path = uart_dir ++ b.port ++ data_node in opened_line path (e.open_both path b.world) b
