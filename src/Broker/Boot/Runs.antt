-- ===== src/Broker/Boot/Runs.antt =====
-- What holds of the broker in any run of it.
use telegraph_stm_fw.Base.{
  ℕ, ◌+◌, ◌<◌, ◌≡◌, refl, ap, subst, List, [], ◌∷◌, Option, none, some, Bool, false, ◌==◌, if_split,
  ◌||◌, arith, ltb, leb, length,
}
use mathlib.Core.Option.{some-injective}
use telegraph_stm_fw.Broker.Engine.{Engine}
use telegraph_stm_fw.Broker.State.{Given, Asked, Broker}
use telegraph_stm_fw.Broker.Requests.Balance.{answers, requests, open_request, Balanced}
use telegraph_stm_fw.Broker.Requests.Sound.{IsSound}
use telegraph_stm_fw.Broker.Loop.Account.{turns-Balanced}
use telegraph_stm_fw.Broker.Loop.{turns}
use telegraph_stm_fw.Broker.Boot.{
  boot, add_peer, add_peers, opened_line, max_peers, name_max, before_main, before_colon, port_of,
  default_peers,
}
use telegraph_stm_fw.Broker.Loop.Keeps.{turns-keep}
use telegraph_stm_fw.Broker.Loop.Sound.{IsSound-Kept}

module _ (e : Engine) where
  open e use {World}

  -- The state before main, whatever peers were added.
  record FreshState (given : List Given) (asked : List Asked) (busy : Bool) (raw : Option ℕ)
      (next : ℕ) : Type 0 where
    no_given : given ≡ []
    no_asked : asked ≡ []
    idle : busy ≡ false
    calm : raw ≡ none
    first : next ≡ 1

  abbrev IsFresh : Broker World → Type 0
  IsFresh b = FreshState b.given b.asked b.inflight.busy b.raw b.next_id

  add_peer-IsFresh : (spec : List ℕ) (b : Broker World) → IsFresh b → IsFresh (add_peer e spec b)
  unfolding add_peer
  add_peer-IsFresh spec b h =
      if_split (λ (c : Broker World). IsFresh c) (leb max_peers (length b.peers)) (λ full. h)
        λ room.
          if_split (λ (c : Broker World). IsFresh c)
            (length (before_colon spec) == 0 || ltb name_max (length (before_colon spec)))
            (λ bad. h) (λ good. h)

  add_peers-IsFresh :
      (specs : List (List ℕ)) (b : Broker World) → IsFresh b → IsFresh (add_peers e specs b)
  unfolding add_peers
  add_peers-IsFresh [] b h = h
  add_peers-IsFresh (spec ∷ specs) b h =
      add_peers-IsFresh specs (add_peer e spec b) (add_peer-IsFresh spec b h)

  opened_line-IsFresh :
      (path : List ℕ) (opened : Option ℕ × World) (b c : Broker World)
      → opened_line e path opened b ≡ some c
      → IsFresh b
      → IsFresh c
  unfolding opened_line
  opened_line-IsFresh path (none, w) b c h fresh = cc h
  opened_line-IsFresh path (some fd, w) b c h fresh =
      subst (λ (d : Broker World). IsFresh d) (some-injective _ _ h) fresh

  boot-IsFresh :
      (env : Option (List ℕ)) (args : List (List ℕ)) (w : World) (b : Broker World)
      → boot e env args w ≡ some b
      → IsFresh b
  unfolding boot
  boot-IsFresh env args w b h =
      let start : IsFresh (record (before_main e w) { port = port_of env }) = record {
        no_given = refl;
        no_asked = refl;
        idle = refl;
        calm = refl;
        first = refl;
      } in
      let named = add_peers-IsFresh args (record (before_main e w) { port = port_of env }) start in
      let b' = add_peers e args (record (before_main e w) { port = port_of env }) in
      opened_line-IsFresh _ _ _ b h (
        if_split (λ (c : Broker World). IsFresh c) (length b'.peers == 0)
          (λ none_named. add_peers-IsFresh default_peers b' named) (λ some_named. named))

  fresh-IsSound : (b : Broker World) → IsFresh b → IsSound b
  fresh-IsSound b h = record {
    alone = ground (arith, h.idle);
    tried = λ busy. ground (arith, h.idle);
    bounded = λ busy. ground (arith, h.idle);
    numbered = λ busy. ground (arith, h.idle);
    next_low = omega (arith, h.first);
    next_high = omega (arith, h.first);
  }

  fresh-Balanced : (i id : ℕ) (b : Broker World) → IsFresh b → Balanced e i id b
  fresh-Balanced i id b h =
      let a = ap (answers i id) h.no_given in
      let r = ap (requests i id) h.no_asked in ground (arith, a, r, h.idle)

  -- After any number of rounds from a start with any arguments, raw mode and a request in flight
  -- exclude each other, and a request in flight was put on the line once to three times, under a
  -- number that is not that of a push.
  pub turns-IsSound :
      (env : Option (List ℕ)) (args : List (List ℕ)) (w : World) (b : Broker World) (n : ℕ)
      → boot e env args w ≡ some b
      → IsSound (turns e n b)
  turns-IsSound env args w b n h =
      turns-keep e (IsSound-Kept e) n b (fresh-IsSound b (boot-IsFresh env args w b h))

  -- After any number of rounds from a start with any arguments, of the frames that a peer sent under
  -- a number other than that of a push, all but its own data of raw mode have exactly one answer each
  -- under that number to that peer, but for one while it is in flight.
  pub turns-answered :
      (env : Option (List ℕ)) (args : List (List ℕ)) (w : World) (b : Broker World) (n i id : ℕ)
      → boot e env args w ≡ some b
      → 0 < id
      → answers i id (turns e n b).given + open_request i id (turns e n b).inflight
        ≡ requests i id (turns e n b).asked
  turns-answered env args w b n i id h k =
      turns-Balanced e i id n b k (fresh-Balanced i id b (boot-IsFresh env args w b h))
