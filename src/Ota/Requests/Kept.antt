-- ===== src/Ota/Requests/Kept.antt =====
-- What a question to the broker leaves alone.
use telegraph_stm_fw.Base.{
  ℕ, zero, suc, List, [], Option, none, some, Bool, length, leb, ◌!=◌, ◌*◌, ◌||◌, not, if_split,
  if◌then◌else◌,
}
use telegraph_stm_fw.Broker.Engine.{Engine}
use telegraph_stm_fw.Ota.{Ota, pump, send_request}
use telegraph_stm_fw.Ota.Kept.{
  IsApart, Kept, KeptBy, KeptBy-after, Kept-refl, Kept-trans, nap-Kept, pump-Kept,
  send_request-Kept,
}
use telegraph_stm_fw.Ota.Requests.{
  reply_loop, replied, lacks, ask_loop, asked, ask_until, running_version, is_busy, poll_us,
  version_retry_ms, ask_total_ms, op_get_state, op_state, state_fwver,
}

module _ (e : Engine) (fd : ℕ) (file : e.World → List ℕ) (apart : IsApart e fd file) where
  open e use {World}

  abbrev Keeps : Ota World → Ota World → Type 0
  Keeps = Kept e fd file

  reply_loop-Kept :
      (fuel deadline : ℕ) (o : Ota World)
      → KeptBy e fd file (λ p. p) o (reply_loop e fuel deadline o)
  unfolding reply_loop
  reply_loop-Kept zero deadline o = tt
  reply_loop-Kept (suc fuel) deadline o =
      let p = pump e o in
      let q = if p.got_reply then p else record p { world = e.nap poll_us p.world } in
      let slept : Keeps p q =
        if_split (λ (c : Ota World). Keeps p c) p.got_reply (λ t. Kept-refl e fd file p)
          (λ f. nap-Kept e fd file apart poll_us p) in
      if_split (λ (c : Option (Ota World)). KeptBy e fd file (λ p. p) o c)
        (o.got_reply || leb deadline (e.now o.world)) (λ over. Kept-refl e fd file o)
        (λ more.
          KeptBy-after e fd file (λ p. p) o q (reply_loop e fuel deadline q)
            (Kept-trans e fd file o p q (pump-Kept e fd file apart o) slept)
            (reply_loop-Kept fuel deadline q))

  replied-Kept :
      (o : Ota World) (r : Option (Ota World))
      → KeptBy e fd file (λ p. p) o r
      → Keeps o (replied e o r)
  unfolding replied
  replied-Kept o none s = Kept-refl e fd file o
  replied-Kept o (some p) s = s

  abbrev second : Bool × Ota World → Ota World
  second result = result.1

  ask_loop-Kept :
      (fuel rounds deadline opcode : ℕ) (payload : List ℕ) (o : Ota World)
      → KeptBy e fd file second o (ask_loop e fuel rounds deadline opcode payload o)
  unfolding ask_loop
  ask_loop-Kept zero rounds deadline opcode payload o = tt
  ask_loop-Kept (suc fuel) rounds deadline opcode payload o =
      let sent = send_request e opcode payload o in
      let heard = replied e sent.1 (reply_loop e rounds deadline sent.1) in
      let napped = record heard { world = e.nap (version_retry_ms * 1000) heard.world } in
      let at_sent = send_request-Kept e fd file apart opcode payload o in
      let at_heard = Kept-trans e fd file o sent.1 heard at_sent (
        replied-Kept sent.1 (reply_loop e rounds deadline sent.1)
          (reply_loop-Kept rounds deadline sent.1)) in
      let P = λ (c : Option (Bool × Ota World)). KeptBy e fd file second o c in
      if_split P (leb deadline (e.now o.world)) (λ over. Kept-refl e fd file o)
        λ early.
          if_split P (not sent.0) (λ bad. at_sent)
            λ good.
              if_split P (lacks e (reply_loop e rounds deadline sent.1)) (λ lack. tt)
                λ ended.
                  if_split P (not heard.got_reply) (λ silent. at_heard)
                    λ spoke.
                      if_split P (not (is_busy e heard)) (λ answer. at_heard)
                        λ busy.
                          KeptBy-after e fd file second o napped
                            (ask_loop e fuel rounds deadline opcode payload napped)
                            (Kept-trans e fd file o heard napped at_heard
                              (nap-Kept e fd file apart (version_retry_ms * 1000) heard))
                            (ask_loop-Kept fuel rounds deadline opcode payload napped)

  asked-Kept :
      (o : Ota World) (r : Option (Bool × Ota World))
      → KeptBy e fd file second o r
      → Keeps o (asked e o r).1
  unfolding asked
  asked-Kept o none s = Kept-refl e fd file o
  asked-Kept o (some result) s = s

  pub ask_until-Kept :
      (opcode : ℕ) (payload : List ℕ) (total_ms : ℕ) (o : Ota World)
      → Keeps o (ask_until e opcode payload total_ms o).1
  unfolding ask_until
  ask_until-Kept opcode payload total_ms o = asked-Kept o _ (ask_loop-Kept _ _ _ opcode payload o)

  pub running_version-Kept : (size : ℕ) (o : Ota World) → Keeps o (running_version e size o).1
  unfolding running_version
  running_version-Kept size o =
      let heard = ask_until e op_get_state [] ask_total_ms o in
      let P = λ (c : Option (List ℕ) × Ota World). Keeps o c.1 in
      let same = ask_until-Kept op_get_state [] ask_total_ms o in
      if_split P (not heard.0) (λ bad. same)
        λ good.
          if_split P ((heard.1).reply_op != op_state) (λ other. same)
            λ state.
              if_split P (leb (length (heard.1).reply) state_fwver) (λ short. same) (λ whole. same)
