-- ===== src/Server/Run/Replies.antt =====
-- The replies of the server over a whole run.
use telegraph_stm_fw.Base.{ℕ, ◌+◌, ◌≡◌, ◌≢◌, refl, ◌∙◌, List, [], ◌∷◌, length, ◌==◌, if_both, arith}
use telegraph_stm_fw.Server.Board.{Board, Lawful}
use telegraph_stm_fw.Server.Link.{Ctx, log}
use telegraph_stm_fw.Server.Link.Replies.{replies, log-Silent}
use telegraph_stm_fw.Server.Dispatch.{Server}
use telegraph_stm_fw.Server.Dispatch.Replies.{requests, handed_over, server_turn-replies}
use telegraph_stm_fw.Server.Run.{
  Event, woke, got, elsewhere, before_start, greeted, start, ready_text, happens, run,
}

-- How many requests with the number the parser hands over in a run.
pub asked : (b : Board) → ℕ → List (Event b.World) → Server b → ℕ
asked b id [] s = 0
asked b id (woke woken ∷ events) s =
    requests id (handed_over woken s.parser) + asked b id events (happens b (woke woken) s)
asked b id (event ∷ events) s = asked b id events (happens b event s)

module _ (b : Board) (id : ℕ) where
  open b use {World}

  greeted-Silent :
      id ≢ 0
      → (hse note : List ℕ) (c : Ctx World)
      → replies id (greeted b hse note c).sent ≡ replies id c.sent
  unfolding greeted
  greeted-Silent n hse note c =
      let ready = log b ready_text c in
      let first = (log-Silent b id ready_text c n refl).count in
      let second = (log-Silent b id hse ready n refl).count ∙ first in
      if_both (λ (d : Ctx World). replies id d.sent ≡ replies id c.sent) (length note == 0) second
        ((log-Silent b id note (log b hse ready) n refl).count ∙ second)

  run-counted :
      Lawful b
      → id ≢ 0
      → (events : List (Event World)) (s : Server b)
      → replies id (run b events s).ctx.sent ≡ asked b id events s + replies id s.ctx.sent
  unfolding run happens asked
  run-counted law n [] s = omega arith
  run-counted law n (woke woken ∷ events) s =
      let first = server_turn-replies b id law n woken s in
      let rest = run-counted law n events (happens b (woke woken) s) in omega (arith, first, rest)
  run-counted law n (got channel bytes ∷ events) s =
      run-counted law n events (happens b (got channel bytes) s)
  run-counted law n (elsewhere change ∷ events) s =
      run-counted law n events (happens b (elsewhere change) s)

  -- Over a run of the server on a lawful board from its start, whatever the link, the readers of the
  -- channels and the other tasks do among the runs of its loop: for a number other than 0, as many
  -- frames with that number are sent as requests with that number are handed over, whatever they ask
  -- for.
  pub run-replies :
      Lawful b
      → id ≢ 0
      → (events : List (Event World)) (hse note : List ℕ) (w : World)
      → replies id (run b events (start b hse note w)).ctx.sent
        ≡ asked b id events (start b hse note w)
  unfolding start before_start replies
  run-replies law n events hse note w =
      let counted = run-counted law n events (start b hse note w) in
      let greeting = greeted-Silent n hse note (before_start b w) in
      omega (arith, counted, greeting)
