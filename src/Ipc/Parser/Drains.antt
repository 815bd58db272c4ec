-- ===== src/Ipc/Parser/Drains.antt =====
-- The loop of ipc_drain as a relation: the turns that it takes until one stops.
use telegraph_stm_fw.Base.{ℕ, zero, suc, ◌+◌, ◌<◌, ◌≡◌, refl, length, length-drop, arith}
use telegraph_stm_fw.Ipc.Wire.{ipc_frame_overhead}
use telegraph_stm_fw.Ipc.Parser.{
  Parser, Call, Turn, stop, again, deliver, Taken, idle, after_call, drain_turn, drain_loop, drain,
}
use telegraph_stm_fw.Ipc.Parser.Step.{Advances, drain_turn-Advances}

pub data Drains : Parser → Taken → Type 0 where
  ends : (p : Parser) (t : Taken) → drain_turn p ≡ stop → t ≡ idle p → Drains p t
  resyncs :
      (p q : Parser) (t : Taken)
      → drain_turn p ≡ again q
      → Advances p (again q)
      → Drains q t
      → Drains p t
  delivers :
      (p q : Parser) (c : Call) (t u : Taken)
      → drain_turn p ≡ deliver c q
      → Advances p (deliver c q)
      → Drains q t
      → u ≡ after_call c t
      → Drains p u

shorter_again : (p q : Parser) → Advances p (again q) → length q.buf < length p.buf
shorter_again p q (n, pos, le, buf, d, f) = rw buf (omega (arith, length-drop n p.buf))

shorter_deliver : (p q : Parser) (c : Call) → Advances p (deliver c q) → length q.buf < length p.buf
shorter_deliver p q c (max, le, buf, d, f) =
    rw buf (omega (arith, length-drop (c.frame.payload_len + ipc_frame_overhead) p.buf))

-- One turn of the loop on fuel, its turn known.
loop_stop : (fuel : ℕ) (p : Parser) → drain_turn p ≡ stop → drain_loop (suc fuel) p ≡ idle p
unfolding drain_loop
loop_stop fuel p e = rw (e, drain_loop)

loop_again :
    (fuel : ℕ) (p q : Parser) → drain_turn p ≡ again q → drain_loop (suc fuel) p ≡ drain_loop fuel q
unfolding drain_loop
loop_again fuel p q e = rw (e, drain_loop)

loop_deliver :
    (fuel : ℕ) (p q : Parser) (c : Call)
    → drain_turn p ≡ deliver c q
    → drain_loop (suc fuel) p ≡ after_call c (drain_loop fuel q)
unfolding drain_loop
loop_deliver fuel p q c e = rw (e, drain_loop)

module _ (fuel : ℕ) (rec : (q : Parser) → length q.buf < fuel → Drains q (drain_loop fuel q)) where
  from_turn :
      (p : Parser) (t : Turn)
      → drain_turn p ≡ t
      → Advances p t
      → length p.buf < suc fuel
      → Drains p (drain_loop (suc fuel) p)
  from_turn p stop e a h = ends p _ e (loop_stop fuel p e)
  from_turn p (again q) e a h =
      rw (loop_again fuel p q e) (resyncs p q _ e a (rec q (omega (arith, shorter_again p q a))))
  from_turn p (deliver c q) e a h =
      delivers p q c (drain_loop fuel q) _ e a (rec q (omega (arith, shorter_deliver p q c a)))
        (loop_deliver fuel p q c e)

drain_loop-Drains : (fuel : ℕ) (p : Parser) → length p.buf < fuel → Drains p (drain_loop fuel p)
drain_loop-Drains zero p h = absurd (omega arith)
drain_loop-Drains (suc fuel) p h =
    from_turn fuel (λ q k. drain_loop-Drains fuel q k) p (drain_turn p) refl (drain_turn-Advances p)
      h

-- The fuel of `drain` lets the loop run to its end.
pub drain-Drains : (p : Parser) → Drains p (drain p)
unfolding drain
drain-Drains p = drain_loop-Drains (suc (length p.buf)) p (omega arith)

-- The loop ends by its own test: the parser that it leaves gives no further turn.
Drains-stop : {p : Parser} {t : Taken} → Drains p t → drain_turn t.parser ≡ stop
unfolding idle after_call
Drains-stop (ends p t e i) = rw i e
Drains-stop (resyncs p q t e a d) = Drains-stop d
Drains-stop (delivers p q c t u e a d i) = rw i (Drains-stop d)

pub drain_finishes : (p : Parser) → drain_turn (drain p).parser ≡ stop
drain_finishes p = Drains-stop (drain-Drains p)
