-- ===== src/Ipc/Parser/Account.antt =====
-- The account of the bytes of the parser: in the buffer, in the frames delivered, or dropped. The
-- counts are uint32_t, thus modulo 2 ^ 32.
use telegraph_stm_fw.Base.{
  ℕ, ◌+◌, ◌-◌, ◌≤◌, ◌≡◌, List, [], ◌∷◌, length, length-drop, arith, ◌%◌, ◌^◌,
}
use telegraph_stm_fw.Ipc.Wire.{ipc_frame_overhead}
use telegraph_stm_fw.Ipc.Parser.{Parser, Call, again, deliver, Taken, idle, after_call, drain}
use telegraph_stm_fw.Ipc.Parser.Step.{Advances}
use telegraph_stm_fw.Ipc.Parser.Drains.{Drains, ends, resyncs, delivers, drain-Drains}

-- The bytes that the frames of some calls took on the link.
abbrev pub frame_total : List Call → ℕ
frame_total [] = 0
frame_total (c ∷ calls) = c.frame.payload_len + ipc_frame_overhead + frame_total calls

-- From a parser that held or was given `bytes_in` bytes to what a function left.
pub record Accounts (p : Parser) (bytes_in : ℕ) (t : Taken) : Type 0 where
  pub bytes :
      (t.parser.stats.dropped + length t.parser.buf + frame_total t.calls) % 2 ^ 32
      ≡ (p.stats.dropped + bytes_in) % 2 ^ 32
  pub frames : (p.stats.frames + length t.calls) % 2 ^ 32 ≡ t.parser.stats.frames % 2 ^ 32
  pub accepted : t.accepted ≡ length t.calls % 2 ^ 32
  pub shorter : length t.parser.buf ≤ bytes_in

pub Accounts-idle : (p : Parser) → Accounts p (length p.buf) (idle p)
unfolding idle
Accounts-idle p = record {
  bytes = omega arith;
  frames = omega arith;
  accepted = omega arith;
  shorter = omega arith;
}

Accounts-again :
    (p q : Parser) (t : Taken)
    → Advances p (again q)
    → Accounts q (length q.buf) t
    → Accounts p (length p.buf) t
Accounts-again p q t (n, pos, le, buf, d, f) a =
    let len : length q.buf ≡ length p.buf - n = rw buf (length-drop n p.buf) in
    record {
      bytes = omega (arith, a.bytes);
      frames = omega (arith, a.frames);
      accepted = a.accepted;
      shorter = omega (arith, a.shorter);
    }

Accounts-deliver :
    (p q : Parser) (c : Call) (t : Taken)
    → Advances p (deliver c q)
    → Accounts q (length q.buf) t
    → Accounts p (length p.buf) (after_call c t)
unfolding after_call
Accounts-deliver p q c t (max, le, buf, d, f) a =
    let len : length q.buf ≡ length p.buf - (c.frame.payload_len + ipc_frame_overhead) =
      rw buf (length-drop (c.frame.payload_len + ipc_frame_overhead) p.buf) in
    record {
      bytes = omega (arith, a.bytes);
      frames = omega (arith, a.frames);
      accepted = omega (arith, a.accepted);
      shorter = omega (arith, a.shorter);
    }

Drains-Accounts : {p : Parser} {t : Taken} → Drains p t → Accounts p (length p.buf) t
Drains-Accounts (ends p t e i) = rw i (Accounts-idle p)
Drains-Accounts (resyncs p q t e a d) = Accounts-again p q t a (Drains-Accounts d)
Drains-Accounts (delivers p q c t u e a d i) = rw i (Accounts-deliver p q c t a (Drains-Accounts d))

pub drain-Accounts : (p : Parser) → Accounts p (length p.buf) (drain p)
drain-Accounts p = Drains-Accounts (drain-Drains p)
