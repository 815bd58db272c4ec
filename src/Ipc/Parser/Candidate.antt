-- ===== src/Ipc/Parser/Candidate.antt =====
-- A turn of the loop at a buffer that begins with a header: what it compares, and what it delivers.
use telegraph_stm_fw.Base.{
  ℕ, suc, ◌+◌, ◌≤◌, ◌<◌, ◌≡◌, ◌≢◌, List, ◌∷◌, true, false, some, length, take, drop, u16, u32, ltb,
  ◌!=◌, arith,
}
use telegraph_stm_fw.Ipc.Crc.{crc16}
use telegraph_stm_fw.Ipc.Wire.{get_u16, ipc_sof, ipc_frame_overhead, ipc_max_payload}
use telegraph_stm_fw.Ipc.Parser.{
  Parser, Stats, Call, stop, again, deliver, drain_frame, drain_turn, resync,
}
use telegraph_stm_fw.Ipc.Parser.Step.{discard_lem}

take_five :
    (n a b c d e : ℕ) (xs : List ℕ)
    → take (5 + n) (a ∷ b ∷ c ∷ d ∷ e ∷ xs) ≡ a ∷ b ∷ c ∷ d ∷ e ∷ take n xs
take_five n a b c d e xs = let k : 5 + n ≡ suc (suc (suc (suc (suc n)))) = omega arith in rw k

drop_six : (n a b c d e f : ℕ) (xs : List ℕ) → drop (6 + n) (a ∷ b ∷ c ∷ d ∷ e ∷ f ∷ xs) ≡ drop n xs
drop_six n a b c d e f xs =
    let k : 6 + n ≡ suc (suc (suc (suc (suc (suc n))))) = omega arith in rw k

-- A buffer whose first six bytes are a header that begins with the start byte.
module _ (l h op c d : ℕ) (body : List ℕ) (s : Stats) where
  abbrev pub headed : Parser
  headed = record { buf = ipc_sof ∷ l ∷ h ∷ op ∷ c ∷ d ∷ body; stats = s }

  abbrev pub named_len : ℕ
  named_len = get_u16 (l ∷ h ∷ op ∷ c ∷ d ∷ body)

  abbrev pub computed_check : ℕ → ℕ
  computed_check n = crc16 (some (l ∷ h ∷ op ∷ c ∷ d ∷ take n body))

  abbrev pub counted : Stats
  counted = record s { frames = u32 (s.frames + 1) }

  abbrev pub candidate : ℕ → Call
  candidate n = record {
    frame = record {
      opcode = op;
      corr_id = get_u16 (c ∷ d ∷ body);
      payload = take n body;
      payload_len = n;
    };
    seen = counted;
  }

  -- The length field is read and compared first.
  pub drain_turn-headed :
      named_len ≤ ipc_max_payload → drain_turn headed ≡ drain_frame headed named_len
  unfolding drain_turn
  drain_turn-headed le = ground arith

  -- Then the frame must be complete, and its check value right.
  pub drain_frame_complete :
      (n : ℕ)
      → n ≤ ipc_max_payload
      → n + 2 ≤ length body
      → computed_check n ≡ get_u16 (drop n body)
      → drain_frame headed n
        ≡ deliver (candidate n) (record { buf = drop (n + 2) body; stats = counted })
  unfolding drain_frame
  drain_frame_complete n le room e =
      let long : ltb (length headed.buf) (u16 (n + ipc_frame_overhead)) ≡ false = ground arith in
      let total : u16 (n + ipc_frame_overhead) ≡ 6 + (n + 2) = omega arith in
      let same : (computed_check n != get_u16 (drop n body)) ≡ false = ground arith in
      rw (
        long,
        take_five n l h op c d body,
        drop_six n ipc_sof l h op c d body,
        same,
        discard_lem,
        total,
        drop_six (n + 2) ipc_sof l h op c d body,
      )

  pub drain_frame-short :
      (n : ℕ) → n ≤ ipc_max_payload → length body < n + 2 → drain_frame headed n ≡ stop
  unfolding drain_frame
  drain_frame-short n le room = ground arith

  -- A wrong check value is counted, and the bytes up to the next start byte are dropped.
  pub drain_frame-wrong :
      (n : ℕ)
      → n ≤ ipc_max_payload
      → n + 2 ≤ length body
      → computed_check n ≢ get_u16 (drop n body)
      → drain_frame headed n
        ≡ again
            (resync (record headed { stats = record s { crc_errors = u32 (s.crc_errors + 1) } }))
  unfolding drain_frame
  drain_frame-wrong n le room ne =
      let long : ltb (length headed.buf) (u16 (n + ipc_frame_overhead)) ≡ false = ground arith in
      let other : (computed_check n != get_u16 (drop n body)) ≡ true = ground arith in
      rw (long, take_five n l h op c d body, drop_six n ipc_sof l h op c d body, other)

  pub drain_turn-too_long :
      ipc_max_payload < named_len
      → drain_turn headed
        ≡ again
            (resync (record headed { stats = record s { bad_length = u32 (s.bad_length + 1) } }))
  unfolding drain_turn
  drain_turn-too_long lt = ground arith
