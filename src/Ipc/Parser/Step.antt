-- ===== src/Ipc/Parser/Step.antt =====
-- What one turn of the loop of ipc_drain takes off the front of the buffer, and what it counts.
use telegraph_stm_fw.Base.{
  ℕ, zero, suc, ◌+◌, ◌-◌, ◌≤◌, ◌<◌, ◌≡◌, ◌≢◌, inl, inr, refl, sym, ap, ◌∙◌, List, [], ◌∷◌, Option,
  none, some, Bool, take, length, length-drop, drop, drop-past, byte_at, u16, u32, leb, ltb, ◌==◌,
  ◌!=◌, ==_iff, ==-ne, Bool-cases, leb→le, ltb→le, arith,
}
use telegraph_stm_fw.Ipc.Wire.{
  ipc_sof, get_u16, ipc_max_payload, ipc_frame_overhead, ipc_header_len,
}
use telegraph_stm_fw.Ipc.Crc.{crc16}
use telegraph_stm_fw.Ipc.Parser.{
  Parser, Stats, Turn, stop, again, deliver, discard, find_sof, skip_to, resync, drain_turn,
  drain_frame, count_resync, count_dropped,
}

pub discard_lem : (p : Parser) (n : ℕ) → discard p n ≡ record p { buf = drop n p.buf }
unfolding discard
discard_lem p n = elim (Bool-cases (leb (length p.buf) n)) [
  | inl past ↦ rw (past, drop-past n p.buf (leb→le _ _ past))
  | inr inside ↦ rw inside
]

-- The index found holds a start byte, and no index before it does; none is found where none is.
abbrev pub FirstSof : ℕ → List ℕ → Option ℕ → Type 0
FirstSof idx rest none = (i : ℕ) → i < length rest → byte_at rest i ≢ ipc_sof
FirstSof idx rest (some j) =
    (k : ℕ) × (j ≡ idx + k)
    × (k < length rest)
    × (byte_at rest k ≡ ipc_sof)
    × ((i : ℕ) → i < k → byte_at rest i ≢ ipc_sof)

find_sof-none_of_tail :
    (b : ℕ) (rest : List ℕ)
    → b ≢ ipc_sof
    → ((i : ℕ) → i < length rest → byte_at rest i ≢ ipc_sof)
    → (i : ℕ) → i < suc (length rest)
    → byte_at (b ∷ rest) i ≢ ipc_sof
find_sof-none_of_tail b rest h k zero p = h
find_sof-none_of_tail b rest h k (suc i) p = k i (omega arith)

FirstSof-cons :
    (idx b : ℕ) (rest : List ℕ) (found : Option ℕ)
    → b ≢ ipc_sof
    → FirstSof (idx + 1) rest found
    → FirstSof idx (b ∷ rest) found
FirstSof-cons idx b rest none h f = find_sof-none_of_tail b rest h f
FirstSof-cons idx b rest (some j) h (k, e, lt, at, before) =
    (suc k, omega arith, omega arith, at, skip)
  where
    skip : (i : ℕ) → i < suc k → byte_at (b ∷ rest) i ≢ ipc_sof
    skip zero p = h
    skip (suc i) p = before i (omega arith)

-- The search over some bytes gives the index, counted from `idx`, of the first start byte among
-- them, or nothing where none of them is one.
pub find_sof-FirstSof : (idx : ℕ) (rest : List ℕ) → FirstSof idx rest (find_sof idx rest)
unfolding find_sof
find_sof-FirstSof idx [] = λ i p. absurd (omega arith)
find_sof-FirstSof idx (b ∷ rest) = elim (Bool-cases (b == ipc_sof)) [
  | inl is_sof ↦
      rw is_sof
        (0, omega arith, omega arith, (==_iff b ipc_sof).0 is_sof, λ i p. absurd (omega arith))
  | inr other ↦ rw other (
      FirstSof-cons idx b rest (find_sof (idx + 1) rest) (==-ne b ipc_sof other)
        (find_sof-FirstSof (idx + 1) rest))
]

-- After a resync: `n` bytes are gone, at least one where there was one, and counted as dropped.
abbrev pub Resynced : Parser → Parser → Type 0
Resynced p q =
    (n : ℕ) × (n ≤ length p.buf)
    × (0 < length p.buf → 0 < n)
    × (q.buf ≡ drop n p.buf)
    × (q.stats ≡ count_dropped n (count_resync p.stats))

skip_to-Resynced :
    (p : Parser) (found : Option ℕ) → FirstSof 1 (drop 1 p.buf) found → Resynced p (skip_to p found)
unfolding skip_to
skip_to-Resynced p none f =
    (length p.buf, omega arith, λ h. h, sym (drop-past _ p.buf (omega arith)), refl)
skip_to-Resynced p (some j) (k, j_eq, k_lt, is_sof, before) =
    rw (discard_lem (record p { stats = count_dropped j (count_resync p.stats) }) j)
      (j, omega (arith, length-drop 1 p.buf), λ h. omega arith, refl, refl)

pub resync-Resynced : (p : Parser) → Resynced p (resync p)
unfolding resync
resync-Resynced p =
    skip_to-Resynced p (find_sof 1 (drop 1 p.buf)) (find_sof-FirstSof 1 (drop 1 p.buf))

-- What a turn of the loop does: it stops and changes nothing; or it takes at least one byte off the
-- front and counts it as dropped; or it takes exactly one frame off the front and counts no drop.
abbrev pub Advances : Parser → Turn → Type 0
Advances p stop = Unit
Advances p (again q) =
    (n : ℕ) × (0 < n)
    × (n ≤ length p.buf)
    × (q.buf ≡ drop n p.buf)
    × (q.stats.dropped ≡ u32 (p.stats.dropped + n))
    × (q.stats.frames ≡ p.stats.frames)
Advances p (deliver c q) =
    (c.frame.payload_len ≤ ipc_max_payload)
    × (c.frame.payload_len + ipc_frame_overhead ≤ length p.buf)
    × (q.buf ≡ drop (c.frame.payload_len + ipc_frame_overhead) p.buf)
    × (q.stats.dropped ≡ p.stats.dropped)
    × (q.stats.frames ≡ u32 (p.stats.frames + 1))

abbrev crc_differs : Parser → ℕ → Bool
crc_differs p payload_len =
    crc16 (some (take (ipc_header_len - 1 + payload_len) (drop 1 p.buf)))
    != get_u16 (drop (ipc_header_len + payload_len) p.buf)

-- A resync, whatever other counts moved first.
resync-Advances :
    (p : Parser) (s : Stats)
    → s.dropped ≡ p.stats.dropped
    → s.frames ≡ p.stats.frames
    → 0 < length p.buf
    → Advances p (again (resync (record p { stats = s })))
unfolding count_dropped count_resync
resync-Advances p s d f h =
    let (n, le, positive, buf, stats) = resync-Resynced (record p { stats = s }) in
    (
      n,
      positive h,
      le,
      buf,
      ap (λ (t : Stats). t.dropped) stats ∙ ap (λ (x : ℕ). u32 (x + n)) d,
      ap (λ (t : Stats). t.frames) stats ∙ f,
    )

drain_frame-Advances :
    (p : Parser) (payload_len : ℕ)
    → payload_len ≤ ipc_max_payload
    → 0 < length p.buf
    → Advances p (drain_frame p payload_len)
unfolding drain_frame
drain_frame-Advances p payload_len le h =
    let total : u16 (payload_len + ipc_frame_overhead) ≡ payload_len + ipc_frame_overhead =
      omega arith in
    elim (Bool-cases (ltb (length p.buf) (u16 (payload_len + ipc_frame_overhead)))) [
      | inl short ↦ rw short tt
      | inr long ↦ rw long (elim (Bool-cases (crc_differs p payload_len)) [
        | inl wrong ↦ rw wrong (resync-Advances p _ refl refl h)
        | inr right ↦
            rw (right, discard_lem, total) (le, rw total at (ltb→le _ _ long), refl, refl, refl)
      ])
    ]

pub drain_turn-Advances : (p : Parser) → Advances p (drain_turn p)
unfolding drain_turn
drain_turn-Advances p = elim (Bool-cases (length p.buf == 0)) [
  | inl empty ↦ rw empty tt
  | inr some_bytes ↦
      let h : 0 < length p.buf = ground (arith, ==-ne _ _ some_bytes) in
      rw some_bytes (elim (Bool-cases (byte_at p.buf 0 != ipc_sof)) [
        | inl no_sof ↦ rw no_sof (resync-Advances p p.stats refl refl h)
        | inr sof ↦ rw sof (elim (Bool-cases (ltb (length p.buf) 6)) [
          | inl short ↦ rw short tt
          | inr long ↦ rw long (elim (Bool-cases (ltb ipc_max_payload (get_u16 (drop 1 p.buf)))) [
            | inl too_long ↦ rw too_long (resync-Advances p _ refl refl h)
            | inr fits ↦ rw fits (drain_frame-Advances p _ (ltb→le _ _ fits) h)
          ])
        ])
      ])
]
