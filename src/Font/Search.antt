-- ===== src/Font/Search.antt =====
-- The search of a character in the ordered table of a font.
use telegraph_stm_fw.Base.{
  ℕ, zero, suc, ◌+◌, ◌-◌, ◌/◌, ◌^◌, ◌≤◌, ◌<◌, ◌≡◌, ◌↔◌, sym, ap, ◌∙◌, List, false, Bool-cases, inl,
  inr, Option, none, some, get_or, ◌==◌, ltb, leb, ltb→lt, subst, u16, arith,
}
use mathlib.Core.Option.{none-ne-some}
use telegraph_stm_fw.Font.{Font, find_loop, find}

-- The code points of a font go up, and each fits its type.
pub record Ordered (cps : List ℕ) (count : ℕ) : Type 0 where
  pub up : (i j : ℕ) → i < j → j < count → get_or cps i 0 < get_or cps j 0
  pub small : (i : ℕ) → i < count → get_or cps i 0 < 2 ^ 16

-- What the loop gives: nothing, or an entry of the range with the code point.
abbrev Entry : List ℕ → ℕ → ℕ → ℕ → Option ℕ → Type 0
Entry cps cp lo above none = Unit
Entry cps cp lo above (some i) = (lo ≤ i) × (i < above) × (get_or cps i 0 ≡ u16 cp)

wider :
    (cps : List ℕ) (cp lo above low high : ℕ) (o : Option ℕ)
    → lo ≤ low
    → high ≤ above
    → Entry cps cp low high o
    → Entry cps cp lo above o
wider cps cp lo above low high none p q h = tt
wider cps cp lo above low high (some i) p q h = (omega (arith, h.0), omega (arith, h.1), h.2)

find_loop-Entry :
    (fuel : ℕ) (cps : List ℕ) (cp lo above : ℕ)
    → Entry cps cp lo above (find_loop fuel cps cp lo above)
unfolding find_loop
find_loop-Entry zero cps cp lo above = tt
find_loop-Entry (suc fuel) cps cp lo above =
    let mid = (lo + (above - 1)) / 2 in
    let at = get_or cps mid 0 in
    let right = find_loop-Entry fuel cps cp (mid + 1) above in
    let left = find_loop-Entry fuel cps cp lo mid in
    elim (Bool-cases (leb above lo)) [
      | inl over ↦ rw over tt
      | inr open_ ↦ elim (Bool-cases (at == u16 cp)) [
        | inl hit ↦ rw (open_, hit) (ground arith, ground arith, ground arith)
        | inr miss ↦ elim (Bool-cases (ltb at (u16 cp))) [
          | inl low ↦
              rw (open_, miss, low)
                (wider cps cp lo above (mid + 1) above (find_loop fuel cps cp (mid + 1) above)
                  (ground arith) (ground arith) right)
          | inr high ↦
              rw (open_, miss, high)
                (wider cps cp lo above lo mid (find_loop fuel cps cp lo mid) (ground arith)
                  (ground arith) left)
        ]
      ]
    ]

-- The order of two entries decides that of their code points.
before :
    (cps : List ℕ) (count i j : ℕ)
    → Ordered cps count
    → j < count
    → get_or cps j 0 < get_or cps i 0
    → i < count
    → j < i
before cps count i j ord p h q = elim (Bool-cases (ltb j i)) [
  | inl e ↦ ltb→lt j i e
  | inr e ↦ elim (Bool-cases (i == j)) [
    | inl f ↦
        let same : get_or cps i 0 ≡ get_or cps j 0 =
          ap (λ (k : ℕ). get_or cps k 0) (ground arith) in
        absurd (omega arith)
    | inr f ↦
        let later : get_or cps i 0 < get_or cps j 0 = ord.up i j (ground arith) p in
        absurd (omega arith)
  ]
]

equal :
    (cps : List ℕ) (count i j : ℕ)
    → Ordered cps count
    → i < count
    → j < count
    → get_or cps i 0 ≡ get_or cps j 0
    → i ≡ j
equal cps count i j ord p q h = elim (Bool-cases (ltb i j)) [
  | inl e ↦ let less = ord.up i j (ltb→lt i j e) q in absurd (omega arith)
  | inr e ↦ elim (Bool-cases (ltb j i)) [
    | inl f ↦ let less = ord.up j i (ltb→lt j i f) p in absurd (omega arith)
    | inr f ↦ ground arith
  ]
]

find_loop_complete :
    (fuel : ℕ) (cps : List ℕ) (count cp lo above i : ℕ)
    → Ordered cps count
    → above ≤ count
    → above ≤ lo + fuel
    → lo ≤ i
    → i < above
    → get_or cps i 0 ≡ u16 cp
    → find_loop fuel cps cp lo above ≡ some i
unfolding find_loop
find_loop_complete zero cps count cp lo above i ord in_table fuel a b e = absurd (omega arith)
find_loop_complete (suc fuel) cps count cp lo above i ord in_table enough a b e =
    let mid = (lo + (above - 1)) / 2 in
    let at = get_or cps mid 0 in
    let open_ : leb above lo ≡ false = ground arith in
    elim (Bool-cases (at == u16 cp)) [
      | inl hit ↦
          rw (open_, hit)
            (ap (λ (k : ℕ). some k)
              (equal cps count mid i ord (omega arith) (omega arith) (ground arith)))
      | inr miss ↦ elim (Bool-cases (ltb at (u16 cp))) [
        | inl low ↦
            rw (open_, miss, low)
              (find_loop_complete fuel cps count cp (mid + 1) above i ord in_table (omega arith)
                (omega
                  (arith, before cps count i mid ord (omega arith) (ground arith) (omega arith)))
                b e)
        | inr high ↦
            rw (open_, miss, high)
              (find_loop_complete fuel cps count cp lo mid i ord (omega arith) (omega arith) a
                (before cps count mid i ord (omega arith) (ground arith) (omega arith)) e)
      ]
    ]

-- Of a font whose table is ordered, the search gives an entry exactly where that entry has the code
-- point.
pub find_iff :
    (font : Font) (cp i : ℕ)
    → Ordered font.cp font.count
    → (find font cp ≡ some i) ↔ ((i < font.count) × (get_or font.cp i 0 ≡ cp))
unfolding find
find_iff font cp i ord =
    let entry : Entry font.cp cp 0 font.count (find_loop font.count font.cp cp 0 font.count) =
      find_loop-Entry font.count font.cp cp 0 font.count in
    elim (Bool-cases (ltb 0xffff cp)) [
      | inl big ↦ rw big (
        λ h. absurd (none-ne-some i h),
        λ h.
            let small = ord.small i h.0 in
            let beyond : 0xffff < cp = ltb→lt 0xffff cp big in absurd (omega (arith, h.1)),
      )
      | inr fits ↦
          let low : u16 cp ≡ cp = ground arith in
          rw fits (
            λ h.
                let found = subst (Entry font.cp cp 0 font.count) h entry in
                (found.1, found.2 ∙ low),
            λ h.
                find_loop_complete font.count font.cp font.count cp 0 font.count i ord (omega arith)
                  (omega arith) (omega arith) h.0 (h.1 ∙ sym low),
          )
    ]
