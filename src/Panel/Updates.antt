-- ===== src/Panel/Updates.antt =====
-- A whole change of a panel between two images of the scan, and one that meets the scan.
use telegraph_stm_fw.Base.{ℕ, ◌≡◌, refl, ap, ◌∙◌, List, [], ◌∷◌, ◌++◌, map, true, false, subst}
use telegraph_stm_fw.Panel.{Panel, shown, hidden, begin, commit, swap_now}
use telegraph_stm_fw.Panel.Frames.{
  Edit, Step, by_writer, by_scan, edit, painted, run, paint, Painted, unpainted, Painted-after,
  edit-Painted, same_paint, begin_dirty, swap_due, run-Painted, shown_swapped, hidden_swapped,
  begin-Painted,
}

-- A whole change of a panel, and what the interrupts do before its commit.
pub update : List Step → Panel → Panel
update steps d = commit (run steps (begin d))

update_shows :
    (steps : List Step) (d : Panel)
    → shown (swap_now (update steps d)) ≡ hidden (run steps (begin d))
unfolding update commit
update_shows steps d = shown_swapped (record (run steps (begin d)) { swap = true }) refl

-- A change that begins when no image waits for the scan shows nothing before its commit, and all of
-- it over the image from before with the first swap after, wherever the interrupts came.
pub update-shown :
    (steps : List Step) (d : Panel)
    → d.dirty ≡ false
    → d.swap ≡ false
    → (shown (update steps d) ≡ shown d)
      × (shown (swap_now (update steps d)) ≡ paint d.width d.height steps (shown d))
unfolding update commit
update-shown steps d clean idle =
    let open_ = begin-Painted d clean in
    let done = run-Painted steps (begin d) (open_.swap ∙ idle) in
    (
      done.shown ∙ open_.shown,
      update_shows steps d ∙ done.hidden ∙ same_paint steps open_.width open_.height open_.hidden,
    )

-- Edits alone, whatever waits for the scan.
abbrev pub alone : List Edit → List Step
alone edits = map (λ (e : Edit). by_writer e) edits

alone-Painted :
    (edits : List Edit) (d : Panel)
    → Painted d (run (alone edits) d) (paint d.width d.height (alone edits) (hidden d))
unfolding run paint
alone-Painted [] d = unpainted d
alone-Painted (e ∷ es) d =
    let once = edit-Painted e d in
    let image = painted d.width d.height e (hidden d) in
    let same : paint (edit e d).width (edit e d).height (alone es) (hidden (edit e d))
        ≡ paint d.width d.height (alone es) image =
      same_paint (alone es) once.width once.height once.hidden in
    Painted-after d (edit e d) (run (alone es) (edit e d)) image
      (paint d.width d.height (alone es) image) once
      (subst (λ (i : List ℕ). Painted (edit e d) (run (alone es) (edit e d)) i) same
        (alone-Painted es (edit e d)))

run-append : (xs ys : List Step) (d : Panel) → run (xs ++ ys) d ≡ run ys (run xs d)
unfolding run
run-append [] ys d = refl
run-append (by_writer e ∷ xs) ys d = run-append xs ys (edit e d)
run-append (by_scan ∷ xs) ys d = run-append xs ys (swap_now d)

-- A change that begins while an image still waits for the scan, and that the interrupt meets after
-- some of its edits: that swap shows the waiting image with those edits alone, and the swap after
-- the commit shows the image from before both changes with the later edits alone.
pub update-torn :
    (early late : List Edit) (d : Panel)
    → d.dirty ≡ true
    → d.swap ≡ true
    → (shown (swap_now (run (alone early) (begin d)))
        ≡ paint d.width d.height (alone early) (hidden d))
      × (shown (swap_now (update (alone early ++ by_scan ∷ alone late) d))
          ≡ paint d.width d.height (alone late) (shown d))
unfolding run
update-torn early late d open_ due =
    let start = begin_dirty d open_ in
    let half = run (alone early) d in
    let first = alone-Painted early d in
    let taken = swap_now half in
    let waits : half.swap ≡ true = first.swap ∙ due in
    let last = alone-Painted late taken in
    let swapped = swap_due half waits in
    let order : run (alone early ++ by_scan ∷ alone late) (begin d) ≡ run (alone late) taken =
      ap (run (alone early ++ by_scan ∷ alone late)) start
      ∙ run-append (alone early) (by_scan ∷ alone late) d in
    (
      ap (λ (p : Panel). shown (swap_now (run (alone early) p))) start
          ∙ shown_swapped half waits
          ∙ first.hidden,
      update_shows (alone early ++ by_scan ∷ alone late) d
          ∙ ap (λ (p : Panel). hidden p) order
          ∙ last.hidden
          ∙ same_paint (alone late) (ap (λ (p : Panel). p.width) swapped ∙ first.width)
              (ap (λ (p : Panel). p.height) swapped ∙ first.height)
              (hidden_swapped half waits ∙ first.shown),
    )
