-- ===== src/Blame/Reached.antt =====
-- frontend/src/lib/blameMarks.ts: what each anchor was measured on, through every edit.
use mathlib.Core.List.Memᴰ
use m6t.Common.{
  ℕ, zero, suc, ◌+◌, ◌==◌, ◌≡◌, refl, sym, subst, inl, inr, false, not, ◌&&◌, Option, none, some,
  List, [], ◌∷◌, Memᴰ, arith, if_cases, maybe_cases, length, take, get_elem?, min, Text, text_eq,
}
use m6t.Blame.{BlameCommit, Blame, commit_at}
use m6t.Blame.Marks.{
  Line, Doc, BlameAnchor, Anchors, anchor_at, set_anchor, BlameMarks, no_marks, drawn, anchor_line,
  anchored, marks_for, keep_best, Transaction, move_anchor, move_anchors, moved_anchors, set_value,
  update_in, update,
}

-- The blame that was last installed, with the document that it was installed on.

abbrev pub Measured : Type 0
Measured = Option (Blame × Doc)

abbrev pub measured_in : Option (Option Blame) → Measured → Doc → Measured
measured_in none measured doc = measured
measured_in (some none) measured doc = none
measured_in (some (some blame)) measured doc = some (blame, doc)

unfoldable pub measured_after : Measured → Transaction → Measured
measured_after measured transaction =
    measured_in (set_value transaction.effects) measured transaction.doc

-- The marks of an editor after its transactions; one that says it changed nothing leaves the document.
pub data Reachable : Measured → Doc → BlameMarks → Type 0 where
  begin : (doc : Doc) → Reachable none doc no_marks
  turn :
      {measured : Measured} {doc : Doc} {marks : BlameMarks} (transaction : Transaction)
      → Reachable measured doc marks
      → (transaction.doc_changed ≡ false → transaction.doc ≡ doc)
      → Reachable (measured_after measured transaction) transaction.doc (update marks transaction)

-- The blame names the commit for a line of the document that read as the text does.
pub record IsMeasured (measured : Measured) (commit : BlameCommit) (text : Text) : Type 0 where
  pub blame : Blame
  pub doc : Doc
  pub at : ℕ
  pub line : Line
  pub installed : measured ≡ some (blame, doc)
  pub named : commit_at blame (suc at) ≡ some commit
  pub placed : get_elem? doc.lines at ≡ some line
  pub reads : line.text ≡ text

-- An anchor is of a commit, and holds a line as it was measured.
pub record IsAnchor (measured : Measured) (anchor : BlameAnchor) : Type 0 where
  pub committed : anchor.marker.uncommitted ≡ false
  pub origin : IsMeasured measured anchor.marker anchor.text

-- A property of every anchor of a map.
abbrev pub Each : (BlameAnchor → Type 0) → Anchors → Type 0
Each P anchors = (entry : ℕ × BlameAnchor) → Memᴰ entry anchors → P entry.1

module _ (P : BlameAnchor → Type 0) where
  set_anchor-Each :
      (at : ℕ) (anchor : BlameAnchor) (anchors : Anchors)
      → P anchor
      → Each P anchors
      → Each P (set_anchor at anchor anchors)
  unfolding set_anchor
  set_anchor-Each at anchor [] own all =
      λ entry m. subst (λ (e : ℕ × BlameAnchor). P e.1) (sym (Memᴰ.eq_of_singleton m)) own
  set_anchor-Each at anchor ((j, held) ∷ anchors) own all = λ entry.
      if_cases (λ l. Memᴰ entry l → P entry.1) (j == at)
        (λ _ (m : Memᴰ entry ((j, anchor) ∷ anchors)). elim (Memᴰ.cases_cons m) [
          | inl new ↦ subst (λ (e : ℕ × BlameAnchor). P e.1) (sym new) own
          | inr old ↦ all entry (Memᴰ.tail old)
        ])
        (λ _ (m : Memᴰ entry ((j, held) ∷ set_anchor at anchor anchors)). elim (Memᴰ.cases_cons m) [
          | inl first ↦ all entry (Memᴰ.head first)
          | inr rest ↦ set_anchor-Each at anchor anchors own (λ e n. all e (Memᴰ.tail n)) entry rest
        ])

  keep_best-Each :
      (anchors : Anchors) (at : ℕ) (anchor : BlameAnchor) (text : Text)
      → P anchor
      → Each P anchors
      → Each P (keep_best anchors at anchor text)
  unfolding keep_best
  keep_best-Each anchors at anchor text own all =
      maybe_cases (Each P) (anchor_at at anchors) (λ _. set_anchor-Each at anchor anchors own all)
        (λ held _.
          if_cases (Each P) (not (text_eq held.text text) && text_eq anchor.text text)
            (λ _. set_anchor-Each at anchor anchors own all) (λ _. all))

  pub move_anchors-Each :
      (transaction : Transaction) (moved anchors : Anchors)
      → Each P moved
      → Each P anchors
      → Each P (move_anchors transaction moved anchors)
  unfolding move_anchors
  move_anchors-Each transaction moved [] done all = done
  move_anchors-Each transaction moved ((at, anchor) ∷ more) done all =
      move_anchors-Each transaction (move_anchor transaction moved at anchor) more
        (maybe_cases (Each P) (transaction.map_pos at) (λ _. done)
          (λ to _.
            keep_best-Each moved (transaction.doc.line_at to).from anchor
              (transaction.doc.line_at to).text (all (at, anchor) (Memᴰ.head refl)) done))
        (λ entry m. all entry (Memᴰ.tail m))

anchor_line-Each :
    (blame : Blame) (doc : Doc) (at : ℕ) (line : Line) (anchors : Anchors)
    → get_elem? doc.lines at ≡ some line
    → Each (IsAnchor (some (blame, doc))) anchors
    → Each (IsAnchor (some (blame, doc))) (anchor_line blame (suc at) line anchors)
unfolding anchor_line
anchor_line-Each blame doc at line anchors placed all =
    maybe_cases (Each (IsAnchor (some (blame, doc)))) (commit_at blame (suc at)) (λ _. all)
      (λ commit named.
        if_cases (Each (IsAnchor (some (blame, doc)))) commit.uncommitted (λ _. all)
          (λ committed.
            set_anchor-Each (IsAnchor (some (blame, doc))) line.from
              (record { text = line.text; marker = commit }) anchors
              (record {
                committed = committed;
                origin = record {
                  blame = blame;
                  doc = doc;
                  at = at;
                  line = line;
                  installed = refl;
                  named = named;
                  placed = placed;
                  reads = refl;
                };
              })
              all))

anchored-Each :
    (blame : Blame) (doc : Doc) (lines : List Line) (at : ℕ) (anchors : Anchors)
    → ((i : ℕ) (line : Line)
        → get_elem? lines i ≡ some line
        → get_elem? doc.lines (i + at) ≡ some line)
    → Each (IsAnchor (some (blame, doc))) anchors
    → Each (IsAnchor (some (blame, doc))) (anchored blame (suc at) lines anchors)
unfolding anchored
anchored-Each blame doc [] at anchors placed all = all
anchored-Each blame doc (line ∷ more) at anchors placed all =
    anchored-Each blame doc more (suc at) (anchor_line blame (suc at) line anchors)
      (λ i next e.
        let further : suc i + at ≡ i + suc at = omega arith in
        subst (λ n. get_elem? doc.lines n ≡ some next) further (placed (suc i) next e))
      (anchor_line-Each blame doc at line anchors
        (let none_on : 0 + at ≡ at = omega arith in
          subst (λ n. get_elem? doc.lines n ≡ some line) none_on (placed 0 line refl))
        all)

get_elem?-take :
    (n : ℕ) (lines : List Line) (i : ℕ) (line : Line)
    → get_elem? (take n lines) i ≡ some line
    → get_elem? lines i ≡ some line
get_elem?-take zero lines i line e = cc
get_elem?-take (suc n) [] i line e = cc
get_elem?-take (suc n) (first ∷ lines) zero line e = e
get_elem?-take (suc n) (first ∷ lines) (suc i) line e = get_elem?-take n lines i line e

marks_for-Each :
    (blame : Blame) (doc : Doc)
    → Each (IsAnchor (some (blame, doc))) (marks_for (some blame) doc).anchors
unfolding marks_for drawn
marks_for-Each blame doc =
    let last = min (length blame.lines) (length doc.lines) in
    anchored-Each blame doc (take last doc.lines) 0 []
      (λ i line e.
        let same : i ≡ i + 0 = omega arith in
        subst (λ n. get_elem? doc.lines n ≡ some line) same
          (get_elem?-take last doc.lines i line e))
      (λ entry m. elim m [ ])

update_in-Each :
    (value : Option (Option Blame)) (measured : Measured) (marks : BlameMarks)
    (transaction : Transaction)
    → Each (IsAnchor measured) marks.anchors
    → Each
        (IsAnchor (measured_in value measured transaction.doc))
        (update_in value marks transaction).anchors
unfolding no_marks marks_for drawn moved_anchors
update_in-Each (some none) measured marks transaction all = λ entry m. elim m [ ]
update_in-Each (some (some blame)) measured marks transaction all =
    marks_for-Each blame transaction.doc
update_in-Each none measured marks transaction all =
    if_cases (λ (u : BlameMarks). Each (IsAnchor measured) u.anchors) transaction.doc_changed
      (λ _.
        move_anchors-Each (IsAnchor measured) transaction [] marks.anchors (λ entry m. elim m [ ])
          all)
      (λ _. all)

-- Every anchor of a field that transactions reach.
pub Reachable-Each :
    {measured : Measured} {doc : Doc} {marks : BlameMarks}
    → Reachable measured doc marks
    → Each (IsAnchor measured) marks.anchors
unfolding no_marks update measured_after
Reachable-Each (begin doc) = λ entry m. elim m [ ]
Reachable-Each (turn {measured} {doc} {marks} transaction r follows) =
    update_in-Each (set_value transaction.effects) measured marks transaction (Reachable-Each r)

-- The marks are drawn on the document, where a blame is installed.
abbrev pub IsDrawn : BlameMarks → Doc → Type 0
IsDrawn marks doc = marks ≡ drawn marks.installed marks.anchors doc

update_in-IsDrawn :
    (value : Option (Option Blame)) (doc : Doc) (marks : BlameMarks) (transaction : Transaction)
    → (transaction.doc_changed ≡ false → transaction.doc ≡ doc)
    → IsDrawn marks doc
    → IsDrawn (update_in value marks transaction) transaction.doc
unfolding no_marks marks_for drawn
update_in-IsDrawn (some none) doc marks transaction follows e = refl
update_in-IsDrawn (some (some blame)) doc marks transaction follows e = refl
update_in-IsDrawn none doc marks transaction follows e =
    if_cases (λ (u : BlameMarks). IsDrawn u transaction.doc) transaction.doc_changed (λ _. refl)
      (λ same. subst (IsDrawn marks) (sym (follows same)) e)

pub Reachable-IsDrawn :
    {measured : Measured} {doc : Doc} {marks : BlameMarks}
    → Reachable measured doc marks
    → IsDrawn marks doc
unfolding no_marks update drawn
Reachable-IsDrawn (begin doc) = refl
Reachable-IsDrawn (turn {measured} {doc} {marks} transaction r follows) =
    update_in-IsDrawn (set_value transaction.effects) doc marks transaction follows
      (Reachable-IsDrawn r)
