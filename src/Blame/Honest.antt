-- ===== src/Blame/Honest.antt =====
-- frontend/src/lib/blameMarks.ts: what the column and the bands say of each line.
use mathlib.Core.List.Memᴰ
use m6t.Common.{
  ℕ, ◌==◌, ==_iff, ◌≡◌, refl, sym, ap, ◌∙◌, subst, subst₂, inl, inr, Bool, true, false, not, Option,
  none, some, some_inj, List, [], ◌∷◌, map, Memᴰ, arith, if◌then◌else◌, if_cases, Bool-cases,
  or_else, maybe, length, filter, text_eq, text_eq_iff,
}
use m6t.Blame.{BlameCommit}
use m6t.Blame.Marks.{
  Line, Doc, BlameAnchor, Anchors, anchor_at, BlameMarks, uncommitted_entry, accounted_for,
  is_terminator, draw, drawn,
}
use m6t.Blame.Reached.{
  Measured, Reachable, IsMeasured, IsAnchor, Each, Reachable-Each, Reachable-IsDrawn,
}

anchor_at-Memᴰ :
    (at : ℕ) (anchors : Anchors) (anchor : BlameAnchor)
    → anchor_at at anchors ≡ some anchor
    → Memᴰ (at, anchor) anchors
unfolding anchor_at
anchor_at-Memᴰ at [] anchor e = cc
anchor_at-Memᴰ at ((j, held) ∷ anchors) anchor e =
    if_cases (λ o. o ≡ some anchor → Memᴰ (at, anchor) ((j, held) ∷ anchors)) (j == at)
      (λ own found. Memᴰ.head (λ i. (sym ((==_iff j at).0 own) i, sym (some_inj found) i)))
      (λ other found. Memᴰ.tail (anchor_at-Memᴰ at anchors anchor found)) e

-- What the anchors say of a line is the marker of one of them, whose text is the line's.
accounted_for-Each :
    (P : BlameAnchor → Type 0) (anchors : Anchors) (line : Line) (commit : BlameCommit)
    → Each P anchors
    → accounted_for anchors line ≡ some commit
    → (anchor : BlameAnchor) × P anchor × (anchor.marker ≡ commit) × (anchor.text ≡ line.text)
unfolding accounted_for
accounted_for-Each P anchors line commit all e = from (anchor_at line.from anchors) refl e
  where
    from :
        (o : Option BlameAnchor)
        → anchor_at line.from anchors ≡ o
        → maybe o none
            (λ anchor. if text_eq anchor.text line.text then some anchor.marker else none)
          ≡ some commit
        → (anchor : BlameAnchor) × P anchor × (anchor.marker ≡ commit) × (anchor.text ≡ line.text)
    from none at found = cc
    from (some anchor) at found = elim (Bool-cases (text_eq anchor.text line.text)) [
      | inl same ↦ (
        anchor,
        all (line.from, anchor) (anchor_at-Memᴰ line.from anchors anchor at),
        some_inj (subst (λ b. (if b then some anchor.marker else none) ≡ some commit) same found),
        (text_eq_iff anchor.text line.text).0 same,
      )
      | inr differs ↦
          cc (subst (λ b. (if b then some anchor.marker else none) ≡ some commit) differs found)
    ]

abbrev IsBanded : List (ℕ × BlameCommit) × List ℕ → Type 0
IsBanded sets =
    sets.1
    ≡ map (λ (e : ℕ × BlameCommit). e.0) (filter (λ (e : ℕ × BlameCommit). e.1.uncommitted) sets.0)

module _ (anchors : Anchors) (last : ℕ) where
  draw-Memᴰ :
      (lines : List Line) (at : ℕ) (commit : BlameCommit)
      → Memᴰ (at, commit) (draw anchors last lines).0
      → (line : Line) × Memᴰ line lines
        × (line.from ≡ at)
        × (or_else (accounted_for anchors line) uncommitted_entry ≡ commit)
  unfolding draw
  draw-Memᴰ [] at commit m = elim m [ ]
  draw-Memᴰ (line ∷ more) at commit m =
      let later : Memᴰ (at, commit) (draw anchors last more).0
          → (u : Line) × Memᴰ u (line ∷ more)
            × (u.from ≡ at)
            × (or_else (accounted_for anchors u) uncommitted_entry ≡ commit) =
        λ n.
          let (next, listed, from, says) = draw-Memᴰ more at commit n in
          (next, Memᴰ.tail listed, from, says) in
      if_cases
        (λ (sets : List (ℕ × BlameCommit) × List ℕ).
          Memᴰ (at, commit) sets.0
          → (u : Line) × Memᴰ u (line ∷ more)
            × (u.from ≡ at)
            × (or_else (accounted_for anchors u) uncommitted_entry ≡ commit))
        (is_terminator line last) (λ _ n. later n)
        (λ _
            (n : Memᴰ (at, commit)
              ((line.from, or_else (accounted_for anchors line) uncommitted_entry)
                ∷ (draw anchors last more).0)).
          elim (Memᴰ.cases_cons n) [
            | inl own ↦ (
              line,
              Memᴰ.head refl,
              sym (ap (λ (e : ℕ × BlameCommit). e.0) own),
              sym (ap (λ (e : ℕ × BlameCommit). e.1) own),
            )
            | inr rest ↦ later rest
          ])
        m

  -- The entries are at the lines that count, one each and in their order.
  draw_starts :
      (lines : List Line)
      → map (λ (e : ℕ × BlameCommit). e.0) (draw anchors last lines).0
        ≡ map (λ (line : Line). line.from) (filter (λ line. not (is_terminator line last)) lines)
  unfolding draw
  draw_starts [] = refl
  draw_starts (line ∷ more) = ground (arith, draw_starts more)

  draw_bands :
      (lines : List Line)
      → ((line : Line) (commit : BlameCommit)
          → accounted_for anchors line ≡ some commit
          → commit.uncommitted ≡ false)
      → IsBanded (draw anchors last lines)
  unfolding draw
  draw_bands [] own = refl
  draw_bands (line ∷ more) own =
      if_cases IsBanded (is_terminator line last) (λ _. draw_bands more own)
        (λ _.
          at_line (draw_bands more own) (accounted_for anchors line)
            (λ commit e. own line commit e))
    where
      at_line :
          IsBanded (draw anchors last more)
          → (o : Option BlameCommit)
          → ((commit : BlameCommit) → o ≡ some commit → commit.uncommitted ≡ false)
          → IsBanded (
            (line.from, or_else o uncommitted_entry) ∷ (draw anchors last more).0,
            maybe o (line.from ∷ (draw anchors last more).1) (λ _. (draw anchors last more).1),
          )
      at_line later none committed = ap (λ l. line.from ∷ l) later
      at_line later (some commit) committed =
          subst
            (λ b.
              (draw anchors last more).1
              ≡ map (λ (e : ℕ × BlameCommit). e.0)
                  (let rest =
                      filter (λ (e : ℕ × BlameCommit). e.1.uncommitted)
                        (draw anchors last more).0 in
                    if b then (line.from, commit) ∷ rest else rest))
            (sym (committed commit refl)) later

-- A line's entry that names a commit was measured: the blame that was last installed gives that commit
-- for a line of the document it was installed on, and that line read exactly as this one does now.
pub Reachable-IsMeasured :
    (measured : Measured) (doc : Doc) (marks : BlameMarks) (at : ℕ) (commit : BlameCommit)
    → Reachable measured doc marks
    → Memᴰ (at, commit) marks.entries
    → commit.uncommitted ≡ false
    → (line : Line) × Memᴰ line doc.lines × (line.from ≡ at) × IsMeasured measured commit line.text
unfolding drawn
Reachable-IsMeasured measured doc marks at commit r m committed =
    of_set marks.installed refl
      (subst (λ (u : BlameMarks). Memᴰ (at, commit) u.entries) (Reachable-IsDrawn r) m)
  where
    of_line :
        (line : Line)
        → Memᴰ line doc.lines
        → line.from ≡ at
        → (o : Option BlameCommit) → accounted_for marks.anchors line ≡ o
        → or_else o uncommitted_entry ≡ commit
        → (u : Line) × Memᴰ u doc.lines × (u.from ≡ at) × IsMeasured measured commit u.text
    of_line line listed from none named says = cc (committed, says)
    of_line line listed from (some c) named says =
        let (anchor, is_anchor, own, reads) =
          accounted_for-Each (IsAnchor measured) marks.anchors line c (Reachable-Each r) named in
        (line, listed, from, subst₂ (IsMeasured measured) (own ∙ says) reads is_anchor.origin)

    of_set :
        (b : Bool)
        → marks.installed ≡ b
        → Memᴰ
            (at, commit)
            (if b then draw marks.anchors (length doc.lines) doc.lines else ([], [])).0
        → (u : Line) × Memᴰ u doc.lines × (u.from ≡ at) × IsMeasured measured commit u.text
    of_set false e n = elim n [ ]
    of_set true e n =
        let (line, listed, from, says) =
          draw-Memᴰ marks.anchors (length doc.lines) doc.lines at commit n in
        of_line line listed from (accounted_for marks.anchors line) refl says

-- Where a blame is installed, the column has one entry for each line, at its start, but for the empty
-- line after a final newline; and the bands are at the lines whose entry is that of no commit.
pub Reachable-bands :
    (measured : Measured) (doc : Doc) (marks : BlameMarks)
    → Reachable measured doc marks
    → marks.installed ≡ true
    → (map (λ (e : ℕ × BlameCommit). e.0) marks.entries
        ≡ map
            (λ (line : Line). line.from)
            (filter (λ line. not (is_terminator line (length doc.lines))) doc.lines))
      × (marks.bands
          ≡ map
              (λ (e : ℕ × BlameCommit). e.0)
              (filter (λ (e : ℕ × BlameCommit). e.1.uncommitted) marks.entries))
unfolding drawn
Reachable-bands measured doc marks r on =
    let shown : marks ≡ drawn true marks.anchors doc =
      subst (λ b. marks ≡ drawn b marks.anchors doc) on (Reachable-IsDrawn r) in
    (
      ap (λ (u : BlameMarks). map (λ (e : ℕ × BlameCommit). e.0) u.entries) shown
          ∙ draw_starts marks.anchors (length doc.lines) doc.lines,
      subst (λ (u : BlameMarks). IsBanded (u.entries, u.bands)) (sym shown)
          (draw_bands marks.anchors (length doc.lines) doc.lines (λ line commit named.
            let (anchor, is_anchor, own, reads) =
              accounted_for-Each (IsAnchor measured) marks.anchors line commit (Reachable-Each r)
                named in
            ap (λ (c : BlameCommit). c.uncommitted) (sym own) ∙ is_anchor.committed)),
    )
