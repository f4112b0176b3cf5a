-- ===== src/Blame/Moved.antt =====
-- frontend/src/lib/blameMarks.ts: an edit elsewhere keeps a line's attribution.
use mathlib.Core.List.Memᴰ
use m6t.Common.{
  ℕ, ◌==◌, ==_iff, ◌≡◌, refl, sym, subst, subst₂, ◌≢◌, inl, inr, false, not, ◌&&◌, none, some, [],
  ◌∷◌, Memᴰ, arith, if◌then◌else◌, if_cases, Bool-cases, maybe, maybe_cases, Text, text_eq,
  text_eq_iff,
}
use m6t.Blame.Marks.{
  BlameAnchor, Anchors, anchor_at, set_anchor, accounted_for, keep_best, Transaction, move_anchor,
  move_anchors, moved_anchors,
}

anchor_at-set_anchor :
    (at j : ℕ) (anchor : BlameAnchor) (anchors : Anchors)
    → anchor_at j (set_anchor at anchor anchors)
      ≡ (if at == j then some anchor else anchor_at j anchors)
unfolding anchor_at set_anchor
anchor_at-set_anchor at j anchor [] = refl
anchor_at-set_anchor at j anchor ((i, held) ∷ anchors) =
    ground (arith, anchor_at-set_anchor at j anchor anchors)

-- The anchor at a position reads as the text.
pub record Describes (anchors : Anchors) (at : ℕ) (text : Text) : Type 0 where
  pub anchor : BlameAnchor
  pub there : anchor_at at anchors ≡ some anchor
  pub reads : anchor.text ≡ text

set_anchor-own :
    (anchors : Anchors) (at : ℕ) (anchor : BlameAnchor) (text : Text)
    → anchor.text ≡ text
    → Describes (set_anchor at anchor anchors) at text
set_anchor-own anchors at anchor text reads = record {
  anchor = anchor;
  there = ground (arith, anchor_at-set_anchor at at anchor anchors);
  reads = reads;
}

set_anchor-other :
    (anchors : Anchors) (at j : ℕ) (anchor : BlameAnchor) (text : Text)
    → (at == j) ≡ false
    → Describes anchors j text
    → Describes (set_anchor at anchor anchors) j text
set_anchor-other anchors at j anchor text other d = record {
  anchor = d.anchor;
  there = ground (arith, other, d.there, anchor_at-set_anchor at j anchor anchors);
  reads = d.reads;
}

-- An anchor that describes its line is kept there, or one that does so too.
keep_best-own :
    (anchors : Anchors) (at : ℕ) (anchor : BlameAnchor) (text : Text)
    → anchor.text ≡ text
    → Describes (keep_best anchors at anchor text) at text
unfolding keep_best
keep_best-own anchors at anchor text reads =
    maybe_cases (λ u. Describes u at text) (anchor_at at anchors)
      (λ _. set_anchor-own anchors at anchor text reads)
      (λ held there.
        if_cases (λ u. Describes u at text)
          (not (text_eq held.text text) && text_eq anchor.text text)
          (λ _. set_anchor-own anchors at anchor text reads)
          (λ stays. record {
            anchor = held;
            there = there;
            reads =
                (text_eq_iff held.text text).0
                  (ground (arith, stays, (text_eq_iff anchor.text text).1 reads));
          }))

-- Whatever else arrives there.
keep_best-Describes :
    (anchors : Anchors) (at j : ℕ) (anchor : BlameAnchor) (text : Text)
    → (t : Text) → (at ≡ j → t ≡ text)
    → Describes anchors j text
    → Describes (keep_best anchors at anchor t) j text
unfolding keep_best
keep_best-Describes anchors at j anchor text t one d = elim (Bool-cases (at == j)) [
  | inl here ↦
      let place : at ≡ j = (==_iff at j).0 here in
      maybe_cases (λ u. Describes u j text) (anchor_at at anchors)
        (λ nowhere. cc (nowhere, place, d.there))
        (λ held there.
          if_cases (λ u. Describes u j text) (not (text_eq held.text t) && text_eq anchor.text t)
            (λ better. subst₂ (Describes (set_anchor at anchor anchors)) place (one place) (
              set_anchor-own anchors at anchor t
                ((text_eq_iff anchor.text t).0 (ground (arith, better)))))
            (λ _. d))
  | inr other ↦
      maybe_cases (λ u. Describes u j text) (anchor_at at anchors)
        (λ _. set_anchor-other anchors at j anchor text other d)
        (λ held _.
          if_cases (λ u. Describes u j text) (not (text_eq held.text t) && text_eq anchor.text t)
            (λ _. set_anchor-other anchors at j anchor text other d) (λ _. d))
]

module _ (transaction : Transaction)
    (one : (p q : ℕ)
      → (transaction.doc.line_at p).from ≡ (transaction.doc.line_at q).from
      → (transaction.doc.line_at p).text ≡ (transaction.doc.line_at q).text)
    (to : ℕ) where
  move_anchor-Describes :
      (moved : Anchors) (at : ℕ) (anchor : BlameAnchor)
      → Describes moved (transaction.doc.line_at to).from (transaction.doc.line_at to).text
      → Describes
          (move_anchor transaction moved at anchor)
          (transaction.doc.line_at to).from
          (transaction.doc.line_at to).text
  move_anchor-Describes moved at anchor d =
      let line = transaction.doc.line_at to in
      maybe_cases (λ u. Describes u line.from line.text) (transaction.map_pos at) (λ _. d)
        (λ p _.
          keep_best-Describes moved (transaction.doc.line_at p).from line.from anchor line.text
            (transaction.doc.line_at p).text (one p to) d)

  move_anchors-Describes :
      (moved anchors : Anchors)
      → Describes moved (transaction.doc.line_at to).from (transaction.doc.line_at to).text
      → Describes
          (move_anchors transaction moved anchors)
          (transaction.doc.line_at to).from
          (transaction.doc.line_at to).text
  unfolding move_anchors
  move_anchors-Describes moved [] d = d
  move_anchors-Describes moved ((at, anchor) ∷ more) d =
      move_anchors-Describes (move_anchor transaction moved at anchor) more
        (move_anchor-Describes moved at anchor d)

  move_anchors-own :
      (moved anchors : Anchors) (at : ℕ) (anchor : BlameAnchor)
      → Memᴰ (at, anchor) anchors
      → transaction.map_pos at ≡ some to
      → anchor.text ≡ (transaction.doc.line_at to).text
      → Describes
          (move_anchors transaction moved anchors)
          (transaction.doc.line_at to).from
          (transaction.doc.line_at to).text
  unfolding move_anchors
  move_anchors-own moved [] at anchor m maps reads = elim m [ ]
  move_anchors-own moved ((j, first) ∷ more) at anchor m maps reads = elim (Memᴰ.cases_cons m) [
    | inl own ↦ move_anchors-Describes (move_anchor transaction moved j first) more (
        subst
          (λ (e : ℕ × BlameAnchor).
            Describes (move_anchor transaction moved e.0 e.1) (transaction.doc.line_at to).from
              (transaction.doc.line_at to).text)
          own
          (subst
            (λ o.
              Describes
                (maybe o moved λ p.
                  keep_best moved (transaction.doc.line_at p).from anchor
                    (transaction.doc.line_at p).text)
                (transaction.doc.line_at to).from (transaction.doc.line_at to).text)
            (sym maps)
            (keep_best-own moved (transaction.doc.line_at to).from anchor
              (transaction.doc.line_at to).text reads)))
    | inr rest ↦
        move_anchors-own (move_anchor transaction moved j first) more at anchor rest maps reads
  ]

-- Where an anchor's position is mapped onto a line that reads as the anchor does, that line is
-- accounted for after the edit, whatever other anchors land on it. Positions on one line give one text.
pub accounted_for-moved_anchors :
    (anchors : Anchors) (transaction : Transaction) (at to : ℕ) (anchor : BlameAnchor)
    → ((p q : ℕ)
        → (transaction.doc.line_at p).from ≡ (transaction.doc.line_at q).from
        → (transaction.doc.line_at p).text ≡ (transaction.doc.line_at q).text)
    → Memᴰ (at, anchor) anchors
    → transaction.map_pos at ≡ some to
    → anchor.text ≡ (transaction.doc.line_at to).text
    → accounted_for (moved_anchors anchors transaction) (transaction.doc.line_at to) ≢ none
unfolding accounted_for moved_anchors
accounted_for-moved_anchors anchors transaction at to anchor one m maps reads =
    let d = move_anchors-own transaction one to [] anchors at anchor m maps reads in
    ground (arith, d.there, (text_eq_iff d.anchor.text (transaction.doc.line_at to).text).1 d.reads)
