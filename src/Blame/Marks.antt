-- ===== src/Blame/Marks.antt =====
-- frontend/src/lib/blameMarks.ts: the column and the bands, kept on their lines as a buffer is edited.
-- The editor's documents and transactions are a package's.
use m6t.Common.{
  ℕ, suc, ◌==◌, min, Bool, true, false, not, ◌&&◌, Option, none, some, List, [], ◌∷◌, if◌then◌else◌,
  or_else, maybe, length, take, Text, text_eq,
}
use m6t.Common.Int.{pos}
use m6t.Blame.{BlameCommit, Blame, commit_at}

pub record Line : Type 0 where
  pub number : ℕ
  pub from : ℕ
  pub text : Text

-- `lines` are those that `line(number)` gives, and `line_at` is `lineAt`.
pub record Doc : Type 0 where
  pub lines : List Line
  pub line_at : ℕ → Line

pub record BlameAnchor : Type 0 where
  pub text : Text
  pub marker : BlameCommit

-- A `Map` from positions, in the order of insertion.
abbrev pub Anchors : Type 0
Anchors = List (ℕ × BlameAnchor)

unfoldable pub anchor_at : ℕ → Anchors → Option BlameAnchor
anchor_at at [] = none
anchor_at at ((j, anchor) ∷ anchors) =
    let rest = anchor_at at anchors in if j == at then some anchor else rest

unfoldable pub set_anchor : ℕ → BlameAnchor → Anchors → Anchors
set_anchor at anchor [] = (at, anchor) ∷ []
set_anchor at anchor ((j, held) ∷ anchors) =
    let rest = set_anchor at anchor anchors in
    if j == at then (j, anchor) ∷ anchors else (j, held) ∷ rest

-- An entry is the commit that it is made of.
pub record BlameMarks : Type 0 where
  pub installed : Bool
  pub anchors : Anchors
  pub entries : List (ℕ × BlameCommit)
  pub bands : List ℕ

unfoldable pub no_marks : BlameMarks
no_marks = record { installed = false; anchors = []; entries = []; bands = [] }

-- `UNCOMMITTED`.
abbrev pub uncommitted_entry : BlameCommit
uncommitted_entry = record {
  sha = [];
  author = [];
  author_time = pos 0;
  summary = [];
  uncommitted = true;
}

unfoldable pub accounted_for : Anchors → Line → Option BlameCommit
accounted_for anchors line =
    maybe (anchor_at line.from anchors) none
      λ anchor. if text_eq anchor.text line.text then some anchor.marker else none

-- `last` is `doc.lines`.
unfoldable pub is_terminator : Line → ℕ → Bool
is_terminator line last = (length line.text == 0) && (line.number == last)

-- The walk of `drawn`: what it has added to the two sets.
unfoldable pub draw : Anchors → ℕ → List Line → List (ℕ × BlameCommit) × List ℕ
draw anchors last [] = ([], [])
draw anchors last (line ∷ more) =
    let rest = draw anchors last more in
    let named = accounted_for anchors line in
    if is_terminator line last then rest else (
      (line.from, or_else named uncommitted_entry) ∷ rest.0,
      maybe named (line.from ∷ rest.1) (λ _. rest.1),
    )

unfoldable pub drawn : Bool → Anchors → Doc → BlameMarks
drawn installed anchors doc =
    let sets = if installed then draw anchors (length doc.lines) doc.lines else ([], []) in
    record { installed = installed; anchors = anchors; entries = sets.0; bands = sets.1 }

-- One round of the loop of `marksFor`.
unfoldable pub anchor_line : Blame → ℕ → Line → Anchors → Anchors
anchor_line blame number line anchors = maybe (commit_at blame number) anchors λ commit.
    if commit.uncommitted
    then anchors
    else set_anchor line.from (record { text = line.text; marker = commit }) anchors

unfoldable pub anchored : Blame → ℕ → List Line → Anchors → Anchors
anchored blame number [] anchors = anchors
anchored blame number (line ∷ more) anchors =
    anchored blame (suc number) more (anchor_line blame number line anchors)

unfoldable pub marks_for : Option Blame → Doc → BlameMarks
marks_for none doc = no_marks
marks_for (some blame) doc =
    let last = min (length blame.lines) (length doc.lines) in
    drawn true (anchored blame 1 (take last doc.lines) []) doc

unfoldable pub keep_best : Anchors → ℕ → BlameAnchor → Text → Anchors
keep_best anchors at anchor text =
    maybe (anchor_at at anchors) (set_anchor at anchor anchors) λ held.
      if not (text_eq held.text text) && text_eq anchor.text text
      then set_anchor at anchor anchors
      else anchors

pub data Effect : Type 0 where
  set_blame_marks : Option Blame → Effect
  another : Effect

-- `map_pos` is `changes.mapPos(at, 1, MapMode.TrackDel)`, and `doc` the document that results.
pub record Transaction : Type 0 where
  pub effects : List Effect
  pub doc_changed : Bool
  pub map_pos : ℕ → Option ℕ
  pub doc : Doc

-- One round of the loop of `movedAnchors`.
abbrev pub move_anchor : Transaction → Anchors → ℕ → BlameAnchor → Anchors
move_anchor transaction moved at anchor =
    maybe (transaction.map_pos at) moved
      λ to. let line = transaction.doc.line_at to in keep_best moved line.from anchor line.text

-- That loop, from the anchors that it has moved.
unfoldable pub move_anchors : Transaction → Anchors → Anchors → Anchors
move_anchors transaction moved [] = moved
move_anchors transaction moved ((at, anchor) ∷ more) =
    move_anchors transaction (move_anchor transaction moved at anchor) more

unfoldable pub moved_anchors : Anchors → Transaction → Anchors
moved_anchors anchors transaction = move_anchors transaction [] anchors

-- The value of the first effect that sets the marks.
unfoldable pub set_value : List Effect → Option (Option Blame)
set_value [] = none
set_value (set_blame_marks value ∷ more) = some value
set_value (another ∷ more) = set_value more

-- The field's `update`, where the effects set the marks or not.
abbrev pub update_in : Option (Option Blame) → BlameMarks → Transaction → BlameMarks
update_in (some value) marks transaction = marks_for value transaction.doc
update_in none marks transaction =
    if transaction.doc_changed
    then drawn marks.installed (moved_anchors marks.anchors transaction) transaction.doc
    else marks

unfoldable pub update : BlameMarks → Transaction → BlameMarks
update marks transaction = update_in (set_value transaction.effects) marks transaction
