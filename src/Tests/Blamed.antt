-- ===== src/Tests/Blamed.antt =====
-- frontend/src/lib/blame.ts, blameMarks.ts and useBlame.ts at concrete inputs.
use m6t.Common.{
  ℕ, ◌+◌, ◌≡◌, refl, ◌≢◌, true, false, not, none, some, [], ◌∷◌, Memᴰ, arith, ltb, map, filter,
  length, if◌then◌else◌, Text, text, text_eq,
}
use m6t.Common.Int.{ℤ, pos}
use m6t.Icons.{is_space}
use m6t.Tabs.{digits, decimal, trim_start}
use m6t.EditorTabs
use m6t.EditorTabs.{EditorTab, yaml_file}
use m6t.Blame.{
  BlameCommit, Blame, commit_at, LocalDate, pad_start, pad, format_day, split_words, words,
  first_points, first_letters, initials, blame_day, blame_label, trim_end,
}
use m6t.Blame.Marks.{
  Line, Doc, BlameAnchor, anchor_at, set_anchor, BlameMarks, no_marks, accounted_for, is_terminator,
  draw, drawn, anchor_line, anchored, marks_for, keep_best, set_blame_marks, Transaction,
  move_anchors, moved_anchors, set_value, update,
}
use m6t.Blame.Reached.{Measured, measured_after, Reachable, begin, turn, IsMeasured}
use m6t.Blame.Honest.{Reachable-IsMeasured, Reachable-bands}
use m6t.Blame.Moved.{accounted_for-moved_anchors}
use m6t.Blame.Hook
use m6t.Blame.Hook.{Hook, Answer, blamed, no_blame, render, answered, Follows, Reachable-Follows}

abbrev ada : BlameCommit
ada = record {
  sha = text "0123456789";
  author = text "Ada Byron King";
  author_time = pos 5;
  summary = [];
  uncommitted = false;
}

abbrev reading : Blame
reading = record { commits = ada ∷ []; lines = pos 0 ∷ pos 0 ∷ [] }

abbrev some_day : ℤ → LocalDate
some_day t = record { year = pos 2024; month = 2; date = 7; hours = 1; minutes = 2 }

ada-label : blame_label (λ s. s) some_day ada ≡ text "AK 2024-03-07"
unfolding blame_label trim_end trim_start initials words split_words first_letters first_points
    blame_day format_day pad pad_start digits decimal is_space text_eq
ada-label = refl

abbrev line_at : ℕ → ℕ → Text → Line
line_at number from line = record { number = number; from = from; text = line }

-- Two lines and the empty one after the final newline; then the second line is typed into.
abbrev before : Doc
before = record {
  lines = line_at 1 0 (text "a") ∷ line_at 2 2 (text "b") ∷ line_at 3 4 [] ∷ [];
  line_at = λ p. if ltb p 2 then line_at 1 0 (text "a") else line_at 2 2 (text "b");
}

abbrev after : Doc
after = record {
  lines = line_at 1 0 (text "a") ∷ line_at 2 2 (text "bc") ∷ line_at 3 5 [] ∷ [];
  line_at = λ p. if ltb p 2 then line_at 1 0 (text "a") else line_at 2 2 (text "bc");
}

abbrev installs : Transaction
installs = record {
  effects = set_blame_marks (some reading) ∷ [];
  doc_changed = false;
  map_pos = λ p. some p;
  doc = before;
}

abbrev types : Transaction
types = record { effects = []; doc_changed = true; map_pos = λ p. some p; doc = after }

abbrev marked : BlameMarks
marked = update (update no_marks installs) types

abbrev measured : Measured
measured = measured_after (measured_after none installs) types

marked-reachable : Reachable measured after marked
marked-reachable = turn types (turn installs (begin before) (λ _. refl)) (λ e. cc)

marked-first : Memᴰ (0, ada) marked.entries
unfolding update set_value marks_for anchored anchor_line commit_at set_anchor drawn draw
    moved_anchors move_anchors keep_best anchor_at accounted_for is_terminator no_marks text_eq
marked-first = Memᴰ.head refl

Reachable-IsMeasured_example :
    (line : Line) × Memᴰ line after.lines × (line.from ≡ 0) × IsMeasured measured ada line.text
Reachable-IsMeasured_example =
    Reachable-IsMeasured measured after marked 0 ada marked-reachable marked-first refl

marked-installed : marked.installed ≡ true
unfolding update set_value marks_for drawn
marked-installed = refl

Reachable-bands_example :
    (map (λ (e : ℕ × BlameCommit). e.0) marked.entries
      ≡ map
          (λ (line : Line). line.from)
          (filter (λ line. not (is_terminator line (length after.lines))) after.lines))
    × (marked.bands
        ≡ map
            (λ (e : ℕ × BlameCommit). e.0)
            (filter (λ (e : ℕ × BlameCommit). e.1.uncommitted) marked.entries))
Reachable-bands_example = Reachable-bands measured after marked marked-reachable marked-installed

marked_bands : marked.bands ≡ 2 ∷ []
unfolding update set_value marks_for anchored anchor_line commit_at set_anchor drawn draw
    moved_anchors move_anchors keep_best anchor_at accounted_for is_terminator no_marks text_eq
marked_bands = refl

-- A document of one line, whose start an edit moved.
abbrev shifts : Transaction
shifts = record {
  effects = [];
  doc_changed = true;
  map_pos = λ p. some (p + 3);
  doc = record { lines = line_at 1 0 (text "a") ∷ []; line_at = λ p. line_at 1 0 (text "a") };
}

abbrev first_anchor : BlameAnchor
first_anchor = record { text = text "a"; marker = ada }

accounted_for-moved_anchors_example :
    accounted_for (moved_anchors ((0, first_anchor) ∷ []) shifts) (line_at 1 0 (text "a")) ≢ none
accounted_for-moved_anchors_example =
    accounted_for-moved_anchors ((0, first_anchor) ∷ []) shifts 0 3 first_anchor (λ p q e. refl)
      (Memᴰ.head refl) refl refl

abbrev tab_of : Text → EditorTab
tab_of path = record (EditorTabs.new_tab path (text "m6t") (text "/src/m6t") path yaml_file) {
  status = EditorTabs.ready;
}

-- The first tab's blame is there, and the second one comes on screen.
abbrev read_one : Hook
read_one = answered 1 (blamed reading) (render (some (tab_of (text "a.yaml"))) Hook.new_hook)

abbrev moved_on : Hook
moved_on = render (some (tab_of (text "b.yaml"))) read_one

read_one-reachable : Hook.Reachable read_one ((1, blamed reading) ∷ [])
unfolding render Hook.new_hook Hook.effect Hook.wanted_of
read_one-reachable =
    Hook.answers_read 1 (blamed reading) (Hook.renders (some (tab_of (text "a.yaml"))) Hook.begin)
      (omega arith)

Reachable-Follows_example :
    Follows read_one.key read_one.live read_one.asked read_one.state ((1, blamed reading) ∷ [])
Reachable-Follows_example = Reachable-Follows read_one ((1, blamed reading) ∷ []) read_one-reachable

-- The second tab is handed the first one's blame until its own is read.
moved_on-blame : moved_on.state.blame ≡ some reading
unfolding render answered Hook.new_hook Hook.effect Hook.wanted_of Hook.read_blame Hook.same_wanted
    text_eq EditorTabs.new_tab
moved_on-blame = refl
