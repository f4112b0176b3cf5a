-- ===== src/Tests/Panes.antt =====
-- frontend/src/components/FileTree.tsx at concrete inputs.
use m6t.Common.{
  ℕ, ◌≡◌, ◌<◌, refl, false, some, List, [], ◌∷◌, arith, length, get_elem?, Text, text, text_eq,
}
use m6t.Tree.{TreeRow, initial_tree}
use m6t.TreePane.{
  Creating, entry, with_creating_row, row_index_of, arrow_down, NavContext, handle_key_down,
}
use m6t.TreePane.Laws.{row_index_of-with_creating_row, handle_key_down-lt}

abbrev row : Text → ℕ → TreeRow
row path depth = record {
  entry = record { name = path; is_dir = false; path = path };
  depth = depth;
}

abbrev rows : List TreeRow
rows = row (text "src") 0 ∷ row (text "src/a.go") 1 ∷ row (text "go.mod") 0 ∷ []

-- A file is being created in the directory: its row is the second of those that are drawn.
abbrev in_src : Creating
in_src = record { dir = text "src"; is_dir = false }

third : get_elem? (with_creating_row rows (some in_src)) 2 ≡ some (entry (row (text "src/a.go") 1))
unfolding with_creating_row text_eq
third = refl

row_index_of-with_creating_row_example :
    (j : ℕ) × (row_index_of (with_creating_row rows (some in_src)) 2 ≡ some j)
    × (get_elem? rows j ≡ some (row (text "src/a.go") 1))
row_index_of-with_creating_row_example =
    row_index_of-with_creating_row rows (some in_src) 2 (row (text "src/a.go") 1) third

abbrev pane : NavContext
pane = record {
  state = initial_tree;
  badges = record { files = []; dirs = [] };
  changed_only = false;
  rows = rows;
  cursor = 2;
}

handle_key_down-lt_example : (handle_key_down arrow_down pane).0 < length rows
handle_key_down-lt_example = handle_key_down-lt arrow_down pane (omega arith)
