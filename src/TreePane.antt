-- ===== src/TreePane.antt =====
-- frontend/src/components/FileTree.tsx: which rows the pane draws, and what its keys do.
pub mod Laws
use m6t.Common.{
  ℕ, zero, suc, ◌+◌, ◌-◌, min, Bool, true, false, not, ◌&&◌, ◌||◌, Option, none, some, List, [],
  ◌∷◌, ◌++◌, map, if◌then◌else◌, or_else, maybe, length, take, drop, get_elem?, find_index, Text,
  text, text_eq, contains,
}
use m6t.Paths.{root, parent_path}
use m6t.Tree.{TreeRow, TreeState}
use m6t.Git.Badges.{Badges, badge_at, badge_tone}

pub record Creating : Type 0 where
  pub dir : Text
  pub is_dir : Bool

pub data RenderItem : Type 0 where
  entry : TreeRow → RenderItem
  creating_row : ℕ → Text → Bool → RenderItem

abbrev pub at_path : Text → TreeRow → Bool
at_path path row = text_eq row.entry.path path

-- The row after the directory at an index, one deeper.
abbrev pub spliced : List TreeRow → Creating → ℕ → List RenderItem
spliced rows creating at =
    let depth = maybe (get_elem? rows at) 0 (λ (row : TreeRow). row.depth + 1) in
    map entry (take (at + 1) rows)
    ++ creating_row depth creating.dir creating.is_dir ∷ map entry (drop (at + 1) rows)

unfoldable pub with_creating_row : List TreeRow → Option Creating → List RenderItem
with_creating_row rows none = map entry rows
with_creating_row rows (some creating) =
    if text_eq creating.dir root
    then creating_row 0 creating.dir creating.is_dir ∷ map entry rows
    else maybe (find_index (at_path creating.dir) rows) (map entry rows) (spliced rows creating)

-- The loop of `rowIndexOf`.
unfoldable pub entries_before : List RenderItem → ℕ → ℕ
entries_before [] i = 0
entries_before (item ∷ items) zero = 0
entries_before (entry row ∷ items) (suc i) = suc (entries_before items i)
entries_before (creating_row depth dir is_dir ∷ items) (suc i) = entries_before items i

-- What `rowIndexOf` gives for the item at an index.
abbrev pub index_of_item : List RenderItem → ℕ → Option RenderItem → Option ℕ
index_of_item rendered i (some (entry row)) = some (entries_before rendered i)
index_of_item rendered i _ = none

-- The index is one of the rendered list.
unfoldable pub row_index_of : List RenderItem → ℕ → Option ℕ
row_index_of rendered i = index_of_item rendered i (get_elem? rendered i)

unfoldable pub empty_message : Bool → Option Text → Text
empty_message changed_only root_error =
    if changed_only
    then text "Nothing has changed in this project."
    else or_else root_error (text "No files in this project.")

pub data Key : Type 0 where
  arrow_down arrow_up arrow_right arrow_left enter another : Key

-- What is asked of the tree and of the editor.
pub data Command : Type 0 where
  expands collapses selects opens_file : Text → Command

pub record NavContext : Type 0 where
  pub state : TreeState
  pub badges : Badges
  pub changed_only : Bool
  pub rows : List TreeRow
  pub cursor : ℕ

unfoldable pub is_open : TreeRow → NavContext → Bool
is_open row nav = nav.changed_only || contains row.entry.path nav.state.expanded

unfoldable pub toggle_dir : TreeRow → NavContext → List Command
toggle_dir row nav =
    if contains row.entry.path nav.state.expanded
    then collapses row.entry.path ∷ []
    else expands row.entry.path ∷ []

abbrev pub is_deleted : Option Text → Bool
is_deleted none = false
is_deleted (some tone) = text_eq tone (text "deleted")

unfoldable pub activate : TreeRow → NavContext → List Command
activate row nav =
    if row.entry.is_dir
    then (if nav.changed_only then [] else toggle_dir row nav)
    else if is_deleted (badge_tone (badge_at nav.badges row.entry.path false))
    then []
    else selects row.entry.path ∷ opens_file row.entry.path ∷ []

-- The row below, or the last one.
abbrev pub next_cursor : NavContext → ℕ
next_cursor nav = min (nav.cursor + 1) (length nav.rows - 1)

unfoldable pub move_right : TreeRow → NavContext → ℕ × List Command
move_right row nav =
    if not row.entry.is_dir
    then (nav.cursor, [])
    else if is_open row nav
    then (next_cursor nav, [])
    else (nav.cursor, expands row.entry.path ∷ [])

unfoldable pub move_left : TreeRow → NavContext → ℕ × List Command
move_left row nav =
    if row.entry.is_dir && is_open row nav && not nav.changed_only
    then (nav.cursor, collapses row.entry.path ∷ [])
    else (or_else (find_index (at_path (parent_path row.entry.path)) nav.rows) nav.cursor, [])

-- A key on a row: where the cursor goes, and what is asked.
abbrev pub key_on : Key → TreeRow → NavContext → ℕ × List Command
key_on arrow_down row nav = (next_cursor nav, [])
key_on arrow_up row nav = (nav.cursor - 1, [])
key_on arrow_right row nav = move_right row nav
key_on arrow_left row nav = move_left row nav
key_on enter row nav = (nav.cursor, activate row nav)
key_on another row nav = (nav.cursor, [])

unfoldable pub handle_key_down : Key → NavContext → ℕ × List Command
handle_key_down key nav =
    maybe (get_elem? nav.rows nav.cursor) (nav.cursor, []) λ row. key_on key row nav

-- The effect that follows a render with other rows.
unfoldable pub clamp_cursor : ℕ → ℕ → ℕ
clamp_cursor cursor rows = min cursor (rows - 1)
