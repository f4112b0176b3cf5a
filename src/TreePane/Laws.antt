-- ===== src/TreePane/Laws.antt =====
-- frontend/src/components/FileTree.tsx: the cursor, and the rows that it counts.
use m6t.Common.{
  take-drop, ℕ, zero, suc, ◌+◌, ◌<◌, ◌≡◌, refl, ap, ◌∙◌, subst, Bool, not, ◌&&◌, Option, none, some,
  some_inj, List, [], ◌∷◌, ◌++◌, map, arith, if_cases, or_else, maybe_cases, length, take, drop,
  get_elem?, find_index, next_index, text_eq,
}
use m6t.Paths.{root, parent_path}
use m6t.Tree.{TreeRow}
use m6t.TreePane.{
  Creating, RenderItem, entry, creating_row, at_path, with_creating_row, entries_before,
  index_of_item, row_index_of, Key, arrow_down, arrow_up, arrow_right, arrow_left, enter, another,
  NavContext, Command, is_open, move_right, move_left, key_on, handle_key_down,
}

-- The rows among the rendered items.

unfoldable pub rows_among : List RenderItem → List TreeRow
rows_among [] = []
rows_among (entry row ∷ items) = row ∷ rows_among items
rows_among (creating_row depth dir is_dir ∷ items) = rows_among items

rows_among-map : (rows : List TreeRow) → rows_among (map entry rows) ≡ rows
unfolding rows_among
rows_among-map [] = refl
rows_among-map (row ∷ rows) = ap (λ l. row ∷ l) (rows_among-map rows)

rows_among-append :
    (rows : List TreeRow) (items : List RenderItem)
    → rows_among (map entry rows ++ items) ≡ rows ++ rows_among items
unfolding rows_among
rows_among-append [] items = refl
rows_among-append (row ∷ rows) items = ap (λ l. row ∷ l) (rows_among-append rows items)

-- The row that is being created is the only one that is added.
rows_among-with_creating_row :
    (rows : List TreeRow) (creating : Option Creating)
    → rows_among (with_creating_row rows creating) ≡ rows
unfolding with_creating_row rows_among
rows_among-with_creating_row rows none = rows_among-map rows
rows_among-with_creating_row rows (some creating) =
    if_cases (λ items. rows_among items ≡ rows) (text_eq creating.dir root)
      (λ _. rows_among-map rows)
      (λ _.
        maybe_cases (λ items. rows_among items ≡ rows) (find_index (at_path creating.dir) rows)
          (λ _. rows_among-map rows)
          (λ at _.
            rows_among-append (take (at + 1) rows) _
            ∙ ap (λ l. take (at + 1) rows ++ l) (rows_among-map (drop (at + 1) rows))
            ∙ take-drop (at + 1) rows))

get_elem?-entries_before :
    (items : List RenderItem) (i : ℕ) (row : TreeRow)
    → get_elem? items i ≡ some (entry row)
    → get_elem? (rows_among items) (entries_before items i) ≡ some row
unfolding rows_among entries_before
get_elem?-entries_before [] i row e = cc
get_elem?-entries_before (entry first ∷ items) zero row e =
    let same : entry first ≡ entry row = some_inj e in
    let one : first ≡ row = cc same in ap some one
get_elem?-entries_before (creating_row depth dir is_dir ∷ items) zero row e = cc (some_inj e)
get_elem?-entries_before (entry first ∷ items) (suc i) row e =
    get_elem?-entries_before items i row e
get_elem?-entries_before (creating_row depth dir is_dir ∷ items) (suc i) row e =
    get_elem?-entries_before items i row e

-- A row that is drawn, whatever is being created and wherever, has the index of that very row in the
-- list that the keys move over.
pub row_index_of-with_creating_row :
    (rows : List TreeRow) (creating : Option Creating) (i : ℕ) (row : TreeRow)
    → get_elem? (with_creating_row rows creating) i ≡ some (entry row)
    → (j : ℕ) × (row_index_of (with_creating_row rows creating) i ≡ some j)
      × (get_elem? rows j ≡ some row)
unfolding row_index_of
row_index_of-with_creating_row rows creating i row e =
    let items = with_creating_row rows creating in
    (
      entries_before items i,
      ap (index_of_item items i) e,
      subst (λ l. get_elem? l (entries_before items i) ≡ some row)
          (rows_among-with_creating_row rows creating) (get_elem?-entries_before items i row e),
    )

find_index-lt :
    (p : TreeRow → Bool) (rows : List TreeRow) (i : ℕ)
    → find_index p rows ≡ some i
    → i < length rows
find_index-lt p [] i e = cc
find_index-lt p (row ∷ rows) i e =
    if_cases (λ o. o ≡ some i → i < suc (length rows)) (p row)
      (λ _ found. omega (arith, some_inj found))
      (λ _ found. further (λ n at. find_index-lt p rows n at) (find_index p rows) refl found) e
  where
    further :
        ((n : ℕ) → find_index p rows ≡ some n → n < length rows)
        → (o : Option ℕ) → find_index p rows ≡ o
        → next_index o ≡ some i
        → i < suc (length rows)
    further below none at found = cc
    further below (some n) at found = omega (arith, below n at, some_inj found)

move_right-lt :
    (row : TreeRow) (nav : NavContext)
    → nav.cursor < length nav.rows
    → (move_right row nav).0 < length nav.rows
unfolding move_right
move_right-lt row nav low =
    if_cases (λ (r : ℕ × List Command). r.0 < length nav.rows) (not row.entry.is_dir) (λ _. low)
      (λ _.
        if_cases (λ (r : ℕ × List Command). r.0 < length nav.rows) (is_open row nav)
          (λ _. omega (arith, low)) (λ _. low))

move_left-lt :
    (row : TreeRow) (nav : NavContext)
    → nav.cursor < length nav.rows
    → (move_left row nav).0 < length nav.rows
unfolding move_left
move_left-lt row nav low =
    if_cases (λ (r : ℕ × List Command). r.0 < length nav.rows)
      (row.entry.is_dir && is_open row nav && not nav.changed_only) (λ _. low)
      (λ _. above (find_index (at_path (parent_path row.entry.path)) nav.rows) refl)
  where
    above :
        (o : Option ℕ)
        → find_index (at_path (parent_path row.entry.path)) nav.rows ≡ o
        → or_else o nav.cursor < length nav.rows
    above none at = low
    above (some i) at = find_index-lt (at_path (parent_path row.entry.path)) nav.rows i at

-- No key takes the cursor off the rows.
pub handle_key_down-lt :
    (key : Key) (nav : NavContext)
    → nav.cursor < length nav.rows
    → (handle_key_down key nav).0 < length nav.rows
unfolding handle_key_down
handle_key_down-lt key nav low =
    maybe_cases (λ (r : ℕ × List Command). r.0 < length nav.rows) (get_elem? nav.rows nav.cursor)
      (λ _. low) (λ row _. on_row key row)
  where
    on_row : (k : Key) (row : TreeRow) → (key_on k row nav).0 < length nav.rows
    on_row arrow_down row = omega (arith, low)
    on_row arrow_up row = omega (arith, low)
    on_row arrow_right row = move_right-lt row nav low
    on_row arrow_left row = move_left-lt row nav low
    on_row enter row = low
    on_row another row = low
