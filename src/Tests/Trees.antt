-- ===== src/Tests/Trees.antt =====
-- frontend/src/lib/tree.ts at concrete inputs.
use m6t.Common.{
  ℕ, ◌≡◌, refl, Bool, true, false, ◌&&◌, some, List, [], ◌∷◌, Memᴰ, any, Text, text, text_eq,
  starts_with, lookup, insert, contains,
}
use m6t.Paths.{root, split, last_index_of, join_path, is_hidden}
use m6t.Paths.Laws.{IsName, IsPath, at_root, child}
use m6t.Icons.{is_space, has_key, without_bom, scan_lines, looks_like_manifest}
use m6t.Icons.Laws.{looks_like_manifest-any}
use m6t.Tree.{
  Entry, TreeEntry, TreeState, initial_tree, children_of, visible_children, with_dir, tree_entry,
  with_listing, locate, TreeRow, rows_of, walk, longest_listed, visible_rows, affected_tracked_dirs,
  in_dirs,
}
use m6t.Tree.Rows.{IsWellListed, Ends, visible_rows-Ends}
use m6t.Tree.Drawn.{row, Drawn, visible_rows_iff}
use m6t.Tree.Locate.{ListedTo, from_root, through, locate_draws}

abbrev entry : Text → Bool → Entry
entry name is_dir = record { name = name; is_dir = is_dir }

abbrev in_root : List Entry
in_root = entry (text "src") true ∷ entry (text "README.md") false ∷ []

abbrev in_src : List Entry
in_src = entry (text ".env") false ∷ entry (text "main.go") false ∷ []

-- The root and one directory, listed; only the root is expanded.
abbrev project : TreeState
project = with_listing (with_listing initial_tree root in_root) (text "src") in_src

abbrev src : TreeEntry
src = tree_entry root (entry (text "src") true)

abbrev env : TreeEntry
env = tree_entry (text "src") (entry (text ".env") false)

src-IsName : IsName src.name
unfolding last_index_of
src-IsName = (λ e. cc, refl)

env-IsName : IsName env.name
unfolding last_index_of
env-IsName = (λ e. cc, refl)

project-IsWellListed : IsWellListed project
unfolding with_listing with_dir insert initial_tree join_path text_eq
project-IsWellListed =
    (((λ e. cc, refl), ((λ e. cc, refl), tt)), (((λ e. cc, refl), ((λ e. cc, refl), tt)), tt))

in_root-src : Memᴰ src (children_of project root)
unfolding children_of with_listing with_dir insert initial_tree join_path text_eq lookup
in_root-src = Memᴰ.head refl

in_src-env : Memᴰ env (children_of project (text "src"))
unfolding children_of with_listing with_dir insert initial_tree join_path text_eq lookup
in_src-env = Memᴰ.head refl

src-ListedTo : ListedTo project (text "src")
unfolding join_path text_eq
src-ListedTo = through src (from_root refl) at_root src-IsName in_root-src refl refl refl

project_rows :
    visible_rows project
    ≡ some (row src 0 ∷ row (tree_entry root (entry (text "README.md") false)) 0 ∷ [])
unfolding visible_rows walk rows_of visible_children children_of with_listing with_dir insert
    initial_tree join_path text_eq lookup contains is_hidden longest_listed
project_rows = refl

locate_draws_example :
    (rows : List TreeRow) × (depth : ℕ) × (visible_rows (locate project env.path) ≡ some rows)
    × Memᴰ (row env depth) rows
    × ((locate project env.path).selected ≡ some env.path)
    × ((locate project env.path).changed_only ≡ false)
locate_draws_example =
    locate_draws project (text "src") env project-IsWellListed src-ListedTo env-IsName refl
      in_src-env

visible_rows_iff_example :
    (Memᴰ (row src 0) (row src 0 ∷ row (tree_entry root (entry (text "README.md") false)) 0 ∷ [])
      → Drawn project (row src 0))
    × (Drawn project (row src 0)
        → Memᴰ
            (row src 0)
            (row src 0 ∷ row (tree_entry root (entry (text "README.md") false)) 0 ∷ []))
visible_rows_iff_example = visible_rows_iff project _ (row src 0) project_rows

visible_rows-Ends_example : Ends (visible_rows project)
visible_rows-Ends_example = visible_rows-Ends project project-IsWellListed

src-IsPath : IsPath (text "src")
unfolding join_path text_eq
src-IsPath = child root (text "src") at_root src-IsName refl

-- A directory of this name is fetched though it was never listed.
constructor-affected :
    contains (text "constructor") (affected_tracked_dirs project (text "constructor" ∷ [])) ≡ true
unfolding affected_tracked_dirs in_dirs contains lookup text_eq with_listing with_dir insert
    initial_tree
constructor-affected = refl

abbrev manifest_head : Text
manifest_head = 65279 ∷ text "kind: Pod\napiVersion: v1\n"

looks_like_manifest-any_example : looks_like_manifest manifest_head ≡ (
    any (has_key (text "apiVersion:")) (split b'\n' (without_bom manifest_head))
    && any (has_key (text "kind:")) (split b'\n' (without_bom manifest_head)))
looks_like_manifest-any_example = looks_like_manifest-any manifest_head

looks_like_manifest-true : looks_like_manifest manifest_head ≡ true
unfolding looks_like_manifest scan_lines has_key split starts_with is_space
looks_like_manifest-true = refl
