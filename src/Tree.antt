-- ===== src/Tree.antt =====
-- frontend/src/lib/tree.ts: the file tree's state and the transitions on it.
pub mod Rows
pub mod Drawn
pub mod Locate
pub mod State
use m6t.Common.{
  ℕ, zero, suc, ◌+◌, max, Bool, true, false, not, ◌&&◌, ◌||◌, Option, none, some, List, [], ◌∷◌,
  ◌++◌, map, if◌then◌else◌, or_else, ◌>>=◌, maybe, length, filter, any, Text, text, text_eq, lookup,
  insert, contains, add, remove,
}
use m6t.Paths.{root, join_path, parent_path, base_name, ancestry, is_hidden}
use m6t.Icons.{icon_kind, looks_like_manifest, is_yaml}

-- An entry as the backend lists it.
pub record Entry : Type 0 where
  pub name : Text
  pub is_dir : Bool

-- One row the tree can render: a listed entry plus its full path.
pub record TreeEntry : Type 0 where
  pub name : Text
  pub is_dir : Bool
  pub path : Text

pub data DirStatus : Type 0 where
  loading loaded error : DirStatus

pub record DirState : Type 0 where
  pub status : DirStatus
  pub children : List TreeEntry
  pub message : Option Text

pub record TreeState : Type 0 where
  pub dirs : List (Text × DirState)
  pub expanded : List Text
  pub selected : Option Text
  pub show_hidden : Bool
  pub changed_only : Bool
  pub manifests : List (Text × Bool)
  pub locate_request : ℕ

-- A tree with nothing loaded yet, root pre-expanded.
unfoldable pub initial_tree : TreeState
initial_tree = record {
  dirs = [];
  expanded = root ∷ [];
  selected = none;
  show_hidden = false;
  changed_only = false;
  manifests = [];
  locate_request = 0;
}

-- `state.dirs[dir]?.children ?? []`. What an object inherits has no `children`.
unfoldable pub children_of : TreeState → Text → List TreeEntry
children_of state dir = maybe (lookup dir state.dirs) [] λ d. d.children

-- The children of a loaded directory the tree should actually render.
unfoldable pub visible_children : TreeState → Text → List TreeEntry
visible_children state dir =
    let listed = children_of state dir in
    if state.show_hidden then listed else filter (λ e. not (is_hidden e.name)) listed

unfoldable pub with_dir : TreeState → Text → DirState → TreeState
with_dir state dir next = record state { dirs = insert dir next state.dirs }

-- Marks a directory as being fetched, keeping its last-known children.
unfoldable pub with_loading : TreeState → Text → TreeState
with_loading state dir =
    with_dir state dir
      (record { status = loading; children = children_of state dir; message = none })

abbrev pub tree_entry : Text → Entry → TreeEntry
tree_entry dir e = record { name = e.name; is_dir = e.is_dir; path = join_path dir e.name }

-- Records a directory's freshly fetched listing.
unfoldable pub with_listing : TreeState → Text → List Entry → TreeState
with_listing state dir entries =
    with_dir state dir
      (record { status = loaded; children = map (tree_entry dir) entries; message = none })

-- Records that a directory's listing failed, keeping its last-known children.
unfoldable pub with_error : TreeState → Text → Text → TreeState
with_error state dir message =
    with_dir state dir
      (record { status = error; children = children_of state dir; message = some message })

-- The loop of `withManifests` over the paths that were asked about.
unfoldable pub record_heads :
    List (Text × Text) → List Text → List (Text × Bool) → List (Text × Bool)
record_heads heads [] manifests = manifests
record_heads heads (path ∷ asked) manifests =
    record_heads heads asked
      (insert path (looks_like_manifest (or_else (lookup path heads) [])) manifests)

unfoldable pub with_manifests : TreeState → List (Text × Text) → List Text → TreeState
with_manifests state heads asked = record state {
  manifests = record_heads heads asked state.manifests;
}

-- The plain-YAML paths in one directory listing.
unfoldable pub yaml_paths : (Text → Text) → Text → List Entry → List Text
yaml_paths lower dir entries =
    filter (λ path. is_yaml (icon_kind lower path false))
      (map (λ e. join_path dir e.name) (filter (λ e. not e.is_dir) entries))

-- The saved shape of a tree.
pub record RestoredTree : Type 0 where
  pub expanded : List Text
  pub selected : Option Text
  pub show_hidden : Bool
  pub changed_only : Bool

-- `set.add` for each of a list, in order.
unfoldable pub add_all : List Text → List Text → List Text
add_all [] set = set
add_all (x ∷ xs) set = add_all xs (add x set)

unfoldable pub restore_tree : TreeState → RestoredTree → TreeState
restore_tree state saved = record state {
  expanded = add_all (root ∷ saved.expanded) [];
  selected = saved.selected;
  show_hidden = saved.show_hidden;
  changed_only = saved.changed_only;
}

unfoldable pub expand : TreeState → Text → TreeState
expand state dir =
    if contains dir state.expanded
    then state
    else record state { expanded = add dir state.expanded }

unfoldable pub collapse : TreeState → Text → TreeState
collapse state dir =
    if contains dir state.expanded
    then record state { expanded = remove dir state.expanded }
    else state

-- Brings a directory on screen.
unfoldable pub reveal : TreeState → Text → TreeState
reveal state dir =
    let chain = ancestry dir in
    record state {
      expanded = add_all chain state.expanded;
      selected = some dir;
      show_hidden = state.show_hidden || any (λ path. is_hidden (base_name path)) chain;
      changed_only = false;
    }

-- Brings a file on screen.
unfoldable pub locate : TreeState → Text → TreeState
locate state path =
    let revealed = reveal state (parent_path path) in
    record revealed {
      selected = some path;
      locate_request = state.locate_request + 1;
      show_hidden =
          revealed.show_hidden || any (λ step. is_hidden (base_name step)) (ancestry path);
    }

unfoldable pub select : TreeState → Option Text → TreeState
select state path = record state { selected = path }

unfoldable pub toggle_hidden : TreeState → TreeState
toggle_hidden state = record state { show_hidden = not state.show_hidden }

unfoldable pub toggle_changed_only : TreeState → TreeState
toggle_changed_only state = record state { changed_only = not state.changed_only }

-- One row in the flattened, rendered tree.
pub record TreeRow : Type 0 where
  pub entry : TreeEntry
  pub depth : ℕ

-- One directory's rows, given the walk of the directories below it.
unfoldable pub rows_of :
    (Text → Option (List TreeRow)) → TreeState → ℕ → List TreeEntry → Option (List TreeRow)
rows_of walk_below state depth [] = some []
rows_of walk_below state depth (e ∷ entries) =
    let below = if e.is_dir && contains e.path state.expanded then walk_below e.path else some [] in
    below >>= λ inner. rows_of walk_below state depth entries >>= λ rest.
    some (record { entry = e; depth = depth } ∷ inner ++ rest)

-- The recursion of `visibleRows`, on fuel: `none` means that it ran out.
unfoldable pub walk : ℕ → TreeState → Text → ℕ → Option (List TreeRow)
walk zero state dir depth = none
walk (suc fuel) state dir depth =
    rows_of (λ path. walk fuel state path (depth + 1)) state depth (visible_children state dir)

-- The longest path that has a listing.
unfoldable pub longest_listed : List (Text × DirState) → ℕ
longest_listed [] = 0
longest_listed ((dir, d) ∷ dirs) = max (length dir) (longest_listed dirs)

-- The tree flattened into the rows it renders, in display order.
unfoldable pub visible_rows : TreeState → Option (List TreeRow)
visible_rows state = walk (longest_listed state.dirs + 2) state root 0

-- The directories whose listings are on screen.
unfoldable pub open_dirs : TreeState → Option (List Text)
open_dirs state = visible_rows state >>= λ rows. some (
    root
    ∷ map (λ row. row.entry.path)
        (filter (λ row. row.entry.is_dir && contains row.entry.path state.expanded) rows))

-- The names that every object inherits, to which the operator `in` answers yes.
abbrev pub inherited : List Text
inherited =
    text "constructor"
    ∷ text "toString"
    ∷ text "toLocaleString"
    ∷ text "valueOf"
    ∷ text "hasOwnProperty"
    ∷ text "isPrototypeOf"
    ∷ text "propertyIsEnumerable"
    ∷ text "__proto__"
    ∷ text "__defineGetter__"
    ∷ text "__defineSetter__"
    ∷ text "__lookupGetter__"
    ∷ text "__lookupSetter__"
    ∷ []

abbrev pub is_some {ℓ} : {A : Type ℓ} → Option A → Bool
is_some none = false
is_some (some _) = true

-- `dir in state.dirs`.
unfoldable pub in_dirs : Text → TreeState → Bool
in_dirs dir state = is_some (lookup dir state.dirs) || contains dir inherited

abbrev pub dir_of_wire : Text → Text
dir_of_wire wire = if text_eq wire (text ".") then root else wire

-- The subset of a "tree changed" event's directories that this tree has loaded.
unfoldable pub affected_tracked_dirs : TreeState → List Text → List Text
affected_tracked_dirs state wire_dirs =
    filter (λ dir. in_dirs dir state) (map dir_of_wire wire_dirs)
