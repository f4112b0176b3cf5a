-- ===== src/Projects.antt =====
-- frontend/src/lib/projects.ts: the registry's projects as the strip uses them, and projectTrees.ts:
-- one tree per project. Identifiers of a drag are texts.
pub mod Selection
pub mod Order
pub mod Trees
use m6t.Common.{
  ℕ, Bool, true, false, not, ◌&&◌, ◌||◌, Option, none, some, List, [], ◌∷◌, ◌++◌, map,
  if◌then◌else◌, or_else, maybe, last_of, filter, find, find_index, any, ◌==◌, Text, text, text_eq,
  lookup, insert,
}
use m6t.Paths.{slash, split_next}
use m6t.Strip.{neighbour}
use m6t.Tabs.{trim}
use m6t.Tree.{TreeState, initial_tree}

pub record Scope : Type 0 where
  pub path : Text
  pub context : Text
  pub namespace : Text
  pub protected : Bool

pub record Kube : Type 0 where
  pub context : Text
  pub namespace : Text
  pub protected : Bool
  pub scopes : Option (List Scope)

pub record Helm : Type 0 where
  pub default_values : List Text

-- `object` is the identity that `===` compares.
pub record Project : Type 0 where
  pub object : ℕ
  pub name : Text
  pub path : Text
  pub short_path : Text
  pub display_name : Option Text
  pub color : Text
  pub kube : Kube
  pub helm : Helm

pub record Settings : Type 0 where
  pub display_name : Option Text
  pub color : Text
  pub kube : Kube
  pub helm : Helm

abbrev pub project_colors : List Text
project_colors =
    text "blue" ∷ text "green" ∷ text "amber" ∷ text "red" ∷ text "purple" ∷ text "cyan" ∷ []

-- The palette entry a stored colour names.
unfoldable pub project_color : Option Text → Option Text
project_color none = none
project_color (some stored) = find (λ color. text_eq color stored) project_colors

-- What a project's tab says.
unfoldable pub project_label : Project → Text
project_label project =
    let label = trim (or_else project.display_name []) in
    if text_eq label [] then project.name else label

-- The settings to send when changing a project's label or colour.
unfoldable pub settings_for : Project → Option Text → Option Text → Settings
settings_for project display_name color = record {
  display_name = maybe display_name project.display_name λ s. some s;
  color = or_else color project.color;
  kube = project.kube;
  helm = project.helm;
}

abbrev pub is_separator : ℕ → Bool
is_separator c = c == slash || c == b'\\'

-- `split` at each separator; a run of them, which the source splits at as one, gives empty segments
-- here, which are dropped next.
unfoldable pub split_separators : Text → List Text
split_separators [] = [] ∷ []
split_separators (c ∷ s) = split_next (is_separator c) c (split_separators s)

-- The name to prefill the add-project field with.
unfoldable pub directory_name : Text → Text
directory_name path =
    or_else (last_of (filter (λ segment. not (text_eq segment [])) (split_separators path))) path

-- `arrayMove` of the drag library is a parameter.
module _ (array_move : List Text → ℕ → ℕ → List Text) where
  -- The order a finished tab drag settled on.
  unfoldable pub order_after_drag : List Text → Text → Option Text → Option (List Text)
  order_after_drag names active none = none
  order_after_drag names active (some over) =
      if text_eq active over
      then none
      else maybe (find_index (λ n. text_eq n active) names) none λ from.
        maybe (find_index (λ n. text_eq n over) names) none λ to. some (array_move names from to)

abbrev pub is_named : Text → Project → Bool
is_named name p = text_eq p.name name

-- `names.map(find).filter(defined)`.
unfoldable pub named_in : List Project → List Text → List Project
named_in projects [] = []
named_in projects (name ∷ names) =
    let rest = named_in projects names in maybe (find (is_named name) projects) rest λ p. p ∷ rest

-- `named.includes(project)`.
abbrev pub includes : List Project → Project → Bool
includes named project = any (λ (p : Project). p.object == project.object) named

-- The projects in the order `names` gives.
unfoldable pub order_projects : List Project → List Text → List Project
order_projects projects names =
    let named = named_in projects names in named ++ filter (λ p. not (includes named p)) projects

-- `active === name`.
abbrev pub is_selected : Option Text → Text → Bool
is_selected none name = false
is_selected (some active) name = text_eq active name

-- The project to select after one is removed.
unfoldable pub selection_after_remove : List Project → Text → Option Text → Option Text
selection_after_remove projects name active =
    if not (is_selected active name)
    then active
    else maybe (find_index (is_named name) projects) active λ index.
      neighbour (λ (p : Project). p.name) index (filter (λ p. not (is_named name p)) projects)

-- The project a name refers to.
unfoldable pub find_project : List Project → Option Text → Option Project
find_project projects none = none
find_project projects (some name) = find (is_named name) projects

abbrev pub first_name : List Project → Option Text
first_name [] = none
first_name (p ∷ projects) = some p.name

-- The selection to hold after the list is reloaded.
unfoldable pub selection_after_reload : List Project → Option Text → Option Text
selection_after_reload projects active =
    if maybe active false (λ name. any (is_named name) projects)
    then active
    else first_name projects

abbrev pub ProjectTrees : Type 0
ProjectTrees = List (Text × TreeState)

-- Whether the changed-files filter is on, read off whichever entry comes first.
unfoldable pub changed_only_of : ProjectTrees → Bool
changed_only_of [] = false
changed_only_of ((root, tree) ∷ trees) = tree.changed_only

-- One project's tree, or a blank one with the filter the rest of the map shows.
unfoldable pub tree_for : ProjectTrees → Option Text → TreeState
tree_for trees root =
    or_else (maybe root none λ r. lookup r trees)
      (record initial_tree { changed_only = changed_only_of trees })

-- An entry with the filter set.
abbrev pub filtered : Bool → Text × TreeState → Text × TreeState
filtered changed_only (root, tree) = (root, record tree { changed_only = changed_only })

abbrev pub same_filter : Bool → Bool → Bool
same_filter true b = b
same_filter false b = not b

-- Records one project's tree; the filter moves for every project at once.
unfoldable pub with_tree : ProjectTrees → Text → TreeState → ProjectTrees
with_tree trees root next =
    let stored = insert root next trees in
    if same_filter next.changed_only (changed_only_of trees)
    then stored
    else map (filtered next.changed_only) stored

-- Drops one project's tree.
unfoldable pub without_tree : ProjectTrees → Text → ProjectTrees
without_tree trees root = filter (λ entry. not (text_eq entry.0 root)) trees
