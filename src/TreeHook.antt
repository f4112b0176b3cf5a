-- ===== src/TreeHook.antt =====
-- frontend/src/lib/useFileTree.ts: the trees of every project, and the calls behind them, which are cut
-- where they wait for the backend.
pub mod Batched
pub mod Touched
pub mod Events
pub mod Moves
pub mod Reached
pub mod Open
pub mod Does
pub mod Refined
use m6t.Common.{
  Bool, true, false, not, Option, none, some, List, [], ◌∷◌, if◌then◌else◌, or_else, maybe, ◌<◌,
  ◌≤◌, ℕ, zero, suc, take, drop, length, filter, Text, text, text_eq, contains, add, remove,
}
use m6t.Paths.{root, join_path, parent_path, ancestry}
use m6t.Tree.{
  Entry, TreeState, initial_tree, with_loading, with_listing, with_error, with_manifests,
  yaml_paths, RestoredTree, restore_tree, expand, collapse, reveal, locate, select, toggle_hidden,
  toggle_changed_only, open_dirs, in_dirs, affected_tracked_dirs,
}
use m6t.Projects.{ProjectTrees, tree_for, with_tree, without_tree}

-- What is asked of the backend.
pub data Request : Type 0 where
  lists : Text → Text → Request
  prefixes : Text → List Text → Request
  creates : Text → Text → Bool → Request
  renames : Text → Text → Text → Request
  removes : Text → Text → Request

-- `state` is what `stateRef.current` holds, and `asked` every call, latest first.
pub record TreeHook : Type 0 where
  pub trees : ProjectTrees
  pub held : List Text
  pub project : Option Text
  pub state : TreeState
  pub asked : List Request

unfoldable pub new_hook : TreeHook
new_hook = record { trees = []; held = []; project = none; state = initial_tree; asked = [] }

-- The effect that follows a render.
unfoldable pub commit : TreeHook → TreeHook
commit h = record h { state = tree_for h.trees h.project }

abbrev pub ask : Request → TreeHook → TreeHook
ask request h = record h { asked = request ∷ h.asked }

unfoldable pub update_tree : Text → (TreeState → TreeState) → TreeHook → TreeHook
update_tree project change h =
    if contains project h.held
    then record h { trees = with_tree h.trees project (change (tree_for h.trees (some project))) }
    else h

unfoldable pub list : Option Text → Text → TreeHook → TreeHook
list none dir h = h
list (some project) dir h =
    ask (lists project dir) (update_tree project (λ current. with_loading current dir) h)

-- The loops over `list`.
unfoldable pub list_all : Option Text → List Text → TreeHook → TreeHook
list_all project [] h = h
list_all project (dir ∷ dirs) h = list_all project dirs (list project dir h)

-- `batches.push(paths.slice(at, at + size))`, on fuel.
unfoldable pub slices : ℕ → ℕ → List Text → List (List Text)
slices zero size paths = []
slices (suc fuel) size [] = []
slices (suc fuel) size (path ∷ paths) =
    take size (path ∷ paths) ∷ slices fuel size (drop size (path ∷ paths))

-- As many rounds as there are paths are enough, since a slice takes one at least.
unfoldable pub batched : List Text → List (List Text)
batched paths = slices (length paths) 256 paths

-- The head of the loop of `classify`, up to its `await`: the first batch is asked about.
unfoldable pub classify : Text → List (List Text) → TreeHook → TreeHook
classify project [] h = h
classify project (paths ∷ batches) h = ask (prefixes project paths) h

-- The answer to a batch, with the batches that are left.
unfoldable pub classified :
    Text → List (Text × Text) → List Text → List (List Text) → TreeHook → TreeHook
classified project heads paths batches h =
    classify project batches (update_tree project (λ current. with_manifests current heads paths) h)

-- A failed batch says nothing.
unfoldable pub classify_failed : Text → List (List Text) → TreeHook → TreeHook
classify_failed project batches h = classify project batches h

-- `lower` is `toLowerCase`, the platform's.
unfoldable pub listed : (Text → Text) → Text → Text → List Entry → TreeHook → TreeHook
listed lower project dir entries h =
    classify project (batched (yaml_paths lower dir entries))
      (update_tree project (λ current. with_listing current dir entries) h)

unfoldable pub list_failed : Text → Text → Text → TreeHook → TreeHook
list_failed project dir message h =
    update_tree project (λ current. with_error current dir message) h

abbrev pub same_project : Option Text → Option Text → Bool
same_project none none = true
same_project (some a) (some b) = text_eq a b
same_project _ _ = false

-- The effect of a project that comes on screen, with the dependencies of its listings.
abbrev pub hold : Option Text → TreeHook → TreeHook
hold none h = h
hold (some project) h =
    list_all (some project) (or_else (open_dirs h.state) [])
      (record h { held = add project h.held })

-- A render with a project, with the effects that follow it.
unfoldable pub show_project : Option Text → TreeHook → TreeHook
show_project project h =
    let rendered = commit (record h { project = project }) in
    if same_project h.project project then rendered else hold project rendered

unfoldable pub update_active : Option Text → (TreeState → TreeState) → TreeHook → TreeHook
update_active none change h = h
update_active (some project) change h = update_tree project change h

unfoldable pub expand_dir : Text → TreeHook → TreeHook
expand_dir dir h = list h.project dir (update_active h.project (λ current. expand current dir) h)

unfoldable pub collapse_dir : Text → TreeHook → TreeHook
collapse_dir dir h = update_active h.project (λ current. collapse current dir) h

-- Those of a path's directories that were never listed.
abbrev pub missing : TreeState → Text → List Text
missing state dir = filter (λ path. not (in_dirs path state)) (ancestry dir)

unfoldable pub reveal_dir : Text → TreeHook → TreeHook
reveal_dir dir h =
    list_all h.project (missing h.state dir)
      (update_active h.project (λ current. reveal current dir) h)

unfoldable pub locate_file : Text → TreeHook → TreeHook
locate_file path h =
    list_all h.project (missing h.state (parent_path path))
      (update_active h.project (λ current. locate current path) h)

unfoldable pub restore_tree_state : RestoredTree → TreeHook → TreeHook
restore_tree_state saved h =
    list_all h.project (filter (λ dir. not (text_eq dir root)) saved.expanded)
      (update_active h.project (λ current. restore_tree current saved) h)

unfoldable pub close_project : Text → TreeHook → TreeHook
close_project closing h = record h {
  held = remove closing h.held;
  trees = without_tree h.trees closing;
}

-- A message of the events socket that is up for the project on screen.
unfoldable pub on_tree : Text → List Text → TreeHook → TreeHook
on_tree changed dirs h =
    if same_project h.project (some changed)
    then list_all h.project (affected_tracked_dirs h.state dirs) h
    else h

unfoldable pub select_path : Option Text → TreeHook → TreeHook
select_path path h = update_active h.project (λ current. select current path) h

unfoldable pub toggle_hidden_files : TreeHook → TreeHook
toggle_hidden_files h = update_active h.project toggle_hidden h

unfoldable pub toggle_changed : TreeHook → TreeHook
toggle_changed h = update_active h.project toggle_changed_only h

-- What is on screen when it is asked for goes into the call; with nothing open it is refused at once.
unfoldable pub create_entry : Text → Text → Bool → TreeHook → TreeHook × Option Text
create_entry dir name is_dir h =
    maybe h.project (h, some (text "no project is open"))
      λ project. (ask (creates project (join_path dir name) is_dir) h, none)

unfoldable pub rename_entry : Text → Text → TreeHook → TreeHook × Option Text
rename_entry path new_name h =
    maybe h.project (h, some (text "no project is open"))
      λ project. (ask (renames project path (join_path (parent_path path) new_name)) h, none)

unfoldable pub delete_entry : Text → TreeHook → TreeHook × Option Text
delete_entry path h =
    maybe h.project (h, some (text "no project is open"))
      λ project. (ask (removes project path) h, none)

-- The answers: the directory is listed again in the project of the call. A failure changes nothing.
unfoldable pub created : Text → Text → TreeHook → TreeHook
created project dir h = list (some project) dir h

unfoldable pub renamed : Text → Text → TreeHook → TreeHook
renamed project path h = list (some project) (parent_path path) h

abbrev pub is_selected : Option Text → Text → Bool
is_selected none path = false
is_selected (some selected) path = text_eq selected path

unfoldable pub deleted : Text → Text → TreeHook → TreeHook
deleted project path h =
    update_active (some project)
      (λ current. if is_selected current.selected path then select current none else current)
      (list (some project) (parent_path path) h)
