-- ===== src/TreeHook/Events.antt =====
-- frontend/src/lib/useFileTree.ts: what the window asks of the hook and what the backend answers.
use m6t.Common.{Bool, Option, none, some, List, if◌then◌else◌, Text}
use m6t.Tree.{Entry, RestoredTree}
use m6t.TreeHook.{
  TreeHook, new_hook, commit, classified, classify_failed, listed, list_failed, same_project,
  show_project, expand_dir, collapse_dir, reveal_dir, locate_file, restore_tree_state,
  close_project, on_tree, select_path, toggle_hidden_files, toggle_changed, create_entry,
  rename_entry, delete_entry, created, renamed, deleted,
}

pub data Event : Type 0 where
  shows : Option Text → Event
  expands collapses reveals locates : Text → Event
  restores : RestoredTree → Event
  closes : Text → Event
  tree_changed : Text → List Text → Event
  selects : Option Text → Event
  toggles_hidden toggles_changed : Event
  wants_entry : Text → Text → Bool → Event
  wants_name : Text → Text → Event
  wants_rid : Text → Event
  is_listed : Text → Text → List Entry → Event
  is_not_listed : Text → Text → Text → Event
  is_classified : Text → List (Text × Text) → List Text → List (List Text) → Event
  is_not_classified : Text → List (List Text) → Event
  is_created is_renamed is_deleted : Text → Text → Event

unfoldable pub handle : (Text → Text) → Event → TreeHook → TreeHook
handle lower (shows project) h = show_project project h
handle lower (expands dir) h = expand_dir dir h
handle lower (collapses dir) h = collapse_dir dir h
handle lower (reveals dir) h = reveal_dir dir h
handle lower (locates path) h = locate_file path h
handle lower (restores saved) h = restore_tree_state saved h
handle lower (closes project) h = close_project project h
handle lower (tree_changed project dirs) h = on_tree project dirs h
handle lower (selects path) h = select_path path h
handle lower toggles_hidden h = toggle_hidden_files h
handle lower toggles_changed h = toggle_changed h
handle lower (wants_entry dir name is_dir) h = (create_entry dir name is_dir h).0
handle lower (wants_name path name) h = (rename_entry path name h).0
handle lower (wants_rid path) h = (delete_entry path h).0
handle lower (is_listed project dir entries) h = listed lower project dir entries h
handle lower (is_not_listed project dir message) h = list_failed project dir message h
handle lower (is_classified project heads paths batches) h =
    classified project heads paths batches h
handle lower (is_not_classified project batches) h = classify_failed project batches h
handle lower (is_created project dir) h = created project dir h
handle lower (is_renamed project path) h = renamed project path h
handle lower (is_deleted project path) h = deleted project path h

-- The project whose tree an event is about: that on screen, or that of the call which is answered.
unfoldable pub target : Option Text → Event → Option Text
target active (shows project) = project
target active (closes project) = some project
target active (is_listed project dir entries) = some project
target active (is_not_listed project dir message) = some project
target active (is_classified project heads paths batches) = some project
target active (is_not_classified project batches) = some project
target active (is_created project dir) = some project
target active (is_renamed project path) = some project
target active (is_deleted project path) = some project
target active (tree_changed project dirs) =
    if same_project active (some project) then active else none
target active _ = active

-- The hook after any events, each followed by a render.
pub data Reachable (lower : Text → Text) : TreeHook → Type 0 where
  begin : Reachable lower new_hook
  turn :
      {h : TreeHook} (event : Event)
      → Reachable lower h
      → Reachable lower (commit (handle lower event h))
