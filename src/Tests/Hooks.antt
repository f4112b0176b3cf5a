-- ===== src/Tests/Hooks.antt =====
-- frontend/src/lib/useFileTree.ts and useSession.ts at concrete inputs.
use m6t.Common.{
  ◌≡◌, ◌≤◌, refl, true, false, none, some, List, remove, [], ◌∷◌, All, length, if◌then◌else◌, Text,
  text, text_eq, contains, add, lookup, insert,
}
use m6t.Paths.{root}
use m6t.Tree.{
  visible_rows, walk, longest_listed, rows_of, visible_children, initial_tree, with_loading,
  with_dir, children_of, open_dirs, yaml_paths,
}
use m6t.Projects.{tree_for, with_tree, without_tree, changed_only_of}
use m6t.Projects.Trees.{with_filter}
use m6t.TreeHook
use m6t.TreeHook.{TreeHook, batched}
use m6t.TreeHook.Batched.{concat, concat-batched}
use m6t.TreeHook.Events.{target, shows, is_listed, closes}
use m6t.TreeHook.Reached.{handle-tree_for}
use m6t.TreeHook.Open.{run, is_open_after, run-open}
use m6t.TreeHook.Events
use m6t.TreeHook.Does.{transition}
use m6t.TreeHook.Refined.{handle-transition}

abbrev lower : Text → Text
lower s = s

-- One project is on screen.
abbrev shown : TreeHook
shown = TreeHook.commit (Events.handle lower (shows (some (text "/src/m6t"))) TreeHook.new_hook)

shown-reachable : Events.Reachable lower shown
shown-reachable = Events.turn (shows (some (text "/src/m6t"))) Events.begin

abbrev listing : Events.Event
listing = is_listed (text "/src/m6t") root (record { name = text "go.mod"; is_dir = false } ∷ [])

handle-transition_example :
    tree_for (Events.handle lower listing shown).trees (some (text "/src/m6t")) ≡ (
      if contains (text "/src/m6t") shown.held
      then transition listing (tree_for shown.trees (some (text "/src/m6t")))
      else tree_for shown.trees (some (text "/src/m6t")))
unfolding target
handle-transition_example =
    handle-transition lower shown listing (text "/src/m6t") shown-reachable tt refl

-- One project is shown, another in its place, the first is closed, and then its listing arrives.
abbrev late : List Events.Event
late =
    is_listed (text "/src/k8s") root []
    ∷ closes (text "/src/k8s")
    ∷ shows (some (text "/src/m6t"))
    ∷ shows (some (text "/src/k8s"))
    ∷ []

late-tree : lookup (text "/src/m6t") (run lower late).trees ≡ some (with_loading initial_tree root)
unfolding run TreeHook.commit Events.handle TreeHook.new_hook TreeHook.show_project
    TreeHook.close_project without_tree TreeHook.listed TreeHook.list_all TreeHook.list
    TreeHook.update_tree TreeHook.classify batched TreeHook.slices yaml_paths open_dirs tree_for
    with_tree changed_only_of lookup insert contains add remove text_eq initial_tree with_loading
    with_dir children_of visible_rows walk longest_listed rows_of visible_children
late-tree = refl

-- Nothing is kept of the project that was closed.
late-closed : lookup (text "/src/k8s") (run lower late).trees ≡ none
unfolding run TreeHook.commit Events.handle TreeHook.new_hook TreeHook.show_project
    TreeHook.close_project without_tree TreeHook.listed TreeHook.list_all TreeHook.list
    TreeHook.update_tree TreeHook.classify batched TreeHook.slices yaml_paths open_dirs tree_for
    with_tree changed_only_of lookup insert contains add remove text_eq initial_tree with_loading
    with_dir children_of visible_rows walk longest_listed rows_of visible_children
late-closed = refl

run-open_example : is_open_after (text "/src/m6t") late ≡ true
run-open_example = run-open lower late (text "/src/m6t") (with_loading initial_tree root) late-tree

-- An answer for the first project while another is on screen.
abbrev switched : TreeHook
switched = TreeHook.commit (Events.handle lower (shows (some (text "/src/k8s"))) shown)

switched-reachable : Events.Reachable lower switched
switched-reachable = Events.turn (shows (some (text "/src/k8s"))) shown-reachable

handle-tree_for_example :
    tree_for (Events.handle lower listing switched).trees (some (text "/src/k8s"))
    ≡ with_filter
        (changed_only_of (Events.handle lower listing switched).trees)
        (tree_for switched.trees (some (text "/src/k8s")))
unfolding target text_eq
handle-tree_for_example =
    handle-tree_for lower switched listing (text "/src/k8s") switched-reachable refl

concat-batched_example :
    (concat (batched (text "a.yaml" ∷ text "b.yaml" ∷ [])) ≡ text "a.yaml" ∷ text "b.yaml" ∷ [])
    × All
        (λ batch. (1 ≤ length batch) × (length batch ≤ 256))
        (batched (text "a.yaml" ∷ text "b.yaml" ∷ []))
concat-batched_example = concat-batched (text "a.yaml" ∷ text "b.yaml" ∷ [])
