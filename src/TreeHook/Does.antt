-- ===== src/TreeHook/Does.antt =====
-- frontend/src/lib/useFileTree.ts: a change to the tree of one project that is held.
use m6t.Common.{
  ◌≡◌, sym, ap, ◌∙◌, subst, Bool, true, false, not, Option, none, some, List, [], ◌∷◌,
  if◌then◌else◌, maybe, Text, text_eq, text_eq_refl, contains, filter,
}
use m6t.Paths.{root, parent_path}
use m6t.Tree.{
  TreeState, with_loading, with_listing, with_error, with_manifests, restore_tree, expand, collapse,
  reveal, locate, select, toggle_hidden, toggle_changed_only, affected_tracked_dirs,
}
use m6t.Projects.{tree_for, with_tree}
use m6t.Projects.Trees.{IsUniform, with_filter, tree_for-with_tree}
use m6t.TreeHook.{
  Request, TreeHook, ask, update_tree, list, list_all, classify, update_active, missing,
  is_selected,
}
use m6t.TreeHook.Events.{
  Event, expands, collapses, reveals, locates, restores, tree_changed, selects, toggles_hidden,
  toggles_changed, is_listed, is_not_listed, is_classified, is_created, is_renamed, is_deleted,
}

abbrev pub loading_all : List Text → TreeState → TreeState
loading_all [] t = t
loading_all (dir ∷ dirs) t = loading_all dirs (with_loading t dir)

-- What an event does to the tree that it is about, were it the only one.
unfoldable pub transition : Event → TreeState → TreeState
transition (expands dir) t = with_loading (expand t dir) dir
transition (collapses dir) t = collapse t dir
transition (reveals dir) t = loading_all (missing t dir) (reveal t dir)
transition (locates path) t = loading_all (missing t (parent_path path)) (locate t path)
transition (restores saved) t =
    loading_all (filter (λ dir. not (text_eq dir root)) saved.expanded) (restore_tree t saved)
transition (tree_changed project dirs) t = loading_all (affected_tracked_dirs t dirs) t
transition (selects path) t = select t path
transition toggles_hidden t = toggle_hidden t
transition toggles_changed t = toggle_changed_only t
transition (is_listed project dir entries) t = with_listing t dir entries
transition (is_not_listed project dir message) t = with_error t dir message
transition (is_classified project heads paths batches) t = with_manifests t heads paths
transition (is_created project dir) t = with_loading t dir
transition (is_renamed project path) t = with_loading t (parent_path path)
transition (is_deleted project path) t =
    let again = with_loading t (parent_path path) in
    if is_selected again.selected path then select again none else again
transition _ t = t

-- The tree of a project that is held.
abbrev pub Does : Option Text → TreeHook → TreeState → Type 0
Does none u next = Unit
Does (some project) u next =
    IsUniform u.trees × (contains project u.held ≡ true) × (tree_for u.trees (some project) ≡ next)

pub update_tree-Does :
    (project : Text) (change : TreeState → TreeState) (u : TreeHook) (next : TreeState)
    → Does (some project) u next
    → Does (some project) (update_tree project change u) (change next)
unfolding update_tree
update_tree-Does project change u next (uniform, held, is) =
    let stored =
      tree_for-with_tree u.trees project (change (tree_for u.trees (some project))) uniform in
    subst
      (λ b.
        Does (some project)
          (if b
            then record u {
              trees = with_tree u.trees project (change (tree_for u.trees (some project)));
            }
            else u)
          (change next))
      (sym held)
      (
        stored.0,
        held,
        stored.1 project
            ∙ ap
                (λ b.
                  if b
                  then change (tree_for u.trees (some project))
                  else with_filter (change (tree_for u.trees (some project))).changed_only
                      (tree_for u.trees (some project)))
                (text_eq_refl project)
            ∙ ap change is,
      )

pub update_active-Does :
    (o : Option Text) (change : TreeState → TreeState) (u : TreeHook) (next : TreeState)
    → Does o u next
    → Does o (update_active o change u) (change next)
unfolding update_active
update_active-Does none change u next d = tt
update_active-Does (some project) change u next d = update_tree-Does project change u next d

pub list-Does :
    (o : Option Text) (dir : Text) (u : TreeHook) (next : TreeState)
    → Does o u next
    → Does o (list o dir u) (with_loading next dir)
unfolding list
list-Does none dir u next d = tt
list-Does (some project) dir u next d =
    update_tree-Does project (λ current. with_loading current dir) u next d

pub list_all-Does :
    (o : Option Text) (dirs : List Text) (u : TreeHook) (next : TreeState)
    → Does o u next
    → Does o (list_all o dirs u) (loading_all dirs next)
unfolding list_all
list_all-Does o [] u next d = d
list_all-Does o (dir ∷ dirs) u next d =
    list_all-Does o dirs (list o dir u) (with_loading next dir) (list-Does o dir u next d)

pub classify-Does :
    (project : Text) (batches : List (List Text)) (u : TreeHook) (next : TreeState)
    → Does (some project) u next
    → Does (some project) (classify project batches u) next
unfolding classify
classify-Does project [] u next d = d
classify-Does project (paths ∷ batches) u next d = d

pub asked-Does :
    (o : Option Text) (request : Text → Request) (message : Option Text) (h : TreeHook)
    (next : TreeState)
    → Does o h next
    → Does o
        (maybe {B = TreeHook × Option Text} o
          (h, message)
          λ project. (ask (request project) h, none)).0
        next
asked-Does none request message h next d = tt
asked-Does (some project) request message h next d = d

pub changed-Does :
    (dirs : List Text) (h : TreeHook)
    → h.state ≡ tree_for h.trees h.project
    → (b : Bool)
    → Does (if b then h.project else none) h (tree_for h.trees (if b then h.project else none))
    → Does
        (if b then h.project else none)
        (if b then list_all h.project (affected_tracked_dirs h.state dirs) h else h)
        (loading_all
          (affected_tracked_dirs (tree_for h.trees (if b then h.project else none)) dirs)
          (tree_for h.trees (if b then h.project else none)))
changed-Does dirs h c true d =
    subst
      (λ t.
        Does h.project (list_all h.project (affected_tracked_dirs h.state dirs) h)
          (loading_all (affected_tracked_dirs t dirs) (tree_for h.trees h.project)))
      c (list_all-Does h.project (affected_tracked_dirs h.state dirs) h _ d)
changed-Does dirs h c false d = tt
