-- ===== src/TreeHook/Refined.antt =====
-- frontend/src/lib/useFileTree.ts: the hook as the transitions of frontend/src/lib/tree.ts, one tree at
-- a time.
use m6t.Common.{
  ◌≡◌, refl, sym, ap, ◌∙◌, subst, inl, inr, false, some, if◌then◌else◌, Bool-cases, Text, contains,
}
use m6t.Paths.{parent_path}
use m6t.Tree.{initial_tree, yaml_paths, reveal, locate, toggle_hidden, toggle_changed_only}
use m6t.Projects.{changed_only_of, tree_for, with_tree}
use m6t.TreeHook.{
  TreeHook, new_hook, commit, update_tree, batched, classified, classify_failed, listed,
  list_failed, same_project, update_active, expand_dir, collapse_dir, missing, reveal_dir,
  locate_file, restore_tree_state, on_tree, select_path, toggle_hidden_files, toggle_changed,
  create_entry, rename_entry, delete_entry, created, renamed, deleted,
}
use m6t.TreeHook.Touched.{Touched, done, asks, updates}
use m6t.TreeHook.Events.{
  Event, handle, target, Reachable, shows, expands, collapses, reveals, locates, restores, closes,
  tree_changed, selects, toggles_hidden, toggles_changed, wants_entry, wants_name, wants_rid,
  is_listed, is_not_listed, is_classified, is_not_classified, is_created, is_renamed, is_deleted,
  begin, turn,
}
use m6t.TreeHook.Moves.{Moves, handle-Moves, IsPlain}
use m6t.TreeHook.Reached.{Reachable-Inv}
use m6t.TreeHook.Does.{
  Does, loading_all, transition, update_tree-Does, update_active-Does, list-Does, list_all-Does,
  classify-Does, asked-Does, changed-Does,
}

-- Where the hook is committed, with the tree of the project that the event is about.

pub handle-Does :
    (lower : Text → Text) (event : Event) (h : TreeHook)
    → IsPlain event
    → h.state ≡ tree_for h.trees h.project
    → Does (target h.project event) h (tree_for h.trees (target h.project event))
    → Does
        (target h.project event)
        (handle lower event h)
        (transition event (tree_for h.trees (target h.project event)))
unfolding handle target transition expand_dir collapse_dir reveal_dir locate_file restore_tree_state
    on_tree select_path toggle_hidden_files toggle_changed create_entry rename_entry delete_entry
    listed list_failed classified classify_failed created renamed deleted update_active
handle-Does lower (expands dir) h p c d =
    list-Does h.project dir _ _ (update_active-Does h.project _ h _ d)
handle-Does lower (collapses dir) h p c d = update_active-Does h.project _ h _ d
handle-Does lower (reveals dir) h p c d =
    subst
      (λ t.
        Does h.project (reveal_dir dir h)
          (loading_all (missing t dir) (reveal (tree_for h.trees h.project) dir)))
      c (list_all-Does h.project (missing h.state dir) _ _ (update_active-Does h.project _ h _ d))
handle-Does lower (locates path) h p c d =
    subst
      (λ t.
        Does h.project (locate_file path h)
          (loading_all (missing t (parent_path path)) (locate (tree_for h.trees h.project) path)))
      c
      (list_all-Does h.project (missing h.state (parent_path path)) _ _
        (update_active-Does h.project _ h _ d))
handle-Does lower (restores saved) h p c d =
    list_all-Does h.project _ _ _ (update_active-Does h.project _ h _ d)
handle-Does lower (tree_changed project dirs) h p c d =
    changed-Does dirs h c (same_project h.project (some project)) d
handle-Does lower (selects path) h p c d = update_active-Does h.project _ h _ d
handle-Does lower toggles_hidden h p c d = update_active-Does h.project toggle_hidden h _ d
handle-Does lower toggles_changed h p c d = update_active-Does h.project toggle_changed_only h _ d
handle-Does lower (wants_entry dir name is_dir) h p c d = asked-Does h.project _ _ h _ d
handle-Does lower (wants_name path name) h p c d = asked-Does h.project _ _ h _ d
handle-Does lower (wants_rid path) h p c d = asked-Does h.project _ _ h _ d
handle-Does lower (is_listed project dir entries) h p c d =
    classify-Does project (batched (yaml_paths lower dir entries)) _ _
      (update_tree-Does project _ h _ d)
handle-Does lower (is_not_listed project dir message) h p c d = update_tree-Does project _ h _ d
handle-Does lower (is_classified project heads paths batches) h p c d =
    classify-Does project batches _ _ (update_tree-Does project _ h _ d)
handle-Does lower (is_not_classified project batches) h p c d = classify-Does project batches h _ d
handle-Does lower (is_created project dir) h p c d = list-Does (some project) dir h _ d
handle-Does lower (is_renamed project path) h p c d =
    list-Does (some project) (parent_path path) h _ d
handle-Does lower (is_deleted project path) h p c d =
    update_tree-Does project _ _ _ (list-Does (some project) (parent_path path) h _ d)
handle-Does lower (shows project) h p c d = absurd p
handle-Does lower (closes project) h p c d = absurd p

-- A project that is not held is not changed.
Touched-trees :
    (project : Text) (h u : TreeHook)
    → Touched project h u
    → contains project h.held ≡ false
    → (u.trees ≡ h.trees) × (contains project u.held ≡ false)
unfolding update_tree
Touched-trees project h _ done e = (refl, e)
Touched-trees project h _ (asks {u = u} request t) e = Touched-trees project h u t e
Touched-trees project h _ (updates {u = u} change t) e =
    let (same, gone) = Touched-trees project h u t e in
    subst
      (λ b.
        ((if b
            then record u {
              trees = with_tree u.trees project (change (tree_for u.trees (some project)));
            }
            else u).trees
          ≡ h.trees)
        × (contains project
              (if b
                then record u {
                  trees = with_tree u.trees project (change (tree_for u.trees (some project)));
                }
                else u).held
            ≡ false))
      (sym gone) (same, gone)

Reachable-committed :
    (lower : Text → Text) (h : TreeHook) → Reachable lower h → h.state ≡ tree_for h.trees h.project
unfolding new_hook commit tree_for changed_only_of initial_tree
Reachable-committed lower _ begin = refl
Reachable-committed lower _ (turn event r) = refl

-- An event about a project, other than its coming on screen and its closing, does to its tree, where
-- the project is held, what the transition of that tree alone does; where it is not, the tree stays.
-- So the one store of every project's tree, with the answers that come late, is for each project a
-- machine of its own.
pub handle-transition :
    (lower : Text → Text) (h : TreeHook) (event : Event) (project : Text)
    → Reachable lower h
    → IsPlain event
    → target h.project event ≡ some project
    → tree_for (handle lower event h).trees (some project) ≡ (
        if contains project h.held
        then transition event (tree_for h.trees (some project))
        else tree_for h.trees (some project))
handle-transition lower h event project r plain about =
    elim (Bool-cases (contains project h.held)) [
      | inl held ↦
          let does =
            subst
              (λ o.
                Does o h (tree_for h.trees o)
                → Does o (handle lower event h) (transition event (tree_for h.trees o)))
              about (handle-Does lower event h plain (Reachable-committed lower h r)) in
          (does ((Reachable-Inv lower h r).uniform, held, refl)).2
          ∙ ap
              (λ b.
                if b
                then transition event (tree_for h.trees (some project))
                else tree_for h.trees (some project))
              (sym held)
      | inr gone ↦
          let touched : Touched project h (handle lower event h) =
            subst (λ o. Moves o h (handle lower event h)) about
              (handle-Moves lower event h plain) in
          ap (λ trees. tree_for trees (some project)) (Touched-trees project h _ touched gone).0
          ∙ ap
              (λ b.
                if b
                then transition event (tree_for h.trees (some project))
                else tree_for h.trees (some project))
              (sym gone)
    ]
