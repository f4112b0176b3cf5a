-- ===== src/TreeHook/Moves.antt =====
-- frontend/src/lib/useFileTree.ts: an event touches the tree of the project that it is about.
use m6t.Common.{
  ◌≡◌, refl, sym, subst, false, Option, none, some, List, [], ◌∷◌, both_cases, maybe, Text,
}
use m6t.Paths.{parent_path}
use m6t.Tree.{TreeState, yaml_paths, toggle_hidden, toggle_changed_only, affected_tracked_dirs}
use m6t.TreeHook.{
  Request, TreeHook, ask, list, list_all, batched, classified, classify_failed, listed, list_failed,
  same_project, update_active, expand_dir, collapse_dir, reveal_dir, locate_file,
  restore_tree_state, on_tree, select_path, toggle_hidden_files, toggle_changed, create_entry,
  rename_entry, delete_entry, created, renamed, deleted,
}
use m6t.TreeHook.Touched.{
  Touched, done, asks, updates, Inv, tree_for-filter, Leaves, Touched-Inv, Touched-Leaves,
  list-Touched, list_all-Touched, classify-Touched,
}
use m6t.TreeHook.Events.{
  Event, handle, target, shows, expands, collapses, reveals, locates, restores, closes,
  tree_changed, selects, toggles_hidden, toggles_changed, wants_entry, wants_name, wants_rid,
  is_listed, is_not_listed, is_classified, is_not_classified, is_created, is_renamed, is_deleted,
}

-- What an event about a project, or about none, leaves.
abbrev pub Moves : Option Text → TreeHook → TreeHook → Type 0
Moves none h u = u ≡ h
Moves (some project) h u = Touched project h u

Moves-refl : (o : Option Text) (h : TreeHook) → Moves o h h
Moves-refl none h = refl
Moves-refl (some project) h = done

update_active-Moves :
    (o : Option Text) (change : TreeState → TreeState) (h u : TreeHook)
    → Moves o h u
    → Moves o h (update_active o change u)
unfolding update_active
update_active-Moves none change h u m = m
update_active-Moves (some project) change h u m = updates change m

list_all-Moves :
    (o : Option Text) (dirs : List Text) (h u : TreeHook)
    → Moves o h u
    → Moves o h (list_all o dirs u)
unfolding list_all list
list_all-Moves none [] h u m = m
list_all-Moves none (dir ∷ dirs) h u m = list_all-Moves none dirs h u m
list_all-Moves (some project) dirs h u m = list_all-Touched project dirs h u m

list-Moves :
    (o : Option Text) (dir : Text) (h u : TreeHook) → Moves o h u → Moves o h (list o dir u)
unfolding list
list-Moves none dir h u m = m
list-Moves (some project) dir h u m = list-Touched project dir h u m

asked-Moves :
    (o : Option Text) (request : Text → Request) (message : Option Text) (h : TreeHook)
    → Moves o h
        (maybe {B = TreeHook × Option Text} o
          (h, message)
          λ project. (ask (request project) h, none)).0
asked-Moves none request message h = refl
asked-Moves (some project) request message h = asks (request project) done

-- An event that is not of a project that comes or goes.
abbrev pub IsPlain : Event → Type 0
IsPlain (shows project) = ⊥
IsPlain (closes project) = ⊥
IsPlain _ = Unit

pub handle-Moves :
    (lower : Text → Text) (event : Event) (h : TreeHook)
    → IsPlain event
    → Moves (target h.project event) h (handle lower event h)
unfolding handle target expand_dir collapse_dir reveal_dir locate_file restore_tree_state on_tree
    select_path toggle_hidden_files toggle_changed create_entry rename_entry delete_entry listed
    list_failed classified classify_failed created renamed deleted update_active
handle-Moves lower (expands dir) h p =
    list-Moves h.project dir h _ (update_active-Moves h.project _ h h (Moves-refl h.project h))
handle-Moves lower (collapses dir) h p =
    update_active-Moves h.project _ h h (Moves-refl h.project h)
handle-Moves lower (reveals dir) h p =
    list_all-Moves h.project _ h _ (update_active-Moves h.project _ h h (Moves-refl h.project h))
handle-Moves lower (locates path) h p =
    list_all-Moves h.project _ h _ (update_active-Moves h.project _ h h (Moves-refl h.project h))
handle-Moves lower (restores saved) h p =
    list_all-Moves h.project _ h _ (update_active-Moves h.project _ h h (Moves-refl h.project h))
handle-Moves lower (tree_changed project dirs) h p =
    both_cases (λ o u. Moves o h u) (same_project h.project (some project))
      (list_all-Moves h.project (affected_tracked_dirs h.state dirs) h h (Moves-refl h.project h))
      refl
handle-Moves lower (selects path) h p = update_active-Moves h.project _ h h (Moves-refl h.project h)
handle-Moves lower toggles_hidden h p =
    update_active-Moves h.project toggle_hidden h h (Moves-refl h.project h)
handle-Moves lower toggles_changed h p =
    update_active-Moves h.project toggle_changed_only h h (Moves-refl h.project h)
handle-Moves lower (wants_entry dir name is_dir) h p = asked-Moves h.project _ _ h
handle-Moves lower (wants_name path name) h p = asked-Moves h.project _ _ h
handle-Moves lower (wants_rid path) h p = asked-Moves h.project _ _ h
handle-Moves lower (is_listed project dir entries) h p =
    classify-Touched project (batched (yaml_paths lower dir entries)) h _ (updates _ done)
handle-Moves lower (is_not_listed project dir message) h p = updates _ done
handle-Moves lower (is_classified project heads paths batches) h p =
    classify-Touched project batches h _ (updates _ done)
handle-Moves lower (is_not_classified project batches) h p =
    classify-Touched project batches h h done
handle-Moves lower (is_created project dir) h p = list-Touched project dir h h done
handle-Moves lower (is_renamed project path) h p = list-Touched project (parent_path path) h h done
handle-Moves lower (is_deleted project path) h p =
    updates _ (list-Touched project (parent_path path) h h done)
handle-Moves lower (shows project) h p = absurd p
handle-Moves lower (closes project) h p = absurd p

pub Moves-Inv : (o : Option Text) (h u : TreeHook) → Moves o h u → Inv h → Inv u
Moves-Inv none h u m inv = subst Inv (sym m) inv
Moves-Inv (some project) h u m inv = Touched-Inv project h u m inv

pub Moves-Leaves :
    (o : Option Text) (h u : TreeHook) (other : Text)
    → same_project o (some other) ≡ false
    → Moves o h u
    → Inv h
    → Leaves h u other
Moves-Leaves none h u other apart m inv =
    subst (λ v. Leaves h v other) (sym m) (tree_for-filter h.trees other inv.uniform)
Moves-Leaves (some project) h u other apart m inv = Touched-Leaves project h u other apart m inv
