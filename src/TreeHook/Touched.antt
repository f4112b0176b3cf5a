-- ===== src/TreeHook/Touched.antt =====
-- frontend/src/lib/useFileTree.ts: what changes to one project's tree do to the others.
use m6t.Common.{
  ◌≡◌, refl, sym, ap, ◌∙◌, subst, true, false, Option, none, some, List, [], ◌∷◌, if◌then◌else◌,
  if_cases, or_else, maybe, Text, text_eq, text_eq_iff, text_eq_refl, lookup, contains,
}
use m6t.Tree.{TreeState, initial_tree, with_loading}
use m6t.Projects.{ProjectTrees, changed_only_of, tree_for, with_tree}
use m6t.Projects.Trees.{
  IsUniform, with_filter, tree_for-with_tree, lookup-with_tree, lookup-IsAt, changed_only_of-IsAt,
  with_tree-IsAt,
}
use m6t.TreeHook.{Request, lists, prefixes, TreeHook, ask, update_tree, list, list_all, classify}

-- What is left of a hook by calls and by changes to one project's tree.

pub data Touched (project : Text) : TreeHook → TreeHook → Type 0 where
  done : {h : TreeHook} → Touched project h h
  asks :
      {h u : TreeHook} (request : Request) → Touched project h u → Touched project h (ask request u)
  updates :
      {h u : TreeHook} (change : TreeState → TreeState)
      → Touched project h u
      → Touched project h (update_tree project change u)

-- A tree is kept for the projects that are held.
abbrev pub IsHeld : TreeHook → Type 0
IsHeld h =
    (project : Text) (tree : TreeState)
    → lookup project h.trees ≡ some tree
    → contains project h.held ≡ true

pub record Inv (h : TreeHook) : Type 0 where
  pub uniform : IsUniform h.trees
  pub kept : IsHeld h

-- The other projects' trees, as they were but for the window's filter.
abbrev pub Leaves : TreeHook → TreeHook → Text → Type 0
Leaves h u other =
    tree_for u.trees (some other)
    ≡ with_filter (changed_only_of u.trees) (tree_for h.trees (some other))

changed_only_of-with_tree :
    (trees : ProjectTrees) (project : Text) (next : TreeState)
    → IsUniform trees
    → changed_only_of (with_tree trees project next) ≡ next.changed_only
changed_only_of-with_tree trees project next u =
    changed_only_of-IsAt next.changed_only project (with_tree trees project next)
      (with_tree-IsAt trees project next u)
      (lookup-with_tree trees project next project u
        ∙ ap
            (λ b.
              if b
              then some next
              else maybe (lookup project trees) none
                  λ tree. some (with_filter next.changed_only tree))
            (text_eq_refl project))

kept_with :
    (h : TreeHook) (project : Text)
    → contains project h.held ≡ true
    → Inv h
    → (next : TreeState) (p : Text) (tree : TreeState)
    → lookup p (with_tree h.trees project next) ≡ some tree
    → contains p h.held ≡ true
kept_with h project held inv next p tree e =
    if_cases (λ o. o ≡ some tree → contains p h.held ≡ true) (text_eq project p)
      (λ own _. subst (λ q. contains q h.held ≡ true) ((text_eq_iff project p).0 own) held)
      (λ _ found. was (lookup p h.trees) refl found)
      (sym (lookup-with_tree h.trees project next p inv.uniform) ∙ e)
  where
    was :
        (o : Option TreeState)
        → lookup p h.trees ≡ o
        → maybe o none (λ t. some (with_filter next.changed_only t)) ≡ some tree
        → contains p h.held ≡ true
    was none at found = cc
    was (some t) at found = inv.kept p t at

update_tree-Inv :
    (project : Text) (change : TreeState → TreeState) (h : TreeHook)
    → Inv h
    → Inv (update_tree project change h)
unfolding update_tree
update_tree-Inv project change h inv =
    if_cases Inv (contains project h.held)
      (λ held. record {
        uniform =
            (tree_for-with_tree h.trees project (change (tree_for h.trees (some project)))
              inv.uniform).0;
        kept = λ p tree e.
            kept_with h project held inv (change (tree_for h.trees (some project))) p tree e;
      })
      (λ _. inv)

update_tree-Leaves :
    (project : Text) (change : TreeState → TreeState) (h u : TreeHook) (other : Text)
    → text_eq project other ≡ false
    → IsUniform u.trees
    → Leaves h u other
    → Leaves h (update_tree project change u) other
unfolding update_tree
update_tree-Leaves project change h u other apart uniform before =
    let next = change (tree_for u.trees (some project)) in
    if_cases (λ v. Leaves h v other) (contains project u.held)
      (λ _.
        (tree_for-with_tree u.trees project next uniform).1 other
        ∙ ap
            (λ b. if b then next else with_filter next.changed_only (tree_for u.trees (some other)))
            apart
        ∙ ap (with_filter next.changed_only) before
        ∙ ap (λ b. with_filter b (tree_for h.trees (some other)))
            (sym (changed_only_of-with_tree u.trees project next uniform)))
      (λ _. before)

pub tree_for-filter :
    (trees : ProjectTrees) (project : Text)
    → IsUniform trees
    → tree_for trees (some project)
      ≡ with_filter (changed_only_of trees) (tree_for trees (some project))
unfolding tree_for
tree_for-filter trees project uniform = from (lookup project trees) refl
  where
    from :
        (o : Option TreeState)
        → lookup project trees ≡ o
        → or_else o (with_filter (changed_only_of trees) initial_tree)
          ≡ with_filter
              (changed_only_of trees)
              (or_else o (with_filter (changed_only_of trees) initial_tree))
    from none at = refl
    from (some tree) at =
        ap (λ b. with_filter b tree) (lookup-IsAt (changed_only_of trees) project trees uniform at)

pub Touched-Inv : (project : Text) (h u : TreeHook) → Touched project h u → Inv h → Inv u
Touched-Inv project h u done inv = inv
Touched-Inv project h _ (asks {u = u} request t) inv =
    let before = Touched-Inv project h u t inv in
    record { uniform = before.uniform; kept = before.kept }
Touched-Inv project h _ (updates {u = u} change t) inv =
    update_tree-Inv project change u (Touched-Inv project h u t inv)

pub Touched-Leaves :
    (project : Text) (h u : TreeHook) (other : Text)
    → text_eq project other ≡ false
    → Touched project h u
    → Inv h
    → Leaves h u other
Touched-Leaves project h _ other apart done inv = tree_for-filter h.trees other inv.uniform
Touched-Leaves project h _ other apart (asks {u = u} request t) inv =
    Touched-Leaves project h u other apart t inv
Touched-Leaves project h _ other apart (updates {u = u} change t) inv =
    update_tree-Leaves project change h u other apart (Touched-Inv project h u t inv).uniform
      (Touched-Leaves project h u other apart t inv)

pub list-Touched :
    (project dir : Text) (h u : TreeHook)
    → Touched project h u
    → Touched project h (list (some project) dir u)
unfolding list
list-Touched project dir h u t =
    asks (lists project dir) (updates (λ current. with_loading current dir) t)

pub list_all-Touched :
    (project : Text) (dirs : List Text) (h u : TreeHook)
    → Touched project h u
    → Touched project h (list_all (some project) dirs u)
unfolding list_all
list_all-Touched project [] h u t = t
list_all-Touched project (dir ∷ dirs) h u t =
    list_all-Touched project dirs h (list (some project) dir u) (list-Touched project dir h u t)

pub classify-Touched :
    (project : Text) (batches : List (List Text)) (h u : TreeHook)
    → Touched project h u
    → Touched project h (classify project batches u)
unfolding classify
classify-Touched project [] h u t = t
classify-Touched project (paths ∷ batches) h u t = asks (prefixes project paths) t
