-- ===== src/Projects/Trees.antt =====
-- frontend/src/lib/projectTrees.ts: the changed-files filter is the window's, all else a project's.
use m6t.Common.{
  if_cases, All-map, ◌≡◌, refl, sym, ap, ◌∙◌, Bool, true, false, Option, none, some, [], ◌∷◌, map,
  arith, if◌then◌else◌, or_else, maybe, Bool-cases, Option-cases, inl, inr, All, Text, text_eq,
  text_eq_iff, lookup, insert, lookup-insert,
}
use m6t.Tree.{TreeState, initial_tree}
use m6t.Projects.{ProjectTrees, changed_only_of, tree_for, filtered, same_filter, with_tree}

-- Every tree shows the filter of the first.

abbrev pub IsUniform : ProjectTrees → Type 0
IsUniform trees = All (λ entry. entry.1.changed_only ≡ changed_only_of trees) trees

abbrev pub with_filter : Bool → TreeState → TreeState
with_filter b tree = record tree { changed_only = b }

lookup-filtered :
    (b : Bool) (root : Text) (trees : ProjectTrees)
    → lookup root (map (filtered b) trees)
      ≡ maybe (lookup root trees) none λ tree. some (with_filter b tree)
unfolding lookup
lookup-filtered b root [] = refl
lookup-filtered b root ((r, tree) ∷ trees) = ground (arith, lookup-filtered b root trees)

All-insert :
    (P : TreeState → Type 0) (root : Text) (next : TreeState) (trees : ProjectTrees)
    → P next
    → All (λ entry. P entry.1) trees
    → All (λ entry. P entry.1) (insert root next trees)
unfolding insert
All-insert P root next [] h hs = (h, tt)
All-insert P root next ((r, tree) ∷ trees) h hs =
    if_cases (All (λ (entry : Text × TreeState). P entry.1)) (text_eq r root) (λ _. (h, hs.1))
      (λ _. (hs.0, All-insert P root next trees h hs.1))

All-filtered :
    (b : Bool) (trees : ProjectTrees)
    → All (λ entry. entry.1.changed_only ≡ b) (map (filtered b) trees)
All-filtered b [] = tt
All-filtered b (entry ∷ trees) = (refl, All-filtered b trees)

-- Every tree shows one filter.
abbrev pub IsAt : Bool → ProjectTrees → Type 0
IsAt b trees = All (λ entry. entry.1.changed_only ≡ b) trees

pub changed_only_of-IsAt :
    (b : Bool) (root : Text) (trees : ProjectTrees) {tree : TreeState}
    → IsAt b trees
    → lookup root trees ≡ some tree
    → changed_only_of trees ≡ b
unfolding changed_only_of lookup
changed_only_of-IsAt b root [] h e = cc
changed_only_of-IsAt b root ((r, tree) ∷ trees) h e = h.0

pub lookup-IsAt :
    (b : Bool) (root : Text) (trees : ProjectTrees) {tree : TreeState}
    → IsAt b trees
    → lookup root trees ≡ some tree
    → tree.changed_only ≡ b
unfolding lookup
lookup-IsAt b root [] h e = cc
lookup-IsAt b root ((r, t) ∷ trees) {tree} h e = elim (Bool-cases (text_eq r root)) [
  | inl same ↦
      let found : t ≡ tree = ground (arith, e, same) in
      ap (λ (x : TreeState). x.changed_only) (sym found) ∙ h.0
  | inr other ↦ lookup-IsAt b root trees {tree = tree} h.1 (ground (arith, e, other))
]

same_filter_eq : (a b : Bool) → same_filter a b ≡ true → b ≡ a
same_filter_eq true b h = h
same_filter_eq false true h = cc
same_filter_eq false false h = refl

same_filter-IsAt :
    (b : Bool) (trees : ProjectTrees)
    → same_filter b (changed_only_of trees) ≡ true
    → IsUniform trees
    → IsAt b trees
same_filter-IsAt b trees same u =
    All-map (λ (entry : Text × TreeState). entry.1.changed_only ≡ changed_only_of trees)
      (λ (entry : Text × TreeState). entry.1.changed_only ≡ b)
      (λ entry e. e ∙ same_filter_eq b (changed_only_of trees) same) trees u

pub with_tree-IsAt :
    (trees : ProjectTrees) (root : Text) (next : TreeState)
    → IsUniform trees
    → IsAt next.changed_only (with_tree trees root next)
unfolding with_tree
with_tree-IsAt trees root next u =
    if_cases (IsAt next.changed_only) (same_filter next.changed_only (changed_only_of trees))
      (λ same.
        All-insert (λ (t : TreeState). t.changed_only ≡ next.changed_only) root next trees refl
          (same_filter-IsAt next.changed_only trees same u))
      (λ _. All-filtered next.changed_only (insert root next trees))

-- A tree that shows the filter is itself with the filter set.
stored_as_filtered :
    (b : Bool) (root : Text) (trees : ProjectTrees)
    → IsAt b trees
    → lookup root trees ≡ maybe (lookup root trees) none (λ tree. some (with_filter b tree))
stored_as_filtered b root trees h = elim (Option-cases (lookup root trees)) [
  | inl nowhere ↦ rw nowhere refl
  | inr (tree, found) ↦
      rw found (ap (λ c. some (with_filter c tree)) (lookup-IsAt b root trees h found))
]

pub lookup-with_tree :
    (trees : ProjectTrees) (root : Text) (next : TreeState) (r : Text)
    → IsUniform trees
    → lookup r (with_tree trees root next) ≡ (
        if text_eq root r
        then some next
        else maybe (lookup r trees) none λ tree. some (with_filter next.changed_only tree))
unfolding with_tree
lookup-with_tree trees root next r u =
    if_cases
      (λ (m : ProjectTrees). lookup r m ≡ (
        if text_eq root r
        then some next
        else maybe (lookup r trees) none λ tree. some (with_filter next.changed_only tree)))
      (same_filter next.changed_only (changed_only_of trees))
      (λ same.
        lookup-insert root r next trees
        ∙ ap (λ o. if text_eq root r then some next else o)
            (stored_as_filtered next.changed_only r trees
              (same_filter-IsAt next.changed_only trees same u)))
      (λ _.
        lookup-filtered next.changed_only r (insert root next trees)
        ∙ ap (λ o. maybe o none λ tree. some (with_filter next.changed_only tree))
            (lookup-insert root r next trees)
        ∙ split (text_eq root r) (lookup r trees))
  where
    split :
        (b : Bool) (o : Option TreeState)
        → maybe
            (if b then some next else o)
            none
            (λ tree. some (with_filter next.changed_only tree))
          ≡ (if b
              then some next
              else maybe o none λ tree. some (with_filter next.changed_only tree))
    split true o = refl
    split false o = refl

pub IsAt-IsUniform : (b : Bool) (trees : ProjectTrees) → IsAt b trees → IsUniform trees
unfolding changed_only_of
IsAt-IsUniform b [] h = tt
IsAt-IsUniform b ((root, tree) ∷ trees) h =
    All-map (λ (entry : Text × TreeState). entry.1.changed_only ≡ b)
      (λ (entry : Text × TreeState). entry.1.changed_only ≡ tree.changed_only)
      (λ entry e. e ∙ sym h.0) ((root, tree) ∷ trees) h

-- Recording a project's tree keeps one filter in all of them; that project's tree is the one recorded,
-- and any other's, one that was never recorded among them, is as it was with the new tree's filter.
pub tree_for-with_tree :
    (trees : ProjectTrees) (root : Text) (next : TreeState)
    → IsUniform trees
    → IsUniform (with_tree trees root next)
      × ((r : Text)
          → tree_for (with_tree trees root next) (some r) ≡ (
              if text_eq root r
              then next
              else with_filter next.changed_only (tree_for trees (some r))))
unfolding tree_for
tree_for-with_tree trees root next u =
    let at = with_tree-IsAt trees root next u in
    let mine : lookup root (with_tree trees root next) ≡ some next =
      ground (arith, lookup-with_tree trees root next root u, text_eq_iff root root) in
    let first = changed_only_of-IsAt next.changed_only root (with_tree trees root next) at mine in
    (
      IsAt-IsUniform next.changed_only (with_tree trees root next) at,
      λ r.
          ap
            (λ o.
              or_else o (with_filter (changed_only_of (with_tree trees root next)) initial_tree))
            (lookup-with_tree trees root next r u)
          ∙ ap
              (λ b.
                or_else
                  (if text_eq root r
                    then some next
                    else maybe (lookup r trees) none
                        λ tree. some (with_filter next.changed_only tree))
                  (with_filter b initial_tree))
              first
          ∙ by_cases (text_eq root r) (lookup r trees),
    )
  where
    by_cases :
        (b : Bool) (o : Option TreeState)
        → or_else
            (if b
              then some next
              else maybe o none λ tree. some (with_filter next.changed_only tree))
            (with_filter next.changed_only initial_tree)
          ≡ (if b
              then next
              else with_filter next.changed_only
                  (or_else o (with_filter (changed_only_of trees) initial_tree)))
    by_cases true o = refl
    by_cases false none = refl
    by_cases false (some tree) = refl
