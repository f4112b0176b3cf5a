-- ===== src/TreeHook/Reached.antt =====
-- frontend/src/lib/useFileTree.ts: whatever the window asks for and whenever the backend answers.
use m6t.Common.{
  ◌≡◌, refl, sym, ap, ◌∙◌, true, false, not, Option, none, some, [], arith, if◌then◌else◌, some_inj,
  if_cases, or_else, Text, text_eq, lookup, lookup-filter, contains, add, remove, contains-add,
  contains-remove, filter, All-filter,
}
use m6t.Tree.{TreeState, initial_tree, open_dirs}
use m6t.Projects.{changed_only_of, tree_for, without_tree}
use m6t.Projects.Trees.{with_filter, IsAt-IsUniform}
use m6t.TreeHook.{TreeHook, new_hook, commit, same_project, hold, show_project, close_project}
use m6t.TreeHook.Touched.{
  done, Inv, tree_for-filter, Leaves, Touched-Inv, Touched-Leaves, list_all-Touched,
}
use m6t.TreeHook.Events.{Event, handle, target, Reachable, shows, closes, begin, turn}
use m6t.TreeHook.Moves.{IsPlain, handle-Moves, Moves-Inv, Moves-Leaves}

-- A project that comes on screen: the hook that its listings start from.

module _ (h : TreeHook) (inv : Inv h) (state : TreeState) where
  abbrev holding : Text → TreeHook
  holding project = record h { project = some project; state = state; held = add project h.held }

  holding-Inv : (project : Text) → Inv (holding project)
  holding-Inv project = record {
    uniform = inv.uniform;
    kept = λ p tree e. ground (arith, contains-add project p h.held, inv.kept p tree e);
  }

  hold-Inv :
      (project : Option Text) → Inv (hold project (record h { project = project; state = state }))
  hold-Inv none = record { uniform = inv.uniform; kept = inv.kept }
  hold-Inv (some project) =
      Touched-Inv project (holding project) _
        (list_all-Touched project (or_else (open_dirs state) []) (holding project) (holding project)
          done)
        (holding-Inv project)

  hold-Leaves :
      (project : Option Text) (other : Text)
      → same_project project (some other) ≡ false
      → Leaves h (hold project (record h { project = project; state = state })) other
  hold-Leaves none other apart = tree_for-filter h.trees other inv.uniform
  hold-Leaves (some project) other apart =
      Touched-Leaves project (holding project) _ other apart
        (list_all-Touched project (or_else (open_dirs state) []) (holding project) (holding project)
          done)
        (holding-Inv project)

show_project-Inv : (project : Option Text) (h : TreeHook) → Inv h → Inv (show_project project h)
unfolding show_project commit
show_project-Inv project h inv =
    if_cases Inv (same_project h.project project)
      (λ _. record { uniform = inv.uniform; kept = inv.kept })
      (λ _. hold-Inv h inv (tree_for h.trees project) project)

show_project-Leaves :
    (project : Option Text) (h : TreeHook) (other : Text)
    → same_project project (some other) ≡ false
    → Inv h
    → Leaves h (show_project project h) other
unfolding show_project commit
show_project-Leaves project h other apart inv =
    if_cases (λ u. Leaves h u other) (same_project h.project project)
      (λ _. tree_for-filter h.trees other inv.uniform)
      (λ _. hold-Leaves h inv (tree_for h.trees project) project other apart)

close_project-Inv : (project : Text) (h : TreeHook) → Inv h → Inv (close_project project h)
unfolding close_project without_tree
close_project-Inv project h inv = record {
  uniform = IsAt-IsUniform (changed_only_of h.trees) _ (
      All-filter (λ (entry : Text × TreeState). entry.1.changed_only ≡ changed_only_of h.trees)
        (λ entry. not (text_eq entry.0 project)) h.trees inv.uniform);
  kept = λ p tree e.
      if_cases (λ o. o ≡ some tree → contains p (remove project h.held) ≡ true) (text_eq project p)
        (λ _ found. cc)
        (λ apart found.
          ground (arith, apart, contains-remove project p h.held, inv.kept p tree found))
        (sym (lookup-filter project p h.trees) ∙ e);
}

close_project-Leaves :
    (project : Text) (h : TreeHook) (other : Text)
    → text_eq project other ≡ false
    → Inv h
    → Leaves h (close_project project h) other
unfolding close_project without_tree
close_project-Leaves project h other apart inv =
    let left = filter (λ entry. not (text_eq entry.0 project)) h.trees in
    tree_for-filter left other (close_project-Inv project h inv).uniform
    ∙ unfold tree_for in
      from (lookup other left) (lookup other h.trees) (
        lookup-filter project other h.trees
        ∙ ap (λ b. if b then none else lookup other h.trees) apart)
  where
    from :
        (o p : Option TreeState)
        → o ≡ p
        → with_filter (changed_only_of (filter (λ entry. not (text_eq entry.0 project)) h.trees)) (
            or_else o (
              with_filter
                (changed_only_of (filter (λ entry. not (text_eq entry.0 project)) h.trees))
                initial_tree))
          ≡ with_filter
              (changed_only_of (filter (λ entry. not (text_eq entry.0 project)) h.trees))
              (or_else p (with_filter (changed_only_of h.trees) initial_tree))
    from none none e = refl
    from none (some t) e = cc
    from (some t) none e = cc
    from (some t) (some u) e = ap (with_filter _) (some_inj e)

pub event_cases :
    (P : Event → Type 0)
    → ((project : Option Text) → P (shows project))
    → ((project : Text) → P (closes project))
    → ((event : Event) → IsPlain event → P event)
    → (event : Event) → P event
event_cases P s c p (shows project) = s project
event_cases P s c p (closes project) = c project
event_cases P s c p event = p event tt

handle-Inv :
    (lower : Text → Text) (event : Event) (h : TreeHook) → Inv h → Inv (handle lower event h)
unfolding handle
handle-Inv lower event h inv =
    event_cases (λ e. Inv (handle lower e h)) (λ project. show_project-Inv project h inv)
      (λ project. close_project-Inv project h inv)
      (λ e plain.
        Moves-Inv (target h.project e) h (handle lower e h) (handle-Moves lower e h plain) inv)
      event

handle-Leaves :
    (lower : Text → Text) (event : Event) (h : TreeHook) (other : Text)
    → Inv h
    → same_project (target h.project event) (some other) ≡ false
    → Leaves h (handle lower event h) other
unfolding handle target
handle-Leaves lower event h other inv =
    event_cases
      (λ e.
        same_project (target h.project e) (some other) ≡ false → Leaves h (handle lower e h) other)
      (λ project apart. show_project-Leaves project h other apart inv)
      (λ project apart. close_project-Leaves project h other apart inv)
      (λ e plain apart.
        Moves-Leaves (target h.project e) h (handle lower e h) other apart
          (handle-Moves lower e h plain) inv)
      event

pub Reachable-Inv : (lower : Text → Text) (h : TreeHook) → Reachable lower h → Inv h
unfolding new_hook commit lookup
Reachable-Inv lower _ begin = record { uniform = tt; kept = λ p tree e. cc }
Reachable-Inv lower _ (turn {h = h} event r) =
    let after = handle-Inv lower event h (Reachable-Inv lower h r) in
    record { uniform = after.uniform; kept = after.kept }

-- An event that is about another project than this one, be it what the window asks for while the
-- other is on screen or an answer to a call for the other, leaves this project's tree as it was, with
-- the filter that the window shows then.
pub handle-tree_for :
    (lower : Text → Text) (h : TreeHook) (event : Event) (project : Text)
    → Reachable lower h
    → same_project (target h.project event) (some project) ≡ false
    → tree_for (handle lower event h).trees (some project)
      ≡ with_filter (changed_only_of (handle lower event h).trees) (tree_for h.trees (some project))
handle-tree_for lower h event project r apart =
    handle-Leaves lower event h project (Reachable-Inv lower h r) apart
