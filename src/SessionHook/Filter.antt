-- ===== src/SessionHook/Filter.antt =====
-- frontend/src/lib/useSession.ts: the changed-files filter that a restored tree is given.
use mathlib.Core.List.Memᴰ
use m6t.Common.{
  ◌≡◌, refl, sym, ap, ◌∙◌, inl, inr, true, false, not, ◌&&◌, Option, none, some, List, ◌∷◌, Memᴰ,
  arith, if_cases, maybe_cases, length, ltb, any, Text, text_eq, contains,
}
use m6t.Tree.{RestoredTree}
use m6t.Workspace.{Session, next_session, restored_workspace, restored_tree, project_session}
use m6t.SessionHook.{
  Request, selects, restores_tree, saves, Wiring, Dependencies, SessionHook, new_hook, load,
  restore_selection, same_dependencies, dependencies, hydrate_in, hydrate, hydrated_with,
  record_live, render, fire, set_workspace,
}
use m6t.SessionHook.Reached.{
  Event, loads, renders, hydrates, fires, sets, handle, Reachable, begin, turn,
}

-- The tree that is on screen in a render has the filter off.

abbrev pub IsUnfiltered : Event → Type 0
IsUnfiltered (renders w) = w.tree.changed_only ≡ false
IsUnfiltered _ = Unit

abbrev Off : SessionHook → Type 0
Off h = (restored_workspace h.current).changed_only ≡ false

abbrev TreesOff : List Request → Type 0
TreesOff asked = (tree : RestoredTree) → Memᴰ (restores_tree tree) asked → tree.changed_only ≡ false

record Inv (h : SessionHook) : Type 0 where
  early : h.loaded ≡ none → h.restoring ≡ true
  off : h.restoring ≡ false → Off h
  trees : TreesOff h.asked

-- A request that restores no tree.
TreesOff-cons :
    (request : Request) (asked : List Request)
    → ((tree : RestoredTree) → restores_tree tree ≡ request → ⊥)
    → TreesOff asked
    → TreesOff (request ∷ asked)
TreesOff-cons request asked other off tree m = elim (Memᴰ.cases_cons m) [
  | inl own ↦ absurd (other tree own)
  | inr rest ↦ off tree rest
]

TreesOff-own :
    (tree : RestoredTree) (asked : List Request)
    → tree.changed_only ≡ false
    → TreesOff asked
    → TreesOff (restores_tree tree ∷ asked)
TreesOff-own tree asked is_off off other m =
    elim (Memᴰ.cases_cons {b = restores_tree tree} {l = asked} m) [
      | inl own ↦
          let same : other ≡ tree = cc own in
          ap (λ (t : RestoredTree). t.changed_only) same ∙ is_off
      | inr rest ↦ off other rest
    ]

restore_selection-trees :
    (w : Wiring) (h : SessionHook) → TreesOff h.asked → TreesOff (restore_selection w h).asked
unfolding restore_selection
restore_selection-trees w h off =
    maybe_cases (λ (u : SessionHook). TreesOff u.asked) h.loaded (λ _. off)
      (λ state _.
        if_cases (λ (u : SessionHook). TreesOff u.asked) (h.restoring && ltb 0 (length w.names))
          (λ _.
            maybe_cases (λ (u : SessionHook). TreesOff u.asked)
              (restored_workspace state).active_project (λ _. off)
              (λ name _.
                if_cases (λ (u : SessionHook). TreesOff u.asked) (any (text_eq name) w.names)
                  (λ _. TreesOff-cons (selects name) h.asked (λ tree e. cc) off) (λ _. off)))
          (λ _. off))

-- Neither the recorded session nor what was read changes there.
restore_selection-current :
    (w : Wiring) (h : SessionHook)
    → ((restore_selection w h).current ≡ h.current) × ((restore_selection w h).loaded ≡ h.loaded)
unfolding restore_selection
restore_selection-current w h =
    maybe_cases (λ (u : SessionHook). (u.current ≡ h.current) × (u.loaded ≡ h.loaded)) h.loaded
      (λ _. (refl, refl))
      (λ state _.
        if_cases (λ (u : SessionHook). (u.current ≡ h.current) × (u.loaded ≡ h.loaded))
          (h.restoring && ltb 0 (length w.names))
          (λ _.
            maybe_cases (λ (u : SessionHook). (u.current ≡ h.current) × (u.loaded ≡ h.loaded))
              (restored_workspace state).active_project (λ _. (refl, refl))
              (λ name _.
                if_cases (λ (u : SessionHook). (u.current ≡ h.current) × (u.loaded ≡ h.loaded))
                  (any (text_eq name) w.names) (λ _. (refl, refl)) (λ _. (refl, refl))))
          (λ _. (refl, refl)))

put_back-trees :
    (name path : Option Text) (h : SessionHook)
    → Off h
    → TreesOff h.asked
    → TreesOff (hydrate_in name path h).asked
unfolding restored_tree
put_back-trees none path h off trees = trees
put_back-trees (some name) none h off trees = trees
put_back-trees (some name) (some path) h off trees =
    if_cases (λ (u : SessionHook). TreesOff u.asked) (contains name h.hydrated) (λ _. trees)
      (λ _.
        TreesOff-cons _ _ (λ tree e. cc)
          (TreesOff-own
            (restored_tree (project_session h.current name)
              (restored_workspace h.current).changed_only)
            h.asked off trees))

abbrev Kept : SessionHook → SessionHook → Type 0
Kept h u = (u.current ≡ h.current) × (u.loaded ≡ h.loaded) × (u.restoring ≡ h.restoring)

hydrate_in-Kept : (name path : Option Text) (h : SessionHook) → Kept h (hydrate_in name path h)
hydrate_in-Kept none path h = (refl, refl, refl)
hydrate_in-Kept (some name) none h = (refl, refl, refl)
hydrate_in-Kept (some name) (some path) h =
    if_cases (Kept h) (contains name h.hydrated) (λ _. (refl, refl, refl)) (λ _. (refl, refl, refl))

hydrate-Kept : (w : Wiring) (now : Dependencies) (h : SessionHook) → Kept h (hydrate w now h)
unfolding hydrate
hydrate-Kept w now h =
    if_cases (Kept h) (same_dependencies h.last now) (λ _. (refl, refl, refl))
      (λ _.
        if_cases (Kept h) (now.is_loaded && not now.restoring)
          (λ _. hydrate_in-Kept w.active_name w.active_path (record h { last = now }))
          (λ _. (refl, refl, refl)))

hydrate-trees :
    (w : Wiring) (now : Dependencies) (h : SessionHook)
    → (now.restoring ≡ false → Off h)
    → TreesOff h.asked
    → TreesOff (hydrate w now h).asked
unfolding hydrate
hydrate-trees w now h off trees =
    if_cases (λ (u : SessionHook). TreesOff u.asked) (same_dependencies h.last now) (λ _. trees)
      (λ _.
        if_cases (λ (u : SessionHook). TreesOff u.asked) (now.is_loaded && not now.restoring)
          (λ goes.
            put_back-trees w.active_name w.active_path (record h { last = now })
              (off (ground (arith, goes))) trees)
          (λ _. trees))

restore_selection-unread :
    (w : Wiring) (h : SessionHook) → h.loaded ≡ none → restore_selection w h ≡ h
unfolding restore_selection
restore_selection-unread w h e =
    maybe_cases (λ u. u ≡ h) h.loaded (λ _. refl) (λ state read. cc (read, e))

module _ (json : Session → Text) where
  record_live-Inv :
      (w : Wiring) (h : SessionHook)
      → w.tree.changed_only ≡ false
      → (h.loaded ≡ none → h.restoring ≡ true)
      → TreesOff h.asked
      → Inv (record_live json w h)
  unfolding record_live next_session restored_workspace
  record_live-Inv w h unfiltered early trees =
      maybe_cases Inv h.loaded
        (λ unread. record { early = early; off = λ e. cc (e, early unread); trees = trees })
        (λ state read. record { early = early; off = λ e. unfiltered; trees = trees })

  render-Inv :
      (w : Wiring) (h : SessionHook) → w.tree.changed_only ≡ false → Inv h → Inv (render json w h)
  unfolding render
  render-Inv w h unfiltered inv =
      let chosen = restore_selection w h in
      let (current, loaded) = restore_selection-current w h in
      let kept = hydrate-Kept w (dependencies w h) chosen in
      record_live-Inv w (hydrate w (dependencies w h) chosen) unfiltered
        (λ unread.
          let before : h.loaded ≡ none = sym loaded ∙ sym kept.1 ∙ unread in
          kept.2
          ∙ ap (λ (u : SessionHook). u.restoring) (restore_selection-unread w h before)
          ∙ inv.early before)
        (hydrate-trees w (dependencies w h) chosen
          (λ e. ap (λ (s : Session). (restored_workspace s).changed_only) current ∙ inv.off e)
          (restore_selection-trees w h inv.trees))

  Reachable-Inv : (h : SessionHook) → Reachable json IsUnfiltered h → Inv h
  unfolding handle new_hook load hydrated_with fire set_workspace
  Reachable-Inv _ begin = record { early = λ _. refl; off = λ e. cc; trees = λ tree m. elim m [ ] }
  Reachable-Inv _ (turn {h = h} (loads answer) r unread _) =
      let inv = Reachable-Inv h r in
      record { early = λ e. cc; off = λ e. cc (e, inv.early unread); trees = inv.trees }
  Reachable-Inv _ (turn {h = h} (renders w) r _ unfiltered) =
      render-Inv w h unfiltered (Reachable-Inv h r)
  Reachable-Inv _ (turn {h = h} (hydrates name path saved) r _ _) =
      let inv = Reachable-Inv h r in
      record {
        early = inv.early;
        off = inv.off;
        trees = TreesOff-cons _ h.asked (λ tree e. cc) inv.trees;
      }
  Reachable-Inv _ (turn {h = h} fires r _ _) =
      let inv = Reachable-Inv h r in
      if_cases Inv h.timer
        (λ _. record {
          early = inv.early;
          off = inv.off;
          trees = TreesOff-cons (saves h.current) h.asked (λ tree e. cc) inv.trees;
        })
        (λ _. inv)
  Reachable-Inv _ (turn {h = h} (sets patch) r _ _) =
      let inv = Reachable-Inv h r in record { early = inv.early; off = inv.off; trees = inv.trees }

-- While no render shows a tree with the changed-files filter on, no tree is restored with it, whatever
-- the saved session that was read says of the filter.
pub Reachable-restores_tree :
    (json : Session → Text) (h : SessionHook) (tree : RestoredTree)
    → Reachable json IsUnfiltered h
    → Memᴰ (restores_tree tree) h.asked
    → tree.changed_only ≡ false
Reachable-restores_tree json h tree r m = (Reachable-Inv json h r).trees tree m
