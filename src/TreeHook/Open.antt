-- ===== src/TreeHook/Open.antt =====
-- frontend/src/lib/useFileTree.ts: whose trees are kept, by what happened to the projects.
use m6t.Common.{
  ◌≡◌, refl, ap, ◌∙◌, subst, Bool, true, false, Option, none, some, List, [], ◌∷◌, arith,
  if◌then◌else◌, if_cases, or_else, Text, text_eq, lookup, contains, add, contains-add,
  contains-remove,
}
use m6t.Tree.{TreeState, open_dirs}
use m6t.TreeHook.{
  TreeHook, new_hook, commit, update_tree, same_project, hold, show_project, close_project,
}
use m6t.TreeHook.Touched.{Touched, done, asks, updates, list_all-Touched}
use m6t.TreeHook.Events.{Event, handle, target, Reachable, shows, closes, begin, turn}
use m6t.TreeHook.Moves.{IsPlain, Moves, handle-Moves}
use m6t.TreeHook.Reached.{Reachable-Inv, event_cases}

-- The hook after the events, latest first, each followed by a render.
unfoldable pub run : (Text → Text) → List Event → TreeHook
run lower [] = new_hook
run lower (event ∷ events) = commit (handle lower event (run lower events))

-- Of the times that the project came on screen and was closed, the latest is one that it came on
-- screen.
unfoldable pub is_open_after : Text → List Event → Bool
is_open_after project [] = false
is_open_after project (shows shown ∷ events) =
    if same_project shown (some project) then true else is_open_after project events
is_open_after project (closes closed ∷ events) =
    if text_eq closed project then false else is_open_after project events
is_open_after project (event ∷ events) = is_open_after project events

run-Reachable : (lower : Text → Text) (events : List Event) → Reachable lower (run lower events)
unfolding run
run-Reachable lower [] = begin
run-Reachable lower (event ∷ events) = turn event (run-Reachable lower events)

Touched-held : (project : Text) (h u : TreeHook) → Touched project h u → u.held ≡ h.held
unfolding update_tree
Touched-held project h _ done = refl
Touched-held project h _ (asks {u = u} request t) = Touched-held project h u t
Touched-held project h _ (updates {u = u} change t) =
    if_cases (λ (v : TreeHook). v.held ≡ h.held) (contains project u.held)
      (λ _. Touched-held project h u t) (λ _. Touched-held project h u t)

Moves-held : (project : Option Text) (h u : TreeHook) → Moves project h u → u.held ≡ h.held
Moves-held none h u m = ap (λ (v : TreeHook). v.held) m
Moves-held (some project) h u m = Touched-held project h u m

is_open_after-plain :
    (project : Text) (event : Event) (events : List Event)
    → IsPlain event
    → is_open_after project (event ∷ events) ≡ is_open_after project events
unfolding is_open_after
is_open_after-plain project (shows shown) events plain = absurd plain
is_open_after-plain project (closes closed) events plain = absurd plain
is_open_after-plain project event events plain = refl

hold-held :
    (shown : Option Text) (h : TreeHook) (project : Text)
    → same_project shown (some project) ≡ false
    → contains project (hold shown h).held ≡ true
    → contains project h.held ≡ true
hold-held none h project apart held = held
hold-held (some root) h project apart held =
    let start = record h { held = add root h.held } in
    let kept : contains project (add root h.held) ≡ true =
      subst (λ (l : List Text). contains project l ≡ true)
        (Touched-held root start _
          (list_all-Touched root (or_else (open_dirs h.state) []) start start done))
        held in
    ground (arith, apart, kept, contains-add root project h.held)

-- Of what an event leaves held, either it came on screen by the event, or it was held before and was
-- not closed by it.
shows-open :
    (shown : Option Text) (events : List Event) (h : TreeHook) (project : Text)
    → (contains project h.held ≡ true → is_open_after project events ≡ true)
    → contains project (show_project shown h).held ≡ true
    → is_open_after project (shows shown ∷ events) ≡ true
unfolding is_open_after show_project commit
shows-open shown events h project before =
    if_cases (λ b. contains project (show_project shown h).held ≡ true → b ≡ true)
      (same_project shown (some project)) (λ _ _. refl)
      (λ apart held. before (
        if_cases (λ (u : TreeHook). contains project u.held ≡ true → contains project h.held ≡ true)
          (same_project h.project shown) (λ _ kept. kept)
          (λ _ kept. hold-held shown _ project apart kept) held))

closes-open :
    (closed : Text) (events : List Event) (h : TreeHook) (project : Text)
    → (contains project h.held ≡ true → is_open_after project events ≡ true)
    → contains project (close_project closed h).held ≡ true
    → is_open_after project (closes closed ∷ events) ≡ true
unfolding is_open_after close_project
closes-open closed events h project before held =
    ground (arith, held, before, contains-remove closed project h.held)

event-open :
    (lower : Text → Text) (event : Event) (events : List Event) (h : TreeHook) (project : Text)
    → (contains project h.held ≡ true → is_open_after project events ≡ true)
    → contains project (handle lower event h).held ≡ true
    → is_open_after project (event ∷ events) ≡ true
unfolding handle
event-open lower event events h project before =
    event_cases
      (λ e.
        contains project (handle lower e h).held ≡ true → is_open_after project (e ∷ events) ≡ true)
      (λ shown. shows-open shown events h project before)
      (λ closed. closes-open closed events h project before)
      (λ e plain held.
        is_open_after-plain project e events plain
        ∙ before (
            subst (λ (l : List Text). contains project l ≡ true)
              (Moves-held (target h.project e) h (handle lower e h) (handle-Moves lower e h plain))
              held))
      event

run-held :
    (lower : Text → Text) (events : List Event) (project : Text)
    → contains project (run lower events).held ≡ true
    → is_open_after project events ≡ true
unfolding run is_open_after new_hook contains commit
run-held lower [] project held = held
run-held lower (event ∷ events) project held =
    event-open lower event events (run lower events) project (run-held lower events project) held

-- Whatever was asked and in whatever order the answers came, those to a project that was closed
-- meanwhile among them, a tree is stored only for a project that came on screen and was not closed
-- since.
pub run-open :
    (lower : Text → Text) (events : List Event) (project : Text) (tree : TreeState)
    → lookup project (run lower events).trees ≡ some tree
    → is_open_after project events ≡ true
run-open lower events project tree stored =
    run-held lower events project (
      (Reachable-Inv lower (run lower events) (run-Reachable lower events)).kept project tree
        stored)
