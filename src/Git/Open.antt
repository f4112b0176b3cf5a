-- ===== src/Git/Open.antt =====
-- frontend/src/lib/useGitStatus.ts: whose status is held, by what happened to the projects.
use m6t.Common.{
  ◌≡◌, refl, ◌∙◌, subst, Bool, true, false, ◌||◌, Option, none, some, List, ◌∷◌, if◌then◌else◌,
  arith, if_cases, All, All-map, Text, text_eq, contains, add, contains-add, contains-remove,
}
use m6t.Git.{Status}
use m6t.Git.Watch.{
  asked, ReadResult, status_read, read_failed, Watch, new_watch, begin_at, read_unless, read, shows,
  publish, next_round, read_ends, show_project, on_git, close_project,
}
use m6t.Git.Fresh.{
  Reachable, mounted, after, showing, refreshing, changing, answering, closing, IsCurrent,
  Reachable-IsFresh,
}

-- Of the times that the project came on screen and was closed, the latest is one that it came on
-- screen.
unfoldable pub is_open_after : Text → {w : Watch} → Reachable w → Bool
is_open_after root mounted = false
is_open_after root (after r (showing target)) =
    if shows target root then true else is_open_after root r
is_open_after root (after r (closing closed)) =
    if text_eq closed root then false else is_open_after root r
is_open_after root (after r _) = is_open_after root r

begin_at-held : (target : Option Text) (w : Watch) → (begin_at target w).held ≡ w.held
begin_at-held none w = refl
begin_at-held (some root) w = refl

read-held : (w : Watch) → (read w).held ≡ w.held
unfolding read
read-held w = from w.reading
  where
    from :
        (reading : Option Text)
        → (read_unless reading (record w { marks = asked ∷ w.marks })).held ≡ w.held
    from none = begin_at-held w.target (record w { marks = asked ∷ w.marks })
    from (some root) = refl

next_round-held : (w : Watch) → (next_round w).held ≡ w.held
next_round-held w =
    if_cases (λ (v : Watch). v.held ≡ w.held) w.stale (λ _. begin_at-held w.target w) (λ _. refl)

read_ends-held :
    (root : Text) (result : ReadResult) (w : Watch) → (read_ends root result w).held ≡ w.held
unfolding read_ends publish
read_ends-held root result w =
    if_cases (λ (v : Watch). (next_round v).held ≡ w.held) (contains root w.held)
      (λ _. next_round-held (publish root result w) ∙ published result) (λ _. next_round-held w)
  where
    published : (r : ReadResult) → (publish root r w).held ≡ w.held
    published (status_read status) = refl
    published (read_failed message) = refl

show_project-held :
    (target : Option Text) (w : Watch) (root : Text)
    → contains root (show_project target w).held ≡ true
    → (shows target root || contains root w.held) ≡ true
unfolding show_project
show_project-held none w root held = held
show_project-held (some target) w root held =
    let added : contains root (add target w.held) ≡ true =
      subst (λ (l : List Text). contains root l ≡ true) (read-held _) held in
    ground (arith, added, contains-add target root w.held)

Reachable-held :
    {w : Watch} (r : Reachable w) (root : Text)
    → contains root w.held ≡ true
    → is_open_after root r ≡ true
unfolding is_open_after new_watch contains on_git close_project
Reachable-held mounted root held = held
Reachable-held (after {w = w} r (showing target)) root held =
    ground (arith, show_project-held target w root held, Reachable-held r root)
Reachable-held (after {w = w} r refreshing) root held =
    Reachable-held r root (subst (λ (l : List Text). contains root l ≡ true) (read-held w) held)
Reachable-held (after {w = w} r (changing changed)) root held = Reachable-held r root (
    subst (λ (l : List Text). contains root l ≡ true)
      (if_cases (λ (v : Watch). v.held ≡ w.held) (shows w.target changed) (λ _. read-held w)
        (λ _. refl))
      held)
Reachable-held (after {w = w} r (answering answered result same)) root held =
    Reachable-held r root
      (subst (λ (l : List Text). contains root l ≡ true) (read_ends-held answered result w) held)
Reachable-held (after {w = w} r (closing closed)) root held =
    ground (arith, held, Reachable-held r root, contains-remove closed root w.held)

-- Whenever no read is in flight, the last read that began was of the active project, and nothing was
-- asked for since; and a status is held only of projects that came on screen and were not closed
-- since.
pub Reachable-IsCurrent :
    {w : Watch} (r : Reachable w)
    → (w.reading ≡ none → IsCurrent w) × All (λ entry. is_open_after entry.0 r ≡ true) w.statuses
Reachable-IsCurrent {w} r =
    let f = Reachable-IsFresh r in
    (
      λ idle. f.current (f.idle idle),
      All-map (λ (entry : Text × Status). contains entry.0 w.held ≡ true)
          (λ (entry : Text × Status). is_open_after entry.0 r ≡ true)
          (λ entry held. Reachable-held r entry.0 held) w.statuses f.kept,
    )
