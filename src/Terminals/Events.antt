-- ===== src/Terminals/Events.antt =====
-- frontend/src/lib/useTerminals.ts: what the panes and the window ask of the strips.
use m6t.Common.{ℕ, ◌≡◌, Option, some, Text}
use m6t.Terminal.Session.{Status}
use m6t.Workspace.{RestoredTerminals}
use m6t.Terminals.{
  TerminalStrip, new_strip, commit, select, on_status, create, restore, close, close_project,
  rename, restart, on_attach, on_detach,
}
use m6t.Terminals.Keys.{IsKeyed}
use m6t.Terminals.Selected.{HasTab, IsSelected}

-- What the panes and the strip of the window ask for.

pub data Event : Type 0 where
  selects : Option Text → Text → Event
  reports : Text → Status → Event
  creates : Text → Text → Option Text → Event
  restores : Text → RestoredTerminals → Event
  closes : Text → Event
  closes_project : Text → Event
  renames : Text → Text → Event
  restarts : Text → Event
  attaches detaches : Text → ℕ → Event

unfoldable pub handle : Event → TerminalStrip → TerminalStrip
handle (selects project key) t = select project key t
handle (reports key status) t = on_status key status t
handle (creates project cwd autorun) t = create project cwd autorun t
handle (restores project saved) t = restore project saved t
handle (closes key) t = close key t
handle (closes_project project) t = close_project project t
handle (renames key title) t = rename key title t
handle (restarts key) t = restart key t
handle (attaches key session) t = on_attach key session t
handle (detaches key session) t = on_detach key session t

-- The strip on screen is that of the active project, so that a tab of it is selected.
abbrev pub Allowed : TerminalStrip → Event → Type 0
Allowed t (selects (some project) key) = HasTab t.tabs project key
Allowed t _ = Unit

-- A render follows each event.
pub data Reachable : TerminalStrip → Type 0 where
  begin : Reachable new_strip
  turn :
      {t : TerminalStrip} (event : Event)
      → Reachable t
      → Allowed t event
      → Reachable (commit (handle event t))

pub record Inv (t : TerminalStrip) : Type 0 where
  pub committed : t.strip ≡ t.tabs
  pub keyed : IsKeyed t.keys t.tabs
  pub all : IsSelected t.tabs t.active
