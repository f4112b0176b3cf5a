-- ===== src/SessionHook/Reached.antt =====
-- frontend/src/lib/useSession.ts: the events of a session's life.
use m6t.Common.{◌≡◌, Option, none, Text}
use m6t.Workspace.{ProjectSession, Session}
use m6t.SessionHook.{
  Wiring, WorkspacePatch, SessionHook, new_hook, load, hydrated_with, render, fire, set_workspace,
}

pub data Event : Type 0 where
  loads : Option Session → Event
  renders : Wiring → Event
  hydrates : Text → Text → Option ProjectSession → Event
  fires : Event
  sets : WorkspacePatch → Event

unfoldable pub handle : (Session → Text) → Event → SessionHook → SessionHook
handle json (loads answer) h = load answer h
handle json (renders w) h = render json w h
handle json (hydrates name path saved) h = hydrated_with name path saved h
handle json fires h = fire h
handle json (sets patch) h = set_workspace patch h

-- The store is read once.
abbrev pub Allowed : SessionHook → Event → Type 0
Allowed h (loads answer) = h.loaded ≡ none
Allowed h _ = Unit

-- A hook that events satisfying `P` reach.
pub data Reachable (json : Session → Text) (P : Event → Type 0) : SessionHook → Type 0 where
  begin : Reachable json P new_hook
  turn :
      {h : SessionHook} (event : Event)
      → Reachable json P h
      → Allowed h event
      → P event
      → Reachable json P (handle json event h)
