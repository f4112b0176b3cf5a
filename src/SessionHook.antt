-- ===== src/SessionHook.antt =====
-- frontend/src/lib/useSession.ts: the saved session read, put back and written. What the other hooks hold
-- is what a render is given, and what is asked of them and of the store is listed.
pub mod Reached
pub mod Settled
pub mod Filter
use m6t.Common.{
  same_bool, Bool, true, false, not, ◌&&◌, ◌||◌, Option, none, some, List, [], ◌∷◌, map,
  if◌then◌else◌, or_else, maybe, length, any, ltb, Text, text_eq, contains, add,
}
use m6t.Common.Int.{ℤ, pos, min_ℤ, max_ℤ}
use m6t.Panes.{sidebar_default, terminal_default, cluster_default}
use m6t.EditorTabs.{EditorTab}
use m6t.Tabs.{TerminalTab}
use m6t.Tree.{TreeState, RestoredTree}
use m6t.Workspace.{
  ProjectSession, Session, empty_session, project_session, default_font_size, restored_workspace,
  RestoredEditors, restored_editors, RestoredTerminals, restored_terminals, restored_tree,
  LiveSession, next_session,
}

pub record WorkspaceSettings : Type 0 where
  pub font_size : ℤ
  pub sidebar : ℤ
  pub terminal_height : ℤ
  pub cluster : ℤ

unfoldable pub defaults : WorkspaceSettings
defaults = record {
  font_size = default_font_size;
  sidebar = sidebar_default;
  terminal_height = terminal_default;
  cluster = cluster_default;
}

-- What the other hooks hold in a render.
pub record Wiring : Type 0 where
  pub names : List Text
  pub active_name : Option Text
  pub active_path : Option Text
  pub editors : List EditorTab
  pub active_editor : Option Text
  pub terminals : List TerminalTab
  pub active_terminal : Option Text
  pub tree : TreeState

pub data Request : Type 0 where
  selects : Text → Request
  restores_tree : RestoredTree → Request
  restores_editors : Text → Text → RestoredEditors → Request
  restores_terminals : Text → RestoredTerminals → Request
  saves : Session → Request

-- What the hydration depends on.
pub record Dependencies : Type 0 where
  pub is_loaded : Bool
  pub restoring : Bool
  pub name : Option Text
  pub path : Option Text

-- `timer` says whether one is set, and `asked` lists every request, latest first.
pub record SessionHook : Type 0 where
  pub workspace : WorkspaceSettings
  pub loaded : Option Session
  pub restoring : Bool
  pub current : Session
  pub written : Session
  pub hydrated : List Text
  pub timer : Bool
  pub last : Dependencies
  pub asked : List Request

unfoldable pub new_hook : SessionHook
new_hook = record {
  workspace = defaults;
  loaded = none;
  restoring = true;
  current = empty_session;
  written = empty_session;
  hydrated = [];
  timer = false;
  last = record { is_loaded = false; restoring = true; name = none; path = none };
  asked = [];
}

abbrev pub ask : Request → SessionHook → SessionHook
ask request h = record h { asked = request ∷ h.asked }

-- The session is read: an unreadable one is an empty one.
unfoldable pub load : Option Session → SessionHook → SessionHook
load answer h =
    let state = or_else answer empty_session in
    let restored = restored_workspace state in
    record h {
      current = state;
      written = state;
      workspace = record {
        font_size = restored.font_size;
        sidebar = restored.sidebar;
        terminal_height = restored.terminal_height;
        cluster = restored.cluster;
      };
      loaded = some state;
    }

-- The saved project is selected, once the registry has answered.
abbrev pub select_saved : Session → List Text → SessionHook → SessionHook
select_saved state names h =
    let chosen = record h { restoring = false } in
    maybe (restored_workspace state).active_project chosen
      λ name. if any (text_eq name) names then ask (selects name) chosen else chosen

unfoldable pub restore_selection : Wiring → SessionHook → SessionHook
restore_selection w h =
    maybe h.loaded h
      λ state. if h.restoring && ltb 0 (length w.names) then select_saved state w.names h else h

abbrev pub same_text : Option Text → Option Text → Bool
same_text none none = true
same_text (some a) (some b) = text_eq a b
same_text _ _ = false

abbrev pub same_dependencies : Dependencies → Dependencies → Bool
same_dependencies a b =
    same_bool a.is_loaded b.is_loaded
    && same_bool a.restoring b.restoring
    && same_text a.name b.name
    && same_text a.path b.path

abbrev pub is_there {ℓ} : {A : Type ℓ} → Option A → Bool
is_there none = false
is_there (some a) = true

-- What a render's hydration depends on. `restoring` is the render's, which this one's effects may change.
abbrev pub dependencies : Wiring → SessionHook → Dependencies
dependencies w h = record {
  is_loaded = is_there h.loaded;
  restoring = h.restoring;
  name = w.active_name;
  path = w.active_path;
}

-- A project's saved state is put back, up to the `await`.
abbrev pub put_back : Text → Text → SessionHook → SessionHook
put_back name path h =
    let saved = project_session h.current name in
    ask (restores_editors name path (restored_editors saved))
      (ask (restores_tree (restored_tree saved (restored_workspace h.current).changed_only)) h)

-- The hydration, where a project is on screen.
abbrev pub hydrate_in : Option Text → Option Text → SessionHook → SessionHook
hydrate_in (some name) (some path) h = if contains name h.hydrated then h else put_back name path h
hydrate_in _ _ h = h

unfoldable pub hydrate : Wiring → Dependencies → SessionHook → SessionHook
hydrate w now h =
    if same_dependencies h.last now
    then h
    else let seen = record h { last = now } in
      if now.is_loaded && not now.restoring
      then hydrate_in w.active_name w.active_path seen
      else seen

-- The files are open: the terminals follow, from the record that was read before.
unfoldable pub hydrated_with : Text → Text → Option ProjectSession → SessionHook → SessionHook
hydrated_with name path saved h =
    let reopened = ask (restores_terminals name (restored_terminals saved path)) h in
    record reopened { hydrated = add name h.hydrated }

abbrev pub live_session : Wiring → WorkspaceSettings → LiveSession
live_session w workspace = record {
  active_project = w.active_name;
  font_size = workspace.font_size;
  sidebar = workspace.sidebar;
  terminal_height = workspace.terminal_height;
  cluster = workspace.cluster;
  editors = w.editors;
  active_editor = w.active_editor;
  terminals = w.terminals;
  active_terminal = w.active_terminal;
  tree = w.tree;
}

-- `json` is `JSON.stringify`, the platform's.
module _ (json : Session → Text) where
  unfoldable pub same_session : Session → Session → Bool
  same_session a b = text_eq (json a) (json b)

  -- The recording. It depends on all that it reads, and again on the same it would record the same.
  unfoldable pub record_live : Wiring → SessionHook → SessionHook
  record_live w h = maybe h.loaded h λ state.
      let next = next_session h.current (live_session w h.workspace) h.hydrated w.names in
      record h { current = next; timer = h.timer || not (same_session next h.written) }

  -- The effects of a render, in their order.
  unfoldable pub render : Wiring → SessionHook → SessionHook
  render w h = record_live w (hydrate w (dependencies w h) (restore_selection w h))

-- The timer goes off.
unfoldable pub fire : SessionHook → SessionHook
fire h =
    if h.timer then ask (saves h.current) (record h { timer = false; written = h.current }) else h

-- `Partial<WorkspaceSettings>`.
pub record WorkspacePatch : Type 0 where
  pub font_size : Option ℤ
  pub sidebar : Option ℤ
  pub terminal_height : Option ℤ
  pub cluster : Option ℤ

unfoldable pub set_workspace : WorkspacePatch → SessionHook → SessionHook
set_workspace patch h = record h {
  workspace = record {
    font_size = or_else patch.font_size h.workspace.font_size;
    sidebar = or_else patch.sidebar h.workspace.sidebar;
    terminal_height = or_else patch.terminal_height h.workspace.terminal_height;
    cluster = or_else patch.cluster h.workspace.cluster;
  };
}
