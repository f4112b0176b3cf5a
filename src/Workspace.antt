-- ===== src/Workspace.antt =====
-- frontend/src/lib/session.ts: the saved workspace, and what it restores to. A field that a saved file
-- may lack, or that Go writes as null, is optional. Numbers are whole.
pub mod Records
pub mod RoundTrip
use m6t.Common.{
  Bool, true, false, ◌&&◌, Option, none, some, List, [], ◌∷◌, map, if◌then◌else◌, or_else, maybe,
  length, find, find_index, Text, text, text_eq, contains,
}
use m6t.Common.Int.{ℤ, pos, negsuc, min_ℤ, max_ℤ}
use m6t.Panes.{
  clamp_split, sidebar_default, sidebar_min, editor_min_width, terminal_default, terminal_min,
  editor_min_height, cluster_default, cluster_min,
}
use m6t.Common.{ltb, filter}
use m6t.EditorTabs.{EditorMode, preview, edit, EditorTab}
use m6t.Tabs.{TerminalTab}
use m6t.Tree.{TreeState, RestoredTree}

pub record SavedEditor : Type 0 where
  pub path : Text
  pub mode : Text

pub record SavedTerminal : Type 0 where
  pub title : Text
  pub cwd : Text

pub record ProjectSession : Type 0 where
  pub name : Text
  pub editors : Option (List SavedEditor)
  pub active_editor : Option Text
  pub terminals : Option (List SavedTerminal)
  pub active_terminal : Option ℤ
  pub tree_expanded : Option (List Text)
  pub tree_selected : Option Text
  pub tree_show_hidden : Option Bool

pub record Session : Type 0 where
  pub version : Option ℤ
  pub active_project : Option Text
  pub font_size : Option ℤ
  pub sidebar : Option ℤ
  pub terminal_height : Option ℤ
  pub cluster_width : Option ℤ
  pub changed_only : Option Bool
  pub projects : Option (List ProjectSession)

-- A session with nothing in it.
unfoldable pub empty_session : Session
empty_session = record {
  version = none;
  active_project = none;
  font_size = none;
  sidebar = none;
  terminal_height = none;
  cluster_width = none;
  changed_only = none;
  projects = some [];
}

abbrev pub has_name : Text → ProjectSession → Bool
has_name name saved = text_eq saved.name name

-- One project's saved record.
unfoldable pub project_session : Session → Text → Option ProjectSession
project_session state name = find (has_name name) (or_else state.projects [])

pub record RestoredWorkspace : Type 0 where
  pub active_project : Option Text
  pub font_size : ℤ
  pub sidebar : ℤ
  pub terminal_height : ℤ
  pub cluster : ℤ
  pub changed_only : Bool

-- `clampFontSize`.
unfoldable pub clamp_font_size : ℤ → ℤ
clamp_font_size px = min_ℤ (pos 22) (max_ℤ (pos 10) px)

abbrev pub default_font_size : ℤ
default_font_size = pos 13

-- A recorded size, or the default when there is none; zero is none.
unfoldable pub recorded : Option ℤ → ℤ → ℤ
recorded none fallback = fallback
recorded (some (pos n)) fallback = if ltb 0 n then pos n else fallback
recorded (some (negsuc n)) fallback = negsuc n

-- A size held to its minimum, with the window not measured.
abbrev pub held : ℤ → ℤ → ℤ → ℤ
held size min min_other =
    clamp_split size (record { min = min; min_other = min_other; total = pos 0 })

-- An empty text stands for none.
abbrev pub non_empty : Text → Option Text
non_empty s = if text_eq s [] then none else some s

-- The window-wide settings a session restores to.
unfoldable pub restored_workspace : Session → RestoredWorkspace
restored_workspace state = record {
  active_project = non_empty (or_else state.active_project []);
  font_size = clamp_font_size (recorded state.font_size default_font_size);
  sidebar = held (recorded state.sidebar sidebar_default) sidebar_min editor_min_width;
  terminal_height =
      held (recorded state.terminal_height terminal_default) terminal_min editor_min_height;
  cluster = held (recorded state.cluster_width cluster_default) cluster_min editor_min_width;
  changed_only = or_else state.changed_only false;
}

pub record RestoredEditor : Type 0 where
  pub path : Text
  pub mode : EditorMode

pub record RestoredEditors : Type 0 where
  pub files : List RestoredEditor
  pub active : Option Text

abbrev pub restored_editor : SavedEditor → RestoredEditor
restored_editor editor = record {
  path = editor.path;
  mode = if text_eq editor.mode (text "preview") then preview else edit;
}

-- The editor tabs a record reopens.
unfoldable pub restored_editors : Option ProjectSession → RestoredEditors
restored_editors saved = record {
  files = map restored_editor (maybe saved [] λ r. or_else r.editors []);
  active = maybe saved none λ r. non_empty (or_else r.active_editor []);
}

pub record RestoredTerminal : Type 0 where
  pub title : Text
  pub cwd : Text

pub record RestoredTerminals : Type 0 where
  pub tabs : List RestoredTerminal
  pub active : ℤ

abbrev pub restored_terminal : Text → SavedTerminal → RestoredTerminal
restored_terminal root terminal = record {
  title = terminal.title;
  cwd = if text_eq terminal.cwd [] then root else terminal.cwd;
}

-- `active >= 0 && active < length ? active : 0`.
abbrev pub index_or_first : ℤ → ℤ → ℤ
index_or_first (pos n) (pos count) = if ltb n count then pos n else pos 0
index_or_first _ _ = pos 0

-- The terminal tabs a record reopens.
unfoldable pub restored_terminals : Option ProjectSession → Text → RestoredTerminals
restored_terminals saved root =
    let tabs = map (restored_terminal root) (maybe saved [] λ r. or_else r.terminals []) in
    record {
      tabs = tabs;
      active =
          index_or_first (maybe saved (pos 0) λ r. or_else r.active_terminal (pos 0))
            (pos (length tabs));
    }

-- The tree shape a record restores.
unfoldable pub restored_tree : Option ProjectSession → Bool → RestoredTree
restored_tree saved changed_only = record {
  expanded = maybe saved [] λ r. or_else r.tree_expanded [];
  selected = non_empty (maybe saved [] λ r. or_else r.tree_selected []);
  show_hidden = maybe saved false λ r. or_else r.tree_show_hidden false;
  changed_only = changed_only;
}

-- The live workspace a snapshot is taken from.
pub record LiveSession : Type 0 where
  pub active_project : Option Text
  pub font_size : ℤ
  pub sidebar : ℤ
  pub terminal_height : ℤ
  pub cluster : ℤ
  pub editors : List EditorTab
  pub active_editor : Option Text
  pub terminals : List TerminalTab
  pub active_terminal : Option Text
  pub tree : TreeState

-- The texts that the modes are.
abbrev pub mode_text : EditorMode → Text
mode_text preview = text "preview"
mode_text edit = text "edit"

-- `key === wanted`, where nothing is wanted of null.
abbrev pub is_key : Option Text → Text → Bool
is_key none key = false
is_key (some wanted) key = text_eq key wanted

-- The active project's record, read off the live strips.
unfoldable pub live_record : Text → LiveSession → ProjectSession
live_record name live = record {
  name = name;
  editors = some (
      map (λ (tab : EditorTab). record { path = tab.path; mode = mode_text tab.mode })
        live.editors);
  active_editor = some (
      maybe (find (λ (tab : EditorTab). is_key live.active_editor tab.key) live.editors) []
        λ tab. tab.path);
  terminals =
      some
        (map (λ (tab : TerminalTab). record { title = tab.title; cwd = tab.cwd }) live.terminals);
  active_terminal = some (
      pos (
        or_else
          (find_index (λ (tab : TerminalTab). is_key live.active_terminal tab.key) live.terminals)
          0));
  tree_expanded = some live.tree.expanded;
  tree_selected = some (or_else live.tree.selected []);
  tree_show_hidden = some live.tree.show_hidden;
}

-- One project's record: what is on screen if this is the project on screen, and what was last
-- recorded otherwise.
unfoldable pub record_for : Text → Session → LiveSession → List Text → Option ProjectSession
record_for name previous live hydrated =
    if maybe live.active_project false (text_eq name) && contains name hydrated
    then some (live_record name live)
    else project_session previous name

-- `filter` of the records that are there.
unfoldable pub records_for : List Text → Session → LiveSession → List Text → List ProjectSession
records_for [] previous live hydrated = []
records_for (name ∷ names) previous live hydrated =
    let rest = records_for names previous live hydrated in
    maybe (record_for name previous live hydrated) rest λ saved. saved ∷ rest

-- The projects that keep a record.
unfoldable pub kept_names : Session → List Text → List Text
kept_names previous registered =
    if ltb 0 (length registered)
    then registered
    else map (λ (saved : ProjectSession). saved.name) (or_else previous.projects [])

-- The session to save, given the last one and what is on screen now.
unfoldable pub next_session : Session → LiveSession → List Text → List Text → Session
next_session previous live hydrated registered = record {
  version = previous.version;
  active_project = some (or_else live.active_project []);
  font_size = some live.font_size;
  sidebar = some live.sidebar;
  terminal_height = some live.terminal_height;
  cluster_width = some live.cluster;
  changed_only = some live.tree.changed_only;
  projects = some (records_for (kept_names previous registered) previous live hydrated);
}
