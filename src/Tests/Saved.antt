-- ===== src/Tests/Saved.antt =====
-- frontend/src/lib/session.ts at concrete inputs.
use m6t.Common.{◌≡◌, none, some, [], ◌∷◌, Text, text, text_eq, contains}
use m6t.Common.Int.{pos}
use m6t.EditorTabs
use m6t.EditorTabs.{EditorTab, yaml_file}
use m6t.Tabs.{TerminalTab, new_tab}
use m6t.Tree.{initial_tree}
use m6t.Workspace.{
  kept_names, empty_session, project_session, restored_editors, restored_terminals, restored_tree,
  LiveSession, live_record, next_session,
}
use m6t.Workspace.Records.{project_session-next_session}
use m6t.Workspace.RoundTrip.{kept_editors, restored-live_record}

abbrev terminal_in : Text → Text → TerminalTab
terminal_in key cwd = new_tab key (text "m6t") key cwd none

abbrev screen : LiveSession
screen = record {
  active_project = some (text "m6t");
  font_size = pos 14;
  sidebar = pos 300;
  terminal_height = pos 200;
  cluster = pos 260;
  editors =
      EditorTabs.new_tab (text "editor-1") (text "m6t") (text "/src/m6t") (text "a.yaml") yaml_file
      ∷ [];
  active_editor = some (text "editor-1");
  terminals = terminal_in (text "t-1") [] ∷ terminal_in (text "t-2") (text "/tmp") ∷ [];
  active_terminal = some (text "t-2");
  tree = initial_tree;
}

-- The project on screen is recorded as it is, and one that is no longer registered is dropped.
project_session-next_session_example :
    project_session
      (next_session empty_session screen (text "m6t" ∷ []) (text "m6t" ∷ text "k8s" ∷ []))
      (text "m6t")
    ≡ some (live_record (text "m6t") screen)
unfolding text_eq contains kept_names
project_session-next_session_example =
    project_session-next_session empty_session screen (text "m6t" ∷ [])
      (text "m6t" ∷ text "k8s" ∷ []) (text "m6t")

restored-live_record_example :
    (restored_editors (some (live_record (text "m6t") screen))
      ≡ record { files = kept_editors screen.editors; active = some (text "a.yaml") })
    × (restored_terminals (some (live_record (text "m6t") screen)) (text "/src/m6t") ≡ record {
      tabs =
          record { title = text "t-1"; cwd = text "/src/m6t" }
          ∷ record { title = text "t-2"; cwd = text "/tmp" }
          ∷ [];
      active = pos 1;
    })
    × (restored_tree (some (live_record (text "m6t") screen)) screen.tree.changed_only ≡ record {
      expanded = screen.tree.expanded;
      selected = none;
      show_hidden = screen.tree.show_hidden;
      changed_only = screen.tree.changed_only;
    })
unfolding text_eq initial_tree new_tab EditorTabs.new_tab
restored-live_record_example = restored-live_record (text "m6t") (text "/src/m6t") screen
