-- ===== src/Editors.antt =====
-- frontend/src/lib/useEditorTabs.ts: the editor strip's state, and its handlers cut where they wait
-- for the backend. The backend's answers are the arguments of the parts after the cut.
pub mod Run
pub mod Work
use m6t.Common.{
  ℕ, ◌+◌, Bool, false, not, ◌&&◌, Option, none, some, List, [], ◌∷◌, ◌++◌, map, if◌then◌else◌,
  or_else, maybe, filter, find, Text, text, text_eq, lookup, insert, contains,
}
use m6t.Paths.{parent_path}
use m6t.Icons.{icon_kind}
use m6t.EditorTabs.{
  FileContent, EditorTabKind, EditorMode, EditorTab, can_save, kind_from_icon, new_tab, with_loaded,
  with_error, with_edit, with_saving, with_saved, with_save_failed, with_reload_failed, with_mode,
  with_blame, with_external_change, resolve_keep_mine, resolve_take_disk,
}
use m6t.EditorTabs.Strip.{
  tabs_for_project, find_tab_key, map_tab, remove_tab, selection_after_close,
}
use m6t.Tabs.{decimal}

-- `strip` is what `strip.current` holds: the tabs as they were last committed, which the handlers
-- read; `setTabs` changes `tabs`.
pub record Editors : Type 0 where
  pub tabs : List EditorTab
  pub strip : List EditorTab
  pub active : List (Text × Option Text)
  pub keys : ℕ

unfoldable pub new_editors : Editors
new_editors = record { tabs = []; strip = []; active = []; keys = 0 }

-- The effect that follows a render.
unfoldable pub commit : Editors → Editors
commit e = record e { strip = e.tabs }

-- `setTabs((current) => mapTab(current, key, transform))`.
abbrev pub change_tab : Editors → Text → (EditorTab → EditorTab) → Editors
change_tab e key transform = record e { tabs = map_tab e.tabs key transform }

-- `current[project] ?? null`.
abbrev pub selected : List (Text × Option Text) → Text → Option Text
selected active project = maybe (lookup project active) none λ key. key

unfoldable pub active_key : Editors → Option Text → Option Text
active_key e active_project = maybe active_project none (selected e.active)

unfoldable pub select : Option Text → Editors → Text → Editors
select none e key = e
select (some project) e key = record e { active = insert project (some key) e.active }

abbrev pub key_at : ℕ → Text
key_at n = text "editor-" ++ decimal n

-- One round of the loop of `restore` up to its read, and the key of the tab to come.
unfoldable pub restore_next : Editors → Text → Text → Editors × Option Text
restore_next e project path =
    maybe (find_tab_key e.strip project path)
      (record e { keys = e.keys + 1 }, some (key_at (e.keys + 1))) (λ existing. (e, none))

module _ (lower : Text → Text) where
  abbrev pub kind_of : Text → EditorTabKind
  kind_of path = kind_from_icon (icon_kind lower path false)

  -- `open`; the second part is the key of the tab to load.
  unfoldable pub open_file : Editors → Text → Text → Text → Editors × Option Text
  open_file e project root path =
      let key = key_at (e.keys + 1) in
      maybe (find_tab_key e.strip project path)
        (
          record e {
            tabs = e.tabs ++ new_tab key project root path (kind_of path) ∷ [];
            active = insert project (some key) e.active;
            keys = e.keys + 1;
          },
          some key,
        )
        (λ existing. (record e { active = insert project (some existing) e.active }, none))

  -- The rest of the round, where the read succeeded.
  unfoldable pub restored : Editors → Text → Text → Text → Text → EditorMode → FileContent → Editors
  restored e key project root path mode loaded = record e {
    tabs =
        e.tabs
        ++ with_mode (with_loaded (new_tab key project root path (kind_of path)) loaded) mode ∷ [];
  }

-- The end of `restore`: the saved selection among what opened, each its key and path, or the first.
unfoldable pub restore_focus : Editors → Text → List (Text × Text) → Option Text → Editors
restore_focus e project [] saved_active = e
restore_focus e project (first ∷ opened) saved_active =
    let is_saved = λ (tab : Text × Text). maybe saved_active false (text_eq tab.1) in
    let focus = or_else (find is_saved (first ∷ opened)) first in
    record e { active = insert project (some focus.0) e.active }

-- The two ends of `load`.
unfoldable pub loaded_file : Editors → Text → FileContent → Editors
loaded_file e key loaded = change_tab e key λ tab. with_loaded tab loaded

unfoldable pub load_failed : Editors → Text → Text → Editors
load_failed e key message = change_tab e key λ tab. with_error tab message

unfoldable pub edit_buffer : Editors → Text → Text → Editors
edit_buffer e key content = change_tab e key λ tab. with_edit tab content

-- `save` up to its write; the second part is the tab to write, and none where it returns false.
unfoldable pub save : Editors → Text → Editors × Option EditorTab
save e key =
    maybe (find (λ tab. text_eq tab.key key) e.strip) (e, none)
      λ tab. if can_save tab then (change_tab e key with_saving, some tab) else (e, none)

-- The two ends of `save`.
unfoldable pub saved : Editors → Text → Text → Editors
saved e key written = change_tab e key λ tab. with_saved tab written

unfoldable pub save_failed : Editors → Text → Text → Editors
save_failed e key message = change_tab e key λ tab. with_save_failed tab message

unfoldable pub close_tab : Editors → Text → Editors
close_tab e key =
    record (maybe (find (λ tab. text_eq tab.key key) e.strip) e λ closing. record e {
      active =
          insert closing.project
            (selection_after_close (tabs_for_project e.strip (some closing.project)) key
              (selected e.active closing.project))
            e.active;
    }) { tabs = remove_tab e.tabs key }

unfoldable pub close_project : Editors → Text → Editors
close_project e project = record e {
  tabs = filter (λ tab. not (text_eq tab.project project)) e.tabs;
  active = filter (λ entry. not (text_eq entry.0 project)) e.active;
}

unfoldable pub set_mode : Editors → Text → EditorMode → Editors
set_mode e key mode = change_tab e key λ tab. with_mode tab mode

unfoldable pub set_blame : Editors → Text → Bool → Editors
set_blame e key blame = change_tab e key λ tab. with_blame tab blame

unfoldable pub keep_mine : Editors → Text → Editors
keep_mine e key = change_tab e key resolve_keep_mine

unfoldable pub take_disk : Editors → Text → Editors
take_disk e key = change_tab e key resolve_take_disk

-- The two ends of `reconcile`.
unfoldable pub reconciled : Editors → Text → FileContent → Editors
reconciled e key loaded = change_tab e key λ tab. with_external_change tab loaded

unfoldable pub reconcile_failed : Editors → Text → Text → Editors
reconcile_failed e key message = change_tab e key λ tab. with_reload_failed tab message

-- The open tabs that a change event concerns.
unfoldable pub tabs_in_changed_dirs : List EditorTab → Text → List Text → List EditorTab
tabs_in_changed_dirs tabs root wire_dirs =
    let changed = map (λ dir. if text_eq dir (text ".") then m6t.Paths.root else dir) wire_dirs in
    filter (λ tab. text_eq tab.root root && contains (parent_path tab.path) changed) tabs
