-- ===== src/Editors/Run.antt =====
-- frontend/src/lib/useEditorTabs.ts: what happens to the editor strip, one handler at a time.
use m6t.Common.{Bool, Option, List, [], ◌∷◌, Text}
use m6t.EditorTabs.{FileContent, EditorMode}
use m6t.Editors.{
  Editors, commit, select, restore_next, open_file, restored, restore_focus, loaded_file,
  load_failed, edit_buffer, save, saved, save_failed, close_tab, close_project, set_mode, set_blame,
  keep_mine, take_disk, reconciled, reconcile_failed,
}

pub data Event : Type 0 where
  committed : Event
  selecting : Option Text → Text → Event
  opening : Text → Text → Text → Event
  load_done : Text → FileContent → Event
  load_lost : Text → Text → Event
  restoring : Text → Text → Event
  restore_done : Text → Text → Text → Text → EditorMode → FileContent → Event
  focusing : Text → List (Text × Text) → Option Text → Event
  editing : Text → Text → Event
  saving_tab : Text → Event
  save_done : Text → Text → Event
  save_lost : Text → Text → Event
  closing_tab : Text → Event
  closing_project : Text → Event
  mode_chosen : Text → EditorMode → Event
  blame_chosen : Text → Bool → Event
  keeping_mine : Text → Event
  taking_disk : Text → Event
  reconcile_done : Text → FileContent → Event
  reconcile_lost : Text → Text → Event

module _ (lower : Text → Text) where
  unfoldable pub step : Editors → Event → Editors
  step e committed = commit e
  step e (selecting project key) = select project e key
  step e (opening project root path) = (open_file lower e project root path).0
  step e (load_done key loaded) = loaded_file e key loaded
  step e (load_lost key message) = load_failed e key message
  step e (restoring project path) = (restore_next e project path).0
  step e (restore_done key project root path mode loaded) =
      restored lower e key project root path mode loaded
  step e (focusing project opened saved_active) = restore_focus e project opened saved_active
  step e (editing key content) = edit_buffer e key content
  step e (saving_tab key) = (save e key).0
  step e (save_done key written) = saved e key written
  step e (save_lost key message) = save_failed e key message
  step e (closing_tab key) = close_tab e key
  step e (closing_project project) = close_project e project
  step e (mode_chosen key mode) = set_mode e key mode
  step e (blame_chosen key blame) = set_blame e key blame
  step e (keeping_mine key) = keep_mine e key
  step e (taking_disk key) = take_disk e key
  step e (reconcile_done key loaded) = reconciled e key loaded
  step e (reconcile_lost key message) = reconcile_failed e key message

  unfoldable pub run : Editors → List Event → Editors
  run e [] = e
  run e (event ∷ events) = run (step e event) events
