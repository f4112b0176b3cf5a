-- ===== src/EditorTabs.antt =====
-- frontend/src/lib/editorTabs.ts: the editor's tabs and what happens to one of them.
pub mod Clipboard
pub mod Strip
pub mod Conflict
use m6t.Common.{
  ℕ, Bool, true, false, not, ◌&&◌, ◌||◌, Option, none, some, [], if◌then◌else◌, maybe, Text,
  text_eq,
}
use m6t.Icons.{IconKind, kubernetes, helm, kustomize, actions, yaml, md}
use m6t.Paths.{base_name}

-- A file as the backend reads it.
pub record FileContent : Type 0 where
  pub content : Text
  pub crlf : Bool
  pub read_only : Bool
  pub mixed_eol : Bool
  pub size : ℕ

pub data EditorTabKind : Type 0 where
  yaml_file markdown text_file : EditorTabKind

pub data EditorTabStatus : Type 0 where
  loading ready error : EditorTabStatus

pub data EditorMode : Type 0 where
  preview edit : EditorMode

pub record EditorTab : Type 0 where
  pub key : Text
  pub project : Text
  pub root : Text
  pub path : Text
  pub title : Text
  pub kind : EditorTabKind
  pub mode : EditorMode
  pub blame : Bool
  pub status : EditorTabStatus
  pub content : Text
  pub baseline : Text
  pub crlf : Bool
  pub read_only : Bool
  pub mixed_eol : Bool
  pub size : ℕ
  pub conflict : Option Text
  pub saving : Bool
  pub failure : Option Text

-- `tab.status === "ready"`.
abbrev pub is_ready : EditorTabStatus → Bool
is_ready ready = true
is_ready _ = false

abbrev pub is_none : Option Text → Bool
is_none none = true
is_none (some t) = false

-- Whether a tab has edits not yet written to disk.
unfoldable pub is_dirty : EditorTab → Bool
is_dirty tab = is_ready tab.status && not (text_eq tab.content tab.baseline)

-- Whether a save is allowed right now.
unfoldable pub can_save : EditorTab → Bool
can_save tab = is_dirty tab && not tab.read_only && not tab.saving && is_none tab.conflict

-- The bucket that a tab uses; all five YAML icons are one.
unfoldable pub kind_from_icon : IconKind → EditorTabKind
kind_from_icon IconKind.yaml = yaml_file
kind_from_icon IconKind.kubernetes = yaml_file
kind_from_icon IconKind.helm = yaml_file
kind_from_icon IconKind.kustomize = yaml_file
kind_from_icon IconKind.actions = yaml_file
kind_from_icon IconKind.md = markdown
kind_from_icon _ = text_file

abbrev pub first_mode : EditorTabKind → EditorMode
first_mode markdown = preview
first_mode _ = edit

-- A tab that has not yet asked the backend for its content.
unfoldable pub new_tab : Text → Text → Text → Text → EditorTabKind → EditorTab
new_tab key project root path kind = record {
  key = key;
  project = project;
  root = root;
  path = path;
  title = base_name path;
  kind = kind;
  mode = first_mode kind;
  blame = false;
  status = loading;
  content = [];
  baseline = [];
  crlf = false;
  read_only = false;
  mixed_eol = false;
  size = 0;
  conflict = none;
  saving = false;
  failure = none;
}

unfoldable pub with_loaded : EditorTab → FileContent → EditorTab
with_loaded tab loaded = record tab {
  status = ready;
  content = loaded.content;
  baseline = loaded.content;
  crlf = loaded.crlf;
  read_only = loaded.read_only;
  mixed_eol = loaded.mixed_eol;
  size = loaded.size;
  conflict = none;
  failure = none;
}

unfoldable pub with_error : EditorTab → Text → EditorTab
with_error tab message = record tab { status = error; failure = some message }

unfoldable pub with_edit : EditorTab → Text → EditorTab
with_edit tab content =
    if tab.read_only then tab else record tab { content = content; failure = none }

unfoldable pub with_saving : EditorTab → EditorTab
with_saving tab = record tab { saving = true; failure = none }

-- A save of `saved`, the buffer that was written, succeeded.
unfoldable pub with_saved : EditorTab → Text → EditorTab
with_saved tab saved = record tab {
  baseline = saved;
  saving = false;
  conflict = none;
  failure = none;
}

unfoldable pub with_save_failed : EditorTab → Text → EditorTab
with_save_failed tab message = record tab { saving = false; failure = some message }

unfoldable pub with_reload_failed : EditorTab → Text → EditorTab
with_reload_failed tab message = record tab { failure = some message }

unfoldable pub with_mode : EditorTab → EditorMode → EditorTab
with_mode tab mode = record tab { mode = mode }

unfoldable pub with_blame : EditorTab → Bool → EditorTab
with_blame tab blame = record tab { blame = blame }

-- Whether a tab's blame entries describe the buffer on screen.
unfoldable pub blame_is_current : EditorTab → Bool
blame_is_current tab = is_ready tab.status && not (is_dirty tab)

-- The tab against the file's re-read content.
unfoldable pub with_external_change : EditorTab → FileContent → EditorTab
with_external_change tab loaded =
    if not (is_ready tab.status) || tab.saving
    then tab
    else if not (is_dirty tab)
    then with_loaded tab loaded
    else if text_eq loaded.content tab.baseline
    then tab
    else record tab { conflict = some loaded.content; crlf = loaded.crlf }

unfoldable pub resolve_keep_mine : EditorTab → EditorTab
resolve_keep_mine tab =
    maybe tab.conflict tab λ disk. record tab { baseline = disk; conflict = none }

unfoldable pub resolve_take_disk : EditorTab → EditorTab
resolve_take_disk tab =
    maybe tab.conflict tab λ disk. record tab { content = disk; baseline = disk; conflict = none }
