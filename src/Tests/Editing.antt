-- ===== src/Tests/Editing.antt =====
-- frontend/src/lib/editorTabs.ts and useEditorTabs.ts at concrete inputs.
use m6t.Common.{
  ◌≡◌, refl, ◌≢◌, ◌⊎◌, true, false, some, List, [], ◌∷◌, Memᴰ, arith, All, any, Text, text, text_eq,
  text_eq_iff,
}
use m6t.EditorTabs.{
  FileContent, yaml_file, EditorTab, is_dirty, can_save, new_tab, with_loaded, with_edit,
  with_external_change, resolve_take_disk,
}
use m6t.EditorTabs.Conflict.{Unsettled, with_external_change-Unsettled, resolve_take_disk-ne-disk}
use m6t.Tabs.{digits, decimal}
use m6t.EditorTabs.Clipboard.{format_size}
use m6t.Editors.{Editors}
use m6t.Editors.Run.{
  Event, committed, opening, saving_tab, save_lost, closing_tab, keeping_mine, reconcile_done, run,
}
use m6t.Editors.Work.{IsUnsaved, discards, on_disk, Holds, run-keeps_work}

abbrev file_with : Text → FileContent
file_with content = record {
  content = content;
  crlf = false;
  read_only = false;
  mixed_eol = false;
  size = 3;
}

abbrev opened_tab : EditorTab
opened_tab =
    with_loaded (new_tab (text "editor-1") (text "m6t") (text "/src/m6t") (text "a.yaml") yaml_file)
      (file_with (text "a"))

-- The user has typed "x"; the disk has "a".
abbrev dirty_tab : EditorTab
dirty_tab = with_edit opened_tab (text "x")

-- The disk has changed to "b" since.
abbrev torn_tab : EditorTab
torn_tab = with_external_change dirty_tab (file_with (text "b"))

text_ne : (s t : Text) → text_eq s t ≡ false → s ≢ t
text_ne s t h e = ground (arith, h, e, text_eq_iff s t)

dirty_tab-is_dirty : is_dirty dirty_tab ≡ true
unfolding is_dirty with_edit with_loaded new_tab text_eq
dirty_tab-is_dirty = refl

dirty_tab-saving : dirty_tab.saving ≡ false
unfolding with_edit with_loaded new_tab
dirty_tab-saving = refl

dirty_tab-can_save : can_save dirty_tab ≡ true
unfolding can_save is_dirty with_edit with_loaded new_tab text_eq
dirty_tab-can_save = refl

b-ne-baseline : text "b" ≢ dirty_tab.baseline
unfolding with_edit with_loaded new_tab text_eq
b-ne-baseline = text_ne (text "b") (text "a") refl

torn_tab-is_dirty : is_dirty torn_tab ≡ true
unfolding is_dirty with_external_change with_edit with_loaded new_tab text_eq
torn_tab-is_dirty = refl

torn_tab-conflict : (torn_tab.conflict ≡ some (text "b")) × (text "a" ≡ torn_tab.baseline)
unfolding is_dirty with_external_change with_edit with_loaded new_tab text_eq
torn_tab-conflict = (refl, refl)

b-ne-torn : text "b" ≢ torn_tab.baseline
unfolding is_dirty with_external_change with_edit with_loaded new_tab text_eq
b-ne-torn = text_ne (text "b") (text "a") refl

with_external_change-Unsettled_example : Unsettled dirty_tab (file_with (text "b")) torn_tab
with_external_change-Unsettled_example =
    with_external_change-Unsettled dirty_tab (file_with (text "b")) dirty_tab-is_dirty
      dirty_tab-saving b-ne-baseline

resolve_take_disk-ne-disk_example :
    ((resolve_take_disk (with_external_change torn_tab (file_with (text "a")))).content ≢ text "a")
    × (is_dirty (resolve_take_disk (with_external_change torn_tab (file_with (text "a")))) ≡ false)
resolve_take_disk-ne-disk_example =
    resolve_take_disk-ne-disk torn_tab (file_with (text "a")) (text "b") torn_tab-is_dirty
      torn_tab-conflict.0 torn_tab-conflict.1 b-ne-torn

abbrev key : Text
key = text "editor-1"

abbrev editing_one : Editors
editing_one = record { tabs = dirty_tab ∷ []; strip = dirty_tab ∷ []; active = []; keys = 1 }

abbrev busy : List Event
busy =
    saving_tab key
    ∷ committed
    ∷ save_lost key (text "disk full")
    ∷ opening (text "m6t") (text "/src/m6t") (text "b.md")
    ∷ reconcile_done key (file_with (text "b"))
    ∷ closing_tab (text "editor-2")
    ∷ keeping_mine key
    ∷ []

busy-All : All (λ event. discards key (text "m6t") event ≡ false) busy
unfolding discards text_eq
busy-All = (refl, (refl, (refl, (refl, (refl, (refl, (refl, tt)))))))

dirty_tab-IsUnsaved : IsUnsaved key (text "m6t") (text "x") dirty_tab
unfolding with_edit with_loaded new_tab text_eq
dirty_tab-IsUnsaved = record {
  same_key = refl;
  same_project = refl;
  shown = refl;
  kept = refl;
  differs = text_ne (text "a") (text "x") refl;
  conflicts = λ e. cc;
}

editing_one-Holds : Holds key (text "m6t") (text "x") editing_one
editing_one-Holds = (dirty_tab, Memᴰ.head refl, dirty_tab-IsUnsaved)

run-keeps_work_example :
    Holds key (text "m6t") (text "x") (run (λ path. path) editing_one busy)
    ⊎ (any (on_disk key (text "x")) busy ≡ true)
run-keeps_work_example =
    run-keeps_work key (text "m6t") (text "x") (λ path. path) busy editing_one busy-All
      editing_one-Holds

size_words : format_size 5505025 ≡ text "5.3 MB"
unfolding format_size decimal digits
size_words = refl
