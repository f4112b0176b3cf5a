-- ===== src/EditorTabs/Conflict.antt =====
-- frontend/src/lib/editorTabs.ts: a tab against changes of its file on disk.
use m6t.Common.{
  ◌≡◌, sym, subst, ◌≢◌, true, false, not, some, arith, Text, text_eq, text_eq_iff, text_eq_refl,
}
use m6t.EditorTabs.{
  FileContent, EditorTab, is_ready, is_dirty, can_save, with_loaded, with_edit, with_saving,
  with_saved, with_external_change, resolve_keep_mine, resolve_take_disk,
}

is_dirty-eq_true :
    (tab : EditorTab)
    → is_dirty tab ≡ true
    → (is_ready tab.status ≡ true) × (text_eq tab.content tab.baseline ≡ false)
unfolding is_dirty
is_dirty-eq_true tab h = ground (arith, h)

reported : EditorTab → FileContent → EditorTab
reported tab loaded = record tab { conflict = some loaded.content; crlf = loaded.crlf }

-- The branch of a real conflict, and that of a false alarm.
external_conflict :
    (tab : EditorTab) (loaded : FileContent)
    → is_dirty tab ≡ true
    → tab.saving ≡ false
    → loaded.content ≢ tab.baseline
    → with_external_change tab loaded ≡ reported tab loaded
unfolding with_external_change is_dirty reported
external_conflict tab loaded d s n =
    ground (arith, d, s, n, text_eq_iff loaded.content tab.baseline)

external_same :
    (tab : EditorTab) (loaded : FileContent)
    → is_dirty tab ≡ true
    → loaded.content ≡ tab.baseline
    → with_external_change tab loaded ≡ tab
unfolding with_external_change is_dirty
external_same tab loaded d e = ground (arith, d, e, text_eq_iff loaded.content tab.baseline)

unfoldable pub Unsettled : EditorTab → FileContent → EditorTab → Type 0
Unsettled tab loaded after =
    (can_save after ≡ false)
    × (after.content ≡ tab.content)
    × ((resolve_keep_mine after).content ≡ tab.content)
    × (is_dirty (resolve_keep_mine after) ≡ not (text_eq tab.content loaded.content))
    × ((resolve_take_disk after).content ≡ loaded.content)
    × (is_dirty (resolve_take_disk after) ≡ false)

reported-Unsettled :
    (tab : EditorTab) (loaded : FileContent)
    → is_dirty tab ≡ true
    → Unsettled tab loaded (reported tab loaded)
unfolding Unsettled reported resolve_keep_mine resolve_take_disk can_save is_dirty
reported-Unsettled tab loaded d = ground (arith, d, text_eq_refl loaded.content)

take_disk_lem :
    (tab : EditorTab) (disk : Text)
    → tab.conflict ≡ some disk
    → ((resolve_take_disk tab).content ≡ disk) × (is_dirty (resolve_take_disk tab) ≡ false)
unfolding resolve_take_disk is_dirty
take_disk_lem tab disk c = ground (arith, c, text_eq_refl disk)

-- Where a file changes under unsaved edits, no save being in flight: the tab cannot be saved and
-- keeps its buffer; keep-mine keeps the buffer, dirty exactly if it is not the file's new content;
-- take-disk shows the new content and leaves nothing to save.
pub with_external_change-Unsettled :
    (tab : EditorTab) (loaded : FileContent)
    → is_dirty tab ≡ true
    → tab.saving ≡ false
    → loaded.content ≢ tab.baseline
    → Unsettled tab loaded (with_external_change tab loaded)
with_external_change-Unsettled tab loaded d s n =
    subst (Unsettled tab loaded) (sym (external_conflict tab loaded d s n))
      (reported-Unsettled tab loaded d)

-- A save that lands while the user types on: the tab of a file that may be written is dirty exactly
-- if the buffer is no longer what was written, and what it shows is the newer buffer.
pub with_saved-with_edit :
    (tab : EditorTab) (buffer : Text)
    → can_save tab ≡ true
    → ((with_saved (with_edit (with_saving tab) buffer) tab.content).content ≡ buffer)
      × (is_dirty (with_saved (with_edit (with_saving tab) buffer) tab.content)
          ≡ not (text_eq buffer tab.content))
unfolding with_saved with_edit with_saving is_dirty can_save
with_saved-with_edit tab buffer h = ground (arith, h)

-- The change event of a tab's own save leaves the buffer and whether it is dirty, whatever the user
-- has typed since.
pub with_external_change-with_saved :
    (tab : EditorTab) (loaded : FileContent)
    → ((with_external_change (with_saved tab loaded.content) loaded).content ≡ tab.content)
      × (is_dirty (with_external_change (with_saved tab loaded.content) loaded)
          ≡ is_dirty (with_saved tab loaded.content))
unfolding with_external_change with_loaded with_saved is_dirty
with_external_change-with_saved tab loaded =
    ground (arith, text_eq_iff tab.content loaded.content, text_eq_refl loaded.content)

-- The code keeps a conflict whose file went back to the tab's baseline: after that re-read, take-disk
-- shows the content that was reported first and calls it saved, though the file does not hold it.
pub resolve_take_disk-ne-disk :
    (tab : EditorTab) (loaded : FileContent) (offered : Text)
    → is_dirty tab ≡ true
    → tab.conflict ≡ some offered
    → loaded.content ≡ tab.baseline
    → offered ≢ tab.baseline
    → ((resolve_take_disk (with_external_change tab loaded)).content ≢ loaded.content)
      × (is_dirty (resolve_take_disk (with_external_change tab loaded)) ≡ false)
resolve_take_disk-ne-disk tab loaded offered d c e n =
    subst
      (λ t.
        ((resolve_take_disk t).content ≢ loaded.content) × (is_dirty (resolve_take_disk t) ≡ false))
      (sym (external_same tab loaded d e)) (ground (arith, take_disk_lem tab offered c, e, n))
