-- ===== src/Editors/Work.antt =====
-- frontend/src/lib/useEditorTabs.ts: no unsaved buffer is lost but by its own user.
use m6t.Common.{
  ◌≡◌, ap, ◌≢◌, ◌⊎◌, inl, inr, Bool, true, false, ◌&&◌, Option, none, some, List, [], ◌∷◌, ◌++◌,
  map, Memᴰ, arith, if◌then◌else◌, if_cases, maybe_cases, All, find, any, filter-Memᴰ, Text,
  text_eq, text_eq_iff,
}
use m6t.EditorTabs.{
  FileContent, ready, EditorTab, is_dirty, can_save, with_saving, with_saved, with_save_failed,
  with_reload_failed, with_mode, with_blame, with_external_change, resolve_keep_mine,
}
use m6t.EditorTabs.Strip.{find_tab_key, map_tab, remove_tab}
use m6t.Editors.{
  Editors, commit, change_tab, select, restore_next, open_file, restored, restore_focus,
  loaded_file, load_failed, edit_buffer, save, saved, save_failed, close_tab, close_project,
  set_mode, set_blame, keep_mine, take_disk, reconciled, reconcile_failed,
}
use m6t.Editors.Run.{
  Event, committed, selecting, opening, load_done, load_lost, restoring, restore_done, focusing,
  editing, saving_tab, save_done, save_lost, closing_tab, closing_project, mode_chosen,
  blame_chosen, keeping_mine, taking_disk, reconcile_done, reconcile_lost, step, run,
}

-- A tab that holds `buffer`, which is neither on disk nor what disk was last seen to hold.
pub record IsUnsaved (key project buffer : Text) (tab : EditorTab) : Type 0 where
  pub same_key : tab.key ≡ key
  pub same_project : tab.project ≡ project
  pub shown : tab.status ≡ ready
  pub kept : tab.content ≡ buffer
  pub differs : tab.baseline ≢ buffer
  pub conflicts : tab.conflict ≢ some buffer

-- What the user does about the tab of this key, and the load that only a new tab waits for.
unfoldable pub discards : Text → Text → Event → Bool
discards key project (editing k content) = text_eq k key
discards key project (taking_disk k) = text_eq k key
discards key project (closing_tab k) = text_eq k key
discards key project (closing_project p) = text_eq p project
discards key project (load_done k loaded) = text_eq k key
discards key project (load_lost k message) = text_eq k key
discards key project _ = false

-- The buffer was on disk: a write of it succeeded, or a read of the tab's path gave it.
unfoldable pub on_disk : Text → Text → Event → Bool
on_disk key buffer (save_done k written) = text_eq k key && text_eq written buffer
on_disk key buffer (reconcile_done k loaded) = text_eq k key && text_eq loaded.content buffer
on_disk key buffer _ = false

abbrev pub Holds : Text → Text → Text → Editors → Type 0
Holds key project buffer e = (tab : EditorTab) × Memᴰ tab e.tabs × IsUnsaved key project buffer tab

module _ (key project buffer : Text) where
  with_saving_lem :
      (tab : EditorTab)
      → IsUnsaved key project buffer tab
      → IsUnsaved key project buffer (with_saving tab)
  unfolding with_saving
  with_saving_lem tab u = ground (arith, u)

  with_saved_lem :
      (tab : EditorTab) (written : Text)
      → IsUnsaved key project buffer tab
      → IsUnsaved key project buffer (with_saved tab written) ⊎ (text_eq written buffer ≡ true)
  unfolding with_saved
  with_saved_lem tab written u = ground (arith, u, text_eq_iff written buffer)

  keep_mine_lem :
      (tab : EditorTab)
      → IsUnsaved key project buffer tab
      → IsUnsaved key project buffer (resolve_keep_mine tab)
  unfolding resolve_keep_mine
  keep_mine_lem tab u = ground (arith, u)

  external_lem :
      (tab : EditorTab) (loaded : FileContent)
      → IsUnsaved key project buffer tab
      → IsUnsaved key project buffer (with_external_change tab loaded)
        ⊎ (text_eq loaded.content buffer ≡ true)
  unfolding with_external_change is_dirty
  external_lem tab loaded u = ground (
    arith,
    u,
    text_eq_iff loaded.content buffer,
    text_eq_iff tab.content tab.baseline,
    text_eq_iff loaded.content tab.baseline,
  )

  mem_map :
      (f : EditorTab → EditorTab) (tabs : List EditorTab) {tab : EditorTab}
      → Memᴰ tab tabs
      → Memᴰ (f tab) (map f tabs)
  mem_map f [] m = elim m [ ]
  mem_map f (t ∷ tabs) (Memᴰ.head same) = Memᴰ.head (ap f same)
  mem_map f (t ∷ tabs) (Memᴰ.tail m) = Memᴰ.tail (mem_map f tabs m)

  mem_append :
      (tabs new : List EditorTab) {tab : EditorTab} → Memᴰ tab tabs → Memᴰ tab (tabs ++ new)
  mem_append [] new m = elim m [ ]
  mem_append (t ∷ tabs) new (Memᴰ.head same) = Memᴰ.head same
  mem_append (t ∷ tabs) new (Memᴰ.tail m) = Memᴰ.tail (mem_append tabs new m)

  -- A change of the tabs of one key, where it keeps the buffer or ends in `D`.
  change_lem :
      (D : Type 0) (e : Editors) (k : Text) (f : EditorTab → EditorTab)
      → Holds key project buffer e
      → ((tab : EditorTab)
          → tab.key ≡ k
          → IsUnsaved key project buffer tab
          → IsUnsaved key project buffer (f tab) ⊎ D)
      → Holds key project buffer (change_tab e k f) ⊎ D
  unfolding map_tab
  change_lem D e k f (tab, m, u) h = elim changed [
    | inl v ↦ inl (here tab, mem_map here e.tabs m, v)
    | inr d ↦ inr d
  ]
    where
      here : EditorTab → EditorTab
      here t = if text_eq t.key k then f t else t

      changed : IsUnsaved key project buffer (here tab) ⊎ D
      changed =
          if_cases (λ t. IsUnsaved key project buffer t ⊎ D) (text_eq tab.key k)
            (λ same. h tab ((text_eq_iff tab.key k).0 same) u) (λ _. inl u)

  other_key :
      {A : Type 0} (tab : EditorTab) (k : Text)
      → text_eq k key ≡ false
      → tab.key ≡ k
      → IsUnsaved key project buffer tab
      → A
  other_key tab k d same u = absurd (ground (arith, d, same, u.same_key, text_eq_iff k key))

  on_disk_of :
      (tab : EditorTab) (k : Text) {b : Bool}
      → tab.key ≡ k
      → IsUnsaved key project buffer tab
      → b ≡ true
      → (text_eq k key && b) ≡ true
  on_disk_of tab k same u h = ground (arith, h, same, u.same_key, text_eq_iff k key)

  step-IsUnsaved :
      (lower : Text → Text) (e : Editors) (event : Event)
      → discards key project event ≡ false
      → Holds key project buffer e
      → Holds key project buffer (step lower e event) ⊎ (on_disk key buffer event ≡ true)
  unfolding discards on_disk step commit select open_file restore_next restored restore_focus
      loaded_file load_failed edit_buffer save saved save_failed close_tab close_project set_mode
      set_blame keep_mine take_disk reconciled reconcile_failed with_mode with_blame
      with_save_failed with_reload_failed remove_tab
  step-IsUnsaved lower e committed d h = inl h
  step-IsUnsaved lower e (selecting none k) d h = inl h
  step-IsUnsaved lower e (selecting (some p) k) d h = inl h
  step-IsUnsaved lower e (opening p r q) d (tab, m, u) = inl (
      maybe_cases (λ (r : Editors × Option Text). Holds key project buffer r.0)
        (find_tab_key e.strip p q) (λ _. (tab, mem_append e.tabs _ m, u)) (λ _ _. (tab, m, u)))
  step-IsUnsaved lower e (load_done k loaded) d h =
      change_lem _ e k _ h λ tab same u. other_key tab k d same u
  step-IsUnsaved lower e (load_lost k message) d h =
      change_lem _ e k _ h λ tab same u. other_key tab k d same u
  step-IsUnsaved lower e (restoring p q) d (tab, m, u) = inl (
      maybe_cases (λ (r : Editors × Option Text). Holds key project buffer r.0)
        (find_tab_key e.strip p q) (λ _. (tab, m, u)) (λ _ _. (tab, m, u)))
  step-IsUnsaved lower e (restore_done k p r q mode loaded) d (tab, m, u) =
      inl (tab, mem_append e.tabs _ m, u)
  step-IsUnsaved lower e (focusing p [] a) d h = inl h
  step-IsUnsaved lower e (focusing p (first ∷ opened) a) d h = inl h
  step-IsUnsaved lower e (editing k content) d h =
      change_lem _ e k _ h λ tab same u. other_key tab k d same u
  step-IsUnsaved lower e (saving_tab k) d h =
      maybe_cases Kept (find (λ tab. text_eq tab.key k) e.strip) (λ _. inl h)
        (λ tab _. if_cases Kept (can_save tab) (λ _. starts) (λ _. inl h))
    where
      Kept : Editors × Option EditorTab → Type 0
      Kept r = Holds key project buffer r.0 ⊎ (false ≡ true)

      starts : Holds key project buffer (change_tab e k with_saving) ⊎ (false ≡ true)
      starts = change_lem _ e k with_saving h λ tab same u. inl (with_saving_lem tab u)
  step-IsUnsaved lower e (save_done k written) d h = change_lem _ e k _ h λ tab same u.
      elim (with_saved_lem tab written u) [
        | inl v ↦ inl v
        | inr w ↦ inr (on_disk_of tab k same u w)
      ]
  step-IsUnsaved lower e (save_lost k message) d h =
      change_lem _ e k _ h λ tab same u. inl (ground (arith, u))
  step-IsUnsaved lower e (closing_tab k) d (tab, m, u) = inl (
    tab,
    filter-Memᴰ _ e.tabs (ground (arith, d, u.same_key, text_eq_iff k key, text_eq_iff tab.key k))
        m,
    u,
  )
  step-IsUnsaved lower e (closing_project p) d (tab, m, u) = inl (
    tab,
    filter-Memᴰ _ e.tabs
        (ground (arith, d, u.same_project, text_eq_iff p project, text_eq_iff tab.project p)) m,
    u,
  )
  step-IsUnsaved lower e (mode_chosen k mode) d h =
      change_lem _ e k _ h λ tab same u. inl (ground (arith, u))
  step-IsUnsaved lower e (blame_chosen k blame) d h =
      change_lem _ e k _ h λ tab same u. inl (ground (arith, u))
  step-IsUnsaved lower e (keeping_mine k) d h =
      change_lem _ e k _ h λ tab same u. inl (keep_mine_lem tab u)
  step-IsUnsaved lower e (taking_disk k) d h =
      change_lem _ e k _ h λ tab same u. other_key tab k d same u
  step-IsUnsaved lower e (reconcile_done k loaded) d h = change_lem _ e k _ h λ tab same u.
      elim (external_lem tab loaded u) [ inl v ↦ inl v | inr w ↦ inr (on_disk_of tab k same u w) ]
  step-IsUnsaved lower e (reconcile_lost k message) d h =
      change_lem _ e k _ h λ tab same u. inl (ground (arith, u))

  -- Work that is not on disk stays on screen. A tab that shows a buffer other than what is known to
  -- be on disk shows it still after any events, or else a write of that very buffer has succeeded or
  -- a read of the file has given it; the events are any but an edit of that tab, the user's choice of
  -- the disk's version for it, its closing or its project's, and the end of a first load of it.
  pub run-keeps_work :
      (lower : Text → Text) (events : List Event) (e : Editors)
      → All (λ event. discards key project event ≡ false) events
      → Holds key project buffer e
      → Holds key project buffer (run lower e events) ⊎ (any (on_disk key buffer) events ≡ true)
  unfolding run
  run-keeps_work lower [] e h held = inl held
  run-keeps_work lower (event ∷ events) e (h, hs) held =
      elim (step-IsUnsaved lower e event h held) [
        | inl still ↦ elim (run-keeps_work lower events (step lower e event) hs still) [
          | inl v ↦ inl v
          | inr w ↦ inr (ground (arith, w))
        ]
        | inr w ↦ inr (ground (arith, w))
      ]
