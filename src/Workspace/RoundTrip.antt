-- ===== src/Workspace/RoundTrip.antt =====
-- frontend/src/lib/session.ts: what is saved of a workspace is what comes back.
use m6t.Common.{
  ℕ, suc, ◌<◌, ◌≡◌, refl, ap, ◌∙◌, inl, inr, Bool, Option, none, some, List, [], ◌∷◌, map, arith,
  if◌then◌else◌, or_else, Bool-cases, Option-cases, maybe, length, find, find_index, Text, text,
  text_eq,
}
use m6t.Common.Int.{ℤ, pos, negsuc, ◌≤ℤ◌}
use m6t.EditorTabs.{EditorMode, preview, edit, EditorTab}
use m6t.Tabs.{TerminalTab}
use m6t.Panes.{
  sidebar_min, sidebar_default, editor_min_width, editor_min_height, terminal_default,
  cluster_default, terminal_min, cluster_min,
}
use m6t.Panes.Laws.{clamp_split_fixed}
use m6t.Workspace.{
  Session, clamp_font_size, default_font_size, recorded, held, non_empty, restored_workspace,
  RestoredEditor, restored_editor, restored_editors, RestoredTerminal, restored_terminal,
  index_or_first, restored_terminals, restored_tree, LiveSession, mode_text, is_key, live_record,
  next_session,
}

restored_mode :
    (mode : EditorMode)
    → (if text_eq (mode_text mode) (text "preview") then preview else edit) ≡ mode
unfolding text_eq
restored_mode preview = refl
restored_mode edit = refl

-- What the strips hold that a session keeps.
abbrev pub kept_editors : List EditorTab → List RestoredEditor
kept_editors tabs = map (λ (tab : EditorTab). record { path = tab.path; mode = tab.mode }) tabs

abbrev pub kept_terminals : Text → List TerminalTab → List RestoredTerminal
kept_terminals root tabs =
    map
      (λ (tab : TerminalTab). record {
        title = tab.title;
        cwd = if text_eq tab.cwd [] then root else tab.cwd;
      })
      tabs

-- The path of the active editor tab, and the place of the active terminal, or the first.
abbrev pub shown_path : LiveSession → Option Text
shown_path live =
    maybe (find (λ (tab : EditorTab). is_key live.active_editor tab.key) live.editors) none
      λ tab. non_empty tab.path

abbrev pub shown_terminal : LiveSession → ℕ
shown_terminal live =
    or_else (find_index (λ (tab : TerminalTab). is_key live.active_terminal tab.key) live.terminals)
      0

map_editors :
    (tabs : List EditorTab)
    → map restored_editor
        (map (λ (tab : EditorTab). record { path = tab.path; mode = mode_text tab.mode }) tabs)
      ≡ kept_editors tabs
map_editors [] = refl
map_editors (tab ∷ tabs) =
    ap
      (λ (mode : EditorMode).
        record { path = tab.path; mode = mode }
        ∷ map restored_editor
            (map (λ (t : EditorTab). record { path = t.path; mode = mode_text t.mode }) tabs))
      (restored_mode tab.mode)
    ∙ ap (λ r. record { path = tab.path; mode = tab.mode } ∷ r) (map_editors tabs)

map_terminals :
    (root : Text) (tabs : List TerminalTab)
    → map
        (restored_terminal root)
        (map (λ (tab : TerminalTab). record { title = tab.title; cwd = tab.cwd }) tabs)
      ≡ kept_terminals root tabs
map_terminals root [] = refl
map_terminals root (tab ∷ tabs) =
    ap (λ r. restored_terminal root (record { title = tab.title; cwd = tab.cwd }) ∷ r)
      (map_terminals root tabs)

length-kept_terminals :
    (root : Text) (tabs : List TerminalTab) → length (kept_terminals root tabs) ≡ length tabs
length-kept_terminals root [] = refl
length-kept_terminals root (tab ∷ tabs) = ap suc (length-kept_terminals root tabs)

-- The first tab of a key is one of the tabs.
find_index-lt :
    (p : TerminalTab → Bool) (tabs : List TerminalTab) {i : ℕ}
    → find_index p tabs ≡ some i
    → i < length tabs
find_index-lt p [] e = cc
find_index-lt p (tab ∷ tabs) {i} e = elim (Bool-cases (p tab)) [
  | inl here ↦ ground (arith, here)
  | inr other ↦ elim (Option-cases (find_index p tabs)) [
    | inl nowhere ↦ ground (arith, other, nowhere)
    | inr (j, found) ↦ ground (arith, other, found, find_index-lt p tabs found)
  ]
]

first_active :
    (p : TerminalTab → Bool) (root : Text) (tabs : List TerminalTab)
    → index_or_first (pos (or_else (find_index p tabs) 0)) (pos (length (kept_terminals root tabs)))
      ≡ pos (or_else (find_index p tabs) 0)
first_active p root tabs = elim (Option-cases (find_index p tabs)) [
  | inl nowhere ↦ rw nowhere (ground (arith, nowhere))
  | inr (i, found) ↦
      ground (arith, found, find_index-lt p tabs found, length-kept_terminals root tabs)
]

some_text : (name : Option Text) → non_empty (or_else name []) ≡ maybe name none non_empty
unfolding text_eq
some_text none = refl
some_text (some name) = refl

active_editor :
    (tab : Option EditorTab)
    → non_empty (maybe tab [] λ (t : EditorTab). t.path)
      ≡ maybe tab none (λ (t : EditorTab). non_empty t.path)
unfolding text_eq
active_editor none = refl
active_editor (some tab) = refl

held_fixed : (size min min_other : ℤ) → min ≤ℤ size → held size min min_other ≡ size
held_fixed size min min_other large =
    clamp_split_fixed size (record { min = min; min_other = min_other; total = pos 0 })
      (large, ground arith)

recorded-some : (size fallback : ℤ) → pos 1 ≤ℤ size → recorded (some size) fallback ≡ size
unfolding recorded
recorded-some (pos n) fallback large = ground arith
recorded-some (negsuc n) fallback large = refl

kept :
    (size fallback min min_other : ℤ)
    → pos 1 ≤ℤ min
    → min ≤ℤ size
    → held (recorded (some size) fallback) min min_other ≡ size
kept size fallback min min_other some_size large =
    ap (λ s. held s min min_other) (recorded-some size fallback (omega arith))
    ∙ held_fixed size min min_other large

clamp_font_size_fixed : (px : ℤ) → pos 10 ≤ℤ px → px ≤ℤ pos 22 → clamp_font_size px ≡ px
unfolding clamp_font_size
clamp_font_size_fixed px small large = ground arith

-- A project's record, saved while the project is on screen and restored, brings back the editor tabs
-- in their order with their modes; the path of the active one; the terminals in their order, each in
-- its directory, or in the root if it has none, with the active one active again; and the tree's
-- expanded directories, its selection and whether it shows hidden files.
pub restored-live_record :
    (name root : Text) (live : LiveSession)
    → (restored_editors (some (live_record name live))
        ≡ record { files = kept_editors live.editors; active = shown_path live })
      × (restored_terminals (some (live_record name live)) root ≡ record {
        tabs = kept_terminals root live.terminals;
        active = pos (shown_terminal live);
      })
      × (restored_tree (some (live_record name live)) live.tree.changed_only ≡ record {
        expanded = live.tree.expanded;
        selected = maybe live.tree.selected none non_empty;
        show_hidden = live.tree.show_hidden;
        changed_only = live.tree.changed_only;
      })
unfolding live_record restored_editors restored_terminals restored_tree
restored-live_record name root live =
    let files = map_editors live.editors in
    let active =
      active_editor (find (λ (tab : EditorTab). is_key live.active_editor tab.key) live.editors) in
    let tabs = map_terminals root live.terminals in
    let shown =
      first_active (λ (tab : TerminalTab). is_key live.active_terminal tab.key) root
        live.terminals in
    let chosen =
      ap (λ ts. index_or_first (pos (shown_terminal live)) (pos (length ts))) tabs ∙ shown in
    let selected = some_text live.tree.selected in
    (
      λ i. record { files = files i; active = active i },
      λ i. record { tabs = tabs i; active = chosen i },
      λ i. record {
        expanded = live.tree.expanded;
        selected = selected i;
        show_hidden = live.tree.show_hidden;
        changed_only = live.tree.changed_only;
      },
    )

-- The window's settings come back as they were, if each size is one the window can have; an active
-- project whose name is not empty is active again.
pub restored_workspace-next_session :
    (previous : Session) (live : LiveSession) (hydrated registered : List Text)
    → pos 10 ≤ℤ live.font_size
    → live.font_size ≤ℤ pos 22
    → sidebar_min ≤ℤ live.sidebar
    → terminal_min ≤ℤ live.terminal_height
    → cluster_min ≤ℤ live.cluster
    → restored_workspace (next_session previous live hydrated registered) ≡ record {
      active_project = maybe live.active_project none non_empty;
      font_size = live.font_size;
      sidebar = live.sidebar;
      terminal_height = live.terminal_height;
      cluster = live.cluster;
      changed_only = live.tree.changed_only;
    }
unfolding restored_workspace next_session
restored_workspace-next_session previous live hydrated registered small large side term clus =
    let name = some_text live.active_project in
    let font =
      ap clamp_font_size (recorded-some live.font_size default_font_size (omega arith))
      ∙ clamp_font_size_fixed live.font_size small large in
    let sidebar =
      kept live.sidebar sidebar_default sidebar_min editor_min_width (omega arith) side in
    let height =
      kept live.terminal_height terminal_default terminal_min editor_min_height (omega arith)
        term in
    let width = kept live.cluster cluster_default cluster_min editor_min_width (omega arith) clus in
    λ i. record {
      active_project = name i;
      font_size = font i;
      sidebar = sidebar i;
      terminal_height = height i;
      cluster = width i;
      changed_only = live.tree.changed_only;
    }
