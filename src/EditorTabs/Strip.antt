-- ===== src/EditorTabs/Strip.antt =====
-- frontend/src/lib/editorTabs.ts: the operations on the list of tabs.
use m6t.Common.{
  not, ◌&&◌, Option, none, some, List, [], map, if◌then◌else◌, maybe, filter, find, Text, text_eq,
}
use m6t.Strip.{selection_after}
use m6t.EditorTabs.{EditorTab}

unfoldable pub tabs_for_project : List EditorTab → Option Text → List EditorTab
tabs_for_project tabs project =
    maybe project [] λ name. filter (λ tab. text_eq tab.project name) tabs

-- The key of a tab that is open already for this project and path.
unfoldable pub find_tab_key : List EditorTab → Text → Text → Option Text
find_tab_key tabs project path =
    maybe (find (λ tab. text_eq tab.project project && text_eq tab.path path) tabs) none
      λ tab. some tab.key

-- `mapTab`, and `patchTab` where the transform sets fields.
unfoldable pub map_tab : List EditorTab → Text → (EditorTab → EditorTab) → List EditorTab
map_tab tabs key transform =
    map (λ (tab : EditorTab). if text_eq tab.key key then transform tab else tab) tabs

unfoldable pub remove_tab : List EditorTab → Text → List EditorTab
remove_tab tabs key = filter (λ tab. not (text_eq tab.key key)) tabs

unfoldable pub selection_after_close : List EditorTab → Text → Option Text → Option Text
selection_after_close tabs key active =
    selection_after (λ (tab : EditorTab). tab.key) tabs key active
