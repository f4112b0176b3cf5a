-- ===== src/EditorTabs/Clipboard.antt =====
-- frontend/src/lib/editorTabs.ts: the texts that a tab gives out, its paths and its notice.
use m6t.Common.{
  ℕ, ◌+◌, ◌*◌, ◌/◌, ◌%◌, not, ◌&&◌, ◌||◌, Option, none, some, List, [], ◌∷◌, ◌++◌, leb, ◌==◌,
  if◌then◌else◌, any, Text, text, text_eq,
}
use m6t.Paths.{root, slash, split}
use m6t.Tabs.{decimal}
use m6t.EditorTabs.{EditorTab}

-- A byte count in the units a person reads; `toFixed` and `Math.round` round a half up.
unfoldable pub format_size : ℕ → Text
format_size bytes =
    let tenths = (20 * bytes + 1048576) / 2097152 in
    if leb 1048576 bytes
    then decimal (tenths / 10) ++ b'.' ∷ decimal (tenths % 10) ++ text " MB"
    else decimal ((2 * bytes + 1024) / 2048) ++ text " KB"

unfoldable pub read_only_notice : EditorTab → Option Text
read_only_notice tab =
    if not tab.read_only
    then none
    else if tab.mixed_eol
    then some (
        text
          "Read-only: this file mixes CRLF and LF line endings. Saving it would rewrite every line, not just your edit.")
    else some (text "Read-only: " ++ format_size tab.size ++ text " is over the editing limit.")

abbrev pub backslash : ℕ
backslash = 92

-- The separator that a project's own paths are written with.
unfoldable pub separator : Text → ℕ
separator root =
    if any (λ c. c == backslash) root && not (any (λ c. c == slash) root) then backslash else slash

-- `parts.join(sep)`.
unfoldable pub join : ℕ → List Text → Text
join sep [] = []
join sep (part ∷ []) = part
join sep (part ∷ next ∷ parts) = part ++ sep ∷ join sep (next ∷ parts)

unfoldable pub relative_path : EditorTab → Text
relative_path tab =
    let sep = separator tab.root in
    if sep == slash then tab.path else join sep (split slash tab.path)

-- `s.replace(/[/\\]+$/, "")`.
unfoldable pub drop_separators : Text → Text
drop_separators [] = []
drop_separators (c ∷ s) =
    let rest = drop_separators s in
    if text_eq rest [] && (c == slash || c == backslash) then [] else c ∷ rest

unfoldable pub absolute_path : EditorTab → Text
absolute_path tab = drop_separators tab.root ++ separator tab.root ∷ relative_path tab
