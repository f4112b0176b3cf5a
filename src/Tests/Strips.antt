-- ===== src/Tests/Strips.antt =====
-- frontend/src/lib/useTerminals.ts at concrete inputs.
use m6t.Common.{
  ◌≡◌, refl, ◌≢◌, none, some, [], ◌∷◌, Memᴰ, map, text, text_eq, contains, lookup, insert,
}
use m6t.Tabs.{
  TerminalTab, new_tab, tabs_for_project, digits, decimal, next_free, next_title, remove_tab,
  selection_after_close,
}
use m6t.Terminals.{
  TerminalStrip, new_strip, commit, active_key, drop_tab, create, close, close_project, on_attach,
}
use m6t.Terminals.Selected.{HasTab}
use m6t.Terminals.Events.{Event, creates, closes, attaches, handle, Reachable, begin, turn}
use m6t.Terminals.Reached.{Reachable-HasTab}
use m6t.Terminals.Ended.{close_project-closed}

abbrev after_event : Event → TerminalStrip → TerminalStrip
after_event event t = commit (handle event t)

abbrev opens_one : Event
opens_one = creates (text "m6t") (text "/src/m6t") none

abbrev two : TerminalStrip
two = after_event opens_one (after_event opens_one new_strip)

-- The second tab is closed, and the first one is selected.
abbrev one_left : TerminalStrip
one_left = after_event (closes (text "tab-2")) two

one_left-reachable : Reachable one_left
one_left-reachable = turn (closes (text "tab-2")) (turn opens_one (turn opens_one begin tt) tt) tt

one_left-selected : active_key one_left (some (text "m6t")) ≡ some (text "tab-1")
unfolding active_key commit handle create new_strip new_tab tabs_for_project next_title next_free
    decimal digits lookup insert text_eq contains drop_tab remove_tab selection_after_close close
one_left-selected = refl

Reachable-HasTab_example : HasTab one_left.tabs (text "m6t") (text "tab-1")
Reachable-HasTab_example =
    Reachable-HasTab one_left (text "m6t") (text "tab-1") one_left-reachable one_left-selected

-- Two tabs that end before a render: the second of them is dropped by the strip as it was last
-- committed, and the selection goes to the first, which is no longer a tab.
abbrev three : TerminalStrip
three = after_event opens_one two

abbrev ended : TerminalStrip
ended = commit (
    drop_tab (text "tab-3") (
      drop_tab (text "tab-2")
        (record three { active = insert (text "m6t") (some (text "tab-2")) three.active })))

ended-selected :
    (active_key ended (some (text "m6t")) ≡ some (text "tab-2"))
    × (map (λ (tab : TerminalTab). tab.key) ended.tabs ≡ text "tab-1" ∷ [])
unfolding active_key commit handle create new_strip new_tab tabs_for_project next_title next_free
    decimal digits lookup insert text_eq contains drop_tab remove_tab selection_after_close
ended-selected = (refl, refl)

-- The project's first tab has a session.
abbrev busy : TerminalStrip
busy = after_event (attaches (text "tab-1") 5) two

abbrev first_tab : TerminalTab
first_tab = new_tab (text "tab-1") (text "m6t") (text "shell 1") (text "/src/m6t") none

busy-first : Memᴰ first_tab busy.strip
unfolding commit handle create new_strip new_tab tabs_for_project next_title next_free decimal
    digits lookup insert text_eq contains on_attach
busy-first = Memᴰ.head refl

busy-session : lookup (text "tab-1") busy.sessions ≡ some 5
unfolding commit handle create new_strip lookup insert text_eq on_attach
busy-session = refl

close_project-closed_example :
    Memᴰ 5 (close_project (text "m6t") busy).closed
    × ((left : TerminalTab)
        → Memᴰ left (close_project (text "m6t") busy).tabs
        → left.project ≢ text "m6t")
unfolding new_tab
close_project-closed_example =
    close_project-closed busy (text "m6t") first_tab 5 busy-first refl busy-session
