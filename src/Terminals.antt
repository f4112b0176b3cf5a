-- ===== src/Terminals.antt =====
-- frontend/src/lib/useTerminals.ts: the terminal strip of every project, and the sessions behind it.
pub mod Keys
pub mod Selected
pub mod Events
pub mod Changed
pub mod Reached
pub mod Ended
use m6t.Common.{
  ℕ, suc, ◌+◌, ◌==◌, Bool, true, false, not, Option, none, some, List, [], ◌∷◌, ◌++◌, map,
  if◌then◌else◌, or_else, maybe, filter, find, get_elem?, Text, text, text_eq, lookup, insert,
}
use m6t.Common.Int.{ℤ, pos, negsuc}
use m6t.Tabs.{
  TerminalTab, new_tab, tabs_for_project, next_title, decimal, patch_tab, rename_tab, restart_tab,
  remove_tab, selection_after_close, ending_closes_the_tab, status_patch,
}
use m6t.Terminal.Session.{Status}
use m6t.Workspace.{RestoredTerminal, RestoredTerminals}

-- `strip` is what `strip.current` holds: the tabs as they were last committed. A session is named by a
-- number; `closed` holds those that were told to close, latest first.
pub record TerminalStrip : Type 0 where
  pub tabs : List TerminalTab
  pub strip : List TerminalTab
  pub active : List (Text × Option Text)
  pub keys : ℕ
  pub sessions : List (Text × ℕ)
  pub closed : List ℕ

unfoldable pub new_strip : TerminalStrip
new_strip = record { tabs = []; strip = []; active = []; keys = 0; sessions = []; closed = [] }

-- The effect that follows a render.
unfoldable pub commit : TerminalStrip → TerminalStrip
commit t = record t { strip = t.tabs }

-- `current[project] ?? null`.
abbrev pub selected : List (Text × Option Text) → Text → Option Text
selected active project = maybe (lookup project active) none λ key. key

unfoldable pub active_key : TerminalStrip → Option Text → Option Text
active_key t active_project = maybe active_project none (selected t.active)

unfoldable pub select : Option Text → Text → TerminalStrip → TerminalStrip
select none key t = t
select (some project) key t = record t { active = insert project (some key) t.active }

-- The selection once a tab that is there is dropped.
abbrev pub active_without : TerminalStrip → Text → TerminalTab → List (Text × Option Text)
active_without t key closing =
    insert closing.project
      (selection_after_close (tabs_for_project t.strip (some closing.project)) key
        (selected t.active closing.project))
      t.active

unfoldable pub drop_tab : Text → TerminalStrip → TerminalStrip
drop_tab key t = record t {
  active =
      maybe (find (λ (tab : TerminalTab). text_eq tab.key key) t.strip) t.active
        (active_without t key);
  tabs = remove_tab t.tabs key;
}

unfoldable pub on_status : Text → Status → TerminalStrip → TerminalStrip
on_status key status t =
    if ending_closes_the_tab status
    then drop_tab key t
    else record t { tabs = patch_tab t.tabs key (status_patch status) }

abbrev pub key_at : ℕ → Text
key_at n = text "tab-" ++ decimal n

-- A title is found for every strip and base, so that the empty one is never taken.
unfoldable pub create : Text → Text → Option Text → TerminalStrip → TerminalStrip
create project cwd autorun t =
    let title =
      or_else (next_title (tabs_for_project t.tabs (some project)) (or_else autorun (text "shell")))
        [] in
    record t {
      keys = t.keys + 1;
      tabs = t.tabs ++ new_tab (key_at (t.keys + 1)) project title cwd autorun ∷ [];
      active = insert project (some (key_at (t.keys + 1))) t.active;
    }

-- The tabs that a saved strip reopens, with the keys after `keys`.
unfoldable pub restored : ℕ → Text → List RestoredTerminal → List TerminalTab
restored keys project [] = []
restored keys project (saved ∷ more) =
    new_tab (key_at (keys + 1)) project saved.title saved.cwd none
    ∷ restored (keys + 1) project more

-- `restored[active] ?? restored[0]`.
abbrev pub focused : TerminalTab → List TerminalTab → ℤ → TerminalTab
focused first more (pos n) = or_else (get_elem? (first ∷ more) n) first
focused first more (negsuc n) = first

abbrev pub with_restored : Text → ℤ → List TerminalTab → TerminalStrip → TerminalStrip
with_restored project active [] t = t
with_restored project active (first ∷ more) t =
    let focus = focused first more active in
    record t { tabs = t.tabs ++ first ∷ more; active = insert project (some focus.key) t.active }

abbrev pub counted : ℕ → List RestoredTerminal → ℕ
counted keys [] = keys
counted keys (saved ∷ more) = counted (keys + 1) more

unfoldable pub restore : Text → RestoredTerminals → TerminalStrip → TerminalStrip
restore project saved t =
    with_restored project saved.active (restored t.keys project saved.tabs)
      (record t { keys = counted t.keys saved.tabs })

-- `sessions.current.get(key)?.close()`.
abbrev pub end_session : Text → TerminalStrip → TerminalStrip
end_session key t =
    maybe (lookup key t.sessions) t λ session. record t { closed = session ∷ t.closed }

unfoldable pub close : Text → TerminalStrip → TerminalStrip
close key t = drop_tab key (end_session key t)

-- The loop of `closeProject`.
unfoldable pub end_sessions : List TerminalTab → TerminalStrip → TerminalStrip
end_sessions [] t = t
end_sessions (tab ∷ tabs) t = end_sessions tabs (end_session tab.key t)

unfoldable pub close_project : Text → TerminalStrip → TerminalStrip
close_project project t =
    let ended = end_sessions (tabs_for_project t.strip (some project)) t in
    record ended {
      tabs = filter (λ (tab : TerminalTab). not (text_eq tab.project project)) t.tabs;
      active = filter (λ entry. not (text_eq entry.0 project)) t.active;
    }

unfoldable pub rename : Text → Text → TerminalStrip → TerminalStrip
rename key title t = record t { tabs = rename_tab t.tabs key title }

unfoldable pub restart : Text → TerminalStrip → TerminalStrip
restart key t = record t { tabs = restart_tab t.tabs key }

unfoldable pub on_attach : Text → ℕ → TerminalStrip → TerminalStrip
on_attach key session t = record t { sessions = insert key session t.sessions }

-- Only the session that is registered is removed.
unfoldable pub on_detach : Text → ℕ → TerminalStrip → TerminalStrip
on_detach key session t =
    if maybe (lookup key t.sessions) false (λ registered. registered == session)
    then record t { sessions = filter (λ entry. not (text_eq entry.0 key)) t.sessions }
    else t
