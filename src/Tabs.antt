-- ===== src/Tabs.antt =====
-- frontend/src/lib/tabs.ts: the terminal tab strip.
pub mod Titles
use m6t.Common.{
  ℕ, zero, suc, ◌+◌, ◌/◌, ◌%◌, Bool, false, not, Option, none, some, List, [], ◌∷◌, ◌++◌, map,
  reverse, ltb, ◌==◌, if◌then◌else◌, or_else, maybe, length, filter, Text, text, text_eq, contains,
}
use m6t.Common.Int.{ℤ, pos, negsuc}
use m6t.Icons.{is_space}
use m6t.Strip.{selection_after}
use m6t.Terminal.Session.{Status, running, exited, failed}

pub data TabStatus : Type 0 where
  starting up ended_by_exit broken : TabStatus

pub record TerminalTab : Type 0 where
  pub key : Text
  pub title : Text
  pub project : Text
  pub cwd : Text
  pub status : TabStatus
  pub exit_code : Option ℤ
  pub error : Option Text
  pub autorun : Option Text
  pub generation : ℕ

unfoldable pub new_tab : Text → Text → Text → Text → Option Text → TerminalTab
new_tab key project title cwd autorun = record {
  key = key;
  title = title;
  project = project;
  cwd = cwd;
  status = starting;
  exit_code = none;
  error = none;
  autorun = autorun;
  generation = 0;
}

unfoldable pub tabs_for_project : List TerminalTab → Option Text → List TerminalTab
tabs_for_project tabs project =
    maybe project [] λ name. filter (λ tab. text_eq tab.project name) tabs

-- `String(n)`: the decimal digits, on fuel.
unfoldable pub digits : ℕ → ℕ → Text
digits zero n = []
digits (suc fuel) n =
    let more = digits fuel (n / 10) in
    if ltb n 10 then (b'0' + n) ∷ [] else more ++ (b'0' + n % 10) ∷ []

unfoldable pub decimal : ℕ → Text
decimal n = digits (suc n) n

abbrev pub title_at : Text → ℕ → Text
title_at base n = base ++ b' ' ∷ decimal n

-- The loop of `nextTitle`, on fuel: `none` means that it ran out.
unfoldable pub next_free : ℕ → List Text → Text → ℕ → Option Text
next_free zero taken base n = none
next_free (suc fuel) taken base n =
    let rest = next_free fuel taken base (n + 1) in
    if contains (title_at base n) taken then rest else some (title_at base n)

unfoldable pub next_title : List TerminalTab → Text → Option Text
next_title tabs base =
    let taken = map (λ (tab : TerminalTab). tab.title) tabs in
    next_free (length taken + 1) taken base 1

-- Applies a change to the tabs of one key.
unfoldable pub patch_tab : List TerminalTab → Text → (TerminalTab → TerminalTab) → List TerminalTab
patch_tab tabs key patch =
    map (λ (tab : TerminalTab). if text_eq tab.key key then patch tab else tab) tabs

-- `trim` takes off what `\s` matches at both ends.
unfoldable pub trim_start : Text → Text
trim_start [] = []
trim_start (c ∷ s) = let rest = trim_start s in if is_space c then rest else c ∷ s

unfoldable pub trim : Text → Text
trim s = reverse (trim_start (reverse (trim_start s)))

unfoldable pub rename_tab : List TerminalTab → Text → Text → List TerminalTab
rename_tab tabs key title =
    let trimmed = trim title in
    if text_eq trimmed [] then tabs else patch_tab tabs key (λ tab. record tab { title = trimmed })

unfoldable pub restart_tab : List TerminalTab → Text → List TerminalTab
restart_tab tabs key =
    map
      (λ (tab : TerminalTab).
        if text_eq tab.key key
        then record tab {
          status = starting;
          exit_code = none;
          error = none;
          generation = tab.generation + 1;
        }
        else tab)
      tabs

unfoldable pub remove_tab : List TerminalTab → Text → List TerminalTab
remove_tab tabs key = filter (λ tab. not (text_eq tab.key key)) tabs

unfoldable pub selection_after_close : List TerminalTab → Text → Option Text → Option Text
selection_after_close tabs key active =
    selection_after (λ (tab : TerminalTab). tab.key) tabs key active

-- Whether a session ending takes its tab with it.
unfoldable pub ending_closes_the_tab : Status → Bool
ending_closes_the_tab (exited (pos n)) = n == 0
ending_closes_the_tab _ = false

-- The tab fields a session status determines.
unfoldable pub status_patch : Status → TerminalTab → TerminalTab
status_patch running tab = record tab { status = up; error = none }
status_patch (exited code) tab = record tab { status = ended_by_exit; exit_code = some code }
status_patch (failed message) tab = record tab { status = broken; error = some message }

-- A number in words, as the pane prints it.
abbrev pub print_int : ℤ → Text
print_int (pos n) = decimal n
print_int (negsuc n) = b'-' ∷ decimal (suc n)

unfoldable pub exit_text : Option ℤ → Text
exit_text (some (negsuc zero)) = text "terminated by a signal"
exit_text code = text "exited with status " ++ print_int (or_else code (pos 0))

-- Why a terminal ended, from the state of its tab.
unfoldable pub describe : TerminalTab → TabStatus → Text
describe tab broken = or_else tab.error (text "the terminal could not be started")
describe tab _ = exit_text tab.exit_code

unfoldable pub exit_description : TerminalTab → Text
exit_description tab = describe tab tab.status
