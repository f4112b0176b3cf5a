-- ===== src/Tests/Terminals.antt =====
-- frontend/src/lib/terminalSession.ts and tabs.ts at concrete inputs.
use m6t.Common.{
  ℕ, suc, ◌+◌, ◌≤◌, ◌<◌, ◌≡◌, refl, ◌≢◌, inl, true, false, none, some, List, [], ◌∷◌, arith, Text,
  text, text_eq, text_eq_iff, contains,
}
use m6t.Common.Int.{pos}
use m6t.Terminal.Protocol.{Json, num, str, obj, end, prop}
use m6t.Terminal.Session.{
  connecting, attached, Session, new_session, textual, binary, Event, starts, disposes, opens,
  types, socket_opens, socket_receives, step, run, session_code,
}
use m6t.Terminal.Session.Invariant.{Inv, step-Inv, new_session-Inv, run-Inv}
use m6t.Terminal.Session.Owed.{Owed}
use m6t.Terminal.Session.Closing.{closes_over, closes_over-run, open_resolved-owes}
use m6t.Terminal.Session.Typed.{typed, IsDrained}
use m6t.Terminal.Session.Input.{typed_in, run-new_session-typed}
use m6t.Terminal.Session.Silence.{reports, run-reports_of_disposed}
use m6t.Tabs.{TerminalTab, new_tab, digits, decimal, title_at, next_free, next_title}
use m6t.Tabs.Titles.{titles, next_title-lowest_free}

abbrev fresh : Session
fresh = new_session (some (text "ls")) 80 24

-- Disposed of before the backend answered, and after its answer.
abbrev gone : Session
gone = run fresh (starts ∷ disposes ∷ [])

abbrev late : Session
late = step gone (opens (text "7"))

-- On the way up, with a key typed.
abbrev coming : Session
coming = run fresh (starts ∷ opens (text "7") ∷ types (text "q") ∷ [])

-- `{"type": "resync", "payload": {"droppedBytes": 512}}`.
abbrev resync_frame : Json
resync_frame = obj (
    prop (text "type") (str (text "resync"))
      (prop (text "payload") (obj (prop (text "droppedBytes") (num (pos 512)) end)) end))

-- The child floods the first socket, which is left for a second one.
abbrev flood : List Event
flood =
    starts
    ∷ opens (text "7")
    ∷ types (text "q")
    ∷ socket_opens 0
    ∷ socket_receives 0 (binary (36 ∷ []))
    ∷ socket_receives 0 (textual (some resync_frame))
    ∷ socket_opens 1
    ∷ types (text "w")
    ∷ []

gone-awaiting : gone.awaiting ≡ true
unfolding session_code
gone-awaiting = refl

gone-disposed : gone.disposed ≡ true
unfolding session_code
gone-disposed = refl

fresh-Inv : Inv fresh
fresh-Inv = new_session-Inv (some (text "ls")) 80 24

gone-Inv : Inv gone
gone-Inv = run-Inv fresh (starts ∷ disposes ∷ []) fresh-Inv

late-Owed : Owed late gone.made
late-Owed = open_resolved-owes gone (text "7") gone-Inv gone-awaiting (inl gone-disposed)

coming-socket : (coming.socket ≡ some 0) × ((coming.sockets 0).ready ≡ connecting)
unfolding session_code
coming-socket = (refl, refl)

flood-handlers : ((run fresh flood).sockets 1).handlers ≡ attached
unfolding session_code
flood-handlers = refl

closes_over-run_example :
    closes_over gone.made
      (step (run late (types (text "x") ∷ disposes ∷ [])) (socket_opens gone.made)).log
    ≡ suc (closes_over gone.made (run late (types (text "x") ∷ disposes ∷ [])).log)
closes_over-run_example =
    closes_over-run late (types (text "x") ∷ disposes ∷ []) gone.made
      (step-Inv gone (opens (text "7")) gone-Inv) late-Owed (tt, (tt, tt))

run-new_session-typed_example :
    (typed (run fresh flood) ≡ typed_in fresh flood) × IsDrained (run fresh flood)
run-new_session-typed_example = run-new_session-typed (some (text "ls")) 80 24 flood

typed-flood : typed (run fresh flood) ≡ text "q" ∷ text "ls\n" ∷ text "w" ∷ []
unfolding session_code
typed-flood = refl

run-reports_of_disposed_example : reports (run gone flood).log ≡ reports gone.log
run-reports_of_disposed_example = run-reports_of_disposed gone flood gone-disposed

abbrev tab : Text → TerminalTab
tab title = new_tab title (text "m6t") title (text "/src/m6t") none

abbrev three : List TerminalTab
three = tab (text "zsh 1") ∷ tab (text "zsh 2") ∷ tab (text "zsh 4") ∷ []

text_ne : (s t : Text) → text_eq s t ≡ false → s ≢ t
text_ne s t h e = ground (arith, h, e, text_eq_iff s t)

third_title : next_title three (text "zsh") ≡ some (text "zsh 3")
unfolding next_title next_free decimal digits contains text_eq new_tab
third_title = refl

next_title-lowest_free_example :
    (j : ℕ) × (next_title three (text "zsh") ≡ some (title_at (text "zsh") (1 + j)))
    × (contains (title_at (text "zsh") (1 + j)) (titles three) ≡ false)
    × ((i : ℕ) → 1 ≤ i → i < 1 + j → contains (title_at (text "zsh") i) (titles three) ≡ true)
next_title-lowest_free_example = next_title-lowest_free three (text "zsh")
