-- ===== src/Tests/Sessions.antt =====
-- frontend/src/lib/useSession.ts at concrete inputs.
use m6t.Common.{
  ◌≡◌, refl, Bool, true, false, none, some, or_else, [], ◌∷◌, Memᴰ, map, Text, text, text_eq,
  contains,
}
use m6t.Tree.{initial_tree, RestoredTree}
use m6t.Workspace.{Session, empty_session, project_session, restored_workspace, restored_tree}
use m6t.SessionHook.{
  Wiring, Request, restores_tree, restores_editors, SessionHook, new_hook, load, restore_selection,
  hydrate, record_live, render,
}
use m6t.SessionHook.Reached.{Event, loads, renders, fires, handle, Reachable, begin, turn}
use m6t.SessionHook.Settled.{saved_sessions, stored, Reachable-stored}
use m6t.SessionHook.Filter.{IsUnfiltered, Reachable-restores_tree}

-- Sessions told apart by their active project.

abbrev json : Session → Text
json s = or_else s.active_project []

abbrev Any : Event → Type 0
Any event = Unit

abbrev on_screen : Text → Wiring
on_screen name = record {
  names = text "m6t" ∷ text "k8s" ∷ [];
  active_name = some name;
  active_path = some (text "/src");
  editors = [];
  active_editor = none;
  terminals = [];
  active_terminal = none;
  tree = initial_tree;
}

-- The window was left with the filter on.
abbrev saved : Session
saved = record empty_session { changed_only = some true; active_project = some (text "m6t") }

abbrev read_in : SessionHook
read_in = handle json (loads (some saved)) new_hook

abbrev first_seen : SessionHook
first_seen = handle json (renders (on_screen (text "k8s"))) read_in

abbrev written_out : SessionHook
written_out = handle json fires first_seen

unread : new_hook.loaded ≡ none
unfolding new_hook
unread = refl

written_out-reachable : Reachable json Any written_out
written_out-reachable =
    turn fires
      (turn (renders (on_screen (text "k8s"))) (turn (loads (some saved)) begin unread tt) tt tt) tt
      tt

Reachable-stored_example :
    (written_out.loaded ≡ none → saved_sessions written_out.asked ≡ [])
    × (written_out.timer ≡ false
        → json written_out.current
          ≡ json (stored (saved_sessions written_out.asked) written_out.loaded))
Reachable-stored_example = Reachable-stored json Any written_out written_out-reachable

-- The project is put back by the render after the selection.
abbrev put_back : SessionHook
put_back = handle json (renders (on_screen (text "m6t"))) first_seen

abbrev given : RestoredTree
given =
    restored_tree (project_session first_seen.current (text "m6t"))
      (restored_workspace first_seen.current).changed_only

off : IsUnfiltered (renders (on_screen (text "m6t")))
unfolding initial_tree
off = refl

put_back-reachable : Reachable json IsUnfiltered put_back
unfolding initial_tree
put_back-reachable =
    turn (renders (on_screen (text "m6t")))
      (turn (renders (on_screen (text "k8s"))) (turn (loads (some saved)) begin unread tt) tt refl)
      tt refl

put_back-given : Memᴰ (restores_tree given) put_back.asked
unfolding handle render restore_selection hydrate record_live new_hook load restored_workspace
    text_eq contains empty_session
put_back-given = Memᴰ.tail (Memᴰ.head refl)

Reachable-restores_tree_example : given.changed_only ≡ false
Reachable-restores_tree_example =
    Reachable-restores_tree json put_back given put_back-reachable put_back-given

-- Away and back before the files are open: the project's files are asked for a second time.
abbrev is_of : Text → Request → Bool
is_of name (restores_editors other path files) = text_eq other name
is_of name _ = false

abbrev back_again : SessionHook
back_again =
    handle json (renders (on_screen (text "m6t")))
      (handle json (renders (on_screen (text "k8s"))) put_back)

back_again-twice :
    map (is_of (text "m6t")) back_again.asked
    ≡ true ∷ false ∷ false ∷ false ∷ true ∷ false ∷ false ∷ []
unfolding handle render restore_selection hydrate record_live new_hook load restored_workspace
    text_eq contains empty_session
back_again-twice = refl
