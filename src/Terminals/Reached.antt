-- ===== src/Terminals/Reached.antt =====
-- frontend/src/lib/useTerminals.ts: whatever happens to the strips, one event after another.
use mathlib.Core.List.Memᴰ
use m6t.Common.{
  ℕ, ◌+◌, ◌==◌, ◌≡◌, refl, sym, ap, ◌∙◌, subst, inl, inr, false, not, Option, none, some, List, [],
  ◌∷◌, ◌++◌, Memᴰ, arith, if_cases, Option-cases, or_else, maybe, maybe_cases, get_elem?, filter,
  append-nil, filter-Memᴰ, get_elem?-Memᴰ, some_inj, Text, text_eq, text_eq_iff, lookup, insert,
  lookup-filter,
}
use m6t.Common.Int.{ℤ, pos, negsuc}
use m6t.Tabs.{TerminalTab, new_tab, tabs_for_project}
use m6t.Workspace.{RestoredTerminal, RestoredTerminals}
use m6t.Terminals.{
  TerminalStrip, new_strip, commit, key_at, active_key, select, create, restored, focused,
  with_restored, counted, restore, end_session, end_sessions, close, close_project, on_attach,
  on_detach,
}
use m6t.Terminals.Keys.{IsKeyed, append-IsKeyed, restored-IsKeyed, filter-IsKeyed}
use m6t.Terminals.Selected.{HasTab, set_selected}
use m6t.Terminals.Events.{
  Event, handle, Allowed, Reachable, Inv, selects, reports, creates, restores, closes,
  closes_project, renames, restarts, attaches, detaches, begin, turn,
}
use m6t.Terminals.Changed.{
  commit-Inv, more-IsSelected, drop_tab-Inv, on_status-Inv, rename-Inv, restart-Inv,
}

select-Inv :
    (t : TerminalStrip) (project : Option Text) (key : Text)
    → Allowed t (selects project key)
    → Inv t
    → Inv (commit (select project key t))
unfolding select
select-Inv t none key ok inv = commit-Inv t inv.keyed inv.all
select-Inv t (some project) key ok inv =
    commit-Inv (record t { active = insert project (some key) t.active }) inv.keyed
      (set_selected t.active project (some key) t.tabs
        (λ k e. subst (HasTab t.tabs project) (some_inj e) ok) (λ q k _ e. inv.all q k e))

create-Inv :
    (t : TerminalStrip) (project cwd : Text) (autorun : Option Text)
    → Inv t
    → Inv (commit (create project cwd autorun t))
unfolding create new_tab
create-Inv t project cwd autorun inv =
    commit-Inv (create project cwd autorun t) (append-IsKeyed t.keys t.tabs _ refl inv.keyed) (
      set_selected t.active project (some (key_at (t.keys + 1))) (create project cwd autorun t).tabs
        (λ k e. (_, Memᴰ.append_right t.tabs (Memᴰ.head refl), refl, some_inj e))
        (λ q k _ e. more-IsSelected t.tabs _ q k (inv.all q k e)))

restored-project :
    (saved : List RestoredTerminal) (keys : ℕ) (project : Text) {tab : TerminalTab}
    → Memᴰ tab (restored keys project saved)
    → tab.project ≡ project
unfolding restored new_tab
restored-project [] keys project m = elim m [ ]
restored-project (first ∷ more) keys project m = elim (Memᴰ.cases_cons m) [
  | inl own ↦ ap (λ (u : TerminalTab). u.project) own
  | inr rest ↦ restored-project more (keys + 1) project rest
]

focused-Memᴰ :
    (first : TerminalTab) (more : List TerminalTab) (active : ℤ)
    → Memᴰ (focused first more active) (first ∷ more)
focused-Memᴰ first more (negsuc n) = Memᴰ.head refl
focused-Memᴰ first more (pos n) = elim (Option-cases (get_elem? (first ∷ more) n)) [
  | inl nowhere ↦ subst (λ o. Memᴰ (or_else o first) (first ∷ more)) (sym nowhere) (Memᴰ.head refl)
  | inr (tab, there) ↦
      subst (λ o. Memᴰ (or_else o first) (first ∷ more)) (sym there)
        (get_elem?-Memᴰ (first ∷ more) n there)
]

-- Reopened tabs, all of the project, are added and one of them is selected.
with_restored-Inv :
    (t : TerminalStrip) (project : Text) (active : ℤ) (tabs : List TerminalTab) (keys : ℕ)
    → ((tab : TerminalTab) → Memᴰ tab tabs → tab.project ≡ project)
    → IsKeyed keys (t.tabs ++ tabs)
    → Inv t
    → Inv (commit (with_restored project active tabs (record t { keys = keys })))
with_restored-Inv t project active [] keys own keyed inv =
    commit-Inv (record t { keys = keys }) (subst (IsKeyed keys) (append-nil t.tabs) keyed) inv.all
with_restored-Inv t project active (first ∷ more) keys own keyed inv =
    let focus = focused first more active in
    commit-Inv (with_restored project active (first ∷ more) (record t { keys = keys })) keyed (
      set_selected t.active project (some focus.key) (t.tabs ++ first ∷ more)
        (λ k e. (
          focus,
          Memᴰ.append_right t.tabs (focused-Memᴰ first more active),
          own focus (focused-Memᴰ first more active),
          some_inj e,
        ))
        (λ q k _ e. more-IsSelected t.tabs (first ∷ more) q k (inv.all q k e)))

restore-Inv :
    (t : TerminalStrip) (project : Text) (saved : RestoredTerminals)
    → Inv t
    → Inv (commit (restore project saved t))
unfolding restore
restore-Inv t project saved inv =
    with_restored-Inv t project saved.active (restored t.keys project saved.tabs)
      (counted t.keys saved.tabs) (λ tab m. restored-project saved.tabs t.keys project m)
      (restored-IsKeyed saved.tabs t.keys project t.tabs inv.keyed) inv

end_session-Inv : (t : TerminalStrip) (key : Text) → Inv t → Inv (end_session key t)
end_session-Inv t key inv =
    maybe_cases Inv (lookup key t.sessions) (λ _. inv)
      (λ session _. record { committed = inv.committed; keyed = inv.keyed; all = inv.all })

end_sessions-keys :
    (tabs : List TerminalTab) (t : TerminalStrip) → (end_sessions tabs t).keys ≡ t.keys
unfolding end_sessions
end_sessions-keys [] t = refl
end_sessions-keys (tab ∷ tabs) t =
    end_sessions-keys tabs (end_session tab.key t)
    ∙ maybe_cases (λ (u : TerminalStrip). u.keys ≡ t.keys) (lookup tab.key t.sessions) (λ _. refl)
        (λ session _. refl)

close_project-Inv :
    (t : TerminalStrip) (project : Text) → Inv t → Inv (commit (close_project project t))
unfolding close_project
close_project-Inv t project inv =
    commit-Inv (close_project project t)
      (filter-IsKeyed (λ (tab : TerminalTab). not (text_eq tab.project project)) _ t.tabs
        (subst (λ n. IsKeyed n t.tabs)
          (sym (end_sessions-keys (tabs_for_project t.strip (some project)) t)) inv.keyed))
      (λ q key e.
        if_cases
          (λ o. maybe o none (λ x. x) ≡ some key → HasTab (close_project project t).tabs q key)
          (text_eq project q) (λ own same. cc)
          (λ other same.
            let (tab, listed, own, named) = inv.all q key same in
            (
              tab,
              filter-Memᴰ (λ (u : TerminalTab). not (text_eq u.project project)) t.tabs
                  (ground (
                    arith,
                    own,
                    other,
                    text_eq_iff tab.project project,
                    text_eq_iff project q,
                    text_eq_iff tab.project q,
                  ))
                  listed,
              own,
              named,
            ))
          (ap (λ o. maybe o none λ x. x) (sym (lookup-filter project q t.active)) ∙ e))

on_detach-Inv :
    (t : TerminalStrip) (key : Text) (session : ℕ) → Inv t → Inv (commit (on_detach key session t))
unfolding on_detach
on_detach-Inv t key session inv =
    if_cases (λ u. Inv (commit u))
      (maybe (lookup key t.sessions) false λ registered. registered == session)
      (λ _.
        commit-Inv (record t { sessions = filter (λ entry. not (text_eq entry.0 key)) t.sessions })
          inv.keyed inv.all)
      (λ _. commit-Inv t inv.keyed inv.all)

handle-Inv :
    (event : Event) (t : TerminalStrip) → Allowed t event → Inv t → Inv (commit (handle event t))
unfolding handle close on_attach
handle-Inv (selects project key) t ok inv = select-Inv t project key ok inv
handle-Inv (reports key status) t ok inv = on_status-Inv t key status inv
handle-Inv (creates project cwd autorun) t ok inv = create-Inv t project cwd autorun inv
handle-Inv (restores project saved) t ok inv = restore-Inv t project saved inv
handle-Inv (closes key) t ok inv = drop_tab-Inv (end_session key t) key (end_session-Inv t key inv)
handle-Inv (closes_project project) t ok inv = close_project-Inv t project inv
handle-Inv (renames key title) t ok inv = rename-Inv t key title inv
handle-Inv (restarts key) t ok inv = restart-Inv t key inv
handle-Inv (attaches key session) t ok inv = commit-Inv _ inv.keyed inv.all
handle-Inv (detaches key session) t ok inv = on_detach-Inv t key session inv

Reachable-Inv : (t : TerminalStrip) → Reachable t → Inv t
unfolding new_strip lookup
Reachable-Inv _ begin = record {
  committed = refl;
  keyed = record { given = λ tab m. elim m [ ]; unique = λ a b m. elim m [ ] };
  all = λ project key e. cc;
}
Reachable-Inv _ (turn {t = t} event r ok) = handle-Inv event t ok (Reachable-Inv t r)

-- After any events, with a render after each and selections made on the strip that is shown, the key
-- that a project has selected is the key of a tab of that project.
pub Reachable-HasTab :
    (t : TerminalStrip) (project key : Text)
    → Reachable t
    → active_key t (some project) ≡ some key
    → HasTab t.tabs project key
unfolding active_key
Reachable-HasTab t project key r e = (Reachable-Inv t r).all project key e

-- After any events, as above, each tab has a key that was given out, and no two tabs have one key.
pub Reachable-IsKeyed : (t : TerminalStrip) → Reachable t → IsKeyed t.keys t.tabs
Reachable-IsKeyed t r = (Reachable-Inv t r).keyed
