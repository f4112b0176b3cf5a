-- ===== src/Terminals/Ended.antt =====
-- frontend/src/lib/useTerminals.ts: which sessions a removed project leaves behind.
use mathlib.Core.List.Memᴰ
use m6t.Common.{
  ℕ, ◌≡◌, refl, sym, ap, ◌∙◌, subst, inl, inr, some, List, [], ◌∷◌, Memᴰ, maybe, maybe_cases,
  filter_passes, not, ◌≢◌, text_eq, Text, text_eq_iff, filter-Memᴰ, lookup,
}
use m6t.Tabs.{TerminalTab, tabs_for_project}
use m6t.Terminals.{TerminalStrip, end_session, end_sessions, close_project}

end_session-sessions : (t : TerminalStrip) (key : Text) → (end_session key t).sessions ≡ t.sessions
end_session-sessions t key =
    maybe_cases (λ (u : TerminalStrip). u.sessions ≡ t.sessions) (lookup key t.sessions) (λ _. refl)
      (λ session _. refl)

end_session-closed :
    (t : TerminalStrip) (key : Text) (session : ℕ)
    → Memᴰ session t.closed
    → Memᴰ session (end_session key t).closed
end_session-closed t key session m =
    maybe_cases (λ (u : TerminalStrip). Memᴰ session u.closed) (lookup key t.sessions) (λ _. m)
      (λ other _. Memᴰ.tail m)

end_session-own :
    (t : TerminalStrip) (key : Text) (session : ℕ)
    → lookup key t.sessions ≡ some session
    → Memᴰ session (end_session key t).closed
end_session-own t key session e =
    subst (λ o. Memᴰ session (maybe o t λ s. record t { closed = s ∷ t.closed }).closed) (sym e)
      (Memᴰ.head refl)

end_sessions-closed :
    (tabs : List TerminalTab) (t : TerminalStrip) (session : ℕ)
    → Memᴰ session t.closed
    → Memᴰ session (end_sessions tabs t).closed
unfolding end_sessions
end_sessions-closed [] t session m = m
end_sessions-closed (tab ∷ tabs) t session m =
    end_sessions-closed tabs (end_session tab.key t) session
      (end_session-closed t tab.key session m)

end_sessions-own :
    (tabs : List TerminalTab) (t : TerminalStrip) (tab : TerminalTab) (session : ℕ)
    → Memᴰ tab tabs
    → lookup tab.key t.sessions ≡ some session
    → Memᴰ session (end_sessions tabs t).closed
unfolding end_sessions
end_sessions-own [] t tab session m e = elim m [ ]
end_sessions-own (first ∷ tabs) t tab session m e = elim (Memᴰ.cases_cons m) [
  | inl own ↦ end_sessions-closed tabs (end_session first.key t) session (
      end_session-own t first.key session
        (ap (λ (u : TerminalTab). lookup u.key t.sessions) (sym own) ∙ e))
  | inr rest ↦
      end_sessions-own tabs (end_session first.key t) tab session rest
        (ap (lookup tab.key) (end_session-sessions t first.key) ∙ e)
]

-- Removing a project tells the session of each of its committed tabs to close, and leaves no tab of
-- it: a tab that is left has another project.
pub close_project-closed :
    (t : TerminalStrip) (project : Text) (tab : TerminalTab) (session : ℕ)
    → Memᴰ tab t.strip
    → tab.project ≡ project
    → lookup tab.key t.sessions ≡ some session
    → Memᴰ session (close_project project t).closed
      × ((left : TerminalTab) → Memᴰ left (close_project project t).tabs → left.project ≢ project)
unfolding close_project tabs_for_project
close_project-closed t project tab session m own e = (
  end_sessions-own (tabs_for_project t.strip (some project)) t tab session
      (filter-Memᴰ (λ (u : TerminalTab). text_eq u.project project) t.strip
        ((text_eq_iff tab.project project).1 own) m)
      e,
  λ left n same. cc (
    filter_passes (λ (u : TerminalTab). not (text_eq u.project project)) t.tabs n,
    (text_eq_iff left.project project).1 same,
  ),
)
