-- ===== src/Terminals/Selected.antt =====
-- frontend/src/lib/useTerminals.ts: the selection of each project is one of its tabs.
use m6t.Common.{
  ◌≡◌, sym, ap, ◌∙◌, subst, inl, inr, true, false, not, Option, none, some, List, Memᴰ, if_cases,
  Bool-cases, maybe, filter-from, filter-Memᴰ, filter_passes, find, find-Memᴰ, find_passes,
  find_fails, Text, text_eq, text_eq_iff, insert, lookup-insert,
}
use m6t.Strip.{selection_after-Memᴰ}
use m6t.Tabs.{TerminalTab, tabs_for_project, remove_tab, selection_after_close}
use m6t.Terminals.{TerminalStrip, selected, active_without}
use m6t.Terminals.Keys.{IsKeyed}

abbrev pub HasTab : List TerminalTab → Text → Text → Type 0
HasTab tabs project key =
    (tab : TerminalTab) × Memᴰ tab tabs × (tab.project ≡ project) × (tab.key ≡ key)

-- Each selection is a tab of its project.
abbrev pub IsSelected : List TerminalTab → List (Text × Option Text) → Type 0
IsSelected tabs active =
    (project key : Text) → selected active project ≡ some key → HasTab tabs project key

tab_for_project :
    (tabs : List TerminalTab) (project : Text) {tab : TerminalTab}
    → Memᴰ tab tabs
    → tab.project ≡ project
    → Memᴰ tab (tabs_for_project tabs (some project))
unfolding tabs_for_project
tab_for_project tabs project {tab} m e =
    filter-Memᴰ (λ (t : TerminalTab). text_eq t.project project) tabs
      ((text_eq_iff tab.project project).1 e) m

in_project :
    (tabs : List TerminalTab) (project : Text) {tab : TerminalTab}
    → Memᴰ tab (tabs_for_project tabs (some project))
    → tab.project ≡ project
unfolding tabs_for_project
in_project tabs project {tab} m =
    (text_eq_iff tab.project project).0
      (filter_passes (λ (t : TerminalTab). text_eq t.project project) tabs m)

of_project :
    (tabs : List TerminalTab) (project : Text) {tab : TerminalTab}
    → Memᴰ tab (tabs_for_project tabs (some project))
    → Memᴰ tab tabs
unfolding tabs_for_project
of_project tabs project m = filter-from (λ (t : TerminalTab). text_eq t.project project) tabs m

-- One project's selection is written.
pub set_selected :
    (active : List (Text × Option Text)) (project : Text) (chosen : Option Text)
    (tabs : List TerminalTab)
    → ((key : Text) → chosen ≡ some key → HasTab tabs project key)
    → ((q key : Text)
        → text_eq project q ≡ false
        → selected active q ≡ some key
        → HasTab tabs q key)
    → IsSelected tabs (insert project chosen active)
set_selected active project chosen tabs has others q key e =
    if_cases (λ o. maybe o none (λ x. x) ≡ some key → HasTab tabs q key) (text_eq project q)
      (λ own same. subst (λ p. HasTab tabs p key) ((text_eq_iff project q).0 own) (has key same))
      (λ other same. others q key other same)
      (ap (λ o. maybe o none λ x. x) (sym (lookup-insert project q chosen active)) ∙ e)

-- What a tab that is dropped leaves.
module _ (t : TerminalStrip) (committed : t.strip ≡ t.tabs) (keyed : IsKeyed t.keys t.tabs)
    (all : IsSelected t.tabs t.active) (key : Text) where
  kept :
      (project k : Text) (tab : TerminalTab)
      → not (text_eq tab.key key) ≡ true
      → Memᴰ tab t.tabs
      → tab.project ≡ project
      → tab.key ≡ k
      → HasTab (remove_tab t.tabs key) project k
  unfolding remove_tab
  kept project k tab other listed own named = (
    tab,
    filter-Memᴰ (λ (u : TerminalTab). not (text_eq u.key key)) t.tabs other listed,
    own,
    named,
  )

  there : {tab : TerminalTab} → Memᴰ tab t.strip → Memᴰ tab t.tabs
  there {tab} m = subst (Memᴰ tab) committed m

  beside_it :
      (closing : TerminalTab) (k : Text)
      → selection_after_close
          (tabs_for_project t.strip (some closing.project))
          key
          (selected t.active closing.project)
        ≡ some k
      → HasTab (remove_tab t.tabs key) closing.project k
  unfolding selection_after_close
  beside_it closing k e =
      let siblings = tabs_for_project t.strip (some closing.project) in
      let (tab, m, named) =
        selection_after-Memᴰ (λ (u : TerminalTab). u.key) siblings key
          (selected t.active closing.project) k
          (λ held e'.
            let (tab, listed, own, named) = all closing.project held e' in
            (
              tab,
              tab_for_project t.strip closing.project (subst (Memᴰ tab) (sym committed) listed) own,
              named,
            ))
          e in
      let sibling = filter-from (λ (u : TerminalTab). not (text_eq u.key key)) siblings m in
      kept closing.project k tab
        (filter_passes (λ (u : TerminalTab). not (text_eq u.key key)) siblings m)
        (there (of_project t.strip closing.project sibling))
        (in_project t.strip closing.project sibling) named

  without_found :
      (closing : TerminalTab)
      → find (λ (tab : TerminalTab). text_eq tab.key key) t.strip ≡ some closing
      → IsSelected (remove_tab t.tabs key) (active_without t key closing)
  without_found closing found =
      set_selected t.active closing.project
        (selection_after_close (tabs_for_project t.strip (some closing.project)) key
          (selected t.active closing.project))
        (remove_tab t.tabs key) (λ k e. beside_it closing k e)
        (λ q k other e.
          let (tab, listed, own, named) = all q k e in
          kept q k tab
            (elim (Bool-cases (text_eq tab.key key)) [
              | inl dropped ↦
                  let same : closing ≡ tab =
                    keyed.unique closing tab (there (find-Memᴰ _ t.strip found)) listed (
                      (text_eq_iff closing.key key).0 (find_passes _ t.strip found)
                      ∙ sym ((text_eq_iff tab.key key).0 dropped)) in
                  cc (
                    other,
                    (text_eq_iff closing.project q).1
                        (ap (λ (u : TerminalTab). u.project) same ∙ own),
                  )
              | inr left ↦ ap not left
            ])
            listed own named)

  pub without_tab :
      (o : Option TerminalTab)
      → find (λ (tab : TerminalTab). text_eq tab.key key) t.strip ≡ o
      → IsSelected (remove_tab t.tabs key) (maybe o t.active (active_without t key))
  without_tab none nowhere = λ project k e.
      let (tab, listed, own, named) = all project k e in
      kept project k tab
        (ap not (
          find_fails (λ (u : TerminalTab). text_eq u.key key) t.strip nowhere
            (subst (Memᴰ tab) (sym committed) listed)))
        listed own named
  without_tab (some closing) found = without_found closing found
