-- ===== src/Terminals/Changed.antt =====
-- frontend/src/lib/useTerminals.ts: what keeps a strip sound.
use mathlib.Core.List.Memᴰ
use m6t.Common.{
  ◌+◌, ◌≡◌, refl, ◌∙◌, not, none, List, [], ◌++◌, map, if◌then◌else◌, if_cases, Text, text_eq,
}
use m6t.Tabs.{
  TerminalTab, starting, remove_tab, patch_tab, rename_tab, restart_tab, trim, status_patch,
  ending_closes_the_tab,
}
use m6t.Terminal.Session.{Status, running, exited, failed}
use m6t.Terminals.{TerminalStrip, commit, drop_tab, on_status, rename, restart}
use m6t.Terminals.Keys.{IsKeyed, map-IsKeyed, filter-IsKeyed}
use m6t.Terminals.Selected.{HasTab, IsSelected, without_tab}
use m6t.Terminals.Events.{Inv}

pub commit-Inv :
    (t : TerminalStrip) → IsKeyed t.keys t.tabs → IsSelected t.tabs t.active → Inv (commit t)
unfolding commit
commit-Inv t keyed all = record { committed = refl; keyed = keyed; all = all }

pub more-IsSelected :
    (tabs more : List TerminalTab) (q k : Text) → HasTab tabs q k → HasTab (tabs ++ more) q k
more-IsSelected tabs more q k (tab, listed, own, named) =
    (tab, Memᴰ.append_left more listed, own, named)

pub drop_tab-Inv : (t : TerminalStrip) (key : Text) → Inv t → Inv (commit (drop_tab key t))
unfolding drop_tab remove_tab
drop_tab-Inv t key inv =
    commit-Inv (drop_tab key t)
      (filter-IsKeyed (λ (tab : TerminalTab). not (text_eq tab.key key)) t.keys t.tabs inv.keyed)
      (without_tab t inv.committed inv.keyed inv.all key _ refl)

-- A change that keeps a tab's key and project.
map-Inv :
    (t : TerminalStrip) (f : TerminalTab → TerminalTab)
    → ((tab : TerminalTab) → (f tab).key ≡ tab.key)
    → ((tab : TerminalTab) → (f tab).project ≡ tab.project)
    → Inv t
    → Inv (commit (record t { tabs = map f t.tabs }))
map-Inv t f keys projects inv =
    commit-Inv (record t { tabs = map f t.tabs }) (map-IsKeyed f t.keys t.tabs keys inv.keyed)
      (λ project key e.
        let (tab, listed, own, named) = inv.all project key e in
        (f tab, Memᴰ.map f listed, projects tab ∙ own, keys tab ∙ named))

patch_tab-Inv :
    (t : TerminalStrip) (key : Text) (patch : TerminalTab → TerminalTab)
    → ((tab : TerminalTab) → (patch tab).key ≡ tab.key)
    → ((tab : TerminalTab) → (patch tab).project ≡ tab.project)
    → Inv t
    → Inv (commit (record t { tabs = patch_tab t.tabs key patch }))
unfolding patch_tab
patch_tab-Inv t key patch keys projects inv =
    map-Inv t (λ (tab : TerminalTab). if text_eq tab.key key then patch tab else tab)
      (λ tab.
        if_cases (λ (u : TerminalTab). u.key ≡ tab.key) (text_eq tab.key key) (λ _. keys tab)
          (λ _. refl))
      (λ tab.
        if_cases (λ (u : TerminalTab). u.project ≡ tab.project) (text_eq tab.key key)
          (λ _. projects tab) (λ _. refl))
      inv

status_patch-key : (status : Status) (tab : TerminalTab) → (status_patch status tab).key ≡ tab.key
unfolding status_patch
status_patch-key running tab = refl
status_patch-key (exited code) tab = refl
status_patch-key (failed message) tab = refl

status_patch-project :
    (status : Status) (tab : TerminalTab) → (status_patch status tab).project ≡ tab.project
unfolding status_patch
status_patch-project running tab = refl
status_patch-project (exited code) tab = refl
status_patch-project (failed message) tab = refl

pub on_status-Inv :
    (t : TerminalStrip) (key : Text) (status : Status)
    → Inv t
    → Inv (commit (on_status key status t))
unfolding on_status
on_status-Inv t key status inv =
    if_cases (λ u. Inv (commit u)) (ending_closes_the_tab status) (λ _. drop_tab-Inv t key inv)
      (λ _.
        patch_tab-Inv t key (status_patch status) (status_patch-key status)
          (status_patch-project status) inv)

pub rename-Inv : (t : TerminalStrip) (key title : Text) → Inv t → Inv (commit (rename key title t))
unfolding rename rename_tab
rename-Inv t key title inv =
    if_cases (λ tabs. Inv (commit (record t { tabs = tabs }))) (text_eq (trim title) [])
      (λ _. commit-Inv t inv.keyed inv.all)
      (λ _.
        patch_tab-Inv t key (λ tab. record tab { title = trim title }) (λ tab. refl) (λ tab. refl)
          inv)

pub restart-Inv : (t : TerminalStrip) (key : Text) → Inv t → Inv (commit (restart key t))
unfolding restart restart_tab
restart-Inv t key inv =
    map-Inv t
      (λ (tab : TerminalTab).
        if text_eq tab.key key
        then record tab {
          status = starting;
          exit_code = none;
          error = none;
          generation = tab.generation + 1;
        }
        else tab)
      (λ tab.
        if_cases (λ (u : TerminalTab). u.key ≡ tab.key) (text_eq tab.key key) (λ _. refl)
          (λ _. refl))
      (λ tab.
        if_cases (λ (u : TerminalTab). u.project ≡ tab.project) (text_eq tab.key key) (λ _. refl)
          (λ _. refl))
      inv
