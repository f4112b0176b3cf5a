-- ===== src/Terminals/Keys.antt =====
-- frontend/src/lib/useTerminals.ts: keys are never used again.
use mathlib.Core.List.Memᴰ
use m6t.Common.{
  ℕ, ◌+◌, ◌≤◌, ◌≡◌, refl, sym, ap, ◌∙◌, subst, inl, inr, Bool, none, List, [], ◌∷◌, ◌++◌,
  append_assoc, append-nil, map, Memᴰ, arith, filter, filter-from, Text, text,
}
use m6t.Tabs.{TerminalTab, new_tab}
use m6t.Tabs.Titles.{decimal-injective, append_cancel}
use m6t.Workspace.{RestoredTerminal}
use m6t.Terminals.{key_at, restored, counted}

-- Each tab has a key that was given out, and no two have one key.

pub record IsKeyed (keys : ℕ) (tabs : List TerminalTab) : Type 0 where
  pub given : (tab : TerminalTab) → Memᴰ tab tabs → (n : ℕ) × (tab.key ≡ key_at n) × (n ≤ keys)
  pub unique : (a b : TerminalTab) → Memᴰ a tabs → Memᴰ b tabs → a.key ≡ b.key → a ≡ b

key_at-injective : (m n : ℕ) → key_at m ≡ key_at n → m ≡ n
key_at-injective m n e = decimal-injective m n (append_cancel (text "tab-") _ _ e)

pub append-IsKeyed :
    (keys : ℕ) (tabs : List TerminalTab) (tab : TerminalTab)
    → tab.key ≡ key_at (keys + 1)
    → IsKeyed keys tabs
    → IsKeyed (keys + 1) (tabs ++ tab ∷ [])
append-IsKeyed keys tabs tab named k = record {
  given = λ x m. elim (Memᴰ.append_cases tabs m) [
    | inl old ↦ let (n, e, low) = k.given x old in (n, e, omega (arith, low))
    | inr new ↦
        (keys + 1, ap (λ (y : TerminalTab). y.key) (Memᴰ.eq_of_singleton new) ∙ named, omega arith)
  ];
  unique = λ a b m n same. elim (Memᴰ.append_cases tabs m) [
    | inl old ↦ elim (Memᴰ.append_cases tabs n) [
      | inl older ↦ k.unique a b old older same
      | inr new ↦ absurd (fresh a b old (Memᴰ.eq_of_singleton new) same)
    ]
    | inr new ↦ elim (Memᴰ.append_cases tabs n) [
      | inl old ↦ absurd (fresh b a old (Memᴰ.eq_of_singleton new) (sym same))
      | inr newer ↦ Memᴰ.eq_of_singleton new ∙ sym (Memᴰ.eq_of_singleton newer)
    ]
  ];
}
  where
    fresh : (a b : TerminalTab) → Memᴰ a tabs → b ≡ tab → a.key ≡ b.key → ⊥
    fresh a b old new same =
        let (n, e, low) = k.given a old in
        omega (
          arith,
          low,
          key_at-injective n (keys + 1)
              (sym e ∙ same ∙ ap (λ (y : TerminalTab). y.key) new ∙ named),
        )

pub restored-IsKeyed :
    (saved : List RestoredTerminal) (keys : ℕ) (project : Text) (tabs : List TerminalTab)
    → IsKeyed keys tabs
    → IsKeyed (counted keys saved) (tabs ++ restored keys project saved)
unfolding restored new_tab
restored-IsKeyed [] keys project tabs k = subst (IsKeyed keys) (sym (append-nil tabs)) k
restored-IsKeyed (first ∷ more) keys project tabs k =
    let tab = new_tab (key_at (keys + 1)) project first.title first.cwd none in
    subst (IsKeyed (counted (keys + 1) more))
      (append_assoc tabs (tab ∷ []) (restored (keys + 1) project more))
      (restored-IsKeyed more (keys + 1) project (tabs ++ tab ∷ [])
        (append-IsKeyed keys tabs tab refl k))

-- A change that keeps keys.
pub map-IsKeyed :
    (f : TerminalTab → TerminalTab) (keys : ℕ) (tabs : List TerminalTab)
    → ((tab : TerminalTab) → (f tab).key ≡ tab.key)
    → IsKeyed keys tabs
    → IsKeyed keys (map f tabs)
map-IsKeyed f keys tabs keeps k = record {
  given = λ x m.
      let (tab, listed, same) = Memᴰ.of_map f tabs m in
      let (n, e, low) = k.given tab listed in
      (n, ap (λ (y : TerminalTab). y.key) (sym same) ∙ keeps tab ∙ e, low);
  unique = λ a b m n same.
      let (x, listed_x, made_x) = Memᴰ.of_map f tabs m in
      let (y, listed_y, made_y) = Memᴰ.of_map f tabs n in
      let one = k.unique x y listed_x listed_y (
        sym (keeps x)
        ∙ ap (λ (z : TerminalTab). z.key) made_x
        ∙ same
        ∙ ap (λ (z : TerminalTab). z.key) (sym made_y)
        ∙ keeps y) in
      sym made_x ∙ ap f one ∙ made_y;
}

pub filter-IsKeyed :
    (p : TerminalTab → Bool) (keys : ℕ) (tabs : List TerminalTab)
    → IsKeyed keys tabs
    → IsKeyed keys (filter p tabs)
filter-IsKeyed p keys tabs k = record {
  given = λ x m. k.given x (filter-from p tabs m);
  unique = λ a b m n. k.unique a b (filter-from p tabs m) (filter-from p tabs n);
}
