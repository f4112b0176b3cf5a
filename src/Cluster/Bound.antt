-- ===== src/Cluster/Bound.antt =====
-- frontend/src/lib/useKube.ts: the binding that is shown, against late answers.
use m6t.Common.{
  ℕ, suc, ◌+◌, ◌==◌, ◌≤◌, ◌≡◌, refl, sym, ap, ◌∙◌, subst, true, false, Option, none, some, some_inj,
  List, [], ◌∷◌, arith, if◌then◌else◌, if_cases, both_cases, maybe, maybe_cases, or_else, length,
  answer_to, IsAsked, IsAsked-suc, IsAsked-cons, Text, text_eq_iff,
}
use m6t.Pipeline.{Binding, unbound, CheckResult}
use m6t.Cluster.{
  KubeSelection, Wanted, KubeHook, new_hook, same_text, same_selection, same_wanted, read_for,
  read_binding, render, bound, KubeConfig, Outcome, fulfilled, rejected, Tool, configured, check,
  checked, refresh,
}

pub data Event : Type 0 where
  renders : KubeSelection → Event
  refreshes : Event
  binds : ℕ → Option Binding → Event
  configures : ℕ → Outcome KubeConfig → Outcome (List Tool) → Event
  checks_it : Event
  has_checked : Outcome CheckResult → Event

unfoldable pub handle : Event → KubeHook → KubeHook
handle (renders selection) h = render selection h
handle refreshes h = refresh h
handle (binds read answer) h = bound read answer h
handle (configures generation config tools) h = configured generation config tools h
handle checks_it h = check h
handle (has_checked outcome) h = checked outcome h

-- The answers to the reads of a binding so far, latest first.
abbrev pub answers_with : Event → List (ℕ × Option Binding) → List (ℕ × Option Binding)
answers_with (binds read answer) answers = (read, answer) ∷ answers
answers_with _ answers = answers

-- Only a read that was asked for is answered.
abbrev pub Allowed : KubeHook → Event → Type 0
Allowed h (binds read answer) = read ≤ length h.asked
Allowed h _ = Unit

pub data Reachable : KubeHook → List (ℕ × Option Binding) → Type 0 where
  begin : Reachable new_hook []
  turn :
      {h : KubeHook} {answers : List (ℕ × Option Binding)} (event : Event)
      → Reachable h answers
      → Allowed h event
      → Reachable (handle event h) (answers_with event answers)

-- What is shown while no read is live, and what for the read that is.
abbrev pub Follows :
    KubeSelection → Option ℕ → List (Text × Text) → Binding → List (ℕ × Option Binding) → Type 0
Follows selection none asked binding answers = binding ≡ unbound
Follows selection (some read) asked binding answers =
    (project : Text) × (earlier : List (Text × Text)) × (selection.project ≡ some project)
    × (asked ≡ (project, selection.rel) ∷ earlier)
    × (read ≡ length asked)
    × ((answer : Option Binding)
        → answer_to read answers ≡ some answer
        → binding ≡ or_else answer unbound)

record Inv (h : KubeHook) (answers : List (ℕ × Option Binding)) : Type 0 where
  known : IsAsked (length h.asked) answers
  matches : (wanted : Wanted) → h.seen ≡ some wanted → wanted.selection ≡ h.selection
  follows : Follows h.selection h.live h.asked h.binding answers

same_text_eq : (a b : Option Text) → same_text a b ≡ true → a ≡ b
same_text_eq none none e = refl
same_text_eq none (some b) e = cc
same_text_eq (some a) none e = cc
same_text_eq (some a) (some b) e = ap some ((text_eq_iff a b).0 e)

same_selection_eq : (a b : KubeSelection) → same_selection a b ≡ true → a ≡ b
same_selection_eq a b e =
    let project : a.project ≡ b.project = same_text_eq a.project b.project (ground (arith, e)) in
    let rel : a.rel ≡ b.rel = (text_eq_iff a.rel b.rel).0 (ground (arith, e)) in
    λ i. record { project = project i; rel = rel i }

module _ (answers : List (ℕ × Option Binding)) where
  read_for-Inv :
      (wanted : Wanted) (o : Option Text) (h : KubeHook)
      → wanted.selection ≡ h.selection
      → wanted.selection.project ≡ o
      → IsAsked (length h.asked) answers
      → Inv (read_for wanted o h) answers
  read_for-Inv wanted none h same is known = record {
    known = known;
    matches = λ w e. ap (λ (x : Wanted). x.selection) (sym (some_inj e)) ∙ same;
    follows = refl;
  }
  read_for-Inv wanted (some project) h same is known = record {
    known = IsAsked-suc (length h.asked) answers known;
    matches = λ w e. ap (λ (x : Wanted). x.selection) (sym (some_inj e)) ∙ same;
    follows = (
      project,
      h.asked,
      ap (λ (s : KubeSelection). s.project) (sym same) ∙ is,
      ap (λ (s : KubeSelection). (project, s.rel) ∷ h.asked) same,
      refl,
      λ answer e. absurd (omega (arith, known (suc (length h.asked)) answer e)),
    );
  }

  -- A render, before the last check's verdict goes.
  read_binding-Inv :
      (selection : KubeSelection) (h : KubeHook)
      → Inv h answers
      → Inv
          (read_binding
            (record { selection = selection; generation = h.generation })
            (record h { selection = selection }))
          answers
  unfolding read_binding
  read_binding-Inv selection h inv = from h.seen refl
    where
      wanted : Wanted
      wanted = record { selection = selection; generation = h.generation }

      anew : Inv (read_for wanted selection.project (record h { selection = selection })) answers
      anew =
          read_for-Inv wanted selection.project (record h { selection = selection }) refl refl
            inv.known

      still : selection ≡ h.selection → Inv (record h { selection = selection }) answers
      still same = record {
        known = inv.known;
        matches = λ w e. inv.matches w e ∙ sym same;
        follows = subst (λ s. Follows s h.live h.asked h.binding answers) (sym same) inv.follows;
      }

      from :
          (o : Option Wanted)
          → h.seen ≡ o
          → Inv
              (if maybe o false (same_wanted wanted)
                then record h { selection = selection }
                else read_for wanted selection.project (record h { selection = selection }))
              answers
      from none e = anew
      from (some w) e =
          if_cases (λ u. Inv u answers) (same_wanted wanted w)
            (λ same.
              still
                (same_selection_eq selection w.selection (ground (arith, same)) ∙ inv.matches w e))
            (λ _. anew)

  render-Inv :
      (selection : KubeSelection) (h : KubeHook) → Inv h answers → Inv (render selection h) answers
  unfolding render
  render-Inv selection h inv =
      let read = read_binding-Inv selection h inv in
      if_cases (λ u. Inv u answers) (same_selection h.selection selection) (λ _. read)
        (λ _. record { known = read.known; matches = read.matches; follows = read.follows })

-- The binding after an answer.
bound-Follows :
    (selection : KubeSelection) (live : Option ℕ) (asked : List (Text × Text)) (binding : Binding)
    (answers : List (ℕ × Option Binding)) (read : ℕ) (answer : Option Binding)
    → Follows selection live asked binding answers
    → Follows selection live asked
        (if maybe live false (λ l. l == read) then or_else answer unbound else binding)
        ((read, answer) ∷ answers)
bound-Follows selection none asked binding answers read answer f = f
bound-Follows selection (some live) asked binding answers read answer
      (project, earlier, is, last, own, shows) =
    (
      project,
      earlier,
      is,
      last,
      own,
      both_cases
          (λ (u : Binding) (o : Option (Option Binding)).
            (a : Option Binding) → o ≡ some a → u ≡ or_else a unbound)
          (live == read) {x = or_else answer unbound} {y = binding} {u = some answer}
          {v = answer_to live answers} (λ a e. ap (λ b. or_else b unbound) (some_inj e)) shows,
    )

bound-Inv :
    (read : ℕ) (answer : Option Binding) (h : KubeHook) (answers : List (ℕ × Option Binding))
    → read ≤ length h.asked
    → Inv h answers
    → Inv (bound read answer h) ((read, answer) ∷ answers)
unfolding bound
bound-Inv read answer h answers asked inv =
    let known = IsAsked-cons (length h.asked) read answer answers asked inv.known in
    both_cases
      (λ (u : KubeHook) (b : Binding).
        Follows h.selection h.live h.asked b ((read, answer) ∷ answers)
        → Inv u ((read, answer) ∷ answers))
      (maybe h.live false λ live. live == read) {x = record h { binding = or_else answer unbound }}
      {y = h} {u = or_else answer unbound} {v = h.binding}
      (λ f. record { known = known; matches = inv.matches; follows = f })
      (λ f. record { known = known; matches = inv.matches; follows = f })
      (bound-Follows h.selection h.live h.asked h.binding answers read answer inv.follows)

configured-Inv :
    (generation : ℕ) (config : Outcome KubeConfig) (tools : Outcome (List Tool)) (h : KubeHook)
    (answers : List (ℕ × Option Binding))
    → Inv h answers
    → Inv (configured generation config tools h) answers
unfolding configured
configured-Inv generation (fulfilled config) tools h answers inv =
    if_cases (λ u. Inv u answers) (generation == h.generation)
      (λ _. record { known = inv.known; matches = inv.matches; follows = inv.follows }) (λ _. inv)
configured-Inv generation (rejected reason) tools h answers inv =
    if_cases (λ u. Inv u answers) (generation == h.generation)
      (λ _. record { known = inv.known; matches = inv.matches; follows = inv.follows }) (λ _. inv)

check-Inv :
    (h : KubeHook) (answers : List (ℕ × Option Binding)) → Inv h answers → Inv (check h) answers
unfolding check
check-Inv h answers inv =
    maybe_cases (λ u. Inv u answers) h.selection.project (λ _. inv)
      (λ project _. record { known = inv.known; matches = inv.matches; follows = inv.follows })

checked-Inv :
    (outcome : Outcome CheckResult) (h : KubeHook) (answers : List (ℕ × Option Binding))
    → Inv h answers
    → Inv (checked outcome h) answers
unfolding checked
checked-Inv (fulfilled result) h answers inv = record {
  known = inv.known;
  matches = inv.matches;
  follows = inv.follows;
}
checked-Inv (rejected message) h answers inv = record {
  known = inv.known;
  matches = inv.matches;
  follows = inv.follows;
}

Reachable-Inv :
    {h : KubeHook} {answers : List (ℕ × Option Binding)} → Reachable h answers → Inv h answers
unfolding new_hook handle refresh
Reachable-Inv begin = record { known = λ call answer e. cc; matches = λ w e. cc; follows = refl }
Reachable-Inv (turn {h} {answers} (renders selection) r ok) =
    render-Inv answers selection h (Reachable-Inv r)
Reachable-Inv (turn {h} {answers} refreshes r ok) =
    let inv = Reachable-Inv r in
    render-Inv answers h.selection (record h { generation = h.generation + 1 })
      (record { known = inv.known; matches = inv.matches; follows = inv.follows })
Reachable-Inv (turn {h} {answers} (binds read answer) r ok) =
    bound-Inv read answer h answers ok (Reachable-Inv r)
Reachable-Inv (turn {h} {answers} (configures generation config tools) r ok) =
    configured-Inv generation config tools h answers (Reachable-Inv r)
Reachable-Inv (turn {h} {answers} checks_it r ok) = check-Inv h answers (Reachable-Inv r)
Reachable-Inv (turn {h} {answers} (has_checked outcome) r ok) =
    checked-Inv outcome h answers (Reachable-Inv r)

-- Whatever is selected, refreshed and checked, and in whatever order the reads are answered: while no
-- read of a binding is live, nothing is bound; and a read that is live is the last that was asked, for
-- the selection on screen, and once it is answered what is shown is its answer, or nothing where it
-- failed.
pub Reachable-Bound :
    (h : KubeHook) (answers : List (ℕ × Option Binding))
    → Reachable h answers
    → Follows h.selection h.live h.asked h.binding answers
Reachable-Bound h answers r = (Reachable-Inv r).follows
