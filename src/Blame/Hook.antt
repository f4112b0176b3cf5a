-- ===== src/Blame/Hook.antt =====
-- frontend/src/lib/useBlame.ts: the blame of the active tab, read from a backend that answers later.
use m6t.Common.{
  same_bool, ℕ, suc, ◌==◌, ◌≤◌, ◌≡◌, refl, ap, Bool, false, ◌&&◌, Option, none, some, some_inj,
  List, [], ◌∷◌, arith, if◌then◌else◌, if_cases, both_cases, maybe, length, Text, text, text_eq,
  answer_to, IsAsked, IsAsked-suc, IsAsked-cons,
}
use m6t.EditorTabs.{EditorTab, is_ready}
use m6t.Blame.{Blame}

pub record BlameState : Type 0 where
  pub blame : Option Blame
  pub error : Option Text

unfoldable pub no_blame : BlameState
no_blame = record { blame = none; error = none }

-- What the binding answers: a blame, or a thrown error, string or other value.
pub data Answer : Type 0 where
  blamed : Blame → Answer
  threw_error threw_string : Text → Answer
  threw_other : Answer

unfoldable pub read_blame : Answer → BlameState
read_blame (blamed blame) = record { blame = some blame; error = none }
read_blame (threw_error message) = record { blame = none; error = some message }
read_blame (threw_string s) = record { blame = none; error = some s }
read_blame threw_other = record {
  blame = none;
  error = some (text "the git backend is not reachable");
}

-- What the effect depends on.
pub record Wanted : Type 0 where
  pub wanted : Bool
  pub root : Text
  pub path : Text
  pub baseline : Text

unfoldable pub wanted_of : Option EditorTab → Wanted
wanted_of none = record { wanted = false; root = []; path = []; baseline = [] }
wanted_of (some tab) = record {
  wanted = is_ready tab.status;
  root = tab.root;
  path = tab.path;
  baseline = tab.baseline;
}

unfoldable pub same_wanted : Wanted → Wanted → Bool
same_wanted a b =
    same_bool a.wanted b.wanted
    && text_eq a.root b.root
    && text_eq a.path b.path
    && text_eq a.baseline b.baseline

-- `live` numbers the read whose `live` flag is set; `asked` holds every read, latest first.
pub record Hook : Type 0 where
  pub key : Option Wanted
  pub state : BlameState
  pub live : Option ℕ
  pub asked : List (Text × Text)

unfoldable pub new_hook : Hook
new_hook = record { key = none; state = no_blame; live = none; asked = [] }

-- The effect, with the clean-up of the last one.
unfoldable pub effect : Wanted → Hook → Hook
effect key h =
    if key.wanted
    then record h {
      key = some key;
      live = some (suc (length h.asked));
      asked = (key.root, key.path) ∷ h.asked;
    }
    else record h { key = some key; state = no_blame; live = none }

-- A render with a tab.
unfoldable pub render : Option EditorTab → Hook → Hook
render tab h =
    let key = wanted_of tab in if maybe h.key false (same_wanted key) then h else effect key h

unfoldable pub answered : ℕ → Answer → Hook → Hook
answered read answer h =
    if maybe h.live false (λ live. live == read) then record h { state = read_blame answer } else h

-- Its answers so far, latest first. Only a read that was asked for is answered.
pub data Reachable : Hook → List (ℕ × Answer) → Type 0 where
  begin : Reachable new_hook []
  renders :
      {h : Hook} {answers : List (ℕ × Answer)} (tab : Option EditorTab)
      → Reachable h answers
      → Reachable (render tab h) answers
  answers_read :
      {h : Hook} {answers : List (ℕ × Answer)} (read : ℕ) (answer : Answer)
      → Reachable h answers
      → read ≤ length h.asked
      → Reachable (answered read answer h) ((read, answer) ∷ answers)

-- What the hook holds for the read that is live.
abbrev pub Follows :
    Option Wanted → Option ℕ → List (Text × Text) → BlameState → List (ℕ × Answer) → Type 0
Follows key none asked state answers = state ≡ no_blame
Follows key (some read) asked state answers =
    (wanted : Wanted) × (earlier : List (Text × Text)) × (key ≡ some wanted)
    × (asked ≡ (wanted.root, wanted.path) ∷ earlier)
    × (read ≡ length asked)
    × ((answer : Answer) → answer_to read answers ≡ some answer → state ≡ read_blame answer)

record Inv (h : Hook) (answers : List (ℕ × Answer)) : Type 0 where
  known : IsAsked (length h.asked) answers
  follows : Follows h.key h.live h.asked h.state answers

effect-Inv :
    (key : Wanted) (h : Hook) (answers : List (ℕ × Answer))
    → Inv h answers
    → Inv (effect key h) answers
unfolding effect
effect-Inv key h answers inv =
    if_cases (λ u. Inv u answers) key.wanted
      (λ _. record {
        known = IsAsked-suc (length h.asked) answers inv.known;
        follows = (
          key,
          h.asked,
          refl,
          refl,
          refl,
          λ answer e. absurd (omega (arith, inv.known (suc (length h.asked)) answer e)),
        );
      })
      (λ _. record { known = inv.known; follows = refl })

answered-Inv :
    (read : ℕ) (answer : Answer) (h : Hook) (answers : List (ℕ × Answer)) (live : Option ℕ)
    → Follows h.key live h.asked h.state answers
    → Follows h.key live h.asked
        (if maybe live false (λ l. l == read)
          then record h { state = read_blame answer }
          else h).state
        ((read, answer) ∷ answers)
answered-Inv read answer h answers none f = f
answered-Inv read answer h answers (some live) (wanted, earlier, key, last, own, shows) = (
  wanted,
  earlier,
  key,
  last,
  own,
  both_cases (λ (u : Hook) (o : Option Answer). (a : Answer) → o ≡ some a → u.state ≡ read_blame a)
      (live == read) {x = record h { state = read_blame answer }} {y = h} {u = some answer}
      {v = answer_to live answers} (λ a e. ap read_blame (some_inj e)) shows,
)

answers_read-Inv :
    (read : ℕ) (answer : Answer) (h : Hook) (answers : List (ℕ × Answer))
    → read ≤ length h.asked
    → Inv h answers
    → Inv (answered read answer h) ((read, answer) ∷ answers)
unfolding answered
answers_read-Inv read answer h answers asked inv =
    let known = IsAsked-cons (length h.asked) read answer answers asked inv.known in
    if_cases
      (λ (u : Hook).
        Follows h.key h.live h.asked u.state ((read, answer) ∷ answers)
        → Inv u ((read, answer) ∷ answers))
      (maybe h.live false λ live. live == read) (λ _ f. record { known = known; follows = f })
      (λ _ f. record { known = known; follows = f })
      (answered-Inv read answer h answers h.live inv.follows)

Reachable-Inv : {h : Hook} {answers : List (ℕ × Answer)} → Reachable h answers → Inv h answers
unfolding new_hook render
Reachable-Inv begin = record { known = λ read answer e. cc; follows = refl }
Reachable-Inv (renders {h} {answers} tab r) =
    if_cases (λ u. Inv u answers) (maybe h.key false (same_wanted (wanted_of tab)))
      (λ _. Reachable-Inv r) (λ _. effect-Inv (wanted_of tab) h answers (Reachable-Inv r))
Reachable-Inv (answers_read {h} {answers} read answer r asked) =
    answers_read-Inv read answer h answers asked (Reachable-Inv r)

-- Whatever was rendered, and in whatever order the reads were answered: while no read is live, no
-- blame and no error is held; and a read that is live is the last that was asked, for the root and the
-- path of the tab as the effect last saw it, and once it is answered what is held is its answer.
pub Reachable-Follows :
    (h : Hook) (answers : List (ℕ × Answer))
    → Reachable h answers
    → Follows h.key h.live h.asked h.state answers
Reachable-Follows h answers r = (Reachable-Inv r).follows
