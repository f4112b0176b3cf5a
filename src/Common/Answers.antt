-- ===== src/Common/Answers.antt =====
-- Calls that are answered later: which answer a call had.
use Prim.Native.Nat.{ℕ, suc, ◌≤◌}
use mathlib.Core.Path.{◌≡◌}
use mathlib.Core.List.{List, [], ◌∷◌}
use mathlib.Core.Option.{Option, none, some}
use native.Mathlib.Omega.{arith}
use m6t.Common.Tests.{◌==◌, if◌then◌else◌, if_cases, ==_iff}

module _ {ℓ} {A : Type ℓ} where
  -- The latest answer to a call; the answers stand latest first.
  abbrev pub answer_to : ℕ → List (ℕ × A) → Option A
  answer_to call [] = none
  answer_to call ((c, answer) ∷ answers) =
      let rest = answer_to call answers in if call == c then some answer else rest

  -- No call is answered before it is made, where `n` were made.
  abbrev pub IsAsked : ℕ → List (ℕ × A) → Type ℓ
  IsAsked n answers = (call : ℕ) (answer : A) → answer_to call answers ≡ some answer → call ≤ n

  pub IsAsked-suc : (n : ℕ) (answers : List (ℕ × A)) → IsAsked n answers → IsAsked (suc n) answers
  IsAsked-suc n answers asked call answer e = omega (arith, asked call answer e)

  pub IsAsked-cons :
      (n call : ℕ) (answer : A) (answers : List (ℕ × A))
      → call ≤ n
      → IsAsked n answers
      → IsAsked n ((call, answer) ∷ answers)
  IsAsked-cons n call answer answers low asked c a e =
      if_cases (λ o. o ≡ some a → c ≤ n) (c == call)
        (λ own _. omega (arith, low, (==_iff c call).0 own)) (λ _ old. asked c a old) e
