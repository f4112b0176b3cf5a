-- ===== src/Common/Members.antt =====
-- Which entries the array methods find and keep.
use Prim.Native.Nat.{ℕ, zero, suc}
use mathlib.Core.Path.{◌≡◌, refl, ap, sym, ◌∙◌}
use mathlib.Core.Logic.{inl, inr}
use mathlib.Core.Bool.{Bool, true, false}
use mathlib.Core.List.{List, [], ◌∷◌, Memᴰ}
use mathlib.Core.List.Memᴰ
use mathlib.Core.Option.{Option, none, some}
use m6t.Common.Tests.{if_cases, some_inj}
use m6t.Common.Lists.{filter, find, find_index, next_index, get_elem?}

module _ {ℓ} {A : Type ℓ} where
  pub filter_passes : (p : A → Bool) (xs : List A) {x : A} → Memᴰ x (filter p xs) → p x ≡ true
  filter_passes p [] m = elim m [ ]
  filter_passes p (y ∷ xs) {x} m =
      if_cases (λ l. Memᴰ x l → p x ≡ true) (p y)
        (λ e n. elim (Memᴰ.cases_cons n) [
          | inl own ↦ ap p own ∙ e
          | inr rest ↦ filter_passes p xs rest
        ])
        (λ _ n. filter_passes p xs n) m

  pub find-Memᴰ : (p : A → Bool) (xs : List A) {x : A} → find p xs ≡ some x → Memᴰ x xs
  find-Memᴰ p [] e = cc
  find-Memᴰ p (y ∷ xs) {x} e =
      if_cases (λ o. o ≡ some x → Memᴰ x (y ∷ xs)) (p y)
        (λ _ found. Memᴰ.head (sym (some_inj found))) (λ _ found. Memᴰ.tail (find-Memᴰ p xs found))
        e

  pub find_passes : (p : A → Bool) (xs : List A) {x : A} → find p xs ≡ some x → p x ≡ true
  find_passes p [] e = cc
  find_passes p (y ∷ xs) {x} e =
      if_cases (λ o. o ≡ some x → p x ≡ true) (p y) (λ own found. ap p (sym (some_inj found)) ∙ own)
        (λ _ found. find_passes p xs found) e

  pub find_fails : (p : A → Bool) (xs : List A) {x : A} → find p xs ≡ none → Memᴰ x xs → p x ≡ false
  find_fails p [] e m = elim m [ ]
  find_fails p (y ∷ xs) {x} e m =
      if_cases (λ o. o ≡ none → p x ≡ false) (p y) (λ _ found. cc)
        (λ other found. elim (Memᴰ.cases_cons m) [
          | inl own ↦ ap p own ∙ other
          | inr rest ↦ find_fails p xs found rest
        ])
        e

  pub find_index_fails :
      (p : A → Bool) (xs : List A) {x : A} → find_index p xs ≡ none → Memᴰ x xs → p x ≡ false
  find_index_fails p [] e m = elim m [ ]
  find_index_fails p (y ∷ xs) {x} e m =
      if_cases (λ o. o ≡ none → p x ≡ false) (p y) (λ _ found. cc)
        (λ other found. elim (Memᴰ.cases_cons m) [
          | inl own ↦ ap p own ∙ other
          | inr rest ↦ find_index_fails p xs (nowhere (find_index p xs) found) rest
        ])
        e
    where
      nowhere : (o : Option ℕ) → next_index o ≡ none → o ≡ none
      nowhere none h = refl
      nowhere (some i) h = cc

  pub get_elem?-Memᴰ : (xs : List A) (i : ℕ) {x : A} → get_elem? xs i ≡ some x → Memᴰ x xs
  get_elem?-Memᴰ [] i e = cc
  get_elem?-Memᴰ (y ∷ xs) zero e = Memᴰ.head (sym (some_inj e))
  get_elem?-Memᴰ (y ∷ xs) (suc i) e = Memᴰ.tail (get_elem?-Memᴰ xs i e)
