-- ===== src/Common/Lists.antt =====
-- Arrays as lists: the methods that the program calls on them, over the native numbers.
use Prim.Native.Nat.{ℕ, zero, suc, ◌+◌}
use mathlib.Core.Path.{◌≡◌, refl, ap, sym, subst, ◌∙◌}
use mathlib.Core.Bool.{Bool, true, false, ◌||◌, ◌&&◌}
use mathlib.Core.List.{List, [], ◌∷◌, ◌++◌, Memᴰ}
use mathlib.Core.Option.{Option, none, some}
use mathlib.Core.Logic.{inl, inr}
use mathlib.Core.List.Memᴰ
use native.Mathlib.Omega.{arith}
use m6t.Common.Tests.{if◌then◌else◌, or_else, if_cases}

abbrev pub All {ℓ κ} : {A : Type ℓ} → (A → Type κ) → List A → Type κ
All P [] = Unit
All P (x ∷ xs) = P x × All P xs

-- One further on, where there is an index at all.
abbrev pub next_index : Option ℕ → Option ℕ
next_index none = none
next_index (some i) = some (suc i)

module _ {ℓ} {A : Type ℓ} where
  abbrev pub length : List A → ℕ
  length [] = 0
  length (x ∷ xs) = suc (length xs)

  abbrev pub get_elem? : List A → ℕ → Option A
  get_elem? [] i = none
  get_elem? (x ∷ xs) zero = some x
  get_elem? (x ∷ xs) (suc i) = get_elem? xs i

  abbrev pub take : ℕ → List A → List A
  take zero xs = []
  take (suc n) [] = []
  take (suc n) (x ∷ xs) = x ∷ take n xs

  abbrev pub drop : ℕ → List A → List A
  drop zero xs = xs
  drop (suc n) [] = []
  drop (suc n) (x ∷ xs) = drop n xs

  -- The last entry, `xs[xs.length - 1]`.
  abbrev pub last_of : List A → Option A
  last_of [] = none
  last_of (x ∷ xs) = some (or_else (last_of xs) x)

  -- `Array.filter`.
  abbrev pub filter : (A → Bool) → List A → List A
  filter p [] = []
  filter p (x ∷ xs) = let rest = filter p xs in if p x then x ∷ rest else rest

  -- `Array.find`.
  abbrev pub find : (A → Bool) → List A → Option A
  find p [] = none
  find p (x ∷ xs) = let rest = find p xs in if p x then some x else rest

  -- `Array.findIndex`, with `none` for -1.
  abbrev pub find_index : (A → Bool) → List A → Option ℕ
  find_index p [] = none
  find_index p (x ∷ xs) = let rest = find_index p xs in if p x then some 0 else next_index rest

  -- `Array.some` and `Array.every`.
  abbrev pub any : (A → Bool) → List A → Bool
  any p [] = false
  any p (x ∷ xs) = p x || any p xs

  abbrev pub all : (A → Bool) → List A → Bool
  all p [] = true
  all p (x ∷ xs) = p x && all p xs

  pub take-drop : (n : ℕ) (xs : List A) → take n xs ++ drop n xs ≡ xs
  take-drop zero xs = refl
  take-drop (suc n) [] = refl
  take-drop (suc n) (x ∷ xs) = ap (λ l. x ∷ l) (take-drop n xs)

  pub length-append : (xs ys : List A) → length (xs ++ ys) ≡ length xs + length ys
  length-append [] ys = omega arith
  length-append (x ∷ xs) ys = omega (arith, length-append xs ys)

pub All-filter {ℓ κ} :
    {A : Type ℓ} (P : A → Type κ) (p : A → Bool) (xs : List A) → All P xs → All P (filter p xs)
All-filter P p [] h = tt
All-filter P p (x ∷ xs) h =
    if_cases (All P) (p x) (λ _. (h.0, All-filter P p xs h.1)) (λ _. All-filter P p xs h.1)

pub All-map {ℓ κ ν} :
    {A : Type ℓ} (P : A → Type κ) (Q : A → Type ν) (f : (a : A) → P a → Q a) (xs : List A)
    → All P xs
    → All Q xs
All-map P Q f [] h = tt
All-map P Q f (x ∷ xs) h = (f x h.0, All-map P Q f xs h.1)

pub All-Memᴰ {ℓ κ} :
    {A : Type ℓ} (P : A → Type κ) (xs : List A) {x : A} → All P xs → Memᴰ x xs → P x
All-Memᴰ P [] h m = elim m [ ]
All-Memᴰ P (y ∷ xs) h (Memᴰ.head same) = subst P (sym same) h.0
All-Memᴰ P (y ∷ xs) h (Memᴰ.tail m) = All-Memᴰ P xs h.1 m

pub All-of {ℓ κ} :
    {A : Type ℓ} (P : A → Type κ) (xs : List A) → ((x : A) → Memᴰ x xs → P x) → All P xs
All-of P [] h = tt
All-of P (x ∷ xs) h = (h x (Memᴰ.head refl), All-of P xs λ y m. h y (Memᴰ.tail m))

-- What passes the test is kept.
pub filter-Memᴰ {ℓ} :
    {A : Type ℓ} (p : A → Bool) (xs : List A) {x : A}
    → p x ≡ true
    → Memᴰ x xs
    → Memᴰ x (filter p xs)
filter-Memᴰ p [] h m = elim m [ ]
filter-Memᴰ p (y ∷ xs) {x} h (Memᴰ.head same) =
    subst (λ b. Memᴰ x (if b then y ∷ filter p xs else filter p xs)) (sym (ap p (sym same) ∙ h))
      (Memᴰ.head same)
filter-Memᴰ p (y ∷ xs) {x} h (Memᴰ.tail m) =
    if_cases (Memᴰ x) (p y) (λ _. Memᴰ.tail (filter-Memᴰ p xs h m)) (λ _. filter-Memᴰ p xs h m)

-- What a filter leaves was there.
pub filter-from {ℓ} :
    {A : Type ℓ} (p : A → Bool) (xs : List A) {x : A} → Memᴰ x (filter p xs) → Memᴰ x xs
filter-from p [] m = m
filter-from p (y ∷ xs) {x} m =
    if_cases (λ l. Memᴰ x l → Memᴰ x (y ∷ xs)) (p y)
      (λ _ n. elim (Memᴰ.cases_cons n) [
        | inl own ↦ Memᴰ.head own
        | inr rest ↦ Memᴰ.tail (filter-from p xs rest)
      ])
      (λ _ n. Memᴰ.tail (filter-from p xs n)) m
