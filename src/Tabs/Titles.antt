-- ===== src/Tabs/Titles.antt =====
-- frontend/src/lib/tabs.ts: the title of a new tab is free, and the lowest free one.
use m6t.Common.{
  ℕ, zero, suc, ◌+◌, ◌-◌, ◌*◌, ◌/◌, ◌%◌, ◌≤◌, ◌<◌, ◌≡◌, refl, sym, ap, ◌∙◌, subst, ◌⊎◌, inl, inr,
  true, false, Option, some, List, [], ◌∷◌, ◌++◌, map, arith, if◌then◌else◌, Bool-cases,
  false_of_not, length, Text, text_eq, text_eq_iff, contains, remove, contains-remove,
}
use m6t.Tabs.{TerminalTab, digits, decimal, title_at, next_free, next_title}

value : ℕ → Text → ℕ
value n [] = n
value n (c ∷ s) = value (n * 10 + (c - b'0')) s

value-append : (n : ℕ) (s : Text) (c : ℕ) → value n (s ++ c ∷ []) ≡ value n s * 10 + (c - b'0')
unfolding value
value-append n [] c = refl
value-append n (d ∷ s) c = value-append (n * 10 + (d - b'0')) s c

value-digits : (fuel n : ℕ) → n < fuel → value 0 (digits fuel n) ≡ n
unfolding digits value
value-digits zero n h = elim h [ ]
value-digits (suc fuel) n h =
    ground
      (arith, value-digits fuel (n / 10), value-append 0 (digits fuel (n / 10)) (b'0' + n % 10))

pub decimal-injective : (m n : ℕ) → decimal m ≡ decimal n → m ≡ n
unfolding decimal
decimal-injective m n e =
    sym (value-digits (suc m) m (omega arith))
    ∙ ap (value 0) e
    ∙ value-digits (suc n) n (omega arith)

pub append_cancel : (s t u : Text) → s ++ t ≡ s ++ u → t ≡ u
append_cancel [] t u e = e
append_cancel (c ∷ s) t u e = append_cancel s t u (cc)

title_at-injective : (base : Text) (m n : ℕ) → title_at base m ≡ title_at base n → m ≡ n
title_at-injective base m n e = decimal-injective m n (cons_tail (append_cancel base _ _ e))
  where
    cons_tail : {c : ℕ} {s t : Text} → c ∷ s ≡ c ∷ t → s ≡ t
    cons_tail h = cc

length-remove-le : (x : Text) (xs : List Text) → length (remove x xs) ≤ length xs
unfolding remove
length-remove-le x [] = omega arith
length-remove-le x (y ∷ xs) = ground (arith, length-remove-le x xs)

length-remove-lt :
    (x : Text) (xs : List Text) → contains x xs ≡ true → length (remove x xs) < length xs
unfolding contains remove
length-remove-lt x [] h = cc
length-remove-lt x (y ∷ xs) h = ground (arith, length-remove-le x xs, length-remove-lt x xs)

-- The titles from the `n`-th on, `k` of them, are among `xs`.
unfoldable pub AreTaken : Text → ℕ → ℕ → List Text → Type 0
AreTaken base k n xs = (i : ℕ) → n ≤ i → i < n + k → contains (title_at base i) xs ≡ true

taken_count : (base : Text) (k n : ℕ) (xs : List Text) → AreTaken base k n xs → k ≤ length xs
unfolding AreTaken
taken_count base zero n xs h = omega arith
taken_count base (suc k) n xs h =
    let fewer : k ≤ length (remove (title_at base n) xs) =
      taken_count base k (n + 1) (remove (title_at base n) xs) λ i low high.
        contains-remove (title_at base n) (title_at base i) xs
        ∙ ap (λ b. if b then false else contains (title_at base i) xs)
            (false_of_not (text_eq (title_at base n) (title_at base i))
              λ same. omega (arith, low, title_at-injective base n i ((text_eq_iff _ _).0 same)))
        ∙ h i (omega (arith, low)) (omega (arith, high)) in
    omega (arith, fewer, length-remove-lt (title_at base n) xs (h n (omega arith) (omega arith)))

AreTaken-suc :
    (base : Text) (k n : ℕ) (taken : List Text)
    → contains (title_at base n) taken ≡ true
    → AreTaken base k (n + 1) taken
    → AreTaken base (suc k) n taken
unfolding AreTaken
AreTaken-suc base k n taken first rest i low high = elim (min_cases n i low) [
  | inl same ↦ subst (λ j. contains (title_at base j) taken ≡ true) same first
  | inr less ↦ rest i less (omega (arith, high))
]
  where
    min_cases : (n i : ℕ) → n ≤ i → (n ≡ i) ⊎ (n + 1 ≤ i)
    min_cases n i h = ground (arith, h)

none_taken : (base : Text) (n : ℕ) (taken : List Text) → AreTaken base 0 n taken
unfolding AreTaken
none_taken base n taken i low high = absurd (omega (arith, low, high))

-- What the loop finds from the `n`-th title on.
unfoldable IsFirstFree : Text → ℕ → List Text → Option Text → ℕ → Type 0
IsFirstFree base n taken found j =
    (found ≡ some (title_at base (n + j)))
    × (contains (title_at base (n + j)) taken ≡ false)
    × AreTaken base j n taken

IsFirstFree-suc :
    (base : Text) (n : ℕ) (taken : List Text) (rest : Option Text) (j : ℕ)
    → contains (title_at base n) taken ≡ true
    → IsFirstFree base (n + 1) taken rest j
    → IsFirstFree base n taken
        (if contains (title_at base n) taken then rest else some (title_at base n))
        (suc j)
unfolding IsFirstFree
IsFirstFree-suc base n taken rest j first (found, free, lower) = (
  ap (λ b. if b then rest else some (title_at base n)) first
      ∙ found
      ∙ ap (λ m. some (title_at base m)) next,
  ap (λ m. contains (title_at base m) taken) (sym next) ∙ free,
  AreTaken-suc base j n taken first lower,
)
  where
    next : n + 1 + j ≡ n + suc j
    next = omega arith

next_free_lem :
    (fuel : ℕ) (taken : List Text) (base : Text) (n : ℕ)
    → ((j : ℕ) × IsFirstFree base n taken (next_free fuel taken base n) j)
      ⊎ AreTaken base fuel n taken
unfolding next_free IsFirstFree
next_free_lem zero taken base n = inr (none_taken base n taken)
next_free_lem (suc fuel) taken base n = elim (Bool-cases (contains (title_at base n) taken)) [
  | inl first ↦ elim (next_free_lem fuel taken base (n + 1)) [
    | inl (j, h) ↦ inl (suc j, IsFirstFree-suc base n taken _ j first h)
    | inr all_taken ↦ inr (AreTaken-suc base fuel n taken first all_taken)
  ]
  | inr free ↦ inl (
    0,
    (
      ap (λ b. if b then next_free fuel taken base (n + 1) else some (title_at base n)) free
          ∙ ap (λ m. some (title_at base m)) here,
      ap (λ m. contains (title_at base m) taken) (sym here) ∙ free,
      none_taken base n taken,
    ),
  )
]
  where
    here : n ≡ n + 0
    here = omega arith

unfoldable pub titles : List TerminalTab → List Text
titles tabs = map (λ (tab : TerminalTab). tab.title) tabs

-- A new tab's title is found for every strip and base; it is `base` and a number, no tab has it, and
-- with every lower number, from 1 on, it is some tab's title.
pub next_title-lowest_free :
    (tabs : List TerminalTab) (base : Text)
    → (j : ℕ) × (next_title tabs base ≡ some (title_at base (1 + j)))
      × (contains (title_at base (1 + j)) (titles tabs) ≡ false)
      × ((i : ℕ) → 1 ≤ i → i < 1 + j → contains (title_at base i) (titles tabs) ≡ true)
unfolding titles IsFirstFree AreTaken next_title
next_title-lowest_free tabs base = elim (next_free_lem (length taken + 1) taken base 1) [
  | inl (j, (found, free, lower)) ↦ (j, found, free, lower)
  | inr all_taken ↦ absurd (omega (arith, taken_count base (length taken + 1) 1 taken all_taken))
]
  where
    taken : List Text
    taken = map (λ (tab : TerminalTab). tab.title) tabs
