-- ===== src/Git/Flat.antt =====
-- frontend/src/lib/gitStatus.ts: the walk of `changedRows` over what is filed.
use mathlib.Core.List.Memᴰ
use m6t.Common.{
  ℕ, zero, suc, ◌+◌, ◌≤◌, ◌<◌, ◌≡◌, refl, inl, inr, true, Option, List, [], ◌∷◌, Memᴰ, arith,
  if_cases, or_else, length, Text, lookup,
}
use m6t.Tree.{TreeEntry, TreeRow}
use m6t.Tree.Rows.{Ends, >>=-Ends}
use m6t.Git.Changed.{before, sorted_in, sort, flatten_each, flatten}

-- What is filed under a directory.

abbrev pub under : List (Text × List TreeEntry) → Text → List TreeEntry
under children dir = or_else (lookup dir children) []

-- An entry that the walk from a directory comes to.
pub data Reach (children : List (Text × List TreeEntry)) (e : TreeEntry) : Text → Type 0 where
  here : {dir : Text} → Memᴰ e (under children dir) → Reach children e dir
  there :
      {dir : Text} (over : TreeEntry)
      → Memᴰ over (under children dir)
      → over.is_dir ≡ true
      → Reach children e over.path
      → Reach children e dir

-- The entries of a directory that is come to are come to.
pub Reach-into :
    {children : List (Text × List TreeEntry)} {over e : TreeEntry} {dir : Text}
    → Reach children over dir
    → over.is_dir ≡ true
    → Memᴰ e (under children over.path)
    → Reach children e dir
Reach-into {over} (here m) d n = there over m d (here n)
Reach-into (there x m b r) d n = there x m b (Reach-into r d n)

module _ (lower : Text → Text) where
  -- Sorting keeps the entries.
  sorted_in_keeps :
      (x : TreeEntry) (xs : List TreeEntry) {e : TreeEntry}
      → Memᴰ e (x ∷ xs)
      → Memᴰ e (sorted_in lower x xs)
  unfolding sorted_in
  sorted_in_keeps x [] m = m
  sorted_in_keeps x (y ∷ xs) {e} m =
      if_cases (Memᴰ e) (before lower y x)
        (λ _. elim (Memᴰ.cases_cons m) [
          | inl own ↦ Memᴰ.tail (sorted_in_keeps x xs (Memᴰ.head own))
          | inr rest ↦ elim (Memᴰ.cases_cons rest) [
            | inl first ↦ Memᴰ.head first
            | inr later ↦ Memᴰ.tail (sorted_in_keeps x xs (Memᴰ.tail later))
          ]
        ])
        (λ _. m)

  sorted_in_from :
      (x : TreeEntry) (xs : List TreeEntry) {e : TreeEntry}
      → Memᴰ e (sorted_in lower x xs)
      → Memᴰ e (x ∷ xs)
  unfolding sorted_in
  sorted_in_from x [] m = m
  sorted_in_from x (y ∷ xs) {e} m =
      if_cases (λ (l : List TreeEntry). Memᴰ e l → Memᴰ e (x ∷ y ∷ xs)) (before lower y x)
        (λ _ n. elim (Memᴰ.cases_cons n) [
          | inl first ↦ Memᴰ.tail (Memᴰ.head first)
          | inr later ↦ elim (Memᴰ.cases_cons (sorted_in_from x xs later)) [
            | inl own ↦ Memᴰ.head own
            | inr rest ↦ Memᴰ.tail (Memᴰ.tail rest)
          ]
        ])
        (λ _ n. n) m

  pub sort_keeps : (es : List TreeEntry) {e : TreeEntry} → Memᴰ e es → Memᴰ e (sort lower es)
  unfolding sort
  sort_keeps [] m = m
  sort_keeps (x ∷ es) (Memᴰ.head same) = sorted_in_keeps x (sort lower es) (Memᴰ.head same)
  sort_keeps (x ∷ es) (Memᴰ.tail m) =
      sorted_in_keeps x (sort lower es) (Memᴰ.tail (sort_keeps es m))

  pub sort_from : (es : List TreeEntry) {e : TreeEntry} → Memᴰ e (sort lower es) → Memᴰ e es
  unfolding sort
  sort_from [] m = m
  sort_from (x ∷ es) m = elim (Memᴰ.cases_cons (sorted_in_from x (sort lower es) m)) [
    | inl own ↦ Memᴰ.head own
    | inr rest ↦ Memᴰ.tail (sort_from es rest)
  ]

  flatten_each-Ends :
      (go : Text → Option (List TreeRow)) (depth : ℕ) (entries : List TreeEntry)
      → ((e : TreeEntry) → Memᴰ e entries → Ends (go e.path))
      → Ends (flatten_each lower go depth entries)
  unfolding flatten_each
  flatten_each-Ends go depth [] h = ([], refl)
  flatten_each-Ends go depth (e ∷ entries) h =
      >>=-Ends (if_cases Ends e.is_dir (λ _. h e (Memᴰ.head refl)) (λ _. ([], refl)))
        λ i. >>=-Ends (flatten_each-Ends go depth entries (λ x m. h x (Memᴰ.tail m))) λ r. (_, refl)

  -- The walk ends where each directory's entries have longer paths, up to a bound.
  pub flatten-Ends :
      (fuel longest : ℕ) (children : List (Text × List TreeEntry)) (dir : Text) (depth : ℕ)
      → ((d : Text) (e : TreeEntry)
          → Memᴰ e (under children d)
          → (length d < length e.path) × (length e.path ≤ longest))
      → longest + 2 ≤ fuel + length dir
      → 1 ≤ fuel
      → Ends (flatten lower fuel children dir depth)
  unfolding flatten
  flatten-Ends zero longest children dir depth grow enough some_fuel = absurd (omega arith)
  flatten-Ends (suc fuel) longest children dir depth grow enough some_fuel =
      flatten_each-Ends (λ path. flatten lower fuel children path (depth + 1)) depth
        (sort lower (under children dir))
        (λ e m.
          let g = grow dir e (sort_from (under children dir) m) in
          flatten-Ends fuel longest children e.path (depth + 1) grow (omega (arith, g.0))
            (omega (arith, g.0, g.1)))
