-- ===== src/Tree/Rows.antt =====
-- frontend/src/lib/tree.ts: the walk of `visibleRows` ends, and what rows it draws.
use m6t.Common.{
  ℕ, zero, suc, ◌+◌, ◌≤◌, ◌≡◌, refl, sym, ap, ◌∙◌, subst, subst₂, ◌≢◌, inl, inr, not, ◌&&◌, Option,
  some, List, [], ◌∷◌, arith, Bool-cases, ◌>>=◌, if_cases, maybe_cases, All, length, length-append,
  All-filter, All-map, Text, text_eq, text_eq_iff, lookup, insert, contains,
}
use m6t.Paths.{root, slash, join_path, is_hidden}
use m6t.Tree.{
  TreeEntry, DirState, TreeState, children_of, visible_children, TreeRow, rows_of, walk,
  longest_listed, visible_rows,
}

-- Each listed child has a name, and its path is its directory's with that name.
abbrev pub IsChildOf : Text → TreeEntry → Type 0
IsChildOf dir e = (e.name ≢ []) × (e.path ≡ join_path dir e.name)

abbrev pub IsListing : Text × DirState → Type 0
IsListing (dir, d) = All (IsChildOf dir) d.children

abbrev pub IsWellListed : TreeState → Type 0
IsWellListed state = All IsListing state.dirs

pub lookup-listing :
    (dir : Text) (dirs : List (Text × DirState)) {d : DirState}
    → All IsListing dirs
    → lookup dir dirs ≡ some d
    → All (IsChildOf dir) d.children × (length dir ≤ longest_listed dirs)
unfolding lookup longest_listed
lookup-listing dir [] h e = cc
lookup-listing dir ((key, x) ∷ dirs) {d} h e = elim (Bool-cases (text_eq key dir)) [
  | inl t ↦
      let same = (text_eq_iff key dir).0 t in
      let found : x ≡ d = ground arith in
      (
        subst₂ (λ k y. All (IsChildOf k) y.children) same found h.0,
        ground (arith, ap {B = ℕ} length same),
      )
  | inr t ↦
      let (kids, short) = lookup-listing dir dirs {d = d} h.1 (ground arith) in
      (kids, omega (arith, short))
]

pub insert-IsListing :
    (dir : Text) (d : DirState) (dirs : List (Text × DirState))
    → All (IsChildOf dir) d.children
    → All IsListing dirs
    → All IsListing (insert dir d dirs)
unfolding insert
insert-IsListing dir d [] h hs = (h, tt)
insert-IsListing dir d ((key, x) ∷ dirs) h hs =
    if_cases (All IsListing) (text_eq key dir)
      (λ t. (subst (λ k. All (IsChildOf k) d.children) (sym ((text_eq_iff key dir).0 t)) h, hs.1))
      (λ _. (hs.0, insert-IsListing dir d dirs h hs.1))

length-join_path : (dir name : Text) → name ≢ [] → length dir + 1 ≤ length (join_path dir name)
unfolding join_path text_eq
length-join_path [] [] n = absurd (n refl)
length-join_path [] (c ∷ name) n = omega arith
length-join_path (c ∷ dir) name n = omega (arith, length-append {0} dir (slash ∷ name))

-- A child of a directory that has a listing, with a name of its own.
abbrev Listed : TreeState → Text → TreeEntry → Type 0
Listed state dir e = IsChildOf dir e × (length dir ≤ longest_listed state.dirs)

visible_children-Listed :
    (state : TreeState) (dir : Text)
    → IsWellListed state
    → All (Listed state dir) (visible_children state dir)
unfolding visible_children children_of
visible_children-Listed state dir w =
    let kids =
      maybe_cases (All (Listed state dir)) (lookup dir state.dirs) (λ _. tt)
        (λ d e.
          let (all_named, short) = lookup-listing dir state.dirs w e in
          All-map (IsChildOf dir) (Listed state dir) (λ x named_x. (named_x, short)) d.children
            all_named) in
    if_cases (All (Listed state dir)) state.show_hidden (λ _. kids)
      (λ _. All-filter (Listed state dir) (λ e. not (is_hidden e.name)) _ kids)

-- A result is given.
abbrev pub Ends {ℓ} : {A : Type ℓ} → Option A → Type ℓ
Ends {A} o = (a : A) × (o ≡ some a)

pub >>=-Ends {ℓ κ} :
    {A : Type ℓ} {B : Type κ} {o : Option A} {k : A → Option B}
    → Ends o
    → ((a : A) → Ends (k a))
    → Ends (o >>= k)
>>=-Ends {k} (a, e) h = let (b, f) = h a in (b, ap (λ o. o >>= k) e ∙ f)

rows_of-Ends :
    (go : Text → Option (List TreeRow)) (state : TreeState) (depth : ℕ) (entries : List TreeEntry)
    → All (λ e. Ends (go e.path)) entries
    → Ends (rows_of go state depth entries)
unfolding rows_of
rows_of-Ends go state depth [] h = ([], refl)
rows_of-Ends go state depth (e ∷ entries) ((inner, this), h) =
    let (rest, later) = rows_of-Ends go state depth entries h in
    >>=-Ends
      (if_cases Ends (e.is_dir && contains e.path state.expanded) (λ _. (inner, this))
        (λ _. ([], refl)))
      λ i. >>=-Ends (rest, later) λ r. (_, refl)

walk-Ends :
    (fuel : ℕ) (state : TreeState) (dir : Text) (depth : ℕ)
    → IsWellListed state
    → longest_listed state.dirs + 2 ≤ fuel + length dir
    → 1 ≤ fuel
    → Ends (walk fuel state dir depth)
unfolding walk
walk-Ends zero state dir depth w long pos = absurd (omega arith)
walk-Ends (suc fuel) state dir depth w long pos =
    rows_of-Ends (λ path. walk fuel state path (depth + 1)) state depth (visible_children state dir)
      (All-map (Listed state dir) (λ e. Ends (walk fuel state e.path (depth + 1)))
        (λ e h.
          let grown = length-join_path dir e.name h.0.0 in
          walk-Ends fuel state e.path (depth + 1) w
            (omega (arith, grown, h.1, ap {B = ℕ} length h.0.1)) (omega (arith, h.1)))
        (visible_children state dir) (visible_children-Listed state dir w))

-- The walk over a tree whose listings name their entries ends, with all its rows.
pub visible_rows-Ends : (state : TreeState) → IsWellListed state → Ends (visible_rows state)
unfolding visible_rows
visible_rows-Ends state w =
    walk-Ends (longest_listed state.dirs + 2) state root 0 w (omega arith) (omega arith)
