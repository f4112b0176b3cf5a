-- ===== src/Git/Filed.antt =====
-- frontend/src/lib/gitStatus.ts: what the two loops of `changedRows` file.
use mathlib.Core.List.Memᴰ
use m6t.Common.{
  ◌≡◌, if_cases, refl, sym, ap, ◌∙◌, subst, ◌⊎◌, inl, inr, Bool, true, false, ◌||◌, List, [], ◌∷◌,
  ◌++◌, Memᴰ, arith, if◌then◌else◌, or_else, Bool-cases, Text, text_eq, text_eq_iff, lookup,
  lookup-insert, contains, contains-add,
}
use m6t.Paths.{parent_path}
use m6t.Tree.{TreeEntry}
use m6t.Git.Changed.{Filing, place, place_all}

-- The entries that are filed under a directory.

abbrev pub kids : Text → Filing → List TreeEntry
kids dir f = or_else (lookup dir f.children) []

kids-place :
    (x : TreeEntry) (f : Filing) (dir : Text)
    → kids dir (place x f) ≡ (
        if contains x.path f.placed
        then kids dir f
        else if text_eq (parent_path x.path) dir
        then kids dir f ++ x ∷ []
        else kids dir f)
unfolding place
kids-place x f dir = elim (Bool-cases (contains x.path f.placed)) [
  | inl there ↦ rw there refl
  | inr fresh ↦ elim (Bool-cases (text_eq (parent_path x.path) dir)) [
    | inl same ↦
        let e = (text_eq_iff (parent_path x.path) dir).0 same in
        rw
          (
            fresh,
            lookup-insert (parent_path x.path) dir
                (or_else (lookup (parent_path x.path) f.children) [] ++ x ∷ []) f.children,
            same,
          )
          (ap (λ k. or_else (lookup k f.children) [] ++ x ∷ []) e)
    | inr other ↦
        rw
          (
            fresh,
            lookup-insert (parent_path x.path) dir
                (or_else (lookup (parent_path x.path) f.children) [] ++ x ∷ []) f.children,
            other,
          )
          refl
  ]
]

-- What is filed stays filed.
place-keeps :
    (x : TreeEntry) (f : Filing) (dir : Text) {e : TreeEntry}
    → Memᴰ e (kids dir f)
    → Memᴰ e (kids dir (place x f))
place-keeps x f dir {e} m = subst (Memᴰ e) (sym (kids-place x f dir)) (
    if_cases (Memᴰ e) (contains x.path f.placed) (λ _. m)
      (λ _.
        if_cases (Memᴰ e) (text_eq (parent_path x.path) dir) (λ _. Memᴰ.append_left (x ∷ []) m)
          (λ _. m)))

-- What is filed was filed, or is the entry just placed under its own directory.
place-from :
    (x : TreeEntry) (f : Filing) (dir : Text) {e : TreeEntry}
    → Memᴰ e (kids dir (place x f))
    → Memᴰ e (kids dir f) ⊎ ((e ≡ x) × (parent_path x.path ≡ dir))
place-from x f dir {e} m =
    by_tests (contains x.path f.placed) (text_eq (parent_path x.path) dir)
      (λ t. (text_eq_iff (parent_path x.path) dir).0 t) (subst (Memᴰ e) (kids-place x f dir) m)
  where
    by_tests :
        (known here : Bool)
        → (here ≡ true → parent_path x.path ≡ dir)
        → Memᴰ e (if known then kids dir f else if here then kids dir f ++ x ∷ [] else kids dir f)
        → Memᴰ e (kids dir f) ⊎ ((e ≡ x) × (parent_path x.path ≡ dir))
    by_tests true here same m = inl m
    by_tests false false same m = inl m
    by_tests false true same m = elim (Memᴰ.append_cases (kids dir f) m) [
      | inl old ↦ inl old
      | inr new ↦ elim (Memᴰ.cases_cons new) [
        | inl own ↦ inr (own, same refl)
        | inr none_left ↦ elim none_left [ ]
      ]
    ]

contains-placed :
    (x : TreeEntry) (f : Filing) (path : Text)
    → contains path (place x f).placed ≡ (text_eq x.path path || contains path f.placed)
unfolding place
contains-placed x f path =
    ground (arith, contains-add x.path path f.placed, text_eq_iff x.path path)

-- Every entry is filed under its own directory and is one of P, and every path that is marked as
-- placed has an entry.
pub record IsFiled (P : TreeEntry → Type 0) (f : Filing) : Type 0 where
  pub own : (dir : Text) (e : TreeEntry) → Memᴰ e (kids dir f) → (parent_path e.path ≡ dir) × P e
  pub backed :
      (path : Text)
      → contains path f.placed ≡ true
      → (e : TreeEntry) × Memᴰ e (kids (parent_path path) f) × (e.path ≡ path)

-- Nothing is taken away.
pub record Grows (f g : Filing) : Type 0 where
  pub kept : (dir : Text) (e : TreeEntry) → Memᴰ e (kids dir f) → Memᴰ e (kids dir g)
  pub marked : (path : Text) → contains path f.placed ≡ true → contains path g.placed ≡ true

pub Grows-refl : (f : Filing) → Grows f f
Grows-refl f = record { kept = λ _ _ m. m; marked = λ _ m. m }

pub Grows-trans : {f g h : Filing} → Grows f g → Grows g h → Grows f h
Grows-trans a b = record {
  kept = λ d e m. b.kept d e (a.kept d e m);
  marked = λ p m. b.marked p (a.marked p m);
}

place-Grows : (x : TreeEntry) (f : Filing) → Grows f (place x f)
place-Grows x f = record {
  kept = λ dir e m. place-keeps x f dir m;
  marked = λ path m. ground (arith, m, contains-placed x f path);
}

place-adds :
    (x : TreeEntry) (f : Filing)
    → contains x.path f.placed ≡ false
    → Memᴰ x (kids (parent_path x.path) (place x f))
place-adds x f fresh =
    subst (Memᴰ x) (sym (kids-place x f (parent_path x.path) ∙ placed_here))
      (Memᴰ.append_right (kids (parent_path x.path) f) (Memᴰ.head refl))
  where
    placed_here :
        (if contains x.path f.placed
          then kids (parent_path x.path) f
          else if text_eq (parent_path x.path) (parent_path x.path)
          then kids (parent_path x.path) f ++ x ∷ []
          else kids (parent_path x.path) f)
        ≡ kids (parent_path x.path) f ++ x ∷ []
    placed_here = rw (fresh, (text_eq_iff (parent_path x.path) (parent_path x.path)).1 refl) refl

place-IsFiled :
    {P : TreeEntry → Type 0} (x : TreeEntry) (f : Filing)
    → P x
    → IsFiled P f
    → IsFiled P (place x f)
place-IsFiled {P} x f px inv = record {
  own = λ dir e m. elim (place-from x f dir m) [
    | inl old ↦ inv.own dir e old
    | inr (same, here) ↦
        (ap (λ (y : TreeEntry). parent_path y.path) same ∙ here, subst P (sym same) px)
  ];
  backed = λ path m. elim (Bool-cases (contains path f.placed)) [
    | inl old ↦
        let (e, listed, same) = inv.backed path old in
        (e, place-keeps x f (parent_path path) listed, same)
    | inr fresh ↦
        let same =
          (text_eq_iff x.path path).0 (ground (arith, m, fresh, contains-placed x f path)) in
        (
          x,
          subst (λ p. Memᴰ x (kids (parent_path p) (place x f))) same
              (place-adds x f (ap (λ p. contains p f.placed) same ∙ fresh)),
          same,
        )
  ];
}

pub place_all-Grows : (entries : List TreeEntry) (f : Filing) → Grows f (place_all entries f)
unfolding place_all
place_all-Grows [] f = Grows-refl f
place_all-Grows (x ∷ entries) f =
    Grows-trans (place-Grows x f) (place_all-Grows entries (place x f))

pub place_all-IsFiled :
    {P : TreeEntry → Type 0} (entries : List TreeEntry) (f : Filing)
    → ((e : TreeEntry) → Memᴰ e entries → P e)
    → IsFiled P f
    → IsFiled P (place_all entries f)
unfolding place_all
place_all-IsFiled [] f ps inv = inv
place_all-IsFiled (x ∷ entries) f ps inv =
    place_all-IsFiled entries (place x f) (λ e m. ps e (Memᴰ.tail m))
      (place-IsFiled x f (ps x (Memᴰ.head refl)) inv)

pub place_all-placed :
    (entries : List TreeEntry) (f : Filing) {e : TreeEntry}
    → Memᴰ e entries
    → contains e.path (place_all entries f).placed ≡ true
unfolding place_all
place_all-placed [] f m = elim m [ ]
place_all-placed (x ∷ entries) f {e} (Memᴰ.head same) =
    (place_all-Grows entries (place x f)).marked e.path (
      ground (
        arith,
        contains-placed x f e.path,
        text_eq_iff x.path e.path,
        ap (λ (y : TreeEntry). y.path) same,
      ))
place_all-placed (x ∷ entries) f (Memᴰ.tail m) = place_all-placed entries (place x f) m
