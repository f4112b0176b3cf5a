-- ===== src/Git/Ancestors.antt =====
-- frontend/src/lib/gitStatus.ts: which directories are above a path.
use m6t.Common.{
  ℕ, zero, suc, ◌-◌, ◌≤◌, ◌≡◌, refl, sym, ap, ◌∙◌, ◌≢◌, ◌↔◌, inl, inr, true, ◌||◌, none, some, [],
  ◌∷◌, ◌++◌, append_assoc, arith, Bool-cases, Option-cases, maybe, length, take, drop,
  length-append, Text, text_eq, text_eq_iff, contains,
}
use m6t.Paths.{root, slash, last_index_of, parent_path}
use m6t.Paths.Laws.{parent_path-append}
use m6t.Git.Changed.{above, ancestors_of}

-- A path is taken apart at its last separator.

last_index_of-split :
    (c : ℕ) (s : Text) (i : ℕ)
    → last_index_of c s ≡ some i
    → (s ≡ take i s ++ c ∷ drop (suc i) s) × (last_index_of c (drop (suc i) s) ≡ none)
unfolding last_index_of
last_index_of-split c [] i e = cc
last_index_of-split c (d ∷ s) zero e = ground arith
last_index_of-split c (d ∷ s) (suc i) e = ground (arith, last_index_of-split c s i)

-- A path below a directory, at any depth.
pub record IsAbove (dir path : Text) : Type 0 where
  pub named : dir ≢ []
  pub rest : Text
  pub splits : path ≡ dir ++ slash ∷ rest

-- A directory is above a path if it is the path's own directory or above that.
pub data Up (dir path : Text) : Type 0 where
  own : dir ≡ path → Up dir path
  higher : IsAbove dir path → Up dir path

-- A path with a directory ends in a name below it.
parent_path-splits :
    (path : Text)
    → parent_path path ≢ []
    → (name : Text) × (path ≡ parent_path path ++ slash ∷ name) × (last_index_of slash name ≡ none)
unfolding parent_path
parent_path-splits path n = elim (Option-cases (last_index_of slash path)) [
  | inl flat ↦ absurd (n (ap (λ o. maybe o root λ i. take i path) flat))
  | inr (i, e) ↦
      let (splits, flat) = last_index_of-split slash path i e in
      (
        drop (suc i) path,
        splits ∙ ap (λ o. maybe o root (λ k. take k path) ++ slash ∷ drop (suc i) path) (sym e),
        flat,
      )
]

pub length-parent_path : (path : Text) → length (parent_path path) ≤ length path - 1
length-parent_path path = elim (Bool-cases (text_eq (parent_path path) [])) [
  | inl at ↦ omega (arith, ap {B = ℕ} length ((text_eq_iff _ _).0 at))
  | inr off ↦
      let (name, splits, _) =
        parent_path-splits path (λ e. ground (arith, e, off, text_eq_iff (parent_path path) [])) in
      omega (arith, ap {B = ℕ} length splits, length-append {0} (parent_path path) (slash ∷ name))
]

Up-parent_path : (dir path : Text) → IsAbove dir path → Up dir (parent_path path)
Up-parent_path dir path a = elim (Option-cases (last_index_of slash a.rest)) [
  | inl flat ↦ own (sym (ap parent_path a.splits ∙ parent_path-append dir a.rest flat))
  | inr (i, e) ↦
      let (splits, flat) = last_index_of-split slash a.rest i e in
      higher (record {
        named = a.named;
        rest = take i a.rest;
        splits =
            ap parent_path (
              a.splits
              ∙ ap (λ r. dir ++ slash ∷ r) splits
              ∙ sym (append_assoc dir (slash ∷ take i a.rest) (slash ∷ drop (suc i) a.rest)))
            ∙ parent_path-append (dir ++ slash ∷ take i a.rest) (drop (suc i) a.rest) flat;
      })
]

pub IsAbove-parent_path :
    (dir path : Text) → dir ≢ [] → Up dir (parent_path path) → IsAbove dir path
IsAbove-parent_path dir path n (own e) =
    let (name, splits, _) = parent_path-splits path (λ at. n (e ∙ at)) in
    record { named = n; rest = name; splits = splits ∙ ap (λ p. p ++ slash ∷ name) (sym e) }
IsAbove-parent_path dir path n (higher a) =
    let (name, splits, _) = parent_path-splits path (λ at. not_above_root a at) in
    record {
      named = n;
      rest = a.rest ++ slash ∷ name;
      splits =
          splits
          ∙ ap (λ p. p ++ slash ∷ name) a.splits
          ∙ append_assoc dir (slash ∷ a.rest) (slash ∷ name);
    }
  where
    not_above_root : {p : Text} → IsAbove dir p → p ≡ [] → ⊥
    not_above_root b at =
        omega (arith, ap {B = ℕ} length (sym at ∙ b.splits), length-append {0} dir (slash ∷ b.rest))

pub nil_of_length : (s : Text) → length s ≤ 0 → s ≡ []
nil_of_length [] h = refl
nil_of_length (c ∷ s) h = absurd (omega arith)

not-Up-root : (dir path : Text) → path ≡ [] → dir ≢ [] → Up dir path → ⊥
not-Up-root dir path at n (own e) = n (e ∙ at)
not-Up-root dir path at n (higher a) =
    omega (arith, ap {B = ℕ} length (sym at ∙ a.splits), length-append {0} dir (slash ∷ a.rest))

pub contains-above :
    (fuel : ℕ) (dir path : Text)
    → length path ≤ fuel
    → (contains dir (above fuel path) ≡ true) ↔ ((dir ≢ []) × Up dir path)
unfolding above contains
contains-above zero dir path short =
    (λ h. cc, λ (n, up). absurd (not-Up-root dir path (nil_of_length path short) n up))
contains-above (suc fuel) dir path short =
    let (to, from) =
      contains-above fuel dir (parent_path path) (omega (arith, length-parent_path path)) in
    elim (Bool-cases (text_eq path root)) [
      | inl at ↦
          rw at
            (λ h. cc, λ (n, up). absurd (not-Up-root dir path ((text_eq_iff path root).0 at) n up))
      | inr off ↦ rw off (
        λ h. elim (Bool-cases (text_eq path dir)) [
          | inl same ↦
              let e = (text_eq_iff path dir).0 same in
              (λ at. ground (arith, e, at, off, text_eq_iff path root), own (sym e))
          | inr other ↦
              let (n, up) = to (ground (arith, h, other)) in
              (n, higher (IsAbove-parent_path dir path n up))
        ],
        λ (n, up). by_place from n up,
      )
    ]
  where
    by_place :
        ((dir ≢ []) × Up dir (parent_path path)
          → contains dir (above fuel (parent_path path)) ≡ true)
        → dir ≢ []
        → Up dir path
        → (text_eq path dir || contains dir (above fuel (parent_path path))) ≡ true
    by_place found n (own e) = ground (arith, e, text_eq_iff path dir)
    by_place found n (higher a) = ground (arith, found (n, Up-parent_path dir path a))

-- The directories that the loop collects are exactly those that the path continues after a slash.
pub contains-ancestors_of :
    (dir path : Text) → (contains dir (ancestors_of path) ≡ true) ↔ IsAbove dir path
unfolding ancestors_of
contains-ancestors_of dir path =
    let (to, from) =
      contains-above (length path) dir (parent_path path)
        (omega (arith, length-parent_path path)) in
    (
      λ h. let (n, up) = to h in IsAbove-parent_path dir path n up,
      λ a. from (a.named, Up-parent_path dir path a),
    )
