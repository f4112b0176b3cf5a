-- ===== src/Git/Rows.antt =====
-- frontend/src/lib/gitStatus.ts: which rows `changedRows` gives, and how deep they stand.
use mathlib.Core.List.Memᴰ
use m6t.Common.{
  ℕ, zero, suc, ◌+◌, ◌≤◌, ◌≡◌, ◌≢◌, refl, sym, ap, ◌∙◌, subst, ◌⊎◌, inl, inr, true, Option, some,
  List, [], ◌∷◌, ◌++◌, Memᴰ, arith, if◌then◌else◌, if_cases, >>=-eq-some, some_inj, length, Text,
  text_eq,
}
use m6t.Paths.{root, parent_path}
use m6t.Tree.{TreeEntry, TreeRow}
use m6t.Tree.Drawn.{row}
use m6t.Git.Changed.{above, ancestors_of, sort, flatten_each, flatten}
use m6t.Git.Ancestors.{length-parent_path}
use m6t.Git.Flat.{under, Reach, here, there, sort_keeps, sort_from}

-- More fuel than the path has units changes nothing.

above_fuel : (f g : ℕ) (dir : Text) → length dir ≤ f → length dir ≤ g → above f dir ≡ above g dir
unfolding above text_eq
above_fuel zero zero dir hf hg = refl
above_fuel zero (suc g) [] hf hg = refl
above_fuel zero (suc g) (c ∷ dir) hf hg = absurd (omega arith)
above_fuel (suc f) zero [] hf hg = refl
above_fuel (suc f) zero (c ∷ dir) hf hg = absurd (omega arith)
above_fuel (suc f) (suc g) dir hf hg =
    ap (λ further. if text_eq dir root then [] else dir ∷ further)
      (above_fuel f g (parent_path dir) (omega (arith, length-parent_path dir))
        (omega (arith, length-parent_path dir)))

-- A directory and those above it.
abbrev pub chain : Text → List Text
chain dir = above (length dir) dir

pub chain_step : (dir : Text) → dir ≢ [] → chain dir ≡ dir ∷ ancestors_of dir
unfolding above ancestors_of text_eq
chain_step [] n = absurd (n refl)
chain_step (c ∷ dir) n =
    ap (λ further. (c ∷ dir) ∷ further)
      (above_fuel (length dir) (suc (length dir)) (parent_path (c ∷ dir))
        (omega (arith, length-parent_path (c ∷ dir))) (omega (arith, length-parent_path (c ∷ dir))))

ancestors_of-parent : (path : Text) → ancestors_of path ≡ chain (parent_path path)
unfolding ancestors_of
ancestors_of-parent path =
    above_fuel (length path) (length (parent_path path)) (parent_path path)
      (omega (arith, length-parent_path path)) (omega arith)

abbrev Within : List TreeRow → List TreeRow → Type 0
Within inner rows = (r : TreeRow) → Memᴰ r inner → Memᴰ r rows

module _ (lower : Text → Text) (go : Text → Option (List TreeRow)) (depth : ℕ) where
  abbrev below : TreeEntry → Option (List TreeRow)
  below e = if e.is_dir then go e.path else some []

  flatten_each-cons :
      (e : TreeEntry) (entries : List TreeEntry) {rows : List TreeRow}
      → flatten_each lower go depth (e ∷ entries) ≡ some rows
      → (inner : List TreeRow) × (rest : List TreeRow) × (below e ≡ some inner)
        × (flatten_each lower go depth entries ≡ some rest)
        × (row e depth ∷ inner ++ rest ≡ rows)
  unfolding flatten_each
  flatten_each-cons e entries h =
      let (inner, this, h') = >>=-eq-some (below e) _ h in
      let (rest, later, same) = >>=-eq-some (flatten_each lower go depth entries) _ h' in
      (inner, rest, this, later, some_inj same)

  -- An entry has its row, and the rows below it where it is a directory.
  abbrev Placed : TreeEntry → List TreeRow → Type 0
  Placed e rows =
      Memᴰ (row e depth) rows
      × (e.is_dir ≡ true → (inner : List TreeRow) × (go e.path ≡ some inner) × Within inner rows)

  flatten_each_complete :
      (entries : List TreeEntry) (rows : List TreeRow) (e : TreeEntry)
      → flatten_each lower go depth entries ≡ some rows
      → Memᴰ e entries
      → Placed e rows
  flatten_each_complete [] rows e h m = elim m [ ]
  flatten_each_complete (x ∷ entries) rows e h (Memᴰ.head same) =
      let (inner, rest, this, later, made) = flatten_each-cons x entries h in
      subst (Placed e) made (
        Memᴰ.head (ap (λ y. row y depth) same),
        λ o. (
          inner,
          sym (ap (λ b. if b then go e.path else some []) o) ∙ ap below same ∙ this,
          λ r m. Memᴰ.tail (Memᴰ.append_left rest m),
        ),
      )
  flatten_each_complete (x ∷ entries) rows e h (Memᴰ.tail m) =
      let (inner, rest, this, later, made) = flatten_each-cons x entries h in
      let (mine, deeper) = flatten_each_complete entries rest e later m in
      subst (Placed e) made (
        Memᴰ.tail (Memᴰ.append_right inner mine),
        λ o.
            let (deep, found, within) = deeper o in
            (deep, found, λ r n. Memᴰ.tail (Memᴰ.append_right inner (within r n))),
      )

  -- A row is an entry's own, or comes from below a directory.
  abbrev Comes : List TreeEntry → TreeRow → Type 0
  Comes entries r =
      (e : TreeEntry) × Memᴰ e entries
      × ((r ≡ row e depth) ⊎ ((inner : List TreeRow) × (go e.path ≡ some inner) × Memᴰ r inner))

  flatten_each_sound :
      (entries : List TreeEntry) (rows : List TreeRow) (r : TreeRow)
      → flatten_each lower go depth entries ≡ some rows
      → Memᴰ r rows
      → Comes entries r
  unfolding flatten_each
  flatten_each_sound [] rows r h m = elim (subst (Memᴰ r) (sym (some_inj h)) m) [ ]
  flatten_each_sound (x ∷ entries) rows r h m =
      let (inner, rest, this, later, made) = flatten_each-cons x entries h in
      elim (Memᴰ.cases_cons (subst (Memᴰ r) (sym made) m)) [
        | inl own ↦ (x, Memᴰ.head refl, inl own)
        | inr more ↦ elim (Memᴰ.append_cases inner more) [
          | inl deep ↦ (x, Memᴰ.head refl, inr (from_below x inner this deep))
          | inr further ↦
              let (e, listed, how) = flatten_each_sound entries rest r later further in
              (e, Memᴰ.tail listed, how)
        ]
      ]
    where
      from_below :
          (x : TreeEntry) (inner : List TreeRow)
          → below x ≡ some inner
          → Memᴰ r inner
          → (i : List TreeRow) × (go x.path ≡ some i) × Memᴰ r i
      from_below x inner this deep =
          if_cases
            (λ (o : Option (List TreeRow)).
              o ≡ some inner → (i : List TreeRow) × (go x.path ≡ some i) × Memᴰ r i)
            x.is_dir (λ _ found. (inner, found, deep))
            (λ _ (found : some [] ≡ some inner).
              elim (subst (Memᴰ r) (sym (some_inj found)) deep) [ ])
            this

module _ (lower : Text → Text) (children : List (Text × List TreeEntry)) where
  -- Every entry that is come to has its row.
  pub flatten_complete :
      (fuel : ℕ) (dir : Text) (depth : ℕ) (rows : List TreeRow) (e : TreeEntry)
      → flatten lower fuel children dir depth ≡ some rows
      → Reach children e dir
      → (k : ℕ) × Memᴰ (row e k) rows
  unfolding flatten
  flatten_complete zero dir depth rows e h r = cc
  flatten_complete (suc fuel) dir depth rows e h (here m) = (
    depth,
    (flatten_each_complete lower (λ path. flatten lower fuel children path (depth + 1)) depth
        (sort lower (under children dir)) rows e h (sort_keeps lower (under children dir) m)).0,
  )
  flatten_complete (suc fuel) dir depth rows e h (there over m d r) =
      let (_, inside) =
        flatten_each_complete lower (λ path. flatten lower fuel children path (depth + 1)) depth
          (sort lower (under children dir)) rows over h (sort_keeps lower (under children dir) m) in
      let (inner, found, within) = inside d in
      let (k, n) = flatten_complete fuel over.path (depth + 1) inner e found r in
      (k, within (row e k) n)

  -- Every row is an entry's, as deep as there are directories above its path.
  pub flatten_sound :
      (fuel : ℕ) (dir : Text) (depth : ℕ) (rows : List TreeRow) (r : TreeRow)
      → ((d : Text) (e : TreeEntry)
          → Memᴰ e (under children d)
          → (parent_path e.path ≡ d) × (e.path ≢ []))
      → depth ≡ length (chain dir)
      → flatten lower fuel children dir depth ≡ some rows
      → Memᴰ r rows
      → (d : Text) × Memᴰ r.entry (under children d)
        × (r.depth ≡ length (ancestors_of r.entry.path))
  unfolding flatten
  flatten_sound zero dir depth rows r own deep h m = cc
  flatten_sound (suc fuel) dir depth rows r own deep h m =
      let (e, sorted, how) =
        flatten_each_sound lower (λ path. flatten lower fuel children path (depth + 1)) depth
          (sort lower (under children dir)) rows r h m in
      let listed = sort_from lower (under children dir) sorted in
      let (parent, named) = own dir e listed in
      let count = deep ∙ sym (ap length (ancestors_of-parent e.path ∙ ap chain parent)) in
      elim how [
        | inl mine ↦
            subst
              (λ (x : TreeRow).
                (d : Text) × Memᴰ x.entry (under children d)
                × (x.depth ≡ length (ancestors_of x.entry.path)))
              (sym mine) (dir, listed, count)
        | inr (inner, found, n) ↦
            flatten_sound fuel e.path (depth + 1) inner r own
              (omega (arith, count, ap {B = ℕ} length (chain_step e.path named))) found n
      ]
