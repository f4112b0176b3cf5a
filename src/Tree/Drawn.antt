-- ===== src/Tree/Drawn.antt =====
-- frontend/src/lib/tree.ts: exactly which rows `visibleRows` draws.
use mathlib.Core.List.Memᴰ
use m6t.Common.{
  ℕ, zero, suc, ◌+◌, ◌≡◌, refl, sym, ap, ◌∙◌, subst, ◌⊎◌, inl, inr, Bool, true, ◌&&◌, Option, some,
  List, [], ◌∷◌, ◌++◌, Memᴰ, if◌then◌else◌, Bool-cases, >>=-eq-some, some_inj, Text, contains,
}
use m6t.Paths.{root}
use m6t.Tree.{
  TreeEntry, TreeState, visible_children, TreeRow, rows_of, walk, longest_listed, visible_rows,
}

abbrev pub row : TreeEntry → ℕ → TreeRow
row e depth = record { entry = e; depth = depth }

abbrev pub opens_at : TreeState → TreeEntry → Bool
opens_at state e = e.is_dir && contains e.path state.expanded

-- The directories whose children are drawn, with the depth of those rows: the root, and each
-- expanded directory that is itself drawn.
pub data Reached (state : TreeState) : Text → ℕ → Type 0 where
  at_top : {dir : Text} {depth : ℕ} → dir ≡ root → depth ≡ 0 → Reached state dir depth
  into :
      {dir above : Text} {depth over : ℕ} (e : TreeEntry)
      → Reached state above over
      → Memᴰ e (visible_children state above)
      → opens_at state e ≡ true
      → dir ≡ e.path
      → depth ≡ over + 1
      → Reached state dir depth

-- An entry that is drawn at a depth.
pub record Drawn (state : TreeState) (r : TreeRow) : Type 0 where
  pub dir : Text
  pub reached : Reached state dir r.depth
  pub listed : Memᴰ r.entry (visible_children state dir)

abbrev Within : List TreeRow → List TreeRow → Type 0
Within inner rows = (r : TreeRow) → Memᴰ r inner → Memᴰ r rows

module _ (go : Text → Option (List TreeRow)) (state : TreeState) (depth : ℕ) where
  abbrev below : TreeEntry → Option (List TreeRow)
  below e = if opens_at state e then go e.path else some []

  rows_of-cons :
      (e : TreeEntry) (entries : List TreeEntry) {rows : List TreeRow}
      → rows_of go state depth (e ∷ entries) ≡ some rows
      → (inner : List TreeRow) × (rest : List TreeRow) × (below e ≡ some inner)
        × (rows_of go state depth entries ≡ some rest)
        × (row e depth ∷ inner ++ rest ≡ rows)
  unfolding rows_of
  rows_of-cons e entries h =
      let (inner, this, h') = >>=-eq-some (below e) _ h in
      let (rest, later, same) = >>=-eq-some (rows_of go state depth entries) _ h' in
      (inner, rest, this, later, some_inj same)

  below_open : (e : TreeEntry) → opens_at state e ≡ true → below e ≡ go e.path
  below_open e o = ap (λ b. if b then go e.path else some []) o

  -- An entry has its row, and the rows below it where it is open.
  abbrev Placed : TreeEntry → List TreeRow → Type 0
  Placed e rows =
      Memᴰ (row e depth) rows
      × (opens_at state e ≡ true
          → (inner : List TreeRow) × (go e.path ≡ some inner) × Within inner rows)

  rows_of_complete :
      (entries : List TreeEntry) (rows : List TreeRow) (e : TreeEntry)
      → rows_of go state depth entries ≡ some rows
      → Memᴰ e entries
      → Placed e rows
  rows_of_complete [] rows e h m = elim m [ ]
  rows_of_complete (x ∷ entries) rows e h (Memᴰ.head same) =
      let (inner, rest, this, later, made) = rows_of-cons x entries h in
      subst (Placed e) made (
        Memᴰ.head (ap (λ y. row y depth) same),
        λ o. (
          inner,
          sym (below_open e o) ∙ ap below same ∙ this,
          λ r m. Memᴰ.tail (Memᴰ.append_left rest m),
        ),
      )
  rows_of_complete (x ∷ entries) rows e h (Memᴰ.tail m) =
      let (inner, rest, this, later, made) = rows_of-cons x entries h in
      let (mine, under) = rows_of_complete entries rest e later m in
      subst (Placed e) made (
        Memᴰ.tail (Memᴰ.append_right inner mine),
        λ o.
            let (deep, found, within) = under o in
            (deep, found, λ r n. Memᴰ.tail (Memᴰ.append_right inner (within r n))),
      )

  -- A row is an entry's own, or comes from below an open entry.
  abbrev Comes : List TreeEntry → TreeRow → Type 0
  Comes entries r =
      (e : TreeEntry) × Memᴰ e entries
      × ((r ≡ row e depth)
          ⊎ ((opens_at state e ≡ true)
              × ((inner : List TreeRow) × (go e.path ≡ some inner) × Memᴰ r inner)))

  rows_of_sound :
      (entries : List TreeEntry) (rows : List TreeRow) (r : TreeRow)
      → rows_of go state depth entries ≡ some rows
      → Memᴰ r rows
      → Comes entries r
  unfolding rows_of
  rows_of_sound [] rows r h m = elim (subst (Memᴰ r) (sym (some_inj h)) m) [ ]
  rows_of_sound (x ∷ entries) rows r h m =
      let (inner, rest, this, later, made) = rows_of-cons x entries h in
      elim (Memᴰ.cases_cons (subst (Memᴰ r) (sym made) m)) [
        | inl own ↦ (x, Memᴰ.head refl, inl own)
        | inr more ↦ elim (Memᴰ.append_cases inner more) [
          | inl deep ↦ elim (Bool-cases (opens_at state x)) [
            | inl o ↦ (x, Memᴰ.head refl, inr (o, (inner, sym (below_open x o) ∙ this, deep)))
            | inr shut ↦
                elim (subst (Memᴰ r)
                  (sym (some_inj (sym (ap (λ b. if b then go x.path else some []) shut) ∙ this)))
                  deep) [ ]
          ]
          | inr further ↦
              let (e, listed, how) = rows_of_sound entries rest r later further in
              (e, Memᴰ.tail listed, how)
        ]
      ]

-- A walk that gave rows had fuel.
walk_unfolds :
    (fuel : ℕ) (state : TreeState) (dir : Text) (depth : ℕ) (rows : List TreeRow)
    → walk fuel state dir depth ≡ some rows
    → (f : ℕ) × (rows_of
          (λ path. walk f state path (depth + 1))
          state
          depth
          (visible_children state dir)
        ≡ some rows)
unfolding walk
walk_unfolds zero state dir depth rows h = cc
walk_unfolds (suc f) state dir depth rows h = (f, h)

walk_complete :
    (state : TreeState) (rows : List TreeRow) {dir : Text} {depth : ℕ}
    → visible_rows state ≡ some rows
    → Reached state dir depth
    → (fuel : ℕ) × (part : List TreeRow) × (walk fuel state dir depth ≡ some part)
      × Within part rows
unfolding visible_rows
walk_complete state rows {dir} {depth} h (at_top e z) = (
  longest_listed state.dirs + 2,
  rows,
  ap (λ p. walk (longest_listed state.dirs + 2) state p depth) e
      ∙ ap (walk (longest_listed state.dirs + 2) state root) z
      ∙ h,
  λ r m. m,
)
walk_complete state rows {dir} {depth} h (into {above} {over} e r m o same deeper) =
    let (fuel, part, found, within) = walk_complete state rows h r in
    let (f, body) = walk_unfolds fuel state above over part found in
    let (_, open_below) =
      rows_of_complete (λ path. walk f state path (over + 1)) state over
        (visible_children state above) part e body m in
    let (inner, at, inside) = open_below o in
    (
      f,
      inner,
      ap (λ p. walk f state p depth) same ∙ ap (walk f state e.path) deeper ∙ at,
      λ x n. within x (inside x n),
    )

walk_sound :
    (fuel : ℕ) (state : TreeState) (dir : Text) (depth : ℕ) (rows : List TreeRow) (r : TreeRow)
    → Reached state dir depth
    → walk fuel state dir depth ≡ some rows
    → Memᴰ r rows
    → Drawn state r
unfolding walk
walk_sound zero state dir depth rows r reached h m = cc
walk_sound (suc fuel) state dir depth rows r reached h m =
    let (e, listed, how) =
      rows_of_sound (λ path. walk fuel state path (depth + 1)) state depth
        (visible_children state dir) rows r h m in
    elim how [
      | inl own ↦ record {
        dir = dir;
        reached = subst (λ (x : TreeRow). Reached state dir x.depth) (sym own) reached;
        listed =
            subst (λ (x : TreeRow). Memᴰ x.entry (visible_children state dir)) (sym own) listed;
      }
      | inr (o, (inner, found, deep)) ↦
          walk_sound fuel state e.path (depth + 1) inner r (into e reached listed o refl refl) found
            deep
    ]

-- The rows are exactly the entries that are drawn: those the filter leaves of the root and of each
-- expanded directory that is itself drawn, at the depth of their directory.
pub visible_rows_iff :
    (state : TreeState) (rows : List TreeRow) (r : TreeRow)
    → visible_rows state ≡ some rows
    → (Memᴰ r rows → Drawn state r) × (Drawn state r → Memᴰ r rows)
unfolding visible_rows
visible_rows_iff state rows r h = (
  walk_sound (longest_listed state.dirs + 2) state root 0 rows r (at_top refl refl) h,
  λ d.
      let (fuel, part, found, within) = walk_complete state rows h d.reached in
      let (f, body) = walk_unfolds fuel state d.dir r.depth part found in
      within r
        (rows_of_complete (λ path. walk f state path (r.depth + 1)) state r.depth
          (visible_children state d.dir) part r.entry body d.listed).0,
)
