-- ===== src/Tree/Locate.antt =====
-- frontend/src/lib/tree.ts: locating a file draws its row.
use m6t.Common.{
  ℕ, ◌+◌, ◌≡◌, refl, sym, ap, ◌∙◌, subst, inl, inr, Bool, true, false, not, ◌&&◌, ◌||◌, some, List,
  [], ◌∷◌, ◌++◌, Memᴰ, arith, if◌then◌else◌, Bool-cases, if_cases, maybe, filter, any, filter-Memᴰ,
  Text, text_eq_refl, lookup, contains, add, contains-append, contains-add,
}
use m6t.Paths.{root, join_path, parent_path, base_name, ancestry, is_hidden}
use m6t.Paths.Laws.{IsName, parent_path-join_path, IsPath, at_root, child, ancestry-child}
use m6t.Tree.{
  TreeEntry, TreeState, children_of, visible_children, add_all, reveal, locate, TreeRow,
  visible_rows,
}
use m6t.Tree.Drawn.{row, opens_at, Reached, at_top, into, visible_rows_iff}
use m6t.Tree.Rows.{IsWellListed, visible_rows-Ends}

-- The listings on the way to a directory: each names the next, as a directory.
pub data ListedTo (state : TreeState) : Text → Type 0 where
  from_root : {dir : Text} → dir ≡ root → ListedTo state dir
  through :
      {dir above : Text} (e : TreeEntry)
      → ListedTo state above
      → IsPath above
      → IsName e.name
      → Memᴰ e (children_of state above)
      → e.is_dir ≡ true
      → e.path ≡ join_path above e.name
      → dir ≡ e.path
      → ListedTo state dir

contains-add_all :
    (x : Text) (xs set : List Text)
    → contains x (add_all xs set) ≡ (contains x xs || contains x set)
unfolding add_all contains
contains-add_all x [] set = refl
contains-add_all x (y ∷ xs) set =
    ground (arith, contains-add_all x xs (add y set), contains-add y x set)

-- What a chain holds of a directory it holds of those above.
ListedTo-IsPath : {state : TreeState} {dir : Text} → ListedTo state dir → IsPath dir
ListedTo-IsPath (from_root e) = subst IsPath (sym e) at_root
ListedTo-IsPath (through {above} e l p n m d at same) = child above e.name p n (same ∙ at)

any-append {ℓ} :
    {A : Type ℓ} (p : A → Bool) (xs ys : List A) → any p (xs ++ ys) ≡ (any p xs || any p ys)
any-append p [] ys = refl
any-append p (x ∷ xs) ys = ground (arith, any-append p xs ys)

-- A state in which every directory of a chain is expanded, and its dotfiles are shown.
record Opens (state : TreeState) (chain : List Text) : Type 0 where
  expands : (dir : Text) → contains dir chain ≡ true → contains dir state.expanded ≡ true
  shows : any (λ path. is_hidden (base_name path)) chain ≡ true → state.show_hidden ≡ true

-- An entry that no filter hides stays among the visible children.
visible_of :
    (state : TreeState) (dir : Text) (e : TreeEntry)
    → (is_hidden e.name ≡ true → state.show_hidden ≡ true)
    → Memᴰ e (children_of state dir)
    → Memᴰ e (visible_children state dir)
unfolding visible_children
visible_of state dir e shown m = elim (Bool-cases (is_hidden e.name)) [
  | inl dotted ↦
      subst
        (λ b. Memᴰ e (
          if b
          then children_of state dir
          else filter (λ x. not (is_hidden x.name)) (children_of state dir)))
        (sym (shown dotted)) m
  | inr plain ↦
      if_cases (Memᴰ e) state.show_hidden (λ _. m)
        (λ _. filter-Memᴰ (λ x. not (is_hidden x.name)) (children_of state dir) (ap not plain) m)
]

contains_own : (x : Text) → contains x (x ∷ []) ≡ true
unfolding contains
contains_own x = rw (text_eq_refl x) refl

or_true : (b : Bool) → (b || true) ≡ true
or_true true = refl
or_true false = refl

Opens-child :
    (state : TreeState) (above name : Text)
    → IsPath above
    → IsName name
    → Opens state (ancestry (join_path above name))
    → Opens state (ancestry above)
      × (contains (join_path above name) state.expanded ≡ true)
      × (is_hidden name ≡ true → state.show_hidden ≡ true)
Opens-child state above name p n o =
    let j = join_path above name in
    let grown = (ancestry-child above name p n).1 in
    let held = λ (x : Text). ap (contains x) grown ∙ contains-append x (ancestry above) (j ∷ []) in
    let dotted =
      ap (any (λ path. is_hidden (base_name path))) grown
      ∙ any-append (λ path. is_hidden (base_name path)) (ancestry above) (j ∷ []) in
    let name_is = ap is_hidden (parent_path-join_path above name n).1 in
    (
      record {
        expands = λ x h. o.expands x (held x ∙ ap (λ b. b || contains x (j ∷ [])) h);
        shows = λ h.
            o.shows (dotted ∙ ap (λ b. b || any (λ path. is_hidden (base_name path)) (j ∷ [])) h);
      },
      o.expands j
          (held j ∙ ap (λ b. contains j (ancestry above) || b) (contains_own j) ∙ or_true _),
      λ h. o.shows (
          dotted
          ∙ ap (λ b. any (λ path. is_hidden (base_name path)) (ancestry above) || (b || false))
              (name_is ∙ h)
          ∙ or_true _),
    )

opens_of :
    (state : TreeState) (e : TreeEntry)
    → e.is_dir ≡ true
    → contains e.path state.expanded ≡ true
    → opens_at state e ≡ true
opens_of state e d c = ap (λ b. b && contains e.path state.expanded) d ∙ c

ListedTo-Reached :
    (state : TreeState) {dir : Text}
    → ListedTo state dir
    → Opens state (ancestry dir)
    → (depth : ℕ) × Reached state dir depth
ListedTo-Reached state (from_root e) o = (0, at_top e refl)
ListedTo-Reached state (through {above} e l p n m d at same) o =
    let (higher, is_open, shown) =
      Opens-child state above e.name p n (subst (λ x. Opens state (ancestry x)) (same ∙ at) o) in
    let (depth, r) = ListedTo-Reached state l higher in
    (
      depth + 1,
      into e r (visible_of state above e shown m)
          (opens_of state e d (ap (λ x. contains x state.expanded) at ∙ is_open)) same refl,
    )

-- The transitions below leave the listings alone.
ListedTo-same : {s t : TreeState} {dir : Text} → s.dirs ≡ t.dirs → ListedTo s dir → ListedTo t dir
unfolding children_of
ListedTo-same e (from_root r) = from_root r
ListedTo-same {s} e (through {above} x l p n m d at same) =
    through x (ListedTo-same e l) p n
      (subst (λ ds. Memᴰ x (maybe (lookup above ds) [] λ k. k.children)) e m) d at same

or_left : (a b : Bool) → a ≡ true → (a || b) ≡ true
or_left a b h = ground arith

or_right : (a b : Bool) → b ≡ true → (a || b) ≡ true
or_right a b h = ground arith

-- Revealing a directory opens its chain, and a later test of a longer chain can only show more.
reveal-Opens : (state : TreeState) (dir : Text) → Opens (reveal state dir) (ancestry dir)
unfolding reveal
reveal-Opens state dir = record {
  expands = λ x h. contains-add_all x (ancestry dir) state.expanded ∙ or_left _ _ h;
  shows = or_right state.show_hidden (any (λ path. is_hidden (base_name path)) (ancestry dir));
}

locate-Opens :
    (state : TreeState) (dir name : Text)
    → IsPath dir
    → IsName name
    → Opens (locate state (join_path dir name)) (ancestry dir)
      × (is_hidden name ≡ true → (locate state (join_path dir name)).show_hidden ≡ true)
unfolding locate reveal
locate-Opens state dir name p n =
    let path = join_path dir name in
    let taken = parent_path-join_path dir name n in
    let o =
      subst (λ d. Opens (reveal state (parent_path path)) (ancestry d)) taken.0
        (reveal-Opens state (parent_path path)) in
    let grown = (ancestry-child dir name p n).1 in
    let dotted =
      ap (any (λ step. is_hidden (base_name step))) grown
      ∙ any-append (λ step. is_hidden (base_name step)) (ancestry dir) (path ∷ []) in
    (
      record { expands = o.expands; shows = λ h. or_left _ _ (o.shows h) },
      λ h. or_right _ _ (
          dotted
          ∙ ap (λ b. any (λ step. is_hidden (base_name step)) (ancestry dir) || (b || false))
              (ap is_hidden taken.1 ∙ h)
          ∙ or_true _),
    )

-- Locating a file that its directory lists, under directories that list one another, draws its row:
-- the walk ends, the row is among the rows, the file is selected and the changed-files filter is
-- off, whatever was expanded and whichever filters were on before.
pub locate_draws :
    (state : TreeState) (dir : Text) (e : TreeEntry)
    → IsWellListed state
    → ListedTo state dir
    → IsName e.name
    → e.path ≡ join_path dir e.name
    → Memᴰ e (children_of state dir)
    → (rows : List TreeRow) × (depth : ℕ) × (visible_rows (locate state e.path) ≡ some rows)
      × Memᴰ (row e depth) rows
      × ((locate state e.path).selected ≡ some e.path)
      × ((locate state e.path).changed_only ≡ false)
unfolding locate reveal children_of
locate_draws state dir e w l n at m =
    let t = locate state e.path in
    let (opens, shown) =
      subst
        (λ p.
          Opens (locate state p) (ancestry dir)
          × (is_hidden e.name ≡ true → (locate state p).show_hidden ≡ true))
        (sym at) (locate-Opens state dir e.name (ListedTo-IsPath l) n) in
    let (depth, reached) = ListedTo-Reached t (ListedTo-same refl l) opens in
    let (rows, ends) = visible_rows-Ends t w in
    (
      rows,
      depth,
      ends,
      (visible_rows_iff t rows (row e depth) ends).1
          (record { dir = dir; reached = reached; listed = visible_of t dir e shown m }),
      refl,
      refl,
    )
