-- ===== src/Git/Shown.antt =====
-- frontend/src/lib/gitStatus.ts: the changed-only rows are those of what git reports.
use m6t.Common.{
  ℕ, zero, suc, ◌+◌, ◌≤◌, ◌<◌, ◌≡◌, ◌≢◌, ◌↔◌, refl, sym, ap, ◌∙◌, subst, inl, inr, true, some, List,
  [], ◌∷◌, ◌++◌, append_assoc, Memᴰ, arith, Bool-cases, All, length, length-append, Text, text_eq,
  text_eq_iff,
}
use m6t.Paths.{root, slash, parent_path}
use m6t.Tree.{TreeEntry, TreeRow}
use m6t.Tree.Drawn.{row}
use m6t.Git.{FileStatus, Status}
use m6t.Git.Badges.{path_of}
use m6t.Git.Changed.{above, ancestors_of, filed, longest_path, changed_rows}
use m6t.Git.Ancestors.{IsAbove, own, IsAbove-parent_path, length-parent_path}
use m6t.Git.Filed.{kids}
use m6t.Git.Reported.{Reported, filed_sound, filed_dirs, filed_own}
use m6t.Git.Flat.{Reach, here, Reach-into, flatten-Ends}
use m6t.Git.Rows.{flatten_complete, flatten_sound}

All-Memᴰ :
    (P : FileStatus → Type 0) (files : List FileStatus) {file : FileStatus}
    → All P files
    → Memᴰ file files
    → P file
All-Memᴰ P [] h m = elim m [ ]
All-Memᴰ P (x ∷ files) h (Memᴰ.head same) = subst P (sym same) h.0
All-Memᴰ P (x ∷ files) h (Memᴰ.tail m) = All-Memᴰ P files h.1 m

longest_path-Memᴰ :
    (files : List FileStatus) {file : FileStatus}
    → Memᴰ file files
    → length (path_of file) ≤ longest_path files
unfolding longest_path
longest_path-Memᴰ [] m = elim m [ ]
longest_path-Memᴰ (x ∷ files) (Memᴰ.head same) =
    omega (arith, ap {B = ℕ} (λ (y : FileStatus). length (path_of y)) same)
longest_path-Memᴰ (x ∷ files) (Memᴰ.tail m) = omega (arith, longest_path-Memᴰ files m)

length-IsAbove : (dir path : Text) → IsAbove dir path → length dir < length path
length-IsAbove dir path a =
    omega (arith, ap {B = ℕ} length a.splits, length-append {0} dir (slash ∷ a.rest))

length-Reported :
    (files : List FileStatus) (path : Text) → Reported files path → length path ≤ longest_path files
length-Reported files path r = elim r.place [
  | inl same ↦ omega (arith, longest_path-Memᴰ files r.listed, ap {B = ℕ} length same)
  | inr a ↦ omega (arith, longest_path-Memᴰ files r.listed, length-IsAbove path (path_of r.file) a)
]

Reported-ne-root :
    (files : List FileStatus) (path : Text)
    → All (λ file. path_of file ≢ []) files
    → Reported files path
    → path ≢ []
Reported-ne-root files path named r = elim r.place [
  | inl same ↦ λ at. All-Memᴰ (λ file. path_of file ≢ []) files named r.listed (sym same ∙ at)
  | inr a ↦ a.named
]

length-parent_lt : (path : Text) → path ≢ [] → length (parent_path path) < length path
length-parent_lt [] n = absurd (n refl)
length-parent_lt (c ∷ path) n = omega (arith, length-parent_path (c ∷ path))

IsAbove_trans : {a b c : Text} → IsAbove a b → IsAbove b c → IsAbove a c
IsAbove_trans {a} x y = record {
  named = x.named;
  rest = x.rest ++ slash ∷ y.rest;
  splits =
      y.splits
      ∙ ap (λ p. p ++ slash ∷ y.rest) x.splits
      ∙ append_assoc a (slash ∷ x.rest) (slash ∷ y.rest);
}

-- A directory of a path that the walk comes to.
abbrev Opened : List FileStatus → Text → Type 0
Opened files dir =
    (e : TreeEntry) × Reach (filed files).children e root × (e.path ≡ dir) × (e.is_dir ≡ true)

-- What is filed at the top, or under a directory that is come to, is come to.
listed_reached :
    (files : List FileStatus) (dir : Text) (e : TreeEntry)
    → (dir ≢ [] → Opened files dir)
    → Memᴰ e (kids dir (filed files))
    → Reach (filed files).children e root
listed_reached files dir e opened listed = elim (Bool-cases (text_eq dir root)) [
  | inl top ↦
      here (subst (λ d. Memᴰ e (kids d (filed files))) ((text_eq_iff dir root).0 top) listed)
  | inr off ↦
      let (over, r, same, d) = opened (λ at. ground (arith, at, off, text_eq_iff dir root)) in
      Reach-into r d (subst (λ p. Memᴰ e (kids p (filed files))) (sym same) listed)
]

-- Every directory above a reported path is come to, and is a directory.
dir_reached :
    (fuel : ℕ) (files : List FileStatus) (file : FileStatus) (dir : Text)
    → length dir < fuel
    → Memᴰ file files
    → IsAbove dir (path_of file)
    → Opened files dir
dir_reached zero files file dir short m a = absurd (omega arith)
dir_reached (suc fuel) files file dir short m a =
    let (e, listed, same, d) = filed_dirs files file dir m a in
    (
      e,
      listed_reached files (parent_path dir) e
          (λ n.
            dir_reached fuel files file (parent_path dir)
              (omega (arith, length-parent_lt dir a.named)) m
              (IsAbove_trans (IsAbove-parent_path (parent_path dir) dir n (own refl)) a))
          listed,
      same,
      d,
    )

own_reached :
    (files : List FileStatus) (file : FileStatus)
    → Memᴰ file files
    → (e : TreeEntry) × Reach (filed files).children e root × (e.path ≡ path_of file)
own_reached files file m =
    let (e, listed, same) = filed_own files file m in
    (
      e,
      listed_reached files (parent_path (path_of file)) e
          (λ n.
            dir_reached (suc (length (parent_path (path_of file)))) files file
              (parent_path (path_of file)) (omega arith) m
              (IsAbove-parent_path (parent_path (path_of file)) (path_of file) n (own refl)))
          listed,
      same,
    )

reached :
    (files : List FileStatus) (path : Text)
    → Reported files path
    → (e : TreeEntry) × Reach (filed files).children e root × (e.path ≡ path)
reached files path r = elim r.place [
  | inl same ↦ let (e, come, at) = own_reached files r.file r.listed in (e, come, at ∙ sym same)
  | inr a ↦
      let (e, come, at, _) =
        dir_reached (suc (length path)) files r.file path (omega arith) r.listed a in
      (e, come, at)
]

-- A row of a path.
abbrev pub HasRow : List TreeRow → Text → Type 0
HasRow rows path = (r : TreeRow) × Memᴰ r rows × (r.entry.path ≡ path)

-- Where no reported path is empty, the changed-only mode gives its rows: a path has a row exactly if
-- git reports it or it is above a path that git reports, and each row stands as deep as there are
-- directories above its path.
pub changed_rows-Reported :
    (lower : Text → Text) (status : Status)
    → All (λ file. path_of file ≢ []) status.files
    → (rows : List TreeRow) × (changed_rows lower status ≡ some rows)
      × ((path : Text) → HasRow rows path ↔ Reported status.files path)
      × ((r : TreeRow) → Memᴰ r rows → r.depth ≡ length (ancestors_of r.entry.path))
unfolding changed_rows above
changed_rows-Reported lower status named =
    let files = status.files in
    let own_place : (d : Text) (e : TreeEntry)
        → Memᴰ e (kids d (filed files))
        → (parent_path e.path ≡ d) × Reported files e.path =
      filed_sound files in
    let (rows, ends) =
      flatten-Ends lower (longest_path files + 2) (longest_path files) (filed files).children root 0
        (λ d e m.
          let (parent, r) = own_place d e m in
          (
            omega (
              arith,
              ap {B = ℕ} length parent,
              length-parent_lt e.path (Reported-ne-root files e.path named r),
            ),
            length-Reported files e.path r,
          ))
        (omega arith) (omega arith) in
    let sound = λ (r : TreeRow) (m : Memᴰ r rows).
      flatten_sound lower (filed files).children (longest_path files + 2) root 0 rows r
        (λ d e n.
          let (parent, x) = own_place d e n in (parent, Reported-ne-root files e.path named x))
        refl ends m in
    (
      rows,
      ends,
      λ path. (
        λ (r, m, same).
            let (d, listed, _) = sound r m in
            subst (Reported files) same (own_place d r.entry listed).1,
        λ x.
            let (e, come, same) = reached files path x in
            let (k, m) =
              flatten_complete lower (filed files).children (longest_path files + 2) root 0 rows e
                ends come in
            (row e k, m, same),
      ),
      λ r m. (sound r m).2,
    )
