-- ===== src/Git/Reported.antt =====
-- frontend/src/lib/gitStatus.ts: the entries that `changedRows` files are those of the paths that git
-- reports and of the directories above them.
use mathlib.Core.List.Memᴰ
use m6t.Common.{
  ◌≡◌, refl, sym, ap, ◌∙◌, subst, ◌⊎◌, inl, inr, true, List, [], ◌∷◌, map, Memᴰ, arith, Bool-cases,
  Text, text_eq, text_eq_iff, lookup, contains,
}
use m6t.Paths.{parent_path}
use m6t.Tree.{TreeEntry}
use m6t.Git.{FileStatus}
use m6t.Git.Badges.{path_of}
use m6t.Git.Changed.{ancestors_of, Filing, place_all, dir_entry, file_entry, place_dirs, filed}
use m6t.Git.Ancestors.{IsAbove, contains-ancestors_of}
use m6t.Git.Filed.{
  kids, IsFiled, Grows, Grows-refl, Grows-trans, place_all-Grows, place_all-IsFiled,
  place_all-placed,
}

Memᴰ_of_contains : (k : Text) (xs : List Text) → contains k xs ≡ true → Memᴰ k xs
unfolding contains
Memᴰ_of_contains k [] h = cc
Memᴰ_of_contains k (x ∷ xs) h = elim (Bool-cases (text_eq x k)) [
  | inl same ↦ Memᴰ.head (sym ((text_eq_iff x k).0 same))
  | inr other ↦ Memᴰ.tail (Memᴰ_of_contains k xs (ground (arith, h, other)))
]

contains_of_Memᴰ : (k : Text) (xs : List Text) → Memᴰ k xs → contains k xs ≡ true
unfolding contains
contains_of_Memᴰ k [] m = elim m [ ]
contains_of_Memᴰ k (x ∷ xs) (Memᴰ.head same) = ground (arith, (text_eq_iff x k).1 (sym same))
contains_of_Memᴰ k (x ∷ xs) (Memᴰ.tail m) = ground (arith, contains_of_Memᴰ k xs m)

-- A path that git reports, or a directory above one.
pub record Reported (files : List FileStatus) (path : Text) : Type 0 where
  pub file : FileStatus
  pub listed : Memᴰ file files
  pub place : (path ≡ path_of file) ⊎ IsAbove path (path_of file)

place_dirs-Grows : (files : List FileStatus) (f : Filing) → Grows f (place_dirs files f)
unfolding place_dirs
place_dirs-Grows [] f = Grows-refl f
place_dirs-Grows (file ∷ files) f =
    Grows-trans (place_all-Grows (map dir_entry (ancestors_of (path_of file))) f)
      (place_dirs-Grows files (place_all (map dir_entry (ancestors_of (path_of file))) f))

place_dirs-IsFiled :
    {P : TreeEntry → Type 0} (files : List FileStatus) (f : Filing)
    → ((file : FileStatus) (dir : Text)
        → Memᴰ file files
        → contains dir (ancestors_of (path_of file)) ≡ true
        → P (dir_entry dir))
    → IsFiled P f
    → IsFiled P (place_dirs files f)
unfolding place_dirs
place_dirs-IsFiled [] f ps inv = inv
place_dirs-IsFiled {P} (file ∷ files) f ps inv =
    place_dirs-IsFiled files (place_all (map dir_entry (ancestors_of (path_of file))) f)
      (λ x dir m c. ps x dir (Memᴰ.tail m) c)
      (place_all-IsFiled (map dir_entry (ancestors_of (path_of file))) f
        (λ e m.
          let (dir, listed, same) = Memᴰ.of_map dir_entry (ancestors_of (path_of file)) m in
          subst P same (
            ps file dir (Memᴰ.head refl)
              (contains_of_Memᴰ dir (ancestors_of (path_of file)) listed)))
        inv)

place_dirs-placed :
    (files : List FileStatus) (f : Filing) (file : FileStatus) (dir : Text)
    → Memᴰ file files
    → contains dir (ancestors_of (path_of file)) ≡ true
    → contains dir (place_dirs files f).placed ≡ true
unfolding place_dirs
place_dirs-placed [] f file dir m c = elim m [ ]
place_dirs-placed (x ∷ files) f file dir (Memᴰ.head same) c =
    (place_dirs-Grows files (place_all (map dir_entry (ancestors_of (path_of x))) f)).marked dir (
      place_all-placed (map dir_entry (ancestors_of (path_of x))) f {e = dir_entry dir} (
        Memᴰ.map dir_entry (
          Memᴰ_of_contains dir (ancestors_of (path_of x))
            (ap (λ (y : FileStatus). contains dir (ancestors_of (path_of y))) (sym same) ∙ c))))
place_dirs-placed (x ∷ files) f file dir (Memᴰ.tail m) c =
    place_dirs-placed files (place_all (map dir_entry (ancestors_of (path_of x))) f) file dir m c

abbrev no_filing : Filing
no_filing = record { children = []; placed = [] }

no_filing-IsFiled : (P : TreeEntry → Type 0) → IsFiled P no_filing
unfolding contains lookup
no_filing-IsFiled P = record { own = λ dir e m. elim m [ ]; backed = λ path h. cc }

-- Every entry is filed under its own directory, and its path is reported or above one that is.
pub filed_sound :
    (files : List FileStatus) (dir : Text) (e : TreeEntry)
    → Memᴰ e (kids dir (filed files))
    → (parent_path e.path ≡ dir) × Reported files e.path
unfolding filed
filed_sound files dir e m =
    (place_all-IsFiled {P = λ (x : TreeEntry). Reported files x.path} (map file_entry files)
        (place_dirs files no_filing)
        (λ x n.
          let (file, listed, same) = Memᴰ.of_map file_entry files n in
          record {
            file = file;
            listed = listed;
            place = inl (ap (λ (y : TreeEntry). y.path) (sym same));
          })
        (place_dirs-IsFiled files no_filing
          (λ file above n c. record {
            file = file;
            listed = n;
            place = inr ((contains-ancestors_of above (path_of file)).0 c);
          })
          (no_filing-IsFiled (λ (x : TreeEntry). Reported files x.path)))).own
      dir e m

-- Each directory above a reported path has an entry that is a directory's.
pub filed_dirs :
    (files : List FileStatus) (file : FileStatus) (dir : Text)
    → Memᴰ file files
    → IsAbove dir (path_of file)
    → (e : TreeEntry) × Memᴰ e (kids (parent_path dir) (filed files))
      × (e.path ≡ dir)
      × (e.is_dir ≡ true)
unfolding filed
filed_dirs files file dir m a =
    let c = (contains-ancestors_of dir (path_of file)).1 a in
    let inv =
      place_dirs-IsFiled {P = λ (x : TreeEntry). x.is_dir ≡ true} files no_filing (λ _ _ _ _. refl)
        (no_filing-IsFiled (λ (x : TreeEntry). x.is_dir ≡ true)) in
    let (e, listed, same) = inv.backed dir (place_dirs-placed files no_filing file dir m c) in
    (
      e,
      (place_all-Grows (map file_entry files) (place_dirs files no_filing)).kept (parent_path dir) e
          listed,
      same,
      (inv.own (parent_path dir) e listed).1,
    )

-- Each reported path has an entry.
pub filed_own :
    (files : List FileStatus) (file : FileStatus)
    → Memᴰ file files
    → (e : TreeEntry) × Memᴰ e (kids (parent_path (path_of file)) (filed files))
      × (e.path ≡ path_of file)
unfolding filed
filed_own files file m =
    (place_all-IsFiled {P = λ (x : TreeEntry). Unit} (map file_entry files)
        (place_dirs files no_filing) (λ _ _. tt)
        (place_dirs-IsFiled files no_filing (λ _ _ _ _. tt) (no_filing-IsFiled (λ _. Unit)))).backed
      (path_of file)
      (place_all-placed (map file_entry files) (place_dirs files no_filing) (Memᴰ.map file_entry m))
