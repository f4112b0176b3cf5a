-- ===== src/Git/Changed.antt =====
-- frontend/src/lib/gitStatus.ts: the rows of the changed-only mode.
-- `lower` stands for `String.prototype.toLowerCase`, and the insertion below for `Array.sort`, which
-- keeps the order of what the comparison calls equal.
use m6t.Common.{
  ℕ, zero, suc, ◌+◌, max, Bool, true, false, not, ◌&&◌, ◌||◌, Option, none, some, List, [], ◌∷◌,
  ◌++◌, map, ltb, ◌==◌, if◌then◌else◌, or_else, ◌>>=◌, length, Text, text_eq, lookup, insert,
  contains, add,
}
use m6t.Paths.{root, parent_path, base_name}
use m6t.Tree.{TreeEntry, TreeRow}
use m6t.Git.{FileStatus, Status}
use m6t.Git.Badges.{path_of, is_dir_entry}

-- The loop of `ancestorsOf`, on fuel.
unfoldable pub above : ℕ → Text → List Text
above zero dir = []
above (suc fuel) dir =
    let further = above fuel (parent_path dir) in if text_eq dir root then [] else dir ∷ further

-- Every directory above a path, innermost first; a path has fewer of them than units.
unfoldable pub ancestors_of : Text → List Text
ancestors_of path = above (length path) (parent_path path)

-- The map and the set that `changedRows` fills.
pub record Filing : Type 0 where
  pub children : List (Text × List TreeEntry)
  pub placed : List Text

-- Files an entry under its parent, unless that path is already filed.
unfoldable pub place : TreeEntry → Filing → Filing
place entry f = if contains entry.path f.placed then f else record {
  children =
      insert (parent_path entry.path)
        (or_else (lookup (parent_path entry.path) f.children) [] ++ entry ∷ []) f.children;
  placed = add entry.path f.placed;
}

unfoldable pub place_all : List TreeEntry → Filing → Filing
place_all [] f = f
place_all (entry ∷ entries) f = place_all entries (place entry f)

abbrev pub dir_entry : Text → TreeEntry
dir_entry dir = record { name = base_name dir; is_dir = true; path = dir }

abbrev pub file_entry : FileStatus → TreeEntry
file_entry file = record {
  name = base_name (path_of file);
  is_dir = is_dir_entry file;
  path = path_of file;
}

-- The first loop of `changedRows`: the ancestors of every path.
unfoldable pub place_dirs : List FileStatus → Filing → Filing
place_dirs [] f = f
place_dirs (file ∷ files) f =
    place_dirs files (place_all (map dir_entry (ancestors_of (path_of file))) f)

-- The two loops of `changedRows`, ancestors first.
unfoldable pub filed : List FileStatus → Filing
filed files =
    place_all (map file_entry files) (place_dirs files (record { children = []; placed = [] }))

-- The longest path that git reports, which bounds the depth of the rows.
unfoldable pub longest_path : List FileStatus → ℕ
longest_path [] = 0
longest_path (file ∷ files) = max (length (path_of file)) (longest_path files)

-- `<` on strings, by code units.
unfoldable pub text_lt : Text → Text → Bool
text_lt [] [] = false
text_lt [] (b ∷ t) = true
text_lt (a ∷ s) [] = false
text_lt (a ∷ s) (b ∷ t) = ltb a b || (a == b && text_lt s t)

module _ (lower : Text → Text) where
  -- `byTreeOrder(a, b) < 0`.
  unfoldable pub before : TreeEntry → TreeEntry → Bool
  before a b =
      if a.is_dir
      then not b.is_dir || text_lt (lower a.name) (lower b.name)
      else not b.is_dir && text_lt (lower a.name) (lower b.name)

  unfoldable pub sorted_in : TreeEntry → List TreeEntry → List TreeEntry
  sorted_in e [] = e ∷ []
  sorted_in e (x ∷ xs) = let rest = sorted_in e xs in if before x e then x ∷ rest else e ∷ x ∷ xs

  unfoldable pub sort : List TreeEntry → List TreeEntry
  sort [] = []
  sort (e ∷ es) = sorted_in e (sort es)

  -- The rows of one directory's entries, given the walk of those below.
  unfoldable pub flatten_each :
      (Text → Option (List TreeRow)) → ℕ → List TreeEntry → Option (List TreeRow)
  flatten_each walk_below depth [] = some []
  flatten_each walk_below depth (e ∷ entries) =
      let below = if e.is_dir then walk_below e.path else some [] in
      below >>= λ inner. flatten_each walk_below depth entries >>= λ rest.
      some (record { entry = e; depth = depth } ∷ inner ++ rest)

  -- `flatten`, on fuel: `none` means that it ran out.
  unfoldable pub flatten : ℕ → List (Text × List TreeEntry) → Text → ℕ → Option (List TreeRow)
  flatten zero children dir depth = none
  flatten (suc fuel) children dir depth =
      flatten_each (λ path. flatten fuel children path (depth + 1)) depth
        (sort (or_else (lookup dir children) []))

  -- The rows the changed-only mode renders.
  unfoldable pub changed_rows : Status → Option (List TreeRow)
  changed_rows status = flatten (longest_path status.files + 2) (filed status.files).children root 0
