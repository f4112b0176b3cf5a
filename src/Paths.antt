-- ===== src/Paths.antt =====
-- frontend/src/lib/tree.ts: root-relative, slash-separated paths.
pub mod Laws
use m6t.Common.{
  ℕ, suc, Bool, true, false, Option, none, some, List, [], ◌∷◌, ◌++◌, ◌==◌, if◌then◌else◌, maybe,
  take, drop, last_of, Text, text_eq,
}

-- The project's own root.
abbrev pub root : Text
root = []

abbrev pub slash : ℕ
slash = b'/'

-- A unit before the parts of the rest: a separator starts a part of its own.
abbrev pub split_next : Bool → ℕ → List Text → List Text
split_next true c parts = [] ∷ parts
split_next false c [] = (c ∷ []) ∷ []
split_next false c (part ∷ parts) = (c ∷ part) ∷ parts

-- `s.split(sep)` for a separator of one unit.
unfoldable pub split : ℕ → Text → List Text
split sep [] = [] ∷ []
split sep (c ∷ s) = split_next (c == sep) c (split sep s)

-- `s.lastIndexOf(c)`, with `none` for -1.
unfoldable pub last_index_of : ℕ → Text → Option ℕ
last_index_of c [] = none
last_index_of c (d ∷ s) =
    maybe (last_index_of c s) (if d == c then some 0 else none) λ i. some (suc i)

-- Joins a child name onto a directory path.
unfoldable pub join_path : Text → Text → Text
join_path dir name = if text_eq dir root then name else dir ++ slash ∷ name

-- The directory a path lives in.
unfoldable pub parent_path : Text → Text
parent_path path = maybe (last_index_of slash path) root λ index. take index path

-- The last path segment.
unfoldable pub base_name : Text → Text
base_name path = maybe (last_index_of slash path) path λ index. drop (suc index) path

-- One round of the loop of `ancestry`.
unfoldable pub push_segment : List Text → Text → List Text
push_segment chain segment =
    if text_eq segment []
    then chain
    else chain ++ maybe (last_of chain) segment (λ before. before ++ slash ∷ segment) ∷ []

unfoldable pub ancestry_from : List Text → List Text → List Text
ancestry_from chain [] = chain
ancestry_from chain (segment ∷ segments) = ancestry_from (push_segment chain segment) segments

-- Every prefix of a path, outermost first, the path itself last.
unfoldable pub ancestry : Text → List Text
ancestry path = ancestry_from [] (split slash path)

-- Whether an entry of this name is a dotfile.
unfoldable pub is_hidden : Text → Bool
is_hidden [] = false
is_hidden (c ∷ name) = c == b'.'
