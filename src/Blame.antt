-- ===== src/Blame.antt =====
-- frontend/src/lib/blame.ts: what an entry of the blame column says.
pub mod Marks
pub mod Reached
pub mod Honest
pub mod Moved
pub mod Hook
use m6t.Common.{
  ℕ, zero, suc, ◌+◌, ◌-◌, Bool, false, not, Option, none, some, List, [], ◌∷◌, ◌++◌, reverse, ltb,
  leb, ◌==◌, ◌||◌, if◌then◌else◌, maybe, length, take, get_elem?, last_of, filter, Text, text,
  text_eq,
}
use m6t.Common.Int.{ℤ, pos, negsuc}
use m6t.Icons.{is_space}
use m6t.Tabs.{trim_start, print_int}

pub record BlameCommit : Type 0 where
  pub sha : Text
  pub author : Text
  pub author_time : ℤ
  pub summary : Text
  pub uncommitted : Bool

-- One index into `commits` for each line.
pub record Blame : Type 0 where
  pub commits : List BlameCommit
  pub lines : List ℤ

abbrev pub commit_of : List BlameCommit → ℤ → Option BlameCommit
commit_of commits (pos index) = get_elem? commits index
commit_of commits (negsuc n) = none

unfoldable pub commit_at : Blame → ℕ → Option BlameCommit
commit_at blame line =
    if ltb line 1 || ltb (length blame.lines) line
    then none
    else maybe (get_elem? blame.lines (line - 1)) none (commit_of blame.commits)

-- The fields of a `Date` in the reader's zone; `month` counts from 0.
pub record LocalDate : Type 0 where
  pub year : ℤ
  pub month : ℕ
  pub date : ℕ
  pub hours : ℕ
  pub minutes : ℕ

-- `padStart(width, "0")`.
unfoldable pub pad_start : ℕ → Text → Text
pad_start zero s = s
pad_start (suc width) s = if leb (suc width) (length s) then s else b'0' ∷ pad_start width s

unfoldable pub pad : ℕ → Text
pad value = pad_start 2 (print_int (pos value))

unfoldable pub format_day : LocalDate → Text
format_day date =
    pad_start 4 (print_int date.year) ++ b'-' ∷ pad (date.month + 1) ++ b'-' ∷ pad date.date

unfoldable pub format_moment : LocalDate → Text
format_moment date = format_day date ++ b' ' ∷ pad date.hours ++ b':' ∷ pad date.minutes

-- `split(/\s+/)` without the empty words: the word under way, and the others.
unfoldable pub split_words : Text → Text × List Text
split_words [] = ([], [])
split_words (c ∷ s) =
    let rest = split_words s in
    if is_space c
    then ([], if text_eq rest.0 [] then rest.1 else rest.0 ∷ rest.1)
    else (c ∷ rest.0, rest.1)

unfoldable pub words : Text → List Text
words s = let parts = split_words s in if text_eq parts.0 [] then parts.1 else parts.0 ∷ parts.1

-- The code points of a string, `Array.from`: a leading surrogate takes the unit after it.
abbrev pub is_lead : ℕ → Bool
is_lead c = if ltb c 55296 then false else ltb c 56320

abbrev pub is_trail : ℕ → Bool
is_trail c = if ltb c 56320 then false else ltb c 57344

unfoldable pub first_points : ℕ → Text → Text
first_points zero s = []
first_points (suc count) [] = []
first_points (suc count) (c ∷ []) = c ∷ []
first_points (suc count) (c ∷ d ∷ s) =
    let single = first_points count (d ∷ s) in
    let double = first_points count s in
    if is_lead c then (if is_trail d then c ∷ d ∷ double else c ∷ single) else c ∷ single

-- `upper` is `toLocaleUpperCase`, the platform's.
module _ (upper : Text → Text) where
  unfoldable pub first_letters : Text → ℕ → Text
  first_letters word count = upper (first_points count word)

  abbrev pub initials_of : List Text → Text
  initials_of [] = text "??"
  initials_of (word ∷ []) = first_letters word 2
  initials_of (word ∷ next ∷ more) =
      first_letters word 1 ++ maybe (last_of (next ∷ more)) [] (λ last. first_letters last 1)

  unfoldable pub initials : Text → Text
  initials author = initials_of (words author)

abbrev pub has_no_time : ℤ → Bool
has_no_time (pos n) = n == 0
has_no_time (negsuc n) = false

-- `moment` gives a `Date`'s local fields: the platform's.
module _ (moment : ℤ → LocalDate) where
  unfoldable pub blame_day : BlameCommit → Text
  blame_day commit =
      if has_no_time commit.author_time then [] else format_day (moment commit.author_time)

  unfoldable pub blame_moment : BlameCommit → Text
  blame_moment commit =
      if has_no_time commit.author_time then [] else format_moment (moment commit.author_time)

-- `trimEnd`.
unfoldable pub trim_end : Text → Text
trim_end s = reverse (trim_start (reverse s))

-- `join`.
unfoldable pub join : Text → List Text → Text
join separator [] = []
join separator (s ∷ []) = s
join separator (s ∷ t ∷ more) = s ++ separator ++ join separator (t ∷ more)

-- The middle dot and the dash lie in the basic plane.
unfoldable pub blame_tooltip : (ℤ → LocalDate) → BlameCommit → Text
blame_tooltip moment commit =
    if commit.uncommitted
    then text "Not committed yet — this line is in no commit"
    else let parts =
        commit.author
        ∷ blame_moment moment commit
        ∷ take 7 commit.sha
        ∷ (if text_eq commit.summary [] then [] else commit.summary ∷ []) in
      join (text " · ") (filter (λ part. not (text_eq part [])) parts)

unfoldable pub blame_label : (Text → Text) → (ℤ → LocalDate) → BlameCommit → Text
blame_label upper moment commit =
    if commit.uncommitted
    then text "uncommitted"
    else trim_end (initials upper commit.author ++ b' ' ∷ blame_day moment commit)
