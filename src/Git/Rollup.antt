-- ===== src/Git/Rollup.antt =====
-- frontend/src/lib/gitStatus.ts: the badge of a directory, from the files below it.
use m6t.Common.{
  ℕ, zero, suc, ◌≡◌, refl, ap, ◌∙◌, Bool, false, not, ◌&&◌, ◌||◌, Option, none, some, List, [], ◌∷◌,
  arith, if◌then◌else◌, maybe, length, any, Text, text_eq, text_eq_iff, lookup, lookup-insert,
  contains,
}
use m6t.Paths.{parent_path}
use m6t.Git.{FileStatus, Status, is_empty}
use m6t.Git.Badges.{
  conflict_badge, contains_badge, Badges, path_of, mark, mark_from, mark_ancestors, badge_one,
  badges_from, badges_for,
}
use m6t.Git.Changed.{above, ancestors_of}

-- What a change below makes of a directory's badge.
abbrev pub upgraded : Bool → Option Text → Option Text
upgraded conflicted badge =
    if conflicted || not (maybe badge false λ b. text_eq b conflict_badge)
    then some (if conflicted then conflict_badge else contains_badge)
    else badge

-- A file is below a directory, or was before it was renamed.
abbrev pub touches : Text → FileStatus → Bool
touches dir file =
    contains dir (ancestors_of (path_of file))
    || (not (is_empty file.orig_path) && contains dir (ancestors_of file.orig_path))

lookup-mark :
    (dirs : List (Text × Text)) (dir other : Text) (c : Bool)
    → lookup other (mark dirs dir c)
      ≡ (if text_eq dir other then upgraded c (lookup other dirs) else lookup other dirs)
unfolding mark
lookup-mark dirs dir other c = ground (
  arith,
  text_eq_iff dir other,
  lookup-insert dir other (if c then conflict_badge else contains_badge) dirs,
)

upgraded_idem : (c d : Bool) (o : Option Text) → upgraded d (upgraded c o) ≡ upgraded (c || d) o
unfolding text_eq
upgraded_idem c d none = ground arith
upgraded_idem c d (some b) = ground (arith, text_eq_iff b conflict_badge)

lookup-mark_from :
    (fuel : ℕ) (dirs : List (Text × Text)) (dir other : Text) (c : Bool)
    → lookup other (mark_from fuel dirs dir c) ≡ (
        if contains other (above fuel dir)
        then upgraded c (lookup other dirs)
        else lookup other dirs)
unfolding mark_from above contains
lookup-mark_from zero dirs dir other c = refl
lookup-mark_from (suc fuel) dirs dir other c = ground (
  arith,
  lookup-mark dirs dir other c,
  lookup-mark_from fuel (mark dirs dir c) (parent_path dir) other c,
  upgraded_idem c c (lookup other dirs),
)

lookup-mark_ancestors :
    (dirs : List (Text × Text)) (path other : Text) (c : Bool)
    → lookup other (mark_ancestors dirs path c) ≡ (
        if contains other (ancestors_of path)
        then upgraded c (lookup other dirs)
        else lookup other dirs)
unfolding mark_ancestors ancestors_of
lookup-mark_ancestors dirs path other c =
    lookup-mark_from (length path) dirs (parent_path path) other c

lookup-badge_one :
    (badges : Badges) (file : FileStatus) (dir : Text)
    → lookup dir (badge_one badges file).dirs ≡ (
        if touches dir file
        then upgraded file.conflicted (lookup dir badges.dirs)
        else lookup dir badges.dirs)
unfolding badge_one
lookup-badge_one badges file dir =
    let marked = mark_ancestors badges.dirs (path_of file) file.conflicted in
    ground (
      arith,
      lookup-mark_ancestors badges.dirs (path_of file) dir file.conflicted,
      lookup-mark_ancestors marked file.orig_path dir file.conflicted,
      upgraded_idem file.conflicted file.conflicted (lookup dir badges.dirs),
    )

-- The badge that files leave on a directory that had one already, or none.
abbrev pub rolled_up : Text → List FileStatus → Option Text → Option Text
rolled_up dir files badge =
    if any (λ f. f.conflicted && touches dir f) files
    then some conflict_badge
    else if any (touches dir) files
    then upgraded false badge
    else badge

rolled_up-cons :
    (dir : Text) (file : FileStatus) (files : List FileStatus) (o : Option Text)
    → rolled_up dir files (if touches dir file then upgraded file.conflicted o else o)
      ≡ rolled_up dir (file ∷ files) o
rolled_up-cons dir file files o =
    by_tests file.conflicted (touches dir file) (any (λ f. f.conflicted && touches dir f) files)
      (any (touches dir) files)
  where
    by_tests :
        (c t some_conflict some_touch : Bool)
        → (if some_conflict
            then some conflict_badge
            else if some_touch
            then upgraded false (if t then upgraded c o else o)
            else if t
            then upgraded c o
            else o)
          ≡ (if (c && t) || some_conflict
              then some conflict_badge
              else if t || some_touch
              then upgraded false o
              else o)
    by_tests c t k s = ground (arith, upgraded_idem c false o)

lookup-badges_from :
    (badges : Badges) (files : List FileStatus) (dir : Text)
    → lookup dir (badges_from badges files).dirs ≡ rolled_up dir files (lookup dir badges.dirs)
unfolding badges_from
lookup-badges_from badges [] dir = refl
lookup-badges_from badges (file ∷ files) dir =
    lookup-badges_from (badge_one badges file) files dir
    ∙ ap (rolled_up dir files) (lookup-badge_one badges file dir)
    ∙ rolled_up-cons dir file files (lookup dir badges.dirs)

-- A directory is marked as in conflict exactly if an unmerged file is below it, by its path or by the
-- path it was renamed from; else as containing changes exactly if another file that git reports is;
-- and else not at all, in whichever order git reports the files.
pub lookup-badges_for :
    (status : Status) (dir : Text)
    → lookup dir (badges_for status).dirs ≡ (
        if any (λ f. f.conflicted && touches dir f) status.files
        then some conflict_badge
        else if any (touches dir) status.files
        then some contains_badge
        else none)
unfolding badges_for lookup
lookup-badges_for status dir =
    lookup-badges_from (record { files = []; dirs = [] }) status.files dir
