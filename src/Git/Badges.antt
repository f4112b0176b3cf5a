-- ===== src/Git/Badges.antt =====
-- frontend/src/lib/gitStatus.ts: the markers on the tree's rows, and the status bar's line.
use m6t.Common.{
  ℕ, zero, suc, Bool, true, false, not, ◌||◌, Option, none, some, List, [], ◌∷◌, ◌++◌, ◌==◌,
  if◌then◌else◌, or_else, maybe, length, find, last_of, Text, text, text_eq, lookup, insert,
}
use m6t.Paths.{slash, parent_path}
use m6t.Tabs.{decimal}
use m6t.Git.{
  Branch, FileStatus, Status, no_git, not_a_repository, untracked, is_available, is_empty,
  conflicted_files,
}

-- `FILE_BADGES`.
abbrev pub file_badges : List (Text × Text)
file_badges =
    (text "modified", text "M")
    ∷ (text "added", text "A")
    ∷ (text "deleted", text "D")
    ∷ (text "renamed", text "R")
    ∷ (text "copied", text "C")
    ∷ (text "untracked", text "?")
    ∷ []

abbrev pub conflict_badge : Text
conflict_badge = text "U"

abbrev pub contains_badge : Text
contains_badge = text "•"

-- Every badge the tree knows about, by root-relative path.
pub record Badges : Type 0 where
  pub files : List (Text × Text)
  pub dirs : List (Text × Text)

-- The badge for one file; the worktree side wins over the index side.
unfoldable pub file_badge : FileStatus → Text
file_badge file =
    if file.conflicted
    then conflict_badge
    else or_else (lookup file.worktree file_badges)
        (or_else (lookup file.staged file_badges) (text "M"))

-- `path.endsWith("/")`.
abbrev pub ends_in_slash : Text → Bool
ends_in_slash path = maybe (last_of path) false λ c. c == slash

-- `path.slice(0, -1)`.
unfoldable pub drop_last : Text → Text
drop_last [] = []
drop_last (c ∷ []) = []
drop_last (c ∷ d ∷ s) = c ∷ drop_last (d ∷ s)

-- The path a status record names, as the tree spells it.
unfoldable pub path_of : FileStatus → Text
path_of file = if ends_in_slash file.path then drop_last file.path else file.path

-- Whether a status record is a whole-directory entry.
unfoldable pub is_dir_entry : FileStatus → Bool
is_dir_entry file = ends_in_slash file.path

-- One round of the loop of `markAncestors`.
unfoldable pub mark : List (Text × Text) → Text → Bool → List (Text × Text)
mark dirs dir conflicted =
    if conflicted || not (maybe (lookup dir dirs) false (λ b. text_eq b conflict_badge))
    then insert dir (if conflicted then conflict_badge else contains_badge) dirs
    else dirs

-- The loop, on fuel.
unfoldable pub mark_from : ℕ → List (Text × Text) → Text → Bool → List (Text × Text)
mark_from zero dirs dir conflicted = dirs
mark_from (suc fuel) dirs dir conflicted =
    let further = mark_from fuel (mark dirs dir conflicted) (parent_path dir) conflicted in
    if text_eq dir [] then dirs else further

-- Marks every directory above a path; a path has fewer of them than units.
unfoldable pub mark_ancestors : List (Text × Text) → Text → Bool → List (Text × Text)
mark_ancestors dirs path conflicted = mark_from (length path) dirs (parent_path path) conflicted

-- One round of the loop of `badgesFor`.
unfoldable pub badge_one : Badges → FileStatus → Badges
badge_one badges file =
    let marked = mark_ancestors badges.dirs (path_of file) file.conflicted in
    record {
      files = insert (path_of file) (file_badge file) badges.files;
      dirs =
          if not (is_empty file.orig_path)
          then mark_ancestors marked file.orig_path file.conflicted
          else marked;
    }

unfoldable pub badges_from : Badges → List FileStatus → Badges
badges_from badges [] = badges
badges_from badges (file ∷ files) = badges_from (badge_one badges file) files

-- Every badge for a status, with the directory rollup.
unfoldable pub badges_for : Status → Badges
badges_for status = badges_from (record { files = []; dirs = [] }) status.files

-- The badge for one tree row.
unfoldable pub badge_at : Badges → Text → Bool → Option Text
badge_at badges path is_dir =
    maybe (lookup path badges.files) (if is_dir then lookup path badges.dirs else none)
      λ badge. some badge

-- `BADGE_TITLES`.
abbrev pub badge_titles : List (Text × Text)
badge_titles =
    (text "M", text "modified")
    ∷ (text "A", text "added")
    ∷ (text "D", text "deleted")
    ∷ (text "R", text "renamed")
    ∷ (text "C", text "copied")
    ∷ (text "U", text "conflicted")
    ∷ (text "?", text "untracked")
    ∷ (text "•", text "contains changes")
    ∷ []

unfoldable pub badge_title : Text → Text
badge_title badge = or_else (lookup badge badge_titles) badge

-- `BADGE_TONES`.
abbrev pub badge_tones : List (Text × Text)
badge_tones =
    (text "A", text "added")
    ∷ (text "?", text "added")
    ∷ (text "M", text "modified")
    ∷ (text "R", text "modified")
    ∷ (text "C", text "modified")
    ∷ (text "D", text "deleted")
    ∷ (text "U", text "conflicted")
    ∷ (text "•", text "contains")
    ∷ []

-- The tone a badge draws in.
unfoldable pub badge_tone : Option Text → Option Text
badge_tone badge = maybe badge none λ b. lookup b badge_tones

-- Whether git is tracking a path.
unfoldable pub is_tracked : Status → Text → Bool
is_tracked status path =
    if not (is_available status)
    then false
    else maybe (find (λ file. text_eq file.path path) status.files) true
        (λ entry. not (text_eq entry.worktree untracked))

unfoldable pub changed_count : Status → ℕ
changed_count status = length status.files

unfoldable pub branch_label : Branch → Text
branch_label branch =
    if branch.detached
    then text "detached HEAD"
    else if is_empty branch.name
    then text "no branch"
    else if branch.unborn
    then branch.name ++ text " (no commits yet)"
    else branch.name

unfoldable pub changes_label : ℕ → Text
changes_label count =
    if count == 0
    then text "no changes"
    else if count == 1
    then text "1 changed"
    else decimal count ++ text " changed"

-- The status bar's git line.
unfoldable pub branch_summary : Status → Text
branch_summary status =
    let parts =
      text "⎇ "
      ++ branch_label status.branch
      ++ (if is_empty status.branch.upstream
          then []
          else text " ↑"
            ++ decimal status.branch.ahead
            ++ text " ↓"
            ++ decimal status.branch.behind) in
    let line = parts ++ text " · " ++ changes_label (changed_count status) in
    let conflicts = length (conflicted_files status) in
    if text_eq status.availability no_git
    then text "git was not found on your PATH"
    else if text_eq status.availability not_a_repository
    then text "not a git repository"
    else if conflicts == 0
    then line
    else line ++ text " · " ++ decimal conflicts ++ text " conflicted — resolve in the terminal"
