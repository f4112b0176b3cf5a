-- ===== src/Tests/Repository.antt =====
-- frontend/src/lib/gitStatus.ts, gitOps.ts and panes.ts at concrete inputs.
use m6t.Common.{
  ℕ, ◌≡◌, All, remove, map, ◌>>=◌, length, add, insert, Memᴰ, refl, ◌↔◌, true, false, none, some,
  List, [], ◌∷◌, lookup, contains, Text, text, text_eq,
}
use m6t.Common.Int.{pos, ◌+ℤ◌, ◌-ℤ◌}
use m6t.Paths.{parent_path, base_name, last_index_of}
use m6t.Git.{
  available, FileStatus, Status, untracked, checkout_blocked_reason, needs_upstream, is_dirty,
  push_blocked_reason, pull_blocked_reason,
}
use m6t.Git.Badges.{badges_for, conflict_badge, is_dir_entry, path_of, is_tracked}
use m6t.Git.Changed.{
  above, ancestors_of, place, place_all, place_dirs, filed, longest_path, text_lt, before,
  sorted_in, sort, flatten_each, flatten, changed_rows,
}
use m6t.Git.Ancestors.{IsAbove, contains-ancestors_of}
use m6t.Git.Reported.{Reported}
use m6t.Git.Shown.{HasRow, changed_rows-Reported}
use m6t.Tree.{TreeRow}
use m6t.Git.Rollup.{lookup-badges_for}
use m6t.Git.Watch.{
  asked, began, status_read, Watch, new_watch, read, publish, read_ends, show_project, on_git,
  close_project,
}
use m6t.Git.Fresh.{Reachable, mounted, after, showing, answering, closing, IsCurrent}
use m6t.Git.Open.{is_open_after, Reachable-IsCurrent}
use m6t.Panes.{trailing, Bounds, clamp_split, resize}

abbrev changed_file : Text → FileStatus
changed_file path = record {
  path = path;
  staged = [];
  worktree = text "modified";
  conflicted = false;
  orig_path = [];
}

abbrev new_file : Text → FileStatus
new_file path = record {
  path = path;
  staged = [];
  worktree = untracked;
  conflicted = false;
  orig_path = [];
}

abbrev unmerged_file : Text → FileStatus
unmerged_file path = record {
  path = path;
  staged = text "unmerged";
  worktree = text "unmerged";
  conflicted = true;
  orig_path = [];
}

abbrev repository : List FileStatus → Status
repository files = record {
  availability = available;
  branch = record {
    name = text "main";
    upstream = [];
    ahead = 0;
    behind = 0;
    detached = false;
    unborn = false;
  };
  files = files;
}

abbrev two_changes : Status
two_changes = repository (unmerged_file (text "a/b/x") ∷ changed_file (text "a/y") ∷ [])

lookup-badges_for_example : lookup (text "a") (badges_for two_changes).dirs ≡ some conflict_badge
unfolding text_eq contains ancestors_of above parent_path last_index_of path_of
lookup-badges_for_example = lookup-badges_for two_changes (text "a")

a-IsAbove : IsAbove (text "a") (text "a/b/x")
a-IsAbove = record { named = λ e. cc; rest = text "b/x"; splits = refl }

contains-ancestors_of_example :
    (contains (text "a") (ancestors_of (text "a/b/x")) ≡ true) ↔ IsAbove (text "a") (text "a/b/x")
contains-ancestors_of_example = contains-ancestors_of (text "a") (text "a/b/x")

abbrev only_new : Status
only_new = repository (new_file (text "a") ∷ new_file (text "build/") ∷ [])

only_new-allowed : checkout_blocked_reason only_new ≡ none
unfolding checkout_blocked_reason is_dirty text_eq
only_new-allowed = refl

two_changes-refused :
    checkout_blocked_reason two_changes
    ≡ some (text "Commit or stash your changes before switching branches.")
unfolding checkout_blocked_reason is_dirty text_eq
two_changes-refused = refl

-- With no upstream a branch can be pushed and not pulled.
two_changes-push : push_blocked_reason two_changes ≡ none
unfolding push_blocked_reason needs_upstream text_eq
two_changes-push = refl

two_changes-pull :
    pull_blocked_reason two_changes ≡ some (text "This branch tracks nothing to pull from.")
unfolding pull_blocked_reason text_eq
two_changes-pull = refl

-- A project is closed while its status is read for it, with another on screen; then that read ends,
-- and the other's after it.
abbrev late_closed : Watch
late_closed =
    close_project (text "/k8s")
      (show_project (some (text "/m6t")) (show_project (some (text "/k8s")) new_watch))

abbrev read_late : Watch
read_late =
    read_ends (text "/m6t") (status_read two_changes)
      (read_ends (text "/k8s") (status_read two_changes) late_closed)

read_late-Reachable : Reachable read_late
unfolding close_project show_project read_ends read new_watch text_eq contains add remove
read_late-Reachable =
    after
      (after
        (after (after (after mounted (showing (some (text "/k8s")))) (showing (some (text "/m6t"))))
          (closing (text "/k8s")))
        (answering (text "/k8s") (status_read two_changes) refl))
      (answering (text "/m6t") (status_read two_changes) refl)

read_late-statuses : read_late.statuses ≡ (text "/m6t", two_changes) ∷ []
unfolding close_project show_project read_ends publish read new_watch text_eq contains add remove
    insert
read_late-statuses = refl

Reachable-IsCurrent_example :
    (read_late.reading ≡ none → IsCurrent read_late)
    × All (λ entry. is_open_after entry.0 read_late-Reachable ≡ true) read_late.statuses
Reachable-IsCurrent_example = Reachable-IsCurrent read_late-Reachable

-- The backend reports a change while the status is read, and then the read ends.
abbrev read_again : Watch
read_again =
    read_ends (text "/m6t") (status_read two_changes)
      (on_git (text "/m6t") (show_project (some (text "/m6t")) new_watch))

read_again-marks : read_again.marks ≡ began (text "/m6t") ∷ asked ∷ began (text "/m6t") ∷ asked ∷ []
unfolding read_ends publish on_git show_project read new_watch add contains insert text_eq
read_again-marks = refl

-- A file below a directory that git reports as untracked as a whole.
below_untracked-is_tracked : is_tracked only_new (text "build/out.js") ≡ true
unfolding is_tracked text_eq
below_untracked-is_tracked = refl

abbrev window : Bounds
window = record { min = pos 180; min_other = pos 320; total = pos 1000 }

resize-terminal : resize (pos 260) (pos 40) trailing window ≡ pos 220
unfolding resize clamp_split ◌+ℤ◌ ◌-ℤ◌
resize-terminal = refl

-- Two files in conflict and changed, at the top and in a directory, with no case to lower.
changed_rows-Reported_example :
    (rows : List TreeRow) × (changed_rows (λ s. s) two_changes ≡ some rows)
    × ((path : Text) → HasRow rows path ↔ Reported two_changes.files path)
    × ((r : TreeRow) → Memᴰ r rows → r.depth ≡ length (ancestors_of r.entry.path))
unfolding path_of text_eq
changed_rows-Reported_example =
    changed_rows-Reported (λ s. s) two_changes (λ at. cc, (λ at. cc, tt))

two_changes-rows :
    (changed_rows (λ s. s) two_changes >>= λ rows.
    some (map {B = Text × ℕ} (λ (r : TreeRow). (r.entry.path, r.depth)) rows))
    ≡ some ((text "a", 0) ∷ (text "a/b", 1) ∷ (text "a/b/x", 2) ∷ (text "a/y", 1) ∷ [])
unfolding changed_rows flatten flatten_each sort sorted_in before filed place_dirs place_all place
    longest_path ancestors_of above path_of is_dir_entry parent_path base_name last_index_of lookup
    insert add contains text_lt text_eq
two_changes-rows = refl
