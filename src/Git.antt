-- ===== src/Git.antt =====
-- frontend/src/lib/git.ts and gitOps.ts: a repository's status, and which git operations it allows.
pub mod Badges
pub mod Changed
pub mod Ancestors
pub mod Rollup
pub mod Blocked
pub mod Watch
pub mod Fresh
pub mod Open
pub mod Filed
pub mod Reported
pub mod Flat
pub mod Rows
pub mod Shown
use m6t.Common.{
  ℕ, Bool, true, false, not, ◌&&◌, ◌||◌, Option, none, some, List, [], ◌∷◌, ◌==◌, if◌then◌else◌,
  or_else, length, get_elem?, filter, any, Text, text, text_eq, contains,
}

pub record Branch : Type 0 where
  pub name : Text
  pub upstream : Text
  pub ahead : ℕ
  pub behind : ℕ
  pub detached : Bool
  pub unborn : Bool

pub record FileStatus : Type 0 where
  pub path : Text
  pub staged : Text
  pub worktree : Text
  pub conflicted : Bool
  pub orig_path : Text

pub record Status : Type 0 where
  pub availability : Text
  pub branch : Branch
  pub files : List FileStatus

abbrev pub available : Text
available = text "ok"

abbrev pub no_git : Text
no_git = text "no-git"

abbrev pub not_a_repository : Text
not_a_repository = text "not-a-repository"

abbrev pub untracked : Text
untracked = text "untracked"

abbrev pub is_available : Status → Bool
is_available status = text_eq status.availability available

abbrev pub is_empty : Text → Bool
is_empty s = text_eq s []

-- Every unmerged path.
unfoldable pub conflicted_files : Status → List FileStatus
conflicted_files status = filter (λ f. f.conflicted) status.files

-- A change that a branch switch could disturb.
abbrev pub disturbs : FileStatus → Bool
disturbs f =
    f.conflicted
    || not (is_empty f.staged)
    || (not (is_empty f.worktree) && not (text_eq f.worktree untracked))

unfoldable pub is_dirty : Status → Bool
is_dirty status = any disturbs status.files

-- Why the branch switcher is disabled, if it is.
unfoldable pub checkout_blocked_reason : Status → Option Text
checkout_blocked_reason status =
    if not (is_available status)
    then none
    else if status.branch.unborn
    then some (text "This repository has no commits yet.")
    else if is_dirty status
    then some (text "Commit or stash your changes before switching branches.")
    else none

-- Whether a push needs `--set-upstream` and a remote to point at.
unfoldable pub needs_upstream : Status → Bool
needs_upstream status =
    is_available status
    && not status.branch.detached
    && not status.branch.unborn
    && not (is_empty status.branch.name)
    && is_empty status.branch.upstream

unfoldable pub push_blocked_reason : Status → Option Text
push_blocked_reason status =
    if not (is_available status)
    then none
    else if status.branch.unborn
    then some (text "There are no commits to push yet.")
    else if status.branch.detached
    then some (text "HEAD is detached — check out a branch to push.")
    else if is_empty status.branch.name
    then some (text "Reading the repository…")
    else none

unfoldable pub pull_blocked_reason : Status → Option Text
pull_blocked_reason status =
    if not (is_available status)
    then none
    else if status.branch.detached
    then some (text "HEAD is detached — check out a branch to pull.")
    else if is_empty status.branch.upstream
    then some (text "This branch tracks nothing to pull from.")
    else none

-- The remote a first push should default to.
unfoldable pub default_remote : List Text → Text
default_remote remotes =
    if contains (text "origin") remotes
    then text "origin"
    else if length remotes == 1
    then or_else (get_elem? remotes 0) []
    else []
