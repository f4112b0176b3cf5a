-- ===== src/Git/Blocked.antt =====
-- frontend/src/lib/gitOps.ts and gitStatus.ts: which operations a status allows, and what it says of a
-- path that git did not name.
use m6t.Common.{◌≡◌, ◌⊎◌, false, []}
use m6t.Git.{FileStatus, untracked}

-- A file of which git reports at most that it is untracked.

abbrev pub IsOnlyUntracked : FileStatus → Type 0
IsOnlyUntracked f =
    (f.conflicted ≡ false) × (f.staged ≡ []) × ((f.worktree ≡ []) ⊎ (f.worktree ≡ untracked))
