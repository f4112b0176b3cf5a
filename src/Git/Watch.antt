-- ===== src/Git/Watch.antt =====
-- frontend/src/lib/useGitStatus.ts: every project's status, kept current. The answer of a read is an
-- argument of the event that brings it; a render and its effects are one event.
use m6t.Common.{
  Bool, true, false, not, Option, none, some, List, [], ◌∷◌, if◌then◌else◌, filter, Text, text_eq,
  insert, contains, add, remove,
}
use m6t.Git.{Status}

-- What the hook was asked for and what it called, newest first.

pub data Mark : Type 0 where
  asked : Mark
  began : Text → Mark

pub data ReadResult : Type 0 where
  status_read : Status → ReadResult
  read_failed : Text → ReadResult

-- `reading` is the project whose status is being read: it is there exactly while `inFlight` holds,
-- since the loop gives up at once where there is no project to read.
pub record Watch : Type 0 where
  pub statuses : List (Text × Status)
  pub error : Option Text
  pub target : Option Text
  pub held : List Text
  pub reading : Option Text
  pub stale : Bool
  pub marks : List Mark

unfoldable pub new_watch : Watch
new_watch = record {
  statuses = [];
  error = none;
  target = none;
  held = [];
  reading = none;
  stale = false;
  marks = [];
}

abbrev pub begin_at : Option Text → Watch → Watch
begin_at none w = record w { stale = false; reading = none }
begin_at (some root) w = record w {
  stale = false;
  reading = some root;
  marks = began root ∷ w.marks;
}

-- The head of the loop.
abbrev pub begin : Watch → Watch
begin w = begin_at w.target w

abbrev pub read_unless : Option Text → Watch → Watch
read_unless none w = begin w
read_unless (some root) w = record w { stale = true }

-- `read`: one in flight, and one queued behind it.
unfoldable pub read : Watch → Watch
read w = read_unless w.reading (record w { marks = asked ∷ w.marks })

abbrev pub shows : Option Text → Text → Bool
shows none root = false
shows (some target) root = text_eq target root

-- Publishes a read's outcome against the project it was read for.
unfoldable pub publish : Text → ReadResult → Watch → Watch
publish root (status_read status) w = record w {
  statuses = insert root status w.statuses;
  error = if shows w.target root then none else w.error;
}
publish root (read_failed message) w = record w {
  error = if shows w.target root then some message else w.error;
}

-- `while (stale.current)`, and `finally`.
abbrev pub next_round : Watch → Watch
next_round w = if w.stale then begin w else record w { reading = none }

-- The answer of the read that is in flight.
unfoldable pub read_ends : Text → ReadResult → Watch → Watch
read_ends root result w = next_round (if contains root w.held then publish root result w else w)

-- A render with another active project, and the effect after it.
unfoldable pub show_project : Option Text → Watch → Watch
show_project none w = record w { target = none; error = none }
show_project (some root) w =
    read (record w { target = some root; error = none; held = add root w.held })

-- The backend says that a project's status may be stale.
unfoldable pub on_git : Text → Watch → Watch
on_git root w = if shows w.target root then read w else w

-- Drops a project's retained status.
unfoldable pub close_project : Text → Watch → Watch
close_project root w = record w {
  held = remove root w.held;
  statuses = filter (λ entry. not (text_eq entry.0 root)) w.statuses;
}
