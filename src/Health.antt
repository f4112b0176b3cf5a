-- ===== src/Health.antt =====
-- frontend/src/lib/health.ts: what the backend says of the live objects, and useHealth.ts: the snapshot
-- on screen. The answer of a read is an argument of the event that brings it; a render and its effects
-- are one event.
pub mod Groups
pub mod Shown
use m6t.Common.{
  Bool, true, false, not, ◌&&◌, ◌||◌, Option, none, some, List, [], ◌∷◌, ◌++◌, if◌then◌else◌,
  or_else, maybe, filter, Text, text, text_eq, lookup, insert,
}

pub record ObjectStatus : Type 0 where
  pub api_version : Text
  pub kind : Text
  pub namespace : Text
  pub name : Text
  pub file : Text
  pub health : Text
  pub message : Text

pub record HealthNotice : Type 0 where
  pub file : Text
  pub reason : Text

pub record HealthSnapshot : Type 0 where
  pub phase : Text
  pub reason : Text
  pub objects : List ObjectStatus
  pub notices : List HealthNotice

-- A snapshot with nothing in it.
abbrev pub no_health : HealthSnapshot
no_health = record { phase = text "connecting"; reason = []; objects = []; notices = [] }

-- The objects that one file declares.
unfoldable pub for_file : List ObjectStatus → Text → List ObjectStatus
for_file objects file = filter (λ (o : ObjectStatus). text_eq o.file file) objects

unfoldable pub notices_for : List HealthNotice → Text → List HealthNotice
notices_for notices file = filter (λ (n : HealthNotice). text_eq n.file file) notices

-- The connection's phase, as the section's heading says it.
unfoldable pub phase_label : HealthSnapshot → Text
phase_label snapshot =
    if text_eq snapshot.phase (text "idle")
    then if text_eq snapshot.reason [] then text "not watching" else snapshot.reason
    else if text_eq snapshot.phase (text "unauthorized")
    then text "cluster refused this user"
    else snapshot.phase

unfoldable pub is_live : HealthSnapshot → Bool
is_live snapshot = text_eq snapshot.phase (text "watching")

unfoldable pub is_failing : HealthSnapshot → Bool
is_failing snapshot =
    text_eq snapshot.phase (text "reconnecting") || text_eq snapshot.phase (text "unauthorized")

-- One round of the loop of `byKind`; the groups and the map share their arrays, so one map in the order
-- of insertion stands for both.
unfoldable pub file_under :
    List (Text × List ObjectStatus) → ObjectStatus → List (Text × List ObjectStatus)
file_under groups object =
    insert object.kind (or_else (lookup object.kind groups) [] ++ object ∷ []) groups

unfoldable pub grouped :
    List (Text × List ObjectStatus) → List ObjectStatus → List (Text × List ObjectStatus)
grouped groups [] = groups
grouped groups (object ∷ objects) = grouped (file_under groups object) objects

-- The objects grouped by kind, in the order in which the kinds first appear.
unfoldable pub by_kind : List ObjectStatus → List (Text × List ObjectStatus)
by_kind objects = grouped [] objects

abbrev pub state_labels : List (Text × Text)
state_labels =
    (text "Current", text "Current")
    ∷ (text "InProgress", text "In progress")
    ∷ (text "Failed", text "Failed")
    ∷ (text "NotFound", text "Not in the cluster")
    ∷ (text "Terminating", text "Terminating")
    ∷ (text "Unknown", text "No verdict")
    ∷ []

unfoldable pub state_label : Text → Text
state_label health = or_else (lookup health state_labels) health

abbrev pub health_icons : List (Text × Text)
health_icons =
    (text "Current", text "health-current")
    ∷ (text "InProgress", text "health-progress")
    ∷ (text "Failed", text "health-failed")
    ∷ (text "NotFound", text "health-absent")
    ∷ (text "Terminating", text "health-terminating")
    ∷ []

-- The icon for a verdict.
unfoldable pub health_icon : Text → Text
health_icon health = or_else (lookup health health_icons) (text "health-unknown")

-- What a row says beside a verdict that is not current; `lower` stands for `toLowerCase`.
unfoldable pub health_note : (Text → Text) → ObjectStatus → Text
health_note lower object =
    if text_eq object.health (text "Current")
    then []
    else if not (text_eq object.message [])
    then object.message
    else lower (state_label object.health)

unfoldable pub health_label : ObjectStatus → Text
health_label object =
    if text_eq object.message []
    then state_label object.health
    else state_label object.health ++ text ": " ++ object.message

-- What the section is about.
pub record Selection : Type 0 where
  pub project : Option Text
  pub root : Option Text
  pub file : Option Text

-- What a read asks about.
pub record Asked : Type 0 where
  pub project : Text
  pub rel : Text

-- The hook's state, with every answer so far. `reading` is there exactly while `inFlight` holds, since
-- the loop gives up at once where there is nothing to ask.
pub record Watched : Type 0 where
  pub root : Option Text
  pub target : Option Asked
  pub snapshot : HealthSnapshot
  pub error : Option Text
  pub reading : Option Asked
  pub stale : Bool
  pub answers : List (Asked × HealthSnapshot)

-- Nothing is asked where no file is open, or no project.
unfoldable pub asking : Selection → Option Asked
asking selection =
    maybe selection.file none λ file.
      maybe selection.project none λ project. some (record { project = project; rel = file })

unfoldable pub new_watched : Watched
new_watched = record {
  root = none;
  target = none;
  snapshot = no_health;
  error = none;
  reading = none;
  stale = false;
  answers = [];
}

-- The head of the loop.
abbrev pub begin : Watched → Watched
begin w = record w { stale = false; reading = w.target }

-- `read`: one in flight, and one queued behind it.
unfoldable pub read : Watched → Watched
read w = maybe w.reading (begin w) λ _. record w { stale = true }

-- The effect of a changed selection.
unfoldable pub retarget : Selection → Watched → Watched
retarget selection w =
    let target = asking selection in
    let cleared : Watched = record w {
      root = selection.root;
      target = target;
      snapshot = no_health;
      error = none;
    } in
    maybe target cleared λ _. read cleared

-- `current(target, asked)`.
abbrev pub is_current : Option Asked → Asked → Bool
is_current none asked = false
is_current (some target) asked =
    text_eq target.project asked.project && text_eq target.rel asked.rel

pub data Answer : Type 0 where
  answered : HealthSnapshot → Answer
  failed : Text → Answer

-- The end of `ask`: shown only if the selection is still the one that was asked about.
unfoldable pub publish : Asked → Answer → Watched → Watched
publish asked (answered snapshot) w =
    let heard : Watched = record w { answers = (asked, snapshot) ∷ w.answers } in
    if is_current w.target asked then record heard { snapshot = snapshot; error = none } else heard
publish asked (failed message) w =
    if is_current w.target asked then record w { error = some message } else w

-- `while (stale.current)`, and `finally`.
abbrev pub next_round : Watched → Watched
next_round w = if w.stale then begin w else record w { reading = none }

-- The answer of the read that is in flight.
unfoldable pub read_ends : Asked → Answer → Watched → Watched
read_ends asked answer w = next_round (publish asked answer w)

-- The backend says that a project's health may be stale.
unfoldable pub on_health : Text → Watched → Watched
on_health changed w = if maybe w.root false (text_eq changed) then read w else w
