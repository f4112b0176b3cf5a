-- ===== src/Workspace/Records.antt =====
-- frontend/src/lib/session.ts: whose records the next session holds.
use m6t.Common.{
  ◌≡◌, refl, sym, ap, ◌∙◌, Bool, true, false, ◌&&◌, none, some, List, [], ◌∷◌, inl, inr, arith,
  if◌then◌else◌, or_else, Bool-cases, Option-cases, some_inj, maybe, find, Text, text_eq,
  text_eq_iff, contains,
}
use m6t.Workspace.{
  ProjectSession, Session, has_name, project_session, LiveSession, live_record, record_for,
  records_for, kept_names, next_session,
}

find-has_name :
    (name : Text) (saved : List ProjectSession) {r : ProjectSession}
    → find (has_name name) saved ≡ some r
    → r.name ≡ name
find-has_name name [] e = cc
find-has_name name (x ∷ saved) {r} e = elim (Bool-cases (text_eq x.name name)) [
  | inl same ↦
      let found : x ≡ r = ground arith in
      ap (λ (y : ProjectSession). y.name) (sym found) ∙ (text_eq_iff x.name name).0 same
  | inr other ↦ find-has_name name saved {r = r} (ground arith)
]

-- A project's record carries the project's name.
record_for-name :
    (name : Text) (previous : Session) (live : LiveSession) (hydrated : List Text)
    {r : ProjectSession}
    → record_for name previous live hydrated ≡ some r
    → r.name ≡ name
unfolding record_for live_record project_session
record_for-name name previous live hydrated e =
    by_test (maybe live.active_project false (text_eq name) && contains name hydrated) e
  where
    by_test :
        (b : Bool) {r : ProjectSession}
        → (if b
            then some (live_record name live)
            else find (has_name name) (or_else previous.projects []))
          ≡ some r
        → r.name ≡ name
    by_test true {r} e =
        let same : live_record name live ≡ r = some_inj e in
        ap (λ (y : ProjectSession). y.name) (sym same)
    by_test false e = find-has_name name (or_else previous.projects []) e

find-records_for :
    (names : List Text) (previous : Session) (live : LiveSession) (hydrated : List Text)
    (name : Text)
    → find (has_name name) (records_for names previous live hydrated)
      ≡ (if contains name names then record_for name previous live hydrated else none)
unfolding records_for contains
find-records_for [] previous live hydrated name = refl
find-records_for (n ∷ names) previous live hydrated name =
    elim (Option-cases (record_for n previous live hydrated)) [
      | inl without ↦ ground (
        arith,
        without,
        find-records_for names previous live hydrated name,
        text_eq_iff n name,
        λ (same : n ≡ name). ap (λ k. record_for k previous live hydrated) same,
      )
      | inr (r, found) ↦ ground (
        arith,
        found,
        record_for-name n previous live hydrated found,
        find-records_for names previous live hydrated name,
        text_eq_iff n name,
        λ (same : n ≡ name). ap (λ k. record_for k previous live hydrated) same,
      )
    ]

-- The next session holds, of the projects that keep a record, each one's own: what is on screen for
-- the active project once its strips were restored, what was last recorded for any other; and it
-- holds nothing of a project that is no longer registered.
pub project_session-next_session :
    (previous : Session) (live : LiveSession) (hydrated registered : List Text) (name : Text)
    → project_session (next_session previous live hydrated registered) name ≡ (
        if contains name (kept_names previous registered)
        then if maybe live.active_project false (text_eq name) && contains name hydrated
          then some (live_record name live)
          else project_session previous name
        else none)
unfolding project_session next_session record_for
project_session-next_session previous live hydrated registered name =
    find-records_for (kept_names previous registered) previous live hydrated name
