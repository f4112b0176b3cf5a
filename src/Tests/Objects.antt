-- ===== src/Tests/Objects.antt =====
-- frontend/src/lib/health.ts and useHealth.ts at concrete inputs.
use m6t.Common.{◌≡◌, refl, some, [], ◌∷◌, lookup, Text, text, text_eq}
use m6t.Health.{
  ObjectStatus, HealthSnapshot, no_health, by_kind, health_label, state_label, Selection, Asked,
  Watched, asking, new_watched, read, retarget, answered, publish, read_ends,
}
use m6t.Health.Groups.{lookup-by_kind}
use m6t.Health.Shown.{selecting, answering, Reachable, mounted, after, IsOwn, Reachable-IsOwn}

abbrev object_of_kind : Text → Text → ObjectStatus
object_of_kind kind name = record {
  api_version = text "v1";
  kind = kind;
  namespace = text "api";
  name = name;
  file = text "a.yaml";
  health = text "NotFound";
  message = [];
}

abbrev pod_a : ObjectStatus
pod_a = object_of_kind (text "Pod") (text "a")

abbrev service : ObjectStatus
service = object_of_kind (text "Service") (text "s")

abbrev pod_b : ObjectStatus
pod_b = object_of_kind (text "Pod") (text "b")

lookup-by_kind_example :
    lookup (text "Pod") (by_kind (pod_a ∷ service ∷ pod_b ∷ [])) ≡ some (pod_a ∷ pod_b ∷ [])
unfolding text_eq
lookup-by_kind_example = lookup-by_kind (text "Pod") (pod_a ∷ service ∷ pod_b ∷ [])

pod_a-label : health_label pod_a ≡ text "Not in the cluster"
unfolding health_label state_label lookup text_eq
pod_a-label = refl

abbrev selected : Text → Selection
selected file = record { project = some (text "m6t"); root = some (text "/m6t"); file = some file }

abbrev asked_about : Text → Asked
asked_about file = record { project = text "m6t"; rel = file }

abbrev answer : HealthSnapshot
answer = record { phase = text "watching"; reason = []; objects = pod_a ∷ []; notices = [] }

-- The user moved on to another file before the answer for the first came.
abbrev moved_on : Watched
moved_on =
    read_ends (asked_about (text "a.yaml")) (answered answer)
      (retarget (selected (text "b.yaml")) (retarget (selected (text "a.yaml")) new_watched))

moved_on-Reachable : Reachable moved_on
unfolding retarget asking read new_watched
moved_on-Reachable =
    after
      (after (after mounted (selecting (selected (text "a.yaml"))))
        (selecting (selected (text "b.yaml"))))
      (answering (asked_about (text "a.yaml")) (answered answer) refl)

Reachable-IsOwn_example : IsOwn moved_on
Reachable-IsOwn_example = Reachable-IsOwn moved_on-Reachable

moved_on-empty : moved_on.snapshot ≡ no_health
unfolding read_ends publish retarget asking read new_watched text_eq
moved_on-empty = refl

moved_on-asks_again : moved_on.reading ≡ some (asked_about (text "b.yaml"))
unfolding read_ends publish retarget asking read new_watched text_eq
moved_on-asks_again = refl
