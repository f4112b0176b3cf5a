-- ===== src/Tests/Clusters.antt =====
-- frontend/src/lib/kube.ts and useKube.ts at concrete inputs.
use m6t.Common.{◌≡◌, refl, arith, true, false, some, [], ◌∷◌, Text, text, text_eq}
use m6t.Common.Int.{pos}
use m6t.Paths.{last_index_of}
use m6t.Pipeline.{Binding, CheckResult}
use m6t.Cluster.{
  scope_of, KubeSelection, KubeHook, new_hook, read_binding, render, bound, check, checked,
  fulfilled, tool_problem, is_usable, degraded,
}
use m6t.Cluster.Bound.{renders, binds, Reachable, begin, turn, handle, Follows, Reachable-Bound}
use m6t.Common.{lookup}

scope_of_file : scope_of (text "prod/api/deploy.yaml") ≡ text "prod/api"
unfolding scope_of last_index_of
scope_of_file = refl

helm_problem :
    tool_problem (record {
      name = text "helm";
      path = [];
      version = [];
      found = false;
      problem = text "not found";
    })
    ≡ text "not found. Helm features are disabled."
unfolding tool_problem is_usable degraded lookup text_eq
helm_problem = refl

abbrev selected : Text → KubeSelection
selected rel = record { project = some (text "m6t"); rel = rel }

abbrev production : Binding
production = record {
  context = text "prod";
  namespace = text "api";
  protected = true;
  scope = text "prod";
}

abbrev first : KubeHook
first = handle (renders (selected (text "prod"))) new_hook

abbrev answered : KubeHook
answered = handle (binds 1 (some production)) first

answered-reachable : Reachable answered ((1, some production) ∷ [])
unfolding handle render read_binding new_hook
answered-reachable =
    turn (binds 1 (some production)) (turn (renders (selected (text "prod"))) begin tt)
      (omega arith)

Reachable-Bound_example :
    Follows answered.selection answered.live answered.asked answered.binding
      ((1, some production) ∷ [])
Reachable-Bound_example = Reachable-Bound answered ((1, some production) ∷ []) answered-reachable

-- A check of one folder that answers after another was selected is shown above the other's name.
abbrev reachable : CheckResult
reachable = record { argv = []; exit_code = pos 0; stdout = []; stderr = [] }

late_check :
    (checked (fulfilled reachable) (render (selected (text "dev")) (check answered))).result
    ≡ some reachable
unfolding checked
late_check = refl

-- Until the next folder's binding is read, the last folder's is shown.
stale_binding : (render (selected (text "dev")) answered).binding ≡ production
unfolding render read_binding handle bound new_hook text_eq
stale_binding = refl
