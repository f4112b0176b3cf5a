-- ===== src/Pipeline/Run.antt =====
-- frontend/src/lib/usePipeline.ts: the run in progress. An answer of the backend is an argument of the
-- event that brings it; React renders between two events, so a handler sees the state as it is.
use m6t.Common.{
  ℕ, suc, Bool, true, false, Option, none, some, List, [], ◌∷◌, if◌then◌else◌, or_else, maybe, not,
  ◌||◌, ◌==◌, Text, lookup, insert,
}
use m6t.Common.Int.{negsuc}
use m6t.Tabs.{decimal}
use m6t.Pipeline.{
  Binding, CheckResult, unbound, PipelineAction, delete, diff, PipelinePhase, previewing, blocked,
  ready, running, finished, blocks, RunEntry, logged,
}

pub record PipelineTarget : Type 0 where
  pub project : Text
  pub path : Text
  pub action : PipelineAction

pub record PipelineRun : Type 0 where
  pub target : PipelineTarget
  pub phase : PipelinePhase
  pub binding : Binding
  pub preview : Option CheckResult
  pub diff : Option CheckResult
  pub outcome : Option CheckResult
  pub error : Option Text

-- What a call of the backend gives; a rejection is rendered by `describe`.
pub data Answer (A : Type 0) : Type 0 where
  answered : A → Answer A
  rejected : Text → Answer A

-- The run a dialog opens with.
unfoldable pub opening : PipelineTarget → PipelineRun
opening target = record {
  target = target;
  phase = previewing;
  binding = unbound;
  preview = none;
  diff = none;
  outcome = none;
  error = none;
}

-- The `try` of `preview` around one call.
abbrev pub tried : {A : Type 0} → PipelineTarget → Answer A → (A → PipelineRun) → PipelineRun
tried target (answered a) next = next a
tried target (rejected message) next = record (opening target) {
  phase = blocked;
  error = some message;
}

-- What follows the check that stands in front of a mutation.
abbrev pub after_check :
    PipelineTarget → PipelineAction → Binding → CheckResult → Answer CheckResult → PipelineRun
after_check target delete binding checked diffed = record (opening target) {
  phase = ready;
  binding = binding;
  preview = some checked;
}
after_check target _ binding checked diffed = tried target diffed λ difference.
    record (opening target) {
      phase = ready;
      binding = binding;
      preview = some checked;
      diff = some difference;
    }

abbrev pub after_binding :
    PipelineTarget
    → PipelineAction
    → Binding
    → Answer CheckResult
    → Answer CheckResult
    → PipelineRun
after_binding target diff binding check diffed = tried target diffed λ difference.
    record (opening target) { phase = ready; binding = binding; diff = some difference }
after_binding target action binding check diffed = tried target check λ checked.
    if blocks checked
    then record (opening target) { phase = blocked; binding = binding; preview = some checked }
    else after_check target action binding checked diffed

-- Steps 1 and 2, given the answers of the calls; an answer that is not asked for is not read.
unfoldable pub preview :
    PipelineTarget → Answer Binding → Answer CheckResult → Answer CheckResult → PipelineRun
preview target bound check diffed =
    tried target bound λ binding. after_binding target target.action binding check diffed

-- A mutation that was asked of the backend: `kube.apply` or `kube.remove`.
pub record Mutation : Type 0 where
  pub generation : ℕ
  pub opened : PipelineRun
  pub typed : Text

-- The hook's state, with the previews that are under way and every mutation asked for so far.
pub record Pipeline : Type 0 where
  pub project : Option Text
  pub run : Option PipelineRun
  pub logs : List (Text × List RunEntry)
  pub generation : ℕ
  pub previews : List (ℕ × PipelineTarget)
  pub mutations : List Mutation

unfoldable pub new_pipeline : Option Text → Pipeline
new_pipeline project = record {
  project = project;
  run = none;
  logs = [];
  generation = 1;
  previews = [];
  mutations = [];
}

-- A render with another active project, and the effect after it.
unfoldable pub change_project : Option Text → Pipeline → Pipeline
change_project project p = record p { project = project; generation = suc p.generation; run = none }

abbrev pub start_in : Option Text → PipelineAction → Text → Pipeline → Pipeline
start_in none action path p = p
start_in (some project) action path p =
    let target : PipelineTarget = record { project = project; path = path; action = action } in
    record p {
      generation = suc p.generation;
      run = some (opening target);
      previews = (suc p.generation, target) ∷ p.previews;
    }

unfoldable pub start : PipelineAction → Text → Pipeline → Pipeline
start action path p = start_in p.project action path p

-- The end of a preview: shown only if nothing was opened or closed since it began.
unfoldable pub previewed :
    ℕ
    → PipelineTarget
    → Answer Binding
    → Answer CheckResult
    → Answer CheckResult
    → Pipeline
    → Pipeline
previewed mine target bound check diffed p =
    if p.generation == mine then record p { run = some (preview target bound check diffed) } else p

abbrev pub is_ready : PipelinePhase → Bool
is_ready ready = true
is_ready _ = false

abbrev pub is_diff : PipelineAction → Bool
is_diff diff = true
is_diff _ = false

abbrev pub confirm_run : Option PipelineRun → Text → Pipeline → Pipeline
confirm_run none typed p = p
confirm_run (some opened) typed p =
    if not (is_ready opened.phase) || is_diff opened.target.action then p else record p {
      generation = suc p.generation;
      run = some (record opened { phase = running });
      mutations =
          record { generation = suc p.generation; opened = opened; typed = typed } ∷ p.mutations;
    }

unfoldable pub confirm : Text → Pipeline → Pipeline
confirm typed p = confirm_run p.run typed p

-- The log row for a finished mutation.
unfoldable pub entry_for : ℕ → ℕ → PipelineRun → Option CheckResult → Option Text → RunEntry
entry_for at id run outcome error = record {
  id = decimal id;
  at = at;
  action = run.target.action;
  target = run.target.path;
  context = run.binding.context;
  namespace = run.binding.namespace;
  argv = maybe outcome [] λ r. r.argv;
  exit_code = maybe outcome (negsuc 0) λ r. r.exit_code;
  stdout = maybe outcome [] λ r. r.stdout;
  stderr = maybe outcome [] λ r. r.stderr;
  failure = or_else error [];
}

abbrev pub outcome_of : Answer CheckResult → Option CheckResult
outcome_of (answered r) = some r
outcome_of (rejected message) = none

abbrev pub error_of : Answer CheckResult → Option Text
error_of (answered r) = none
error_of (rejected message) = some message

-- The end of a mutation: always logged, and shown if nothing was opened or closed since.
unfoldable pub mutated : ℕ → Mutation → Answer CheckResult → Pipeline → Pipeline
mutated at m answer p =
    let name = m.opened.target.project in
    let entry = entry_for at m.generation m.opened (outcome_of answer) (error_of answer) in
    let recorded : Pipeline = record p {
      logs = insert name (logged (or_else (lookup name p.logs) []) entry) p.logs;
    } in
    if p.generation == m.generation
    then record recorded {
      run = some (record m.opened {
        phase = finished;
        outcome = outcome_of answer;
        error = error_of answer;
      });
    }
    else recorded

unfoldable pub close : Pipeline → Pipeline
close p = record p { generation = suc p.generation; run = none }

-- The rows that the dialog lists.
unfoldable pub log_of : Pipeline → List RunEntry
log_of p = maybe p.project [] λ name. or_else (lookup name p.logs) []
