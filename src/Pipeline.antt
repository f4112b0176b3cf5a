-- ===== src/Pipeline.antt =====
-- frontend/src/lib/pipeline.ts, and the bindings of kube.ts: what each step's outcome means.
pub mod Diff
pub mod Run
pub mod Checked
pub mod Sound
use m6t.Common.{
  ℕ, zero, suc, ◌-◌, Bool, true, false, not, ◌&&◌, ◌||◌, Option, none, some, List, [], ◌∷◌, ◌++◌,
  map, if◌then◌else◌, or_else, maybe, length, take, last_of, ltb, find, reverse, Text, text,
  text_eq, starts_with,
}
use m6t.Common.Int.{ℤ, pos, negsuc}
use m6t.Paths.{split}
use m6t.Tabs.{decimal}
use m6t.Projects.{Scope, Kube, Project, Settings}

pub record Binding : Type 0 where
  pub context : Text
  pub namespace : Text
  pub protected : Bool
  pub scope : Text

pub record CheckResult : Type 0 where
  pub argv : List Text
  pub exit_code : ℤ
  pub stdout : Text
  pub stderr : Text

-- A binding with nothing in it.
abbrev pub unbound : Binding
unbound = record { context = []; namespace = []; protected = false; scope = [] }

-- Whether a binding can target a cluster at all.
unfoldable pub is_bound : Binding → Bool
is_bound binding = not (text_eq binding.context []) && not (text_eq binding.namespace [])

-- Whether a project has any binding at all.
unfoldable pub has_binding : Option Project → Bool
has_binding none = false
has_binding (some project) =
    not (text_eq project.kube.context []) || ltb 0 (length (or_else project.kube.scopes []))

-- A binding as one line.
unfoldable pub binding_summary : Binding → Text
binding_summary binding =
    if not (is_bound binding)
    then text "not bound"
    else binding.context ++ text " / " ++ binding.namespace

-- The settings to send when changing a project's kube binding.
unfoldable pub settings_with_kube : Project → Kube → Settings
settings_with_kube project kube = record {
  display_name = project.display_name;
  color = project.color;
  kube = kube;
  helm = project.helm;
}

-- A project's stored binding with the given fields replaced.
unfoldable pub with_kube :
    Project → Option Text → Option Text → Option Bool → Option (List Scope) → Kube
with_kube project context namespace protected scopes = record {
  context = or_else context project.kube.context;
  namespace = or_else namespace project.kube.namespace;
  protected = or_else protected project.kube.protected;
  scopes = some (or_else scopes (or_else project.kube.scopes []));
}

-- The override on exactly this folder.
unfoldable pub override_at : Project → Text → Option Scope
override_at project path =
    find (λ (scope : Scope). text_eq scope.path path) (or_else project.kube.scopes [])

pub data PipelineAction : Type 0 where
  apply delete diff : PipelineAction

pub data PipelinePhase : Type 0 where
  previewing blocked ready running finished : PipelinePhase

pub data DiffVerdict : Type 0 where
  same differs diff_failed : DiffVerdict

-- Reads a `kubectl diff` exit code.
unfoldable pub diff_verdict : CheckResult → DiffVerdict
diff_verdict result = verdict_of result.exit_code
  where
    verdict_of : ℤ → DiffVerdict
    verdict_of (pos zero) = same
    verdict_of (pos (suc zero)) = differs
    verdict_of _ = diff_failed

abbrev pub is_zero : ℤ → Bool
is_zero (pos zero) = true
is_zero _ = false

-- Whether a preview step's result blocks the pipeline.
unfoldable pub blocks : CheckResult → Bool
blocks result = not (is_zero result.exit_code)

-- Whether this binding makes the user type the context name.
unfoldable pub guarded : Binding → Bool
guarded binding = binding.protected

-- Whether what the user typed authorizes a mutation on this binding.
unfoldable pub authorized : Binding → Text → Bool
authorized binding typed = not (guarded binding) || text_eq typed binding.context

pub data DiffLineKind : Type 0 where
  added removed meta context : DiffLineKind

pub record DiffLine : Type 0 where
  pub kind : DiffLineKind
  pub text : Text

abbrev pub max_diff_lines : ℕ
max_diff_lines = 2000

unfoldable pub diff_line_kind : Text → DiffLineKind
diff_line_kind line =
    if starts_with (text "---") line
      || starts_with (text "+++") line
      || starts_with (text "@@") line
    then meta
    else if starts_with (text "diff ") line || starts_with (text "index ") line
    then meta
    else if starts_with (text "+") line
    then added
    else if starts_with (text "-") line
    then removed
    else context

-- `lines.pop()`.
abbrev pub without_last : List DiffLine → List DiffLine
without_last [] = []
without_last (line ∷ []) = []
without_last (line ∷ next ∷ lines) = line ∷ without_last (next ∷ lines)

-- Drops an empty last line.
abbrev pub trimmed : List DiffLine → List DiffLine
trimmed lines =
    if maybe (last_of lines) false (λ line. text_eq line.text []) then without_last lines else lines

abbrev pub diff_line : Text → DiffLine
diff_line line = record { kind = diff_line_kind line; text = line }

-- Splits `kubectl diff` output into the lines a viewer renders.
unfoldable pub diff_lines : Text → List DiffLine
diff_lines output = trimmed (map diff_line (take max_diff_lines (split b'\n' output)))

-- How many lines were left out; subtraction stops at 0, as `Math.max(0, _)` does.
unfoldable pub omitted : Text → ℕ
omitted output = length (split b'\n' output) - max_diff_lines

-- One run, as the project's session history holds it.
pub record RunEntry : Type 0 where
  pub id : Text
  pub at : ℕ
  pub action : PipelineAction
  pub target : Text
  pub context : Text
  pub namespace : Text
  pub argv : List Text
  pub exit_code : ℤ
  pub stdout : Text
  pub stderr : Text
  pub failure : Text

abbrev pub run_log_limit : ℕ
run_log_limit = 50

-- Adds a run to a project's log, newest first, within the limit.
unfoldable pub logged : List RunEntry → RunEntry → List RunEntry
logged log entry = take run_log_limit (entry ∷ log)

-- Whether a run did what it set out to do.
unfoldable pub succeeded : RunEntry → Bool
succeeded entry = text_eq entry.failure [] && is_zero entry.exit_code

-- `a.endsWith(b)`.
abbrev pub ends_with : Text → Text → Bool
ends_with s suffix = starts_with (reverse suffix) (reverse s)

-- Whether the pipeline is offered on a tree row at all; `lower` stands for `toLowerCase`.
unfoldable pub actionable : (Text → Text) → Text → Bool → Bool
actionable lower path is_dir =
    if is_dir
    then true
    else ends_with (lower path) (text ".yaml") || ends_with (lower path) (text ".yml")

-- The verb a row and a dialog title use for an action.
unfoldable pub action_verb : PipelineAction → Text
action_verb apply = text "Apply"
action_verb delete = text "Delete"
action_verb diff = text "Diff"

-- `String(n)`.
abbrev pub signed_decimal : ℤ → Text
signed_decimal (pos n) = decimal n
signed_decimal (negsuc n) = b'-' ∷ decimal (suc n)

abbrev pub is_one : ℤ → Bool
is_one (pos (suc zero)) = true
is_one _ = false

abbrev pub success_summary : PipelineAction → Text
success_summary diff = text "no changes"
success_summary _ = text "succeeded"

abbrev pub exit_summary : PipelineAction → ℤ → Text
exit_summary diff code =
    if is_one code then text "changes pending" else text "kubectl exited " ++ signed_decimal code
exit_summary _ code = text "kubectl exited " ++ signed_decimal code

-- A run's one-line outcome.
unfoldable pub run_summary : RunEntry → Text
run_summary entry =
    if not (text_eq entry.failure [])
    then entry.failure
    else if is_zero entry.exit_code
    then success_summary entry.action
    else exit_summary entry.action entry.exit_code
