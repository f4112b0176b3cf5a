-- ===== src/Tests/Pipelines.antt =====
-- frontend/src/lib/pipeline.ts and usePipeline.ts at concrete inputs.
use m6t.Common.{
  ◌≡◌, refl, ◌<◌, ◌≤◌, ◌≢◌, ◌+◌, ◌-◌, ◌++◌, true, none, some, [], ◌∷◌, Memᴰ, length, take, last_of,
  text, starts_with,
}
use m6t.Common.Int.{pos}
use m6t.Paths.{split}
use m6t.Pipeline.{
  CheckResult, Binding, apply, blocks, diff_lines, diff_line_kind, omitted, max_diff_lines, meta,
}
use m6t.Pipeline.Run.{
  PipelineTarget, answered, preview, opening, Mutation, Pipeline, new_pipeline, start, previewed,
  confirm, close,
}
use m6t.Pipeline.Checked.{
  starting, preview_ends, confirming, Reachable, mounted, after, IsPreviewed,
}
use m6t.Pipeline.Sound.{Reachable-IsPreviewed, Reachable-project}
use m6t.Pipeline.Diff.{texts, diff_lines-terminated}

abbrev passed : CheckResult
passed = record { argv = []; exit_code = pos 0; stdout = []; stderr = [] }

abbrev pending : CheckResult
pending = record { argv = []; exit_code = pos 1; stdout = text "+a"; stderr = [] }

abbrev prod : Binding
prod = record { context = text "prod"; namespace = text "api"; protected = true; scope = [] }

abbrev target : PipelineTarget
target = record { project = text "m6t"; path = text "a.yaml"; action = apply }

abbrev started : Pipeline
started = start apply (text "a.yaml") (new_pipeline (some (text "m6t")))

abbrev previewed_run : Pipeline
previewed_run = previewed 2 target (answered prod) (answered passed) (answered pending) started

abbrev confirmed : Pipeline
confirmed = confirm (text "prod") previewed_run

previewed_run-Reachable : Reachable previewed_run
unfolding start new_pipeline
previewed_run-Reachable =
    after (after (mounted (some (text "m6t"))) (starting apply (text "a.yaml")))
      (preview_ends 2 target (answered prod) (answered passed) (answered pending) (Memᴰ.head refl))

confirmed-Reachable : Reachable confirmed
confirmed-Reachable = after previewed_run-Reachable (confirming (text "prod"))

abbrev mutation : Mutation
mutation = record {
  generation = 3;
  opened = preview target (answered prod) (answered passed) (answered pending);
  typed = text "prod";
}

mutation-asked : Memᴰ mutation confirmed.mutations
unfolding confirm previewed start new_pipeline preview opening blocks
mutation-asked = Memᴰ.head refl

Reachable-IsPreviewed_example : IsPreviewed mutation.opened
Reachable-IsPreviewed_example = Reachable-IsPreviewed mutation confirmed-Reachable mutation-asked

previewed_run-shown :
    previewed_run.run ≡ some (preview target (answered prod) (answered passed) (answered pending))
unfolding previewed start new_pipeline
previewed_run-shown = refl

Reachable-project_example : previewed_run.project ≡ some (text "m6t")
unfolding preview opening blocks
Reachable-project_example =
    Reachable-project (preview target (answered prod) (answered passed) (answered pending))
      previewed_run-Reachable previewed_run-shown

-- The user closed the dialog while the check ran.
late-dropped :
    (previewed 2 target (answered prod) (answered passed) (answered pending) (close started)).run
    ≡ none
unfolding previewed start new_pipeline close
late-dropped = refl

diff_lines-terminated_example :
    (length (split b'\n' (text "+a\n b")) < max_diff_lines
      → (texts (diff_lines (text "+a\n b" ++ b'\n' ∷ [])) ≡ split b'\n' (text "+a\n b"))
        × (omitted (text "+a\n b" ++ b'\n' ∷ []) ≡ 0))
    × (max_diff_lines ≤ length (split b'\n' (text "+a\n b"))
        → last_of (take max_diff_lines (split b'\n' (text "+a\n b"))) ≢ some []
        → (texts (diff_lines (text "+a\n b" ++ b'\n' ∷ []))
            ≡ take max_diff_lines (split b'\n' (text "+a\n b")))
          × (omitted (text "+a\n b" ++ b'\n' ∷ [])
              ≡ length (split b'\n' (text "+a\n b")) - max_diff_lines + 1))
diff_lines-terminated_example = diff_lines-terminated (text "+a\n b")

header-meta : diff_line_kind (text "--- a/x.yaml") ≡ meta
unfolding diff_line_kind starts_with
header-meta = refl
