-- ===== src/Pipeline/Checked.antt =====
-- frontend/src/lib/usePipeline.ts: what can happen to the hook, and what a preview that is ready holds.
use m6t.Common.{
  ℕ, ◌≡◌, refl, sym, ap, ◌∙◌, true, false, Option, some, Memᴰ, if◌then◌else◌, if_cases, Text,
}
use m6t.Pipeline.{Binding, CheckResult, PipelineAction, apply, delete, diff, blocked, ready, blocks}
use m6t.Pipeline.Run.{
  PipelineTarget, PipelineRun, Answer, answered, rejected, opening, tried, after_check,
  after_binding, preview, Mutation, Pipeline, new_pipeline, change_project, start, previewed,
  is_diff, confirm, mutated, close,
}

-- What can happen: the user acts, another project becomes active, or the backend answers a call that
-- was made.

pub data Step (p : Pipeline) : Pipeline → Type 0 where
  switching : (project : Option Text) → Step p (change_project project p)
  starting : (action : PipelineAction) (path : Text) → Step p (start action path p)
  preview_ends :
      (mine : ℕ) (target : PipelineTarget) (bound : Answer Binding)
      (check diffed : Answer CheckResult)
      → Memᴰ (mine, target) p.previews
      → Step p (previewed mine target bound check diffed p)
  confirming : (typed : Text) → Step p (confirm typed p)
  mutation_ends :
      (at : ℕ) (m : Mutation) (answer : Answer CheckResult)
      → Memᴰ m p.mutations
      → Step p (mutated at m answer p)
  closing : Step p (close p)

pub data Reachable : Pipeline → Type 0 where
  mounted : (project : Option Text) → Reachable (new_pipeline project)
  after : {p q : Pipeline} → Reachable p → Step p q → Reachable q

-- The check in front of the mutation exited with 0, and for an apply there is a diff.
pub record IsChecked (r : PipelineRun) : Type 0 where
  pub checked : CheckResult
  pub shown : r.preview ≡ some checked
  pub passed : blocks checked ≡ false
  pub compared : r.target.action ≡ apply → (d : CheckResult) × (r.diff ≡ some d)

abbrev NeedsCheck : PipelineRun → Type 0
NeedsCheck r = r.phase ≡ ready → is_diff r.target.action ≡ false → IsChecked r

pub blocked-ne-ready : blocked ≡ ready → ⊥
blocked-ne-ready e = cc

delete-ne-apply : delete ≡ apply → ⊥
delete-ne-apply e = cc

true-ne-false : true ≡ false → ⊥
true-ne-false e = cc

-- A run of the target, whose check passed if it is ready.
abbrev Good : PipelineTarget → PipelineRun → Type 0
Good target r = (r.target ≡ target) × NeedsCheck r

after_check-Good :
    (target : PipelineTarget) (action : PipelineAction) (binding : Binding) (checked : CheckResult)
    (diffed : Answer CheckResult)
    → target.action ≡ action
    → blocks checked ≡ false
    → Good target (after_check target action binding checked diffed)
unfolding opening
after_check-Good target delete binding checked diffed e passed = (
  refl,
  λ _ _. record {
    checked = checked;
    shown = refl;
    passed = passed;
    compared = λ h. absurd (delete-ne-apply (sym e ∙ h));
  },
)
after_check-Good target apply binding checked (answered d) e passed = (
  refl,
  λ _ _. record { checked = checked; shown = refl; passed = passed; compared = λ _. (d, refl) },
)
after_check-Good target apply binding checked (rejected message) e passed =
    (refl, λ h _. absurd (blocked-ne-ready h))
after_check-Good target diff binding checked (answered d) e passed =
    (refl, λ _ other. absurd (true-ne-false (sym (ap is_diff e) ∙ other)))
after_check-Good target diff binding checked (rejected message) e passed =
    (refl, λ h _. absurd (blocked-ne-ready h))

checked-Good :
    (target : PipelineTarget) (action : PipelineAction) (binding : Binding)
    (check diffed : Answer CheckResult)
    → target.action ≡ action
    → Good target (
        tried target check λ checked.
          if blocks checked
          then record (opening target) {
            phase = blocked;
            binding = binding;
            preview = some checked;
          }
          else after_check target action binding checked diffed)
unfolding opening
checked-Good target action binding (rejected message) diffed e =
    (refl, λ h _. absurd (blocked-ne-ready h))
checked-Good target action binding (answered checked) diffed e =
    if_cases (Good target) (blocks checked) (λ _. (refl, λ h _. absurd (blocked-ne-ready h)))
      (after_check-Good target action binding checked diffed e)

after_binding-Good :
    (target : PipelineTarget) (action : PipelineAction) (binding : Binding)
    (check diffed : Answer CheckResult)
    → target.action ≡ action
    → Good target (after_binding target action binding check diffed)
unfolding opening
after_binding-Good target apply binding check diffed e =
    checked-Good target apply binding check diffed e
after_binding-Good target delete binding check diffed e =
    checked-Good target delete binding check diffed e
after_binding-Good target diff binding check (answered d) e =
    (refl, λ _ other. absurd (true-ne-false (sym (ap is_diff e) ∙ other)))
after_binding-Good target diff binding check (rejected message) e =
    (refl, λ h _. absurd (blocked-ne-ready h))

preview-Good :
    (target : PipelineTarget) (bound : Answer Binding) (check diffed : Answer CheckResult)
    → Good target (preview target bound check diffed)
unfolding preview opening
preview-Good target (rejected message) check diffed = (refl, λ h _. absurd (blocked-ne-ready h))
preview-Good target (answered binding) check diffed =
    after_binding-Good target target.action binding check diffed refl

-- A run is what the preview of its target made of some answers.
pub record IsGiven (r : PipelineRun) : Type 0 where
  pub bound : Answer Binding
  pub check : Answer CheckResult
  pub diffed : Answer CheckResult
  pub made : r ≡ preview r.target bound check diffed

-- What a run that is ready for a mutation has behind it.
abbrev pub IsPreviewed : PipelineRun → Type 0
IsPreviewed r = IsGiven r × IsChecked r

abbrev pub NeedsPreview : PipelineRun → Type 0
NeedsPreview r = r.phase ≡ ready → is_diff r.target.action ≡ false → IsPreviewed r

pub preview-NeedsPreview :
    (target : PipelineTarget) (bound : Answer Binding) (check diffed : Answer CheckResult)
    → ((preview target bound check diffed).target ≡ target)
      × NeedsPreview (preview target bound check diffed)
preview-NeedsPreview target bound check diffed =
    let (same, needs) = preview-Good target bound check diffed in
    (
      same,
      λ at other. (
        record {
          bound = bound;
          check = check;
          diffed = diffed;
          made = ap (λ t. preview t bound check diffed) (sym same);
        },
        needs at other,
      ),
    )
