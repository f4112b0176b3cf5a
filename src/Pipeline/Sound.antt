-- ===== src/Pipeline/Sound.antt =====
-- frontend/src/lib/usePipeline.ts: what stands behind a mutation that is asked of the backend.
use mathlib.Core.List.Memᴰ
use m6t.Common.{
  ℕ, suc, ◌≤◌, ◌≡◌, refl, sym, ap, ◌∙◌, subst, inl, inr, ◌||◌, true, false, not, Option, none, some,
  some_inj, List, ◌∷◌, Memᴰ, arith, if_cases, ◌==◌, Text,
}
use m6t.Pipeline.{
  Binding, CheckResult, PipelineAction, PipelinePhase, previewing, blocked, ready, running,
  finished, RunEntry,
}
use m6t.Pipeline.Run.{
  PipelineTarget, PipelineRun, Answer, opening, preview, Mutation, Pipeline, new_pipeline,
  change_project, start_in, start, previewed, is_ready, is_diff, confirm_run, confirm, mutated,
  close,
}
use m6t.Pipeline.Checked.{
  Step, switching, starting, preview_ends, confirming, mutation_ends, closing, Reachable, mounted,
  after, IsPreviewed, NeedsPreview, preview-NeedsPreview,
}

-- What holds of the hook's state at any time.

pub record IsSound (p : Pipeline) : Type 0 where
  pub under_way :
      (mine : ℕ) (target : PipelineTarget)
      → Memᴰ (mine, target) p.previews
      → (mine ≤ p.generation) × (mine ≡ p.generation → p.project ≡ some target.project)
  pub on_screen :
      (r : PipelineRun) → p.run ≡ some r → (p.project ≡ some r.target.project) × NeedsPreview r
  pub asked :
      (m : Mutation)
      → Memᴰ m p.mutations
      → (m.generation ≤ p.generation)
        × (m.generation ≡ p.generation → p.project ≡ some m.opened.target.project)
        × IsPreviewed m.opened

none-ne-some : {r : PipelineRun} → none ≡ some r → ⊥
none-ne-some e = cc

-- A change that takes the run off the screen and counts the generation on.
dropped-IsSound :
    (p : Pipeline) (project : Option Text)
    → IsSound p
    → IsSound (record p { project = project; generation = suc p.generation; run = none })
dropped-IsSound p project s = record {
  under_way = λ mine target m.
      let (old, _) = s.under_way mine target m in
      (omega (arith, old), λ e. absurd (omega (arith, old, e)));
  on_screen = λ r e. absurd (none-ne-some e);
  asked = λ m n.
      let (old, _, behind) = s.asked m n in
      (omega (arith, old), λ e. absurd (omega (arith, old, e)), behind);
}

previewing-ne-ready : previewing ≡ ready → ⊥
previewing-ne-ready e = cc

running-ne-ready : running ≡ ready → ⊥
running-ne-ready e = cc

finished-ne-ready : finished ≡ ready → ⊥
finished-ne-ready e = cc

-- What the dialog shows next.
show-IsSound :
    (p : Pipeline) (r : PipelineRun)
    → IsSound p
    → p.project ≡ some r.target.project
    → NeedsPreview r
    → IsSound (record p { run = some r })
show-IsSound p r s here needs = record {
  under_way = s.under_way;
  on_screen = λ x e.
      subst (λ (y : PipelineRun). (p.project ≡ some y.target.project) × NeedsPreview y) (some_inj e)
        (here, needs);
  asked = s.asked;
}

start_in-IsSound :
    (project : Option Text) (action : PipelineAction) (path : Text) (p : Pipeline)
    → p.project ≡ project
    → IsSound p
    → IsSound (start_in project action path p)
unfolding opening
start_in-IsSound none action path p here s = s
start_in-IsSound (some project) action path p here s =
    let target : PipelineTarget = record { project = project; path = path; action = action } in
    show-IsSound
      (record p {
        generation = suc p.generation;
        run = none;
        previews = (suc p.generation, target) ∷ p.previews;
      })
      (opening target) (begun target here (dropped-IsSound p p.project s)) here
      (λ e _. absurd (previewing-ne-ready e))
  where
    begun :
        (target : PipelineTarget)
        → p.project ≡ some target.project
        → IsSound (record p { generation = suc p.generation; run = none })
        → IsSound (record p {
          generation = suc p.generation;
          run = none;
          previews = (suc p.generation, target) ∷ p.previews;
        })
    begun target named t = record {
      under_way = λ mine x m. elim (Memᴰ.cases_cons m) [
        | inl new ↦ (
          omega (arith, ap {B = ℕ} (λ (c : ℕ × PipelineTarget). c.0) new),
          λ _. named ∙ ap (λ (c : ℕ × PipelineTarget). some c.1.project) (sym new),
        )
        | inr old ↦ t.under_way mine x old
      ];
      on_screen = t.on_screen;
      asked = t.asked;
    }

previewed-IsSound :
    (mine : ℕ) (target : PipelineTarget) (bound : Answer Binding)
    (check diffed : Answer CheckResult) (p : Pipeline)
    → Memᴰ (mine, target) p.previews
    → IsSound p
    → IsSound (previewed mine target bound check diffed p)
unfolding previewed
previewed-IsSound mine target bound check diffed p m s =
    let (same, needs) = preview-NeedsPreview target bound check diffed in
    if_cases IsSound (p.generation == mine)
      (λ current.
        show-IsSound p (preview target bound check diffed) s
          ((s.under_way mine target m).1 (ground (arith, current))
            ∙ ap (λ (t : PipelineTarget). some t.project) (sym same))
          needs)
      (λ _. s)

is_ready_eq : (phase : PipelinePhase) → is_ready phase ≡ true → phase ≡ ready
is_ready_eq ready h = refl
is_ready_eq previewing h = cc
is_ready_eq blocked h = cc
is_ready_eq running h = cc
is_ready_eq finished h = cc

IsPreviewed-ready :
    (opened : PipelineRun)
    → (not (is_ready opened.phase) || is_diff opened.target.action) ≡ false
    → NeedsPreview opened
    → IsPreviewed opened
IsPreviewed-ready opened go needs =
    needs (is_ready_eq opened.phase (ground (arith, go))) (ground (arith, go))

-- A mutation of a checked run is asked for.
sent :
    (opened : PipelineRun) (typed : Text) (p : Pipeline)
    → p.project ≡ some opened.target.project
    → IsPreviewed opened
    → IsSound (record p { generation = suc p.generation; run = none })
    → IsSound (record p {
      generation = suc p.generation;
      run = none;
      mutations =
          record { generation = suc p.generation; opened = opened; typed = typed } ∷ p.mutations;
    })
sent opened typed p here checked t = record {
  under_way = t.under_way;
  on_screen = t.on_screen;
  asked = λ m n. elim (Memᴰ.cases_cons n) [
    | inl new ↦ (
      omega (arith, ap {B = ℕ} (λ (x : Mutation). x.generation) new),
      λ _. here ∙ ap (λ (x : Mutation). some x.opened.target.project) (sym new),
      subst (λ (x : Mutation). IsPreviewed x.opened) (sym new) checked,
    )
    | inr old ↦ t.asked m old
  ];
}

confirm_run-IsSound :
    (run : Option PipelineRun) (typed : Text) (p : Pipeline)
    → p.run ≡ run
    → IsSound p
    → IsSound (confirm_run run typed p)
confirm_run-IsSound none typed p e s = s
confirm_run-IsSound (some opened) typed p e s =
    let (here, needs) = s.on_screen opened e in
    if_cases IsSound (not (is_ready opened.phase) || is_diff opened.target.action) (λ _. s)
      (λ go.
        show-IsSound
          (record p {
            generation = suc p.generation;
            run = none;
            mutations =
                record { generation = suc p.generation; opened = opened; typed = typed }
                ∷ p.mutations;
          })
          (record opened { phase = running })
          (sent opened typed p here (IsPreviewed-ready opened go needs)
            (dropped-IsSound p p.project s))
          here (λ h _. absurd (running-ne-ready h)))

mutated-IsSound :
    (at : ℕ) (m : Mutation) (answer : Answer CheckResult) (p : Pipeline)
    → Memᴰ m p.mutations
    → IsSound p
    → IsSound (mutated at m answer p)
unfolding mutated
mutated-IsSound at m answer p n s =
    let s' : (logs : List (Text × List RunEntry)) → IsSound (record p { logs = logs }) =
      λ logs. record { under_way = s.under_way; on_screen = s.on_screen; asked = s.asked } in
    if_cases IsSound (p.generation == m.generation)
      (λ current.
        show-IsSound _ _ (s' _) ((s.asked m n).1 (ground (arith, current)))
          (λ h _. absurd (finished-ne-ready h)))
      (λ _. s' _)

Step-IsSound : {p q : Pipeline} → Step p q → IsSound p → IsSound q
unfolding start confirm change_project close
Step-IsSound {p} (switching project) s = dropped-IsSound p project s
Step-IsSound {p} (starting action path) s = start_in-IsSound p.project action path p refl s
Step-IsSound {p} (preview_ends mine target bound check diffed m) s =
    previewed-IsSound mine target bound check diffed p m s
Step-IsSound {p} (confirming typed) s = confirm_run-IsSound p.run typed p refl s
Step-IsSound {p} (mutation_ends at m answer n) s = mutated-IsSound at m answer p n s
Step-IsSound {p} closing s = dropped-IsSound p p.project s

Reachable-IsSound : {p : Pipeline} → Reachable p → IsSound p
unfolding new_pipeline
Reachable-IsSound (mounted project) = record {
  under_way = λ mine target m. elim m [ ];
  on_screen = λ r e. absurd (none-ne-some e);
  asked = λ m n. elim n [ ];
}
Reachable-IsSound (after r step) = Step-IsSound step (Reachable-IsSound r)

-- Whatever the user does, and whenever the backend answers, a mutation is asked of the backend only for
-- a run that the preview of its own target made of the backend's answers, and that holds the result of
-- a check that exited with 0 and, for an apply, a diff.
pub Reachable-IsPreviewed :
    {p : Pipeline} (m : Mutation) → Reachable p → Memᴰ m p.mutations → IsPreviewed m.opened
Reachable-IsPreviewed m r n = ((Reachable-IsSound r).asked m n).2

-- The dialog stands over the active project only: a run that is shown, whichever answer brought it, is
-- of that project.
pub Reachable-project :
    {p : Pipeline} (shown : PipelineRun)
    → Reachable p
    → p.run ≡ some shown
    → p.project ≡ some shown.target.project
Reachable-project shown r e = ((Reachable-IsSound r).on_screen shown e).0
