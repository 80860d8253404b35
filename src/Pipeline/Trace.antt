-- ===== src/Pipeline/Trace.antt =====
-- A run of the pipeline ends in one of the ways.
use mathlib.Core.Path.{subst}
use sustentra_platform.Prelude.{◌≡◌, refl, sym, ap, List, [], ◌∷◌, Bool-cases, inl, inr}
use sustentra_platform.Prelude.Outcomes.{Result, ok, error}
use sustentra_platform.Text.{Text, lit, is_truthy}
use sustentra_platform.Pipeline.Targets.{Target, Classification, has_status}
use sustentra_platform.Pipeline.Runs.{PipelineStatus, StageStatus, StageStatuses}
use sustentra_platform.Pipeline.Stages.{
  Extraction, Services, Document, Progress, initial_progress, read_text, parser_stage_status,
  classification_stage_status, mark_failed,
}
use sustentra_platform.Pipeline.Steps.{
  Ending, RunIds, fail_with, with_extraction, generate, with_targets, skip_targets, is_confident,
  plan_targets, with_classification, classify_output, with_output, run_stages,
}
use sustentra_platform.Pipeline.Endings.{
  IsPassed, EndsWell, at_parse, no_targets, no_type, all_done, stages_of, mark-classify,
  mark-target_plan, mark-generation, classification-IsPassed, parser-IsPassed, parser_failed,
}

-- The state of the run when the stages before the third have been passed.
abbrev Planned : {N P : Type 0} → Progress N P → StageStatus → StageStatus → Type 0
Planned q p c = q.stages ≡ stages_of p c StageStatus.not_started

abbrev pub IsFinished : {N P : Type 0} → Ending N P → Type 0
IsFinished e = EndsWell e.status e.progress.stages

module _ {N P : Type 0} where
  with_extraction-IsFinished :
      (r : Result Text (Extraction N)) (q : Progress N P) (p c : StageStatus)
      → IsPassed p
      → IsPassed c
      → q.stages ≡ stages_of p c StageStatus.completed
      → IsFinished (with_extraction r q)
  unfolding fail_with
  with_extraction-IsFinished (error exc) q p c h k e =
      subst (λ s. EndsWell PipelineStatus.failed (mark_failed s)) (sym e) (mark-generation p c h k)
  with_extraction-IsFinished (ok r) q p c h k e =
      subst
        (λ (s : StageStatuses).
          EndsWell PipelineStatus.completed
            (record s { candidate_generation = StageStatus.completed }))
        (sym e) (all_done h k)

  generate-IsFinished :
      (services : Services N P) (ids : RunIds) (output : P) (targets : List Target)
      (q : Progress N P) (p c : StageStatus)
      → IsPassed p
      → IsPassed c
      → Planned q p c
      → IsFinished (generate services ids output targets q)
  unfolding generate
  generate-IsFinished services ids output [] q p c h k e = rw e (no_targets h k)
  generate-IsFinished services ids output (t ∷ ts) q p c h k e =
      with_extraction-IsFinished (services.extract output (t ∷ ts) ids.evidence_id) _ p c h k
        (ap (λ (s : StageStatuses). record s { target_plan = StageStatus.completed }) e)

  with_targets-IsFinished :
      (services : Services N P) (ids : RunIds) (output : P) (r : Result Text (List Target))
      (q : Progress N P) (p c : StageStatus)
      → IsPassed p
      → IsPassed c
      → Planned q p c
      → IsFinished (with_targets services ids output r q)
  unfolding fail_with
  with_targets-IsFinished services ids output (error exc) q p c h k e =
      subst (λ s. EndsWell PipelineStatus.failed (mark_failed s)) (sym e) (mark-target_plan p c h k)
  with_targets-IsFinished services ids output (ok ts) q p c h k e =
      generate-IsFinished services ids output ts q p c h k e

  plan_targets-IsFinished :
      (services : Services N P) (doc : Document) (ids : RunIds) (output : P) (cl : Classification)
      (q : Progress N P) (p c : StageStatus)
      → IsPassed p
      → IsPassed c
      → Planned q p c
      → IsFinished (plan_targets services doc ids output cl q)
  unfolding plan_targets skip_targets
  plan_targets-IsFinished services doc ids output cl q p c h k e =
      elim (Bool-cases (is_truthy doc.canonical_type_id_override)) [
        | inl given ↦ rw given (with_targets-IsFinished services ids output _ _ p c h k e)
        | inr free ↦
            elim (Bool-cases (is_confident q.classification_status cl.primary_canonical_type_id)) [
              | inl sure ↦
                  rw free (rw sure (with_targets-IsFinished services ids output _ _ p c h k e))
              | inr unsure ↦ rw free (rw unsure (rw e (no_type h k)))
            ]
      ]

  with_classification-IsFinished :
      (services : Services N P) (doc : Document) (ids : RunIds) (output : P)
      (r : Result Text Classification) (q : Progress N P) (p : StageStatus)
      → IsPassed p
      → Planned q p StageStatus.not_started
      → IsFinished (with_classification services doc ids output r q)
  unfolding fail_with
  with_classification-IsFinished services doc ids output (error exc) q p h e =
      subst (λ s. EndsWell PipelineStatus.failed (mark_failed s)) (sym e) (mark-classify p h)
  with_classification-IsFinished services doc ids output (ok cl) q p h e =
      let c = classification_stage_status (read_text cl.status) in
      plan_targets-IsFinished services doc ids output cl _ p c h
        (classification-IsPassed (read_text cl.status))
        (ap (λ (s : StageStatuses). record s { classify = c }) e)

  with_output-IsFinished :
      (services : Services N P) (doc : Document) (ids : RunIds) (r : Result Text P)
      → IsFinished (with_output services doc ids r initial_progress)
  unfolding fail_with mark_failed classify_output
  with_output-IsFinished services doc ids (error exc) = at_parse
  with_output-IsFinished services doc ids (ok output) =
      let status = read_text (services.parser_status output) in
      elim (Bool-cases (has_status status (lit "failed"))) [
        | inl bad ↦ rw bad (rw (parser_failed status bad) at_parse)
        | inr good ↦ rw good (
            with_classification-IsFinished services doc ids output _ _ (parser_stage_status status)
              (parser-IsPassed status good) refl)
      ]

  -- The stages end in one of the ways, whatever the services answer or raise.
  pub run_stages-IsFinished :
      (services : Services N P) (doc : Document) (ids : RunIds)
      → IsFinished (run_stages services doc ids)
  unfolding run_stages
  run_stages-IsFinished services doc ids = with_output-IsFinished services doc ids _
