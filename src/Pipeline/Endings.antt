-- ===== src/Pipeline/Endings.antt =====
-- The ways in which a run of the pipeline can end, and what the status functions of
-- backend/app/services/pipeline_orchestration_service.py give.
use sustentra_platform.Prelude.{◌≡◌, refl, Bool, true, false, Option, none, some, if◌then◌else◌}
use sustentra_platform.Text.{Text, lit, ◌==◌, eq_iff}
use sustentra_platform.Pipeline.Targets.{has_status}
use sustentra_platform.Pipeline.Runs.{PipelineStatus, StageStatus, StageStatuses}
use sustentra_platform.Pipeline.Stages.{
  parser_stage_status, classification_stage_status, mark_failed,
}

-- The status of a stage that was passed.
pub data IsPassed : StageStatus → Type 0 where
  fully : IsPassed StageStatus.completed
  partly : IsPassed StageStatus.partial

-- The ways in which a run can end: the status of the run, and of the four stages in their order.
pub data EndsAs
    : PipelineStatus → StageStatus → StageStatus → StageStatus → StageStatus → Type 0 where
  at_parse :
      EndsAs PipelineStatus.failed StageStatus.failed StageStatus.not_started
        StageStatus.not_started StageStatus.not_started
  at_classify :
      {p : StageStatus}
      → IsPassed p
      → EndsAs PipelineStatus.failed p StageStatus.failed StageStatus.not_started
          StageStatus.not_started
  at_target_plan :
      {p c : StageStatus}
      → IsPassed p
      → IsPassed c
      → EndsAs PipelineStatus.failed p c StageStatus.failed StageStatus.not_started
  at_generation :
      {p c : StageStatus}
      → IsPassed p
      → IsPassed c
      → EndsAs PipelineStatus.failed p c StageStatus.completed StageStatus.failed
  no_type :
      {p c : StageStatus}
      → IsPassed p
      → IsPassed c
      → EndsAs PipelineStatus.partial p c StageStatus.skipped StageStatus.skipped
  no_targets :
      {p c : StageStatus}
      → IsPassed p
      → IsPassed c
      → EndsAs PipelineStatus.partial p c StageStatus.partial StageStatus.skipped
  all_done :
      {p c : StageStatus}
      → IsPassed p
      → IsPassed c
      → EndsAs PipelineStatus.completed p c StageStatus.completed StageStatus.completed

abbrev pub EndsWell : PipelineStatus → StageStatuses → Type 0
EndsWell status s = EndsAs status s.parse s.classify s.target_plan s.candidate_generation

-- The stages that are not started, from the third or from the fourth on.
abbrev pub stages_of : StageStatus → StageStatus → StageStatus → StageStatuses
stages_of p c t = record {
  parse = p;
  classify = c;
  target_plan = t;
  candidate_generation = StageStatus.not_started;
}

pub mark-classify :
    (p : StageStatus)
    → IsPassed p
    → EndsWell PipelineStatus.failed
        (mark_failed (stages_of p StageStatus.not_started StageStatus.not_started))
unfolding mark_failed
mark-classify p fully = at_classify fully
mark-classify p partly = at_classify partly

pub mark-target_plan :
    (p c : StageStatus)
    → IsPassed p
    → IsPassed c
    → EndsWell PipelineStatus.failed (mark_failed (stages_of p c StageStatus.not_started))
unfolding mark_failed
mark-target_plan p c fully fully = at_target_plan fully fully
mark-target_plan p c fully partly = at_target_plan fully partly
mark-target_plan p c partly fully = at_target_plan partly fully
mark-target_plan p c partly partly = at_target_plan partly partly

pub mark-generation :
    (p c : StageStatus)
    → IsPassed p
    → IsPassed c
    → EndsWell PipelineStatus.failed (mark_failed (stages_of p c StageStatus.completed))
unfolding mark_failed
mark-generation p c fully fully = at_generation fully fully
mark-generation p c fully partly = at_generation fully partly
mark-generation p c partly fully = at_generation partly fully
mark-generation p c partly partly = at_generation partly partly

pub classification-IsPassed : (s : Option Text) → IsPassed (classification_stage_status s)
unfolding classification_stage_status
classification-IsPassed s = choose _
  where
    choose : (b : Bool) → IsPassed (if b then StageStatus.completed else StageStatus.partial)
    choose true = fully
    choose false = partly

pub parser-IsPassed :
    (s : Option Text) → has_status s (lit "failed") ≡ false → IsPassed (parser_stage_status s)
unfolding parser_stage_status
parser-IsPassed s h = choose (has_status s (lit "parsed")) _ (has_status s (lit "failed")) h
  where
    choose :
        (a b c : Bool)
        → c ≡ false
        → IsPassed (
            if a
            then StageStatus.completed
            else if b
            then StageStatus.partial
            else if c
            then StageStatus.failed
            else StageStatus.partial)
    choose true b c h = fully
    choose false true c h = partly
    choose false false true h = absurd cc
    choose false false false h = partly

pub parser_failed :
    (s : Option Text)
    → has_status s (lit "failed") ≡ true
    → parser_stage_status s ≡ StageStatus.failed
unfolding parser_stage_status ◌==◌
parser_failed none h = absurd cc
parser_failed (some t) h = rw ((eq_iff t (lit "failed")).0 h) refl
