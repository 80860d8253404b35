-- ===== src/Pipeline/Saved.antt =====
-- What a call of `process_local_document` stores and answers.
use sustentra_platform.Prelude.{
  ◌+◌, ◌≡◌, refl, Bool, true, Option, none, some, List, [], ◌∷◌, ◌++◌, filter, filter-append, arith,
  max,
}
use sustentra_platform.Prelude.Outcomes.{ok}
use sustentra_platform.Text.{eq_refl, has_content}
use sustentra_platform.Value.{Numbers}
use sustentra_platform.Pipeline.Runs.{
  PipelineRun, save_run, last_run, get_run_by_id, get_latest_run,
}
use sustentra_platform.Pipeline.Stages.{Services, Document, Threshold}
use sustentra_platform.Pipeline.Process.{
  Answer, resolve_ids, build_pipeline_run, process_local_document,
}
use sustentra_platform.Pipeline.Steps.{Ending, run_stages}
use sustentra_platform.Pipeline.Endings.{EndsWell}
use sustentra_platform.Pipeline.Trace.{run_stages-IsFinished}

last_run-append :
    (runs : List PipelineRun) (r : PipelineRun) (found : Option PipelineRun)
    → last_run (runs ++ r ∷ []) found ≡ some r
last_run-append [] r found = refl
last_run-append (q ∷ runs) r found = last_run-append runs r (some q)

last_run-save_run :
    (p : PipelineRun → Bool) (r : PipelineRun) (runs : List PipelineRun)
    → p r ≡ true
    → last_run (filter p (save_run r runs)) none ≡ some r
last_run-save_run p r runs h =
    rw (filter-append p runs (r ∷ [])) (rw h (last_run-append (filter p runs) r none))

get_run_by_id-save_run :
    (r : PipelineRun) (runs : List PipelineRun)
    → get_run_by_id r.pipeline_run_id (save_run r runs) ≡ some r
unfolding get_run_by_id
get_run_by_id-save_run r runs = last_run-save_run _ r runs (eq_refl r.pipeline_run_id)

get_latest_run-save_run :
    (r : PipelineRun) (runs : List PipelineRun)
    → get_latest_run r.evidence_id (save_run r runs) ≡ some r
unfolding get_latest_run
get_latest_run-save_run r runs = last_run-save_run _ r runs (eq_refl r.evidence_id)

module _ {N P : Type 0} ⦃numbers : Numbers N⦄ ⦃threshold : Threshold N⦄ where
  missing_rest :
      (services : Services N P) (doc : Document) (ending : Ending N P)
      → let r = build_pipeline_run services doc (resolve_ids services doc) ending in
        r.found_candidate_count + r.missing_candidate_count
        ≡ max r.found_candidate_count r.candidate_count
  unfolding build_pipeline_run
  missing_rest services doc ending = omega arith

  -- With a file that is there, an engagement that is not blank, and runs to be stored,
  -- `process_local_document` answers whatever the services answer or raise; it stores the run that it
  -- answers, which is then found by its id and as the latest of its evidence. The run ends in one of
  -- seven ways, in which the status goes with those of the stages, and no stage is started behind one
  -- that failed. The candidates that were found and those that are missing are together as many as
  -- there are, or as were found if these are more.
  pub process_answers :
      (services : Services N P) (doc : Document) (runs : List PipelineRun)
      → services.is_file doc.local_file_path ≡ true
      → has_content doc.engagement_id ≡ true
      → doc.persist_run ≡ true
      → (a : Answer N P) × (process_local_document services doc runs
          ≡ (save_run a.pipeline_run runs, ok a))
        × EndsWell a.pipeline_run.status a.pipeline_run.stage_statuses
        × (get_run_by_id a.pipeline_run.pipeline_run_id (save_run a.pipeline_run runs)
            ≡ some a.pipeline_run)
        × (get_latest_run a.pipeline_run.evidence_id (save_run a.pipeline_run runs)
            ≡ some a.pipeline_run)
        × (a.pipeline_run.found_candidate_count + a.pipeline_run.missing_candidate_count
            ≡ max a.pipeline_run.found_candidate_count a.pipeline_run.candidate_count)
  unfolding process_local_document build_pipeline_run
  process_answers services doc runs there known stored =
      let ending = run_stages services doc (resolve_ids services doc) in
      let run = build_pipeline_run services doc (resolve_ids services doc) ending in
      (
        record { pipeline_run = run; progress = ending.progress },
        rw there (rw known (rw stored refl)),
        run_stages-IsFinished services doc (resolve_ids services doc),
        get_run_by_id-save_run run runs,
        get_latest_run-save_run run runs,
        missing_rest services doc ending,
      )
