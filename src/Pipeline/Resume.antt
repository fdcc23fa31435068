-- ===== src/Pipeline/Resume.antt =====
-- What a later attempt takes from an earlier one.
use field_note.Common.{
  ◌≡◌, refl, ap, ◌∙◌, false, some, List, ◌∷◌, map, Text, is_empty, sort_by, sort_by_of_IsSorted,
  map_cong, if◌then◌else◌, arith, All-map_of,
}
use field_note.Result.{pure, ◌>>=◌, try_catch, handle}
use field_note.Database.{
  Db, Job, Finding, ReportFindingInput, ReportSectionInput, LoadedSection, JobWithReport,
}
use field_note.Repository.{load, replace_report}
use field_note.Repository.Report.{load-replace_report}
use field_note.Repository.Written.{IsFresh, as_input}
use field_note.Repository.Order.{load-IsSorted, load-findings_IsSorted}
use field_note.World.{World, ProcessJobData, Services, Config}
use field_note.Pipeline.{
  existing_report, usable_transcript, run_stages, transcribe_stage, transcribe_or_reuse,
  compile_stage, render_stage, process, process_audio, on_stage_error, is_ready, throw,
  no_audio_key,
}
use field_note.Pipeline.Guards.{IsRunnable, process_runs}

-- The second sort of `existingReport` finds the report in order.
existing_report-load :
    (db : Db) (j : Job) → existing_report (load db j) ≡ map as_input (load db j).sections
unfolding existing_report
existing_report-load db j =
    let section_key = λ (l : LoadedSection). l.section.sort_order in
    let finding_key = λ (f : Finding). f.sort_order in
    let strip = λ (l : LoadedSection).
      let r : ReportSectionInput = record {
        title = l.section.title;
        findings =
            map
              (λ (f : Finding).
                let r : ReportFindingInput = record { text = f.text; severity = f.severity } in r)
              (sort_by finding_key l.findings);
      } in
      r in
    ap (map strip) (sort_by_of_IsSorted section_key (load db j).sections (load-IsSorted db j))
    ∙ map_cong strip as_input (load db j).sections (
        All-map_of _ _ (load db j).sections
          (λ l h. cc (sort_by_of_IsSorted finding_key l.findings h)) (load-findings_IsSorted db j))

-- Where the ids in use are below the next one, what a compile stage persists is what the next
-- attempt takes for the job's report.
pub existing_report-replace_report :
    (j : Job) (ss : List ReportSectionInput) (db : Db)
    → IsFresh db
    → existing_report (load (replace_report j.id ss db) j) ≡ ss
existing_report-replace_report j ss db h =
    existing_report-load (replace_report j.id ss db) j ∙ load-replace_report j ss db h

module _ {C : Type 0} (S : Services C) (cfg : Config) (d : ProcessJobData) where
  -- With a transcript and a report at hand, the stages are the render stage alone: neither the
  -- speech provider nor the compiler is called, and nothing is written before it.
  run_stages_resumed :
      (job : JobWithReport) (key t : Text) (s : ReportSectionInput) (ss : List ReportSectionInput)
      (w : World C)
      → usable_transcript job.transcript ≡ some t
      → existing_report job ≡ s ∷ ss
      → run_stages S cfg d job key w ≡ render_stage S cfg d.job_id d.user_id job.label (s ∷ ss) w
  unfolding run_stages transcribe_stage transcribe_or_reuse compile_stage ◌>>=◌ pure
  run_stages_resumed job key t s ss w h e = rw (h, e) refl

  -- A run on a live job of the payload's user that is not READY, has an audio key and a transcript
  -- that is not blank, and whose last report was written as `s ∷ ss`, renders exactly `s ∷ ss`:
  -- neither the speech provider nor the compiler is called.
  pub process_resumes :
      (w : World C) (j : Job) (key t : Text) (s : ReportSectionInput) (ss : List ReportSectionInput)
      (db : Db)
      → IsRunnable d w.db j
      → j.audio_key ≡ some key
      → is_empty key ≡ false
      → usable_transcript j.transcript ≡ some t
      → IsFresh db
      → w.db ≡ replace_report j.id (s ∷ ss) db
      → process S cfg d w
        ≡ try_catch
            (render_stage S cfg d.job_id d.user_id j.label (s ∷ ss))
            (on_stage_error S cfg d)
            w
  unfolding try_catch load
  process_resumes w j key t s ss db r has_key named has_text fresh written =
      let unready : is_ready j.status ≡ false = ground (arith, r.unfinished) in
      let job = load w.db j in
      let report : existing_report job ≡ s ∷ ss =
        ap (λ x. existing_report (load x j)) written
        ∙ existing_report-replace_report j (s ∷ ss) db fresh in
      process_runs S cfg d w j r.found r.live r.owned unready
      ∙ ap (λ k. process_audio S cfg d job k w) has_key
      ∙ ap
          (λ b.
            (if b
                then throw (no_audio_key d.job_id)
                else try_catch (run_stages S cfg d job key) (on_stage_error S cfg d))
              w)
          named
      ∙ ap (λ z. handle z.0 (on_stage_error S cfg d) z.1)
          (run_stages_resumed job key t s ss w has_text report)
