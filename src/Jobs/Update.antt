-- ===== src/Jobs/Update.antt =====
-- What an edit answers.
use field_note.Common.{
  ℕ, ◌≡◌, refl, ap, ◌∙◌, Option, none, some, List, [], ◌∷◌, map, Text, sort_by, sort_by_of_IsSorted,
  All-map_of, or_else, All,
}
use field_note.Severity.{from_api-to_api}
use field_note.Result.{ok, pure, ◌>>=◌, ◌>>◌}
use field_note.Database.{Db, Job, Finding, LoadedSection, ReportFindingInput}
use field_note.World.{World, call, Services, Config}
use field_note.World.Returns.{at_now_then}
use field_note.Repository.{load, replace_report_scoped}
use field_note.Repository.Written.{IsFresh, as_input}
use field_note.Repository.Order.{load-IsSorted, load-findings_IsSorted}
use field_note.Repository.Scoped.{scoped_row, edited, replace_report-scoped}
use field_note.Media.{presign_pdf_download}
use field_note.Jobs.Shown.{read_finding, read_section, ShowsEdit, edit_shown}
use field_note.Jobs.Dto.{
  JobDto, UpdateSectionDto, UpdateJobDto, finding_dto, section_dto, job_to_dto,
}
use field_note.Jobs.{
  to_report_input, presign_if, maybe_pdf_url, find_one, apply_update, update, ready_key,
}
use field_note.Jobs.Owned.{owned_found}

read_findings-dto :
    (fs : List Finding)
    → map read_finding (map finding_dto fs)
      ≡ map
          (λ (f : Finding).
            let r : ReportFindingInput = record { text = f.text; severity = f.severity } in r)
          fs
unfolding finding_dto
read_findings-dto [] = refl
read_findings-dto (f ∷ fs) = rw (from_api-to_api f.severity, read_findings-dto fs) refl

read_sections-dto :
    (ls : List LoadedSection)
    → All
        (λ (l : LoadedSection). sort_by (λ (f : Finding). f.sort_order) l.findings ≡ l.findings)
        ls
    → map read_section (map section_dto ls) ≡ map as_input ls
unfolding section_dto
read_sections-dto [] h = refl
read_sections-dto (l ∷ ls) h = rw (h.0, read_findings-dto l.findings, read_sections-dto ls h.1) refl

-- The answer shows the loaded report, in order.
job_to_dto-load :
    (db : Db) (j : Job) (url : Option Text)
    → map read_section (job_to_dto (load db j) url).sections ≡ map as_input (load db j).sections
unfolding job_to_dto
job_to_dto-load db j url =
    ap (λ ls. map read_section (map section_dto ls))
      (sort_by_of_IsSorted (λ (l : LoadedSection). l.section.sort_order) (load db j).sections
        (load-IsSorted db j))
    ∙ read_sections-dto (load db j).sections (
        All-map_of _ _ (load db j).sections
          (λ l h. sort_by_of_IsSorted (λ (f : Finding). f.sort_order) l.findings h)
          (load-findings_IsSorted db j))

label-dto : (db : Db) (j : Job) (url : Option Text) → (job_to_dto (load db j) url).label ≡ j.label
unfolding job_to_dto load
label-dto db j url = refl

-- Signing a link is computed locally and does not fail.
abbrev pub Signs : {C : Type 0} → Services C → Type 0
Signs {C} S =
    (key : Text) (ttl : ℕ) (c : C) → (url : Text) × ((S.signed_get_url key ttl c).0 ≡ ok url)

module _ {C : Type 0} (S : Services C) (cfg : Config) (signs : Signs S) where
  presigned :
      (key : Text) (w : World C) → (u : Option Text) × ((presign_if S cfg (some key) w).0 ≡ ok u)
  unfolding presign_if presign_pdf_download ◌>>=◌ call pure
  presigned key w = let (url, e) = signs key cfg.presign_get_ttl w.cloud in (some url, rw e refl)

  presign_if_returns :
      (k : Option Text) (w : World C) → (u : Option Text) × ((presign_if S cfg k w).0 ≡ ok u)
  unfolding presign_if pure
  presign_if_returns none w = (none, refl)
  presign_if_returns (some key) w = presigned key w

  -- A read of a live job of the user returns it with its report.
  find_one_returns :
      (user_id job_id : Text) (w : World C) (j : Job)
      → scoped_row user_id job_id w.db ≡ some j
      → (u : Option Text) × ((find_one S cfg user_id job_id w).0 ≡ ok (job_to_dto (load w.db j) u))
  unfolding find_one maybe_pdf_url ◌>>=◌ pure load
  find_one_returns user_id job_id w j h =
      let (u, e) = presign_if_returns (ready_key j.status j.pdf_key) w in
      (u, ap (λ z. z.0) (owned_found user_id job_id _ w j h) ∙ rw e refl)

  -- Where the ids in use are below the next one and signing a link returns, an edit with sections
  -- of a live job of the user returns the job with the label of the edit, where it has one, and
  -- with exactly the edited sections, each with exactly the edited findings, their texts and
  -- severities, all in the order of the edit's positions.
  pub update_returns :
      (user_id job_id : Text) (dto : UpdateJobDto) (ss : List UpdateSectionDto) (w : World C)
      (j : Job)
      → scoped_row user_id job_id w.db ≡ some j
      → IsFresh w.db
      → dto.sections ≡ some ss
      → (r : JobDto) × ((update S cfg user_id job_id dto w).0 ≡ ok r)
        × ShowsEdit ss r.sections
        × (r.label ≡ or_else dto.label j.label)
  unfolding update apply_update
  update_returns user_id job_id dto ss w j h fresh has_sections =
      let now = S.now w.cloud in
      let (done, row, report) =
        replace_report-scoped user_id job_id w.db j h dto.label (to_report_input ss) now fresh in
      let w' : World C = record w {
        db = (replace_report_scoped user_id job_id dto.label (to_report_input ss) now w.db).1;
      } in
      let (u, e) = find_one_returns user_id job_id w' (edited dto.label now j) row in
      let p : update S cfg user_id job_id dto w ≡ find_one S cfg user_id job_id w' =
        owned_found user_id job_id _ w j h
        ∙ ap (λ o. (apply_update S cfg user_id job_id dto o >> find_one S cfg user_id job_id) w)
            has_sections
        ∙ at_now_then S (replace_report_scoped user_id job_id dto.label (to_report_input ss)) _ w tt
            done in
      (
        job_to_dto (load w'.db (edited dto.label now j)) u,
        ap (λ z. z.0) p ∙ e,
        edit_shown ss _ (job_to_dto-load w'.db (edited dto.label now j) u ∙ report),
        label-dto w'.db (edited dto.label now j) u,
      )
