-- ===== src/Jobs/Dto.antt =====
-- The requests and answers of server/src/jobs/dto, and `jobToDto` of server/src/jobs/job.mapper.ts.
use field_note.Common.{ℕ, Option, List, map, Text, sort_by}
use field_note.Severity.{ApiSeverity, severity_to_api}
use field_note.Database.{JobStatus, Finding, LoadedSection, JobWithReport}
use field_note.Media.{PresignedUpload}

-- ── server/src/jobs/dto ──

pub record FindingDto : Type 0 where
  pub id : ℕ
  pub text : Text
  pub severity : ApiSeverity
  pub sort_order : ℕ

pub record SectionDto : Type 0 where
  pub id : ℕ
  pub title : Text
  pub sort_order : ℕ
  pub findings : List FindingDto

pub record JobDto : Type 0 where
  pub id : Text
  pub label : Text
  pub status : JobStatus
  pub transcript : Option Text
  pub error_message : Option Text
  pub sections : List SectionDto
  pub pdf_url : Option Text
  pub created_at : ℕ
  pub updated_at : ℕ

pub record CreateJobResponseDto : Type 0 where
  pub job : JobDto
  pub audio_upload_url : PresignedUpload

pub record UpdateFindingDto : Type 0 where
  pub text : Text
  pub severity : ApiSeverity
  pub sort_order : ℕ

pub record UpdateSectionDto : Type 0 where
  pub title : Text
  pub sort_order : ℕ
  pub findings : List UpdateFindingDto

pub record UpdateJobDto : Type 0 where
  pub label : Option Text
  pub sections : Option (List UpdateSectionDto)

-- ── job.mapper.ts ──

unfoldable pub finding_dto : Finding → FindingDto
finding_dto f = record {
  id = f.id;
  text = f.text;
  severity = severity_to_api f.severity;
  sort_order = f.sort_order;
}

unfoldable pub section_dto : LoadedSection → SectionDto
unfolding finding_dto
section_dto l = record {
  id = l.section.id;
  title = l.section.title;
  sort_order = l.section.sort_order;
  findings = map finding_dto (sort_by (λ (f : Finding). f.sort_order) l.findings);
}

unfoldable pub job_to_dto : JobWithReport → Option Text → JobDto
unfolding section_dto
job_to_dto job pdf_url = record {
  id = job.id;
  label = job.label;
  status = job.status;
  transcript = job.transcript;
  error_message = job.error_message;
  sections = map section_dto (sort_by (λ (l : LoadedSection). l.section.sort_order) job.sections);
  pdf_url = pdf_url;
  created_at = job.created_at;
  updated_at = job.updated_at;
}
