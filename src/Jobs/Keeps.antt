-- ===== src/Jobs/Keeps.antt =====
-- The database through the reads of a request.
use field_note.Common.{Text, Option, none, some}
use field_note.Result.{Error, or_throw}
use field_note.Database.{Db, JobWithReport}
use field_note.World.{Services, Config}
use field_note.World.Keeps.{Keeps, Keeps-pure, Keeps-throw, Keeps-select, Keeps-call, Keeps-bind}
use field_note.Media.{presign_pdf_download}
use field_note.Jobs.{require_owned, presign_if, maybe_pdf_url}

module _ {C : Type 0} {P : Db → Type 0} where
  pub or_throw-Keeps : {A : Type 0} (o : Option A) (e : Error) → Keeps {C = C} P (or_throw o e)
  unfolding or_throw
  or_throw-Keeps none e = Keeps-throw e
  or_throw-Keeps (some a) e = Keeps-pure a

  pub require_owned-Keeps : (user_id job_id : Text) → Keeps {C = C} P (require_owned user_id job_id)
  unfolding require_owned
  require_owned-Keeps user_id job_id = Keeps-bind _ _ (Keeps-select _) (λ o. or_throw-Keeps o _)

module _ {C : Type 0} (S : Services C) (cfg : Config) {P : Db → Type 0} where
  presign_if-Keeps : (k : Option Text) → Keeps P (presign_if S cfg k)
  unfolding presign_if presign_pdf_download
  presign_if-Keeps none = Keeps-pure none
  presign_if-Keeps (some k) =
      Keeps-bind _ _ (Keeps-bind _ _ (Keeps-call _) (λ url. Keeps-pure _)) (λ d. Keeps-pure _)

  pub maybe_pdf_url-Keeps : (job : JobWithReport) → Keeps P (maybe_pdf_url S cfg job)
  unfolding maybe_pdf_url
  maybe_pdf_url-Keeps job = presign_if-Keeps _
