-- ===== src/Jobs/Owned.antt =====
-- `requireOwned`: the guard that every request on a job goes through.
use field_note.Common.{◌≡◌, refl, ap, ◌∙◌, sym, false, Option, none, some, Text, is_empty, arith}
use field_note.Result.{ok, err, pure, throw, or_throw, ◌>>=◌}
use field_note.Database.{Job, JobStatus, JobWithReport}
use field_note.World.{World, Action, select, Services, Config}
use field_note.Repository.{find_scoped, load}
use field_note.Repository.Scoped.{scoped_row, IsHidden, scoped_row_hidden}
use field_note.Media.{PresignedDownload, presign_pdf_download}
use field_note.Jobs.Dto.{UpdateJobDto}
use field_note.Jobs.{
  job_not_found, require_owned, find_one, update, process, remove, get_pdf_url, pdf_not_ready,
  ready_key,
}

module _ {C : Type 0} (user_id job_id : Text) (w : World C) where
  pub require_owned_missing :
      scoped_row user_id job_id w.db ≡ none
      → require_owned user_id job_id w ≡ (err job_not_found, w)
  unfolding require_owned ◌>>=◌ select find_scoped or_throw throw
  require_owned_missing h = rw h refl

  pub require_owned_found :
      (j : Job)
      → scoped_row user_id job_id w.db ≡ some j
      → require_owned user_id job_id w ≡ (ok (load w.db j), w)
  unfolding require_owned ◌>>=◌ select find_scoped or_throw pure
  require_owned_found j h = rw h refl

module _ {C A : Type 0} (user_id job_id : Text) (f : JobWithReport → Action C A) (w : World C) where
  pub owned_missing :
      scoped_row user_id job_id w.db ≡ none
      → (require_owned user_id job_id >>= f) w ≡ (err job_not_found, w)
  unfolding ◌>>=◌
  owned_missing h = rw (require_owned_missing user_id job_id w h) refl

  pub owned_found :
      (j : Job)
      → scoped_row user_id job_id w.db ≡ some j
      → (require_owned user_id job_id >>= f) w ≡ f (load w.db j) w
  unfolding ◌>>=◌
  owned_found j h = rw (require_owned_found user_id job_id w j h) refl

module _ {C : Type 0} (S : Services C) (cfg : Config) (user_id job_id : Text) (w : World C) where
  -- A job that is another user's, soft-deleted or unknown is not found by a read, an edit, a
  -- start, a delete or a request of its PDF, and none of them changes anything.
  pub requests_hidden :
      (dto : UpdateJobDto)
      → IsHidden user_id job_id w.db
      → (find_one S cfg user_id job_id w ≡ (err job_not_found, w))
        × (update S cfg user_id job_id dto w ≡ (err job_not_found, w))
        × (process S cfg user_id job_id w ≡ (err job_not_found, w))
        × (remove S user_id job_id w ≡ (err job_not_found, w))
        × (get_pdf_url S cfg user_id job_id w ≡ (err job_not_found, w))
  unfolding find_one update process remove get_pdf_url
  requests_hidden dto hidden =
      let h = scoped_row_hidden user_id job_id w.db hidden in
      (
        owned_missing user_id job_id _ w h,
        owned_missing user_id job_id _ w h,
        owned_missing user_id job_id _ w h,
        owned_missing user_id job_id _ w h,
        owned_missing user_id job_id _ w h,
      )

  url_returned :
      (k : Option Text) (d : PresignedDownload)
      → ((or_throw k pdf_not_ready >>= presign_pdf_download S cfg) w).0 ≡ ok d
      → (key : Text) × (k ≡ some key)
  unfolding ◌>>=◌ or_throw throw
  url_returned none d h = cc
  url_returned (some key) d h = (key, refl)

  ready_key-some :
      (s : JobStatus) (k : Option Text) (key : Text)
      → ready_key s k ≡ some key
      → (s ≡ JobStatus.ready) × (k ≡ some key) × (is_empty key ≡ false)
  unfolding ready_key
  ready_key-some s none key h = cc
  ready_key-some s (some k) key h = ground arith

  -- A link to the PDF of a live job of the user is given only where the job is READY and has a key
  -- that is not empty.
  pub get_pdf_url-IsReady :
      (d : PresignedDownload) (j : Job)
      → scoped_row user_id job_id w.db ≡ some j
      → (get_pdf_url S cfg user_id job_id w).0 ≡ ok d
      → (key : Text) × (j.status ≡ JobStatus.ready)
        × (j.pdf_key ≡ some key)
        × (is_empty key ≡ false)
  unfolding get_pdf_url load
  get_pdf_url-IsReady d j found h =
      let e : (or_throw (ready_key j.status j.pdf_key) pdf_not_ready >>= presign_pdf_download S cfg)
            w
          ≡ get_pdf_url S cfg user_id job_id w =
        sym (owned_found user_id job_id _ w j found) in
      let (key, k) = url_returned (ready_key j.status j.pdf_key) d (ap (λ z. z.0) e ∙ h) in
      let (ready, has_key, named) = ready_key-some j.status j.pdf_key key k in
      (key, ready, has_key, named)
