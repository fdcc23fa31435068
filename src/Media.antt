-- ===== src/Media.antt =====
-- server/src/media/media.service.ts: object keys, presigned URLs and object access. The S3 client
-- is the `Services` argument; `ensureBucketExists` is in Media/Bucket.antt.
pub mod Keeps
pub mod Bucket
use field_note.Common.{
  ℕ, ltb, Bool, true, false, ◌||◌, Option, none, some, List, [], ◌∷◌, ◌++◌, Text, codes, text_eq,
  ◌==◌, filter, length, if◌then◌else◌,
}
use field_note.Result.{ErrorKind, error, pure, throw, ◌>>=◌, ◌>>◌, try_catch}
use field_note.World.{Action, call, Bytes, Services, Config}

-- AUDIO_CONTENT_TYPE, PDF_CONTENT_TYPE
abbrev pub audio_content_type : Text
audio_content_type = codes "audio/m4a"

abbrev pub pdf_content_type : Text
pdf_content_type = codes "application/pdf"

pub record PresignedUpload : Type 0 where
  pub url : Text
  pub key : Text
  pub content_type : Text
  pub expires_in_seconds : ℕ

pub record PresignedDownload : Type 0 where
  pub url : Text
  pub expires_in_seconds : ℕ

unfoldable pub audio_key : Text → Text → Text
audio_key user_id job_id = codes "audio/" ++ (user_id ++ (codes "/" ++ (job_id ++ codes ".m4a")))

unfoldable pub pdf_key : Text → Text → Text
pdf_key user_id job_id = codes "pdf/" ++ (user_id ++ (codes "/" ++ (job_id ++ codes ".pdf")))

-- isNotFound: the error's name or its status
unfoldable pub is_not_found : ErrorKind → Bool
is_not_found (ErrorKind.external name none) =
    text_eq name (codes "NotFound") || text_eq name (codes "NoSuchKey")
is_not_found (ErrorKind.external name (some status)) =
    text_eq name (codes "NotFound") || text_eq name (codes "NoSuchKey") || status == 404
is_not_found _ = false

module _ {C : Type 0} (S : Services C) (cfg : Config) where
  unfoldable pub presign_audio_upload : Text → Text → Action C PresignedUpload
  presign_audio_upload user_id job_id = do
    let key = audio_key user_id job_id
    url ← call (S.signed_put_url key audio_content_type cfg.presign_put_ttl)
    pure (record {
      url = url;
      key = key;
      content_type = audio_content_type;
      expires_in_seconds = cfg.presign_put_ttl;
    })

  unfoldable pub presign_pdf_download : Text → Action C PresignedDownload
  presign_pdf_download key = do
    url ← call (S.signed_get_url key cfg.presign_get_ttl)
    pure (record { url = url; expires_in_seconds = cfg.presign_get_ttl })

module _ {C : Type 0} (S : Services C) where
  unfoldable pub object_exists : Text → Action C Bool
  unfolding is_not_found
  object_exists key =
      try_catch (do call (S.head_object key); pure true)
        λ e. if is_not_found e.kind then pure false else throw e

  abbrev body_or_throw : Text → Option Bytes → Action C Bytes
  body_or_throw key none =
      throw (error ErrorKind.plain (codes "Object " ++ (key ++ codes " has no body")))
  body_or_throw key (some body) = pure body

  unfoldable pub get_object_stream : Text → Action C Bytes
  get_object_stream key = do body ← call (S.get_object key); body_or_throw key body

  unfoldable pub put_object : Text → Bytes → Text → Action C (Unit {0})
  put_object key body content_type = call (S.put_object key body content_type)

  -- Nothing is sent where no key is left.
  send_delete : List Text → Action C (Unit {0})
  send_delete [] = pure tt
  send_delete (k ∷ ks) = call (S.delete_objects (k ∷ ks))

  unfoldable pub delete_objects : List Text → Action C (Unit {0})
  unfolding send_delete filter
  delete_objects keys = send_delete (filter (λ k. ltb 0 (length k)) keys)
