-- ===== src/Media/Bucket.antt =====
-- server/src/media/media.service.ts: `ensureBucketExists`, outside of production.
use field_note.Common.{◌≡◌, refl, Bool, true, false, ◌||◌, Text, codes, text_eq, if◌then◌else◌}
use field_note.Result.{ErrorKind, Error, Result, ok, err, M, pure, handle, try_catch}

-- The region and the flags that the throwaway client is made with.
pub record BucketClient : Type 0 where
  pub region : Text
  pub force_path_style : Bool

-- BucketAlreadyOwnedByYou and BucketAlreadyExists are expected; another error is only logged.
unfoldable pub is_expected : ErrorKind → Bool
is_expected (ErrorKind.external name status) =
    text_eq name (codes "BucketAlreadyOwnedByYou") || text_eq name (codes "BucketAlreadyExists")
is_expected _ = false

module _ {C : Type 0} (create_bucket : BucketClient → Text → M C (Unit {0}))
    (warn : ErrorKind → C → C) where
  abbrev warn_unless : Bool → Error → M C (Unit {0})
  warn_unless expected e c = (ok tt, if expected then c else warn e.kind c)

  -- ensureBucketExists, with the bucket's name
  unfoldable pub ensure_bucket_exists : Bool → Bool → Text → M C (Unit {0})
  unfolding is_expected
  ensure_bucket_exists is_production force_path_style bucket =
      if is_production
      then pure tt
      else try_catch
          (create_bucket
            (record { region = codes "us-east-1"; force_path_style = force_path_style }) bucket)
          (λ e. warn_unless (is_expected e.kind) e)

  swallowed :
      (r : Result (Unit {0})) (c : C)
      → (handle r (λ e. warn_unless (is_expected e.kind) e) c).0 ≡ ok tt
  swallowed (ok tt) c = refl
  swallowed (err e) c = refl

  -- It throws no error, whatever the client answers, and in production it does nothing.
  pub ensure_bucket_exists_returns :
      (production force_path_style : Bool) (bucket : Text) (c : C)
      → (ensure_bucket_exists production force_path_style bucket c).0 ≡ ok tt
  unfolding ensure_bucket_exists try_catch pure
  ensure_bucket_exists_returns true force_path_style bucket c = refl
  ensure_bucket_exists_returns false force_path_style bucket c = swallowed _ _
