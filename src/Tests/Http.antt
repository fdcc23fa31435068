-- ===== src/Tests/Http.antt =====
-- Requests with a bearer token, and a sign-in with Apple, on concrete tables.
use field_note.Common.{
  ℕ, ◌≡◌, inl, inr, refl, Bool, true, ◌&&◌, Bool-cases, none, some, ◌++◌, Text, codes, text_eq,
  text_eq_iff, if◌then◌else◌, arith,
}
use field_note.Result.{ok, M}
use field_note.Database.{JobStatus}
use field_note.World.{World}
use field_note.Repository.{find_by_id}
use field_note.Repository.Pages.{HasPrimaryKey}
use field_note.Repository.Others.{IsSound}
use field_note.Tokens.{AccessClaims, AuthServices, AuthConfig, issue_access_token}
use field_note.Auth.{TokenResponseDto}
use field_note.Auth.Apple.{AppleClaims, Flag, IsBound, sign_in-IsBound}
use field_note.Http.Guard.{GuardServices, JwtPayload, AuthenticatedUser, authenticate, can_activate}
use field_note.Http.Jobs.{JobsRequest, handle_request}
use field_note.Http.Isolation.{handle_request_others}
use field_note.Http.Sessions.{VerifiesSigned, authenticate_issued}
use field_note.Tests.{computed, done, fails, cfg, services, job, world_of}

-- Only the first user's tokens are signed, with one secret, and its signature verifies as theirs.
abbrev is_first : AccessClaims → Bool
is_first claims =
    text_eq claims.token_type (codes "access")
    && (text_eq claims.subject (codes "u1") && text_eq claims.apple_sub (codes "s1"))

abbrev auth : AuthServices ℕ
auth = record {
  now = λ c. c;
  new_user_id = λ c. (codes "u1", c);
  verify = λ token expected. fails (codes "none");
  random_token = λ c. (codes "r2", c);
  hmac = λ t. codes "#" ++ t;
  sign = λ secret claims c.
      if is_first claims && text_eq secret (codes "k")
      then done (codes "jwt") c
      else fails (codes "refused") c;
}

abbrev first : JwtPayload
first = record {
  token_type = some (codes "access");
  sub = some (codes "u1");
  apple_sub = some (codes "s1");
}

abbrev guard : GuardServices ℕ
guard = record {
  jwt_verify = λ secret token issuer audience c.
      if text_eq secret (codes "k") && text_eq token (codes "jwt")
      then done first c
      else fails (codes "signature") c;
}

abbrev auth_cfg : AuthConfig
auth_cfg = record {
  access_ttl = 900;
  refresh_ttl = 3600;
  app_base_url = codes "https://x";
  access_secret = codes "k";
}

signed_jwt :
    (secret : Text) (claims : AccessClaims) (c c' : ℕ) (t : Text)
    → auth.sign secret claims c ≡ (ok t, c')
    → (is_first claims ≡ true) × (text_eq secret (codes "k") ≡ true) × (codes "jwt" ≡ t)
signed_jwt secret claims c c' t h =
    elim (Bool-cases (is_first claims && text_eq secret (codes "k"))) [
      | inl e ↦ (ground (arith, e), ground (arith, e), let p = rw e at h in cc p)
      | inr e ↦ absurd (let p = rw e at h in cc p)
    ]

documented : VerifiesSigned auth guard
unfolding text_eq
documented = record {
  compact = λ secret claims c c' t h.
      let (e, k, p) = signed_jwt secret claims c c' t h in
      rw (← p)
        (refl, (λ e. ground (arith, e), (λ e. ground (arith, e), (λ e. ground (arith, e), tt))));
  verifies = λ secret claims c c' t h later early.
      let (e, k, p) = signed_jwt secret claims c c' t h in
      let kind = (text_eq_iff claims.token_type (codes "access")).0 (ground arith) in
      let user = (text_eq_iff claims.subject (codes "u1")).0 (ground arith) in
      let apple = (text_eq_iff claims.apple_sub (codes "s1")).0 (ground arith) in
      rw (← p, k, kind, user, apple) refl;
}

w0 : World ℕ
w0 = world_of JobStatus.created

authenticate_issued_example :
    authenticate guard auth_cfg (some (codes "Bearer " ++ codes "jwt")) w0
    ≡ (ok (record { user_id = codes "u1"; apple_sub = codes "s1" }), w0)
unfolding computed w0 issue_access_token
authenticate_issued_example =
    authenticate_issued auth guard auth_cfg documented (codes "u1") (codes "s1") (codes "jwt") w0 w0
      refl (omega arith)

keys : HasPrimaryKey w0.db
unfolding w0
keys = record { keys = ((λ e. ground (arith, e), tt), (tt, tt)); named = (refl, (refl, tt)) }

sound : IsSound w0.db
unfolding w0
sound = record {
  sections_below = (omega arith, tt);
  findings_below = (omega arith, tt);
  one_owner = ((λ e. refl, tt), tt);
}

-- The first user deletes the second one's job.
handle_request_others_example :
    find_by_id
      (codes "j2")
      (handle_request services cfg
        (λ id. true)
        guard
        auth_cfg
        (some (codes "Bearer jwt"))
        (JobsRequest.delete_job (codes "j2"))
        w0).1.db
    ≡ find_by_id (codes "j2") w0.db
unfolding computed w0 authenticate can_activate field_note.Http.Guard.extract_token
handle_request_others_example =
    handle_request_others services cfg (λ id. true) guard auth_cfg (some (codes "Bearer jwt"))
      (JobsRequest.delete_job (codes "j2")) w0 (codes "j2")
      (job (codes "j2") (codes "u2") JobStatus.created) keys sound refl
      (λ u h e. ground (arith, h, e))

-- Apple's token carries the hash of the nonce.
abbrev claims : AppleClaims
claims = record {
  sub = some (codes "s1");
  email = none;
  email_verified = Flag.string (codes "true");
  is_private_email = Flag.missing;
  nonce = some (codes "#n");
}

abbrev verify_apple : Text → Text → Text → M ℕ AppleClaims
verify_apple token issuer client = done claims

abbrev mark : Text → Text
mark t = codes "#" ++ t

sign_in-IsBound_example :
    (sub : Text) × IsBound verify_apple mark
      (codes "app")
      (codes "token")
      (some (codes "n"))
      w0.cloud
      sub
unfolding computed w0 field_note.Auth.sign_in_with_apple field_note.Auth.Apple.real_verify
    field_note.Auth.insert_token field_note.Users.upsert_by_apple issue_access_token
    field_note.Tokens.generate_refresh_token
sign_in-IsBound_example =
    sign_in-IsBound verify_apple mark (codes "app") auth auth_cfg (codes "token") (some (codes "n"))
      none w0
      (record {
        access_token = codes "jwt";
        refresh_token = codes "r2";
        token_type = codes "Bearer";
        expires_in = 900;
        user_id = codes "u1";
      })
      refl
