-- ===== src/Tokens.antt =====
-- server/src/auth/token.service.ts: access tokens and refresh tokens. The keyed hash, the random
-- bytes and the signature are those of other packages.
use Prim.Native.Nat.{◌/◌}
use field_note.Common.{Bool, ℕ, ◌+◌, ◌*◌, Option, Text, codes}
use field_note.Result.{M, ok, pure, gets, ◌>>=◌}
use field_note.World.{Action, call}

-- AppleIdentity
pub record AppleIdentity : Type 0 where
  pub sub : Text
  pub email : Option Text
  pub email_verified : Bool
  pub is_private_email : Bool

-- The claims of an access token; `token_type` is the claim `type`.
pub record AccessClaims : Type 0 where
  pub token_type : Text
  pub apple_sub : Text
  pub subject : Text
  pub issuer : Text
  pub audience : Text
  pub issued_at : ℕ
  pub expires_at : ℕ

pub record AuthServices (C : Type 0) : Type 0 where
  pub now : C → ℕ
  -- the id that the database gives a new user
  pub new_user_id : C → Text × C
  pub verify : Text → Option Text → M C AppleIdentity
  pub random_token : C → Text × C
  pub hmac : Text → Text
  -- HS256, with the secret
  pub sign : Text → AccessClaims → M C Text

pub record AuthConfig : Type 0 where
  pub access_ttl : ℕ
  pub refresh_ttl : ℕ
  pub app_base_url : Text
  pub access_secret : Text

-- JWT_AUDIENCE
abbrev pub jwt_audience : Text
jwt_audience = codes "fieldnote-app"

-- What `generateRefreshToken` returns.
pub record Generated : Type 0 where
  pub token : Text
  pub hash : Text
  pub expires_at : ℕ

module _ {C : Type 0} (S : AuthServices C) where
  unfoldable pub hash_refresh_token : Text → Text
  hash_refresh_token token = S.hmac token

module _ {C : Type 0} (S : AuthServices C) (cfg : AuthConfig) where
  unfoldable pub issue_access_token : Text → Text → Action C Text
  issue_access_token user_id apple_sub = do
    now ← gets (λ w. S.now w.cloud / 1000)
    call (
        S.sign cfg.access_secret (record {
          token_type = codes "access";
          apple_sub = apple_sub;
          subject = user_id;
          issuer = cfg.app_base_url;
          audience = jwt_audience;
          issued_at = now;
          expires_at = now + cfg.access_ttl;
        }))

  unfoldable pub generate_refresh_token : Action C Generated
  unfolding hash_refresh_token
  generate_refresh_token = do
    token ← call (λ c. let (t, c') = S.random_token c in (ok t, c'))
    now ← gets (λ w. S.now w.cloud)
    pure (record {
      token = token;
      hash = hash_refresh_token S token;
      expires_at = now + cfg.refresh_ttl * 1000;
    })
