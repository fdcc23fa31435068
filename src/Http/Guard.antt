-- ===== src/Http/Guard.antt =====
-- server/src/common/auth/jwt-auth.guard.ts: the bearer token of a request.
use mathlib.Core.Option
use field_note.Common.{
  ℕ, ◌+◌, Bool, false, not, ◌&&◌, Option, none, some, [], map, Text, codes, text_eq, leb, is_empty,
  before_char, after_char, or_else, if◌then◌else◌,
}
use field_note.Result.{ErrorKind, Error, error, M, pure, throw, or_throw, try_catch, ◌>>=◌}
use field_note.World.{Action, call}
use field_note.World.Keeps.{
  Keeps, Keeps-pure, Keeps-throw, Keeps-call, Keeps-bind, Keeps-try_catch, Keeps-if,
}
use field_note.Database.{Db}
use field_note.Jobs.Keeps.{or_throw-Keeps}
use field_note.Tokens.{AuthConfig}

-- The payload of a token as the guard reads it: `none` for a claim that is missing or no string.
pub record JwtPayload : Type 0 where
  pub token_type : Option Text
  pub sub : Option Text
  pub apple_sub : Option Text

-- jwtVerify of the package jose, with a secret, on the token, the issuer and the audience;
-- it throws on a signature that is wrong, on other parties and on a token that has expired.
pub record GuardServices (C : Type 0) : Type 0 where
  pub jwt_verify : Text → Text → Text → Text → M C JwtPayload

pub record AuthenticatedUser : Type 0 where
  pub user_id : Text
  pub apple_sub : Text

pub missing_token : Error
missing_token = error ErrorKind.unauthorized (codes "Missing bearer token.")

pub invalid_access_token : Error
invalid_access_token = error ErrorKind.unauthorized (codes "Invalid access token.")

pub invalid_or_expired : Error
invalid_or_expired = error ErrorKind.unauthorized (codes "Invalid or expired access token.")

pub authentication_required : Error
authentication_required = error ErrorKind.unauthorized (codes "Authentication required.")

-- toLowerCase: no character but an ASCII letter becomes a letter of `bearer`
abbrev lower : ℕ → ℕ
lower c = if leb 65 c && leb c 90 then c + 32 else c

-- scheme?.toLowerCase() === 'bearer' && value ? value : null
bearer_value : Text → Option Text → Option Text
bearer_value scheme none = none
bearer_value scheme (some value) =
    if text_eq (map lower scheme) (codes "bearer") && not (is_empty value) then some value else none

-- extractToken: the first two parts of `header.split(' ')`
unfoldable pub extract_token : Option Text → Option Text
unfolding bearer_value
extract_token none = none
extract_token (some header) =
    if is_empty header
    then none
    else bearer_value (before_char 32 header) (Option.map (before_char 32) (after_char 32 header))

is_access : Option Text → Bool
is_access none = false
is_access (some t) = text_eq t (codes "access")

module _ {C : Type 0} where
  -- The checks of the payload.
  user_of : JwtPayload → Action C AuthenticatedUser
  unfolding is_access invalid_access_token
  user_of payload = if not (is_access payload.token_type) then throw invalid_access_token else do
    sub ← or_throw payload.sub invalid_access_token
    pure (record { user_id = sub; apple_sub = or_else payload.apple_sub [] })

module _ {C : Type 0} (G : GuardServices C) (cfg : AuthConfig) where
  verify_token : Text → Action C (Option AuthenticatedUser)
  unfolding user_of invalid_or_expired
  verify_token token =
      try_catch
        (do
          payload ←
              call (G.jwt_verify cfg.access_secret token cfg.app_base_url (codes "fieldnote-app"))
          user ← user_of payload
          pure (some user))
        (λ e. throw invalid_or_expired)

  guard_token : Option Text → Action C (Option AuthenticatedUser)
  unfolding verify_token missing_token
  guard_token none = throw missing_token
  guard_token (some token) = verify_token token

  -- canActivate: what it leaves in `request.user`, on a route that is public or not
  unfoldable pub can_activate : Bool → Option Text → Action C (Option AuthenticatedUser)
  unfolding guard_token extract_token
  can_activate is_public header =
      if is_public then pure none else guard_token (extract_token header)

  -- The guard of a route that is not public, and the parameter decorator CurrentUser.
  unfoldable pub authenticate : Option Text → Action C AuthenticatedUser
  unfolding can_activate authentication_required
  authenticate header = do user ← can_activate false header; or_throw user authentication_required

module _ {C : Type 0} {P : Db → Type 0} where
  user_of-Keeps : (payload : JwtPayload) → Keeps {C = C} P (user_of payload)
  unfolding user_of
  user_of-Keeps payload =
      Keeps-if _ _ _ (Keeps-throw _)
        (Keeps-bind _ _ (or_throw-Keeps payload.sub _) (λ sub. Keeps-pure _))

-- The guard touches no table.
module _ {C : Type 0} (G : GuardServices C) (cfg : AuthConfig) {P : Db → Type 0} where
  guard_token-Keeps : (t : Option Text) → Keeps P (guard_token G cfg t)
  unfolding guard_token verify_token
  guard_token-Keeps none = Keeps-throw _
  guard_token-Keeps (some t) =
      Keeps-try_catch _ _
        (Keeps-bind _ _ (Keeps-call _)
          (λ payload. Keeps-bind _ _ (user_of-Keeps payload) (λ u. Keeps-pure _)))
        (λ e. Keeps-throw _)

  pub authenticate-Keeps : (header : Option Text) → Keeps P (authenticate G cfg header)
  unfolding authenticate can_activate
  authenticate-Keeps header =
      Keeps-bind _ _ (guard_token-Keeps (extract_token header)) (λ u. or_throw-Keeps u _)
