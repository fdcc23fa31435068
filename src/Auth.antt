-- ===== src/Auth.antt =====
-- server/src/auth/auth.service.ts: sign-in with Apple and the rotation of refresh tokens.
pub mod Rows
pub mod Exchange
pub mod Refresh
pub mod Race
pub mod Valid
pub mod Apple
use field_note.Common.{
  ℕ, Bool, true, false, not, ◌&&◌, ◌||◌, Option, none, some, List, [], ◌∷◌, ◌++◌, map, Text, codes,
  text_eq, leb, is_some, is_none, or_else, any, find?, if◌then◌else◌,
}
use field_note.Result.{
  ErrorKind, Error, error, Result, ok, err, M, pure, throw, or_throw, gets, ◌>>=◌, ◌>>◌,
}
use field_note.Database.{User, RefreshToken, Db}
use field_note.World.{World, Action, query, select, write, call}
use field_note.Users.{upsert_by_apple, find_user}
use field_note.Tokens.{
  AppleIdentity, AuthServices, AuthConfig, Generated, issue_access_token, hash_refresh_token,
  generate_refresh_token,
}

-- TokenResponseDto
pub record TokenResponseDto : Type 0 where
  pub access_token : Text
  pub refresh_token : Text
  pub token_type : Text
  pub expires_in : ℕ
  pub user_id : Text

-- ── the table of refresh tokens ──

unfoldable pub has_hash : Text → RefreshToken → Bool
has_hash hash t = text_eq t.token_hash hash

unfoldable pub find_token : Text → Db → Option RefreshToken
unfolding has_hash
find_token hash db = find? (has_hash hash) db.refresh_tokens

unfoldable pub is_active_of : Text → RefreshToken → Bool
is_active_of user_id t = text_eq t.user_id user_id && is_none t.revoked_at

-- updateMany({ where: { userId, revokedAt: null }, data: { revokedAt: new Date() } })
unfoldable pub revoke_chain : Text → ℕ → Db → Db
unfolding is_active_of
revoke_chain user_id now db = record db {
  refresh_tokens =
      map (λ t. if is_active_of user_id t then (record t { revoked_at = some now }) else t)
        db.refresh_tokens;
}

unfoldable pub replaced : ℕ → Text → RefreshToken → RefreshToken
replaced now next t = record t { revoked_at = some now; replaced_by_token_hash = some next }

unfoldable pub new_token : Text → Generated → RefreshToken
new_token user_id next = record {
  user_id = user_id;
  token_hash = next.hash;
  expires_at = next.expires_at;
  revoked_at = none;
  replaced_by_token_hash = none;
}

-- refreshToken.create: the hash is unique
unfoldable pub insert_token : RefreshToken → M Db (Unit {0})
unfolding has_hash
insert_token t db =
    if any (has_hash t.token_hash) db.refresh_tokens
    then (err (error ErrorKind.unique_violation (codes "Unique constraint failed.")), db)
    else (ok tt, record db { refresh_tokens = db.refresh_tokens ++ t ∷ [] })

-- The transaction of `refresh`: the presented token is revoked and the next one is created, or
-- nothing happens.
unfoldable pub rotate : Text → Text → Generated → ℕ → M Db (Unit {0})
unfolding has_hash replaced new_token
rotate user_id hash next now db =
    let rows =
      map (λ t. if has_hash hash t then replaced now next.hash t else t) db.refresh_tokens in
    if not (any (has_hash hash) db.refresh_tokens)
    then (err (error ErrorKind.record_not_found (codes "Record to update not found.")), db)
    else if any (has_hash next.hash) db.refresh_tokens
    then (err (error ErrorKind.unique_violation (codes "Unique constraint failed.")), db)
    else (ok tt, record db { refresh_tokens = rows ++ new_token user_id next ∷ [] })

pub invalid_token : Error
invalid_token = error ErrorKind.unauthorized (codes "Invalid refresh token.")

pub already_used : Error
already_used = error ErrorKind.unauthorized (codes "Refresh token already used.")

pub token_expired : Error
token_expired = error ErrorKind.unauthorized (codes "Refresh token expired.")

pub no_user : Error
no_user = error ErrorKind.unauthorized (codes "User no longer exists.")

module _ {C : Type 0} (S : AuthServices C) (cfg : AuthConfig) where
  clock : Action C ℕ
  clock = gets (λ w. S.now w.cloud)

  pub respond : User → Text → Action C TokenResponseDto
  respond user token = do
    access ← issue_access_token S cfg user.id user.apple_sub
    pure (record {
      access_token = access;
      refresh_token = token;
      token_type = codes "Bearer";
      expires_in = cfg.access_ttl;
      user_id = user.id;
    })

  -- issueTokenPair
  pub issue_token_pair : User → Action C TokenResponseDto
  unfolding respond insert_token new_token
  issue_token_pair user = do
    next ← generate_refresh_token S cfg
    query (insert_token (new_token user.id next))
    respond user next.token

  unfoldable pub sign_in_with_apple : Text → Option Text → Option Text → Action C TokenResponseDto
  unfolding issue_token_pair
  sign_in_with_apple identity_token nonce email = do
    identity ← call (S.verify identity_token nonce)
    id ← call (λ c. let (id, c') = S.new_user_id c in (ok id, c'))
    user ← query (λ db.
        let (u, db') =
          upsert_by_apple identity.sub (elim identity.email [ none ↦ email | some e ↦ some e ]) id
            db in
        (ok u, db'))
    issue_token_pair user

  -- A token that was used before: the user's active tokens are revoked.
  reuse : RefreshToken → Action C TokenResponseDto
  unfolding clock revoke_chain already_used
  reuse token = do now ← clock; write (revoke_chain token.user_id now); throw already_used

  -- The rest of `refresh`, on a token and its user.
  pub exchange : Text → User → Action C TokenResponseDto
  unfolding clock rotate respond
  exchange hash user = do
    next ← generate_refresh_token S cfg
    now ← clock
    query (rotate user.id hash next now)
    respond user next.token

  refresh_active : Text → RefreshToken → Action C TokenResponseDto
  unfolding exchange no_user
  refresh_active hash token = do
    user ← select (find_user token.user_id)
    found ← or_throw user no_user
    exchange hash found

  unless_expired : Text → RefreshToken → Action C TokenResponseDto
  unfolding refresh_active clock token_expired
  unless_expired hash token = do
    now ← clock
    if leb token.expires_at now then throw token_expired else refresh_active hash token

  refresh_found : Text → Option RefreshToken → Action C TokenResponseDto
  unfolding reuse unless_expired invalid_token
  refresh_found hash none = throw invalid_token
  refresh_found hash (some token) =
      if is_some token.revoked_at then reuse token else unless_expired hash token

  unfoldable pub refresh : Text → Action C TokenResponseDto
  unfolding refresh_found find_token
  refresh refresh_token = do
    token ← select (find_token (hash_refresh_token S refresh_token))
    refresh_found (hash_refresh_token S refresh_token) token
