-- ===== src/Auth/Exchange.antt =====
-- server/src/auth/auth.service.ts: the exchange of a refresh token that has passed the checks.
use Prim.Native.Nat.{◌/◌}
use field_note.Common.{
  ℕ, List, [], ◌∷◌, find?, text_eq, text_eq_iff, Bool-cases, inl, inr, arith, ◌≡◌, refl, ap, ◌∙◌,
  true, false, none, some, Text, codes, is_some, leb, any, ◌+◌, ◌*◌,
}
use field_note.Result.{Result, ok}
use field_note.Database.{User, RefreshToken, Db}
use field_note.World.{World, run}
use field_note.Users.{find_user, has_user_id}
use field_note.Tokens.{
  jwt_audience, AccessClaims, AuthServices, AuthConfig, Generated, issue_access_token,
  hash_refresh_token, generate_refresh_token,
}
use field_note.Auth.{
  TokenResponseDto, has_hash, find_token, replaced, new_token, rotate, clock, respond, exchange,
  refresh_active, unless_expired, refresh_found, refresh,
}
use field_note.Auth.Rows.{rotate_ok, find_token-presented, find_token-next}

-- A token that is known, active and not expired, of a user that exists, and whose successor's hash
-- is new; signing returns.
pub record IsExchangeable {C : Type 0} (S : AuthServices C) (cfg : AuthConfig) (token : Text)
    (w : World C) (t : RefreshToken) (u : User) : Type 0 where
  pub found : find_token (S.hmac token) w.db ≡ some t
  pub active : t.revoked_at ≡ none
  pub unexpired : leb t.expires_at (S.now w.cloud) ≡ false
  pub owner : find_user t.user_id w.db ≡ some u
  pub unused : any (has_hash (S.hmac (S.random_token w.cloud).0)) w.db.refresh_tokens ≡ false
  pub signs :
      (claims : AccessClaims) (c : C)
      → (jwt : Text) × ((S.sign cfg.access_secret claims c).0 ≡ ok jwt)

-- The token that was found is revoked, and names the one that has taken its place.
pub record IsReplaced (hash next : Text) (t : RefreshToken) (db : Db) : Type 0 where
  pub row : RefreshToken
  pub found : find_token hash db ≡ some row
  pub is_revoked : is_some row.revoked_at ≡ true
  pub names_next : row.replaced_by_token_hash ≡ some next
  pub same_user : row.user_id ≡ t.user_id
  pub same_expiry : row.expires_at ≡ t.expires_at

-- There is a token under the hash, of the user, and it is good until it expires.
pub record IsActive (hash user_id : Text) (expires_at : ℕ) (db : Db) : Type 0 where
  pub row : RefreshToken
  pub found : find_token hash db ≡ some row
  pub is_active : row.revoked_at ≡ none
  pub not_replaced : row.replaced_by_token_hash ≡ none
  pub of_user : row.user_id ≡ user_id
  pub expiry : row.expires_at ≡ expires_at

find_id :
    (id : Text) (users : List User) (u : User) → find? (has_user_id id) users ≡ some u → u.id ≡ id
unfolding find? has_user_id
find_id id [] u h = absurd (ground (arith, h))
find_id id (v ∷ vs) u h = elim (Bool-cases (text_eq v.id id)) [
  | inl e ↦
      let same : some v ≡ some u = rw e at h in
      let equal : v ≡ u = cc same in rw (← equal) ((text_eq_iff v.id id).0 e)
  | inr e ↦ find_id id vs u (rw e at h)
]

pub find_user-id : (id : Text) (u : User) (db : Db) → find_user id db ≡ some u → u.id ≡ id
unfolding find_user
find_user-id id u db h = find_id id db.users u h

module _ {C : Type 0} (S : AuthServices C) (cfg : AuthConfig) (token : Text) (w : World C)
    (t : RefreshToken) (u : User) where
  abbrev pub next : Generated
  next = record {
    token = (S.random_token w.cloud).0;
    hash = S.hmac (S.random_token w.cloud).0;
    expires_at = S.now (S.random_token w.cloud).1 + cfg.refresh_ttl * 1000;
  }

  abbrev pub rotation : Result (Unit {0}) × Db
  rotation = rotate u.id (S.hmac token) next (S.now (S.random_token w.cloud).1) w.db

  abbrev pub rotated_world : World C
  rotated_world = record { db = rotation.1; cloud = (S.random_token w.cloud).1 }

  abbrev claims : World C → AccessClaims
  claims w' = record {
    token_type = codes "access";
    apple_sub = u.apple_sub;
    subject = u.id;
    issuer = cfg.app_base_url;
    audience = jwt_audience;
    issued_at = S.now w'.cloud / 1000;
    expires_at = S.now w'.cloud / 1000 + cfg.access_ttl;
  }

  pub respond_ok :
      (w' : World C)
      → ((claims : AccessClaims) (c : C)
          → (jwt : Text) × ((S.sign cfg.access_secret claims c).0 ≡ ok jwt))
      → (r : TokenResponseDto) × ((respond S cfg u next.token w').0 ≡ ok r)
        × ((respond S cfg u next.token w').1.db ≡ w'.db)
        × (r.refresh_token ≡ next.token)
        × (r.user_id ≡ u.id)
  unfolding respond issue_access_token run
  respond_ok w' signs =
      let (jwt, e) = signs (claims w') w'.cloud in
      (
        record {
          access_token = jwt;
          refresh_token = next.token;
          token_type = codes "Bearer";
          expires_in = cfg.access_ttl;
          user_id = u.id;
        },
        rw e refl,
        rw e refl,
        refl,
        refl,
      )

  refresh_exchanges :
      IsExchangeable S cfg token w t u → refresh S cfg token w ≡ exchange S cfg (S.hmac token) u w
  unfolding refresh refresh_found unless_expired refresh_active clock hash_refresh_token run
  refresh_exchanges h = rw (h.found, h.active, h.unexpired, h.owner) refl

  pub exchange_rotates :
      rotation.0 ≡ ok tt
      → exchange S cfg (S.hmac token) u w ≡ respond S cfg u next.token rotated_world
  unfolding exchange generate_refresh_token hash_refresh_token clock run
  exchange_rotates h = rw h refl

  -- The tables after the exchange are those of the rotation.
  pub refresh-db : IsExchangeable S cfg token w t u → (refresh S cfg token w).1.db ≡ rotation.1
  refresh-db h =
      let done =
        rotate_ok u.id (S.hmac token) next (S.now (S.random_token w.cloud).1) w.db t h.found
          h.unused in
      let p = refresh_exchanges h ∙ exchange_rotates (ap (λ z. z.0) done) in
      let (r, e, same, carried, own) = respond_ok rotated_world h.signs in ap (λ z. z.1.db) p ∙ same

  pub rotated_rows :
      IsExchangeable S cfg token w t u
      → (r : TokenResponseDto) × ((refresh S cfg token w).0 ≡ ok r)
        × (r.refresh_token ≡ next.token)
        × (r.user_id ≡ u.id)
        × (find_token (S.hmac token) (refresh S cfg token w).1.db
            ≡ some (replaced (S.now (S.random_token w.cloud).1) next.hash t))
        × (find_token (S.hmac r.refresh_token) (refresh S cfg token w).1.db
            ≡ some (new_token u.id next))
  rotated_rows h =
      let done =
        rotate_ok u.id (S.hmac token) next (S.now (S.random_token w.cloud).1) w.db t h.found
          h.unused in
      let p = refresh_exchanges h ∙ exchange_rotates (ap (λ z. z.0) done) in
      let (r, e, same, carried, own) = respond_ok rotated_world h.signs in
      let db_is = refresh-db h in
      (
        r,
        ap (λ z. z.0) p ∙ e,
        carried,
        own,
        ap (find_token (S.hmac token)) db_is
            ∙ find_token-presented u.id (S.hmac token) next _ w.db t h.found h.unused,
        ap (λ x. find_token (S.hmac x) (refresh S cfg token w).1.db) carried
            ∙ ap (find_token next.hash) db_is
            ∙ find_token-next u.id (S.hmac token) next _ w.db t h.found h.unused,
      )
