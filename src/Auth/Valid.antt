-- ===== src/Auth/Valid.antt =====
-- What a token that `refresh` exchanges is.
use field_note.Common.{
  ◌≡◌, refl, true, false, none, some, Text, is_some, leb, Option-cases, Bool-cases, inl, inr,
}
use field_note.Result.{ok}
use field_note.Database.{RefreshToken}
use field_note.World.{World, run}
use field_note.Users.{find_user}
use field_note.Tokens.{AuthServices, AuthConfig, hash_refresh_token}
use field_note.Auth.{
  TokenResponseDto, find_token, clock, reuse, refresh_active, unless_expired, refresh_found,
  refresh,
}

-- A token that may be exchanged.
pub record IsValid {C : Type 0} (S : AuthServices C) (token : Text) (w : World C) (t : RefreshToken)
    : Type 0 where
  pub found : find_token (S.hmac token) w.db ≡ some t
  pub active : t.revoked_at ≡ none
  pub unexpired : leb t.expires_at (S.now w.cloud) ≡ false
  pub owner_exists : is_some (find_user t.user_id w.db) ≡ true

module _ {C : Type 0} (S : AuthServices C) (cfg : AuthConfig) (token : Text) (w : World C)
    (r : TokenResponseDto) where
  refresh_unexpired :
      (t : RefreshToken)
      → find_token (S.hmac token) w.db ≡ some t
      → t.revoked_at ≡ none
      → leb t.expires_at (S.now w.cloud) ≡ false
      → (refresh_active S cfg (S.hmac token) t w).0 ≡ ok r
      → IsValid S token w t
  unfolding refresh_active run
  refresh_unexpired t found active unexpired h = elim (Option-cases (find_user t.user_id w.db)) [
    | inl missing ↦ cc (rw missing at h)
    | inr (u, owner) ↦ record {
      found = found;
      active = active;
      unexpired = unexpired;
      owner_exists = rw owner refl;
    }
  ]

  refresh_held :
      (t : RefreshToken)
      → find_token (S.hmac token) w.db ≡ some t
      → (refresh_found S cfg (S.hmac token) (some t) w).0 ≡ ok r
      → IsValid S token w t
  unfolding refresh_found reuse unless_expired clock run
  refresh_held t found h = elim (Option-cases t.revoked_at) [
    | inr (at, used) ↦ cc (rw used at h)
    | inl active ↦ elim (Bool-cases (leb t.expires_at (S.now w.cloud))) [
      | inl expired ↦ cc (rw (active, expired) at h)
      | inr unexpired ↦ refresh_unexpired t found active unexpired (rw (active, unexpired) at h)
    ]
  ]

  -- Only a valid token is exchanged: where `refresh` returns, the token is known, not revoked, not
  -- expired, and its user exists.
  pub refresh-IsValid : (refresh S cfg token w).0 ≡ ok r → (t : RefreshToken) × IsValid S token w t
  unfolding refresh refresh_found hash_refresh_token run
  refresh-IsValid h = elim (Option-cases (find_token (S.hmac token) w.db)) [
    | inl unknown ↦ cc (rw unknown at h)
    | inr (t, found) ↦ (t, refresh_held t found (rw found at h))
  ]
