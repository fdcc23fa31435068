-- ===== src/Auth/Refresh.antt =====
-- What `refresh` answers: rotation, single use, and the refusals.
use field_note.Common.{◌≡◌, refl, ◌∙◌, true, some, Text, is_some, ◌+◌, ◌*◌}
use field_note.Result.{ok, err}
use field_note.Database.{User, RefreshToken}
use field_note.World.{World, run}
use field_note.Tokens.{AuthServices, AuthConfig, hash_refresh_token}
use field_note.Auth.{
  TokenResponseDto, find_token, revoke_chain, replaced, new_token, already_used, clock, reuse,
  refresh_found, refresh,
}
use field_note.Auth.Rows.{AllRevoked, revoke_chain-AllRevoked, others, others-revoke_chain}
use field_note.Auth.Exchange.{IsExchangeable, rotated_rows, IsReplaced, IsActive, find_user-id}

module _ {C : Type 0} (S : AuthServices C) (cfg : AuthConfig) (token : Text) (w : World C) where
  refresh_revoked :
      (t : RefreshToken)
      → find_token (S.hmac token) w.db ≡ some t
      → is_some t.revoked_at ≡ true
      → refresh S cfg token w
        ≡ (err already_used, record w { db = revoke_chain t.user_id (S.now w.cloud) w.db })
  unfolding refresh refresh_found reuse clock hash_refresh_token run
  refresh_revoked t h used = rw (h, used) refl

  -- A known token that was used or revoked before is refused, and every active token of its user
  -- is revoked; the tokens of other users stay as they are.
  pub refresh_reuse :
      (t : RefreshToken)
      → find_token (S.hmac token) w.db ≡ some t
      → is_some t.revoked_at ≡ true
      → ((refresh S cfg token w).0 ≡ err already_used)
        × AllRevoked t.user_id (refresh S cfg token w).1.db
        × (others t.user_id (refresh S cfg token w).1.db.refresh_tokens
            ≡ others t.user_id w.db.refresh_tokens)
  refresh_reuse t h used =
      let e = refresh_revoked t h used in
      rw e (
        refl,
        revoke_chain-AllRevoked t.user_id (S.now w.cloud) w.db,
        others-revoke_chain t.user_id (S.now w.cloud) w.db,
      )

module _ {C : Type 0} (S : AuthServices C) (cfg : AuthConfig) (token : Text) (w : World C)
    (t : RefreshToken) (u : User) where
  -- A known, active and unexpired token of a user that exists is exchanged for the next one, where
  -- the hash of the next one is unused and signing returns. The answer carries the new token and
  -- names the user of the presented one. Afterwards the presented token is revoked and names the hash
  -- of the new one, and is else as it was; the new one is there under its hash, not revoked and not
  -- replaced, of the same user, and expires as late after its making as the configuration says.
  pub refresh_rotates :
      IsExchangeable S cfg token w t u
      → (r : TokenResponseDto) × ((refresh S cfg token w).0 ≡ ok r)
        × (r.refresh_token ≡ (S.random_token w.cloud).0)
        × (r.user_id ≡ t.user_id)
        × IsReplaced (S.hmac token) (S.hmac r.refresh_token) t (refresh S cfg token w).1.db
        × IsActive
            (S.hmac r.refresh_token)
            t.user_id
            (S.now (S.random_token w.cloud).1 + cfg.refresh_ttl * 1000)
            (refresh S cfg token w).1.db
  unfolding replaced new_token
  refresh_rotates h =
      let (r, e, carried, own, presented, successor) = rotated_rows S cfg token w t u h in
      let owner = find_user-id t.user_id u w.db h.owner in
      (
        r,
        e,
        carried,
        own ∙ owner,
        record {
          row = _;
          found = presented;
          is_revoked = refl;
          names_next = rw carried refl;
          same_user = refl;
          same_expiry = refl;
        },
        record {
          row = _;
          found = successor;
          is_active = refl;
          not_replaced = refl;
          of_user = owner;
          expiry = refl;
        },
      )

  -- A refresh token is good once: where a known, active and unexpired token of a user that exists
  -- has been exchanged, presenting it again is refused and revokes every active token of its user,
  -- the new one too. The hash of the new token is unused before, and signing returns.
  pub refresh_single_use :
      IsExchangeable S cfg token w t u
      → ((refresh S cfg token (refresh S cfg token w).1).0 ≡ err already_used)
        × AllRevoked t.user_id (refresh S cfg token (refresh S cfg token w).1).1.db
  unfolding replaced
  refresh_single_use h =
      let (r, e, carried, own, presented, successor) = rotated_rows S cfg token w t u h in
      let (refused, revoked, rest) =
        refresh_reuse S cfg token (refresh S cfg token w).1 _ presented refl in
      (refused, revoked)
