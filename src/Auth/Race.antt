-- ===== src/Auth/Race.antt =====
-- server/src/auth/auth.service.ts: two refreshes at one time.
use field_note.Common.{◌+◌, ◌*◌, ◌≡◌, ◌≢◌, refl, ap, ◌∙◌, false, some, Text, any}
use field_note.Result.{ok}
use field_note.Database.{User, RefreshToken, Db}
use field_note.World.{World}
use field_note.Tokens.{AuthServices, AuthConfig}
use field_note.Auth.{TokenResponseDto, has_hash, find_token, new_token, replaced, exchange, refresh}
use field_note.Auth.Rows.{
  rotate_ok, find_token-presented, find_token-next, find_token-other, unused-other, rotate-unused,
}
use field_note.Auth.Exchange.{
  IsExchangeable, IsActive, next, rotation, rotated_world, rotated_rows, refresh-db, respond_ok,
  exchange_rotates, find_user-id,
}
use field_note.Auth.{Result}
use field_note.Common.{sym}

module _ {C : Type 0} (S : AuthServices C) (cfg : AuthConfig) (token : Text) (w : World C)
    (t : RefreshToken) (u : User) where
  -- After the first refresh.
  abbrev pub after_first : World C
  after_first = (refresh S cfg token w).1

  -- The rest of the second one, which has read the token and its user before.
  abbrev pub second : Result TokenResponseDto × World C
  second = exchange S cfg (S.hmac token) u after_first

  abbrev pub second_token : Text
  second_token = (S.random_token after_first.cloud).0

  still_found :
      IsExchangeable S cfg token w t u
      → find_token (S.hmac token) after_first.db
        ≡ some (replaced (S.now (S.random_token w.cloud).1) (next S cfg token w t u).hash t)
  still_found h =
      ap (find_token (S.hmac token)) (refresh-db S cfg token w t u h)
      ∙ find_token-presented u.id (S.hmac token) (next S cfg token w t u) _ w.db t h.found h.unused

  still_unused :
      IsExchangeable S cfg token w t u
      → any (has_hash (S.hmac second_token)) w.db.refresh_tokens ≡ false
      → S.hmac second_token ≢ S.hmac (S.random_token w.cloud).0
      → any (has_hash (S.hmac second_token)) after_first.db.refresh_tokens ≡ false
  still_unused h fresh ne =
      ap (λ (db : Db). any (has_hash (S.hmac second_token)) db.refresh_tokens)
        (refresh-db S cfg token w t u h)
      ∙ rotate-unused u.id (S.hmac token) (next S cfg token w t u) _ w.db t h.found h.unused
          (S.hmac second_token) ne fresh

  -- A known, active and unexpired token of a user that exists is presented twice, and both requests
  -- have read the token and its user before either has written. Where the hashes of the two next
  -- tokens are unused and different, and signing returns, both requests return, and after both there
  -- are two active tokens of the user, under the hashes of the tokens in the two answers.
  pub refresh_raced :
      IsExchangeable S cfg token w t u
      → any (has_hash (S.hmac second_token)) w.db.refresh_tokens ≡ false
      → S.hmac second_token ≢ S.hmac (S.random_token w.cloud).0
      → (a : TokenResponseDto) × (b : TokenResponseDto) × ((refresh S cfg token w).0 ≡ ok a)
        × (second.0 ≡ ok b)
        × IsActive
            (S.hmac a.refresh_token)
            t.user_id
            (S.now (S.random_token w.cloud).1 + cfg.refresh_ttl * 1000)
            second.1.db
        × IsActive
            (S.hmac b.refresh_token)
            t.user_id
            (S.now (S.random_token after_first.cloud).1 + cfg.refresh_ttl * 1000)
            second.1.db
  unfolding new_token
  refresh_raced h fresh ne =
      let w' = after_first in
      let one = next S cfg token w t u in
      let two = next S cfg token w' t u in
      let now = S.now (S.random_token w.cloud).1 in
      let now' = S.now (S.random_token w'.cloud).1 in
      let hash = S.hmac token in
      let found = still_found h in
      let unused = still_unused h fresh ne in
      let owner = find_user-id t.user_id u w.db h.owner in
      let (a, ea, ta, ua, pa, sa) = rotated_rows S cfg token w t u h in
      let done = rotate_ok u.id hash two now' w'.db _ found unused in
      let p = exchange_rotates S cfg token w' t u (ap (λ z. z.0) done) in
      let (b, eb, same, tb, ub) =
        respond_ok S cfg token w' t u (rotated_world S cfg token w' t u) h.signs in
      let db_is : second.1.db ≡ (rotation S cfg token w' t u).1 = ap (λ z. z.1.db) p ∙ same in
      let first_there : find_token one.hash w'.db ≡ some (new_token u.id one) =
        ap (λ x. find_token (S.hmac x) w'.db) (sym ta) ∙ sa in
      let first_stays =
        find_token-other u.id hash two now' w'.db _ found unused one.hash _
          (unused-other u.id hash one now w.db t h.found h.unused) first_there in
      (
        a,
        b,
        ea,
        ap (λ z. z.0) p ∙ eb,
        record {
          row = _;
          found =
              ap (λ x. find_token (S.hmac x) second.1.db) ta
              ∙ ap (find_token one.hash) db_is
              ∙ first_stays;
          is_active = refl;
          not_replaced = refl;
          of_user = owner;
          expiry = refl;
        },
        record {
          row = _;
          found =
              ap (λ x. find_token (S.hmac x) second.1.db) tb
              ∙ ap (find_token two.hash) db_is
              ∙ find_token-next u.id hash two now' w'.db _ found unused;
          is_active = refl;
          not_replaced = refl;
          of_user = owner;
          expiry = refl;
        },
      )
