-- ===== src/Tests/Sessions.antt =====
-- Refresh tokens and sign-ins on concrete tables.
use field_note.Common.{
  ◌+◌, false, ℕ, ◌≡◌, refl, Option, none, some, [], ◌∷◌, ◌++◌, Text, codes, arith,
}
use field_note.Result.{ok, err}
use field_note.Database.{User, RefreshToken, Db}
use field_note.World.{World}
use field_note.Users.{upsert_by_apple}
use field_note.Tokens.{AuthServices, AuthConfig, Generated}
use field_note.Auth.{TokenResponseDto, find_token, has_hash, rotate, already_used, refresh}
use field_note.Auth.Rows.{AllRevoked, others}
use field_note.Auth.Refresh.{refresh_rotates, refresh_single_use, refresh_reuse}
use field_note.Auth.Race.{refresh_raced, second}
use field_note.Auth.Exchange.{IsExchangeable, IsReplaced, IsActive}
use field_note.Auth.Valid.{IsValid, refresh-IsValid}
use field_note.Tests.{computed, done, db_of}

-- The hash of a token is the token with a mark; the clock does not move.
abbrev auth : AuthServices ℕ
auth = record {
  now = λ c. c;
  new_user_id = λ c. (codes "u9", c);
  verify = λ token nonce.
      done (record {
        sub = codes "s1";
        email = none;
        email_verified = false;
        is_private_email = false;
      });
  random_token = λ c. (codes "r2", c);
  hmac = λ t. codes "#" ++ t;
  sign = λ secret claims. done (codes "jwt");
}

abbrev auth_cfg : AuthConfig
auth_cfg = record {
  access_ttl = 900;
  refresh_ttl = 3600;
  app_base_url = codes "https://x";
  access_secret = codes "k";
}

abbrev u1 : User
u1 = record { id = codes "u1"; apple_sub = codes "s1"; email = none }

abbrev token_of : Text → Text → Option ℕ → RefreshToken
token_of user_id hash revoked = record {
  user_id = user_id;
  token_hash = hash;
  expires_at = 100;
  revoked_at = revoked;
  replaced_by_token_hash = none;
}

-- An active token, a used one, and one of another user.
abbrev active : RefreshToken
active = token_of (codes "u1") (codes "#r1") none

abbrev used : RefreshToken
used = token_of (codes "u1") (codes "#r0") (some 5)

abbrev tokens : Db
tokens = record (db_of []) {
  users = u1 ∷ [];
  refresh_tokens = active ∷ used ∷ token_of (codes "u2") (codes "#q") none ∷ [];
}

abbrev at : ℕ → World ℕ
at now = record { db = tokens; cloud = now }

exchangeable : IsExchangeable auth auth_cfg (codes "r1") (at 50) active u1
unfolding computed find_token has_hash field_note.Users.find_user field_note.Users.has_user_id
exchangeable = record {
  found = refl;
  active = refl;
  unexpired = refl;
  owner = refl;
  unused = refl;
  signs = λ claims c. (codes "jwt", refl);
}

refresh_rotates_example :
    (r : TokenResponseDto) × ((refresh auth auth_cfg (codes "r1") (at 50)).0 ≡ ok r)
    × (r.refresh_token ≡ codes "r2")
    × (r.user_id ≡ codes "u1")
    × IsReplaced
        (codes "#r1")
        (codes "#" ++ r.refresh_token)
        active
        (refresh auth auth_cfg (codes "r1") (at 50)).1.db
    × IsActive
        (codes "#" ++ r.refresh_token)
        (codes "u1")
        3600050
        (refresh auth auth_cfg (codes "r1") (at 50)).1.db
refresh_rotates_example = refresh_rotates auth auth_cfg (codes "r1") (at 50) active u1 exchangeable

refresh_single_use_example :
    ((refresh auth auth_cfg (codes "r1") (refresh auth auth_cfg (codes "r1") (at 50)).1).0
      ≡ err already_used)
    × AllRevoked
        (codes "u1")
        (refresh auth auth_cfg (codes "r1") (refresh auth auth_cfg (codes "r1") (at 50)).1).1.db
refresh_single_use_example =
    refresh_single_use auth auth_cfg (codes "r1") (at 50) active u1 exchangeable

refresh_reuse_example :
    ((refresh auth auth_cfg (codes "r0") (at 50)).0 ≡ err already_used)
    × AllRevoked (codes "u1") (refresh auth auth_cfg (codes "r0") (at 50)).1.db
    × (others (codes "u1") (refresh auth auth_cfg (codes "r0") (at 50)).1.db.refresh_tokens
        ≡ others (codes "u1") tokens.refresh_tokens)
unfolding computed find_token has_hash
refresh_reuse_example = refresh_reuse auth auth_cfg (codes "r0") (at 50) used refl refl

-- Tokens that differ from one draw to the next.
abbrev drawing : AuthServices ℕ
drawing = record auth { random_token = λ c. (c ∷ [], c + 1) }

drawing-IsExchangeable : IsExchangeable drawing auth_cfg (codes "r1") (at 50) active u1
unfolding computed find_token has_hash field_note.Users.find_user field_note.Users.has_user_id
drawing-IsExchangeable = record {
  found = refl;
  active = refl;
  unexpired = refl;
  owner = refl;
  unused = refl;
  signs = λ claims c. (codes "jwt", refl);
}

refresh_raced_example :
    (a : TokenResponseDto) × (b : TokenResponseDto) × ((refresh drawing auth_cfg
        (codes "r1")
        (at 50)).0
      ≡ ok a)
    × ((second drawing auth_cfg (codes "r1") (at 50) active u1).0 ≡ ok b)
    × IsActive
        (codes "#" ++ a.refresh_token)
        (codes "u1")
        3600051
        (second drawing auth_cfg (codes "r1") (at 50) active u1).1.db
    × IsActive
        (codes "#" ++ b.refresh_token)
        (codes "u1")
        3600052
        (second drawing auth_cfg (codes "r1") (at 50) active u1).1.db
unfolding computed find_token has_hash refresh field_note.Users.find_user
    field_note.Users.has_user_id field_note.Tokens.hash_refresh_token
    field_note.Tokens.generate_refresh_token field_note.Tokens.issue_access_token rotate
refresh_raced_example =
    refresh_raced drawing auth_cfg (codes "r1") (at 50) active u1 drawing-IsExchangeable refl
      (λ e. ground (arith, e))

refresh-IsValid_example : (t : RefreshToken) × IsValid auth (codes "r1") (at 50) t
unfolding computed find_token has_hash refresh field_note.Users.find_user
    field_note.Users.has_user_id field_note.Tokens.hash_refresh_token
    field_note.Tokens.generate_refresh_token field_note.Tokens.issue_access_token rotate
refresh-IsValid_example =
    refresh-IsValid auth auth_cfg (codes "r1") (at 50)
      (record {
        access_token = codes "jwt";
        refresh_token = codes "r2";
        token_type = codes "Bearer";
        expires_in = 900;
        user_id = codes "u1";
      })
      refl
