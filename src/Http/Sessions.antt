-- ===== src/Http/Sessions.antt =====
-- The access tokens of server/src/auth/token.service.ts at the guard of
-- server/src/common/auth/jwt-auth.guard.ts.
use Prim.Native.Nat.{◌/◌}
use field_note.Common.{
  ◌+◌, ◌*◌, ◌<◌, ◌≡◌, ◌≢◌, refl, ap, false, some, [], ◌∷◌, ◌++◌, Text, codes, is_empty, before_char,
  text_eq, All, arith,
}
use field_note.Result.{ok}
use field_note.World.{World, run}
use field_note.Tokens.{AccessClaims, AuthServices, AuthConfig, issue_access_token}
use field_note.Http.Guard.{GuardServices, extract_token, authenticate, can_activate}

-- What the package that signs and verifies documents: a token is a compact serialization, without
-- spaces, and until it expires it verifies, with the secret that signed it and for its issuer and
-- audience, to the claims that were signed.
pub record VerifiesSigned {C : Type 0} (S : AuthServices C) (G : GuardServices C) : Type 0 where
  pub compact :
      (secret : Text) (claims : AccessClaims) (c c' : C) (t : Text)
      → S.sign secret claims c ≡ (ok t, c')
      → (is_empty t ≡ false) × All (λ x. x ≢ 32) t
  pub verifies :
      (secret : Text) (claims : AccessClaims) (c c' : C) (t : Text)
      → S.sign secret claims c ≡ (ok t, c')
      → (later : C) → S.now later < 1000 * claims.expires_at
      → G.jwt_verify secret t claims.issuer claims.audience later ≡ (
        ok (record {
          token_type = some claims.token_type;
          sub = some claims.subject;
          apple_sub = some claims.apple_sub;
        }),
        later,
      )

no_space : (t : Text) → All (λ x. x ≢ 32) t → before_char 32 t ≡ t
no_space [] h = refl
no_space (x ∷ t) h = let rest = no_space t h.1 in let apart = h.0 in ground (arith, rest, apart)

extract_bearer :
    (t : Text)
    → is_empty t ≡ false
    → All (λ x. x ≢ 32) t
    → extract_token (some (codes "Bearer " ++ t)) ≡ some t
unfolding extract_token text_eq
extract_bearer t named h = rw (no_space t h, named) refl

module _ {C : Type 0} (S : AuthServices C) (G : GuardServices C) (cfg : AuthConfig)
    (documented : VerifiesSigned S G) (user_id apple_sub t : Text) (w w' : World C) where
  -- The claims of a token that is issued in a world.
  claims_at : AccessClaims
  claims_at =
      let now = S.now w.cloud / 1000 in
      record {
        token_type = codes "access";
        apple_sub = apple_sub;
        subject = user_id;
        issuer = cfg.app_base_url;
        audience = codes "fieldnote-app";
        issued_at = now;
        expires_at = now + cfg.access_ttl;
      }

  signed :
      (issue_access_token S cfg user_id apple_sub w).0 ≡ ok t
      → S.sign cfg.access_secret claims_at w.cloud
        ≡ (ok t, (S.sign cfg.access_secret claims_at w.cloud).1)
  unfolding issue_access_token claims_at run
  signed h = ap (λ r. (r, (S.sign cfg.access_secret claims_at w.cloud).1)) h

  -- An access token that was issued, sent as a bearer token before it has expired, is accepted, for
  -- the user that it was issued for, and with their Apple subject, where the package verifies what
  -- it has signed.
  pub authenticate_issued :
      (issue_access_token S cfg user_id apple_sub w).0 ≡ ok t
      → S.now w'.cloud < 1000 * (S.now w.cloud / 1000 + cfg.access_ttl)
      → authenticate G cfg (some (codes "Bearer " ++ t)) w'
        ≡ (ok (record { user_id = user_id; apple_sub = apple_sub }), w')
  unfolding authenticate can_activate claims_at run text_eq
  authenticate_issued issued early =
      let p = signed issued in
      let (named, dense) = documented.compact cfg.access_secret claims_at w.cloud _ t p in
      rw
        (
          extract_bearer t named dense,
          documented.verifies cfg.access_secret claims_at w.cloud _ t p w'.cloud early,
        )
        refl
