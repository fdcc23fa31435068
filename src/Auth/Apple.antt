-- ===== src/Auth/Apple.antt =====
-- server/src/auth/apple/real-apple-verifier.ts and dev-apple-verifier.ts: the identity that a
-- sign-in is for. The key set of Apple, the verification and decoding of tokens and SHA-256 are
-- those of other packages.
use field_note.Common.{
  ap, sym, ◌≡◌, refl, ◌⊎◌, inl, inr, Bool, true, false, not, ◌&&◌, Bool-cases, Option, none, some,
  ◌++◌, Text, codes, text_eq, text_eq_iff, is_empty, take, or_else, if◌then◌else◌, arith,
}
use field_note.Result.{
  ErrorKind, Error, error, Result, ok, err, M, pure, throw, handle, try_catch, continue, ◌>>=◌,
}
use field_note.World.{World, call}
use field_note.World.Returns.{bind_ok}
use field_note.Tokens.{AppleIdentity, AuthServices, AuthConfig}
use field_note.Auth.{TokenResponseDto, sign_in_with_apple}

-- A claim that Apple sends as a Boolean or as a string.
pub data Flag : Type 0 where
  missing : Flag
  bool : Bool → Flag
  string : Text → Flag

-- value === true || value === 'true'
abbrev pub is_set : Flag → Bool
is_set Flag.missing = false
is_set (Flag.bool b) = b
is_set (Flag.string t) = text_eq t (codes "true")

-- AppleIdTokenClaims, as far as the verifier reads it
pub record AppleClaims : Type 0 where
  pub sub : Option Text
  pub email : Option Text
  pub email_verified : Flag
  pub is_private_email : Flag
  pub nonce : Option Text

abbrev pub apple_issuer : Text
apple_issuer = codes "https://appleid.apple.com"

abbrev unauthorized : Text → Error
unauthorized message = error ErrorKind.unauthorized message

pub failed_verification : Error
failed_verification = unauthorized (codes "Apple identity token failed verification.")

pub missing_subject : Error
missing_subject = unauthorized (codes "Apple identity token missing subject.")

pub missing_nonce : Error
missing_nonce = unauthorized (codes "Apple sign-in is missing the required nonce.")

pub nonce_mismatch : Error
nonce_mismatch = unauthorized (codes "Apple identity token nonce mismatch.")

-- A string that is there and not empty.
abbrev pub non_empty : Option Text → Option Text
non_empty none = none
non_empty (some t) = if is_empty t then none else some t

abbrev nonce_is : Option Text → Text → Bool
nonce_is none n = false
nonce_is (some m) n = text_eq m n

module _ {C : Type 0} (jwks_verify : Text → Text → Text → M C AppleClaims)
    (sha256_hex : Text → Text) (client_id : Text) where
  identity_of : AppleClaims → Text → AppleIdentity
  identity_of claims sub = record {
    sub = sub;
    email = claims.email;
    email_verified = is_set claims.email_verified;
    is_private_email = is_set claims.is_private_email;
  }

  match_nonce : AppleClaims → Text → Option Text → M C AppleIdentity
  unfolding identity_of missing_nonce nonce_mismatch
  match_nonce claims sub none = throw missing_nonce
  match_nonce claims sub (some n) =
      if not (nonce_is claims.nonce n) && not (nonce_is claims.nonce (sha256_hex n))
      then throw nonce_mismatch
      else pure (identity_of claims sub)

  check_claims : AppleClaims → Option Text → Option Text → M C AppleIdentity
  unfolding match_nonce missing_subject
  check_claims claims none expected = throw missing_subject
  check_claims claims (some sub) expected = match_nonce claims sub (non_empty expected)

  -- RealAppleTokenVerifier.verify
  unfoldable pub real_verify : Text → Option Text → M C AppleIdentity
  unfolding check_claims failed_verification
  real_verify token expected = do
    claims ← try_catch (jwks_verify token apple_issuer client_id) (λ e. throw failed_verification)
    check_claims claims (non_empty claims.sub) expected

  -- The token was verified for Apple's issuer and this client, its subject is the identity's, and its
  -- nonce is the presented one, as it is or hashed.
  pub record IsBound (token : Text) (expected : Option Text) (c : C) (sub : Text) : Type 0 where
    pub claims : AppleClaims
    pub verified : (jwks_verify token apple_issuer client_id c).0 ≡ ok claims
    pub same_sub : claims.sub ≡ some sub
    pub presented : Text
    pub given : expected ≡ some presented
    pub filled : is_empty presented ≡ false
    pub bound : (claims.nonce ≡ some presented) ⊎ (claims.nonce ≡ some (sha256_hex presented))

-- What `decodeJwt` reads of a token that is one.
pub record DevClaims : Type 0 where
  pub sub : Option Text
  pub email : Option Text

abbrev sub_of : Option DevClaims → Option Text
sub_of none = none
sub_of (some claims) = non_empty claims.sub

abbrev email_of : Option DevClaims → Option Text
email_of none = none
email_of (some claims) = claims.email

module _ {C : Type 0} (decode_jwt : Text → Option DevClaims) (sha256_hex : Text → Text) where
  -- DevAppleTokenVerifier.verify, which looks at no nonce
  unfoldable pub dev_verify : Text → Option Text → M C AppleIdentity
  dev_verify token expected =
      let claims = decode_jwt token in
      pure (record {
        sub = or_else (sub_of claims) (codes "dev-" ++ take 32 (sha256_hex token));
        email = email_of claims;
        email_verified = true;
        is_private_email = false;
      })

module _ {C : Type 0} (jwks_verify : Text → Text → Text → M C AppleClaims)
    (sha256_hex : Text → Text) (client_id : Text) where
  same_text : (o : Option Text) (n : Text) → nonce_is o n ≡ true → o ≡ some n
  same_text none n h = ground arith
  same_text (some m) n h = let e = (text_eq_iff m n).0 h in rw e refl

  match_nonce-bound :
      (claims : AppleClaims) (sub : Text) (o : Option Text) (c : C) (identity : AppleIdentity)
      → (match_nonce jwks_verify sha256_hex client_id claims sub o c).0 ≡ ok identity
      → (n : Text) × (o ≡ some n)
        × (identity.sub ≡ sub)
        × ((claims.nonce ≡ some n) ⊎ (claims.nonce ≡ some (sha256_hex n)))
  unfolding match_nonce throw pure identity_of
  match_nonce-bound claims sub none c identity h = cc
  match_nonce-bound claims sub (some n) c identity h = elim (Bool-cases (nonce_is claims.nonce n)) [
    | inl raw ↦ let e = rw raw at h in (n, refl, cc e, inl (same_text claims.nonce n raw))
    | inr raw ↦ elim (Bool-cases (nonce_is claims.nonce (sha256_hex n))) [
      | inl hashed ↦
          let e = rw (raw, hashed) at h in
          (n, refl, cc e, inr (same_text claims.nonce (sha256_hex n) hashed))
      | inr hashed ↦ absurd (cc (rw (raw, hashed) at h))
    ]
  ]

  non_empty_given :
      (o : Option Text) (t : Text) → non_empty o ≡ some t → (o ≡ some t) × (is_empty t ≡ false)
  non_empty_given none t h = cc
  non_empty_given (some s) t h = ground arith

  check_claims-bound :
      (claims : AppleClaims) (o expected : Option Text) (c : C) (identity : AppleIdentity)
      → (check_claims jwks_verify sha256_hex client_id claims o expected c).0 ≡ ok identity
      → (n : Text) × (o ≡ some identity.sub)
        × (non_empty expected ≡ some n)
        × ((claims.nonce ≡ some n) ⊎ (claims.nonce ≡ some (sha256_hex n)))
  unfolding check_claims throw
  check_claims-bound claims none expected c identity h = cc
  check_claims-bound claims (some sub) expected c identity h =
      let (n, e, p, q) = match_nonce-bound claims sub (non_empty expected) c identity h in
      (n, ap some (sym p), e, q)

  verified_claims :
      (r : Result AppleClaims) (claims : AppleClaims) (c : C)
      → (handle r (λ e. throw failed_verification) c).0 ≡ ok claims
      → r ≡ ok claims
  unfolding throw
  verified_claims (ok x) claims c h = h
  verified_claims (err e) claims c h = cc

  parts :
      {A B : Type 0} (r : Result A) (c : C) (f : A → M C B) (b : B)
      → (continue r f c).0 ≡ ok b
      → (a : A) × (r ≡ ok a) × ((f a c).0 ≡ ok b)
  parts (ok a) c f b h = (a, refl, h)
  parts (err e) c f b h = cc

  real_verify-IsBound :
      (token : Text) (expected : Option Text) (c : C) (identity : AppleIdentity)
      → (real_verify jwks_verify sha256_hex client_id token expected c).0 ≡ ok identity
      → IsBound jwks_verify sha256_hex client_id token expected c identity.sub
  unfolding real_verify ◌>>=◌ try_catch
  real_verify-IsBound token expected c identity h =
      let r = jwks_verify token apple_issuer client_id c in
      let (claims, e, rest) =
        parts (handle r.0 (λ x. throw failed_verification) r.1).0 _ _ identity h in
      let (n, own, given, bound) =
        check_claims-bound claims (non_empty claims.sub) expected _ identity rest in
      let (there, filled) = non_empty_given expected n given in
      record {
        claims = claims;
        verified = verified_claims r.0 claims r.1 e;
        same_sub = (non_empty_given claims.sub identity.sub own).0;
        presented = n;
        given = there;
        filled = filled;
        bound = bound;
      }

  -- A sign-in with Apple that returns tokens, where the verifier is the real one: the key set of Apple
  -- verified the presented token for Apple's issuer and this client, the token has a subject, and its
  -- nonce is the one that was presented, which is not empty, as it is or as its SHA-256.
  pub sign_in-IsBound :
      (S : AuthServices C) (cfg : AuthConfig) (token : Text) (expected email : Option Text)
      (w : World C) (r : TokenResponseDto)
      → (sign_in_with_apple
          (record S { verify = real_verify jwks_verify sha256_hex client_id })
          cfg
          token
          expected
          email
          w).0
        ≡ ok r
      → (sub : Text) × IsBound jwks_verify sha256_hex client_id token expected w.cloud sub
  unfolding sign_in_with_apple call
  sign_in-IsBound S cfg token expected email w r h =
      let (identity, e, p) = bind_ok _ _ w r h in
      (identity.sub, real_verify-IsBound token expected w.cloud identity e)
