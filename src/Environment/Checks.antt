-- ===== src/Environment/Checks.antt =====
-- What an environment that loads has passed.
use field_note.Common.{
  ◌≡◌, ◌≢◌, refl, Bool, true, false, not, ◌&&◌, List, [], ◌∷◌, ◌++◌, Text, codes, text_eq,
  text_eq_iff, is_empty, any, if◌then◌else◌, arith,
}
use field_note.Result.{ok}
use field_note.World.{Issue}
use field_note.Environment.Fields.{NodeEnv, SpeechProvider, RawEnv, AiConfig, AppConfig}
use field_note.Environment.{
  ai_config, apple_config, jwt_config, Parsed, includes, is_production, uses_deepgram, issue_if,
  mock_ai, ai_issues, mode_issues, apple_issues, production_issues, refine, config_or, load_config,
}

nil_append : {A : Type 0} → (xs ys : List A) → xs ++ ys ≡ [] → (xs ≡ []) × (ys ≡ [])
nil_append [] ys h = (refl, h)
nil_append (x ∷ xs) ys h = ground (arith, h)

issue_first :
    (bad : Bool) (key message : Text) (rest : List Issue)
    → issue_if bad key message ++ rest ≡ []
    → (bad ≡ false) × (rest ≡ [])
unfolding issue_if
issue_first true key message rest h = ground (arith, h)
issue_first false key message rest h = (refl, h)

issue_last : (bad : Bool) (key message : Text) → issue_if bad key message ≡ [] → bad ≡ false
unfolding issue_if
issue_last true key message h = ground (arith, h)
issue_last false key message h = refl

-- The key of the speech provider that is chosen.
abbrev pub speech_key : RawEnv → Text
speech_key env =
    if uses_deepgram env.speech_provider then env.deepgram_api_key else env.openai_api_key

-- The key that the configuration has for a speech provider.
abbrev pub key_of : SpeechProvider → AiConfig → Text
key_of SpeechProvider.deepgram ai = ai.deepgram_api_key
key_of SpeechProvider.openai ai = ai.openai_api_key

-- A configuration that is safe to serve users with.
pub record IsSafe (cfg : AppConfig) : Type 0 where
  pub in_production : cfg.is_production ≡ true
  pub no_bypass : cfg.apple.dev_bypass ≡ false
  pub no_mock : cfg.ai.use_mock ≡ false
  pub has_speech_key : is_empty (key_of cfg.ai.speech_provider cfg.ai) ≡ false
  pub has_report_key : is_empty cfg.ai.deepseek_api_key ≡ false
  pub has_apple_team : is_empty cfg.apple.team_id ≡ false
  pub has_apple_key : is_empty cfg.apple.key_id ≡ false
  pub has_apple_private : is_empty cfg.apple.private_key ≡ false
  pub no_access_placeholder : includes (codes "change-me") cfg.jwt.access_secret ≡ false
  pub no_refresh_placeholder : includes (codes "change-me") cfg.jwt.refresh_secret ≡ false
  pub secrets_differ : cfg.jwt.access_secret ≢ cfg.jwt.refresh_secret
  pub no_wildcard : any (text_eq (codes "*")) cfg.cors_origins ≡ false

ok_inj : (cfg cfg' : AppConfig) → ok cfg ≡ ok cfg' → cfg ≡ cfg'
ok_inj cfg cfg' h = cc h

loaded :
    (issues : List Issue) (env : RawEnv) (cfg : AppConfig)
    → config_or issues env ≡ ok cfg
    → issues ≡ []
unfolding config_or
loaded [] env cfg h = refl
loaded (i ∷ is) env cfg h = cc h

ai_passed :
    (env : RawEnv)
    → ai_issues env ≡ []
    → mock_ai env ≡ false
    → (is_empty (speech_key env) ≡ false) × (is_empty env.deepseek_api_key ≡ false)
unfolding ai_issues
ai_passed env h real =
    let (a, rest) =
      issue_first
        (not (mock_ai env) && (uses_deepgram env.speech_provider && is_empty env.deepgram_api_key))
        _ _ _ h in
    let (b, rest') =
      issue_first
        (not (mock_ai env)
          && (not (uses_deepgram env.speech_provider) && is_empty env.openai_api_key))
        _ _ _ rest in
    let c = issue_last (not (mock_ai env) && is_empty env.deepseek_api_key) _ _ rest' in
    ground (arith, a, b, c, real)

mode_passed :
    (env : RawEnv)
    → mode_issues env ≡ []
    → is_production env.node_env ≡ true
    → (env.apple_auth_dev_bypass ≡ false) × (env.use_mock_ai ≡ false)
unfolding mode_issues
mode_passed env h prod =
    let (a, rest) = issue_first (is_production env.node_env && env.apple_auth_dev_bypass) _ _ _ h in
    let b = issue_last (is_production env.node_env && env.use_mock_ai) _ _ rest in
    (rw prod at a, rw prod at b)

apple_passed :
    (env : RawEnv)
    → apple_issues env ≡ []
    → env.apple_auth_dev_bypass ≡ false
    → (is_empty env.apple_team_id ≡ false)
      × (is_empty env.apple_key_id ≡ false)
      × (is_empty env.apple_private_key ≡ false)
unfolding apple_issues
apple_passed env h off =
    let (a, rest) =
      issue_first (not env.apple_auth_dev_bypass && is_empty env.apple_team_id) _ _ _ h in
    let (b, rest') =
      issue_first (not env.apple_auth_dev_bypass && is_empty env.apple_key_id) _ _ _ rest in
    let c =
      issue_last (not env.apple_auth_dev_bypass && is_empty env.apple_private_key) _ _ rest' in
    (rw off at a, rw off at b, rw off at c)

production_passed :
    (env : RawEnv)
    → production_issues env ≡ []
    → is_production env.node_env ≡ true
    → (includes (codes "change-me") env.jwt_access_secret ≡ false)
      × (includes (codes "change-me") env.jwt_refresh_secret ≡ false)
      × (text_eq env.jwt_access_secret env.jwt_refresh_secret ≡ false)
      × (any (text_eq (codes "*")) env.cors_origins ≡ false)
unfolding production_issues
production_passed env h prod =
    let p = is_production env.node_env in
    let (a, rest) = issue_first (p && includes (codes "change-me") env.jwt_access_secret) _ _ _ h in
    let (b, rest') =
      issue_first (p && includes (codes "change-me") env.jwt_refresh_secret) _ _ _ rest in
    let (c, rest'') =
      issue_first (p && text_eq env.jwt_access_secret env.jwt_refresh_secret) _ _ _ rest' in
    let d = issue_last (p && any (text_eq (codes "*")) env.cors_origins) _ _ rest'' in
    (rw prod at a, rw prod at b, rw prod at c, rw prod at d)

real_ai :
    (env : RawEnv)
    → is_production env.node_env ≡ true
    → env.use_mock_ai ≡ false
    → mock_ai env ≡ false
unfolding mock_ai
real_ai env prod off = ground (arith, prod, off)

speech_key-of :
    (provider : SpeechProvider) (env : RawEnv) (ai : AiConfig)
    → env.speech_provider ≡ provider
    → ai.deepgram_api_key ≡ env.deepgram_api_key
    → ai.openai_api_key ≡ env.openai_api_key
    → is_empty (speech_key env) ≡ false
    → is_empty (key_of provider ai) ≡ false
speech_key-of SpeechProvider.deepgram env ai same d o h = rw d (rw same at h)
speech_key-of SpeechProvider.openai env ai same d o h = rw o (rw same at h)

-- The configuration that is made of an environment without issues.
made-IsSafe :
    (env : RawEnv)
    → refine env ≡ []
    → is_production env.node_env ≡ true
    → (cfg : AppConfig) → config_or [] env ≡ ok cfg
    → IsSafe cfg
unfolding refine config_or ai_config apple_config jwt_config
made-IsSafe env none_found prod cfg made =
    let (ai, rest) = nil_append (ai_issues env) _ none_found in
    let (mode, rest') = nil_append (mode_issues env) _ rest in
    let (apple, last) = nil_append (apple_issues env) (production_issues env) rest' in
    let (no_bypass, no_mock) = mode_passed env mode prod in
    let (speech, report) = ai_passed env ai (real_ai env prod no_mock) in
    let (team, key, private_key) = apple_passed env apple no_bypass in
    let (access, fresh, differ, origins) = production_passed env last prod in
    rw (← ok_inj _ cfg made) (record {
      in_production = prod;
      no_bypass = no_bypass;
      no_mock = real_ai env prod no_mock;
      has_speech_key = speech_key-of env.speech_provider env (ai_config env) refl refl refl speech;
      has_report_key = report;
      has_apple_team = team;
      has_apple_key = key;
      has_apple_private = private_key;
      no_access_placeholder = access;
      no_refresh_placeholder = fresh;
      secrets_differ =
          λ e. ground (arith, differ, e, text_eq_iff env.jwt_access_secret env.jwt_refresh_secret);
      no_wildcard = origins;
    })

-- A configuration that is loaded from a production environment has the keys of its providers and of
-- Apple, no mock, no sign-in bypass, no placeholder among its two different secrets, and no wildcard
-- origin.
pub load_config-IsSafe :
    (env : RawEnv) (cfg : AppConfig)
    → load_config (Parsed.accepted env) ≡ ok cfg
    → env.node_env ≡ NodeEnv.production
    → IsSafe cfg
unfolding load_config
load_config-IsSafe env cfg h production =
    let none_found = loaded (refine env) env cfg h in
    made-IsSafe env none_found (rw production refl) cfg (rw none_found at h)
