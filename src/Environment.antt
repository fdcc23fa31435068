-- ===== src/Environment.antt =====
-- server/src/config/env.ts: the checks across the fields of the environment, and the configuration
-- that is made of them. The parser of the single fields is zod's: a `Parsed` environment is what
-- it returns.
pub mod Fields
pub mod Checks
use field_note.Common.{
  ℕ, Bool, true, false, not, ◌&&◌, ◌||◌, List, [], ◌∷◌, ◌++◌, map, Text, codes, text_eq, is_empty,
  any, filter, trim, ◌==◌, if◌then◌else◌,
}
use field_note.Result.{ErrorKind, error, Result, ok, err}
use field_note.World.{Issue}
use field_note.Compiler.Prompts.{join}
use Fields.{
  NodeEnv, SpeechProvider, RawEnv, R2Config, AiConfig, AppleConfig, JwtConfig, BullBoardConfig,
  AppConfig,
}

-- String.prototype.includes
starts_with : Text → Text → Bool
starts_with [] t = true
starts_with (x ∷ xs) [] = false
starts_with (x ∷ xs) (y ∷ ys) = x == y && starts_with xs ys

unfoldable pub includes : Text → Text → Bool
unfolding starts_with
includes part [] = is_empty part
includes part (y ∷ ys) = starts_with part (y ∷ ys) || includes part ys

abbrev pub is_production : NodeEnv → Bool
is_production NodeEnv.production = true
is_production _ = false

abbrev pub is_test : NodeEnv → Bool
is_test NodeEnv.test = true
is_test _ = false

abbrev pub uses_deepgram : SpeechProvider → Bool
uses_deepgram SpeechProvider.deepgram = true
uses_deepgram SpeechProvider.openai = false

-- ctx.addIssue, where the condition holds
unfoldable pub issue_if : Bool → Text → Text → List Issue
issue_if bad key message = if bad then record { path = key ∷ []; message = message } ∷ [] else []

unfoldable pub mock_ai : RawEnv → Bool
mock_ai env = env.use_mock_ai || is_test env.node_env

ai_issues : RawEnv → List Issue
unfolding issue_if
ai_issues env =
    issue_if
      (not (mock_ai env) && (uses_deepgram env.speech_provider && is_empty env.deepgram_api_key))
      (codes "DEEPGRAM_API_KEY")
      (codes "required when TRANSCRIPTION_PROVIDER=deepgram and USE_MOCK_AI is false")
    ++ (issue_if
          (not (mock_ai env)
            && (not (uses_deepgram env.speech_provider) && is_empty env.openai_api_key))
          (codes "OPENAI_API_KEY")
          (codes "required when TRANSCRIPTION_PROVIDER=openai and USE_MOCK_AI is false")
        ++ issue_if (not (mock_ai env) && is_empty env.deepseek_api_key) (codes "DEEPSEEK_API_KEY")
            (codes "required for report compilation when USE_MOCK_AI is false"))

mode_issues : RawEnv → List Issue
unfolding issue_if
mode_issues env =
    issue_if (is_production env.node_env && env.apple_auth_dev_bypass)
      (codes "APPLE_AUTH_DEV_BYPASS") (codes "must be false in production")
    ++ issue_if (is_production env.node_env && env.use_mock_ai) (codes "USE_MOCK_AI")
        (codes "must be false in production")

abbrev apple_message : Text
apple_message = codes "required unless APPLE_AUTH_DEV_BYPASS=true"

apple_issues : RawEnv → List Issue
unfolding issue_if
apple_issues env =
    issue_if (not env.apple_auth_dev_bypass && is_empty env.apple_team_id) (codes "APPLE_TEAM_ID")
      apple_message
    ++ (issue_if (not env.apple_auth_dev_bypass && is_empty env.apple_key_id) (codes "APPLE_KEY_ID")
          apple_message
        ++ issue_if (not env.apple_auth_dev_bypass && is_empty env.apple_private_key)
            (codes "APPLE_PRIVATE_KEY") apple_message)

abbrev placeholder_message : Text
placeholder_message = codes "must not use the placeholder secret in production"

production_issues : RawEnv → List Issue
unfolding issue_if includes
production_issues env =
    let prod = is_production env.node_env in
    issue_if (prod && includes (codes "change-me") env.jwt_access_secret)
      (codes "JWT_ACCESS_SECRET") placeholder_message
    ++ (issue_if (prod && includes (codes "change-me") env.jwt_refresh_secret)
          (codes "JWT_REFRESH_SECRET") placeholder_message
        ++ (issue_if (prod && text_eq env.jwt_access_secret env.jwt_refresh_secret)
              (codes "JWT_REFRESH_SECRET")
              (codes "must differ from JWT_ACCESS_SECRET in production")
            ++ issue_if (prod && any (text_eq (codes "*")) env.cors_origins) (codes "CORS_ORIGINS")
                (codes "must be an explicit allow-list in production (wildcard not allowed)")))

-- The superRefine of the schema.
unfoldable pub refine : RawEnv → List Issue
unfolding ai_issues mode_issues apple_issues production_issues
refine env = ai_issues env ++ (mode_issues env ++ (apple_issues env ++ production_issues env))

-- What zod returns for the fields one by one.
pub data Parsed : Type 0 where
  rejected : List Issue → Parsed
  accepted : RawEnv → Parsed

config_line : Issue → Text
config_line i =
    let path = join (codes ".") i.path in
    codes "  • " ++ ((if is_empty path then codes "(root)" else path) ++ (codes ": " ++ i.message))

pub r2_config : RawEnv → R2Config
r2_config env = record {
  account_id = env.r2_account_id;
  access_key_id = env.r2_access_key_id;
  secret_access_key = env.r2_secret_access_key;
  bucket = env.r2_bucket;
  endpoint = env.r2_endpoint;
  force_path_style = env.r2_force_path_style;
  presign_put_ttl = env.r2_presign_put_ttl;
  presign_get_ttl = env.r2_presign_get_ttl;
  audio_retention_days = env.audio_retention_days;
}

pub ai_config : RawEnv → AiConfig
unfolding mock_ai
ai_config env = record {
  use_mock = mock_ai env;
  speech_provider = env.speech_provider;
  deepgram_api_key = env.deepgram_api_key;
  deepgram_model = env.deepgram_model;
  openai_api_key = env.openai_api_key;
  openai_transcribe_model = env.openai_transcribe_model;
  deepseek_api_key = env.deepseek_api_key;
  deepseek_base_url = env.deepseek_base_url;
  report_model = env.report_model;
  max_audio_seconds = env.max_audio_seconds;
  worker_concurrency = env.worker_concurrency;
  stage_timeout_ms = env.stage_timeout_ms;
  job_max_attempts = env.job_max_attempts;
}

pub apple_config : RawEnv → AppleConfig
apple_config env = record {
  team_id = env.apple_team_id;
  key_id = env.apple_key_id;
  client_id = env.apple_client_id;
  private_key = env.apple_private_key;
  dev_bypass = env.apple_auth_dev_bypass;
}

pub jwt_config : RawEnv → JwtConfig
jwt_config env = record {
  access_secret = env.jwt_access_secret;
  refresh_secret = env.jwt_refresh_secret;
  access_ttl = env.jwt_access_ttl;
  refresh_ttl = env.jwt_refresh_ttl;
}

pub bull_board_config : RawEnv → BullBoardConfig
bull_board_config env = record {
  user = env.bull_board_user;
  password = env.bull_board_password;
  enabled = not (is_empty env.bull_board_user) && not (is_empty env.bull_board_password);
}

config_or : List Issue → RawEnv → Result AppConfig
unfolding r2_config ai_config apple_config jwt_config bull_board_config config_line
config_or [] env = ok (record {
  node_env = env.node_env;
  is_production = is_production env.node_env;
  is_test = is_test env.node_env;
  port = env.port;
  app_base_url = env.app_base_url;
  cors_origins = env.cors_origins;
  log_level = env.log_level;
  database_url = env.database_url;
  redis_url = env.redis_url;
  r2 = r2_config env;
  ai = ai_config env;
  apple = apple_config env;
  jwt = jwt_config env;
  bull_board = bull_board_config env;
})
config_or (i ∷ is) env = err (
    error ErrorKind.plain (
      codes "Invalid environment configuration:\n" ++ join (codes "\n") (map config_line (i ∷ is))))

unfoldable pub load_config : Parsed → Result AppConfig
unfolding config_or refine config_line
load_config (Parsed.rejected issues) = err (
    error ErrorKind.plain
      (codes "Invalid environment configuration:\n" ++ join (codes "\n") (map config_line issues)))
load_config (Parsed.accepted env) = config_or (refine env) env
