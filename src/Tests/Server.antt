-- ===== src/Tests/Server.antt =====
-- The environment of a production server, and the answer to an error.
use field_note.Common.{◌≡◌, ◌≤◌, refl, true, false, [], ◌∷◌, codes, any, text_eq, some, ◌==◌}
use field_note.Result.{ErrorKind, Error, error}
use field_note.Environment.Fields.{NodeEnv, SpeechProvider, RawEnv, AppConfig}
use field_note.Environment.{
  Parsed, load_config, refine, issue_if, includes, r2_config, ai_config, apple_config, jwt_config,
  bull_board_config,
}
use field_note.Environment.Checks.{IsSafe, load_config-IsSafe}
use field_note.Filter.{
  HttpBody, HttpError, Message, Request, Thrown, thrown, normalize_error, catch_exception,
  catch_exception_hides,
}

abbrev production_env : RawEnv
production_env = record {
  node_env = NodeEnv.production;
  port = 8080;
  app_base_url = codes "https://x";
  cors_origins = codes "https://y" ∷ [];
  log_level = codes "info";
  database_url = codes "postgres";
  redis_url = codes "redis";
  r2_account_id = codes "a";
  r2_access_key_id = codes "b";
  r2_secret_access_key = codes "c";
  r2_bucket = codes "d";
  r2_endpoint = codes "https://z";
  r2_force_path_style = false;
  r2_presign_put_ttl = 3600;
  r2_presign_get_ttl = 900;
  audio_retention_days = 30;
  speech_provider = SpeechProvider.openai;
  deepgram_api_key = [];
  deepgram_model = codes "nova-3";
  openai_api_key = codes "key";
  openai_transcribe_model = codes "m";
  deepseek_api_key = codes "key";
  deepseek_base_url = codes "https://d";
  report_model = codes "m";
  max_audio_seconds = 5400;
  worker_concurrency = 2;
  stage_timeout_ms = 180000;
  job_max_attempts = 3;
  use_mock_ai = false;
  apple_team_id = codes "t";
  apple_key_id = codes "k";
  apple_client_id = codes "c";
  apple_private_key = codes "p";
  apple_auth_dev_bypass = false;
  jwt_access_secret = codes "access";
  jwt_refresh_secret = codes "refresh";
  jwt_access_ttl = 900;
  jwt_refresh_ttl = 2592000;
  bull_board_user = [];
  bull_board_password = [];
}

abbrev production_config : AppConfig
production_config = record {
  node_env = NodeEnv.production;
  is_production = true;
  is_test = false;
  port = 8080;
  app_base_url = codes "https://x";
  cors_origins = codes "https://y" ∷ [];
  log_level = codes "info";
  database_url = codes "postgres";
  redis_url = codes "redis";
  r2 = r2_config production_env;
  ai = ai_config production_env;
  apple = apple_config production_env;
  jwt = jwt_config production_env;
  bull_board = bull_board_config production_env;
}

load_config-IsSafe_example : IsSafe production_config
unfolding load_config refine issue_if includes text_eq any field_note.Environment.mock_ai
load_config-IsSafe_example = load_config-IsSafe production_env production_config refl refl

abbrev internal : Error
internal = error ErrorKind.plain (codes "ECONNREFUSED 10.0.0.7:5432")

abbrev get_jobs : Request
get_jobs = record { id = some (codes "req-1"); url = codes "/v1/jobs" }

catch_exception_hides_example :
    (catch_exception (thrown (record internal { message = codes "x" })) get_jobs 7
      ≡ catch_exception (thrown internal) get_jobs 7)
    × (400 ≤ (catch_exception (thrown internal) get_jobs 7).status)
    × ((catch_exception (thrown internal) get_jobs 7).status ≤ 500)
    × ((catch_exception (thrown internal) get_jobs 7).is_logged
        ≡ ((catch_exception (thrown internal) get_jobs 7).status == 500))
catch_exception_hides_example = catch_exception_hides internal (codes "x") get_jobs 7 refl

-- The messages of a validation, as the framework throws them, are passed on as a list.
abbrev invalid : HttpError
invalid = record {
  status = 400;
  name = codes "BadRequestException";
  message = codes "Bad Request Exception";
  response =
      HttpBody.fields (some (Message.many (codes "label must be a string" ∷ [])))
        (some (codes "Bad Request"));
}

invalid_messages :
    (catch_exception (Thrown.http_exception invalid) get_jobs 7).body.message
    ≡ Message.many (codes "label must be a string" ∷ [])
unfolding catch_exception normalize_error
invalid_messages = refl
