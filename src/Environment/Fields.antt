-- ===== src/Environment/Fields.antt =====
-- The fields of the environment and the groups of the configuration, server/src/config/env.ts.
use field_note.Common.{ℕ, Bool, List, Text}

pub data NodeEnv : Type 0 where
  development test production : NodeEnv

pub data SpeechProvider : Type 0 where
  deepgram openai : SpeechProvider

-- RawEnv
pub record RawEnv : Type 0 where
  pub node_env : NodeEnv
  pub port : ℕ
  pub app_base_url : Text
  pub cors_origins : List Text
  pub log_level : Text
  pub database_url : Text
  pub redis_url : Text
  pub r2_account_id : Text
  pub r2_access_key_id : Text
  pub r2_secret_access_key : Text
  pub r2_bucket : Text
  pub r2_endpoint : Text
  pub r2_force_path_style : Bool
  pub r2_presign_put_ttl : ℕ
  pub r2_presign_get_ttl : ℕ
  pub audio_retention_days : ℕ
  pub speech_provider : SpeechProvider
  pub deepgram_api_key : Text
  pub deepgram_model : Text
  pub openai_api_key : Text
  pub openai_transcribe_model : Text
  pub deepseek_api_key : Text
  pub deepseek_base_url : Text
  pub report_model : Text
  pub max_audio_seconds : ℕ
  pub worker_concurrency : ℕ
  pub stage_timeout_ms : ℕ
  pub job_max_attempts : ℕ
  pub use_mock_ai : Bool
  pub apple_team_id : Text
  pub apple_key_id : Text
  pub apple_client_id : Text
  pub apple_private_key : Text
  pub apple_auth_dev_bypass : Bool
  pub jwt_access_secret : Text
  pub jwt_refresh_secret : Text
  pub jwt_access_ttl : ℕ
  pub jwt_refresh_ttl : ℕ
  pub bull_board_user : Text
  pub bull_board_password : Text

-- AppConfig and its groups
pub record R2Config : Type 0 where
  pub account_id : Text
  pub access_key_id : Text
  pub secret_access_key : Text
  pub bucket : Text
  pub endpoint : Text
  pub force_path_style : Bool
  pub presign_put_ttl : ℕ
  pub presign_get_ttl : ℕ
  pub audio_retention_days : ℕ

pub record AiConfig : Type 0 where
  pub use_mock : Bool
  pub speech_provider : SpeechProvider
  pub deepgram_api_key : Text
  pub deepgram_model : Text
  pub openai_api_key : Text
  pub openai_transcribe_model : Text
  pub deepseek_api_key : Text
  pub deepseek_base_url : Text
  pub report_model : Text
  pub max_audio_seconds : ℕ
  pub worker_concurrency : ℕ
  pub stage_timeout_ms : ℕ
  pub job_max_attempts : ℕ

pub record AppleConfig : Type 0 where
  pub team_id : Text
  pub key_id : Text
  pub client_id : Text
  pub private_key : Text
  pub dev_bypass : Bool

pub record JwtConfig : Type 0 where
  pub access_secret : Text
  pub refresh_secret : Text
  pub access_ttl : ℕ
  pub refresh_ttl : ℕ

pub record BullBoardConfig : Type 0 where
  pub user : Text
  pub password : Text
  pub enabled : Bool

pub record AppConfig : Type 0 where
  pub node_env : NodeEnv
  pub is_production : Bool
  pub is_test : Bool
  pub port : ℕ
  pub app_base_url : Text
  pub cors_origins : List Text
  pub log_level : Text
  pub database_url : Text
  pub redis_url : Text
  pub r2 : R2Config
  pub ai : AiConfig
  pub apple : AppleConfig
  pub jwt : JwtConfig
  pub bull_board : BullBoardConfig
