-- ===== src/Model/User.antt =====
-- internal/model/user.go and ai_model.go.
use fxcore.Prelude.{ℕ, String, Option}

pub record User : Type 0 where
  pub id : String
  pub email : String
  pub password_hash : String
  pub nickname : String
  pub avatar : String
  pub sign_secret : String
  pub created_at : ℕ
  pub updated_at : ℕ

pub record AiModel : Type 0 where
  pub id : String
  pub user_id : String
  pub name : String
  pub provider : String
  pub model_name : String
  pub api_key_enc : String
  pub api_key_prefix : String
  pub status : String
  pub config : String
  pub last_test_at : Option ℕ
  pub last_test_latency_ms : ℕ
  pub rotated_at : Option ℕ
  pub deleted_at : Option ℕ
  pub created_at : ℕ
  pub updated_at : ℕ
