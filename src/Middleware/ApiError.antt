-- ===== src/Middleware/ApiError.antt =====
-- internal/middleware/error.go: the errors that a handler answers with. The `Fields` of a bad request
-- tell the front end which inputs to mark.
use fxcore.Prelude.{ℕ, String, List, []}

pub record ApiError : Type 0 where
  pub code : ℕ
  pub http : ℕ
  pub message : String
  pub fields : List (String × String)

abbrev pub new_api_error : ℕ → ℕ → String → ApiError
new_api_error code http message = record {
  code = code;
  http = http;
  message = message;
  fields = [];
}

abbrev pub bad_request : String → List (String × String) → ApiError
bad_request message fields = record { code = 1001; http = 400; message = message; fields = fields }

abbrev pub token_invalid : String → ApiError
token_invalid = new_api_error 1002 401

abbrev pub not_found : String → ApiError
not_found = new_api_error 1004 404

abbrev pub rate_limited : String → ApiError
rate_limited = new_api_error 1005 429

abbrev pub trader_running : String → ApiError
trader_running = new_api_error 1204 409

abbrev pub backtest_lock : String → ApiError
backtest_lock = new_api_error 1411 400

abbrev pub backtest_not_found : String → ApiError
backtest_not_found = new_api_error 1412 404

abbrev pub debate_not_executable : String → ApiError
debate_not_executable = new_api_error 1420 409

abbrev pub internal : String → ApiError
internal = new_api_error 1500 500
