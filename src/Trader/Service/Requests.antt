-- ===== src/Trader/Service/Requests.antt =====
-- Creating and changing a trader: the checks of the inputs and what is written.
pub mod Entry
use fxcore.Prelude.{
  ℕ, String, append, str_eq, Bool, false, ◌||◌, not, Option, none, some, List, [], ◌∷◌,
  if◌then◌else◌, length, ltb, is_some,
}
use fxcore.Prelude.Int.{pos, ltb_ℤ}
use fxcore.Prelude.Float.{Float64}
use fxcore.Model.Trader.{Status, same_status, ModelConfig, Schedule, RiskConfig, Trader}
use fxcore.Middleware.ApiError.{ApiError, bad_request, not_found, internal}
use fxcore.Store.{Store}
use fxcore.Store.Traders.{
  Mutation, done, failed, Stored, stored, missing, rejected, may_use, get_model, create_trader,
  get_trader, with_trader,
}
use fxcore.Trader.Service.{ServiceError, not_owned, running_cannot_modify, error_text}

-- The keys of the map `validExchanges`.
abbrev exchanges : List String
exchanges =
    "binance" ∷ "hyperliquid" ∷ "aster" ∷ "bybit" ∷ "okx" ∷ "bitget" ∷ "gate" ∷ "kucoin" ∷ "indodax"
    ∷ "lighter" ∷ []

abbrev one_of : String → List String → Bool
one_of x [] = false
one_of x (y ∷ ys) = str_eq x y || one_of x ys

unfoldable pub valid_exchange : String → Bool
valid_exchange x = one_of x exchanges

abbrev pub max_active_hours : ℕ
max_active_hours = 24

-- `dto.CreateTraderRequest` and, with a field that may be missing, `dto.UpdateTraderRequest`.
pub record CreateRequest (F : Type 0) : Type 0 where
  pub name : String
  pub exchange : String
  pub model_config : ModelConfig
  pub strategy_id : String
  pub risk_config : RiskConfig F
  pub schedule : Option Schedule

pub record UpdateRequest (F : Type 0) : Type 0 where
  pub name : Option String
  pub exchange : Option String
  pub model_config : Option ModelConfig
  pub strategy_id : Option String
  pub risk_config : Option (RiskConfig F)
  pub schedule : Option Schedule

-- The two checks of a schedule: the error, if there is one.
abbrev pub schedule_error : Option Schedule → Option ApiError
schedule_error none = none
schedule_error (some c) =
    if ltb_ℤ c.interval (pos 0)
    then some (bad_request "schedule.interval must be >= 0" [])
    else (if ltb max_active_hours (length c.active_hours)
        then some (bad_request "schedule.active_hours too many (max 24)" [])
        else none)

abbrev pub or_else {ℓ} : {A : Type ℓ} → Option A → A → A
or_else none d = d
or_else (some a) d = a

abbrev pub first_error : Option ApiError → Option ApiError → Option ApiError
first_error none e = e
first_error (some e) e' = some e

abbrev exchange_error : Option String → Option ApiError
exchange_error none = none
exchange_error (some x) =
    if not (valid_exchange x) then some (bad_request "unsupported exchange" []) else none

-- The result of a call: the trader, or the error.
pub data Answer (F : Type 0) : Type 0 where
  ok : Trader F → Answer F
  err : ApiError → Answer F

module _ {F : Type 0} where
  -- A model that is missing is an error.
  abbrev pub model_error : ApiError → ModelConfig → Store F → Option ApiError
  model_error e c s = if is_some (get_model c.model_id s) then none else some e

  unfoldable pub create_error : CreateRequest F → Store F → Option ApiError
  create_error r s =
      if not (valid_exchange r.exchange)
      then some (
          bad_request "unsupported exchange" (
            (
              "exchange",
              "must be one of binance,hyperliquid,aster,bybit,okx,bitget,gate,kucoin,indodax,lighter",
            )
            ∷ []))
      else first_error
          (model_error
            (bad_request "referenced model not found"
              (("model_config.model_id", "model id does not exist") ∷ []))
            r.model_config s)
          (schedule_error r.schedule)

  abbrev pub answer_found : Option (Trader F) → Answer F
  answer_found none = err (internal "trader created but not found")
  answer_found (some t) = ok t

  module _ ⦃f : Float64 F⦄ where
    abbrev pub fresh_trader : String → CreateRequest F → Trader F
    fresh_trader user_id r = record {
      id = "";
      user_id = user_id;
      name = r.name;
      exchange = r.exchange;
      model_config = r.model_config;
      strategy_id = r.strategy_id;
      risk_config = r.risk_config;
      schedule = r.schedule;
      status = Status.idle;
      metrics = record {
        total_pnl = f.dec 0 0;
        win_rate = f.dec 0 0;
        trade_count = 0;
        daily_pnl = f.dec 0 0;
      };
      created_at = 0;
      updated_at = 0;
    }

    abbrev pub entered : ℕ → String → String → CreateRequest F → Store F → Answer F × Store F
    entered now fresh user_id r s =
        let (t, s') = create_trader now fresh (fresh_trader user_id r) s in
        (answer_found (get_trader t.id s'), s')

    abbrev pub checked_create :
        ℕ → String → String → CreateRequest F → Option ApiError → Store F → Answer F × Store F
    checked_create now fresh user_id r (some e) s = (err e, s)
    checked_create now fresh user_id r none s = entered now fresh user_id r s

    unfoldable pub create : ℕ → String → String → CreateRequest F → Store F → Answer F × Store F
    create now fresh user_id r s = checked_create now fresh user_id r (create_error r s) s

  abbrev new_model_error : Option ModelConfig → Store F → Option ApiError
  new_model_error none s = none
  new_model_error (some c) s = model_error (bad_request "referenced model not found" []) c s

  unfoldable pub update_error : UpdateRequest F → Store F → Option ApiError
  update_error r s =
      first_error (exchange_error r.exchange)
        (first_error (new_model_error r.model_config s) (schedule_error r.schedule))

  abbrev pub patched : UpdateRequest F → Trader F → Trader F
  patched r t = record t {
    name = or_else r.name t.name;
    exchange = or_else r.exchange t.exchange;
    model_config = or_else r.model_config t.model_config;
    strategy_id = or_else r.strategy_id t.strategy_id;
    risk_config = or_else r.risk_config t.risk_config;
    schedule = elim r.schedule [ none ↦ t.schedule | some c ↦ some c ];
  }

  -- The callback of `Update`.
  unfoldable pub patch : String → UpdateRequest F → Trader F → Mutation ServiceError (Trader F)
  patch user_id r t =
      if not (may_use user_id t.user_id)
      then failed not_owned
      else (if same_status t.status Status.running
          then failed running_cannot_modify
          else done (patched r t))

  abbrev updated : Stored ServiceError (Trader F) → Answer F
  updated (stored t) = ok t
  updated missing = err (not_found "trader not found")
  updated (rejected not_owned) = err (not_found "trader not found")
  updated (rejected running_cannot_modify) =
      err (bad_request "cannot modify trader while running, stop it first" [])
  updated (rejected e) = err (internal (append "update trader failed: " (error_text e)))

  abbrev checked_update :
      ℕ → String → String → UpdateRequest F → Option ApiError → Store F → Answer F × Store F
  checked_update now id user_id r (some e) s = (err e, s)
  checked_update now id user_id r none s =
      let (a, s') = with_trader now id (patch user_id r) s in (updated a, s')

  unfoldable pub update : ℕ → String → String → UpdateRequest F → Store F → Answer F × Store F
  update now id user_id r s = checked_update now id user_id r (update_error r s) s
