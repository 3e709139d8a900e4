-- ===== src/Trader/Decide.antt =====
-- internal/trader/engine/engine.go: what a cycle meets, and its decision: the candles for the prompt, the
-- question to the model, the reading of its answer and the record of it.
use fxcore.Prelude.{
  ℕ, Bool, true, false, Option, none, some, String, List, [], ◌∷◌, if◌then◌else◌, length, ltb,
}
use fxcore.Prelude.Int.{ℤ, pos}
use fxcore.Prelude.Float.{Float64}
use fxcore.Prelude.Text.{codes}
use fxcore.Model.Chat.{Reply, content, failed}
use fxcore.Model.Trader.{Trader}
use fxcore.Model.Decision.{DecisionAction, ExchangePosition, DecisionRecord}
use fxcore.Model.Strategy.{StrategyConfig}
use fxcore.Kernel.Parse.{Json, ParseError, Parsed, ok, err, parse_decision, safe_wait}
use fxcore.Kernel.Indicators.{Run, ◌>>=◌, Math}
use fxcore.Kernel.Context.{Kline, Line, build_kline_context}
use fxcore.Store.{Store}
use fxcore.Store.Decisions.{add_decision}
use fxcore.Trader.Execute.{Moment}
use fxcore.Trader.Config.{strategy_config, timeframes, count_of}

-- `GetBalance` and `GetPositions` of the adapter; `none` is an error.
pub record Account (F : Type 0) : Type 0 where
  pub balance : Option F
  pub positions : Option (List (ExchangePosition F))

-- The market's part of the prompt: a time frame, named if there are several, and its lines.
abbrev pub Market : Type 0 → Type 0
Market F = List (Option String × List (Line F))

-- What a cycle meets. `C` are the credentials of an account, `M` the settings of a model; a resolver
-- or a source of candles that is nil is `none`. The i-th order of the guard meets the i-th moment of
-- `guard_moments`, the i-th action that of `moments`, each with the adapter's answers.
pub record Setting (F C M : Type 0) : Type 0 where
  pub creds : Option (String → String → Option C)
  pub new_adapter : C → Option (Account F)
  pub get_model : String → Option M
  pub chat : M → String → String → Reply
  pub klines : Option (String → String → ℤ → Option (List (Kline F)))
  pub decode_config : String → Option (StrategyConfig F)
  pub json : Json F
  pub to_json : List (DecisionAction F) → String
  pub system_prompt : StrategyConfig F → String
  pub user_context : F → List (ExchangePosition F) → Market F → String
  pub error_text : ParseError → String
  pub now : ℕ
  pub snapshot_id : String
  pub decision_id : String
  pub guard_moments : ℕ → Moment F
  pub moments : ℕ → Moment F

module _ {F : Type 0} ⦃f : Float64 F⦄ where
  module _ ⦃fm : Math F⦄ where
    -- One round over the time frames: candles that cannot be had, or are none, are passed over.
    abbrev pub with_frame :
        StrategyConfig F → Option String → Option (List (Kline F)) → Run (Market F) → Run (Market F)
    with_frame cfg label none rest = rest
    with_frame cfg label (some []) rest = rest
    with_frame cfg label (some (k ∷ ks)) rest =
        build_kline_context (k ∷ ks) cfg.indicators >>= λ lines.
        rest >>= λ r. some ((label, lines) ∷ r)

    unfoldable pub market_from :
        (String → Option (List (Kline F))) → StrategyConfig F → Bool → List String → Run (Market F)
    market_from fetch cfg several [] = some []
    market_from fetch cfg several (tf ∷ tfs) =
        with_frame cfg (if several then some tf else none) (fetch tf)
          (market_from fetch cfg several tfs)

    abbrev pub market :
        Option (String → String → ℤ → Option (List (Kline F)))
        → StrategyConfig F
        → List String
        → Run (Market F)
    market none cfg symbols = some []
    market (some klines) cfg [] = some []
    market (some klines) cfg (symbol ∷ symbols) =
        let tfs = timeframes cfg.indicators.klines in
        market_from (λ tf. klines symbol tf (count_of cfg.indicators.klines)) cfg
          (ltb 1 (length tfs)) tfs

  -- The record of a decision, before the model is asked.
  abbrev pub draft : ℕ → String → String → String → DecisionRecord F
  draft now trader_id system input = record {
    id = "";
    trader_id = trader_id;
    cycle_number = pos 0;
    timestamp = now;
    system_prompt = system;
    input_prompt = input;
    cot_trace = "";
    decision_json = "";
    raw_response = "";
    candidate_coins = none;
    decisions = [];
    execution_log = none;
    success = false;
    error_message = "";
    ai_request_duration_ms = pos 0;
  }

  module _ {C M : Type 0} where
    abbrev pub with_decisions :
        Setting F C M
        → Bool
        → String
        → List (DecisionAction F)
        → DecisionRecord F
        → DecisionRecord F
    with_decisions e success error acts d = record d {
      success = success;
      error_message = error;
      decisions = acts;
      execution_log = some (e.to_json acts);
    }

    abbrev pub parsed :
        Setting F C M
        → DecisionRecord F
        → Parsed (List (DecisionAction F))
        → List (DecisionAction F) × DecisionRecord F
    parsed e d (ok acts) = (acts, with_decisions e true "" acts d)
    parsed e d (err x) = ([], with_decisions e false (e.error_text x) safe_wait d)

    -- The actions that go on to the filter, none after a failure, and the record that is entered.
    unfoldable pub answered :
        Setting F C M → DecisionRecord F → Reply → List (DecisionAction F) × DecisionRecord F
    answered e d (failed msg) = ([], with_decisions e false msg safe_wait d)
    answered e d (content text ms) =
        parsed e (record d { raw_response = text; ai_request_duration_ms = ms })
          (parse_decision e.json (codes text))

    abbrev pub entered :
        Setting F C M
        → List (DecisionAction F) × DecisionRecord F
        → Store F
        → List (DecisionAction F) × Store F
    entered e (acts, d) s = (acts, add_decision e.decision_id d s)

    module _ ⦃fm : Math F⦄ where
      -- The cases of `e.models.GetModel`.
      abbrev pub decide_with :
          Setting F C M
          → Trader F
          → F
          → List (ExchangePosition F)
          → List String
          → Option M
          → Store F
          → Run (List (DecisionAction F) × Store F)
      decide_with e t balance positions symbols none s = some ([], s)
      decide_with e t balance positions symbols (some m) s =
          let cfg = strategy_config e.decode_config t s in
          market e.klines cfg symbols >>= λ shown.
          let system = e.system_prompt cfg in
          let input = e.user_context balance positions shown in
          some (entered e (answered e (draft e.now t.id system input) (e.chat m system input)) s)

      -- `decide` up to the filter, which `act_on` begins with.
      unfoldable pub decide :
          Setting F C M
          → Trader F
          → F
          → List (ExchangePosition F)
          → List String
          → Store F
          → Run (List (DecisionAction F) × Store F)
      decide e t balance positions symbols s =
          decide_with e t balance positions symbols (e.get_model t.model_config.model_id) s
