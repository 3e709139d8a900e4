-- ===== src/Backtest/Loop.antt =====
-- internal/backtest/replay.go: the loop of a run. One turn is what the loop does at one tick, with no
-- call on the run in the midst of it. The candles, the model's answers, the prompt and the clock are
-- arguments. The state is that of a run that the engine holds, with the record that the store has of it.
pub mod Steady
pub mod Ends
use fxcore.Prelude.{
  ℕ, zero, suc, ◌+◌, ◌-◌, ◌%◌, Bool, true, false, ◌&&◌, ◌||◌, not, Option, none, some, String,
  str_eq, List, [], ◌∷◌, ◌++◌, if◌then◌else◌, ltb, ◌==◌, map, is_some,
}
use fxcore.Prelude.Int.{ℤ, pos, ◌+ℤ◌, leb_ℤ, wrap64}
use fxcore.Prelude.Float.{Float64}
use fxcore.Prelude.Dict.{Dict}
use fxcore.Prelude.Text.{codes}
use fxcore.Model.Chat.{Reply, content, failed}
use fxcore.Model.Decision.{DecisionAction, DecisionRecord}
use fxcore.Model.User.{AiModel}
use fxcore.Kernel.Parse.{Json, ParseError, Parsed, ok, err, parse_decision, safe_wait}
use fxcore.Backtest.{
  RunState, is_running, is_paused, BtPosition, Run, BacktestRun, BacktestTrade, Config,
}
use fxcore.Backtest.Setup.{cycle_seconds}
use fxcore.Backtest.Control.{max_drawdown, synced_record}
use fxcore.Backtest.Account.{Kline, Scene, execute_actions, liquidate_all}
use fxcore.Backtest.Replaying.{
  BacktestEquity, BacktestDecision, Replay, is_due, unrealized_of, drawdown_of, snapshot, written,
  synced, finish, begun,
}

-- What a tick meets: whether the context is cancelled, the time in nanoseconds, the models of the
-- store, in its order, and their settings, and what is answered for a symbol.
pub record Beat (F M : Type 0) : Type 0 where
  pub cancelled : Bool
  pub now : ℕ
  pub models : List AiModel
  pub get_model : String → Option M
  pub klines : String → Option (List (Kline F))
  pub chat : M → String → Reply
  pub prompt : Run F → String → List (Kline F) → String
  pub json : Json F
  pub to_json : List (DecisionAction F) → String
  pub payload : DecisionRecord F → String
  pub error_text : ParseError → String
  pub failure : String → String

module _ {M : Type 0} where
  -- The first model that is there, has no error and has settings.
  unfoldable pub pick_model : (String → Option M) → List AiModel → Option M
  pick_model get [] = none
  pick_model get (m ∷ ms) = elim (is_some m.deleted_at || str_eq m.status "error") [
    | true ↦ pick_model get ms
    | false ↦ elim (get m.id) [ none ↦ pick_model get ms | some c ↦ some c ]
  ]

module _ {F : Type 0} ⦃f : Float64 F⦄ where
  abbrev nil : F
  nil = f.dec 0 0

  abbrev pub record_of :
      String
      → ℕ
      → ℕ
      → String
      → Bool
      → String
      → String
      → ℤ
      → List (DecisionAction F)
      → Option String
      → DecisionRecord F
  record_of run_id cycle now prompt success error raw ms acts log = record {
    id = "";
    trader_id = run_id;
    cycle_number = pos cycle;
    timestamp = now;
    system_prompt = prompt;
    input_prompt = "";
    cot_trace = "";
    decision_json = "";
    raw_response = raw;
    candidate_coins = none;
    decisions = acts;
    execution_log = log;
    success = success;
    error_message = error;
    ai_request_duration_ms = ms;
  }

  module _ {M : Type 0} where
    abbrev pub parsed :
        Beat F M → Parsed (List (DecisionAction F)) → Bool × String × List (DecisionAction F)
    parsed b (ok acts) = (true, "", acts)
    parsed b (err x) = (false, b.error_text x, safe_wait)

    -- Success, the error, the raw text, the milliseconds and the actions.
    unfoldable pub answered :
        Beat F M → Reply → Bool × String × String × ℤ × List (DecisionAction F)
    answered b (failed msg) = (false, msg, "", pos 0, safe_wait)
    answered b (content text ms) =
        let (good, error, acts) = parsed b (parse_decision b.json (codes text)) in
        (good, error, text, ms, acts)

    abbrev pub decided :
        Beat F M → String → ℕ → String → List (Kline F) → Option M → Replay F → Replay F
    decided b run_id cycle symbol ks none s = s
    decided b run_id cycle symbol ks (some m) s =
        let prompt = b.prompt s.run symbol ks in
        let (good, error, raw, ms, acts) = answered b (b.chat m prompt) in
        let d =
          record_of run_id cycle b.now prompt good error raw ms acts (some (b.to_json acts)) in
        let scene : Scene F = record {
          run_id = run_id;
          now = b.now;
          symbol = symbol;
          klines = ks;
          cycle = cycle;
        } in
        let (r, ts) = execute_actions scene acts (s.run, s.trades) in
        record s {
          run = r;
          trades = ts;
          decisions =
              s.decisions
              ++ (record { run_id = run_id; cycle = cycle; payload = b.payload d } ∷ []);
        }

    abbrev pub on_symbol :
        Beat F M → String → ℕ → String → Option (List (Kline F)) → String → Replay F → Replay F
    on_symbol b run_id cycle symbol none failure s = record s {
      run = record (s.run) { last_error = failure };
    }
    on_symbol b run_id cycle symbol (some ks) failure s =
        decided b run_id cycle symbol ks (pick_model b.get_model b.models) s

    -- The loop over the symbols; with no call in between the run stays running.
    unfoldable pub on_symbols : Beat F M → String → ℕ → List String → Replay F → Replay F
    on_symbols b run_id cycle [] s = s
    on_symbols b run_id cycle (symbol ∷ symbols) s =
        on_symbols b run_id cycle symbols
          (on_symbol b run_id cycle symbol (b.klines symbol) (b.failure symbol) s)

    abbrev pub advanced : Beat F M → ℕ → ℤ → Replay F → Replay F
    advanced b cycle window_end s =
        let s' : Replay F = record s { window_start = window_end } in
        if is_due cycle b.now s.last_saved
        then record (synced b.now s') { last_saved = some b.now }
        else s'

    -- After the snapshot: the guard, the empty account, or the next window.
    unfoldable pub closed_off : Beat F M → String → ℕ → ℤ → Replay F → Replay F
    closed_off b run_id cycle window_end s =
        if f.lt (f.mul s.run.cfg.initial_balance (f.dec 105 2)) s.run.peak_equity
          && f.le (f.dec 40 0) (max_drawdown s.run)
        then (let (r, ts) = liquidate_all run_id b.now cycle "drawdown_guard" (s.run, s.trades) in
            finish b.now RunState.liquidated "drawdown guard: peak >5% profit, drawdown >=40%"
              (record s { run = r; trades = ts }))
        else if f.le s.run.equity nil
        then finish b.now RunState.liquidated "equity depleted" s
        else advanced b cycle window_end s

    -- A cycle, of which the number is counted up first.
    unfoldable pub on_cycle : Beat F M → String → ℕ → Replay F → Replay F
    on_cycle b run_id cycle s =
        let window_end = wrap64 (s.window_start +ℤ cycle_seconds s.run.cfg.cadence) in
        if leb_ℤ s.run.cfg.end_time s.window_start
        then finish b.now RunState.completed "" s
        else closed_off b run_id cycle window_end
            (snapshot run_id cycle window_end (on_symbols b run_id cycle s.run.cfg.symbols s))

    -- One turn of the loop.
    unfoldable pub turn : Beat F M → String → Replay F → Replay F
    turn b run_id s =
        if s.over
        then s
        else if b.cancelled
        then record (synced b.now s) { over = true }
        else if is_paused s.run.state
        then s
        else if not (is_running s.run.state)
        then record s { over = true }
        else on_cycle b run_id (s.run.cycle + 1)
            (record s { run = record (s.run) { cycle = s.run.cycle + 1 } })

    -- The i-th tick brings the i-th beat.
    unfoldable pub turns : (ℕ → Beat F M) → String → ℕ → ℕ → Replay F → Replay F
    turns beats run_id i zero s = s
    turns beats run_id i (suc n) s = turns beats run_id (i + 1) n (turn (beats i) run_id s)
