-- ===== src/Trader/Cycle/Outcome.antt =====
-- How a cycle can end: which cycles trade, and what is recorded of them.
use fxcore.Prelude.{
  ◌≤◌, ◌≡◌, ◌⊎◌, refl, ap, subst, ◌∙◌, true, false, Option, none, some, String, List, [], ◌∷◌, ◌++◌,
  arith, str_eq, if◌then◌else◌, Option-cases, inl, inr,
}
use fxcore.Prelude.Dict.{lookup}
use fxcore.Prelude.Float.{Float64}
use fxcore.Prelude.Text.{codes}
use fxcore.Model.Chat.{Reply, content, failed}
use fxcore.Model.Trader.{Trader}
use fxcore.Model.Decision.{DecisionAction, RiskControl, ExchangePosition, DecisionRecord}
use fxcore.Kernel.Parse.{Parsed, ok, err, parse_decision, safe_wait}
use fxcore.Kernel.Indicators.{Math}
use fxcore.Store.{Store}
use fxcore.Store.Strategies.{get_strategy}
use fxcore.Store.Positions.{list_positions_by_trader}
use fxcore.Store.Decisions.{add_decision, add_equity_snapshot}
use fxcore.Trader.Risk.{filter_by_risk}
use fxcore.Trader.Execute.{act_on, reset_daily_pnl}
use fxcore.Trader.Execute.Bounded.{open_count, open_count-eq}
use fxcore.Trader.Config.{strategy_config, merged_opt, default_config, decoded, candidate_symbols}
use fxcore.Trader.Decide.{Setting, draft, parsed, answered, market, decide, entered}
use fxcore.Trader.Drawdown.{guard_closes, close_all}
use fxcore.Trader.Cycle.{
  snapshot_equity, with_account, adapter_for, run_cycle, acted, guarded, reached,
}
use fxcore.Trader.Cycle.Kept.{Untraded, reset-Kept, close_all-Kept, act_on-Kept}

module _ {F C M : Type 0} ⦃f : Float64 F⦄ (e : Setting F C M) where
  -- What becomes of the model's reply.
  abbrev Settled : DecisionRecord F → List (DecisionAction F) → Type 0
  Settled d acts =
      ((d.success ≡ true)
        × (parse_decision e.json (codes d.raw_response) ≡ ok d.decisions)
        × (acts ≡ d.decisions))
      ⊎ ((d.success ≡ false) × (d.decisions ≡ safe_wait) × (acts ≡ []))

  parsed-Settled :
      (d : DecisionRecord F)
      → let (acts, d') = parsed e d (parse_decision e.json (codes d.raw_response)) in
        Settled d' acts × (d'.trader_id ≡ d.trader_id)
  parsed-Settled d = at (parse_decision e.json (codes d.raw_response)) refl
    where
      at :
          (r : Parsed (List (DecisionAction F)))
          → parse_decision e.json (codes d.raw_response) ≡ r
          → let (acts, d') = parsed e d r in Settled d' acts × (d'.trader_id ≡ d.trader_id)
      at (ok acts) h = (inl (refl, h, refl), refl)
      at (err x) h = (inr (refl, refl, refl), refl)

  answered-Settled :
      (d : DecisionRecord F) (r : Reply)
      → let (acts, d') = answered e d r in Settled d' acts × (d'.trader_id ≡ d.trader_id)
  unfolding answered
  answered-Settled d (failed msg) = (inr (refl, refl, refl), refl)
  answered-Settled d (content text ms) =
      parsed-Settled (record d { raw_response = text; ai_request_duration_ms = ms })

module _ {F C M : Type 0} ⦃f : Float64 F⦄ (e : Setting F C M) (t : Trader F) where
  -- The four ways of a cycle. It is cut off before the model is asked; the guard closes positions; the
  -- model's failure is recorded; or its answer is recorded and acted on.
  pub data Outcome (s s' : Store F) : Type 0 where
    quiet : Untraded s s' → s'.decisions ≡ s.decisions → Outcome s s'
    closing :
        s'.decisions ≡ s.decisions
        → s'.orders ≡ s.orders
        → open_count t.id s' ≤ open_count t.id s
        → Outcome s s'
    refused :
        (d : DecisionRecord F)
        → Untraded s s'
        → s'.decisions ≡ s.decisions ++ (d ∷ [])
        → d.trader_id ≡ t.id
        → d.success ≡ false
        → d.decisions ≡ safe_wait
        → Outcome s s'
    acting :
        (d : DecisionRecord F) (s1 : Store F) (balance : F)
        → Untraded s s1
        → s'.decisions ≡ s.decisions ++ (d ∷ [])
        → d.trader_id ≡ t.id
        → d.success ≡ true
        → parse_decision e.json (codes d.raw_response) ≡ ok d.decisions
        → s'
          ≡ act_on e.moments t.id
              (strategy_config e.decode_config t s).risk_control
              balance
              d.decisions
              s1
        → Outcome s s'

  pub strategy_config-same :
      (s s1 : Store F)
      → s1.strategies ≡ s.strategies
      → strategy_config e.decode_config t s1 ≡ strategy_config e.decode_config t s
  unfolding strategy_config get_strategy
  strategy_config-same s s1 h =
      ap (λ m. merged_opt default_config (decoded e.decode_config (lookup t.strategy_id m))) h

  act_on-nil :
      (rc : RiskControl F) (balance : F) (s : Store F) → act_on e.moments t.id rc balance [] s ≡ s
  unfolding act_on filter_by_risk
  act_on-nil rc balance s = refl

  pub open_count-same :
      (s s1 : Store F) → s1.positions ≡ s.positions → open_count t.id s1 ≡ open_count t.id s
  unfolding list_positions_by_trader
  open_count-same s s1 h = rw h refl

  module _ ⦃fm : Math F⦄ where
    -- The model's reply is entered, and its actions are carried out.
    entered-Outcome :
        (s s1 : Store F) (balance : F) (acts : List (DecisionAction F)) (d : DecisionRecord F)
        → Untraded s s1
        → s1.decisions ≡ s.decisions
        → d.trader_id ≡ t.id
        → Settled e d acts
        → Outcome s (acted e t balance (entered e (acts, d) s1))
    unfolding add_decision
    entered-Outcome s s1 balance acts d (p, o, st) k id (inl (good, text, same)) =
        let d' : DecisionRecord F = record d {
          id = if str_eq d.id "" then e.decision_id else d.id;
        } in
        let s2 = add_decision e.decision_id d s1 in
        let rc = (strategy_config e.decode_config t s2).risk_control in
        acting d' s2 balance (p, o, st)
          ((act_on-Kept e.moments t.id rc balance acts s2).0 ∙ ap (λ ds. ds ++ (d' ∷ [])) k) id good
          text (rw (strategy_config-same s s2 st, same) refl)
    entered-Outcome s s1 balance acts d u k id (inr (bad, waits, none_left)) =
        let d' : DecisionRecord F = record d {
          id = if str_eq d.id "" then e.decision_id else d.id;
        } in
        let s2 = add_decision e.decision_id d s1 in
        let rc = (strategy_config e.decode_config t s2).risk_control in
        subst (Outcome s) {x = s2} {y = acted e t balance (entered e (acts, d) s1)}
          (rw (none_left, act_on-nil rc balance s2) refl)
          (refused d' u (ap (λ ds. ds ++ (d' ∷ [])) k) id bad waits)

    guarded-Outcome :
        (s s1 s' : Store F) (balance : F) (positions : List (ExchangePosition F))
        (victims : List String)
        → Untraded s s1
        → s1.decisions ≡ s.decisions
        → guarded e t balance positions victims s1 ≡ some s'
        → Outcome s s'
    unfolding decide
    guarded-Outcome s s1 s' balance positions (v ∷ victims) (p, o, st) k h =
        let closes = guard_closes (v ∷ victims) positions in
        let ((d, _), o', n) = close_all-Kept e.guard_moments 0 t.id closes s1 in
        subst (Outcome s) {x = close_all e.guard_moments 0 t.id closes s1} {y = s'} (cc) (
          closing (d ∙ k) (o' ∙ o) (
            omega (
              arith,
              n,
              open_count-eq t.id (close_all e.guard_moments 0 t.id closes s1),
              open_count-eq t.id s1,
              open_count-same s s1 p,
            )))
    guarded-Outcome s s1 s' balance positions [] u k h =
        let symbols = candidate_symbols e.decode_config t s1 in
        elim (Option-cases (e.get_model t.model_config.model_id)) [
          | inl p ↦
              let rc = (strategy_config e.decode_config t s1).risk_control in
              let h' : some (act_on e.moments t.id rc balance [] s1) ≡ some s' = rw p at h in
              subst (Outcome s) {x = s1} {y = s'} (cc (act_on-nil rc balance s1)) (quiet u k)
          | inr (m, p) ↦
              elim (Option-cases (market e.klines (strategy_config e.decode_config t s1) symbols)) [
                | inl q ↦ cc (rw (p, q) at h)
                | inr (shown, q) ↦
                    let cfg = strategy_config e.decode_config t s1 in
                    let system = e.system_prompt cfg in
                    let input = e.user_context balance positions shown in
                    let before = draft e.now t.id system input in
                    let (settled, id) = answered-Settled e before (e.chat m system input) in
                    let (acts, d) = answered e before (e.chat m system input) in
                    subst (Outcome s) {x = acted e t balance (entered e (acts, d) s1)} {y = s'}
                      (cc (rw (p, q) at h)) (entered-Outcome s s1 balance acts d u k id settled)
              ]
        ]

    with_account-Outcome :
        (s s1 s' : Store F) (balance : F) (positions : List (ExchangePosition F))
        → Untraded s s1
        → s1.decisions ≡ s.decisions
        → with_account e t balance positions s1 ≡ some s'
        → Outcome s s'
    unfolding with_account snapshot_equity add_equity_snapshot
    with_account-Outcome s s1 s' balance positions u k h =
        guarded-Outcome s _ s' balance positions _ u k h

    reached-Outcome :
        (s s1 s' : Store F) (balance : Option F) (positions : Option (List (ExchangePosition F)))
        → Untraded s s1
        → s1.decisions ≡ s.decisions
        → reached e t balance positions s1 ≡ some s'
        → Outcome s s'
    reached-Outcome s s1 s' (some b) (some ps) u k h = with_account-Outcome s s1 s' b ps u k h
    reached-Outcome s s1 s' none ps u k h = subst (Outcome s) {x = s1} {y = s'} (cc) (quiet u k)
    reached-Outcome s s1 s' (some b) none u k h =
        subst (Outcome s) {x = s1} {y = s'} (cc) (quiet u k)

    -- A cycle that ends, ends in one of four ways. It is cut off, with nothing traded and no
    -- decision recorded. It closes positions for the guard, with no order and no decision entered
    -- and no more positions open. It is refused, with nothing traded and one failed record, which
    -- says to wait. Or it acts, with one record of success, whose text is read as its actions,
    -- which are then acted on.
    pub run_cycle-Outcome : (s s' : Store F) → run_cycle e t s ≡ some s' → Outcome s s'
    unfolding run_cycle
    run_cycle-Outcome s s' h =
        let (u, k) = reset-Kept e.now t.id s in
        let s0 = reset_daily_pnl e.now t.id s in
        elim (Option-cases (adapter_for e t)) [
          | inl p ↦ subst (Outcome s) {x = s0} {y = s'} (cc (rw p at h)) (quiet u k)
          | inr (a, p) ↦ reached-Outcome s s0 s' a.balance a.positions u k (rw p at h)
        ]
