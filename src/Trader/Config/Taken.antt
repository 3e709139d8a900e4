-- ===== src/Trader/Config/Taken.antt =====
-- What of a strategy reaches a trader.
use fxcore.Prelude.{◌≡◌, refl, true, String, Option, none, some, arith}
use fxcore.Prelude.Int.{pos, ltb_ℤ}
use fxcore.Prelude.Float.{Float64}
use fxcore.Model.Trader.{Trader}
use fxcore.Model.Strategy.{StrategyConfig}
use fxcore.Store.{Store}
use fxcore.Store.Strategies.{get_strategy}
use fxcore.Trader.Config.{merged_opt, decoded, default_config, strategy_config}

module _ {F : Type 0} ⦃f : Float64 F⦄ where
  -- Whatever a strategy holds, the limit on positions that its traders work under is above 0; and no
  -- prompt variant and no language of the strategy reaches them.
  pub strategy_config_lem :
      (decode : String → Option (StrategyConfig F)) (t : Trader F) (s : Store F)
      → let cfg = strategy_config decode t s in
        (ltb_ℤ (pos 0) cfg.risk_control.max_positions ≡ true)
        × (cfg.prompt_variant ≡ "")
        × (cfg.language ≡ "zh")
  unfolding strategy_config
  strategy_config_lem decode t s = at (decoded decode (get_strategy t.strategy_id s))
    where
      at :
          (o : Option (StrategyConfig F))
          → (ltb_ℤ (pos 0) (merged_opt default_config o).risk_control.max_positions ≡ true)
            × ((merged_opt default_config o).prompt_variant ≡ "")
            × ((merged_opt default_config o).language ≡ "zh")
      at none = (refl, refl, refl)
      at (some sc) = (ground arith, refl, refl)
