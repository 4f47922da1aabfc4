-- ===== src/Risk/Sizing.antt =====
-- services/risk_engine/app/sizing.py: fixed-fractional position sizing. `none` is the exception that a
-- division by zero raises.
pub mod Bounds
use trade_mind.Prelude.{Bool, Option, none, some, if◌then◌else◌, ◌>>=◌}
use trade_mind.Domain.{RiskConfig}
use trade_mind.Decimal.{Decimal, dzero, done, ◌≦◌, ◌⋖◌, ◌⊕◌, ◌⊖◌, ◌⊗◌, ◌÷◌, dmax, dmin}
use trade_mind.Risk.Schemas.{SizingResult}

module _ {D : Type 0} ⦃d : Decimal D⦄ where
  -- `_clamp`
  abbrev pub clamp : D → D → D → D
  clamp value low high = dmax low (dmin value high)

  -- `_confidence_scale`
  unfoldable pub confidence_scale : D → RiskConfig D → Option D
  confidence_scale confidence config =
      let confidence_range = done ⊖ config.min_confidence in
      let scale = config.min_confidence_size_scale in
      if confidence_range ≦ dzero
      then some done
      else (◌÷◌ (confidence ⊖ config.min_confidence) confidence_range >>= λ raw.
          some (scale ⊕ (done ⊖ scale) ⊗ clamp raw dzero done))

  -- The stop's distance, clamped into the configured band.
  unfoldable pub stop_distance : D → D → RiskConfig D → Option D
  stop_distance entry_price atr_14 config = ◌÷◌ atr_14 entry_price >>= λ ratio.
      some (
        clamp (ratio ⊗ config.atr_stop_multiplier) config.min_stop_loss_pct
          config.max_stop_loss_pct)

  -- The size before the confidence scale: the budget over the stop, the position cap and the free
  -- balance, whichever is least.
  abbrev pub capped_size : D → D → D → RiskConfig D → D
  capped_size raw_size_usdt equity_usdt free_balance_usdt config =
      dmin (dmin raw_size_usdt (equity_usdt ⊗ config.max_position_pct)) free_balance_usdt

  unfoldable pub compute_sizing : D → D → D → D → D → RiskConfig D → Option (SizingResult D)
  compute_sizing equity_usdt free_balance_usdt entry_price atr_14 confidence config =
      let risk_amount_usdt = equity_usdt ⊗ config.risk_per_trade_pct in
      stop_distance entry_price atr_14 config >>= λ stop_distance_pct.
      ◌÷◌ risk_amount_usdt stop_distance_pct >>= λ raw_size_usdt.
      confidence_scale confidence config >>= λ scale.
      let position_size_usdt =
        dmax (capped_size raw_size_usdt equity_usdt free_balance_usdt config) dzero ⊗ scale in
      (if dzero ⋖ entry_price then ◌÷◌ position_size_usdt entry_price else some dzero)
      >>= λ position_size_base. some (record {
        position_size_usdt = position_size_usdt;
        position_size_base = position_size_base;
        stop_loss_price = entry_price ⊗ (done ⊖ stop_distance_pct);
        stop_distance_pct = stop_distance_pct;
        risk_pct_applied = config.risk_per_trade_pct;
        nominal_risk_amount_usdt = risk_amount_usdt;
        actual_risk_usdt = position_size_usdt ⊗ stop_distance_pct;
      })
