-- ===== src/Tests/Sizing.antt =====
-- Sizing a position of 100 with an account of 1000.
use trade_mind.Prelude.{◌≡◌, refl, some}
use trade_mind.Prelude.Int.{◌+ℤ◌, ◌-ℤ◌}
use trade_mind.Decimal.Fixed.{Fixed, fixed, Fixed-IsOrdered}
use trade_mind.Risk.Schemas.{SizingResult}
use trade_mind.Risk.Sizing.{compute_sizing, confidence_scale, stop_distance}
use trade_mind.Risk.Sizing.Bounds.{IsWithinLimits, compute_sizing-IsWithinLimits}
use trade_mind.Tests.Samples.{config, config-IsSane, units, cents}

-- Two ATRs are four percent, the cap of 200 binds, and a middling confidence takes three quarters.
abbrev sized : SizingResult Fixed
sized = record {
  position_size_usdt = units 150;
  position_size_base = cents 150;
  stop_loss_price = units 96;
  stop_distance_pct = cents 4;
  risk_pct_applied = cents 1;
  nominal_risk_amount_usdt = units 10;
  actual_risk_usdt = units 6;
}

sized_run :
    compute_sizing (units 1000) (units 900) (units 100) (units 2) (cents 80) config ≡ some sized
unfolding compute_sizing stop_distance confidence_scale ◌+ℤ◌ ◌-ℤ◌
sized_run = refl

compute_sizing-IsWithinLimits_example :
    IsWithinLimits (units 1000) (units 900) (units 100) config sized
compute_sizing-IsWithinLimits_example =
    compute_sizing-IsWithinLimits Fixed-IsOrdered (units 1000) (units 900) (units 100) (units 2)
      (cents 80) config config-IsSane refl refl refl sized_run

scale_run : confidence_scale (cents 80) config ≡ some (cents 75)
unfolding confidence_scale ◌+ℤ◌ ◌-ℤ◌
scale_run = refl

stop_run : stop_distance (units 100) (units 2) config ≡ some (cents 4)
unfolding stop_distance ◌+ℤ◌ ◌-ℤ◌
stop_run = refl
