-- ===== src/Risk/Sizing/Bounds.antt =====
-- The bounds that a computed size keeps.
use trade_mind.Prelude.{true, false, ◌≡◌, ◌≢◌, inl, inr, none, some, arith, Option-cases}
use trade_mind.Domain.{RiskConfig}
use trade_mind.Decimal.{Decimal, dzero, done, ◌⋖◌, ◌⊕◌, ◌⊖◌, ◌⊗◌, dmax, dmin, is_zero}
use trade_mind.Decimal.Order.{
  ◌≼◌, IsOrdered, dmax_bounds, dmin_bounds, dmax-le, mul-le_self, le-add_right,
}
use trade_mind.Risk.Schemas.{SizingResult}
use trade_mind.Risk.Sizing.{clamp, confidence_scale, stop_distance, capped_size, compute_sizing}

-- What sizing relies on in the configuration: fractions are fractions, and the stop band is one.
pub record IsSane {D : Type 0} ⦃d : Decimal D⦄ (config : RiskConfig D) : Type 0 where
  pub risk_nonneg : dzero ≼ config.risk_per_trade_pct
  pub cap_nonneg : dzero ≼ config.max_position_pct
  pub scale_nonneg : dzero ≼ config.min_confidence_size_scale
  pub scale-le-one : config.min_confidence_size_scale ≼ done
  pub stop_nonneg : dzero ≼ config.min_stop_loss_pct
  pub stop_band : config.min_stop_loss_pct ≼ config.max_stop_loss_pct
  pub stop-le-one : config.max_stop_loss_pct ≼ done

module _ {D : Type 0} ⦃d : Decimal D⦄ (laws : IsOrdered D) where
  open laws use {
    le_refl, le_trans, zero-le-one, add_mono, sub_nonneg, add-sub-le-one, mul_nonneg, mul_mono,
    mul-one, quot_nonneg,
  }

  pub clamp_bounds :
      (v low high : D) → low ≼ high → (low ≼ clamp v low high) × (clamp v low high ≼ high)
  clamp_bounds v low high h = (
    (dmax_bounds laws low (dmin v high)).0,
    dmax-le laws low (dmin v high) high h (dmin_bounds laws v high).1,
  )

  scaled_bounds :
      (s r : D)
      → dzero ≼ s
      → s ≼ done
      → dzero ≼ r
      → r ≼ done
      → (s ≼ s ⊕ (done ⊖ s) ⊗ r) × (s ⊕ (done ⊖ s) ⊗ r ≼ done)
  scaled_bounds s r hs ks hr kr =
      let gap : dzero ≼ done ⊖ s = sub_nonneg s done ks in
      let part : (done ⊖ s) ⊗ r ≼ done ⊖ s = mul-le_self laws (done ⊖ s) r gap hr kr in
      (
        le-add_right laws s ((done ⊖ s) ⊗ r) (mul_nonneg _ _ gap hr),
        le_trans _ _ _ (add_mono s s _ _ (le_refl s) part) (add-sub-le-one s hs ks),
      )

  -- For ordered decimals and a sane configuration, a confidence scale that is computed lies between
  -- the configured minimum and one.
  pub confidence_scale_bounds :
      (confidence : D) (config : RiskConfig D) {s : D}
      → IsSane config
      → confidence_scale confidence config ≡ some s
      → (config.min_confidence_size_scale ≼ s) × (s ≼ done)
  unfolding confidence_scale
  confidence_scale_bounds confidence config {s} v e =
      let range = done ⊖ config.min_confidence in
      let ratio = clamp (d.quot (confidence ⊖ config.min_confidence) range) dzero done in
      let (low, high) =
        clamp_bounds (d.quot (confidence ⊖ config.min_confidence) range) dzero done zero-le-one in
      let b =
        scaled_bounds config.min_confidence_size_scale ratio v.scale_nonneg v.scale-le-one low
          high in
      ground (arith, le_refl done, b)

  -- For ordered decimals and a sane configuration, a stop's distance that is computed lies in the
  -- configured band.
  pub stop_distance_bounds :
      (price atr : D) (config : RiskConfig D) {s : D}
      → IsSane config
      → stop_distance price atr config ≡ some s
      → (config.min_stop_loss_pct ≼ s) × (s ≼ config.max_stop_loss_pct)
  unfolding stop_distance
  stop_distance_bounds price atr config {s} v e =
      let b =
        clamp_bounds (d.quot atr price ⊗ config.atr_stop_multiplier) config.min_stop_loss_pct
          config.max_stop_loss_pct v.stop_band in
      ground (arith, b)

-- What a successful sizing has computed on the way.
pub record Parts {D : Type 0} ⦃d : Decimal D⦄ (equity free price atr confidence : D)
    (config : RiskConfig D) (r : SizingResult D) : Type 0 where
  pub scale : D
  pub stop_eq : stop_distance price atr config ≡ some r.stop_distance_pct
  pub scale_eq : confidence_scale confidence config ≡ some scale
  pub size_eq :
      r.position_size_usdt
      ≡ dmax
          (capped_size
            (d.quot (equity ⊗ config.risk_per_trade_pct) r.stop_distance_pct)
            equity
            free
            config)
          dzero
        ⊗ scale
  pub actual_eq : r.actual_risk_usdt ≡ r.position_size_usdt ⊗ r.stop_distance_pct
  pub stop_price_eq : r.stop_loss_price ≡ price ⊗ (done ⊖ r.stop_distance_pct)
  pub nominal_eq : r.nominal_risk_amount_usdt ≡ equity ⊗ config.risk_per_trade_pct

module _ {D : Type 0} ⦃d : Decimal D⦄ where
  pub compute_sizing-Parts :
      (equity free price atr confidence : D) (config : RiskConfig D) {r : SizingResult D}
      → compute_sizing equity free price atr confidence config ≡ some r
      → Parts equity free price atr confidence config r
  unfolding compute_sizing
  compute_sizing-Parts equity free price atr confidence config {r} e =
      elim (Option-cases (confidence_scale confidence config)) [
        | inl no_scale ↦ ground arith
        | inr (s, es) ↦ record {
          scale = s;
          stop_eq = ground arith;
          scale_eq = es;
          size_eq = ground arith;
          actual_eq = ground arith;
          stop_price_eq = ground arith;
          nominal_eq = ground arith;
        }
      ]

-- The limits on one sized position.
pub record IsWithinLimits {D : Type 0} ⦃d : Decimal D⦄ (equity free price : D)
    (config : RiskConfig D) (r : SizingResult D) : Type 0 where
  pub size_nonneg : dzero ≼ r.position_size_usdt
  pub size-le-free : r.position_size_usdt ≼ free
  pub size-le-cap : r.position_size_usdt ≼ equity ⊗ config.max_position_pct
  pub size-le-budget :
      r.position_size_usdt ≼ d.quot (equity ⊗ config.risk_per_trade_pct) r.stop_distance_pct
  pub stop-ge-min : config.min_stop_loss_pct ≼ r.stop_distance_pct
  pub stop-le-max : r.stop_distance_pct ≼ config.max_stop_loss_pct
  pub stop_price_nonneg : dzero ≼ r.stop_loss_price
  pub stop_price-le : r.stop_loss_price ≼ price
  pub actual_nonneg : dzero ≼ r.actual_risk_usdt
  pub actual-le-size : r.actual_risk_usdt ≼ r.position_size_usdt

module _ {D : Type 0} ⦃d : Decimal D⦄ (laws : IsOrdered D) where
  open laws use {
    le_refl, le_trans, mul_nonneg, mul_mono, mul-one, quot_nonneg, sub_nonneg, sub-le_self,
  }

  -- A scaled, floored amount stays below every bound that is not negative.
  scaled-le : (x s b : D) → x ≼ b → dzero ≼ b → dzero ≼ s → s ≼ done → dmax x dzero ⊗ s ≼ b
  scaled-le x s b h hb hs ks =
      le_trans _ _ _ (mul-le_self laws (dmax x dzero) s (dmax_bounds laws x dzero).1 hs ks)
        (dmax-le laws x dzero b h hb)

  -- For ordered decimals, a sane configuration, an account that is not in debt and a price that is
  -- not negative, a size that is computed is not negative and exceeds neither the free balance, nor
  -- the position cap, nor the budget over the stop; the stop's distance lies in the configured
  -- band, the stop's price between zero and the entry price, and the risk at stake between zero and
  -- the size.
  pub compute_sizing-IsWithinLimits :
      (equity free price atr confidence : D) (config : RiskConfig D) {r : SizingResult D}
      → IsSane config
      → dzero ≼ equity
      → dzero ≼ free
      → dzero ≼ price
      → compute_sizing equity free price atr confidence config ≡ some r
      → IsWithinLimits equity free price config r
  compute_sizing-IsWithinLimits equity free price atr confidence config {r} v he hf hp e =
      let p = compute_sizing-Parts equity free price atr confidence config e in
      let sb = confidence_scale_bounds laws confidence config v p.scale_eq in
      let stop = stop_distance_bounds laws price atr config v p.stop_eq in
      let s_nonneg = le_trans _ _ _ v.scale_nonneg sb.0 in
      let stop_nonneg = le_trans _ _ _ v.stop_nonneg stop.0 in
      let stop_le_one = le_trans _ _ _ stop.1 v.stop-le-one in
      let budget = d.quot (equity ⊗ config.risk_per_trade_pct) r.stop_distance_pct in
      let budget_nonneg = quot_nonneg _ _ (mul_nonneg _ _ he v.risk_nonneg) stop_nonneg in
      let cap_nonneg = mul_nonneg _ _ he v.cap_nonneg in
      let capped = capped_size budget equity free config in
      let inner = dmin_bounds laws budget (equity ⊗ config.max_position_pct) in
      let outer = dmin_bounds laws (dmin budget (equity ⊗ config.max_position_pct)) free in
      let size_nonneg : dzero ≼ dmax capped dzero ⊗ p.scale =
        mul_nonneg _ _ (dmax_bounds laws capped dzero).1 s_nonneg in
      let bounded = λ (b : D) (h : capped ≼ b) (hb : dzero ≼ b).
        scaled-le capped p.scale b h hb s_nonneg sb.1 in
      let size0 : dzero ≼ r.position_size_usdt = rw (p.size_eq) size_nonneg in
      record {
        size_nonneg = size0;
        size-le-free = rw (p.size_eq) (bounded free outer.1 hf);
        size-le-cap = rw (p.size_eq) (bounded _ (le_trans _ _ _ outer.0 inner.1) cap_nonneg);
        size-le-budget = rw (p.size_eq) (bounded _ (le_trans _ _ _ outer.0 inner.0) budget_nonneg);
        stop-ge-min = stop.0;
        stop-le-max = stop.1;
        stop_price_nonneg = rw (p.stop_price_eq) (mul_nonneg _ _ hp (sub_nonneg _ _ stop_le_one));
        stop_price-le = rw (p.stop_price_eq) (
            mul-le_self laws _ _ hp (sub_nonneg _ _ stop_le_one)
              (sub-le_self _ _ stop_nonneg laws.zero-le-one));
        actual_nonneg = rw (p.actual_eq) (mul_nonneg _ _ size0 stop_nonneg);
        actual-le-size = rw (p.actual_eq) (mul-le_self laws _ _ size0 stop_nonneg stop_le_one);
      }

  positive_stop : (low x : D) → (dzero ⋖ low) ≡ true → low ≼ x → is_zero x ≡ false
  positive_stop low x h k = ground (arith, le_trans low x dzero k)

  -- For ordered decimals, sizing raises no exception when the price and the least stop are positive
  -- and the least stop does not exceed the greatest.
  pub compute_sizing-ne-none :
      (equity free price atr confidence : D) (config : RiskConfig D)
      → config.min_stop_loss_pct ≼ config.max_stop_loss_pct
      → (dzero ⋖ price) ≡ true
      → (dzero ⋖ config.min_stop_loss_pct) ≡ true
      → compute_sizing equity free price atr confidence config ≢ none
  unfolding compute_sizing stop_distance confidence_scale
  compute_sizing-ne-none equity free price atr confidence config band hp hs =
      let stop =
        clamp (d.quot atr price ⊗ config.atr_stop_multiplier) config.min_stop_loss_pct
          config.max_stop_loss_pct in
      let low =
        (clamp_bounds laws (d.quot atr price ⊗ config.atr_stop_multiplier) config.min_stop_loss_pct
          config.max_stop_loss_pct band).0 in
      let nonzero : is_zero stop ≡ false = positive_stop config.min_stop_loss_pct stop hs low in
      ground arith

  -- At a price of zero sizing raises an exception, whatever the account, the ATR, the confidence
  -- and the configuration are.
  pub compute_sizing-zero :
      (equity free price atr confidence : D) (config : RiskConfig D)
      → is_zero price ≡ true
      → compute_sizing equity free price atr confidence config ≡ none
  unfolding compute_sizing stop_distance
  compute_sizing-zero equity free price atr confidence config h = ground arith
