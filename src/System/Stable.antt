-- ===== src/System/Stable.antt =====
-- What an invariant of the positions and the audit log must withstand: the elementary writes that the
-- services are made of.
use trade_mind.Prelude.{
  ◌≡◌, ◌∙◌, refl, Bool, true, false, ◌||◌, ◌&&◌, [], ◌∷◌, ◌++◌, String, is_some,
}
use trade_mind.Domain.{is_open_status, is_reconciliation_required}
use trade_mind.Decimal.{Decimal}
use trade_mind.Store.{OrderRow, PositionRow, AuditRow, World}
use trade_mind.Risk.Orders.{update_where}
use trade_mind.Risk.Reconcile.{alert_once}

-- A position is open, or has the price and the time of its close.
abbrev pub is_complete : {D : Type 0} → PositionRow D → Bool
is_complete p = is_open_status p.status || (is_some p.exit_price && is_some p.closed_at)

abbrev pub Completes : {D : Type 0} → (PositionRow D → PositionRow D) → Type 0
Completes {D} f = (p : PositionRow D) → is_complete p ≡ true → is_complete (f p) ≡ true

module _ {D : Type 0} ⦃d : Decimal D⦄ where
  -- Only the positions and the audit log matter. A position that is added is open, one that is changed
  -- keeps its completeness, and an event is no alert, unless it is written once for a trace.
  pub record IsStable (P : World D → Type 0) : Type 0 where
    pub frame : (w w' : World D) → w'.positions ≡ w.positions → w'.audit ≡ w.audit → P w → P w'
    pub audits :
        (w w' : World D) (a : AuditRow D)
        → is_reconciliation_required a.event_type ≡ false
        → w'.positions ≡ w.positions
        → w'.audit ≡ w.audit ++ (a ∷ [])
        → P w
        → P w'
    pub alerts : (o : OrderRow D) (reason : String) (w : World D) → P w → P (alert_once o reason w)
    pub opens :
        (w w' : World D) (p : PositionRow D)
        → is_open_status p.status ≡ true
        → w'.positions ≡ w.positions ++ (p ∷ [])
        → w'.audit ≡ w.audit
        → P w
        → P w'
    pub updates :
        (w w' : World D) (test : PositionRow D → Bool) (f : PositionRow D → PositionRow D)
        → Completes f
        → w'.positions ≡ update_where test f w.positions
        → w'.audit ≡ w.audit
        → P w
        → P w'

  -- What a webhook leaves alone: all but the orders, the positions, the audit log and the ids.
  abbrev pub IsKept : World D → World D → Type 0
  IsKept w w' =
      (w'.calls ≡ w.calls)
      × (w'.decisions ≡ w.decisions)
      × (w'.signals ≡ w.signals)
      × (w'.system ≡ w.system)
      × (w'.killswitch_flag ≡ w.killswitch_flag)
      × (w'.decision_keys ≡ w.decision_keys)
      × (w'.balance ≡ w.balance)

  pub IsKept-refl : (w : World D) → IsKept w w
  IsKept-refl w = (refl, refl, refl, refl, refl, refl, refl)

  pub IsKept-trans : (u v w : World D) → IsKept u v → IsKept v w → IsKept u w
  IsKept-trans u v w (a, b, c, e, f, g, h) (a', b', c', e', f', g', h') =
      (a' ∙ a, b' ∙ b, c' ∙ c, e' ∙ e, f' ∙ f, g' ∙ g, h' ∙ h)

  -- A property that withstands the writes that leave all this alone.
  pub record IsFirm (P : World D → Type 0) : Type 0 where
    pub frame :
        (w w' : World D)
        → w'.positions ≡ w.positions
        → w'.audit ≡ w.audit
        → IsKept w w'
        → P w
        → P w'
    pub audits :
        (w w' : World D) (a : AuditRow D)
        → is_reconciliation_required a.event_type ≡ false
        → w'.positions ≡ w.positions
        → w'.audit ≡ w.audit ++ (a ∷ [])
        → IsKept w w'
        → P w
        → P w'
    pub opens :
        (w w' : World D) (p : PositionRow D)
        → is_open_status p.status ≡ true
        → w'.positions ≡ w.positions ++ (p ∷ [])
        → w'.audit ≡ w.audit
        → IsKept w w'
        → P w
        → P w'
    pub updates :
        (w w' : World D) (test : PositionRow D → Bool) (f : PositionRow D → PositionRow D)
        → Completes f
        → w'.positions ≡ update_where test f w.positions
        → w'.audit ≡ w.audit
        → IsKept w w'
        → P w
        → P w'

  pub IsStable-IsFirm : (P : World D → Type 0) → IsStable P → IsFirm P
  IsStable-IsFirm P s = record {
    frame = λ w w' p a _ h. s.frame w w' p a h;
    audits = λ w w' x q p a _ h. s.audits w w' x q p a h;
    opens = λ w w' x q p a _ h. s.opens w w' x q p a h;
    updates = λ w w' t f c p a _ h. s.updates w w' t f c p a h;
  }
