-- ===== src/System/Histories.antt =====
-- One step of the system, by the service that takes it, and the states that steps reach.
use trade_mind.Prelude.{ℕ, ◌≡◌, Option, some, List, [], ◌∷◌, ◌++◌, String, refl, subst}
use trade_mind.Domain.{Time, RiskConfig}
use trade_mind.Decimal.{Decimal}
use trade_mind.Risk.Remote.{Freqtrade}
use trade_mind.Risk.Process.{Clock, process_signal}
use trade_mind.Risk.Reconcile.{reconcile_submitted_orders}
use trade_mind.Store.{SignalRow, World, enable, disable}
use trade_mind.Store.Laws.{Switch, apply}
use trade_mind.Webhooks.{FreqtradeWebhookPayload}
use trade_mind.Webhooks.Fills.{freqtrade_webhook}
use trade_mind.System.Stable.{IsStable, IsStable-IsFirm}
use trade_mind.System.Processing.{OnSome, process_signal-stable}
use trade_mind.System.Settling.{reconcile_submitted_orders-stable}
use trade_mind.System.Reporting.{freqtrade_webhook_all}

module _ {D : Type 0} ⦃d : Decimal D⦄ where
  -- The scheduler writes a signal; the risk engine processes one, if nothing is raised; a webhook is
  -- accepted; orders are reconciled; the kill switch is changed; an idempotency key lapses. What
  -- Freqtrade answers, the configuration and the times are those of the step.
  pub data Step (w : World D) : World D → Type 0 where
    recorded : (s : SignalRow D) → Step w (record w { signals = w.signals ++ (s ∷ []) })
    processed :
        (ft : Freqtrade D) (config : RiskConfig D) (clock : Clock) (str : ℕ → String) (id : ℕ)
        {w' : World D}
        → process_signal ft config clock str id w ≡ some w'
        → Step w w'
    reported :
        (fromisoformat : String → Option Time) (config : RiskConfig D) (now : Time)
        (secret : String) (m : FreqtradeWebhookPayload D) {w' : World D}
        → freqtrade_webhook fromisoformat config now secret m w ≡ some w'
        → Step w w'
    reconciled :
        (ft : Freqtrade D) (now opened stale_after : Time)
        → Step w (reconcile_submitted_orders ft now opened stale_after w).0
    switched : (c : Switch) → Step w (apply c w)
    lapsed : (keys : List ℕ) → Step w (record w { decision_keys = keys })

  pub data Reach (w : World D) : World D → Type 0 where
    here : Reach w w
    next : {u v : World D} → Reach w u → Step u v → Reach w v

  module _ (P : World D → Type 0) (stable : IsStable P) where
    open stable use {frame, audits}

    of_some : {A : Type 0} (Q : A → Type 0) (x : Option A) {a : A} → x ≡ some a → OnSome Q x → Q a
    of_some Q x {a} e h = subst (OnSome Q) e h

    switched-stable : (c : Switch) (w : World D) → P w → P (apply c w)
    unfolding apply enable disable
    switched-stable (Switch.on reason by trace) w h = audits w _ _ refl refl refl h
    switched-stable (Switch.off now reason by trace) w h = audits w _ _ refl refl refl h

    Step-stable : {u v : World D} → Step u v → P u → P v
    Step-stable {u} (recorded s) h = frame u _ refl refl h
    Step-stable {u} (processed ft config clock str id e) h =
        of_some P _ e (process_signal-stable P stable ft config clock str id u h)
    Step-stable {u} (reported f config now secret m e) h =
        of_some P _ e (freqtrade_webhook_all P (IsStable-IsFirm P stable) f config now secret m u h)
    Step-stable {u} (reconciled ft now opened stale_after) h =
        reconcile_submitted_orders-stable P stable ft now opened stale_after u h
    Step-stable {u} (switched c) h = switched-stable c u h
    Step-stable {u} (lapsed keys) h = frame u _ refl refl h

    -- A stable property holds in every state that is reached from one in which it holds.
    pub Reach-stable : {u v : World D} → P u → Reach u v → P v
    Reach-stable h here = h
    Reach-stable h (next r st) = Step-stable st (Reach-stable h r)
