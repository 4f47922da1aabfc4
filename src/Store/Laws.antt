-- ===== src/Store/Laws.antt =====
-- The kill switch of services/common/kill_switch.py: the row decides, and the Redis flag mirrors it.
use trade_mind.Prelude.{
  ℕ, ◌+◌, ◌≡◌, refl, sym, ap, ◌∙◌, Bool, true, false, Option, some, List, [], ◌∷◌, String, length,
  length-append, arith,
}
use trade_mind.Domain.{Time}
use trade_mind.Store.{World, is_enabled, system_row, enable, disable}

-- A change of the kill switch: why, by whom, and when it is a resumption.
pub data Switch : Type 0 where
  on : String → String → ℕ → Switch
  off : Time → String → String → ℕ → Switch

abbrev pub is_on : Switch → Bool
is_on (Switch.on _ _ _) = true
is_on (Switch.off _ _ _ _) = false

-- Whether a sequence of changes ends on, and the time of its last resumption.
abbrev pub ends_on : Bool → List Switch → Bool
ends_on before [] = before
ends_on before (c ∷ cs) = ends_on (is_on c) cs

abbrev pub last_reset : Option Time → List Switch → Option Time
last_reset at [] = at
last_reset at (Switch.on _ _ _ ∷ cs) = last_reset at cs
last_reset at (Switch.off now _ _ _ ∷ cs) = last_reset (some now) cs

module _ {D : Type 0} where
  unfoldable pub apply : Switch → World D → World D
  unfolding enable disable
  apply (Switch.on reason by trace) w = enable reason by trace w
  apply (Switch.off now reason by trace) w = disable now reason by trace w

  abbrev pub replay : List Switch → World D → World D
  replay [] w = w
  replay (c ∷ cs) w = replay cs (apply c w)

  apply-is_enabled : (c : Switch) (w : World D) → is_enabled (apply c w) ≡ is_on c
  unfolding is_enabled apply
  apply-is_enabled (Switch.on reason by trace) w = refl
  apply-is_enabled (Switch.off now reason by trace) w = refl

  apply_flag : (c : Switch) (w : World D) → (apply c w).killswitch_flag ≡ some (is_on c)
  unfolding apply
  apply_flag (Switch.on reason by trace) w = refl
  apply_flag (Switch.off now reason by trace) w = refl

  apply_audit : (c : Switch) (w : World D) → length (apply c w).audit ≡ length w.audit + 1
  unfolding apply
  apply_audit (Switch.on reason by trace) w = length-append w.audit _
  apply_audit (Switch.off now reason by trace) w = length-append w.audit _

  apply_reset :
      (c : Switch) (cs : List Switch) (w : World D)
      → last_reset (system_row (apply c w)).consecutive_loss_reset_at cs
        ≡ last_reset (system_row w).consecutive_loss_reset_at (c ∷ cs)
  unfolding apply
  apply_reset (Switch.on reason by trace) cs w = refl
  apply_reset (Switch.off now reason by trace) cs w = refl

  -- When the Redis flag agrees with the row at first, then after any sequence of changes the kill
  -- switch is as the last change left it, or as it was if there was none; the flag agrees with the
  -- row; the boundary of the loss streak is the time of the last resumption, or as it was; and each
  -- change has added one audit event.
  pub replay-is_enabled :
      (cs : List Switch) (w : World D)
      → w.killswitch_flag ≡ some (is_enabled w)
      → (is_enabled (replay cs w) ≡ ends_on (is_enabled w) cs)
        × ((replay cs w).killswitch_flag ≡ some (is_enabled (replay cs w)))
        × ((system_row (replay cs w)).consecutive_loss_reset_at
            ≡ last_reset (system_row w).consecutive_loss_reset_at cs)
        × (length (replay cs w).audit ≡ length w.audit + length cs)
  replay-is_enabled [] w mirror = (refl, mirror, refl, omega arith)
  replay-is_enabled (c ∷ cs) w mirror =
      let (last, flag, reset, audited) =
        replay-is_enabled cs (apply c w) (apply_flag c w ∙ ap some (sym (apply-is_enabled c w))) in
      (
        last ∙ ap (λ b. ends_on b cs) (apply-is_enabled c w),
        flag,
        reset ∙ apply_reset c cs w,
        omega (arith, audited, apply_audit c w),
      )
