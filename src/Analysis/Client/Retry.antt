-- ===== src/Analysis/Client/Retry.antt =====
-- How often a model is asked, and when a second time.
use trade_mind.Prelude.{
  ◌+◌, ◌-◌, ◌*◌, ◌≤◌, ◌≡◌, Bool, true, false, [], ◌∷◌, ◌++◌, arith, length, length-append, leb, ltb,
  ◌&&◌, if◌then◌else◌,
}
use mathlib.Core.List.{append_assoc}
use trade_mind.Domain.{Time}
use trade_mind.Analysis.Client.{LlmRequest, Attempt, Provider, Session, retry_delay, generate}

module _ {D S : Type 0} (provider : Provider D S) (timeout : Time) (r : LlmRequest D)
    (s : Session D S) where
  -- Whether the first attempt fails with at least half of the time left, and more than the second
  -- that is waited before another.
  abbrev pub is_worth_retrying : Attempt → Bool
  is_worth_retrying (Attempt.raised elapsed) =
      leb timeout ((timeout - elapsed) * 2) && ltb (elapsed + retry_delay) timeout
  is_worth_retrying _ = false

  -- However the provider behaves: a model is asked a second time exactly when the first attempt
  -- raises with at least half of the time left and more than a second left, and then with the same
  -- request; and it is never asked a third time.
  pub generate-asked :
      (generate provider timeout r s).1.asked
      ≡ s.asked ++ (r ∷ (if is_worth_retrying (provider r s.state).0 then r ∷ [] else []))
  unfolding generate
  generate-asked = ground (arith, append_assoc s.asked (r ∷ []) (r ∷ []))

  pub length-generate-asked : length (generate provider timeout r s).1.asked ≤ length s.asked + 2
  length-generate-asked = rw generate-asked (at (is_worth_retrying (provider r s.state).0))
    where
      at : (b : Bool) → length (s.asked ++ (r ∷ (if b then r ∷ [] else []))) ≤ length s.asked + 2
      at true = omega (arith, length-append s.asked (r ∷ r ∷ []))
      at false = omega (arith, length-append s.asked (r ∷ []))
