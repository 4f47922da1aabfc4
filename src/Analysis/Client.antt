-- ===== src/Analysis/Client.antt =====
-- services/llm_service/app/llm/client.py: one call of a language model, with its retry. The provider is
-- a parameter: what it answers depends on a state of its own, and a session keeps what it was asked.
pub mod Retry
use trade_mind.Prelude.{
  ℕ, ◌+◌, ◌-◌, ◌*◌, leb, Bool, List, [], ◌∷◌, ◌++◌, String, if◌then◌else◌, ltb,
}
use trade_mind.Domain.{Time}
use trade_mind.Analysis.Wire.{MarketContext, SelectedStrategy}

-- What a prompt is built of (prompts/builder.py): `build`, or `build_repair` with the bad text and why
-- it was refused. The wording is not modelled.
pub data LlmRequest (D : Type 0) : Type 0 where
  analysis : MarketContext D → SelectedStrategy D → LlmRequest D
  repair : MarketContext D → SelectedStrategy D → String → String → LlmRequest D

-- How a provider's call ends: with a text, with an exception after some time, or not in time.
pub data Attempt : Type 0 where
  replied : String → Attempt
  raised : Time → Attempt
  timed_out : Attempt

-- llm.py: `LLMResponse`, a text or the reason of a failure.
pub data LlmResponse : Type 0 where
  text : String → LlmResponse
  failed : String → LlmResponse

abbrev pub Provider : Type 0 → Type 0 → Type 0
Provider D S = LlmRequest D → S → Attempt × S

pub record Session (D : Type 0) (S : Type 0) : Type 0 where
  pub state : S
  pub asked : List (LlmRequest D)

-- `asyncio.sleep(1.0)`
abbrev pub retry_delay : Time
retry_delay = 1_000_000

module _ {D S : Type 0} (provider : Provider D S) where
  -- `self._provider.generate(...)`
  unfoldable pub ask : LlmRequest D → Session D S → Attempt × Session D S
  ask r s =
      let (answer, state) = provider r s.state in
      (answer, record { state = state; asked = s.asked ++ (r ∷ []) })

  -- The second attempt.
  abbrev pub retried : Attempt → LlmResponse
  retried (Attempt.replied t) = LlmResponse.text t
  retried (Attempt.raised _) = LlmResponse.failed "provider_error"
  retried Attempt.timed_out = LlmResponse.failed "llm_timeout"

  -- `LLMClient.generate`: a failure is retried once, if at least half of the time is left; the call
  -- is out of time where the time ends with the second of waiting or before.
  unfoldable pub generate : Time → LlmRequest D → Session D S → LlmResponse × Session D S
  unfolding ask
  generate timeout r s =
      let (answer, s') = ask r s in
      elim answer [
        | Attempt.replied t ↦ (LlmResponse.text t, s')
        | Attempt.timed_out ↦ (LlmResponse.failed "llm_timeout", s')
        | Attempt.raised elapsed ↦
            if ltb ((timeout - elapsed) * 2) timeout
            then (LlmResponse.failed "provider_error", s')
            else if leb timeout (elapsed + retry_delay)
            then (LlmResponse.failed "llm_timeout", s')
            else (let (second, s'') = ask r s' in (retried second, s''))
      ]
