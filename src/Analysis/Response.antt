-- ===== src/Analysis/Response.antt =====
-- services/llm_service/app/validators: structural.py and llm_contract.py, which read a model's text, and
-- response_validator.py, which has it repaired where it cannot be read.
pub mod Repairs
use trade_mind.Prelude.{
  ℕ, zero, suc, Bool, true, false, not, ◌||◌, ◌&&◌, ◌⊎◌, inl, inr, Option, none, some, List, [],
  ◌∷◌, String, str_eq, if◌then◌else◌,
}
use trade_mind.Prelude.Dict.{contains}
use trade_mind.Domain.{Action}
use trade_mind.Decimal.{Decimal}
use trade_mind.Analysis.Wire.{MarketContext, ExitConfirmation, LlmOutput}
use trade_mind.Analysis.Semantic.{Thresholds, validate_signal_semantics}

-- The first characters of a text, and whether it has more.
abbrev pub take_text : ℕ → String → String
take_text zero s = String.[]
take_text (suc n) String.[] = String.[]
take_text (suc n) (String.◌∷◌ c s) = String.◌∷◌ c (take_text n s)

abbrev pub is_longer : ℕ → String → Bool
is_longer n String.[] = false
is_longer zero (String.◌∷◌ c s) = true
is_longer (suc n) (String.◌∷◌ c s) = is_longer n s

-- What `json.loads` makes of a text: a value, a JSONDecodeError, or another exception (a RecursionError
-- for deep nesting, the ValueError for an integer of too many digits).
pub data Loaded (A : Type 0) : Type 0 where
  loaded : A → Loaded A
  undecodable : Loaded A
  raised : Loaded A

-- The libraries that read a text: json, dqflow with its contract, and pydantic.
pub record Parsing (D : Type 0) : Type 1 where
  pub Json : Type 0
  pub loads : String → Loaded Json
  pub is_dict : Json → Bool
  -- The names of the contract's checks that fail; `none` is an error of the engine.
  pub failed_checks : Json → Option (List String)
  -- The member `reasoning`, where it is a text, and the dict with another in its place.
  pub reasoning : Json → Option String
  pub with_reasoning : String → Json → Json
  -- `LLMOutput.model_validate`, or the errors: each the field, if there is one, and the type.
  pub model_validate : Json → LlmOutput D ⊎ List (Option String × String)

-- An answer, a ValidationFailure with its reason, or an exception that is not caught.
pub data Parsed (D : Type 0) : Type 0 where
  parsed : LlmOutput D → Parsed D
  refused : String → Parsed D
  raised : Parsed D

abbrev pub any_of : List String → List String → Bool
any_of [] ys = false
any_of (x ∷ xs) ys = contains x ys || any_of xs ys

-- `_ACTION_CHECKS` and `_CONFIDENCE_CHECKS`
abbrev pub action_checks : List String
action_checks = "dtype:action" ∷ "not_null:action" ∷ "allowed:action" ∷ []

abbrev pub confidence_checks : List String
confidence_checks =
    "dtype:confidence" ∷ "not_null:confidence" ∷ "min:confidence" ∷ "max:confidence" ∷ []

-- `contract_failure_reason`
unfoldable pub contract_failure_reason : List String → String
contract_failure_reason failed =
    if any_of failed action_checks
    then "invalid_action"
    else if any_of failed confidence_checks
    then "invalid_confidence"
    else "schema_invalid"

-- `_classify_validation_error`
unfoldable pub classify_validation_error : List (Option String × String) → String
classify_validation_error [] = "schema_invalid"
classify_validation_error ((field, error_type) ∷ errors) =
    let rest = classify_validation_error errors in
    if str_eq error_type "missing" then rest else elim field [
      | none ↦ rest
      | some f ↦
          if str_eq f "action"
          then "invalid_action"
          else if str_eq f "confidence"
          then "invalid_confidence"
          else rest
    ]

-- What `validate` comes to: the reason of a refusal, whether a repair was tried, and the last text; or
-- the validated answer, with the action that the model proposed; or the exception that a text raised.
pub data ValidationResult (D : Type 0) : Type 0 where
  invalid : String → Bool → String → ValidationResult D
  valid : LlmOutput D → Action → Bool → List ExitConfirmation → Bool → String → ValidationResult D
  raised : String → ValidationResult D

-- A repair: the bad text and the reason give another text, or nothing.
abbrev pub Repair : Type 0 → Type 0
Repair S = String → String → S → Option String × S

module _ {D : Type 0} (p : Parsing D) where
  open p use {Json}

  -- `check_llm_response`
  abbrev pub check_llm_response : Json → Option String
  check_llm_response j = elim (p.failed_checks j) [
    | none ↦ some "schema_invalid"
    | some [] ↦ none
    | some (f ∷ fs) ↦ some (contract_failure_reason (f ∷ fs))
  ]

  -- The reasoning, cut at 500 characters.
  abbrev pub trimmed : Json → Json
  trimmed j = elim (p.reasoning j) [
    | none ↦ j
    | some r ↦ if is_longer 500 r then p.with_reasoning (take_text 500 r) j else j
  ]

  abbrev pub typed : Json → Parsed D
  typed j = elim (p.model_validate j) [
    | inl o ↦ Parsed.parsed o
    | inr errors ↦ Parsed.refused (classify_validation_error errors)
  ]

  -- `parse_llm_response`
  unfoldable pub parse_llm_response : String → Parsed D
  parse_llm_response raw = elim (p.loads raw) [
    | Loaded.undecodable ↦ Parsed.refused "malformed_json"
    | Loaded.raised ↦ Parsed.raised
    | Loaded.loaded j ↦
        if not (p.is_dict j) then Parsed.refused "malformed_json" else elim (check_llm_response j) [
          | some reason ↦ Parsed.refused reason
          | none ↦ typed (trimmed j)
        ]
  ]

  module _ ⦃d : Decimal D⦄ {S : Type 0} (t : Thresholds D) (c : MarketContext D)
      (repair : Repair S) where
    -- The answer of a text that could be read.
    abbrev pub accepted : LlmOutput D → Bool → String → ValidationResult D
    accepted o repaired text =
        let r = validate_signal_semantics t c o in
        ValidationResult.valid r.output o.action r.action_changed r.exit_confirmations repaired text

    -- The loop of `ResponseValidator.validate`, by the repairs that are left.
    unfoldable pub validate : ℕ → Bool → String → S → ValidationResult D × S
    validate zero repaired text s = elim (parse_llm_response text) [
      | Parsed.parsed o ↦ (accepted o repaired text, s)
      | Parsed.refused reason ↦ (ValidationResult.invalid reason repaired text, s)
      | Parsed.raised ↦ (ValidationResult.raised text, s)
    ]
    validate (suc left) repaired text s = elim (parse_llm_response text) [
      | Parsed.parsed o ↦ (accepted o repaired text, s)
      | Parsed.refused reason ↦
          let (answer, s') = repair text reason s in
          elim answer [
            | none ↦ (ValidationResult.invalid reason true text, s')
            | some text' ↦ validate left true text' s'
          ]
      | Parsed.raised ↦ (ValidationResult.raised text, s)
    ]
