-- ===== src/Analysis/Response/Repairs.antt =====
-- The loop of response_validator.py: what its result says of the last text, and how many repairs it makes.
use trade_mind.Prelude.{
  ℕ, zero, suc, ◌+◌, ◌*◌, ◌≤◌, Bool, true, ◌≡◌, refl, sym, subst, ◌⊎◌, inl, inr, none, some, String,
  arith, Option-cases,
}
use trade_mind.Decimal.{Decimal}
use trade_mind.Analysis.Wire.{MarketContext, LlmOutput}
use trade_mind.Analysis.Semantic.{Thresholds, validate_signal_semantics}
use trade_mind.Analysis.Response.{
  Parsing, Parsed, ValidationResult, Repair, parse_llm_response, accepted, validate,
}

pub Parsed-cases :
    {D : Type 0} (x : Parsed D)
    → ((o : LlmOutput D) × (x ≡ Parsed.parsed o))
      ⊎ (((reason : String) × (x ≡ Parsed.refused reason)) ⊎ (x ≡ Parsed.raised))
Parsed-cases (Parsed.parsed o) = inl (o, refl)
Parsed-cases (Parsed.refused reason) = inr (inl (reason, refl))
Parsed-cases Parsed.raised = inr (inr refl)

module _ {D : Type 0} (p : Parsing D) ⦃d : Decimal D⦄ {S : Type 0} (t : Thresholds D)
    (c : MarketContext D) (repair : Repair S) where
  -- The turns of the loop.
  validate-parsed :
      (left : ℕ) (repaired : Bool) (text : String) (s : S) (o : LlmOutput D)
      → parse_llm_response p text ≡ Parsed.parsed o
      → validate p t c repair left repaired text s ≡ (accepted p t c repair o repaired text, s)
  unfolding validate
  validate-parsed zero repaired text s o e = ground arith
  validate-parsed (suc left) repaired text s o e = ground arith

  validate-raised :
      (left : ℕ) (repaired : Bool) (text : String) (s : S)
      → parse_llm_response p text ≡ Parsed.raised
      → validate p t c repair left repaired text s ≡ (ValidationResult.raised text, s)
  unfolding validate
  validate-raised zero repaired text s e = ground arith
  validate-raised (suc left) repaired text s e = ground arith

  validate-refused :
      (repaired : Bool) (text : String) (s : S) (reason : String)
      → parse_llm_response p text ≡ Parsed.refused reason
      → validate p t c repair zero repaired text s
        ≡ (ValidationResult.invalid reason repaired text, s)
  unfolding validate
  validate-refused repaired text s reason e = ground arith

  validate-given_up :
      (left : ℕ) (repaired : Bool) (text : String) (s : S) (reason : String)
      → parse_llm_response p text ≡ Parsed.refused reason
      → (repair text reason s).0 ≡ none
      → validate p t c repair (suc left) repaired text s
        ≡ (ValidationResult.invalid reason true text, (repair text reason s).1)
  unfolding validate
  validate-given_up left repaired text s reason e h = ground arith

  validate-repaired :
      (left : ℕ) (repaired : Bool) (text : String) (s : S) (reason text' : String)
      → parse_llm_response p text ≡ Parsed.refused reason
      → (repair text reason s).0 ≡ some text'
      → validate p t c repair (suc left) repaired text s
        ≡ validate p t c repair left true text' (repair text reason s).1
  unfolding validate
  validate-repaired left repaired text s reason text' e h = ground arith

  -- What holds at every end of the loop, by the repairs left, holds of the loop.
  module _ (P : ℕ → String → S → ValidationResult D × S → Type 0)
      (at_parsed : (left : ℕ) (repaired : Bool) (text : String) (s : S) (o : LlmOutput D)
        → parse_llm_response p text ≡ Parsed.parsed o
        → P left text s (accepted p t c repair o repaired text, s))
      (at_raised : (left : ℕ) (text : String) (s : S)
        → parse_llm_response p text ≡ Parsed.raised
        → P left text s (ValidationResult.raised text, s))
      (at_refused : (repaired : Bool) (text : String) (s : S) (reason : String)
        → parse_llm_response p text ≡ Parsed.refused reason
        → P zero text s (ValidationResult.invalid reason repaired text, s))
      (at_given_up : (left : ℕ) (text : String) (s : S) (reason : String)
        → parse_llm_response p text ≡ Parsed.refused reason
        → (repair text reason s).0 ≡ none
        → P (suc left) text s (ValidationResult.invalid reason true text, (repair text reason s).1))
      (at_repaired : (left : ℕ) (text reason text' : String) (s : S) (r : ValidationResult D × S)
        → parse_llm_response p text ≡ Parsed.refused reason
        → (repair text reason s).0 ≡ some text'
        → P left text' (repair text reason s).1 r
        → P (suc left) text s r) where
    validate_all :
        (left : ℕ) (repaired : Bool) (text : String) (s : S)
        → P left text s (validate p t c repair left repaired text s)
    validate_all zero repaired text s = elim (Parsed-cases (parse_llm_response p text)) [
      | inl (o, e) ↦
          subst (P zero text s) (sym (validate-parsed zero repaired text s o e))
            (at_parsed zero repaired text s o e)
      | inr (inl (reason, e)) ↦
          subst (P zero text s) (sym (validate-refused repaired text s reason e))
            (at_refused repaired text s reason e)
      | inr (inr e) ↦
          subst (P zero text s) (sym (validate-raised zero repaired text s e))
            (at_raised zero text s e)
    ]
    validate_all (suc left) repaired text s = elim (Parsed-cases (parse_llm_response p text)) [
      | inl (o, e) ↦
          subst (P (suc left) text s) (sym (validate-parsed (suc left) repaired text s o e))
            (at_parsed (suc left) repaired text s o e)
      | inr (inr e) ↦
          subst (P (suc left) text s) (sym (validate-raised (suc left) repaired text s e))
            (at_raised (suc left) text s e)
      | inr (inl (reason, e)) ↦ elim (Option-cases (repair text reason s).0) [
        | inl h ↦
            subst (P (suc left) text s) (sym (validate-given_up left repaired text s reason e h))
              (at_given_up left text s reason e h)
        | inr (text', h) ↦
            subst (P (suc left) text s)
              (sym (validate-repaired left repaired text s reason text' e h))
              (at_repaired left text reason text' s _ e h
                (validate_all left true text' (repair text reason s).1))
      ]
    ]

  -- A text that some repairs lead to, each of the text before it and for the reason of its refusal.
  abbrev pub Leads : ℕ → String → S → String → S → Type 0
  Leads zero text s last u = (last ≡ text) × (u ≡ s)
  Leads (suc n) text s last u =
      (reason : String) × (text' : String) × (parse_llm_response p text ≡ Parsed.refused reason)
      × ((repair text reason s).0 ≡ some text')
      × Leads n text' (repair text reason s).1 last u

  -- A result of the text that is read last, with the repairs that are then left.
  abbrev pub Ends : ℕ → String → S → ValidationResult D × S → Type 0
  Ends left text s (ValidationResult.invalid reason repaired named, u) =
      (named ≡ text)
      × (parse_llm_response p text ≡ Parsed.refused reason)
      × (((left ≡ 0) × (u ≡ s))
          ⊎ ((1 ≤ left) × ((repair text reason s).0 ≡ none) × (u ≡ (repair text reason s).1)))
  Ends left text s (ValidationResult.valid output proposed changed exits repaired named, u) =
      (o : LlmOutput D) × (named ≡ text)
      × (parse_llm_response p text ≡ Parsed.parsed o)
      × (output ≡ (validate_signal_semantics t c o).output)
      × (proposed ≡ o.action)
      × (u ≡ s)
  Ends left text s (ValidationResult.raised named, u) =
      (named ≡ text) × (parse_llm_response p text ≡ Parsed.raised) × (u ≡ s)

  -- Repairs within their number lead from the text to the one that the result is about.
  pub record IsRead (limit : ℕ) (text : String) (s : S) (r : ValidationResult D × S) : Type 0 where
    pub repairs : ℕ
    pub left : ℕ
    pub limit_eq : repairs + left ≡ limit
    pub last : String
    pub state : S
    pub leads : Leads repairs text s last state
    pub ends : Ends left last state r

  reads_now :
      (left : ℕ) (text : String) (s : S) (r : ValidationResult D × S)
      → Ends left text s r
      → IsRead left text s r
  reads_now left text s r h = record {
    repairs = 0;
    left = left;
    limit_eq = omega arith;
    last = text;
    state = s;
    leads = (refl, refl);
    ends = h;
  }

  -- From a text, the validation reads it, and while a text is refused and repairs are left, the text
  -- that the repair of it, for that reason, gives. The result is about the text read last: the
  -- reason that it was refused for, where no repair is left or the repair gives nothing; its answer
  -- after the rubric, with the action that it proposed; or an exception, where reading it raises one.
  pub validate-IsRead :
      (left : ℕ) (repaired : Bool) (text : String) (s : S)
      → IsRead left text s (validate p t c repair left repaired text s)
  validate-IsRead =
      validate_all IsRead
        (λ left repaired text s o e. reads_now left text s _ (o, refl, e, refl, refl, refl))
        (λ left text s e. reads_now left text s _ (refl, e, refl))
        (λ repaired text s reason e. reads_now zero text s _ (refl, e, inl (refl, refl)))
        (λ left text s reason e h.
          reads_now (suc left) text s _ (refl, e, inr (omega arith, h, refl)))
        (λ left text reason text' s r e h x. record {
          repairs = suc x.repairs;
          left = x.left;
          limit_eq = omega (arith, x.limit_eq);
          last = x.last;
          state = x.state;
          leads = (reason, text', e, h, x.leads);
          ends = x.ends;
        })

  -- If each repair adds at most two to a measure of the state, the loop adds at most two for each
  -- repair that it may make.
  pub validate-measure :
      (m : S → ℕ)
      → ((text reason : String) (s : S) → m (repair text reason s).1 ≤ m s + 2)
      → (left : ℕ) (repaired : Bool) (text : String) (s : S)
      → m (validate p t c repair left repaired text s).1 ≤ m s + 2 * left
  validate-measure m grows =
      validate_all (λ left text s r. m r.1 ≤ m s + 2 * left)
        (λ left repaired text s o e. omega arith) (λ left text s e. omega arith)
        (λ repaired text s reason e. omega arith)
        (λ left text s reason e h. omega (arith, grows text reason s))
        (λ left text reason text' s r e h x. omega (arith, grows text reason s, x))
