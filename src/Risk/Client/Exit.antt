-- ===== src/Risk/Client/Exit.antt =====
-- What `forceexit` sends, with its retries.
use trade_mind.Prelude.{
  ℕ, suc, zero, ◌≤◌, ◌<◌, ◌≡◌, refl, sym, some, ap, ◌∙◌, Option, none, List, [], ◌∷◌, ◌++◌, arith,
  Option-cases, inl, inr,
}
use mathlib.Core.List.{append_assoc}
use trade_mind.Risk.Client.{Reply, Request, Http, Session, post, exit_attempts, attempts, forceexit}

abbrev pub repeat : {A : Type 0} → ℕ → A → List A
repeat zero x = []
repeat (suc n) x = x ∷ repeat n x

module _ {D S : Type 0} (http : Http D S) (trade_id : ℕ) where
  -- The session after some requests to exit the trade, whatever they are answered.
  abbrev pub after : ℕ → Session D S → Session D S
  after zero w = w
  after (suc i) w = after i (post http (Request.exit trade_id) w).0

  -- The reply to the request that follows as many others.
  abbrev pub reply_after : ℕ → Session D S → Option Reply
  reply_after i w = (post http (Request.exit trade_id) (after i w)).1

  -- The outcome is that of the first request that is answered, or of the last that is allowed: there
  -- is a number of unanswered requests, below the limit, and then one that ends the attempts.
  pub record Exits (limit : ℕ) (w : Session D S) (outcome : Session D S × Option Reply)
      : Type 0 where
    pub unanswered : ℕ
    pub below : suc unanswered ≤ limit
    pub fails : (i : ℕ) → i < unanswered → reply_after i w ≡ none
    pub reply_eq : outcome.1 ≡ reply_after unanswered w
    pub session_eq : outcome.0 ≡ after (suc unanswered) w
    pub sent_eq : outcome.0.sent ≡ w.sent ++ repeat (suc unanswered) (Request.exit trade_id)
    pub exhausted : outcome.1 ≡ none → suc unanswered ≡ limit

  -- An answer, or the last attempt, ends the loop.
  ends_at_once :
      (n : ℕ) (w : Session D S) (r : Option Reply)
      → reply_after 0 w ≡ r
      → (r ≡ none → 1 ≡ suc n)
      → Exits (suc n) w ((post http (Request.exit trade_id) w).0, r)
  unfolding post
  ends_at_once n w r e last = record {
    unanswered = 0;
    below = omega arith;
    fails = λ i h. ground (arith, h);
    reply_eq = sym e;
    session_eq = refl;
    sent_eq = refl;
    exhausted = last;
  }

  -- An attempt that is not answered, before the others.
  fails_first :
      (n : ℕ) (w : Session D S) (outcome : Session D S × Option Reply)
      → reply_after 0 w ≡ none
      → Exits n (post http (Request.exit trade_id) w).0 outcome
      → Exits (suc n) w outcome
  unfolding post
  fails_first n w outcome e x = record {
    unanswered = suc x.unanswered;
    below = omega (arith, x.below);
    fails = λ i h. earlier i h;
    reply_eq = x.reply_eq;
    session_eq = x.session_eq;
    sent_eq =
        x.sent_eq
        ∙ append_assoc w.sent (Request.exit trade_id ∷ [])
            (repeat (suc x.unanswered) (Request.exit trade_id));
    exhausted = λ f. ap suc (x.exhausted f);
  }
    where
      earlier : (i : ℕ) → i < suc x.unanswered → reply_after i w ≡ none
      earlier zero h = e
      earlier (suc i) h = x.fails i (omega (arith, h))

  exit_attempts-Exits :
      (n : ℕ) (w : Session D S) → Exits (suc n) w (exit_attempts http (suc n) trade_id w)
  unfolding exit_attempts post
  exit_attempts-Exits zero w = elim (Option-cases (reply_after 0 w)) [
    | inl failed ↦ rw (failed, exit_attempts) (ends_at_once 0 w none failed (λ _. refl))
    | inr (r, answered) ↦
        rw (answered, exit_attempts) (ends_at_once 0 w (some r) answered (λ e. ground (arith, e)))
  ]
  exit_attempts-Exits (suc n) w = elim (Option-cases (reply_after 0 w)) [
    | inl failed ↦
        rw (failed, exit_attempts)
          (fails_first (suc n) w _ failed
            (exit_attempts-Exits n (post http (Request.exit trade_id) w).0))
    | inr (r, answered) ↦
        rw (answered, exit_attempts)
          (ends_at_once (suc n) w (some r) answered (λ e. ground (arith, e)))
  ]

  -- A forced exit requests the exit of its trade, and nothing else, until a request is answered, at
  -- least once and at most as often as configured (once, if less is configured): every request before
  -- the last was not answered, the outcome is the reply to the last, and it is a failure only after
  -- every allowed attempt has failed.
  pub forceexit-Exits :
      (retries : ℕ) (w : Session D S)
      → Exits (attempts http retries) w (forceexit http retries trade_id w)
  unfolding forceexit
  forceexit-Exits zero w = exit_attempts-Exits 0 w
  forceexit-Exits (suc n) w = exit_attempts-Exits n w
