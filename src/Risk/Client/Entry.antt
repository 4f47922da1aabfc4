-- ===== src/Risk/Client/Entry.antt =====
-- What `forceenter` sends, and what it does about a trade without its stop.
use trade_mind.Prelude.{
  ℕ, suc, arith, ◌≤◌, ◌≡◌, refl, Option, none, some, ◌++◌, String, Option-cases, Bool-cases, inl,
  inr, true, false, ◌⊎◌,
}
use trade_mind.Risk.Orders.{or_id}
use trade_mind.Risk.Client.{
  Reply, Request, Http, Session, post, attempts, is_unprotected, emergency_exit, forceenter,
}
use trade_mind.Risk.Client.Exit.{repeat, forceexit-Exits}

module _ {D S : Type 0} (http : Http D S) where
  -- The requests after an entry whose stop was not attached: exits of its trade, if it has a number.
  abbrev pub Undone : ℕ → Option ℕ → Session D S → Session D S → Type 0
  Undone limit none w w' = w'.sent ≡ w.sent
  Undone limit (some trade_id) w w' =
      (k : ℕ) × (w'.sent ≡ w.sent ++ repeat k (Request.exit trade_id)) × (1 ≤ k) × (k ≤ limit)

  emergency_exit-Undone :
      (retries : ℕ) (trade_id : Option ℕ) (w : Session D S)
      → Undone (attempts http retries) trade_id w (emergency_exit http retries trade_id w)
  unfolding emergency_exit
  emergency_exit-Undone retries none w = refl
  emergency_exit-Undone retries (some trade_id) w =
      let x = forceexit-Exits http trade_id retries w in
      (suc x.unanswered, x.sent_eq, omega arith, x.below)

  -- What a forced entry comes to, by the reply to its request.
  abbrev pub Entered :
      ℕ → Option String → Option Reply → Session D S → Session D S × Option Reply → Type 0
  Entered limit tag none posted outcome = (outcome.1 ≡ none) × (outcome.0.sent ≡ posted.sent)
  Entered limit tag (some r) posted outcome =
      ((is_unprotected http tag r.enter_tag ≡ false)
        × (outcome.1 ≡ some r)
        × (outcome.0.sent ≡ posted.sent))
      ⊎ ((is_unprotected http tag r.enter_tag ≡ true)
          × (outcome.1 ≡ none)
          × Undone limit (or_id r.trade_id r.id) posted outcome.0)

  -- After the request of an entry: without a reply it is reported as failed and nothing more is
  -- requested. With a reply that shows the tag that was asked for, or if none was, the reply is
  -- returned and nothing more is requested. With a reply that shows another tag or none, it is
  -- reported as failed, and the trade that the reply names, if it names one, is exited by at least
  -- one request and at most the attempts configured.
  pub forceenter-Entered :
      (retries : ℕ) (pair : String) (stake_amount : D) (tag : Option String) (w : Session D S)
      → let (posted, reply) = post http (Request.enter pair (http.to_float stake_amount) tag) w in
        Entered
          (attempts http retries)
          tag
          reply
          posted
          (forceenter http retries pair stake_amount tag w)
  unfolding forceenter post
  forceenter-Entered retries pair stake_amount tag w =
      let request = Request.enter pair (http.to_float stake_amount) tag in
      let posted = (post http request w).0 in
      elim (Option-cases (http.post request w.server).1) [
        | inl failed ↦ rw (failed, forceenter) (refl, refl)
        | inr (r, answered) ↦
            rw (answered, forceenter)
              (elim (Bool-cases (is_unprotected http tag r.enter_tag)) [
                | inl bad ↦ inr (
                  bad,
                  rw bad refl,
                  rw bad (emergency_exit-Undone retries (or_id r.trade_id r.id) posted),
                )
                | inr good ↦ inl (good, rw good refl, rw good refl)
              ])
      ]
