-- ===== src/Risk/Account/Newest.antt =====
-- The newest close of each symbol, which the cooldown of a pair is measured from.
use trade_mind.Prelude.{
  ◌≤◌, ◌≡◌, ◌≢◌, refl, is_some, if◌then◌else◌, All-filter, filter-All, sym, subst, ◌∙◌, true, false,
  Option, none, some, List, [], ◌∷◌, String, str_eq, str_eq_iff, arith, All, All-imp, from_option,
  inl, inr, Option-cases, Bool-cases,
}
use mathlib.Core.Option.{none-ne-some}
use trade_mind.Prelude.Dict.{Dict, lookup, setdefault, lookup-insert}
use trade_mind.Prelude.Sort.{IsChain, sort_by-IsChain, sort_by-All, All-sort_by}
use trade_mind.Domain.{Time, is_open_status}
use trade_mind.Decimal.{Decimal}
use trade_mind.Store.{PositionRow, World, AccountBalanceSnapshot}
use trade_mind.Risk.Account.{closed_positions, last_closes, load_account_state}

module _ {D : Type 0} ⦃d : Decimal D⦄ where
  abbrev pub close_time : PositionRow D → Time
  close_time p = from_option 0 p.closed_at

  abbrev pub IsAfter : PositionRow D → PositionRow D → Type 0
  IsAfter p q = close_time q ≤ close_time p

  -- A time that is known and not before the position's close.
  abbrev pub Covers : Option Time → PositionRow D → Type 0
  Covers none p = p.closed_at ≡ none
  Covers (some t) p = from_option 0 p.closed_at ≤ t

  closed_positions-IsChain : (ps : List (PositionRow D)) → IsChain IsAfter (closed_positions ps)
  closed_positions-IsChain ps =
      sort_by-IsChain _ IsAfter (λ x y e. ground (arith, e)) (λ x y e. ground (arith, e)) _

  chain-All :
      (p : PositionRow D) (ps : List (PositionRow D))
      → IsChain IsAfter (p ∷ ps)
      → All (λ q. close_time q ≤ close_time p) ps
  chain-All p [] c = tt
  chain-All p (q ∷ qs) (now, c) =
      (now, All-imp qs (λ r le. omega (arith, le, now)) (chain-All q qs c))

  -- One turn of the loop.
  abbrev add_close : PositionRow D → Dict Time → Dict Time
  add_close p acc = elim p.closed_at [ none ↦ acc | some t ↦ setdefault p.symbol t acc ]

  add_close_known :
      (symbol : String) (t : Time) (acc : Dict Time) (p : PositionRow D)
      → lookup symbol acc ≡ some t
      → lookup symbol (add_close p acc) ≡ some t
  add_close_known symbol t acc p h = elim (Option-cases p.closed_at) [
    | inl never ↦ rw never h
    | inr (c, closed) ↦
        rw closed
          (ground (arith, h, str_eq_iff p.symbol symbol, lookup-insert p.symbol symbol c acc))
  ]

  add_close_new :
      (symbol : String) (c : Time) (acc : Dict Time) (p : PositionRow D)
      → lookup symbol acc ≡ none
      → str_eq p.symbol symbol ≡ true
      → p.closed_at ≡ some c
      → lookup symbol (add_close p acc) ≡ some c
  add_close_new symbol c acc p h is closed =
      rw closed
        (ground (arith, h, is, str_eq_iff p.symbol symbol, lookup-insert p.symbol symbol c acc))

  add_close_other :
      (symbol : String) (acc : Dict Time) (p : PositionRow D)
      → str_eq p.symbol symbol ≡ false
      → lookup symbol (add_close p acc) ≡ lookup symbol acc
  add_close_other symbol acc p other = elim (Option-cases p.closed_at) [
    | inl never ↦ rw never refl
    | inr (c, closed) ↦ rw closed (ground (arith, other, lookup-insert p.symbol symbol c acc))
  ]

  -- What is known of a symbol stays as it is.
  last_closes_known :
      (symbol : String) (t : Time) (acc : Dict Time) (ps : List (PositionRow D))
      → lookup symbol acc ≡ some t
      → lookup symbol (last_closes acc ps) ≡ some t
  unfolding last_closes
  last_closes_known symbol t acc [] h = h
  last_closes_known symbol t acc (p ∷ ps) h =
      last_closes_known symbol t (add_close p acc) ps (add_close_known symbol t acc p h)

  abbrev IsCovered : String → Option Time → List (PositionRow D) → Type 0
  IsCovered symbol newest = All (λ p. str_eq p.symbol symbol ≡ true → Covers newest p)

  Covers-none : (newest : Option Time) (p : PositionRow D) → p.closed_at ≡ none → Covers newest p
  Covers-none none p h = h
  Covers-none (some t) p h = rw h (omega arith)

  last_closes-IsCovered :
      (symbol : String) (acc : Dict Time) (ps : List (PositionRow D))
      → lookup symbol acc ≡ none
      → IsChain IsAfter ps
      → IsCovered symbol (lookup symbol (last_closes acc ps)) ps
  unfolding last_closes
  last_closes-IsCovered symbol acc [] h c = tt
  last_closes-IsCovered symbol acc (p ∷ ps) h c =
      let final = lookup symbol (last_closes (add_close p acc) ps) in
      let tail : IsChain IsAfter ps = chain_rest p ps c in
      elim (Bool-cases (str_eq p.symbol symbol)) [
        | inr other ↦ (
          λ is. ground (arith, is, other),
          last_closes-IsCovered symbol (add_close p acc) ps (add_close_other symbol acc p other ∙ h)
              tail,
        )
        | inl is ↦ elim (Option-cases p.closed_at) [
          | inl never ↦ (
            λ _. Covers-none final p never,
            last_closes-IsCovered symbol (add_close p acc) ps (rw never h) tail,
          )
          | inr (t, closed) ↦
              let known : final ≡ some t =
                last_closes_known symbol t (add_close p acc) ps
                  (add_close_new symbol t acc p h is closed) in
              subst (λ x. IsCovered symbol x (p ∷ ps)) (sym known)
                (
                  λ _. rw closed (omega arith),
                  All-imp ps (λ q le _. rw closed at le) (chain-All p ps c),
                )
        ]
      ]
    where
      chain_rest :
          (q : PositionRow D) (qs : List (PositionRow D))
          → IsChain IsAfter (q ∷ qs)
          → IsChain IsAfter qs
      chain_rest q [] k = tt
      chain_rest q (r ∷ rs) k = k.1

  -- A close that is shown was known before or is that of a position of the symbol.
  last_closes_from :
      (symbol : String) (t : Time) (acc : Dict Time) (ps : List (PositionRow D))
      → All (λ p. str_eq p.symbol symbol ≡ true → p.closed_at ≢ some t) ps
      → lookup symbol (last_closes acc ps) ≡ some t
      → lookup symbol acc ≡ some t
  unfolding last_closes
  last_closes_from symbol t acc [] h e = e
  last_closes_from symbol t acc (p ∷ ps) (other, h) e =
      let e' = last_closes_from symbol t (add_close p acc) ps h e in
      elim (Option-cases p.closed_at) [
        | inl never ↦ rw never at e'
        | inr (c, closed) ↦
            let e'' : lookup symbol (setdefault p.symbol c acc) ≡ some t = rw closed at e' in
            ground (
              arith,
              other,
              closed,
              e'',
              str_eq_iff p.symbol symbol,
              lookup-insert p.symbol symbol c acc,
            )
      ]

  -- A position that is closed, and of the symbol.
  abbrev pub IsClosedOf : String → PositionRow D → Type 0
  IsClosedOf symbol p = (is_open_status p.status ≡ false) × (str_eq p.symbol symbol ≡ true)

  -- A last close of a symbol against all positions: none of the symbol closed after it, or at all if
  -- there is no last close; and it is the close of one of them.
  pub record IsNewest (symbol : String) (ps : List (PositionRow D)) (newest : Option Time)
      : Type 0 where
    pub covers : All (λ p. IsClosedOf symbol p → Covers newest p) ps
    pub attained :
        (t : Time) → newest ≡ some t → ¬ All (λ p. IsClosedOf symbol p → p.closed_at ≢ some t) ps

  closed-Covers :
      (symbol : String) (newest : Option Time) (p : PositionRow D)
      → ((if is_open_status p.status then false else is_some p.closed_at) ≡ true
          → str_eq p.symbol symbol ≡ true
          → Covers newest p)
      → IsClosedOf symbol p
      → Covers newest p
  closed-Covers symbol newest p h (closed, is) = elim (Option-cases p.closed_at) [
    | inl never ↦ Covers-none newest p never
    | inr (c, at_c) ↦ h (rw (closed, at_c) refl) is
  ]

  -- The last close that the account shows for a symbol is the close of one of the closed positions of
  -- that symbol, among all positions, and not before the close of any other; and if it shows none, no
  -- closed position of the symbol has a close.
  pub load_account_state-IsNewest :
      (w : World D) (balance : AccountBalanceSnapshot D) (window now : Time) (symbol : String)
      → IsNewest symbol w.positions
          (lookup symbol (load_account_state w balance window now).symbol_last_closed_at)
  unfolding load_account_state
  load_account_state-IsNewest w balance window now symbol =
      let newest = lookup symbol (last_closes [] (closed_positions w.positions)) in
      record {
        covers = All-imp w.positions (closed-Covers symbol newest) (
            filter-All _ _ w.positions (
              sort_by-All _ _ _ (
                last_closes-IsCovered symbol [] (closed_positions w.positions) refl
                  (closed_positions-IsChain w.positions))));
        attained = λ t e h. none-ne-some t (
            last_closes_from symbol t [] (closed_positions w.positions)
              (All-sort_by _ _ _
                (All-filter _ w.positions (λ p keep other is. other (ground (arith, keep), is)) h))
              e);
      }
