-- ===== src/Performance/Breakdown.antt =====
-- services/common/performance.py, `_cohorts` and `summarize_breakdowns`: one report for each value of a
-- journal dimension, and the proof that the cohorts share out the trades.
use Prim.Native.String.{compare}
use Prim.Native.Nat.{Ordering}
use trade_mind.Prelude.{
  ℕ, ◌+◌, ◌≤◌, ◌≡◌, refl, sym, ap, ◌∙◌, inl, inr, Bool-cases, Bool, true, false, Option, some, List,
  [], ◌∷◌, ◌++◌, map, String, ltb, ◌==◌, str_eq, str_eq_iff, if◌then◌else◌, length, filter,
  from_option, arith, length-append, All, All-imp, All-map,
}
use mathlib.Core.List.{append-nil, append_assoc}
use trade_mind.Prelude.Dict.{
  Dict, lookup, insert, lookup-insert, IsUnique, insert-IsUnique, IsUnique-lookup,
}
use trade_mind.Prelude.Sort.{
  sort_by, total_by, total_by-sort_by, All-sort_by, IsChain, sort_by-IsChain,
}
use trade_mind.Decimal.{Decimal}
use trade_mind.Performance.{
  ClosedTradeMetrics, PerformanceReport, summarize, score_bucket_label, unscored, unclassified,
}

pub record BreakdownCohort (D : Type 0) : Type 0 where
  pub key : String
  pub report : PerformanceReport D

pub record PerformanceBreakdowns (D : Type 0) : Type 0 where
  pub by_regime : List (BreakdownCohort D)
  pub by_volatility : List (BreakdownCohort D)
  pub by_score_bucket : List (BreakdownCohort D)

-- `a <= b` of two texts, by their characters.
abbrev text_le : String → String → Bool
text_le a b = elim (compare a b) [ Ordering.gt ↦ false | _ ↦ true ]

module _ {T : Type 0} (key_of : T → Option String) (catch_all : String) where
  abbrev pub group_key : T → String
  group_key t = from_option catch_all (key_of t)

  -- `groups.setdefault(key, []).append(trade)`
  abbrev add_to_group : Dict (List T) → T → Dict (List T)
  add_to_group groups t =
      let k = group_key t in insert k (from_option [] (lookup k groups) ++ (t ∷ [])) groups

  unfoldable pub group_from : Dict (List T) → List T → Dict (List T)
  group_from groups [] = groups
  group_from groups (t ∷ ts) = group_from (add_to_group groups t) ts

  -- The sort key `(key == catch_all, -len(cohort), key)`.
  unfoldable pub cohort_le : String × List T → String × List T → Bool
  cohort_le (j, xs) (k, ys) =
      if str_eq j catch_all
      then (if str_eq k catch_all then by_size else false)
      else (if str_eq k catch_all then true else by_size)
    where
      by_size : Bool
      by_size =
          if ltb (length ys) (length xs)
          then true
          else if length xs == length ys
          then text_le j k
          else false

module _ {D : Type 0} ⦃d : Decimal D⦄ where
  unfoldable pub cohorts :
      (ClosedTradeMetrics D → Option String)
      → String
      → List (ClosedTradeMetrics D)
      → Option D
      → List (BreakdownCohort D)
  cohorts key_of catch_all trades starting_equity_usdt =
      map (λ g. record { key = g.0; report = summarize g.1 starting_equity_usdt })
        (sort_by (cohort_le key_of catch_all) (group_from key_of catch_all [] trades))

  unfoldable pub summarize_breakdowns :
      List (ClosedTradeMetrics D) → Option D → PerformanceBreakdowns D
  summarize_breakdowns trades starting_equity_usdt = record {
    by_regime = cohorts (λ t. t.market_regime) unclassified trades starting_equity_usdt;
    by_volatility = cohorts (λ t. t.volatility_regime) unclassified trades starting_equity_usdt;
    by_score_bucket =
        cohorts (λ t. some (score_bucket_label t.trade_score)) unscored trades starting_equity_usdt;
  }

-- The entries of a group dictionary, counted.
module _ {T : Type 0} where
  abbrev grouped : Dict (List T) → ℕ
  grouped [] = 0
  grouped ((_, xs) ∷ g) = length xs + grouped g

  grouped-insert :
      (k : String) (xs : List T) (g : Dict (List T))
      → grouped (insert k xs g) + length (from_option [] (lookup k g)) ≡ grouped g + length xs
  grouped-insert k xs [] = omega arith
  grouped-insert k xs ((j, ys) ∷ g) = ground (arith, grouped-insert k xs g)

module _ {T : Type 0} (key_of : T → Option String) (catch_all : String) where
  grouped-group_from :
      (g : Dict (List T)) (ts : List T)
      → grouped (group_from key_of catch_all g ts) ≡ grouped g + length ts
  unfolding group_from
  grouped-group_from g [] = omega arith
  grouped-group_from g (t ∷ ts) =
      let k = group_key key_of catch_all t in
      let old = from_option [] (lookup k g) in
      omega (
        arith,
        grouped-group_from (insert k (old ++ (t ∷ [])) g) ts,
        grouped-insert k (old ++ (t ∷ [])) g,
        length-append old (t ∷ []),
      )

  -- A group holds, in their order, exactly the trades with its key.
  lookup-group_from :
      (k : String) (g : Dict (List T)) (ts : List T)
      → from_option [] (lookup k (group_from key_of catch_all g ts))
        ≡ from_option [] (lookup k g) ++ filter (λ t. str_eq (group_key key_of catch_all t) k) ts
  unfolding group_from
  lookup-group_from k g [] = sym (append-nil _)
  lookup-group_from k g (t ∷ ts) =
      let j = group_key key_of catch_all t in
      let rest = filter (λ t'. str_eq (group_key key_of catch_all t') k) ts in
      lookup-group_from k (add_to_group key_of catch_all g t) ts
      ∙ ap (λ (o : Option (List T)). from_option [] o ++ rest)
          (lookup-insert j k (from_option [] (lookup j g) ++ (t ∷ [])) g)
      ∙ elim (Bool-cases (str_eq j k)) [
        | inl same ↦
            rw (same, (str_eq_iff j k).0 same)
              (append_assoc (from_option [] (lookup k g)) (t ∷ []) rest)
        | inr other ↦ rw other
      ]

  group_from-IsUnique :
      (g : Dict (List T)) (ts : List T) → IsUnique g → IsUnique (group_from key_of catch_all g ts)
  unfolding group_from
  group_from-IsUnique g [] h = h
  group_from-IsUnique g (t ∷ ts) h =
      group_from-IsUnique (add_to_group key_of catch_all g t) ts (insert-IsUnique _ _ g h)

  -- Each group is the selection of its key.
  groups-All :
      (ts : List T)
      → All
          (λ e. e.1 ≡ filter (λ t. str_eq (group_key key_of catch_all t) e.0) ts)
          (group_from key_of catch_all [] ts)
  groups-All ts =
      let groups = group_from key_of catch_all [] ts in
      All-imp groups (λ e h. sym (ap (from_option []) h) ∙ lookup-group_from e.0 [] ts)
        (IsUnique-lookup groups (group_from-IsUnique [] ts tt))

  -- A group before another: the catch-all group is last, and sizes do not grow within a kind.
  abbrev Before : String × List T → String × List T → Type 0
  Before (j, xs) (k, ys) =
      (str_eq j catch_all ≡ true → str_eq k catch_all ≡ true)
      × (str_eq j catch_all ≡ str_eq k catch_all → length ys ≤ length xs)

  keep : (e f : String × List T) → cohort_le key_of catch_all e f ≡ true → Before e f
  unfolding cohort_le
  keep e f h = ground arith

  swap : (e f : String × List T) → cohort_le key_of catch_all e f ≡ false → Before f e
  unfolding cohort_le
  swap e f h = ground arith

module _ {ℓ κ} {A : Type ℓ} {B : Type κ} where
  IsChain-map {ν} :
      (f : A → B) (R : B → B → Type ν) (xs : List A)
      → IsChain (λ x y. R (f x) (f y)) xs
      → IsChain R (map f xs)
  IsChain-map f R [] h = tt
  IsChain-map f R (x ∷ []) h = tt
  IsChain-map f R (x ∷ y ∷ ys) (r, h) = (r, IsChain-map f R (y ∷ ys) h)

  total_by-map :
      (f : A → B) (g : B → ℕ) (xs : List A) → total_by g (map f xs) ≡ total_by (λ x. g (f x)) xs
  total_by-map f g [] = refl
  total_by-map f g (x ∷ xs) = omega (arith, total_by-map f g xs)

total_by-grouped : {T : Type 0} (g : Dict (List T)) → total_by (λ e. length e.1) g ≡ grouped g
total_by-grouped [] = refl
total_by-grouped (e ∷ g) = omega (arith, total_by-grouped g)

module _ {D : Type 0} ⦃d : Decimal D⦄ (key_of : ClosedTradeMetrics D → Option String)
    (catch_all : String) (trades : List (ClosedTradeMetrics D)) (start : Option D) where
  -- The cohorts share out the trades: their counts add up to the number of trades.
  pub total_by-cohorts :
      total_by (λ c. c.report.trades) (cohorts key_of catch_all trades start) ≡ length trades
  unfolding cohorts summarize
  total_by-cohorts =
      let groups = group_from key_of catch_all [] trades in
      total_by-map _ (λ c. c.report.trades) (sort_by (cohort_le key_of catch_all) groups)
      ∙ total_by-sort_by (cohort_le key_of catch_all) (λ e. length e.1) groups
      ∙ total_by-grouped groups
      ∙ grouped-group_from key_of catch_all [] trades
      ∙ omega arith

  -- Every cohort's report is the summary of the trades with its key, in their order.
  pub cohorts-All :
      All
        (λ c.
          c.report
          ≡ summarize (filter (λ t. str_eq (group_key key_of catch_all t) c.key) trades) start)
        (cohorts key_of catch_all trades start)
  unfolding cohorts
  cohorts-All =
      let groups = group_from key_of catch_all [] trades in
      All-map _ _ _ (
        All-sort_by (cohort_le key_of catch_all) _ groups (
          All-imp groups (λ e h. ap (λ ts. summarize ts start) h)
            (groups-All key_of catch_all trades)))

  -- The cohorts stand in order: the catch-all cohort is not before another, and among the others the
  -- number of trades does not grow.
  cohorts-IsChain :
      IsChain
        (λ b c.
          (str_eq b.key catch_all ≡ true → str_eq c.key catch_all ≡ true)
          × (str_eq b.key catch_all ≡ str_eq c.key catch_all → c.report.trades ≤ b.report.trades))
        (cohorts key_of catch_all trades start)
  unfolding cohorts summarize
  cohorts-IsChain = IsChain-map _ _ _ (
      sort_by-IsChain (cohort_le key_of catch_all) (Before key_of catch_all) (keep key_of catch_all)
        (swap key_of catch_all) (group_from key_of catch_all [] trades))
