-- ===== src/Backtest/Sizes.antt =====
-- The sizes of the positions of a ledger, when a position is added, changed or deleted.
use trade_mind.Prelude.{
  suc, ◌≤◌, ◌≡◌, refl, none, some, List, [], ◌∷◌, ◌++◌, ap, subst, arith, inl, inr, length,
  Bool-cases, All, String, str_eq, str_eq_iff, map,
}
use mathlib.Core.Option.{some-injective}
use trade_mind.Prelude.Dict.{Dict, insert, erase, lookup, keys}
use trade_mind.Decimal.{Decimal, dzero, ◌⊕◌, sum_from}
use trade_mind.Decimal.Order.{◌≼◌, IsOrdered, le-add_right}
use trade_mind.Backtest.{SimPosition, sizes}

module _ {ℓ κ} {V : Type ℓ} (P : String × V → Type κ) where
  pub All-insert : (k : String) (v : V) (d : Dict V) → P (k, v) → All P d → All P (insert k v d)
  All-insert k v [] p h = (p, tt)
  All-insert k v ((j, w) ∷ d) p (q, h) = elim (Bool-cases (str_eq j k)) [
    | inl same ↦ rw same (p, h)
    | inr other ↦ rw other (q, All-insert k v d p h)
  ]

  pub All-erase : (k : String) (d : Dict V) → All P d → All P (erase k d)
  All-erase k [] h = tt
  All-erase k ((j, w) ∷ d) (q, h) = elim (Bool-cases (str_eq j k)) [
    | inl same ↦ rw same h
    | inr other ↦ rw other (q, All-erase k d h)
  ]

  pub All-lookup : (k : String) (d : Dict V) {v : V} → lookup k d ≡ some v → All P d → P (k, v)
  All-lookup k [] e h = ground arith
  All-lookup k ((j, w) ∷ d) {v} e (q, h) = elim (Bool-cases (str_eq j k)) [
    | inl same ↦
        subst (λ x. P (x, v)) ((str_eq_iff j k).0 same)
          (subst (λ y. P (j, y)) (some-injective w v (rw same at e)) q)
    | inr other ↦ All-lookup k d (rw other at e) h
  ]

module _ {ℓ} {V : Type ℓ} where
  pub length-keys : (d : Dict V) → length (keys d) ≡ length d
  length-keys [] = refl
  length-keys ((k, v) ∷ d) = ap suc (length-keys d)

  pub length-erase : (k : String) (d : Dict V) → length (erase k d) ≤ length d
  length-erase k [] = omega arith
  length-erase k ((j, v) ∷ d) = ground (arith, length-erase k d)

  pub length-insert_new : (k : String) (v : V) (d : Dict V) → length (insert k v d) ≤ suc (length d)
  length-insert_new k v [] = omega arith
  length-insert_new k v ((j, w) ∷ d) = ground (arith, length-insert_new k v d)

  pub length-insert_old :
      (k : String) (v w : V) (d : Dict V) → lookup k d ≡ some w → length (insert k v d) ≡ length d
  length-insert_old k v w [] e = ground arith
  length-insert_old k v w ((j, u) ∷ d) e = ground (arith, length-insert_old k v w d)

module _ {D : Type 0} ⦃d : Decimal D⦄ where
  pub sum_from-snoc :
      (acc : D) (xs : List D) (x : D) → sum_from acc (xs ++ (x ∷ [])) ≡ sum_from acc xs ⊕ x
  sum_from-snoc acc [] x = refl
  sum_from-snoc acc (y ∷ xs) x = sum_from-snoc (acc ⊕ y) xs x

  pub sum_from-map-snoc :
      {A : Type 0} (f : A → D) (acc : D) (ts : List A) (t : A)
      → sum_from acc (map f (ts ++ (t ∷ []))) ≡ sum_from acc (map f ts) ⊕ f t
  sum_from-map-snoc f acc [] t = refl
  sum_from-map-snoc f acc (u ∷ ts) t = sum_from-map-snoc f (acc ⊕ f u) ts t

  pub sizes-insert_new :
      (k : String) (p : SimPosition D) (ps : Dict (SimPosition D))
      → lookup k ps ≡ none
      → sizes (insert k p ps) ≡ sizes ps ++ (p.size_usdt ∷ [])
  sizes-insert_new k p [] e = refl
  sizes-insert_new k p ((j, q) ∷ ps) e = ground (arith, sizes-insert_new k p ps)

  pub sizes-insert_old :
      (k : String) (p q : SimPosition D) (ps : Dict (SimPosition D))
      → lookup k ps ≡ some q
      → p.size_usdt ≡ q.size_usdt
      → sizes (insert k p ps) ≡ sizes ps
  sizes-insert_old k p q [] e same = ground arith
  sizes-insert_old k p q ((j, u) ∷ ps) e same = ground (arith, sizes-insert_old k p q ps)

  module _ (laws : IsOrdered D) where
    open laws use {le_refl, le_trans, add_mono}

    pub sum_from_mono : (xs : List D) (a b : D) → a ≼ b → sum_from a xs ≼ sum_from b xs
    sum_from_mono [] a b h = h
    sum_from_mono (x ∷ xs) a b h = sum_from_mono xs (a ⊕ x) (b ⊕ x) (add_mono a b x x h (le_refl x))

    -- Where no size is negative, the total without a position is no more.
    pub sum_from-sizes-erase :
        (k : String) (ps : Dict (SimPosition D)) (acc : D)
        → All (λ e. dzero ≼ e.1.size_usdt) ps
        → sum_from acc (sizes (erase k ps)) ≼ sum_from acc (sizes ps)
    sum_from-sizes-erase k [] acc h = le_refl acc
    sum_from-sizes-erase k ((j, p) ∷ ps) acc (n, h) = elim (Bool-cases (str_eq j k)) [
      | inl same ↦
          rw same
            (sum_from_mono (sizes ps) acc (acc ⊕ p.size_usdt) (le-add_right laws acc p.size_usdt n))
      | inr other ↦ rw other (sum_from-sizes-erase k ps (acc ⊕ p.size_usdt) h)
    ]
