-- ===== src/Decimal/Order.antt =====
-- The laws of `decimal` that the proofs rely on, and what follows for the comparisons. Decimal
-- arithmetic is correctly rounded, so every operation is monotone; a result that fits the precision
-- (28 digits, which every column and every result has) is exact, so 0 and 1 are neutral.
use trade_mind.Prelude.{ℕ, suc, ◌≤◌, true, false, ◌≡◌, ◌⊎◌, arith, subst}
use trade_mind.Decimal.{Decimal, dzero, done, ◌⋖◌, ◌⊕◌, ◌⊖◌, ◌⊗◌, dmax, dmin, of_int, negate}

infix 4 ◌≼◌
abbrev pub ◌≼◌ : {D : Type 0} ⦃d : Decimal D⦄ → D → D → Type 0
◌≼◌ ⦃d⦄ a b = d.le a b ≡ true

pub record IsOrdered (D : Type 0) ⦃d : Decimal D⦄ : Type 0 where
  pub le_refl : (a : D) → a ≼ a
  pub le_trans : (a b c : D) → a ≼ b → b ≼ c → a ≼ c
  pub le_total : (a b : D) → (a ≼ b) ⊎ (b ≼ a)
  pub zero-le-one : ◌≼◌ {D = D} dzero done
  pub add_mono : (a b c e : D) → a ≼ b → c ≼ e → a ⊕ c ≼ b ⊕ e
  pub add-zero : (a : D) → a ⊕ dzero ≡ a
  pub zero-add : (a : D) → dzero ⊕ a ≡ a
  pub sub_nonneg : (a b : D) → a ≼ b → dzero ≼ b ⊖ a
  -- The rounding of `1 - a` is undone by the rounding of the sum.
  pub add-sub-le-one : (a : D) → dzero ≼ a → a ≼ done → a ⊕ (done ⊖ a) ≼ done
  pub sub-le_self : (a b : D) → dzero ≼ b → dzero ≼ a → a ⊖ b ≼ a
  pub mul_nonneg : (a b : D) → dzero ≼ a → dzero ≼ b → dzero ≼ a ⊗ b
  pub mul_mono : (a b c e : D) → dzero ≼ a → a ≼ b → dzero ≼ c → c ≼ e → a ⊗ c ≼ b ⊗ e
  pub mul-one : (a : D) → dzero ≼ a → a ⊗ done ≡ a
  pub one-mul : (a : D) → dzero ≼ a → done ⊗ a ≡ a
  -- Integers keep their order, and a successor is not zero.
  pub of_int_mono : (m n : ℕ) → m ≤ n → ◌≼◌ {D = D} (of_int m) (of_int n)
  pub of_int_pos : (n : ℕ) → ◌⋖◌ {D = D} dzero (of_int (suc n)) ≡ true
  pub neg_pos : (a : D) → (a ⋖ dzero) ≡ true → (dzero ⋖ negate a) ≡ true
  pub quot_nonneg : (a b : D) → dzero ≼ a → dzero ≼ b → dzero ≼ d.quot a b
  pub quot-le-one : (a b : D) → dzero ≼ a → a ≼ b → d.quot a b ≼ done

module _ {D : Type 0} ⦃d : Decimal D⦄ (laws : IsOrdered D) where
  open laws use {le_refl, le_trans, le_total, mul_mono, mul-one, add_mono, add-zero, zero-add}

  pub le_of_lt : (a b : D) → (a ⋖ b) ≡ true → a ≼ b
  le_of_lt a b h = ground (arith, le_total a b)

  pub le_of_not_lt : (a b : D) → (b ⋖ a) ≡ false → a ≼ b
  le_of_not_lt a b h = ground arith

  pub dmax_bounds : (a b : D) → (a ≼ dmax a b) × (b ≼ dmax a b)
  dmax_bounds a b = ground (arith, le_total a b, le_refl a, le_refl b)

  pub dmin_bounds : (a b : D) → (dmin a b ≼ a) × (dmin a b ≼ b)
  dmin_bounds a b = ground (arith, le_total a b, le_refl a, le_refl b)

  pub dmax-le : (a b c : D) → a ≼ c → b ≼ c → dmax a b ≼ c
  dmax-le a b c h k = ground arith

  pub le-dmin : (a b c : D) → c ≼ a → c ≼ b → c ≼ dmin a b
  le-dmin a b c h k = ground arith

  -- A factor of at most one does not enlarge.
  pub mul-le_self : (a b : D) → dzero ≼ a → dzero ≼ b → b ≼ done → a ⊗ b ≼ a
  mul-le_self a b ha hb h =
      subst (λ t. a ⊗ b ≼ t) (mul-one a ha) (mul_mono a a b done ha (le_refl a) hb h)

  pub le-add_right : (a b : D) → dzero ≼ b → a ≼ a ⊕ b
  le-add_right a b h = subst (λ t. t ≼ a ⊕ b) (add-zero a) (add_mono a a dzero b (le_refl a) h)

  pub le-add_left : (a b : D) → dzero ≼ b → a ≼ b ⊕ a
  le-add_left a b h = subst (λ t. t ≼ b ⊕ a) (zero-add a) (add_mono dzero b a a h (le_refl a))
