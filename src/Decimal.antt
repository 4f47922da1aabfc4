-- ===== src/Decimal.antt =====
-- What the program uses of Python's `decimal.Decimal`: a type of numbers with its arithmetic and
-- comparisons, taken as an interface. Values are finite (the schemas refuse NaN and infinities), and
-- two spellings of one number are one value.
use trade_mind.Prelude.{
  ℕ, Bool, true, not, ◌&&◌, ◌≡◌, ◌⊎◌, Option, none, some, if◌then◌else◌, List, [], ◌∷◌,
}
pub mod Order
pub mod Fixed

pub record Decimal (D : Type 0) : Type 0 where
  -- `lit 15 3` is `Decimal("0.015")`: a coefficient and the digits behind the point.
  pub lit : ℕ → ℕ → D
  pub le : D → D → Bool
  pub add : D → D → D
  pub sub : D → D → D
  pub neg : D → D
  pub mul : D → D → D
  -- The quotient, where the divisor is not zero.
  pub quot : D → D → D

module _ {D : Type 0} ⦃d : Decimal D⦄ where
  abbrev pub lit : ℕ → ℕ → D
  lit = d.lit

  abbrev pub dzero : D
  dzero = d.lit 0 0

  abbrev pub done : D
  done = d.lit 1 0

  -- `Decimal(n)` of an integer.
  abbrev pub of_int : ℕ → D
  of_int n = d.lit n 0

  infix 50 ◌≦◌ ◌⋖◌
  abbrev pub ◌≦◌ : D → D → Bool
  ◌≦◌ = d.le

  abbrev pub ◌⋖◌ : D → D → Bool
  a ⋖ b = not (d.le b a)

  infixl 65 ◌⊕◌ ◌⊖◌
  infixl 70 ◌⊗◌
  abbrev pub ◌⊕◌ : D → D → D
  ◌⊕◌ = d.add

  abbrev pub ◌⊖◌ : D → D → D
  ◌⊖◌ = d.sub

  abbrev pub ◌⊗◌ : D → D → D
  ◌⊗◌ = d.mul

  abbrev pub negate : D → D
  negate = d.neg

  -- `a == 0`
  abbrev pub is_zero : D → Bool
  is_zero a = d.le a dzero && d.le dzero a

  -- `a / b`; `none` is `decimal.DivisionByZero` (or `InvalidOperation` for 0 / 0).
  abbrev pub ◌÷◌ : D → D → Option D
  ◌÷◌ a b = if is_zero b then none else some (d.quot a b)

  -- Python's `max(a, b)` and `min(a, b)`: the first, unless the second is strictly beyond it.
  abbrev pub dmax : D → D → D
  dmax a b = if a ⋖ b then b else a

  abbrev pub dmin : D → D → D
  dmin a b = if b ⋖ a then b else a

  -- `sum(xs, Decimal("0"))`, from the left.
  abbrev pub sum_from : D → List D → D
  sum_from acc [] = acc
  sum_from acc (x ∷ xs) = sum_from (acc ⊕ x) xs

  abbrev pub dsum : List D → D
  dsum = sum_from dzero
