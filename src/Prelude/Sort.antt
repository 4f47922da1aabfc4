-- ===== src/Prelude/Sort.antt =====
-- Python's `sorted`: stable, by a test that says when the first may stand before the second.
use trade_mind.Prelude.Tests.{if◌then◌else◌}
use Prim.Native.Nat.{ℕ, ◌+◌}
use mathlib.Core.Path.{◌≡◌, refl}
use mathlib.Core.Bool.{Bool, true, false}
use mathlib.Core.List.{List, [], ◌∷◌}
use native.Mathlib.Omega.{arith}
use trade_mind.Prelude.Lists.{All}

module _ {ℓ} {A : Type ℓ} where
  abbrev pub total_by : (A → ℕ) → List A → ℕ
  total_by f [] = 0
  total_by f (x ∷ xs) = f x + total_by f xs

  -- Each entry stands in a relation to the next.
  abbrev pub IsChain {κ} : (A → A → Type κ) → List A → Type κ
  IsChain R [] = Unit
  IsChain R (x ∷ []) = Unit
  IsChain R (x ∷ y ∷ ys) = R x y × IsChain R (y ∷ ys)

module _ {ℓ} {A : Type ℓ} (le : A → A → Bool) where
  unfoldable pub insert_by : A → List A → List A
  insert_by x [] = x ∷ []
  insert_by x (y ∷ ys) = if le x y then x ∷ y ∷ ys else y ∷ insert_by x ys

  unfoldable pub sort_by : List A → List A
  unfolding insert_by
  sort_by [] = []
  sort_by (x ∷ xs) = insert_by x (sort_by xs)

  total_by-insert_by :
      (f : A → ℕ) (x : A) (ys : List A) → total_by f (insert_by x ys) ≡ f x + total_by f ys
  unfolding insert_by
  total_by-insert_by f x [] = refl
  total_by-insert_by f x (y ∷ ys) = ground (arith, total_by-insert_by f x ys)

  -- Sorting keeps every total.
  pub total_by-sort_by : (f : A → ℕ) (xs : List A) → total_by f (sort_by xs) ≡ total_by f xs
  unfolding sort_by
  total_by-sort_by f [] = refl
  total_by-sort_by f (x ∷ xs) =
      omega (arith, total_by-sort_by f xs, total_by-insert_by f x (sort_by xs))

  All-insert_by {κ} :
      (P : A → Type κ) (x : A) (ys : List A) → P x → All P ys → All P (insert_by x ys)
  unfolding insert_by
  All-insert_by P x [] p h = (p, tt)
  All-insert_by P x (y ∷ ys) p (q, h) = go (le x y) (All-insert_by P x ys p h)
    where
      go :
          (b : Bool) → All P (insert_by x ys) → All P (if b then x ∷ y ∷ ys else y ∷ insert_by x ys)
      go true _ = (p, (q, h))
      go false later = (q, later)

  pub All-sort_by {κ} : (P : A → Type κ) (xs : List A) → All P xs → All P (sort_by xs)
  unfolding sort_by
  All-sort_by P [] h = tt
  All-sort_by P (x ∷ xs) (p, h) = All-insert_by P x (sort_by xs) p (All-sort_by P xs h)

  insert_by-All {κ} :
      (P : A → Type κ) (x : A) (ys : List A) → All P (insert_by x ys) → P x × All P ys
  unfolding insert_by
  insert_by-All P x [] (p, h) = (p, tt)
  insert_by-All P x (y ∷ ys) h = go (le x y) (insert_by-All P x ys) h
    where
      go :
          (b : Bool)
          → (All P (insert_by x ys) → P x × All P ys)
          → All P (if b then x ∷ y ∷ ys else y ∷ insert_by x ys)
          → P x × All P (y ∷ ys)
      go true _ (p, h') = (p, h')
      go false later (q, h') = let (p, h'') = later h' in (p, (q, h''))

  -- Sorting leaves nothing out.
  pub sort_by-All {κ} : (P : A → Type κ) (xs : List A) → All P (sort_by xs) → All P xs
  unfolding sort_by
  sort_by-All P [] h = tt
  sort_by-All P (x ∷ xs) h =
      let (p, h') = insert_by-All P x (sort_by xs) h in (p, sort_by-All P xs h')

  -- The list from `x` on, with `x` before it.
  abbrev Leads {κ} : (A → A → Type κ) → A → List A → Type κ
  Leads R x [] = Unit
  Leads R x (y ∷ ys) = R x y

  IsChain-cons {κ} :
      (R : A → A → Type κ) (x : A) (ys : List A) → Leads R x ys → IsChain R ys → IsChain R (x ∷ ys)
  IsChain-cons R x [] l c = tt
  IsChain-cons R x (y ∷ ys) l c = (l, c)

  chain-Leads {κ} : (R : A → A → Type κ) (x : A) (ys : List A) → IsChain R (x ∷ ys) → Leads R x ys
  chain-Leads R x [] c = tt
  chain-Leads R x (y ∷ ys) c = c.0

  IsChain-tail {κ} : (R : A → A → Type κ) (x : A) (ys : List A) → IsChain R (x ∷ ys) → IsChain R ys
  IsChain-tail R x [] c = tt
  IsChain-tail R x (y ∷ ys) c = c.1

  module _ {κ} (R : A → A → Type κ) (keep : (x y : A) → le x y ≡ true → R x y)
      (swap : (x y : A) → le x y ≡ false → R y x) where
    Leads-insert_by : (y x : A) (ys : List A) → R y x → Leads R y ys → Leads R y (insert_by x ys)
    unfolding insert_by
    Leads-insert_by y x [] r l = r
    Leads-insert_by y x (z ∷ zs) r l =
        elim (le x z) as (λ b. Leads R y (if b then x ∷ z ∷ zs else z ∷ insert_by x zs)) [
          | true ↦ r
          | false ↦ l
        ]

    insert_by-IsChain : (x : A) (ys : List A) → IsChain R ys → IsChain R (insert_by x ys)
    unfolding insert_by
    insert_by-IsChain x [] c = tt
    insert_by-IsChain x (y ∷ ys) c =
        go (insert_by-IsChain x ys (IsChain-tail R y ys c)) (le x y) refl
      where
        go :
            IsChain R (insert_by x ys)
            → (b : Bool) → le x y ≡ b
            → IsChain R (if b then x ∷ y ∷ ys else y ∷ insert_by x ys)
        go later true e = (keep x y e, c)
        go later false e =
            IsChain-cons R y (insert_by x ys)
              (Leads-insert_by y x ys (swap x y e) (chain-Leads R y ys c)) later

    -- A test that keeps a relation when it says yes, and its converse when it says no, sorts by it.
    pub sort_by-IsChain : (xs : List A) → IsChain R (sort_by xs)
    unfolding sort_by
    sort_by-IsChain [] = tt
    sort_by-IsChain (x ∷ xs) = insert_by-IsChain x (sort_by xs) (sort_by-IsChain xs)
