-- ===== src/Risk/Account/Clusters.antt =====
-- What counting losses in clusters amounts to.
use trade_mind.Prelude.{
  ℕ, ◌+◌, ◌≤◌, ◌<◌, ◌≡◌, refl, Option, none, some, List, [], ◌∷◌, map, arith, length, All,
}
use trade_mind.Domain.{Time}
use trade_mind.Risk.Account.{count_events}

-- The accumulator only adds.
count_events_add :
    (window n : ℕ) (start : Option Time) (closes : List (Option Time))
    → count_events window n start closes ≡ n + count_events window 0 start closes
unfolding count_events
count_events_add window n start [] = omega arith
count_events_add window n start (none ∷ cs) =
    omega (arith, count_events_add window (n + 1) none cs, count_events_add window (0 + 1) none cs)
count_events_add window n none (some t ∷ cs) = omega (
  arith,
  count_events_add window (n + 1) (some t) cs,
  count_events_add window (0 + 1) (some t) cs,
)
count_events_add window n (some s) (some t ∷ cs) = ground (
  arith,
  count_events_add window (n + 1) (some t) cs,
  count_events_add window (0 + 1) (some t) cs,
  count_events_add window n (some s) cs,
)

count_events_le :
    (window : ℕ) (start : Option Time) (closes : List (Option Time))
    → count_events window 0 start closes ≤ length closes
unfolding count_events
count_events_le window start [] = omega arith
count_events_le window start (none ∷ cs) =
    omega (arith, count_events_add window (0 + 1) none cs, count_events_le window none cs)
count_events_le window none (some t ∷ cs) =
    omega (arith, count_events_add window (0 + 1) (some t) cs, count_events_le window (some t) cs)
count_events_le window (some s) (some t ∷ cs) = ground (
  arith,
  count_events_add window (0 + 1) (some t) cs,
  count_events_le window (some t) cs,
  count_events_le window (some s) cs,
)

-- A streak of losses is at least one event, and no more events than losses.
pub count_events_bounds :
    (window : ℕ) (close : Option Time) (closes : List (Option Time))
    → (1 ≤ count_events window 0 none (close ∷ closes))
      × (count_events window 0 none (close ∷ closes) ≤ length (close ∷ closes))
unfolding count_events
count_events_bounds window none closes =
    omega (arith, count_events_add window (0 + 1) none closes, count_events_le window none closes)
count_events_bounds window (some t) closes =
    omega (
      arith,
      count_events_add window (0 + 1) (some t) closes,
      count_events_le window (some t) closes,
    )

within_one :
    (window n s : ℕ) (times : List ℕ)
    → All (λ t. t ≤ s + window) times
    → count_events window n (some s) (map some times) ≡ n
unfolding count_events
within_one window n s [] h = refl
within_one window n s (t ∷ ts) (p, h) = ground (arith, within_one window n s ts h)

-- Losses that all close within the window of the first of them are one event, however many. Every
-- close is known. This holds for a window of zero too: losses that close at the same time are then
-- one event.
pub count_events_one :
    (window s : ℕ) (times : List ℕ)
    → All (λ t. t ≤ s + window) times
    → count_events window 0 none (map some (s ∷ times)) ≡ 1
unfolding count_events
count_events_one window s times h = within_one window (0 + 1) s times h

-- Every close lies more than the window after the one before it.
abbrev pub IsSpread : ℕ → ℕ → List ℕ → Type 0
IsSpread window s [] = Unit
IsSpread window s (t ∷ ts) = (s + window < t) × IsSpread window t ts

spread_all :
    (window n s : ℕ) (times : List ℕ)
    → IsSpread window s times
    → count_events window n (some s) (map some times) ≡ n + length times
unfolding count_events
spread_all window n s [] h = omega arith
spread_all window n s (t ∷ ts) (p, h) = ground (arith, spread_all window (n + 1) t ts h)

-- Losses with known closes, each more than the window after the one before, are an event each.
pub count_events_spread :
    (window s : ℕ) (times : List ℕ)
    → IsSpread window s times
    → count_events window 0 none (map some (s ∷ times)) ≡ length (s ∷ times)
unfolding count_events
count_events_spread window s times h = omega (arith, spread_all window (0 + 1) s times h)
