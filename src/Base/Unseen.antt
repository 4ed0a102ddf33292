-- ===== src/Base/Unseen.antt =====
-- How many numbers below a bound are not in a list: the measure of a search that never looks twice
-- at one place.
use Prim.Native.Nat.{ℕ, zero, suc, ◌+◌, ◌≤◌, ◌<◌}
use mathlib.Core.Path.{◌≡◌, refl}
use mathlib.Core.Logic.{inl, inr}
use mathlib.Core.Bool.{Bool, false, ◌||◌}
use mathlib.Core.List.{List, [], ◌∷◌}
use native.Mathlib.Omega.{arith}
use core_py.Base.Tests.{◌==◌, if◌then◌else◌, Bool-cases}
use core_py.Base.Lists.{length}

-- `n in seen`
unfoldable pub mem : ℕ → List ℕ → Bool
mem n [] = false
mem n (x ∷ xs) = n == x || mem n xs

unfoldable pub unseen : ℕ → List ℕ → ℕ
unseen zero seen = 0
unseen (suc n) seen = (if mem n seen then 0 else 1) + unseen n seen

unseen-le : (n : ℕ) (seen : List ℕ) → unseen n seen ≤ n
unfolding unseen
unseen-le zero seen = omega arith
unseen-le (suc n) seen = ground (arith, unseen-le n seen)

pub unseen-nil : (n : ℕ) → unseen n [] ≡ n
unfolding unseen mem
unseen-nil zero = refl
unseen-nil (suc n) = omega (arith, unseen-nil n)

-- A number that is not below the bound changes nothing.
unseen-cons_above : (n a : ℕ) (seen : List ℕ) → n ≤ a → unseen n (a ∷ seen) ≡ unseen n seen
unfolding unseen mem
unseen-cons_above zero a seen h = refl
unseen-cons_above (suc n) a seen h = ground (arith, unseen-cons_above n a seen)

-- A new number below the bound makes one fewer.
pub unseen-cons :
    (n a : ℕ) (seen : List ℕ) → a < n → mem a seen ≡ false → unseen n (a ∷ seen) + 1 ≡ unseen n seen
unfolding unseen mem
unseen-cons zero a seen h new = elim h [ ]
unseen-cons (suc n) a seen h new = elim (Bool-cases (a == n)) [
  | inl e ↦ ground (arith, unseen-cons_above n a seen)
  | inr e ↦ ground (arith, unseen-cons n a seen)
]

unseen-cons_le : (n a : ℕ) (seen : List ℕ) → unseen n seen ≤ unseen n (a ∷ seen) + 1
unfolding unseen mem
unseen-cons_le zero a seen = omega arith
unseen-cons_le (suc n) a seen = elim (Bool-cases (n == a)) [
  | inl e ↦ ground (arith, unseen-cons_above n a seen)
  | inr e ↦ ground (arith, unseen-cons_le n a seen)
]

-- Fewer entries than numbers leave some number unseen.
pub unseen-pos : (n : ℕ) (seen : List ℕ) → n ≤ unseen n seen + length seen
unseen-pos n [] = omega (arith, unseen-nil n)
unseen-pos n (a ∷ seen) = omega (arith, unseen-pos n seen, unseen-cons_le n a seen)

pub unseen_number :
    (n : ℕ) (seen : List ℕ) → 0 < unseen n seen → (a : ℕ) × (a < n) × (mem a seen ≡ false)
unfolding unseen
unseen_number zero seen h = absurd (omega arith)
unseen_number (suc n) seen h = elim (Bool-cases (mem n seen)) [
  | inr new ↦ (n, omega arith, new)
  | inl old ↦ let (a, below, new) = unseen_number n seen (ground arith) in (a, omega arith, new)
]
